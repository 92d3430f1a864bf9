-- ===== src/Crypto/Start.antt =====
-- Starting packet protection, in src/crypto/protection.rs: the keys of src/crypto/keys.rs do not have
-- the length of the algorithm's keys.
use dummy_h.Prelude.{
  ◌%◌, ◌≡◌, refl, ap, inl, inr, Bool, true, false, ◌∷◌, ◌++◌, arith, Option-cases, length,
}
use dummy_h.Error.{TlsError, H3Error, tls, Result, ok, err, ◌>>=◌}
use dummy_h.Varint.{Bytes}
use dummy_h.Crypto.{
  RingLib, KeySet, expand_label, derive_initial_keys, empty_keys, write_key, bound_key, init,
  init_sealing,
}
use dummy_h.Crypto.Tls.{TlsSession}
use dummy_h.Crypto.Protection.{new_protection, start_with}

-- The derivation fails in one way only; what it derives has 32 bytes.
abbrev Derived : Result H3Error KeySet → Type 0
Derived (err e) = e ≡ tls TlsError.key_derivation_failed
Derived (ok k) = (length k.client_key ≡ 32) × (length k.server_key ≡ 32)

module _ ⦃R : RingLib⦄ where
  expand_label-Derived :
      (prk label context : Bytes) (f : Bytes → Result H3Error KeySet)
      → ((okm : Bytes) → length okm ≡ 32 → Derived (f okm))
      → Derived (expand_label prk label context >>= f)
  unfolding expand_label
  expand_label-Derived prk label context f h =
      let info = 0 ∷ 32 ∷ length label % 256 ∷ (label ++ length context % 256 ∷ context) in
      elim (Option-cases (R.expand prk info 32)) [
        | inl e ↦ rw e refl
        | inr (okm, e) ↦ rw e (h okm (R.length-expand prk info okm 32 e))
      ]

  derive-Derived : (id : Bytes) → Derived (derive_initial_keys id)
  unfolding derive_initial_keys empty_keys
  derive-Derived id = expand_label-Derived _ _ _ _ λ client l.
      expand_label-Derived _ _ _ _ λ server l'. expand_label-Derived _ _ _ _ λ ck a.
        expand_label-Derived _ _ _ _ λ civ b.
          expand_label-Derived _ _ _ _ λ sk c.
            expand_label-Derived _ _ _ _ λ siv d. expand_label-Derived _ _ _ _ λ hp e. (a, c)

  long-refused :
      (key : Bytes) → length key ≡ 32 → bound_key key ≡ err (tls TlsError.key_derivation_failed)
  unfolding bound_key
  long-refused key l = ground (arith, R.accepts_key_iff key)

  module _ {C S : Type 0} where
    start-Derived :
        (session : TlsSession C S) (is_client : Bool) (r : Result H3Error KeySet)
        → Derived r
        → (r >>= λ keys. start_with session keys is_client)
          ≡ err (tls TlsError.key_derivation_failed)
    unfolding start_with init init_sealing write_key
    start-Derived session is_client (err e) d = ap err d
    start-Derived session true (ok k) (c, s) = rw (long-refused k.client_key c) refl
    start-Derived session false (ok k) (c, s) = rw (long-refused k.server_key s) refl

    -- Packet protection is never created: its keys are derived with 32 bytes each, and the algorithm's
    -- keys have 16.
    pub new_protection_fails :
        (session : TlsSession C S) (id : Bytes) (is_client : Bool)
        → new_protection session id is_client ≡ err (tls TlsError.key_derivation_failed)
    unfolding new_protection
    new_protection_fails session id is_client =
        start-Derived session is_client (derive_initial_keys id) (derive-Derived id)
