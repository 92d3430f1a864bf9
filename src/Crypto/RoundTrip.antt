-- ===== src/Crypto/RoundTrip.antt =====
-- Packets that `PacketProtection` of src/crypto/protection.rs protects, read back in order by a peer.
use dummy_h.Prelude.{
  ℕ, ◌≡◌, refl, sym, false, Option, none, some, List, [], ◌∷◌, ◌++◌, arith, ltb, le→ltb, length,
  take, drop, All, length-append, take-append_self, drop-append_self,
}
use dummy_h.Error.{TlsError, H3Error, Result, ok, ◌>>=◌, bind_ok}
use dummy_h.Varint.{Bytes}
use dummy_h.Crypto.{
  RingLib, Aead, BoundKey, next_nonce, or_error, seal, seal_with, unseal, unseal_with,
}
use dummy_h.Crypto.Protection.{PacketProtection, protect_packet, unprotect_packet}

pub record Sent : Type 0 where
  pub packet_number : ℕ
  pub header : Bytes
  pub payload : Bytes

or_error-some {ℓ} :
    {A : Type ℓ} (e : TlsError) (o : Option A) (a : A) → or_error e o ≡ ok a → o ≡ some a
or_error-some e none a h = absurd (ground arith)
or_error-some e (some b) a h = ground arith

module _ ⦃R : RingLib⦄ where
  -- One packet, with the same key and nonce on both sides: its text, and the keys that are left.
  unseal-seal :
      (a c : Aead) (k : Option BoundKey) (n : ℕ) (plain aad sealed : Bytes)
      → (seal_with a k n plain aad).1 ≡ ok sealed
      → ((unseal_with c k n sealed aad).1 ≡ ok plain)
        × ((seal_with a k n plain aad).0.sealing_key ≡ (unseal_with c k n sealed aad).0.opening_key)
  unfolding seal_with unseal_with
  unseal-seal a c none n plain aad sealed h = absurd (ground arith)
  unseal-seal a c (some k) n plain aad sealed h =
      let next = next_nonce k n in
      let whole = or_error-some TlsError.encryption_failed _ sealed h in
      (rw (R.open-seal next.key next.nonce aad plain sealed whole) refl, refl)

  unseal-seal_same :
      (a c : Aead) (k k' : Option BoundKey) (n : ℕ) (plain aad sealed : Bytes)
      → k ≡ k'
      → (seal_with a k n plain aad).1 ≡ ok sealed
      → ((unseal_with c k' n sealed aad).1 ≡ ok plain)
        × ((seal_with a k n plain aad).0.sealing_key
            ≡ (unseal_with c k' n sealed aad).0.opening_key)
  unseal-seal_same a c k k' n plain aad sealed e h =
      rw (sym e) (unseal-seal a c k n plain aad sealed h)

module _ {C S : Type 0} ⦃R : RingLib⦄ where
  -- The packets one after the other, up to the first error.
  unfoldable pub protect_all : PacketProtection C S → List Sent → Result H3Error (List (ℕ × Bytes))
  protect_all p [] = ok []
  protect_all p (s ∷ ss) =
      let (p', r) = protect_packet p s.packet_number s.header s.payload in
      r >>= λ b. protect_all p' ss >>= λ bs. ok ((s.packet_number, b) ∷ bs)

  unfoldable pub unprotect_all :
      PacketProtection C S → List (ℕ × Bytes) → Result H3Error (List Sent)
  unprotect_all q [] = ok []
  unprotect_all q ((n, b) ∷ bs) =
      let (q', r) = unprotect_packet q n b in
      r >>= λ (header, payload). unprotect_all q' bs >>= λ ss.
      ok (record { packet_number = n; header = header; payload = payload } ∷ ss)

  unprotect-protect_one :
      (p q : PacketProtection C S) (n : ℕ) (header payload b : Bytes)
      → p.aead.sealing_key ≡ q.aead.opening_key
      → length header ≡ 20
      → (protect_packet p n header payload).1 ≡ ok b
      → ((unprotect_packet q n b).1 ≡ ok (header, payload))
        × ((protect_packet p n header payload).0.aead.sealing_key
            ≡ (unprotect_packet q n b).0.aead.opening_key)
  unfolding protect_packet unprotect_packet seal unseal
  unprotect-protect_one p q n header payload b e l h =
      let (sealed, s, whole) =
        bind_ok (seal_with p.aead p.aead.sealing_key n payload header).1 _ h in
      let c : (header ++ sealed) ≡ b = ground arith in
      let enough : ltb (length (header ++ sealed)) 20 ≡ false =
        le→ltb _ _ (omega (arith, length-append header sealed)) in
      let t : take 20 (header ++ sealed) ≡ header = rw (sym l) (take-append_self header sealed) in
      let d : drop 20 (header ++ sealed) ≡ sealed = rw (sym l) (drop-append_self header sealed) in
      let (plain, keys) = unseal-seal_same p.aead q.aead _ _ n payload header sealed e s in
      rw (sym c, enough, t, d, plain) (refl, keys)

  -- Packets that are protected in order are read back in order, with their headers and payloads, by a
  -- peer whose opening key and nonce are the sender's, if every header has 20 bytes.
  pub unprotect-protect :
      (p q : PacketProtection C S) (ss : List Sent) (bs : List (ℕ × Bytes))
      → p.aead.sealing_key ≡ q.aead.opening_key
      → All (λ s. length s.header ≡ 20) ss
      → protect_all p ss ≡ ok bs
      → unprotect_all q bs ≡ ok ss
  unfolding protect_all unprotect_all
  unprotect-protect p q [] [] e a h = refl
  unprotect-protect p q [] (b ∷ bs) e a h = absurd (ground arith)
  unprotect-protect p q (s ∷ ss) bs e (l, a) h =
      let (b, first, h') = bind_ok (protect_packet p s.packet_number s.header s.payload).1 _ h in
      let p' = (protect_packet p s.packet_number s.header s.payload).0 in
      let (rest, more, h'') = bind_ok (protect_all p' ss) _ h' in
      let c : ((s.packet_number, b) ∷ rest) ≡ bs = cc h'' in
      let (read, keys) = unprotect-protect_one p q s.packet_number s.header s.payload b e l first in
      let ih = unprotect-protect p' (unprotect_packet q s.packet_number b).0 ss rest keys a more in
      rw (sym c, unprotect_all, read, ih) refl
