-- ===== src/Crypto/Protection.antt =====
-- `PacketProtection` of src/crypto/protection.rs. A method returns the protection that it leaves with
-- its result.
use Prim.Native.Nat.{bit_and, bit_xor}
use dummy_h.Prelude.{
  ℕ, zero, suc, Bool, Option, none, some, [], ◌∷◌, ◌++◌, ltb, ◌==◌, if◌then◌else◌, length, take,
  drop,
}
use dummy_h.Error.{TlsError, H3Error, Result, ok, ◌>>=◌}
use dummy_h.Varint.{Bytes}
use dummy_h.Crypto.{
  RingLib, KeySet, EncryptionLevel, Aead, new_aead, init, seal, unseal, write_key, read_key,
  derive_initial_keys, tls_error,
}
use dummy_h.Crypto.Tls.{TlsSession}

pub record PacketProtection (C S : Type 0) : Type 0 where
  pub session : TlsSession C S
  pub initial_keys : Option KeySet
  pub handshake_keys : Option KeySet
  pub one_rtt_keys : Option KeySet
  pub aead : Aead
  pub is_client : Bool

-- The mask starts as five zeros, and takes what the sample has.
abbrev pub mask_from : ℕ → Bytes → Bytes
mask_from zero sample = []
mask_from (suc n) [] = 0 ∷ mask_from n []
mask_from (suc n) (b ∷ sample) = bit_xor b 0x55 ∷ mask_from n sample

unfoldable pub generate_header_protection_mask : Bytes → Bytes
generate_header_protection_mask sample = mask_from 5 sample

-- `for i in 1..header.len().min(5)`
abbrev pub xor_rest : Bytes → Bytes → Bytes
xor_rest [] mask = []
xor_rest (h ∷ header) [] = h ∷ header
xor_rest (h ∷ header) (m ∷ mask) = bit_xor h m ∷ xor_rest header mask

unfoldable pub mask_bits : ℕ → ℕ
mask_bits first = if bit_and first 0x80 == 0 then 0x1f else 0x0f

unfoldable pub apply_mask : Bytes → Bytes → Bytes
unfolding mask_bits
apply_mask [] mask = []
apply_mask (h ∷ header) [] = h ∷ header
apply_mask (h ∷ header) (m ∷ mask) = bit_xor h (bit_and m (mask_bits h)) ∷ xor_rest header mask

unfoldable pub apply_header_protection : Bytes → Bytes → Bytes
unfolding apply_mask generate_header_protection_mask
apply_header_protection header sample = apply_mask header (generate_header_protection_mask sample)

unfoldable pub remove_header_protection : Bytes → Bytes → Bytes
unfolding apply_header_protection
remove_header_protection header sample = apply_header_protection header sample

abbrev pub Call {ℓ} : (C S : Type 0) → Type ℓ → Type ℓ
Call C S A = PacketProtection C S × Result H3Error A

module _ {C S : Type 0} where
  abbrev pub with_aead {ℓ} :
      {A B : Type ℓ} → PacketProtection C S → (A → B) → Aead × Result H3Error A → Call C S B
  with_aead p f (a, r) = (record p { aead = a }, r >>= λ x. ok (f x))

  -- `match level { … }`
  abbrev pub store_keys : PacketProtection C S → EncryptionLevel → KeySet → PacketProtection C S
  store_keys p EncryptionLevel.initial keys = record p { initial_keys = some keys }
  store_keys p EncryptionLevel.handshake keys = record p { handshake_keys = some keys }
  store_keys p EncryptionLevel.one_rtt keys = record p { one_rtt_keys = some keys }
  store_keys p EncryptionLevel.zero_rtt keys = p

  module _ ⦃R : RingLib⦄ where
    -- The part of `new` after the initial keys are derived.
    unfoldable pub start_with :
        TlsSession C S → KeySet → Bool → Result H3Error (PacketProtection C S)
    start_with session keys is_client =
        let (a, r) = init new_aead (write_key keys is_client) (read_key keys is_client) in
        r >>= λ u. ok (record {
          session = session;
          initial_keys = some keys;
          handshake_keys = none;
          one_rtt_keys = none;
          aead = a;
          is_client = is_client;
        })

    unfoldable pub new_protection :
        TlsSession C S → Bytes → Bool → Result H3Error (PacketProtection C S)
    unfolding start_with
    new_protection session connection_id is_client = do
      keys ← derive_initial_keys connection_id
      start_with session keys is_client

    unfoldable pub protect_packet : PacketProtection C S → ℕ → Bytes → Bytes → Call C S Bytes
    protect_packet p packet_number header payload =
        with_aead p (λ sealed. header ++ sealed) (seal p.aead packet_number payload header)

    unfoldable pub unprotect_packet : PacketProtection C S → ℕ → Bytes → Call C S (Bytes × Bytes)
    unprotect_packet p packet_number bytes =
        if ltb (length bytes) 20
        then (p, tls_error TlsError.decryption_failed)
        else (with_aead p (λ payload. (take 20 bytes, payload))
            (unseal p.aead packet_number (drop 20 bytes) (take 20 bytes)))

    unfoldable pub update_keys :
        PacketProtection C S → EncryptionLevel → KeySet → Call C S (Unit {0})
    update_keys p level keys =
        let p' = store_keys p level keys in
        let (a, r) = init p'.aead (write_key keys p'.is_client) (read_key keys p'.is_client) in
        (record p' { aead = a }, r)
