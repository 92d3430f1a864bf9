-- ===== src/Crypto.antt =====
-- The keys of src/crypto/keys.rs: their derivation, and the AEAD with its nonces. The `ring` crate
-- is the interface `RingLib`.

pub mod Nonce
pub mod Lost
pub mod Tls
pub mod Protection
pub mod Start
pub mod RoundTrip
pub mod Cut
pub mod Header
use Prim.Native.Char.{code}
use Prim.Native.Nat.{bit_xor}
use Prim.Native.String.{String}
use dummy_h.Prelude.{
  ℕ, ◌/◌, ◌%◌, ◌^◌, ◌≡◌, ◌↔◌, Bool, true, Option, none, some, [], ◌∷◌, ◌++◌, if◌then◌else◌, length,
  take, drop, replicate,
}
use dummy_h.Error.{TlsError, H3Error, tls, Result, ok, err, ◌>>=◌}
use dummy_h.Varint.{Bytes}

-- HKDF with SHA-256 and AES-128-GCM as `ring` documents them. `expand` fills a buffer of the length
-- it is asked for; a key is accepted exactly if it has the algorithm's 16 bytes; what was sealed is
-- opened by the same key, nonce and additional data.
pub record RingLib : Type 0 where
  pub extract : Bytes → Bytes → Bytes
  pub expand : Bytes → Bytes → ℕ → Option Bytes
  pub accepts_key : Bytes → Bool
  pub seal_in_place_append_tag : Bytes → Bytes → Bytes → Bytes → Option Bytes
  pub open_in_place : Bytes → Bytes → Bytes → Bytes → Option Bytes
  pub length-expand : (prk info okm : Bytes) (n : ℕ) → expand prk info n ≡ some okm → length okm ≡ n
  pub accepts_key_iff : (key : Bytes) → (accepts_key key ≡ true) ↔ (length key ≡ 16)
  pub open-seal :
      (key nonce aad bytes sealed : Bytes)
      → seal_in_place_append_tag key nonce aad bytes ≡ some sealed
      → open_in_place key nonce aad sealed ≡ some bytes

pub data KeyPhase : Type 0 where
  initial handshake zero_rtt one_rtt_phase0 one_rtt_phase1 : KeyPhase

pub data EncryptionLevel : Type 0 where
  initial zero_rtt handshake one_rtt : EncryptionLevel

pub record KeySet : Type 0 where
  pub level : EncryptionLevel
  pub phase : KeyPhase
  pub client_key : Bytes
  pub server_key : Bytes
  pub client_iv : Bytes
  pub server_iv : Bytes
  pub hp_key : Bytes

unfoldable pub empty_keys : EncryptionLevel → KeyPhase → KeySet
empty_keys level phase = record {
  level = level;
  phase = phase;
  client_key = [];
  server_key = [];
  client_iv = [];
  server_iv = [];
  hp_key = [];
}

unfoldable pub write_key : KeySet → Bool → Bytes
write_key k is_client = if is_client then k.client_key else k.server_key

unfoldable pub read_key : KeySet → Bool → Bytes
read_key k is_client = if is_client then k.server_key else k.client_key

unfoldable pub write_iv : KeySet → Bool → Bytes
write_iv k is_client = if is_client then k.client_iv else k.server_iv

unfoldable pub read_iv : KeySet → Bool → Bytes
read_iv k is_client = if is_client then k.server_iv else k.client_iv

-- The bytes of an ASCII literal, `b"…"`.
abbrev pub codes : String → Bytes
codes String.[] = []
codes (String.◌∷◌ c s) = code c ∷ codes s

abbrev pub initial_salt : Bytes
initial_salt =
    0x38 ∷ 0x76 ∷ 0x2c ∷ 0xf7 ∷ 0xf5 ∷ 0x59 ∷ 0x34 ∷ 0xb3 ∷ 0x4d ∷ 0x17 ∷ 0x9a ∷ 0xe6 ∷ 0xa4 ∷ 0xc8
    ∷ 0x0c ∷ 0xad ∷ 0xcc ∷ 0xbb ∷ 0x7f ∷ 0x0a ∷ []

-- Twelve bytes of zero.
abbrev pub default_nonce : Bytes
default_nonce = replicate 12 0

-- `packet_number.to_be_bytes()`
unfoldable pub to_be_bytes : ℕ → Bytes
to_be_bytes n =
    n / 2 ^ 56 % 256
    ∷ n / 2 ^ 48 % 256
    ∷ n / 2 ^ 40 % 256
    ∷ n / 2 ^ 32 % 256
    ∷ n / 2 ^ 24 % 256
    ∷ n / 2 ^ 16 % 256
    ∷ n / 2 ^ 8 % 256
    ∷ n % 256
    ∷ []

-- The bytes of the first list, each changed by the byte of the second at its place.
abbrev pub xor_bytes : Bytes → Bytes → Bytes
xor_bytes [] bs = []
xor_bytes as' [] = as'
xor_bytes (a ∷ as') (b ∷ bs) = bit_xor a b ∷ xor_bytes as' bs

-- The last eight bytes of the twelve.
unfoldable pub update_nonce : Bytes → ℕ → Bytes
unfolding to_be_bytes
update_nonce nonce packet_number =
    take 4 nonce ++ xor_bytes (drop 4 nonce) (to_be_bytes packet_number)

-- A sealing or an opening key: the key, and its nonce sequence, whose `advance` returns the nonce as
-- it stands.
pub record BoundKey : Type 0 where
  pub key : Bytes
  pub nonce : Bytes

unfoldable pub next_nonce : BoundKey → ℕ → BoundKey
unfolding update_nonce
next_nonce k packet_number = record k { nonce = update_nonce k.nonce packet_number }

-- The algorithm is always AES-128-GCM.
pub record Aead : Type 0 where
  pub sealing_key : Option BoundKey
  pub opening_key : Option BoundKey

unfoldable pub new_aead : Aead
new_aead = record { sealing_key = none; opening_key = none }

abbrev pub tls_error {ℓ} : {A : Type ℓ} → TlsError → Result H3Error A
tls_error e = err (tls e)

abbrev pub or_error {ℓ} : {A : Type ℓ} → TlsError → Option A → Result H3Error A
or_error e none = tls_error e
or_error e (some a) = ok a

module _ ⦃R : RingLib⦄ where
  unfoldable pub expand_label : Bytes → Bytes → Bytes → Result H3Error Bytes
  expand_label prk label context =
      let info = 0 ∷ 32 ∷ length label % 256 ∷ (label ++ length context % 256 ∷ context) in
      or_error TlsError.key_derivation_failed (R.expand prk info 32)

  unfoldable pub derive_initial_keys : Bytes → Result H3Error KeySet
  unfolding empty_keys
  derive_initial_keys connection_id =
      let initial_secret = R.extract initial_salt connection_id in
      do
        client_secret ← expand_label initial_secret (codes "client in") []
        server_secret ← expand_label initial_secret (codes "server in") []
        client_key ← expand_label client_secret (codes "quic key") []
        client_iv ← expand_label client_secret (codes "quic iv") []
        server_key ← expand_label server_secret (codes "quic key") []
        server_iv ← expand_label server_secret (codes "quic iv") []
        hp_key ← expand_label initial_secret (codes "quic hp") []
        ok (record (empty_keys EncryptionLevel.initial KeyPhase.initial) {
          client_key = client_key;
          client_iv = client_iv;
          server_key = server_key;
          server_iv = server_iv;
          hp_key = hp_key;
        })

  unfoldable pub bound_key : Bytes → Result H3Error BoundKey
  bound_key key =
      if R.accepts_key key
      then ok (record { key = key; nonce = default_nonce })
      else tls_error TlsError.key_derivation_failed

  -- The part of `init` after the sealing key is set.
  unfoldable pub init_opening : Aead → Result H3Error BoundKey → Aead × Result H3Error (Unit {0})
  init_opening a (err e) = (a, err e)
  init_opening a (ok k) = (record a { opening_key = some k }, ok tt)

  unfoldable pub init_sealing :
      Aead → Result H3Error BoundKey → Bytes → Aead × Result H3Error (Unit {0})
  unfolding init_opening bound_key
  init_sealing a (err e) read = (a, err e)
  init_sealing a (ok k) read = init_opening (record a { sealing_key = some k }) (bound_key read)

  unfoldable pub init : Aead → Bytes → Bytes → Aead × Result H3Error (Unit {0})
  unfolding init_sealing bound_key
  init a write read = init_sealing a (bound_key write) read

  -- The nonce stays updated when sealing fails.
  unfoldable pub seal_with :
      Aead → Option BoundKey → ℕ → Bytes → Bytes → Aead × Result H3Error Bytes
  unfolding next_nonce
  seal_with a none packet_number plain aad = (a, tls_error TlsError.encryption_failed)
  seal_with a (some k) packet_number plain aad =
      let next = next_nonce k packet_number in
      (
        record a { sealing_key = some next },
        or_error TlsError.encryption_failed
            (R.seal_in_place_append_tag next.key next.nonce aad plain),
      )

  unfoldable pub seal : Aead → ℕ → Bytes → Bytes → Aead × Result H3Error Bytes
  unfolding seal_with
  seal a packet_number plain aad = seal_with a a.sealing_key packet_number plain aad

  unfoldable pub unseal_with :
      Aead → Option BoundKey → ℕ → Bytes → Bytes → Aead × Result H3Error Bytes
  unfolding next_nonce
  unseal_with a none packet_number sealed aad = (a, tls_error TlsError.decryption_failed)
  unseal_with a (some k) packet_number sealed aad =
      let next = next_nonce k packet_number in
      (
        record a { opening_key = some next },
        or_error TlsError.decryption_failed (R.open_in_place next.key next.nonce aad sealed),
      )

  unfoldable pub unseal : Aead → ℕ → Bytes → Bytes → Aead × Result H3Error Bytes
  unfolding unseal_with
  unseal a packet_number sealed aad = unseal_with a a.opening_key packet_number sealed aad
