-- ===== src/Tests/Protections.antt =====
-- Keys and packet protection of src/crypto at concrete inputs, over a cipher that puts the nonce in
-- front of the text and opens what starts with it.
use dummy_h.Prelude.{
  ℕ, ◌≡◌, refl, sym, ◌≢◌, true, false, Option, none, some, List, [], ◌∷◌, ◌++◌, arith, ◌==◌,
  if◌then◌else◌, ==_iff, ==_refl, length, replicate, length-replicate,
}
use dummy_h.Error.{ok}
use dummy_h.Varint.{Bytes}
use dummy_h.Tests.Packets.{big_endian}
use dummy_h.Crypto.{
  RingLib, BoundKey, default_nonce, to_be_bytes, update_nonce, next_nonce, seal, seal_with,
}
use dummy_h.Crypto.Tls.{TlsSession}
use dummy_h.Crypto.Protection.{
  PacketProtection, protect_packet, apply_header_protection, remove_header_protection,
}
use dummy_h.Crypto.Nonce.{nonce_after, nonce_repeats}
use dummy_h.Crypto.Lost.{nonce-lost}
use dummy_h.Crypto.Header.{remove-apply}
use dummy_h.Crypto.RoundTrip.{Sent, protect_all, unprotect_all, unprotect-protect}

-- What follows the first list in the second.
strip : Bytes → Bytes → Option Bytes
strip [] bs = some bs
strip (a ∷ as') [] = none
strip (a ∷ as') (b ∷ bs) = if a == b then strip as' bs else none

strip-append : (as' bs : Bytes) → strip as' (as' ++ bs) ≡ some bs
unfolding strip
strip-append [] bs = refl
strip-append (a ∷ as') bs = rw (==_refl a) (strip-append as' bs)

instance pub toy_ring : RingLib
unfolding strip
toy_ring = record {
  extract = λ salt ikm. ikm;
  expand = λ prk info n. some (replicate n 7);
  accepts_key = λ key. length key == 16;
  seal_in_place_append_tag = λ key nonce aad bytes. some (nonce ++ bytes);
  open_in_place = λ key nonce aad sealed. strip nonce sealed;
  length-expand = λ prk info okm n e.
      let x : replicate n 7 ≡ okm = ground arith in rw (sym x) (length-replicate n 7);
  accepts_key_iff = λ key. ==_iff (length key) 16;
  open-seal = λ key nonce aad bytes sealed e.
      let x : (nonce ++ bytes) ≡ sealed = ground arith in rw (sym x) (strip-append nonce bytes);
}

abbrev session : TlsSession (Unit {0}) (Unit {0})
session = record {
  is_client = true;
  config = record { client_config = none; server_config = none };
  secrets = record { client_secret = replicate 32 0; server_secret = replicate 32 0 };
}

abbrev bound : BoundKey
bound = record { key = replicate 16 1; nonce = default_nonce }

abbrev sender : PacketProtection (Unit {0}) (Unit {0})
sender = record {
  session = session;
  initial_keys = none;
  handshake_keys = none;
  one_rtt_keys = none;
  aead = record { sealing_key = some bound; opening_key = none };
  is_client = true;
}

abbrev receiver : PacketProtection (Unit {0}) (Unit {0})
receiver = record sender {
  aead = record { sealing_key = none; opening_key = some bound };
  is_client = false;
}

abbrev two_packets : List Sent
two_packets =
    record { packet_number = 1; header = replicate 20 8; payload = 5 ∷ [] }
    ∷ record { packet_number = 2; header = replicate 20 9; payload = 6 ∷ 7 ∷ [] }
    ∷ []

abbrev two_protected : List (ℕ × Bytes)
two_protected =
    (1, replicate 20 8 ++ (replicate 11 0 ++ 1 ∷ 5 ∷ []))
    ∷ (2, replicate 20 9 ++ (replicate 11 0 ++ 3 ∷ 6 ∷ 7 ∷ []))
    ∷ []

two-protected : protect_all sender two_packets ≡ ok two_protected
unfolding protect_all protect_packet seal seal_with next_nonce update_nonce to_be_bytes toy_ring
two-protected = refl

unprotect-protect_example : unprotect_all receiver two_protected ≡ ok two_packets
unprotect-protect_example =
    unprotect-protect sender receiver two_packets two_protected refl (refl, (refl, tt))
      two-protected

nonce_repeats_example :
    nonce_after (replicate 4 0 ++ replicate 8 0) (4 ∷ 5 ∷ 6 ∷ 7 ∷ [])
    ≡ replicate 4 0 ++ replicate 8 0
nonce_repeats_example = nonce_repeats (replicate 4 0) (replicate 8 0) 1 refl

remove-apply_example :
    remove_header_protection
      (apply_header_protection (195 ∷ 1 ∷ 2 ∷ []) (17 ∷ 80 ∷ []))
      (17 ∷ 80 ∷ [])
    ≡ 195 ∷ 1 ∷ 2 ∷ []
remove-apply_example =
    remove-apply (195 ∷ 1 ∷ 2 ∷ []) (17 ∷ 80 ∷ []) (omega arith, (omega arith, (omega arith, tt)))
      (omega arith, (omega arith, tt))

nonce-lost_example :
    nonce_after (replicate 4 0 ++ replicate 8 0) (2 ∷ 3 ∷ [])
    ≢ nonce_after (replicate 4 0 ++ replicate 8 0) (3 ∷ [])
nonce-lost_example =
    nonce-lost (replicate 4 0) (replicate 8 0) 2 (3 ∷ []) refl refl (omega arith)
      (λ e. absurd (omega arith))
