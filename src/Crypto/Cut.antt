-- ===== src/Crypto/Cut.antt =====
-- The place where `unprotect_packet` of src/crypto/protection.rs cuts a packet, and the headers of
-- src/transport/packet.rs.
use dummy_h.Prelude.{
  ℕ, ◌%◌, ◌^◌, ◌≡◌, refl, sym, ◌≢◌, ◌⊎◌, inl, inr, Option, none, some, ◌∷◌, ◌++◌, arith, ltb,
  Bool-cases, length, take, drop, length-append, length-take,
}
use dummy_h.Error.{ok, bind_ok}
use dummy_h.Varint.{Bytes}
use dummy_h.Packet.{
  BufLib, PacketType, initial, zero_rtt, handshake, retry, one_rtt, version_negotiation,
  PacketHeader, version_or_one, source_field, long_fields, encode_fields, encode,
}
use dummy_h.Packet.RoundTrip.{IsHeader}
use dummy_h.Crypto.{RingLib, unseal}
use dummy_h.Crypto.Protection.{PacketProtection, unprotect_packet}

length-source_field :
    (s : Option Bytes)
    → ((id : Bytes) → s ≡ some id → length id ≡ 16)
    → (length (source_field s) ≡ 1) ⊎ (length (source_field s) ≡ 17)
length-source_field none h = inl refl
length-source_field (some id) h = inr (omega (arith, h id refl))

module _ ⦃L : BufLib⦄ where
  length-long_fields :
      (h : PacketHeader)
      → IsHeader h
      → (length (long_fields h) ≡ 22) ⊎ (length (long_fields h) ≡ 38)
  unfolding long_fields
  length-long_fields h v =
      let s = h.source_connection_id in
      let u =
        length-append (L.put_u32 (version_or_one h.version))
          (16 ∷ (h.connection_id ++ source_field s)) in
      let w = length-append h.connection_id (source_field s) in
      elim (length-source_field s v.source) [
        | inl e ↦
            inl (omega (arith, u, w, e, v.connection, L.length-put_u32 (version_or_one h.version)))
        | inr e ↦
            inr (omega (arith, u, w, e, v.connection, L.length-put_u32 (version_or_one h.version)))
      ]

  length-long_fields_ne : (h : PacketHeader) → IsHeader h → length (long_fields h) ≢ 15
  length-long_fields_ne h v = λ e. elim (length-long_fields h v) [
    | inl l ↦ absurd (omega arith)
    | inr l ↦ absurd (omega arith)
  ]

  length-encode_fields :
      (t : PacketType) (h : PacketHeader) → IsHeader h → length (encode_fields t h) ≢ 15
  unfolding encode_fields
  length-encode_fields initial h v = length-long_fields_ne h v
  length-encode_fields zero_rtt h v = length-long_fields_ne h v
  length-encode_fields handshake h v = length-long_fields_ne h v
  length-encode_fields retry h v = length-long_fields_ne h v
  length-encode_fields one_rtt h v = λ e. absurd (omega (arith, e, v.connection))
  length-encode_fields version_negotiation h v = λ e. absurd (
      omega (
        arith,
        e,
        v.connection,
        L.length-put_u32 0,
        length-append (L.put_u32 0) (16 ∷ h.connection_id),
      ))

  length-encode : (h : PacketHeader) → IsHeader h → length (encode h) ≢ 20
  unfolding encode
  length-encode h v = λ e. length-encode_fields h.packet_type h v (
      omega (
        arith,
        e,
        L.length-put_u32 (h.packet_number % 2 ^ 32),
        length-append (encode_fields h.packet_type h) (L.put_u32 (h.packet_number % 2 ^ 32)),
      ))

  module _ {C S : Type 0} ⦃R : RingLib⦄ where
    header-twenty :
        (p : PacketProtection C S) (n : ℕ) (bytes header payload : Bytes)
        → (unprotect_packet p n bytes).1 ≡ ok (header, payload)
        → length header ≡ 20
    unfolding unprotect_packet
    header-twenty p n bytes header payload h = elim (Bool-cases (ltb (length bytes) 20)) [
      | inl e ↦ let h' = rw e at h in absurd (ground arith)
      | inr e ↦
          let (text, u, w) =
            bind_ok (unseal p.aead n (drop 20 bytes) (take 20 bytes)).1 _ (rw e at h) in
          let t : take 20 bytes ≡ header = ground arith in
          rw (sym t) (ground (arith, length-take 20 bytes))
    ]

    -- No packet is read back as a header that `PacketHeader::encode` wrote: the header that is read has
    -- 20 bytes, and no encoded one has.
    pub unprotect_packet-encode :
        (p : PacketProtection C S) (n : ℕ) (bytes payload : Bytes) (h : PacketHeader)
        → IsHeader h
        → (unprotect_packet p n bytes).1 ≢ ok (encode h, payload)
    unprotect_packet-encode p n bytes payload h v =
        λ e. length-encode h v (header-twenty p n bytes (encode h) payload e)
