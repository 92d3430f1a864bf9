-- ===== src/Packet/RoundTrip.antt =====
-- Reading back the packet headers that src/transport/packet.rs writes.
use dummy_h.Prelude.{
  ℕ, ◌%◌, ◌^◌, ◌<◌, ◌≡◌, refl, sym, ap, ◌∙◌, true, false, Option, none, some, ◌∷◌, ◌++◌, append-nil,
  append_assoc, arith, ltb, leb, le→ltb, length, take, drop, length-append, take-append_self,
  drop-append_self,
}
use Prim.Native.String.{String}
use dummy_h.Error.{ok}
use dummy_h.Varint.{Bytes}
use dummy_h.Packet.{
  BufLib, PacketType, initial, zero_rtt, handshake, retry, one_rtt, version_negotiation, type_byte,
  from_byte, PacketHeader, version_or_one, source_field, long_fields, encode_fields, encode,
  read_version, id_of, read_id, read_id_leniently, blank, decode_long, decode_fields, read_number,
  decode_typed, decode, Packet, encode_packet, decode_packet, payload_after,
}

-- A header whose connection IDs have 16 bytes and whose version is a `u32`.
pub record IsHeader (h : PacketHeader) : Type 0 where
  pub connection : length h.connection_id ≡ 16
  pub source : (id : Bytes) → h.source_connection_id ≡ some id → length id ≡ 16
  pub version : version_or_one h.version < 2 ^ 32

-- The type that a type is read back as: the four long types differ only in their low bits.
abbrev pub read_type : PacketType → PacketType
read_type one_rtt = one_rtt
read_type version_negotiation = version_negotiation
read_type t = initial

abbrev pub read_version_of : PacketType → Option ℕ → Option ℕ
read_version_of one_rtt v = none
read_version_of version_negotiation v = some 0
read_version_of t v = some (version_or_one v)

abbrev pub read_source_of : PacketType → Option Bytes → Option Bytes
read_source_of one_rtt s = none
read_source_of version_negotiation s = none
read_source_of t s = s

-- What is left of a header once it is written and read.
abbrev pub read_back : PacketHeader → PacketHeader
read_back h = record {
  packet_type = read_type h.packet_type;
  connection_id = h.connection_id;
  packet_number = h.packet_number % 2 ^ 32;
  version = read_version_of h.packet_type h.version;
  source_connection_id = read_source_of h.packet_type h.source_connection_id;
  destination_connection_id = none;
}

from_byte-type_byte : (t : PacketType) → from_byte (type_byte t) ≡ some (read_type t)
unfolding from_byte type_byte
from_byte-type_byte initial = refl
from_byte-type_byte zero_rtt = refl
from_byte-type_byte handshake = refl
from_byte-type_byte retry = refl
from_byte-type_byte one_rtt = refl
from_byte-type_byte version_negotiation = refl

take-sixteen : (id d : Bytes) → length id ≡ 16 → take 16 (id ++ d) ≡ id
take-sixteen id d e = rw (sym e) (take-append_self id d)

drop-sixteen : (id d : Bytes) → length id ≡ 16 → drop 16 (id ++ d) ≡ d
drop-sixteen id d e = rw (sym e) (drop-append_self id d)

module _ ⦃L : BufLib⦄ where
  version-put : (v : ℕ) (d : Bytes) → v < 2 ^ 32 → read_version (L.put_u32 v ++ d) ≡ ok (v, d)
  unfolding read_version
  version-put v d h =
      let enough : ltb (length (L.put_u32 v ++ d)) 4 ≡ false =
        le→ltb _ _ (omega (arith, length-append (L.put_u32 v) d, L.length-put_u32 v)) in
      rw (read_version, enough, L.get-put_u32 v d h) refl

  number-put :
      (h : PacketHeader) (n : ℕ) (d : Bytes)
      → n < 2 ^ 32
      → read_number (h, L.put_u32 n ++ d) ≡ (record h { packet_number = n }, d)
  unfolding read_number
  number-put h n d lt =
      let enough : leb 4 (length (L.put_u32 n ++ d)) ≡ true =
        ground (arith, length-append (L.put_u32 n) d, L.length-put_u32 n) in
      rw (read_number, enough, L.get-put_u32 n d lt) refl

id_of-sixteen : (id d : Bytes) → length id ≡ 16 → id_of 16 (id ++ d) ≡ id
id_of-sixteen id d e = append-nil (take 16 (id ++ d)) ∙ take-sixteen id d e

sixteen-enough : (id d : Bytes) → length id ≡ 16 → ltb (length (id ++ d)) 16 ≡ false
sixteen-enough id d e = le→ltb _ _ (omega (arith, length-append id d, e))

id-sixteen :
    (missing incomplete : String) (id d : Bytes)
    → length id ≡ 16
    → read_id missing incomplete (16 ∷ (id ++ d)) ≡ ok (some id, d)
unfolding read_id
id-sixteen missing incomplete id d e =
    rw (read_id, sixteen-enough id d e, id_of-sixteen id d e, drop-sixteen id d e) refl

id-sixteen_leniently :
    (id d : Bytes) → length id ≡ 16 → read_id_leniently (16 ∷ (id ++ d)) ≡ ok (some id, d)
unfolding read_id_leniently
id-sixteen_leniently id d e =
    let enough : leb 16 (length (id ++ d)) ≡ true = ground (arith, length-append id d, e) in
    rw (read_id_leniently, enough, id_of-sixteen id d e, drop-sixteen id d e) refl

-- A source connection ID that is absent is written as the length 0.
source-read :
    (s : Option Bytes) (d : Bytes)
    → ((id : Bytes) → s ≡ some id → length id ≡ 16)
    → read_id "Missing SCID length" "Incomplete SCID" (source_field s ++ d) ≡ ok (s, d)
unfolding read_id
source-read none d h = refl
source-read (some id) d h = id-sixteen "Missing SCID length" "Incomplete SCID" id d (h id refl)

long_assoc : (a b c d : Bytes) → (a ++ 16 ∷ (b ++ c)) ++ d ≡ a ++ 16 ∷ (b ++ (c ++ d))
long_assoc a b c d =
    append_assoc a (16 ∷ (b ++ c)) d ∙ ap (λ (t : Bytes). a ++ 16 ∷ t) (append_assoc b c d)

module _ ⦃L : BufLib⦄ where
  long-read :
      (t : PacketType) (h : PacketHeader) (d : Bytes)
      → IsHeader h
      → decode_long t (long_fields h ++ d)
        ≡ ok (
          record (blank t) {
            version = some (version_or_one h.version);
            connection_id = h.connection_id;
            source_connection_id = h.source_connection_id;
          },
          d,
        )
  unfolding decode_long long_fields
  long-read t h d k =
      let v = version_or_one h.version in
      let tail = source_field h.source_connection_id ++ d in
      rw
        (
          long_assoc (L.put_u32 v) h.connection_id (source_field h.source_connection_id) d,
          version-put v (16 ∷ (h.connection_id ++ tail)) k.version,
          id-sixteen "Missing DCID length" "Incomplete DCID" h.connection_id tail k.connection,
          source-read h.source_connection_id d k.source,
        )
        refl

  fields-read :
      (t : PacketType) (h : PacketHeader) (d : Bytes)
      → IsHeader h
      → decode_fields (read_type t) (encode_fields t h ++ d)
        ≡ ok (record (read_back (record h { packet_type = t })) { packet_number = 0 }, d)
  unfolding decode_fields encode_fields
  fields-read initial h d k = long-read initial h d k
  fields-read zero_rtt h d k = long-read initial h d k
  fields-read handshake h d k = long-read initial h d k
  fields-read retry h d k = long-read initial h d k
  fields-read one_rtt h d k =
      rw
        (
          sixteen-enough h.connection_id d k.connection,
          take-sixteen h.connection_id d k.connection,
          drop-sixteen h.connection_id d k.connection,
        )
        refl
  fields-read version_negotiation h d k =
      rw
        (
          append_assoc (L.put_u32 0) (16 ∷ h.connection_id) d,
          version-put 0 (16 ∷ (h.connection_id ++ d)) (omega arith),
          id-sixteen_leniently h.connection_id d k.connection,
        )
        refl

  -- Decoding what `encode` wrote, whatever follows, gives the header back with the type `Initial`
  -- for every long type, the packet number modulo 2 ^ 32, the version 1 or 0 put in, and no source
  -- connection ID on the short types; it takes exactly the bytes that were written.
  pub decode-encode :
      (h : PacketHeader) (rest : Bytes)
      → IsHeader h
      → decode (encode h ++ rest) ≡ ok (read_back h, length (encode h))
  unfolding decode decode_typed encode
  decode-encode h rest k =
      let n = h.packet_number % 2 ^ 32 in
      let body = encode_fields h.packet_type h in
      let d = L.put_u32 n ++ rest in
      let read = record (read_back h) { packet_number = 0 } in
      rw
        (
          append_assoc body (L.put_u32 n) rest,
          from_byte-type_byte h.packet_type,
          fields-read h.packet_type h d k,
          number-put read n rest (omega arith),
        )
        (ap (λ (c : ℕ). ok (read_back h, c))
          (omega (
            arith,
            length-append body d,
            length-append (L.put_u32 n) rest,
            length-append body (L.put_u32 n),
          )))

  -- A packet that is written and read has its payload back, and the header that comes back from
  -- `decode`; its time is that of the reading, and it asks for an acknowledgment.
  pub decode_packet-encode_packet :
      (p : Packet) (now : ℕ)
      → IsHeader p.header
      → decode_packet (encode_packet p) now
        ≡ ok (record {
          header = read_back p.header;
          payload = p.payload;
          timestamp = now;
          ack_eliciting = true;
        })
  unfolding decode_packet encode_packet payload_after
  decode_packet-encode_packet p now k =
      let bytes = encode p.header in
      let enough : ltb (length (bytes ++ p.payload)) (length bytes) ≡ false =
        le→ltb _ _ (omega (arith, length-append bytes p.payload)) in
      rw (decode-encode p.header p.payload k, enough, drop-append_self bytes p.payload) refl
