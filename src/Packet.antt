-- ===== src/Packet.antt =====
-- The packet headers of src/transport/packet.rs. A connection ID is the list of its 16 bytes. The
-- `bytes` crate's big-endian integers are the interface `BufLib`.
pub mod RoundTrip
pub mod Ack
pub mod AckTrip
pub mod Tracker
pub mod Sorted
pub mod Runs
pub mod Bag
pub mod Arrival
pub mod Rtt
use Prim.Native.Nat.{bit_and}
use Prim.Native.String.{String}
use dummy_h.Prelude.{
  ℕ, ◌+◌, ◌-◌, ◌%◌, ◌^◌, ◌<◌, ◌≡◌, Bool, true, ◌&&◌, Option, none, some, [], ◌∷◌, ◌++◌, ltb, leb,
  ◌==◌, if◌then◌else◌, length, take, drop, replicate,
}
use dummy_h.Error.{msg, TransportError, H3Error, transport, Result, ok, err, ◌>>=◌}
use dummy_h.Varint.{Bytes}

-- `BufMut::put_u32` and `put_u64` append so many bytes, and `Buf::get_u32` and `get_u64` read back
-- what they wrote. On fewer bytes than that `get_u32` panics; the code tests for them first.
pub record BufLib : Type 0 where
  pub put_u32 : ℕ → Bytes
  pub get_u32 : Bytes → ℕ × Bytes
  pub put_u64 : ℕ → Bytes
  pub get_u64 : Bytes → ℕ × Bytes
  pub length-put_u32 : (n : ℕ) → length (put_u32 n) ≡ 4
  pub length-put_u64 : (n : ℕ) → length (put_u64 n) ≡ 8
  pub get-put_u32 : (n : ℕ) (d : Bytes) → n < 2 ^ 32 → get_u32 (put_u32 n ++ d) ≡ (n, d)
  pub get-put_u64 : (n : ℕ) (d : Bytes) → n < 2 ^ 64 → get_u64 (put_u64 n ++ d) ≡ (n, d)

pub data PacketType : Type 0 where
  initial zero_rtt handshake retry one_rtt version_negotiation : PacketType

-- `packet_type as u8`
unfoldable pub type_byte : PacketType → ℕ
type_byte initial = 0x80
type_byte zero_rtt = 0x81
type_byte handshake = 0x82
type_byte retry = 0x83
type_byte one_rtt = 0x40
type_byte version_negotiation = 0x00

unfoldable pub from_byte : ℕ → Option PacketType
from_byte byte =
    let code = bit_and byte 0xf0 in
    if code == 0x80
    then some initial
    else if code == 0x90
    then some zero_rtt
    else if code == 0xa0
    then some handshake
    else if code == 0xb0
    then some retry
    else if leb 0x40 code && leb code 0x7f
    then some one_rtt
    else if code == 0x00
    then some version_negotiation
    else none

pub record PacketHeader : Type 0 where
  pub packet_type : PacketType
  pub connection_id : Bytes
  pub packet_number : ℕ
  pub version : Option ℕ
  pub source_connection_id : Option Bytes
  pub destination_connection_id : Option Bytes

unfoldable pub new : PacketType → Bytes → ℕ → PacketHeader
new packet_type connection_id packet_number = record {
  packet_type = packet_type;
  connection_id = connection_id;
  packet_number = packet_number;
  version = none;
  source_connection_id = none;
  destination_connection_id = none;
}

-- `version.unwrap_or(1)`
abbrev pub version_or_one : Option ℕ → ℕ
version_or_one none = 1
version_or_one (some v) = v

-- The source connection ID behind its length.
abbrev pub source_field : Option Bytes → Bytes
source_field none = 0 ∷ []
source_field (some id) = 16 ∷ id

abbrev pub invalid_packet {ℓ} : {A : Type ℓ} → String → Result H3Error A
invalid_packet text = err (transport (TransportError.invalid_packet (msg text [])))

module _ ⦃L : BufLib⦄ where
  unfoldable pub long_fields : PacketHeader → Bytes
  long_fields h =
      L.put_u32 (version_or_one h.version)
      ++ 16 ∷ (h.connection_id ++ source_field h.source_connection_id)

  -- `match self.packet_type { … }`
  unfoldable pub encode_fields : PacketType → PacketHeader → Bytes
  unfolding long_fields
  encode_fields initial h = long_fields h
  encode_fields zero_rtt h = long_fields h
  encode_fields handshake h = long_fields h
  encode_fields retry h = long_fields h
  encode_fields one_rtt h = h.connection_id
  encode_fields version_negotiation h = L.put_u32 0 ++ 16 ∷ h.connection_id

  unfoldable pub encode : PacketHeader → Bytes
  unfolding encode_fields type_byte
  encode h =
      type_byte h.packet_type
      ∷ (encode_fields h.packet_type h ++ L.put_u32 (h.packet_number % 2 ^ 32))

  unfoldable pub read_version : Bytes → Result H3Error (ℕ × Bytes)
  read_version d =
      if ltb (length d) 4 then invalid_packet "Incomplete version" else ok (L.get_u32 d)

-- `copy_to_slice(&mut id[..n])` into sixteen zeros.
abbrev pub id_of : ℕ → Bytes → Bytes
id_of n d = take n d ++ replicate (16 - n) 0

-- A connection ID of a long header behind its length, with the texts of its two errors. One that is
-- longer than 16 bytes is neither stored nor skipped.
unfoldable pub read_id : String → String → Bytes → Result H3Error (Option Bytes × Bytes)
read_id missing incomplete [] = invalid_packet missing
read_id missing incomplete (n ∷ d) =
    if n == 0
    then ok (none, d)
    else if ltb (length d) n
    then invalid_packet incomplete
    else if leb n 16
    then ok (some (id_of n d), drop n d)
    else ok (none, d)

-- The one of a version negotiation, where too few bytes are no error.
unfoldable pub read_id_leniently : Bytes → Result H3Error (Option Bytes × Bytes)
read_id_leniently [] = invalid_packet "Missing DCID length"
read_id_leniently (n ∷ d) =
    if ltb 0 n && leb n (length d)
    then if leb n 16 then ok (some (id_of n d), drop n d) else ok (none, d)
    else ok (none, d)

-- `connection_id` starts as zeros.
abbrev pub or_zeros : Option Bytes → Bytes
or_zeros none = replicate 16 0
or_zeros (some id) = id

abbrev pub blank : PacketType → PacketHeader
blank t = record {
  packet_type = t;
  connection_id = replicate 16 0;
  packet_number = 0;
  version = none;
  source_connection_id = none;
  destination_connection_id = none;
}

module _ ⦃L : BufLib⦄ where
  unfoldable pub decode_long : PacketType → Bytes → Result H3Error (PacketHeader × Bytes)
  decode_long t d = do
    v ← read_version d
    i ← read_id "Missing DCID length" "Incomplete DCID" v.1
    s ← read_id "Missing SCID length" "Incomplete SCID" i.1
    ok (
      record (blank t) {
        version = some v.0;
        connection_id = or_zeros i.0;
        source_connection_id = s.0;
      },
      s.1,
    )

  -- `match packet_type { … }` of `decode`.
  unfoldable pub decode_fields : PacketType → Bytes → Result H3Error (PacketHeader × Bytes)
  decode_fields initial d = decode_long initial d
  decode_fields zero_rtt d = decode_long zero_rtt d
  decode_fields handshake d = decode_long handshake d
  decode_fields retry d = decode_long retry d
  decode_fields one_rtt d =
      if ltb (length d) 16
      then invalid_packet "Incomplete connection ID"
      else ok (record (blank one_rtt) { connection_id = take 16 d }, drop 16 d)
  decode_fields version_negotiation d = do
    v ← read_version d
    i ← read_id_leniently v.1
    ok (
      record (blank version_negotiation) { version = some v.0; connection_id = or_zeros i.0 },
      i.1,
    )

  -- `if data.remaining() >= 4 { … }`
  unfoldable pub read_number : PacketHeader × Bytes → PacketHeader × Bytes
  read_number (h, d) =
      if leb 4 (length d)
      then (record h { packet_number = (L.get_u32 d).0 }, (L.get_u32 d).1)
      else (h, d)

  -- `decode` after the first byte, with `original_len`; it returns the header and `consumed`.
  unfoldable pub decode_typed : Option PacketType → ℕ → Bytes → Result H3Error (PacketHeader × ℕ)
  decode_typed none original_len d = invalid_packet "Invalid packet type"
  decode_typed (some t) original_len d = do
    r ← decode_fields t d
    ok ((read_number r).0, original_len - length (read_number r).1)

  unfoldable pub decode : Bytes → Result H3Error (PacketHeader × ℕ)
  decode [] = invalid_packet "Empty packet"
  decode (b ∷ d) = decode_typed (from_byte b) (length (b ∷ d)) d

pub record Packet : Type 0 where
  pub header : PacketHeader
  pub payload : Bytes
  pub timestamp : ℕ
  pub ack_eliciting : Bool

unfoldable pub new_packet : PacketType → Bytes → ℕ → Bytes → ℕ → Packet
unfolding new
new_packet packet_type connection_id packet_number payload now = record {
  header = new packet_type connection_id packet_number;
  payload = payload;
  timestamp = now;
  ack_eliciting = true;
}

unfoldable pub size : Packet → ℕ
size p = 64 + length p.payload

module _ ⦃L : BufLib⦄ where
  unfoldable pub encode_packet : Packet → Bytes
  encode_packet p = encode p.header ++ p.payload

  -- The rest of `Packet::decode`, after the header.
  unfoldable pub payload_after : Bytes → ℕ → PacketHeader × ℕ → Result H3Error Packet
  payload_after bytes now (header, header_len) =
      if ltb (length bytes) header_len
      then invalid_packet "Packet too short"
      else ok (record {
        header = header;
        payload = drop header_len bytes;
        timestamp = now;
        ack_eliciting = true;
      })

  unfoldable pub decode_packet : Bytes → ℕ → Result H3Error Packet
  unfolding payload_after
  decode_packet bytes now = decode bytes >>= payload_after bytes now
