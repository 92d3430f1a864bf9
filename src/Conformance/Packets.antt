-- ===== src/Conformance/Packets.antt =====
-- The tests of src/transport/packet.rs about packet types, acknowledgments and round-trip times.
use dummy_h.Prelude.{
  ℕ, ◌*◌, ◌/◌, ◌≤◌, ◌<◌, ◌≡◌, refl, subst, true, false, none, some, [], ◌∷◌, append-nil, arith,
  length, replicate,
}
use dummy_h.Error.{ok}
use dummy_h.Varint.{Bytes}
use dummy_h.Packet.RoundTrip.{IsHeader, read_back, decode-encode, decode_packet-encode_packet}
use dummy_h.Packet.AckTrip.{IsAckFrame, decode-encode_ack}
use dummy_h.Packet.{
  BufLib, PacketHeader, Packet, new, new_packet, encode, decode, encode_packet, decode_packet,
  initial, zero_rtt, handshake, one_rtt, from_byte,
}
use dummy_h.Packet.Ack.{AckFrame, add_range, is_acked, any_contains, sort_ranges, place, contains}
use dummy_h.Packet.Ack
use dummy_h.Packet.Tracker
use dummy_h.Packet.Tracker.{
  AckTracker, track_received, generate_ack, keep_recent, ack_of, should_ack, scan_sorted, scan,
  sort_numbers, close_range, largest_of, ack_delay_at,
}
use dummy_h.Packet.Rtt
use dummy_h.Packet.Rtt.{RttEstimator, update, rto_of}

abbrev TestPacketTypeParsing : Type 0
TestPacketTypeParsing =
    (from_byte 0x80 ≡ some initial)
    × (from_byte 0x90 ≡ some zero_rtt)
    × (from_byte 0xa0 ≡ some handshake)
    × (from_byte 0x40 ≡ some one_rtt)
    × (from_byte 0xff ≡ none)

type_parsing_passes : TestPacketTypeParsing
unfolding from_byte
type_parsing_passes = (refl, refl, refl, refl, refl)

module _ ⦃L : BufLib⦄ where
  abbrev first_header : PacketHeader
  first_header = new initial (replicate 16 1) 42

  abbrev TestPacketHeaderEncoding : Type 0
  TestPacketHeaderEncoding =
      (0 < length (encode first_header))
      × ((decoded : PacketHeader) × (consumed : ℕ) × (decode (encode first_header)
            ≡ ok (decoded, consumed))
          × (decoded.packet_type ≡ initial)
          × (decoded.connection_id ≡ replicate 16 1)
          × (decoded.packet_number ≡ 42))

  first_header-IsHeader : IsHeader first_header
  unfolding new
  first_header-IsHeader = record {
    connection = refl;
    source = λ id e. ground (arith, e);
    version = omega arith;
  }

  header_passes : TestPacketHeaderEncoding
  unfolding encode new
  header_passes = (
    omega arith,
    (
      _,
      _,
      subst (λ d. decode d ≡ ok (read_back first_header, length (encode first_header)))
          (append-nil (encode first_header)) (decode-encode first_header [] first_header-IsHeader),
      refl,
      refl,
      refl,
    ),
  )

  -- "test payload"
  abbrev payload : Bytes
  payload = 116 ∷ 101 ∷ 115 ∷ 116 ∷ 32 ∷ 112 ∷ 97 ∷ 121 ∷ 108 ∷ 111 ∷ 97 ∷ 100 ∷ []

  abbrev packet : Packet
  packet = new_packet one_rtt (replicate 16 2) 123 payload 0

  abbrev TestPacketEncoding : Type 0
  TestPacketEncoding =
      (decoded : Packet) × (decode_packet (encode_packet packet) 0 ≡ ok decoded)
      × (decoded.header.packet_type ≡ one_rtt)
      × (decoded.header.connection_id ≡ replicate 16 2)
      × (decoded.header.packet_number ≡ 123)
      × (decoded.payload ≡ payload)

  packet_passes : TestPacketEncoding
  unfolding new_packet new
  packet_passes = (
    _,
    decode_packet-encode_packet packet 0
        (record { connection = refl; source = λ id e. ground (arith, e); version = omega arith }),
    refl,
    refl,
    refl,
    refl,
  )

  -- A delay of 10 milliseconds.
  abbrev ack_frame : AckFrame
  ack_frame = add_range (add_range (Ack.new 100 10000000) 50 60) 80 90

  abbrev TestAckFrame : Type 0
  TestAckFrame =
      (is_acked ack_frame 55 ≡ true)
      × (is_acked ack_frame 85 ≡ true)
      × (is_acked ack_frame 100 ≡ true)
      × (is_acked ack_frame 70 ≡ false)
      × ((decoded : AckFrame) × (Ack.decode (Ack.encode ack_frame) ≡ ok decoded)
          × (decoded.largest_acked ≡ 100)
          × (length decoded.ranges ≡ 3))

  ack_frame-IsAckFrame : IsAckFrame ack_frame
  unfolding Ack.new add_range
  ack_frame-IsAckFrame = record {
    largest = omega arith;
    delay = omega arith;
    count = omega arith;
    bounds = (
      (omega arith, omega arith),
      ((omega arith, omega arith), ((omega arith, omega arith), tt)),
    );
  }

  ack_frame_passes : TestAckFrame
  unfolding Ack.new add_range is_acked
  ack_frame_passes = (
    refl,
    refl,
    refl,
    refl,
    (
      _,
      subst
          (λ d.
            Ack.decode d ≡ ok (record ack_frame { ack_delay = ack_frame.ack_delay / 1000 * 1000 }))
          (append-nil (Ack.encode ack_frame)) (decode-encode_ack ack_frame [] ack_frame-IsAckFrame),
      refl,
      refl,
    ),
  )

abbrev received_four : AckTracker
received_four =
    track_received (track_received (track_received (track_received Tracker.new 1) 2) 4) 5

abbrev TestAckTracker : Type 0
TestAckTracker =
    (f : AckFrame) × ((generate_ack received_four 0).1 ≡ some f)
    × (f.largest_acked ≡ 5)
    × (is_acked f 1 ≡ true)
    × (is_acked f 2 ≡ true)
    × (is_acked f 3 ≡ false)
    × (is_acked f 4 ≡ true)
    × (is_acked f 5 ≡ true)

tracker_passes : TestAckTracker
unfolding Tracker.new track_received generate_ack is_acked add_range
tracker_passes = (_, refl, refl, refl, refl, refl, refl, refl)

abbrev millis : ℕ → ℕ
millis n = n * 1000000

abbrev TestRttEstimator : Type 0
TestRttEstimator =
    let e = update Rtt.new (millis 100) in
    let f = update e (millis 200) in
    (e.srtt ≡ some (millis 100))
    × ((srtt : ℕ) × (f.srtt ≡ some srtt) × (millis 100 < srtt) × (srtt < millis 200))
    × (millis 200 ≤ rto_of f)
    × (rto_of f ≤ millis 2000)

rtt_passes : TestRttEstimator
unfolding Rtt.new update rto_of
rtt_passes = (refl, (_, refl, omega arith, omega arith), omega arith, omega arith)
