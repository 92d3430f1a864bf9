-- ===== src/Tests/Packets.antt =====
-- The packet layer at concrete inputs, over big-endian integers.
use dummy_h.Prelude.{
  ℕ, ◌+◌, ◌*◌, ◌/◌, ◌%◌, ◌^◌, ◌≤◌, ◌<◌, max, ◌≡◌, refl, ap, ◌∙◌, ◌↔◌, ◌⊎◌, true, false, none, some,
  [], ◌∷◌, ◌++◌, append_assoc, arith, if◌then◌else◌, length, replicate, Among,
}
use dummy_h.Packet.Bag.{put_all}
use dummy_h.Packet.Arrival.{bag_of, ack_of_bag, receive_all, generate_ack_refines}
use dummy_h.Error.{ok}
use dummy_h.Varint.{Bytes, byte_at}
use dummy_h.Packet.{BufLib, Packet, PacketHeader, handshake, encode_packet, decode_packet}
use dummy_h.Packet.RoundTrip.{IsHeader, read_back, decode_packet-encode_packet}
use dummy_h.Packet.Ack.{AckRange, AckFrame, is_acked, add_range}
use dummy_h.Packet.Ack
use dummy_h.Prelude.Table.{get}
use dummy_h.Packet.Tracker.{AckTracker, process_ack, unacked_count, process_ack_lem}
use dummy_h.Packet.Tracker.{
  largest_of, generate_ack, should_ack, ack_of, scan, scan_sorted, sort_numbers, close_range,
}
use dummy_h.Packet.Runs.{Neighbour, generate_ack-acked}
use dummy_h.Packet.Rtt.{Inside, samples, new_detector, samples_bounds}
use dummy_h.Packet.AckTrip.{decode-encode_ack}

put_u32 : ℕ → Bytes
put_u32 n = byte_at 24 n ∷ byte_at 16 n ∷ byte_at 8 n ∷ byte_at 0 n ∷ []

get_u32 : Bytes → ℕ × Bytes
get_u32 (a ∷ b ∷ c ∷ d ∷ rest) = (((a * 256 + b) * 256 + c) * 256 + d, rest)
get_u32 short = (0, [])

put_u64 : ℕ → Bytes
put_u64 n = put_u32 (n / 2 ^ 32) ++ put_u32 n

get_u64 : Bytes → ℕ × Bytes
get_u64 d =
    let (high, rest) = get_u32 d in let (low, end) = get_u32 rest in (high * 2 ^ 32 + low, end)

low_word : (n : ℕ) (d : Bytes) → get_u32 (put_u32 n ++ d) ≡ (n % 2 ^ 32, d)
unfolding get_u32 put_u32
low_word n d = ap (λ (k : ℕ). (k, d)) (omega arith)

two_words : (n : ℕ) (d : Bytes) → n < 2 ^ 64 → get_u64 (put_u64 n ++ d) ≡ (n, d)
unfolding get_u64 put_u64
two_words n d h =
    rw
      (
        append_assoc (put_u32 (n / 2 ^ 32)) (put_u32 n) d,
        low_word (n / 2 ^ 32) (put_u32 n ++ d),
        low_word n d,
      )
      (ap (λ (k : ℕ). (k, d)) (omega arith))

instance pub big_endian : BufLib
unfolding put_u32 put_u64
big_endian = record {
  put_u32 = put_u32;
  get_u32 = get_u32;
  put_u64 = put_u64;
  get_u64 = get_u64;
  length-put_u32 = λ n. omega arith;
  length-put_u64 = λ n. omega arith;
  get-put_u32 = λ n d h. low_word n d ∙ ap (λ (k : ℕ). (k, d)) (omega arith);
  get-put_u64 = two_words;
}

abbrev pub header : PacketHeader
header = record {
  packet_type = handshake;
  connection_id = replicate 16 7;
  packet_number = 5;
  version = none;
  source_connection_id = none;
  destination_connection_id = none;
}

pub header-IsHeader : IsHeader header
header-IsHeader = record {
  connection = refl;
  source = λ id e. absurd (ground arith);
  version = omega arith;
}

abbrev packet : Packet
packet = record { header = header; payload = 1 ∷ 2 ∷ []; timestamp = 3; ack_eliciting = false }

abbrev ack : AckFrame
ack = record { largest_acked = 9; ack_delay = 2500; ranges = record { first = 7; last = 9 } ∷ [] }

decode_packet-encode_packet_example :
    decode_packet (encode_packet packet) 8
    ≡ ok (record {
      header = read_back header;
      payload = 1 ∷ 2 ∷ [];
      timestamp = 8;
      ack_eliciting = true;
    })
decode_packet-encode_packet_example = decode_packet-encode_packet packet 8 header-IsHeader

decode-encode_ack_example :
    Ack.decode (Ack.encode ack ++ 1 ∷ []) ≡ ok (record ack { ack_delay = 2000 })
decode-encode_ack_example = decode-encode_ack ack (1 ∷ []) (record {
  largest = omega arith;
  delay = omega arith;
  count = omega arith;
  bounds = ((omega arith, omega arith), tt);
})

abbrev waiting : AckTracker
waiting = record {
  unacked_packets = (8, packet) ∷ (5, packet) ∷ [];
  received_packets = [];
  last_ack_sent = none;
  ack_delay_threshold = 25000000;
}

process_ack_lem_example :
    let (u, acked) = process_ack waiting ack in
    ((n : ℕ)
      → get u.unacked_packets n ≡ (if is_acked ack n then none else get waiting.unacked_packets n))
    × ((n : ℕ) (p : Packet)
        → get waiting.unacked_packets n ≡ some p
        → is_acked ack n ≡ true
        → Among acked p)
    × (unacked_count u + length acked ≡ unacked_count waiting)
process_ack_lem_example = process_ack_lem waiting ack

-- Numbers 3 and 4 stand together, 7 is the largest, and 1 stands alone.
abbrev heard : AckTracker
heard = record {
  unacked_packets = [];
  received_packets = 7 ∷ 3 ∷ 1 ∷ 4 ∷ [];
  last_ack_sent = none;
  ack_delay_threshold = 25000000;
}

abbrev heard_ack : AckFrame
heard_ack = add_range (Ack.new 7 0) 3 4

heard-made : (generate_ack heard 9).1 ≡ some heard_ack
unfolding generate_ack should_ack ack_of scan_sorted scan sort_numbers close_range
heard-made = refl

generate_ack-acked_example : (is_acked heard_ack 3 ≡ true) ↔ (
    Among {A = ℕ} (7 ∷ 3 ∷ 1 ∷ 4 ∷ []) 3
    × (◌≡◌ {A = ℕ} 3 (largest_of 7 (3 ∷ 1 ∷ 4 ∷ [])) ⊎ Neighbour (7 ∷ 3 ∷ 1 ∷ 4 ∷ []) 3))
generate_ack-acked_example =
    generate_ack-acked heard 9 7 (3 ∷ 1 ∷ 4 ∷ []) heard_ack 3 refl heard-made

samples_bounds_example :
    let d = samples new_detector (300000000 ∷ 100000000 ∷ 200000000 ∷ []) in
    Inside 100000000 300000000 d.rtt_estimator.srtt
    × Inside 100000000 300000000 d.rtt_estimator.min_rtt
    × (200000000 ≤ d.rto)
    × (d.rto ≤ max 200000000 (5 * 300000000))
samples_bounds_example =
    samples_bounds 100000000 300000000 300000000 (100000000 ∷ 200000000 ∷ [])
      ((omega arith, omega arith), ((omega arith, omega arith), ((omega arith, omega arith), tt)))

generate_ack_refines_example :
    ((generate_ack (receive_all heard (8 ∷ 5 ∷ [])) 9).1
      ≡ ack_of_bag heard 9 (put_all (8 ∷ 5 ∷ []) (bag_of heard)))
    × ((generate_ack (receive_all heard (5 ∷ 8 ∷ [])) 9).1
        ≡ ack_of_bag heard 9 (put_all (8 ∷ 5 ∷ []) (bag_of heard)))
generate_ack_refines_example =
    generate_ack_refines heard 9 (8 ∷ 5 ∷ []) (5 ∷ 8 ∷ []) (λ k. ground arith) (omega arith)
