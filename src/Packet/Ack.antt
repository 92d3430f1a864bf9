-- ===== src/Packet/Ack.antt =====
-- The acknowledgments of src/transport/packet.rs: `AckRange`, `AckFrame` and what goes on the wire. A
-- `Duration` is its number of nanoseconds.
use dummy_h.Prelude.{
  ℕ, zero, suc, ◌+◌, ◌-◌, ◌*◌, ◌/◌, ◌%◌, ◌^◌, Bool, false, ◌&&◌, ◌||◌, List, [], ◌∷◌, ◌++◌, ltb,
  leb, ◌==◌, if◌then◌else◌, length,
}
use Prim.Native.String.{String}
use dummy_h.Error.{msg, TransportError, H3Error, transport, Result, ok, err, ◌>>=◌}
use dummy_h.Varint.{Bytes}
use dummy_h.Packet.{BufLib}

pub record AckRange : Type 0 where
  pub first : ℕ
  pub last : ℕ

-- Of a range whose last number is not below its first; a `u64`.
unfoldable pub range_size : AckRange → ℕ
range_size r = (r.last - r.first + 1) % 2 ^ 64

unfoldable pub contains : AckRange → ℕ → Bool
contains r n = leb r.first n && leb n r.last

pub record AckFrame : Type 0 where
  pub largest_acked : ℕ
  pub ack_delay : ℕ
  pub ranges : List AckRange

unfoldable pub new : ℕ → ℕ → AckFrame
new largest_acked ack_delay = record {
  largest_acked = largest_acked;
  ack_delay = ack_delay;
  ranges = record { first = largest_acked; last = largest_acked } ∷ [];
}

-- The stable `sort_by_key(|r| r.first)`: a range is put before those that are equal and came later.
unfoldable pub place : AckRange → List AckRange → List AckRange
place r [] = r ∷ []
place r (q ∷ qs) = let rest = place r qs in if ltb q.first r.first then q ∷ rest else r ∷ q ∷ qs

unfoldable pub sort_ranges : List AckRange → List AckRange
unfolding place
sort_ranges [] = []
sort_ranges (r ∷ rs) = place r (sort_ranges rs)

unfoldable pub add_range : AckFrame → ℕ → ℕ → AckFrame
unfolding sort_ranges
add_range f first last = record f {
  ranges = sort_ranges (f.ranges ++ record { first = first; last = last } ∷ []);
}

-- `self.ranges.iter().any(|range| range.contains(packet_number))`
unfoldable pub any_contains : List AckRange → ℕ → Bool
unfolding contains
any_contains [] n = false
any_contains (r ∷ rs) n = contains r n || any_contains rs n

unfoldable pub is_acked : AckFrame → ℕ → Bool
unfolding any_contains
is_acked f n = any_contains f.ranges n

abbrev pub invalid_frame {ℓ} : {A : Type ℓ} → String → Result H3Error A
invalid_frame text = err (transport (TransportError.invalid_frame (msg text [])))

module _ ⦃L : BufLib⦄ where
  unfoldable pub encode_ranges : List AckRange → Bytes
  encode_ranges [] = []
  encode_ranges (r ∷ rs) = L.put_u64 r.first ++ (L.put_u64 r.last ++ encode_ranges rs)

  -- The delay is written in microseconds.
  unfoldable pub encode : AckFrame → Bytes
  unfolding encode_ranges
  encode f =
      0x02
      ∷ (L.put_u64 f.largest_acked
          ++ (L.put_u64 (f.ack_delay / 1000 % 2 ^ 64)
              ++ (L.put_u64 (length f.ranges) ++ encode_ranges f.ranges)))

  -- `for _ in 0..range_count`, with the ranges pushed so far.
  unfoldable pub decode_ranges : ℕ → Bytes → List AckRange → Result H3Error (List AckRange)
  decode_ranges zero d ranges = ok ranges
  decode_ranges (suc n) d ranges =
      let (first, d1) = L.get_u64 d in
      let (last, d2) = L.get_u64 d1 in
      let rest = decode_ranges n d2 (ranges ++ record { first = first; last = last } ∷ []) in
      if ltb (length d) 16 then invalid_frame "Incomplete ACK range" else rest

  -- The fields behind the frame type. `Vec::with_capacity` of the announced number of ranges, which
  -- may abort the program, is left out.
  unfoldable pub decode_fields : Bytes → Result H3Error AckFrame
  unfolding decode_ranges
  decode_fields d =
      if ltb (length d) 24
      then invalid_frame "Incomplete ACK frame"
      else let (largest_acked, d1) = L.get_u64 d in
        let (micros, d2) = L.get_u64 d1 in
        let (range_count, d3) = L.get_u64 d2 in
        decode_ranges range_count d3 [] >>= λ ranges.
        ok (record { largest_acked = largest_acked; ack_delay = micros * 1000; ranges = ranges })

  unfoldable pub decode : Bytes → Result H3Error AckFrame
  unfolding decode_fields
  decode [] = invalid_frame "Empty ACK frame"
  decode (t ∷ d) = if t == 0x02 then decode_fields d else invalid_frame "Not an ACK frame"
