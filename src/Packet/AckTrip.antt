-- ===== src/Packet/AckTrip.antt =====
-- Reading back the ACK frames that src/transport/packet.rs writes, and the order of their ranges.
use dummy_h.Prelude.{
  ℕ, ◌*◌, ◌/◌, ◌%◌, ◌^◌, ◌≤◌, ◌<◌, ◌≡◌, refl, sym, ap, ◌↔◌, ◌⊎◌, true, false, ◌||◌, List, [], ◌∷◌,
  ◌++◌, append-nil, append_assoc, arith, ltb, le→ltb, length, All, length-append,
}
use dummy_h.Error.{ok}
use dummy_h.Varint.{Bytes}
use dummy_h.Packet.{BufLib}
use dummy_h.Packet.Ack.{
  AckRange, AckFrame, contains, place, sort_ranges, add_range, any_contains, is_acked,
  encode_ranges, encode, decode_ranges, decode_fields, decode,
}

-- The numbers of a frame are `u64` values.
pub record IsAckFrame (f : AckFrame) : Type 0 where
  pub largest : f.largest_acked < 2 ^ 64
  pub delay : f.ack_delay / 1000 < 2 ^ 64
  pub count : length f.ranges < 2 ^ 64
  pub bounds : All (λ r. (AckRange.first r < 2 ^ 64) × (AckRange.last r < 2 ^ 64)) f.ranges

any_contains-append :
    (rs qs : List AckRange) (n : ℕ)
    → any_contains (rs ++ qs) n ≡ (any_contains rs n || any_contains qs n)
unfolding any_contains
any_contains-append [] qs n = refl
any_contains-append (r ∷ rs) qs n = ground (arith, any_contains-append rs qs n)

any_contains-place :
    (r : AckRange) (rs : List AckRange) (n : ℕ)
    → any_contains (place r rs) n ≡ (contains r n || any_contains rs n)
unfolding any_contains place
any_contains-place r [] n = refl
any_contains-place r (q ∷ qs) n = ground (arith, any_contains-place r qs n)

any_contains-sort :
    (rs : List AckRange) (n : ℕ) → any_contains (sort_ranges rs) n ≡ any_contains rs n
unfolding any_contains sort_ranges
any_contains-sort [] n = refl
any_contains-sort (r ∷ rs) n =
    ground (arith, any_contains-place r (sort_ranges rs) n, any_contains-sort rs n)

-- `add_range` acknowledges the numbers from the first to the last of the range, and no others that
-- were not acknowledged before.
pub is_acked-add_range :
    (f : AckFrame) (first last n : ℕ)
    → (is_acked (add_range f first last) n ≡ true)
      ↔ ((is_acked f n ≡ true) ⊎ ((first ≤ n) × (n ≤ last)))
unfolding is_acked add_range any_contains contains
is_acked-add_range f first last n =
    let r : AckRange = record { first = first; last = last } in
    let all = any_contains-sort (f.ranges ++ r ∷ []) n in
    let split = any_contains-append f.ranges (r ∷ []) n in
    (ground (arith, all, split), ground (arith, all, split))

module _ ⦃L : BufLib⦄ where
  ranges-read :
      (rs done : List AckRange) (rest : Bytes)
      → All (λ r. (AckRange.first r < 2 ^ 64) × (AckRange.last r < 2 ^ 64)) rs
      → decode_ranges (length rs) (encode_ranges rs ++ rest) done ≡ ok (done ++ rs)
  unfolding decode_ranges encode_ranges
  ranges-read [] done rest b = ap (λ (t : List AckRange). ok t) (sym (append-nil done))
  ranges-read (r ∷ rs) done rest ((lo, hi), b) =
      let tail = encode_ranges rs ++ rest in
      let d = L.put_u64 r.last ++ tail in
      let enough : ltb (length (L.put_u64 r.first ++ d)) 16 ≡ false = le→ltb _ _ (
        omega (
          arith,
          length-append (L.put_u64 r.first) d,
          length-append (L.put_u64 r.last) tail,
          L.length-put_u64 r.first,
          L.length-put_u64 r.last,
        )) in
      rw
        (
          append_assoc (L.put_u64 r.first) (L.put_u64 r.last ++ encode_ranges rs) rest,
          append_assoc (L.put_u64 r.last) (encode_ranges rs) rest,
          enough,
          L.get-put_u64 r.first d lo,
          L.get-put_u64 r.last tail hi,
          ranges-read rs (done ++ r ∷ []) rest b,
        )
        (ap (λ (t : List AckRange). ok t) (append_assoc done (r ∷ []) rs))

  fields-read :
      (f : AckFrame) (rest : Bytes)
      → IsAckFrame f
      → decode_fields (
          L.put_u64 f.largest_acked
          ++ (L.put_u64 (f.ack_delay / 1000)
              ++ (L.put_u64 (length f.ranges) ++ (encode_ranges f.ranges ++ rest))))
        ≡ ok (record f { ack_delay = f.ack_delay / 1000 * 1000 })
  unfolding decode_fields
  fields-read f rest k =
      let tail = encode_ranges f.ranges ++ rest in
      let c = L.put_u64 (length f.ranges) ++ tail in
      let b = L.put_u64 (f.ack_delay / 1000) ++ c in
      let enough : ltb (length (L.put_u64 f.largest_acked ++ b)) 24 ≡ false = le→ltb _ _ (
        omega (
          arith,
          length-append (L.put_u64 f.largest_acked) b,
          length-append (L.put_u64 (f.ack_delay / 1000)) c,
          length-append (L.put_u64 (length f.ranges)) tail,
          L.length-put_u64 f.largest_acked,
          L.length-put_u64 (f.ack_delay / 1000),
          L.length-put_u64 (length f.ranges),
        )) in
      rw
        (
          enough,
          L.get-put_u64 f.largest_acked b k.largest,
          L.get-put_u64 (f.ack_delay / 1000) c k.delay,
          L.get-put_u64 (length f.ranges) tail k.count,
          ranges-read f.ranges [] rest k.bounds,
        )
        refl

  -- Decoding what `encode` wrote, whatever follows, gives the frame back with its delay cut to whole
  -- microseconds.
  pub decode-encode_ack :
      (f : AckFrame) (rest : Bytes)
      → IsAckFrame f
      → decode (encode f ++ rest) ≡ ok (record f { ack_delay = f.ack_delay / 1000 * 1000 })
  unfolding decode encode
  decode-encode_ack f rest k =
      let micros = f.ack_delay / 1000 in
      let small : micros % 2 ^ 64 ≡ micros = omega (arith, k.delay) in
      let c = L.put_u64 (length f.ranges) ++ encode_ranges f.ranges in
      rw
        (
          small,
          append_assoc (L.put_u64 f.largest_acked) (L.put_u64 micros ++ c) rest,
          append_assoc (L.put_u64 micros) c rest,
          append_assoc (L.put_u64 (length f.ranges)) (encode_ranges f.ranges) rest,
        )
        (fields-read f rest k)
