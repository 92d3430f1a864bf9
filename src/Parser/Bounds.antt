-- ===== src/Parser/Bounds.antt =====
-- Bounds that the parser of src/protocol/frame.rs keeps.
use dummy_h.Prelude.{
  ℕ, ◌+◌, ◌≤◌, ◌<◌, max, ◌≡◌, refl, inl, inr, false, Option, none, some, arith, ltb, Bool-cases,
  length, take, drop, length-append, length-drop,
}
use dummy_h.Error.{H3Error, parse, Result, ok, err, ◌>>=◌, map_err}
use dummy_h.Varint.{Bytes, read_varint}
use dummy_h.Varint.Read.{read_cases}
use dummy_h.Frame.{FrameType, H3Frame, HeaderLib, frame_type_try_from}
use dummy_h.Frame.Codec.{parse_frame_payload}
use dummy_h.Parser.{
  ParserState, waiting_header, reading_payload, FrameParser, extend, header_length, header_type,
  try_parse_header, finish_frame, read_payload, read_header, parse_loop, parse_frame,
  count_overflow,
}

-- A header takes at least two bytes, and announces at most `max`.
abbrev pub HeaderBound : ℕ → ℕ → Result H3Error (Option (FrameType × ℕ × Bytes)) → Type 0
HeaderBound n max (ok (some (t, len, rest))) = (length rest < n) × (len ≤ max)
HeaderBound n max (ok none) = Unit
HeaderBound n max (err e) = Unit

HeaderBound-mono :
    (n m max : ℕ) (r : Result H3Error (Option (FrameType × ℕ × Bytes)))
    → n ≤ m
    → HeaderBound n max r
    → HeaderBound m max r
HeaderBound-mono n m max (ok (some (t, len, rest))) h b = omega arith
HeaderBound-mono n m max (ok none) h b = tt
HeaderBound-mono n m max (err e) h b = tt

header_length-Bound :
    (max : ℕ) (t : FrameType) (bs : Bytes)
    → HeaderBound (length bs) max (header_length max t (read_varint bs))
unfolding header_length
header_length-Bound max t bs = elim (read_cases bs) [
  | inl i ↦ rw i tt
  | inr (v, after, i, lt) ↦ rw i (size v after lt)
]
  where
    size :
        (v : ℕ) (after : Bytes)
        → length after < length bs
        → HeaderBound (length bs) max (header_length max t (ok (v, after)))
    size v after lt = elim (Bool-cases (ltb max v)) [
      | inl e ↦ rw e tt
      | inr e ↦ rw e (lt, ground arith)
    ]

typed-Bound :
    (max : ℕ) (t : Result H3Error FrameType) (bs : Bytes)
    → HeaderBound (length bs) max (t >>= λ t. header_length max t (read_varint bs))
typed-Bound max (ok t) bs = header_length-Bound max t bs
typed-Bound max (err e) bs = tt

pub try_parse_header-Bound :
    (max : ℕ) (bs : Bytes) → HeaderBound (length bs) max (try_parse_header max bs)
unfolding try_parse_header header_type
try_parse_header-Bound max bs = elim (Bool-cases (ltb (length bs) 2)) [
  | inl e ↦ rw e tt
  | inr e ↦ elim (read_cases bs) [
    | inl i ↦ rw (e, i) tt
    | inr (v, after, i, lt) ↦
        rw (e, i)
          (HeaderBound-mono (length after) (length bs) max _ (omega arith)
            (typed-Bound max (map_err parse (frame_type_try_from v)) after))
  ]
]

-- A call leaves the limits, and at most the bytes that it started from.
pub record Keeps (p q : FrameParser) : Type 0 where
  pub shrinks : length q.buffer ≤ length p.buffer
  pub frame_limit : q.max_frame_size ≡ p.max_frame_size
  pub buffer_limit : q.max_buffer_size ≡ p.max_buffer_size

length-extend :
    (p : FrameParser) (bs : Bytes) → length (extend p bs).buffer ≡ length p.buffer + length bs
unfolding extend
length-extend p bs = length-append p.buffer bs

limits-extend :
    (p : FrameParser) (bs : Bytes)
    → ((extend p bs).max_frame_size ≡ p.max_frame_size)
      × ((extend p bs).max_buffer_size ≡ p.max_buffer_size)
unfolding extend
limits-extend p bs = (refl, refl)

module _ (H : Type 0) ⦃L : HeaderLib H⦄ where
  finish_frame-Keeps :
      (p : FrameParser) (r : Result H3Error (H3Frame H)) → Keeps p (finish_frame p r).0
  unfolding finish_frame
  finish_frame-Keeps p (ok f) = ground arith
  finish_frame-Keeps p (err e) = ground arith

  read_payload-Keeps :
      (p : FrameParser) (t : FrameType) (len : ℕ) → Keeps p (read_payload {H = H} p t len).0
  unfolding read_payload
  read_payload-Keeps p t len = elim (Bool-cases (ltb (length p.buffer) len)) [
    | inl e ↦ rw e (omega arith)
    | inr e ↦
        let q : FrameParser = record p { buffer = drop len p.buffer; state = waiting_header } in
        let k = finish_frame-Keeps q (parse_frame_payload t (take len p.buffer)) in
        rw e (omega (arith, k.shrinks, k.frame_limit, k.buffer_limit, length-drop len p.buffer))
  ]

  read_header-Keeps :
      (p : FrameParser) (r : Result H3Error (Option (FrameType × ℕ × Bytes)))
      → HeaderBound (length p.buffer) p.max_frame_size r
      → Keeps p (read_header {H = H} p r).0
  unfolding read_header
  read_header-Keeps p (ok none) b = omega arith
  read_header-Keeps p (err e) b = ground arith
  read_header-Keeps p (ok (some (t, len, rest))) b =
      let q : FrameParser = record p { buffer = rest; state = reading_payload t len } in
      let k = read_payload-Keeps q t len in omega (arith, k.shrinks, k.frame_limit, k.buffer_limit)

  pub parse_loop-Keeps : (s : ParserState) (p : FrameParser) → Keeps p (parse_loop {H = H} s p).0
  unfolding parse_loop
  parse_loop-Keeps waiting_header p =
      read_header-Keeps p _ (try_parse_header-Bound p.max_frame_size p.buffer)
  parse_loop-Keeps (reading_payload t len) p = read_payload-Keeps p t len

  -- The buffer never grows past its limit, whatever the parser is given.
  pub parse_frame-bounded :
      (p : FrameParser) (bs : Bytes)
      → length p.buffer ≤ p.max_buffer_size
      → let q = (parse_frame {H = H} p bs).0 in
        (length q.buffer ≤ q.max_buffer_size)
        × (length q.buffer ≤ length p.buffer + length bs)
        × (q.max_buffer_size ≡ p.max_buffer_size)
        × (q.max_frame_size ≡ p.max_frame_size)
  unfolding parse_frame count_overflow
  parse_frame-bounded p bs h =
      elim (Bool-cases (ltb p.max_buffer_size (length p.buffer + length bs))) [
        | inl e ↦ rw e (omega arith)
        | inr e ↦ rw e (within e)
      ]
    where
      within :
          ltb p.max_buffer_size (length p.buffer + length bs) ≡ false
          → let q = (parse_loop {H = H} p.state (extend p bs)).0 in
            (length q.buffer ≤ q.max_buffer_size)
            × (length q.buffer ≤ length p.buffer + length bs)
            × (q.max_buffer_size ≡ p.max_buffer_size)
            × (q.max_frame_size ≡ p.max_frame_size)
      within e =
          let k = parse_loop-Keeps p.state (extend p bs) in
          ground (
            arith,
            k.shrinks,
            k.frame_limit,
            k.buffer_limit,
            length-extend p bs,
            limits-extend p bs,
          )
