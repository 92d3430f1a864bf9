-- ===== src/Parser/Total.antt =====
-- `parse_frames` of src/protocol/frame.rs ends on every input: no loop runs out of fuel.
use dummy_h.Prelude.{
  ℕ, zero, suc, ◌+◌, ◌≤◌, ◌<◌, max, ◌≡◌, refl, ap, ◌≢◌, inl, inr, Option, none, some, List, [], ◌∷◌,
  ◌++◌, append-nil, arith, ltb, Bool-cases, length, take, drop, length-append, length-drop,
}
use dummy_h.Error.{H3Error, parse, ParseError, Result, ok, err, ◌>>=◌, map_err}
use dummy_h.Varint.{Bytes, read_varint}
use dummy_h.Varint.Read.{read_cases}
use dummy_h.Frame.{
  FrameType, H3Frame, HeaderLib, Settings, frame_type_try_from, setting_id_try_from,
}
use dummy_h.Frame.Codec.{
  out_of_fuel, settings_loop, parse_settings, parse_headers, parse_frame_payload, store_setting,
}
use dummy_h.Parser.{
  ParserState, waiting_header, reading_payload, FrameParser, extend, header_length, header_type,
  try_parse_header, finish_frame, read_payload, read_header, parse_loop, parse_frame, frames_loop,
  parse_frames, Outcome, count_frame,
}
use dummy_h.Parser.Bounds.{HeaderBound, try_parse_header-Bound}

-- A result that the source makes too.
abbrev pub Ends {ℓ} : {A : Type ℓ} → Result H3Error A → Type ℓ
Ends r = r ≢ err out_of_fuel

bind-Ends {ℓ κ} :
    {A : Type ℓ} {B : Type κ} (f : A → B) (m : Result H3Error A)
    → Ends m
    → Ends (m >>= λ a. ok (f a))
bind-Ends f (ok a) real = λ e. cc
bind-Ends f (err x) real = λ e. real (cc e)

settings_loop-Ends :
    (fuel : ℕ) (bs : Bytes) (s : Settings) → length bs ≤ fuel → Ends (settings_loop fuel bs s)
unfolding settings_loop
settings_loop-Ends fuel [] s h = λ e. cc
settings_loop-Ends zero (b ∷ bs) s h = absurd (omega arith)
settings_loop-Ends (suc fuel) (b ∷ bs) s h = elim (read_cases (b ∷ bs)) [
  | inl i ↦ rw i (λ e. cc)
  | inr (k, rest, i, lt) ↦ elim (read_cases rest) [
    | inl j ↦ rw (i, j) (λ e. cc)
    | inr (v, rest', j, lt') ↦
        rw (i, j)
          (settings_loop-Ends fuel rest' (store_setting (setting_id_try_from k) v s) (omega arith))
  ]
]

header_length-Ends :
    (max : ℕ) (t : FrameType) (bs : Bytes) → Ends (header_length max t (read_varint bs))
unfolding header_length
header_length-Ends max t bs = elim (read_cases bs) [
  | inl i ↦ rw i (λ e. cc)
  | inr (v, after, i, lt) ↦ rw i (λ e. ground arith)
]

typed-Ends :
    (max : ℕ) (t : Result ParseError FrameType) (bs : Bytes)
    → Ends (map_err parse t >>= λ t. header_length max t (read_varint bs))
typed-Ends max (ok t) bs = header_length-Ends max t bs
typed-Ends max (err x) bs = λ e. cc

try_parse_header-Ends : (max : ℕ) (bs : Bytes) → Ends (try_parse_header max bs)
unfolding try_parse_header header_type
try_parse_header-Ends max bs = elim (Bool-cases (ltb (length bs) 2)) [
  | inl e ↦ rw e (λ x. cc)
  | inr e ↦ elim (read_cases bs) [
    | inl i ↦ rw (e, i) (λ x. cc)
    | inr (v, after, i, lt) ↦ rw (e, i) (typed-Ends max (frame_type_try_from v) after)
  ]
]

module _ (H : Type 0) ⦃L : HeaderLib H⦄ where
  payload-Ends : (t : FrameType) (bs : Bytes) → Ends (parse_frame_payload {H = H} t bs)
  unfolding parse_frame_payload parse_settings parse_headers
  payload-Ends FrameType.data_frame bs = λ e. cc
  payload-Ends FrameType.headers bs = λ e. cc
  payload-Ends FrameType.settings bs =
      bind-Ends H3Frame.settings (parse_settings bs)
        (settings_loop-Ends (length bs) bs [] (omega arith))
  payload-Ends FrameType.cancel_push bs = elim (read_cases bs) [
    | inl i ↦ rw i (λ e. cc)
    | inr (v, after, i, lt) ↦ rw i (λ e. cc)
  ]
  payload-Ends FrameType.push_promise bs = elim (read_cases bs) [
    | inl i ↦ rw i (λ e. cc)
    | inr (v, after, i, lt) ↦ rw i (λ e. cc)
  ]
  payload-Ends FrameType.goaway bs = elim (read_cases bs) [
    | inl i ↦ rw i (λ e. cc)
    | inr (v, after, i, lt) ↦ rw i (λ e. cc)
  ]
  payload-Ends FrameType.max_push_id bs = elim (read_cases bs) [
    | inl i ↦ rw i (λ e. cc)
    | inr (v, after, i, lt) ↦ rw i (λ e. cc)
  ]

-- The bytes, and one more where a header was read already.
abbrev weight_in : ParserState → ℕ → ℕ
weight_in waiting_header n = n
weight_in (reading_payload t len) n = n + 1

weight-le : (s : ParserState) (n : ℕ) → weight_in s n ≤ n + 1
weight-le waiting_header n = omega arith
weight-le (reading_payload t len) n = omega arith

abbrev weight : FrameParser → ℕ
weight p = weight_in p.state (length p.buffer)

-- An outcome that is real, and after which a parser that gave a frame weighs less than `n`.
abbrev Progress : {H : Type 0} → ℕ → Outcome H → Type 0
Progress n (p, ok (some f)) = weight p < n
Progress n (p, ok none) = Unit
Progress n (p, err e) = e ≢ out_of_fuel

module _ (H : Type 0) ⦃L : HeaderLib H⦄ where
  finish-Progress :
      (n : ℕ) (p : FrameParser) (r : Result H3Error (H3Frame H))
      → Ends r
      → weight p < n
      → Progress n (finish_frame p r)
  unfolding finish_frame count_frame
  finish-Progress n p (ok f) real lt = lt
  finish-Progress n p (err e) real lt = λ x. real (ap err x)

  payload-Progress :
      (n : ℕ) (p : FrameParser) (t : FrameType) (len : ℕ)
      → length p.buffer < n
      → Progress n (read_payload {H = H} p t len)
  unfolding read_payload
  payload-Progress n p t len lt = elim (Bool-cases (ltb (length p.buffer) len)) [
    | inl e ↦ rw e tt
    | inr e ↦
        let q : FrameParser = record p { buffer = drop len p.buffer; state = waiting_header } in
        rw e (
          finish-Progress n q (parse_frame_payload t (take len p.buffer))
            (payload-Ends H t (take len p.buffer)) (omega (arith, length-drop len p.buffer)))
  ]

  header-Progress :
      (p : FrameParser) (r : Result H3Error (Option (FrameType × ℕ × Bytes)))
      → Ends r
      → HeaderBound (length p.buffer) p.max_frame_size r
      → Progress (length p.buffer) (read_header {H = H} p r)
  unfolding read_header
  header-Progress p (ok none) real b = tt
  header-Progress p (err e) real b = λ x. real (ap err x)
  header-Progress p (ok (some (t, len, rest))) real b =
      let q : FrameParser = record p { buffer = rest; state = reading_payload t len } in
      payload-Progress (length p.buffer) q t len b.0

  loop-Progress :
      (s : ParserState) (p : FrameParser)
      → Progress (weight_in s (length p.buffer)) (parse_loop {H = H} s p)
  unfolding parse_loop
  loop-Progress waiting_header p =
      header-Progress p _ (try_parse_header-Ends p.max_frame_size p.buffer)
        (try_parse_header-Bound p.max_frame_size p.buffer)
  loop-Progress (reading_payload t len) p =
      payload-Progress (length p.buffer + 1) p t len (omega arith)

  parse_frame-Progress : (p : FrameParser) → Progress (weight p) (parse_frame {H = H} p [])
  unfolding parse_frame extend
  parse_frame-Progress p = elim (Bool-cases (ltb p.max_buffer_size (length p.buffer + 0))) [
    | inl e ↦ rw e (λ x. cc)
    | inr e ↦
        let q : FrameParser = record (extend p []) { buffer = p.buffer } in
        rw (e, append-nil p.buffer) (loop-Progress p.state q)
  ]

module _ (H : Type 0) ⦃L : HeaderLib H⦄ where
  continue-Ends :
      (fuel n : ℕ) (p : FrameParser) (out : List (H3Frame H)) (o : Outcome H)
      → n ≤ fuel
      → parse_frame p [] ≡ o
      → Progress n o
      → ((q : FrameParser) (more : List (H3Frame H))
          → weight q < fuel
          → Ends (frames_loop fuel q more).1)
      → Ends (frames_loop (suc fuel) p out).1
  unfolding frames_loop
  continue-Ends fuel n p out (q, ok (some f)) le e h next =
      let left : (parse_frame {H = H} p []).0 ≡ q = ap (λ (o : Outcome H). o.0) e in
      rw (e, frames_loop) (rw left (next q (out ++ f ∷ []) (omega arith)))
  continue-Ends fuel n p out (q, ok none) le e h next = rw (e, frames_loop) (λ x. cc)
  continue-Ends fuel n p out (q, err x) le e h next = rw (e, frames_loop) (λ y. h (cc y))

  loop-Ends :
      (fuel : ℕ) (p : FrameParser) (out : List (H3Frame H))
      → weight p < fuel
      → Ends (frames_loop fuel p out).1
  loop-Ends zero p out h = absurd (omega arith)
  loop-Ends (suc fuel) p out h =
      continue-Ends fuel (weight p) p out (parse_frame p []) (omega arith) refl
        (parse_frame-Progress H p) (loop-Ends fuel)

  -- Whatever the parser's state and the input, `parse_frames` ends: the model's fuel never runs out,
  -- so its result is the frames or an error that the source returns.
  pub parse_frames-Ends : (p : FrameParser) (bs : Bytes) → Ends (parse_frames {H = H} p bs).1
  unfolding parse_frames extend
  parse_frames-Ends p bs =
      let fits = ltb p.max_buffer_size (length p.buffer + length bs) in
      elim (Bool-cases fits) [
        | inl e ↦ rw e (λ x. cc)
        | inr e ↦ rw e (
            loop-Ends (length p.buffer + length bs + 2) (extend p bs) [] (
              omega
                (arith, weight-le p.state (length (p.buffer ++ bs)), length-append p.buffer bs)))
      ]
