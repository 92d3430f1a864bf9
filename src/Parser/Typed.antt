-- ===== src/Parser/Typed.antt =====
-- Which frames the parser of src/protocol/frame.rs delivers.
use dummy_h.Prelude.{
  ℕ, ◌+◌, max, ◌≡◌, refl, sym, ap, ◌∙◌, subst, ◌≢◌, inl, inr, false, Option, none, some, ◌++◌,
  arith, ltb, Bool-cases, length, take,
}
use dummy_h.Error.{H3Error, parse, Result, ok, err, ◌>>=◌, map_err}
use dummy_h.Varint.{Bytes, read_varint}
use dummy_h.Frame.{FrameType, H3Frame, HeaderLib, frame_type, stream_id, is_end_stream}
use dummy_h.Frame.Codec.{parse_frame_payload, parse_headers, parse_settings}
use dummy_h.Parser.{
  ParserState, waiting_header, reading_payload, FrameParser, extend, try_parse_header, finish_frame,
  read_payload, read_header, parse_loop, parse_frame,
}

module _ {H : Type 0} where
  -- The frame names no stream but 0, unless it is a GOAWAY, and ends none.
  pub record IsUnplaced (f : H3Frame H) : Type 0 where
    pub nowhere : (id : ℕ) → stream_id f ≡ some id → frame_type f ≢ FrameType.goaway → id ≡ 0
    pub goes_on : is_end_stream f ≡ false

  abbrev IsTyped : FrameType → Result H3Error (H3Frame H) → Type 0
  IsTyped t (err e) = Unit {0}
  IsTyped t (ok f) = (frame_type f ≡ t) × IsUnplaced f

  -- What a call delivers, if anything.
  abbrev Delivers : (H3Frame H → Type 0) → Result H3Error (Option (H3Frame H)) → Type 0
  Delivers P (ok (some f)) = P f
  Delivers P (ok none) = Unit {0}
  Delivers P (err e) = Unit {0}

  number-Typed :
      {A : Type 0} (t : FrameType) (r : Result H3Error A) (f : A → H3Frame H)
      → ((a : A) → (frame_type (f a) ≡ t) × IsUnplaced (f a))
      → IsTyped t (r >>= λ a. ok (f a))
  number-Typed t (ok a) f h = h a
  number-Typed t (err e) f h = tt

module _ (H : Type 0) ⦃L : HeaderLib H⦄ where
  payload-Typed : (t : FrameType) (bs : Bytes) → IsTyped t (parse_frame_payload {H = H} t bs)
  unfolding parse_frame_payload parse_headers frame_type stream_id is_end_stream
  payload-Typed FrameType.data_frame bs = (refl, ground arith)
  payload-Typed FrameType.headers bs = (refl, ground arith)
  payload-Typed FrameType.cancel_push bs =
      number-Typed FrameType.cancel_push (map_err parse (read_varint bs)) _
        (λ a. (refl, ground arith))
  payload-Typed FrameType.settings bs =
      number-Typed FrameType.settings (parse_settings bs) _ (λ a. (refl, ground arith))
  payload-Typed FrameType.push_promise bs =
      number-Typed FrameType.push_promise (map_err parse (read_varint bs)) _
        (λ a. (refl, ground arith))
  payload-Typed FrameType.goaway bs =
      number-Typed FrameType.goaway (map_err parse (read_varint bs)) _ (λ a. (refl, ground arith))
  payload-Typed FrameType.max_push_id bs =
      number-Typed FrameType.max_push_id (map_err parse (read_varint bs)) _
        (λ a. (refl, ground arith))

  -- The type that the header of the frame announced, in the parser's state or in its input.
  abbrev pub Announced : ParserState → ℕ → Bytes → H3Frame H → Type 0
  Announced waiting_header max bs f =
      (len : ℕ) × ((rest : Bytes) × (try_parse_header max bs ≡ ok (some (frame_type f, len, rest))))
  Announced (reading_payload t len) max bs f = frame_type f ≡ t

  finish-Typed :
      (p : FrameParser) (t : FrameType) (r : Result H3Error (H3Frame H))
      → IsTyped t r
      → Delivers (λ f. (frame_type f ≡ t) × IsUnplaced f) (finish_frame p r).1
  unfolding finish_frame
  finish-Typed p t (ok f) h = h
  finish-Typed p t (err e) h = tt

  read_payload-Typed :
      (p : FrameParser) (t : FrameType) (len : ℕ)
      → Delivers (λ f. (frame_type f ≡ t) × IsUnplaced f) (read_payload {H = H} p t len).1
  unfolding read_payload
  read_payload-Typed p t len = elim (Bool-cases (ltb (length p.buffer) len)) [
    | inl e ↦ rw e tt
    | inr e ↦ rw e (finish-Typed _ t _ (payload-Typed t (take len p.buffer)))
  ]

  delivered :
      {P Q : H3Frame H → Type 0} (r : Result H3Error (Option (H3Frame H)))
      → ((f : H3Frame H) → P f → Q f)
      → Delivers P r
      → Delivers Q r
  delivered (ok (some f)) h d = h f d
  delivered (ok none) h d = tt
  delivered (err e) h d = tt

  read_header-Typed :
      (p : FrameParser) (max : ℕ) (bs : Bytes) (r : Result H3Error (Option (FrameType × ℕ × Bytes)))
      → try_parse_header max bs ≡ r
      → Delivers (λ f. Announced waiting_header max bs f × IsUnplaced f) (read_header {H = H} p r).1
  unfolding read_header
  read_header-Typed p max bs (ok (some (t, len, rest))) e =
      delivered (read_payload q t len).1
        (λ f (same, free). ((len, (rest, e ∙ ap (λ t. ok (some (t, len, rest))) (sym same))), free))
        (read_payload-Typed q t len)
    where
      q : FrameParser
      q = record p { buffer = rest; state = reading_payload t len }
  read_header-Typed p max bs (ok none) e = tt
  read_header-Typed p max bs (err x) e = tt

  parse_loop-Typed :
      (s : ParserState) (p : FrameParser)
      → Delivers
          (λ f. Announced s p.max_frame_size p.buffer f × IsUnplaced f)
          (parse_loop {H = H} s p).1
  unfolding parse_loop
  parse_loop-Typed waiting_header p =
      read_header-Typed p p.max_frame_size p.buffer (try_parse_header p.max_frame_size p.buffer)
        refl
  parse_loop-Typed (reading_payload t len) p = read_payload-Typed p t len

  -- A frame that a call of `parse_frame` delivers has the type that its header announced, which stands
  -- at the front of the bytes or was read by an earlier call. It names no stream but 0, unless it is a
  -- GOAWAY, and ends no stream.
  pub parse_frame-typed :
      (p : FrameParser) (bs : Bytes) (f : H3Frame H)
      → (parse_frame p bs).1 ≡ ok (some f)
      → Announced p.state p.max_frame_size (p.buffer ++ bs) f × IsUnplaced f
  unfolding parse_frame extend
  parse_frame-typed p bs f e =
      elim (Bool-cases (ltb p.max_buffer_size (length p.buffer + length bs))) [
        | inl full ↦ absurd (ground arith)
        | inr fits ↦
            let read : (parse_loop {H = H} p.state (extend p bs)).1 ≡ ok (some f) = rw fits at e in
            subst
              (Delivers (λ g. Announced p.state p.max_frame_size (p.buffer ++ bs) g × IsUnplaced g))
              read (parse_loop-Typed p.state (extend p bs))
      ]
