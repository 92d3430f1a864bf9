-- ===== src/Parser/Complete.antt =====
-- `has_complete_frame` of src/protocol/frame.rs against `parse_frame`.
use dummy_h.Prelude.{
  ℕ, ◌+◌, ◌-◌, ◌%◌, ◌^◌, ◌≤◌, ◌<◌, ◌≡◌, refl, sym, ap, subst, inl, inr, Bool, true, false, Option,
  none, some, [], ◌++◌, append-nil, arith, ltb, leb, Bool-cases, length, length-append,
}
use dummy_h.Error.{parse, H3Error, Result, ok, err, ◌>>=◌, map_err}
use dummy_h.Varint.{Bytes, read_varint}
use dummy_h.Varint.Read.{read_cases}
use dummy_h.Frame.{FrameType, H3Frame, HeaderLib, frame_type_try_from}
use dummy_h.Parser.{
  FrameParser, waiting_header, try_parse_header, header_type, header_length, has_complete_frame,
  read_header, read_payload, finish_frame, parse_frame, parse_loop, extend,
}

module _ (H : Type 0) ⦃L : HeaderLib H⦄ where
  -- The answer agrees with an outcome: it is no when more bytes are awaited, and yes for a frame.
  abbrev pub Agrees : Bool → Result H3Error (Option (H3Frame H)) → Type 0
  Agrees b (ok none) = b ≡ false
  Agrees b (ok (some frame)) = b ≡ true
  Agrees b (err e) = Unit

  finish-Agrees :
      (q : FrameParser) (r : Result H3Error (H3Frame H)) → Agrees true (finish_frame q r).1
  unfolding finish_frame
  finish-Agrees q (ok f) = refl
  finish-Agrees q (err e) = tt

  length-Agrees :
      (q : FrameParser) (t : FrameType) (len : ℕ) (rest : Bytes)
      → length rest ≤ length q.buffer
      → length q.buffer + q.max_frame_size < 2 ^ 64
      → Agrees
          (leb ((length q.buffer - length rest + len) % 2 ^ 64) (length q.buffer))
          (read_header {H = H} q (header_length q.max_frame_size t (ok (len, rest)))).1
  unfolding header_length read_header read_payload
  length-Agrees q t len rest le small = elim (Bool-cases (ltb q.max_frame_size len)) [
    | inl e ↦ rw e tt
    | inr e ↦ elim (Bool-cases (ltb (length rest) len)) [
      | inl u ↦
          let no : leb ((length q.buffer - length rest + len) % 2 ^ 64) (length q.buffer) ≡ false =
            ground arith in
          rw (e, no, u) refl
      | inr u ↦
          let yes : leb ((length q.buffer - length rest + len) % 2 ^ 64) (length q.buffer) ≡ true =
            ground arith in
          rw (e, yes, u) (finish-Agrees _ _)
    ]
  ]

  rest-Agrees :
      (q : FrameParser) (t : Result H3Error FrameType) (rest : Bytes)
      → length rest ≤ length q.buffer
      → length q.buffer + q.max_frame_size < 2 ^ 64
      → Agrees
          (elim (read_varint rest) [
            | ok (len, rest') ↦
                leb ((length q.buffer - length rest' + len) % 2 ^ 64) (length q.buffer)
            | err e ↦ false
          ])
          (read_header {H = H} q (t >>= λ t. header_length q.max_frame_size t (read_varint rest))).1
  unfolding header_length read_header
  rest-Agrees q (err e) rest le small = tt
  rest-Agrees q (ok t) rest le small = elim (read_cases rest) [
    | inl e ↦ rw e refl
    | inr (len, after, e, lt) ↦ rw e (length-Agrees q t len after (omega arith) small)
  ]

  header-Agrees :
      (q : FrameParser)
      → length q.buffer + q.max_frame_size < 2 ^ 64
      → Agrees
          (has_complete_frame q)
          (read_header {H = H} q (try_parse_header q.max_frame_size q.buffer)).1
  unfolding has_complete_frame try_parse_header header_type read_header
  header-Agrees q small = elim (Bool-cases (ltb (length q.buffer) 2)) [
    | inl e ↦ rw e refl
    | inr e ↦ elim (read_cases q.buffer) [
      | inl u ↦ rw (e, u) refl
      | inr (v, rest, u, lt) ↦
          rw (e, u) (rest-Agrees q (map_err parse (frame_type_try_from v)) rest (omega arith) small)
    ]
  ]

  -- Between two frames, when the buffer is within its limit and no sum of lengths passes 64 bits,
  -- `has_complete_frame` answers no where `parse_frame` with no more bytes awaits some, and yes where
  -- it delivers a frame.
  pub has_complete_frame-Agrees :
      (p : FrameParser)
      → p.state ≡ waiting_header
      → length p.buffer ≤ p.max_buffer_size
      → length p.buffer + p.max_frame_size < 2 ^ 64
      → Agrees (has_complete_frame p) (parse_frame {H = H} p []).1
  unfolding parse_frame parse_loop extend has_complete_frame
  has_complete_frame-Agrees p waiting fits small =
      let q = extend p [] in
      let room : ltb p.max_buffer_size (length p.buffer + 0) ≡ false = ground arith in
      let same : has_complete_frame q ≡ has_complete_frame p =
        ap (λ (b : Bytes). has_complete_frame (record p { buffer = b })) (append-nil p.buffer) in
      let small' : length (p.buffer ++ []) + p.max_frame_size < 2 ^ 64 =
        omega (arith, length-append p.buffer []) in
      let whole =
        subst (λ b. Agrees b (parse_loop waiting_header q).1) same (header-Agrees q small') in
      rw room (subst (λ s. Agrees (has_complete_frame p) (parse_loop s q).1) (sym waiting) whole)
