-- ===== src/Parser/Chunks.antt =====
-- The parser of src/protocol/frame.rs does not depend on how the bytes arrive.
use dummy_h.Prelude.{
  ℕ, ◌+◌, ◌≤◌, ◌≡◌, refl, sym, ap, ◌∙◌, ◌≢◌, ◌⊎◌, inl, inr, Option, none, some, ◌++◌, append_assoc,
  arith, ltb, le→ltb, Bool-cases, length, take, drop, length-append, take-append_le, drop-append_le,
}
use dummy_h.Error.{H3Error, Result, ok, err}
use dummy_h.Varint.{Bytes}
use dummy_h.Frame.{FrameType, H3Frame, HeaderLib}
use dummy_h.Frame.Codec.{parse_frame_payload}
use dummy_h.Parser.{
  Outcome, ParserState, waiting_header, reading_payload, FrameParser, extend, try_parse_header,
  finish_frame, read_payload, read_header, parse_loop, parse_frame, count_error,
}
use dummy_h.Parser.Header.{more_rest, try_parse_header-append, header-cases}
use dummy_h.Parser.Bounds.{parse_loop-Keeps}

extend_twice : (p : FrameParser) (a b : Bytes) → extend (extend p a) b ≡ extend p (a ++ b)
unfolding extend
extend_twice p a b = ground (arith, append_assoc p.buffer a b, length-append a b)

module _ {H : Type 0} where
  -- The same outcome with more bytes in the buffer.
  abbrev pub later : Bytes → Outcome H → Outcome H
  later bs o = (extend o.0 bs, o.1)

  abbrev pub IsDone : Outcome H → Type 0
  IsDone o = o.1 ≢ ok none

  pub Outcome-cases : (o : Outcome H) → (o.1 ≡ ok none) ⊎ IsDone o
  Outcome-cases (p, ok none) = inl refl
  Outcome-cases (p, ok (some f)) = inr (λ e. cc)
  Outcome-cases (p, err e) = inr (λ e'. cc)

abbrev with_header : FrameParser → FrameType → ℕ → Bytes → FrameParser
with_header p t len rest = record p { buffer = rest; state = reading_payload t len }

with_header-extend :
    (p : FrameParser) (t : FrameType) (len : ℕ) (rest bs : Bytes)
    → with_header (extend p bs) t len (rest ++ bs) ≡ extend (with_header p t len rest) bs
unfolding extend
with_header-extend p t len rest bs = refl

count_error-extend :
    (p : FrameParser) (bs : Bytes) → count_error (extend p bs) ≡ extend (count_error p) bs
unfolding extend count_error
count_error-extend p bs = refl

state-extend : (p : FrameParser) (bs : Bytes) → (extend p bs).state ≡ p.state
unfolding extend
state-extend p bs = refl

left_over :
    (H : Type 0) ⦃L : HeaderLib H⦄ (p : FrameParser) (a : Bytes)
    → let q = (parse_loop {H = H} p.state (extend p a)).0 in
      (length q.buffer ≤ length p.buffer + length a) × (q.max_buffer_size ≡ p.max_buffer_size)
unfolding extend
left_over H p a =
    let k = parse_loop-Keeps H p.state (extend p a) in
    (omega (arith, k.shrinks, length-append p.buffer a), k.buffer_limit)

module _ {H : Type 0} ⦃L : HeaderLib H⦄ where
  finish_frame-extend :
      (p : FrameParser) (bs : Bytes) (r : Result H3Error (H3Frame H))
      → finish_frame (extend p bs) r ≡ later bs (finish_frame p r)
  unfolding finish_frame extend
  finish_frame-extend p bs (ok f) = refl
  finish_frame-extend p bs (err e) = refl

  finish_frame-IsDone :
      (p : FrameParser) (r : Result H3Error (H3Frame H)) → IsDone (finish_frame p r)
  unfolding finish_frame
  finish_frame-IsDone p (ok f) = λ e. cc
  finish_frame-IsDone p (err e) = λ e'. cc

  -- More bytes behind an outcome that is not `none` wait in the buffer.
  read_payload-extend :
      (p : FrameParser) (t : FrameType) (len : ℕ) (bs : Bytes)
      → IsDone (read_payload {H = H} p t len)
      → read_payload {H = H} (extend p bs) t len ≡ later bs (read_payload p t len)
  unfolding read_payload extend
  read_payload-extend p t len bs h = elim (Bool-cases (ltb (length p.buffer) len)) [
    | inl e ↦ absurd (h (rw e))
    | inr e ↦
        rw
          (
            e,
            le→ltb (length (p.buffer ++ bs)) len (ground (arith, length-append p.buffer bs)),
            take-append_le len p.buffer bs (ground arith),
            drop-append_le len p.buffer bs (ground arith),
          )
          (finish_frame-extend (record p { buffer = drop len p.buffer; state = waiting_header }) bs
            (parse_frame_payload t (take len p.buffer)))
  ]

  read_payload-none :
      (p : FrameParser) (t : FrameType) (len : ℕ)
      → (read_payload {H = H} p t len).1 ≡ ok none
      → (read_payload {H = H} p t len).0 ≡ p
  unfolding read_payload
  read_payload-none p t len h = elim (Bool-cases (ltb (length p.buffer) len)) [
    | inl e ↦ rw e
    | inr e ↦ absurd (finish_frame-IsDone _ _ (rw e at h))
  ]

  read_header-extend :
      (p : FrameParser) (bs : Bytes) (r : Result H3Error (Option (FrameType × ℕ × Bytes)))
      → IsDone (read_header {H = H} p r)
      → read_header {H = H} (extend p bs) (more_rest bs r) ≡ later bs (read_header p r)
  unfolding read_header extend
  read_header-extend p bs (ok (some (t, len, rest))) h =
      read_payload-extend (with_header p t len rest) t len bs h
  read_header-extend p bs (ok none) h = absurd (h refl)
  read_header-extend p bs (err e) h = rw (count_error-extend p bs)

  parse_loop-extend :
      (s : ParserState) (p : FrameParser) (bs : Bytes)
      → IsDone (parse_loop {H = H} s p)
      → parse_loop {H = H} s (extend p bs) ≡ later bs (parse_loop s p)
  unfolding parse_loop
  parse_loop-extend (reading_payload t len) p bs h = read_payload-extend p t len bs h
  parse_loop-extend waiting_header p bs h = elim (header-cases p.max_frame_size p.buffer) [
    | inl e ↦ absurd (h (rw e))
    | inr d ↦
        ap (read_header (extend p bs)) (grown d)
        ∙ read_header-extend p bs (try_parse_header p.max_frame_size p.buffer) h
  ]
    where
      grown :
          try_parse_header p.max_frame_size p.buffer ≢ ok none
          → try_parse_header (extend p bs).max_frame_size (extend p bs).buffer
            ≡ more_rest bs (try_parse_header p.max_frame_size p.buffer)
      grown d = unfold extend in try_parse_header-append p.max_frame_size p.buffer bs d

  loop_waiting :
      (p : FrameParser) (bs : Bytes) {r : Result H3Error (Option (FrameType × ℕ × Bytes))}
      → try_parse_header p.max_frame_size p.buffer ≡ r
      → r ≢ ok none
      → parse_loop {H = H} waiting_header (extend p bs) ≡ read_header (extend p bs) (more_rest bs r)
  unfolding parse_loop extend
  loop_waiting p bs e d = ap (read_header (extend p bs)) (
      try_parse_header-append p.max_frame_size p.buffer bs (λ n. d (sym e ∙ n))
      ∙ ap (more_rest bs) e)

  read_header-resume :
      (p : FrameParser) (bs : Bytes) (r : Result H3Error (Option (FrameType × ℕ × Bytes)))
      → p.state ≡ waiting_header
      → try_parse_header p.max_frame_size p.buffer ≡ r
      → (read_header {H = H} p r).1 ≡ ok none
      → let q = (read_header {H = H} p r).0 in
        parse_loop {H = H} q.state (extend q bs) ≡ parse_loop waiting_header (extend p bs)
  unfolding read_header parse_loop extend
  read_header-resume p bs (ok none) e t h = rw e
  read_header-resume p bs (err x) e t h = cc
  read_header-resume p bs (ok (some (t, len, rest))) e r h =
      rw (read_payload-none (with_header p t len rest) t len h)
        (sym (loop_waiting p bs r (λ n. cc)))

  -- After `none` the loop goes on, with more bytes, as it would have gone with them at once.
  parse_loop-resume :
      (s : ParserState) (p : FrameParser) (bs : Bytes)
      → p.state ≡ s
      → (parse_loop {H = H} s p).1 ≡ ok none
      → let q = (parse_loop {H = H} s p).0 in
        parse_loop {H = H} q.state (extend q bs) ≡ parse_loop s (extend p bs)
  unfolding parse_loop
  parse_loop-resume waiting_header p bs e h =
      read_header-resume p bs (try_parse_header p.max_frame_size p.buffer) e refl h
  parse_loop-resume (reading_payload t len) p bs e h = rw (read_payload-none p t len h, e)

  pub parse_frame-fits :
      (p : FrameParser) (a : Bytes)
      → length p.buffer + length a ≤ p.max_buffer_size
      → parse_frame {H = H} p a ≡ parse_loop p.state (extend p a)
  unfolding parse_frame
  parse_frame-fits p a h = rw (le→ltb p.max_buffer_size (length p.buffer + length a) h)

  -- If the buffer and both parts of the input together fit `max_buffer_size` and the first part yields
  -- no frame, the call with the second part does what one call with both parts does, down to the parser
  -- that is left.
  pub parse_frame-split :
      (p : FrameParser) (a b : Bytes)
      → length p.buffer + length a + length b ≤ p.max_buffer_size
      → (parse_frame {H = H} p a).1 ≡ ok none
      → parse_frame {H = H} (parse_frame {H = H} p a).0 b ≡ parse_frame p (a ++ b)
  parse_frame-split p a b fits h =
      let first : parse_frame {H = H} p a ≡ parse_loop p.state (extend p a) =
        parse_frame-fits p a (omega arith) in
      let q = (parse_loop {H = H} p.state (extend p a)).0 in
      let (small, room) = left_over H p a in
      rw first (
        parse_frame-fits q b (omega arith)
        ∙ parse_loop-resume p.state (extend p a) b (state-extend p a) (rw first at h)
        ∙ ap (parse_loop p.state) (extend_twice p a b)
        ∙ sym (parse_frame-fits p (a ++ b) (omega (arith, length-append a b))))

  -- A call that yields a frame or an error does so whatever follows its bytes, and leaves what
  -- follows in the buffer.
  pub parse_frame-later :
      (p : FrameParser) (a b : Bytes)
      → length p.buffer + length a + length b ≤ p.max_buffer_size
      → IsDone (parse_frame {H = H} p a)
      → parse_frame {H = H} p (a ++ b) ≡ later b (parse_frame p a)
  parse_frame-later p a b fits h =
      let first : parse_frame {H = H} p a ≡ parse_loop p.state (extend p a) =
        parse_frame-fits p a (omega arith) in
      parse_frame-fits p (a ++ b) (omega (arith, length-append a b))
      ∙ ap (parse_loop p.state) (sym (extend_twice p a b))
      ∙ parse_loop-extend p.state (extend p a) b (rw first at h)
      ∙ ap (later b) (sym first)
