-- ===== src/Parser/RoundTrip.antt =====
-- Frames that `encode_frame` wrote, read back by the parser of src/protocol/frame.rs.
use dummy_h.Prelude.{
  ℕ, ◌+◌, ◌%◌, ◌^◌, ◌≤◌, ◌<◌, max, ◌≡◌, refl, sym, ap, ◌∙◌, inl, inr, Option, none, some, [], ◌∷◌,
  ◌++◌, append-nil, append_assoc, arith, le→ltb, length, length-append, take-append_self,
  drop-append_self,
}
use dummy_h.Error.{H3Error, Result, ok}
use dummy_h.Varint.{Bytes, read_varint}
use dummy_h.Frame.{FrameType, H3Frame, HeaderLib}
use dummy_h.Parser.{
  Outcome, ParserState, waiting_header, reading_payload, FrameParser, extend, header_length,
  header_type, try_parse_header, finish_frame, read_payload, read_header, parse_loop, parse_frame,
  count_frame,
}
use dummy_h.Varint.{write_varint}
use dummy_h.Varint.RoundTrip.{read-write}
use dummy_h.Frame.{frame_type, frame_type_code}
use dummy_h.Frame.Codec.{encode_frame}
use dummy_h.Frame.Settings.{write_pos}
use dummy_h.Frame.Types.{frame_type_try_from-code}
use dummy_h.Frame.Wire.{payload, received, IsFrame, parse-payload, frame_bytes, encode_frame-bytes}
use dummy_h.Parser.Chunks.{
  later, Outcome-cases, parse_frame-fits, parse_frame-split, parse_frame-later,
}

code_small : (t : FrameType) → frame_type_code t < 64
unfolding frame_type_code
code_small t = ground arith

read_code :
    (t : FrameType) (rest : Bytes)
    → read_varint (write_varint (frame_type_code t) ++ rest) ≡ ok (frame_type_code t, rest)
read_code t rest =
    let e : frame_type_code t % 2 ^ 62 ≡ frame_type_code t = omega (arith, code_small t) in
    rw e at (read-write (frame_type_code t) rest (omega (arith, code_small t)))

-- The header in front of any bytes is read back, and the bytes are left.
header-write :
    (max : ℕ) (t : FrameType) (len : ℕ) (rest : Bytes)
    → len ≤ max
    → max < 2 ^ 62
    → try_parse_header max (write_varint (frame_type_code t) ++ (write_varint len ++ rest))
      ≡ ok (some (t, len, rest))
unfolding try_parse_header header_type header_length
header-write max t len rest h m =
    let e : len % 2 ^ 62 ≡ len = omega arith in
    rw (
      le→ltb (length (write_varint (frame_type_code t) ++ (write_varint len ++ rest))) 2 long,
      read_code t (write_varint len ++ rest),
      (frame_type_try_from-code (frame_type_code t) t).1 refl,
      read-write len rest (omega arith),
      e,
      le→ltb max len h,
    )
  where
    long : 2 ≤ length (write_varint (frame_type_code t) ++ (write_varint len ++ rest))
    long = omega (
      arith,
      length-append (write_varint (frame_type_code t)) (write_varint len ++ rest),
      length-append (write_varint len) rest,
      write_pos (frame_type_code t),
      write_pos len,
    )

-- The parser after a frame: the bytes behind it wait, and the frame is counted.
abbrev pub after_frame : FrameParser → Bytes → FrameParser
after_frame p more = count_frame (record p { buffer = more; state = waiting_header })

module _ {H : Type 0} ⦃L : HeaderLib H⦄ where
  read_payload-payload :
      (p : FrameParser) (s : ParserState) (f : H3Frame H) (more : Bytes)
      → IsFrame f
      → read_payload {H = H}
          (record p { buffer = payload f ++ more; state = s })
          (frame_type f)
          (length (payload f))
        ≡ (after_frame p more, ok (some (received f)))
  unfolding read_payload finish_frame
  read_payload-payload p s f more w = rw (
    le→ltb (length (payload f ++ more)) (length (payload f))
        (omega (arith, length-append (payload f) more)),
    take-append_self (payload f) more,
    drop-append_self (payload f) more,
    parse-payload f w,
  )

  header-bytes :
      (max : ℕ) (f : H3Frame H) (more : Bytes)
      → length (payload f) ≤ max
      → max < 2 ^ 62
      → try_parse_header max (frame_bytes f ++ more)
        ≡ ok (some (frame_type f, length (payload f), payload f ++ more))
  header-bytes max f more h m =
      let t = write_varint (frame_type_code (frame_type f)) in
      let len = write_varint (length (payload f)) in
      ap (try_parse_header max)
        (append_assoc t (len ++ payload f) more ∙ ap (◌++◌ t) (append_assoc len (payload f) more))
      ∙ header-write max (frame_type f) (length (payload f)) (payload f ++ more) h m

  -- One frame at the front of the buffer.
  pub parse_loop-bytes :
      (p : FrameParser) (f : H3Frame H) (more : Bytes)
      → IsFrame f
      → length (payload f) ≤ p.max_frame_size
      → p.max_frame_size < 2 ^ 62
      → p.buffer ≡ frame_bytes f ++ more
      → parse_loop {H = H} waiting_header p ≡ (after_frame p more, ok (some (received f)))
  unfolding parse_loop
  parse_loop-bytes p f more w h m e =
      ap (λ (b : Bytes). read_header p (try_parse_header p.max_frame_size b)) e
      ∙ ap (read_header p) (header-bytes p.max_frame_size f more h m)
      ∙ read_payload-payload p (reading_payload (frame_type f) (length (payload f))) f more w

  ok_bytes : (f : H3Frame H) (bs : Bytes) → encode_frame f ≡ ok bs → bs ≡ frame_bytes f
  ok_bytes f bs e = cc (encode_frame-bytes f)

  -- An encoded frame that arrives at an idle parser is delivered, and the bytes behind it wait.
  pub parse_frame-encode :
      (p : FrameParser) (f : H3Frame H) (bs more : Bytes)
      → encode_frame f ≡ ok bs
      → IsFrame f
      → p.state ≡ waiting_header
      → p.buffer ≡ []
      → length (payload f) ≤ p.max_frame_size
      → p.max_frame_size < 2 ^ 62
      → length (bs ++ more) ≤ p.max_buffer_size
      → parse_frame p (bs ++ more)
        ≡ (after_frame (extend p (bs ++ more)) more, ok (some (received f)))
  unfolding extend
  parse_frame-encode p f bs more e w idle empty h m fits =
      parse_frame-fits p (bs ++ more) (rw empty (omega arith))
      ∙ ap (λ (s : ParserState). parse_loop s (extend p (bs ++ more))) idle
      ∙ parse_loop-bytes (extend p (bs ++ more)) f more w h m (rw (empty, ok_bytes f bs e))

  -- Bytes that wait are not an empty buffer.
  kept_bytes :
      (o : Outcome H) (x : ℕ) (b : Bytes) (q : FrameParser)
      {r : Result H3Error (Option (H3Frame H))}
      → later (x ∷ b) o ≡ (after_frame q [], r)
      → ⊥
  unfolding extend count_frame
  kept_bytes o x b q e =
      omega (arith, ap (λ (o : Outcome H). length o.0.buffer) e, length-append o.0.buffer (x ∷ b))

  -- However an encoded frame is cut in two, the first part yields nothing yet and the second part
  -- yields the frame.
  pub parse_frame-parts :
      (p : FrameParser) (f : H3Frame H) (a b : Bytes) (x : ℕ)
      → encode_frame f ≡ ok (a ++ x ∷ b)
      → IsFrame f
      → p.state ≡ waiting_header
      → p.buffer ≡ []
      → length (payload f) ≤ p.max_frame_size
      → p.max_frame_size < 2 ^ 62
      → length (a ++ x ∷ b) ≤ p.max_buffer_size
      → ((parse_frame {H = H} p a).1 ≡ ok none)
        × ((parse_frame {H = H} (parse_frame {H = H} p a).0 (x ∷ b)).1 ≡ ok (some (received f)))
  parse_frame-parts p f a b x e w idle empty h m fits = elim (Outcome-cases (parse_frame p a)) [
    | inl n ↦ (n, ap (λ (o : Outcome H). o.1) (parse_frame-split p a (x ∷ b) room n ∙ whole))
    | inr d ↦ absurd (
        kept_bytes (parse_frame p a) x b (extend p (a ++ x ∷ b))
          (sym (parse_frame-later p a (x ∷ b) room d) ∙ whole))
  ]
    where
      whole :
          parse_frame p (a ++ x ∷ b)
          ≡ (after_frame (extend p (a ++ x ∷ b)) [], ok (some (received f)))
      whole =
          rw append-nil at
            (parse_frame-encode p f (a ++ x ∷ b) [] e w idle empty h m (rw append-nil fits))

      room : length p.buffer + length a + length (x ∷ b) ≤ p.max_buffer_size
      room = rw empty (omega (arith, length-append a (x ∷ b)))
