-- ===== src/Parser/Many.antt =====
-- `parse_frames` of src/protocol/frame.rs over several frames at once.
use dummy_h.Prelude.{
  ℕ, zero, suc, ◌+◌, ◌^◌, ◌≤◌, ◌<◌, max, ◌≡◌, refl, ap, ◌∙◌, none, some, List, [], ◌∷◌, ◌++◌,
  append-nil, append_assoc, arith, le→ltb, length, length-append,
}
use dummy_h.Error.{H3Error, Result, ok, ◌>>=◌}
use dummy_h.Varint.{Bytes}
use dummy_h.Frame.{H3Frame, HeaderLib}
use dummy_h.Parser.{
  Outcome, ParserState, waiting_header, FrameParser, extend, try_parse_header, read_header,
  parse_loop, parse_frame, count_frame,
}
use dummy_h.Varint.{write_varint}
use dummy_h.Frame.{frame_type, frame_type_code}
use dummy_h.Frame.Codec.{encode_frame}
use dummy_h.Frame.Settings.{write_pos}
use dummy_h.Parser.{frames_loop, parse_frames}
use dummy_h.Frame.Wire.{frame_bytes, encode_frame-bytes, payload, received, IsFrame}
use dummy_h.Parser.Chunks.{parse_frame-fits}
use dummy_h.Parser.RoundTrip.{after_frame, parse_loop-bytes}

module _ {H : Type 0} ⦃L : HeaderLib H⦄ where
  -- The frames one after the other, as the sender writes them.
  abbrev pub encode_all : List (H3Frame H) → Result H3Error Bytes
  encode_all [] = ok []
  encode_all (f ∷ fs) = do bs ← encode_frame f; rest ← encode_all fs; ok (bs ++ rest)

  abbrev all_bytes : List (H3Frame H) → Bytes
  all_bytes [] = []
  all_bytes (f ∷ fs) = frame_bytes f ++ all_bytes fs

  abbrev pub all_received : List (H3Frame H) → List (H3Frame H)
  all_received [] = []
  all_received (f ∷ fs) = received f ∷ all_received fs

  -- Frames that a parser with this limit accepts.
  abbrev pub AllFit : ℕ → List (H3Frame H) → Type 0
  AllFit max [] = Unit
  AllFit max (f ∷ fs) = IsFrame f × (length (payload f) ≤ max) × AllFit max fs

  encode_all-bytes : (fs : List (H3Frame H)) → encode_all fs ≡ ok (all_bytes fs)
  encode_all-bytes [] = refl
  encode_all-bytes (f ∷ fs) = rw (encode_frame-bytes f, encode_all-bytes fs)

  -- A frame takes a byte at least.
  length-all_bytes : (fs : List (H3Frame H)) → length fs ≤ length (all_bytes fs)
  length-all_bytes [] = omega arith
  length-all_bytes (f ∷ fs) =
      let t = write_varint (frame_type_code (frame_type f)) in
      let rest = write_varint (length (payload f)) ++ payload f in
      omega (
        arith,
        length-all_bytes fs,
        length-append (t ++ rest) (all_bytes fs),
        length-append t rest,
        write_pos (frame_type_code (frame_type f)),
      )

  idle_none :
      (p : FrameParser)
      → p.state ≡ waiting_header
      → p.buffer ≡ []
      → parse_frame {H = H} p [] ≡ (extend p [], ok none)
  unfolding parse_loop extend try_parse_header read_header
  idle_none p idle empty =
      parse_frame-fits p [] (rw empty (omega arith))
      ∙ ap (λ (s : ParserState). parse_loop s (extend p [])) idle
      ∙ ap (λ (b : Bytes). read_header (extend p []) (try_parse_header p.max_frame_size (b ++ [])))
          empty

  frame_ready :
      (p : FrameParser) (f : H3Frame H) (more : Bytes)
      → IsFrame f
      → length (payload f) ≤ p.max_frame_size
      → p.max_frame_size < 2 ^ 62
      → length p.buffer ≤ p.max_buffer_size
      → p.state ≡ waiting_header
      → p.buffer ≡ frame_bytes f ++ more
      → parse_frame {H = H} p [] ≡ (after_frame (extend p []) more, ok (some (received f)))
  unfolding extend
  frame_ready p f more w h m fits idle e =
      parse_frame-fits p [] (omega arith)
      ∙ ap (λ (s : ParserState). parse_loop s (extend p [])) idle
      ∙ parse_loop-bytes (extend p []) f more w h m (append-nil p.buffer ∙ e)

  loop_empty :
      (fuel : ℕ) (p : FrameParser) (out : List (H3Frame H))
      → p.state ≡ waiting_header
      → p.buffer ≡ []
      → (frames_loop (suc fuel) p out).1 ≡ ok out
  unfolding frames_loop
  loop_empty fuel p out idle empty = rw (idle_none p idle empty, frames_loop)

  loop_frame :
      (fuel : ℕ) (p : FrameParser) (f : H3Frame H) (more : Bytes) (out : List (H3Frame H))
      → IsFrame f
      → length (payload f) ≤ p.max_frame_size
      → p.max_frame_size < 2 ^ 62
      → length p.buffer ≤ p.max_buffer_size
      → p.state ≡ waiting_header
      → p.buffer ≡ frame_bytes f ++ more
      → (q : FrameParser) × (frames_loop (suc fuel) p out
          ≡ frames_loop fuel q (out ++ received f ∷ []))
        × (q.buffer ≡ more)
        × (q.state ≡ waiting_header)
        × (q.max_frame_size ≡ p.max_frame_size)
        × (q.max_buffer_size ≡ p.max_buffer_size)
  unfolding frames_loop extend count_frame
  loop_frame fuel p f more out w h m fits idle e =
      let ready = frame_ready p f more w h m fits idle e in
      (
        after_frame (extend p []) more,
        rw (ready, frames_loop)
            (ap (λ (o : Outcome H). frames_loop fuel o.0 (out ++ received f ∷ [])) ready),
        refl,
        refl,
        refl,
        refl,
      )

  loop_all :
      (fs : List (H3Frame H)) (fuel : ℕ) (p : FrameParser) (out : List (H3Frame H))
      → AllFit p.max_frame_size fs
      → p.max_frame_size < 2 ^ 62
      → length p.buffer ≤ p.max_buffer_size
      → p.state ≡ waiting_header
      → p.buffer ≡ all_bytes fs
      → length fs < fuel
      → (frames_loop fuel p out).1 ≡ ok (out ++ all_received fs)
  loop_all fs zero p out w m fits idle e lt = absurd (omega arith)
  loop_all [] (suc fuel) p out w m fits idle e lt = rw append-nil (loop_empty fuel p out idle e)
  loop_all (f ∷ fs) (suc fuel) p out (w, h, ws) m fits idle e lt =
      let (q, step, rest, waits, same, room) =
        loop_frame fuel p f (all_bytes fs) out w h m fits idle e in
      rw step (
        loop_all fs fuel q (out ++ received f ∷ []) (rw same ws) (rw same m)
          (omega (
            arith,
            ap length rest,
            ap length e,
            room,
            length-append (frame_bytes f) (all_bytes fs),
          ))
          waits rest (omega arith)
        ∙ ap ok (append_assoc out (received f ∷ []) (all_received fs)))

  -- If the parser is between two frames with an empty buffer, and the frames, of u64 numbers and with
  -- each setting at most once, fit its frame limit, which is below 2 ^ 62, and their encodings together
  -- its buffer, then it delivers that many frames, in their order, each as it is read back: with its
  -- type, data and settings, but stream 0, no end of stream, no headers and no priority, and numbers
  -- modulo 2 ^ 62.
  pub parse_frames-encode_all :
      (p : FrameParser) (fs : List (H3Frame H)) (bs : Bytes)
      → encode_all fs ≡ ok bs
      → AllFit p.max_frame_size fs
      → p.max_frame_size < 2 ^ 62
      → p.state ≡ waiting_header
      → p.buffer ≡ []
      → length bs ≤ p.max_buffer_size
      → (parse_frames p bs).1 ≡ ok (all_received fs)
  unfolding parse_frames extend
  parse_frames-encode_all p fs bs e w m idle empty fits =
      rw (le→ltb p.max_buffer_size (length p.buffer + length bs) (rw empty (omega arith))) (
        loop_all fs (length p.buffer + length bs + 2) (extend p bs) [] w m (rw empty fits) idle
          (ap (λ (b : Bytes). b ++ bs) empty ∙ sent) enough)
    where
      sent : bs ≡ all_bytes fs
      sent = cc (encode_all-bytes fs)

      enough : length fs < length p.buffer + length bs + 2
      enough = omega (arith, ap length sent, length-all_bytes fs)
