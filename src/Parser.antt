-- ===== src/Parser.antt =====
-- `FrameParser` of src/protocol/frame.rs: the incremental parser over its buffer. `usize` has 64
-- bits; the counters of the statistics wrap at 2 ^ 64.
pub mod Header
pub mod Bounds
pub mod Chunks
pub mod RoundTrip
pub mod Many
pub mod Total
pub mod Complete
pub mod Typed
use dummy_h.Prelude.{
  ℕ, zero, suc, ◌+◌, ◌-◌, ◌*◌, ◌%◌, ◌^◌, max, Bool, false, Option, none, some, List, [], ◌∷◌, ◌++◌,
  ltb, leb, if◌then◌else◌, length, take, drop,
}
use dummy_h.Error.{ParseError, H3Error, parse, Result, ok, err, ◌>>=◌, map_err}
use dummy_h.Varint.{Bytes, read_varint}
use dummy_h.Frame.{FrameType, H3Frame, HeaderLib, frame_type_try_from}
use dummy_h.Frame.Codec.{parse_frame_payload, out_of_fuel}

pub data ParserState : Type 0 where
  waiting_header : ParserState
  -- frame_type, length
  reading_payload : FrameType → ℕ → ParserState

pub record ParserStats : Type 0 where
  pub frames_parsed : ℕ
  pub bytes_processed : ℕ
  pub parse_errors : ℕ
  pub buffer_overflows : ℕ

abbrev pub no_stats : ParserStats
no_stats = record { frames_parsed = 0; bytes_processed = 0; parse_errors = 0; buffer_overflows = 0 }

pub record FrameParser : Type 0 where
  pub buffer : Bytes
  pub state : ParserState
  pub max_frame_size : ℕ
  pub max_buffer_size : ℕ
  pub stats : ParserStats

-- What a call of the parser leaves and returns.
abbrev pub Outcome : Type 0 → Type 0
Outcome H = FrameParser × Result H3Error (Option (H3Frame H))

abbrev pub wrap : ℕ → ℕ
wrap n = n % 2 ^ 64

unfoldable pub with_config : ℕ → ℕ → FrameParser
with_config max_frame_size max_buffer_size = record {
  buffer = [];
  state = waiting_header;
  max_frame_size = max_frame_size;
  max_buffer_size = max_buffer_size;
  stats = no_stats;
}

unfoldable pub with_max_frame_size : ℕ → FrameParser
unfolding with_config
with_max_frame_size max_size = with_config max_size (wrap (max_size * 4))

unfoldable pub new : FrameParser
unfolding with_config
new = with_config 16384 65536

unfoldable pub reset_stats : FrameParser → FrameParser
reset_stats p = record p { stats = no_stats }

unfoldable pub buffer_size : FrameParser → ℕ
buffer_size p = length p.buffer

unfoldable pub clear : FrameParser → FrameParser
clear p = record p { buffer = []; state = waiting_header }

-- `self.stats.… += 1`
unfoldable pub count_frame : FrameParser → FrameParser
count_frame p = record p {
  stats = record (p.stats) { frames_parsed = wrap (p.stats.frames_parsed + 1) };
}

unfoldable pub count_error : FrameParser → FrameParser
count_error p = record p {
  stats = record (p.stats) { parse_errors = wrap (p.stats.parse_errors + 1) };
}

unfoldable pub count_overflow : FrameParser → FrameParser
count_overflow p = record p {
  stats = record (p.stats) { buffer_overflows = wrap (p.stats.buffer_overflows + 1) };
}

-- `self.buffer.extend_from_slice(data); self.stats.bytes_processed += data.len() as u64;`
unfoldable pub extend : FrameParser → Bytes → FrameParser
extend p bs = record p {
  buffer = p.buffer ++ bs;
  stats = record (p.stats) { bytes_processed = wrap (p.stats.bytes_processed + length bs) };
}

-- The second part of `try_parse_header`: the length behind the frame type.
unfoldable pub header_length :
    ℕ → FrameType → Result ParseError (ℕ × Bytes) → Result H3Error (Option (FrameType × ℕ × Bytes))
header_length max t (ok (len, rest)) =
    if ltb max len
    then err (parse (ParseError.frame_too_large len max))
    else ok (some (t, len, rest))
header_length max t (err ParseError.incomplete) = ok none
header_length max t (err e) = err (parse e)

-- Its first part: the frame type.
unfoldable pub header_type :
    ℕ → Result ParseError (ℕ × Bytes) → Result H3Error (Option (FrameType × ℕ × Bytes))
unfolding header_length
header_type max (ok (raw, rest)) = do
  t ← map_err parse (frame_type_try_from raw)
  header_length max t (read_varint rest)
header_type max (err ParseError.incomplete) = ok none
header_type max (err e) = err (parse e)

-- `try_parse_header` over the buffer: the header with the bytes after it, to which the buffer
-- advances; on `none` and on an error the buffer stays.
unfoldable pub try_parse_header : ℕ → Bytes → Result H3Error (Option (FrameType × ℕ × Bytes))
unfolding header_type
try_parse_header max buffer =
    if ltb (length buffer) 2 then ok none else header_type max (read_varint buffer)

unfoldable pub has_complete_frame : FrameParser → Bool
has_complete_frame p = if ltb (length p.buffer) 2 then false else elim (read_varint p.buffer) [
  | ok (raw, rest) ↦ elim (read_varint rest) [
    | ok (len, rest') ↦ leb (wrap (length p.buffer - length rest' + len)) (length p.buffer)
    | err e ↦ false
  ]
  | err e ↦ false
]

module _ {H : Type 0} ⦃L : HeaderLib H⦄ where
  -- The outcome of `parse_frame_payload`, counted.
  unfoldable pub finish_frame : FrameParser → Result H3Error (H3Frame H) → Outcome H
  unfolding count_frame count_error
  finish_frame p (ok frame) = (count_frame p, ok (some frame))
  finish_frame p (err e) = (count_error p, err e)

  -- The arm `ReadingPayload` of the loop. It returns on every path.
  unfoldable pub read_payload : FrameParser → FrameType → ℕ → Outcome H
  unfolding finish_frame
  read_payload p t len =
      if ltb (length p.buffer) len
      then (p, ok none)
      else finish_frame (record p { buffer = drop len p.buffer; state = waiting_header })
          (parse_frame_payload t (take len p.buffer))

  -- The arm `WaitingHeader`; after a header the loop goes on with `ReadingPayload`.
  unfoldable pub read_header :
      FrameParser → Result H3Error (Option (FrameType × ℕ × Bytes)) → Outcome H
  unfolding read_payload count_error
  read_header p (ok (some (t, len, rest))) =
      read_payload (record p { buffer = rest; state = reading_payload t len }) t len
  read_header p (ok none) = (p, ok none)
  read_header p (err e) = (count_error p, err e)

  -- `loop { match self.state.clone() { … } }`, which takes two rounds at most.
  unfoldable pub parse_loop : ParserState → FrameParser → Outcome H
  unfolding read_header read_payload
  parse_loop waiting_header p = read_header p (try_parse_header p.max_frame_size p.buffer)
  parse_loop (reading_payload t len) p = read_payload p t len

  unfoldable pub parse_frame : FrameParser → Bytes → Outcome H
  unfolding parse_loop count_overflow extend
  parse_frame p bs =
      if ltb p.max_buffer_size (length p.buffer + length bs)
      then (count_overflow p, err (parse ParseError.buffer_overflow))
      else parse_loop p.state (extend p bs)

  -- `loop { match self.parse_frame(&[]) { … } }` with the frames pushed so far.
  unfoldable pub frames_loop :
      ℕ → FrameParser → List (H3Frame H) → FrameParser × Result H3Error (List (H3Frame H))
  frames_loop zero p frames = (p, err out_of_fuel)
  frames_loop (suc fuel) p frames =
      let (p', outcome) = parse_frame p [] in
      elim outcome [
        | ok (some frame) ↦ frames_loop fuel p' (frames ++ frame ∷ [])
        | ok none ↦ (p', ok frames)
        | err e ↦ (p', err e)
      ]

  -- Every frame but the first takes two bytes of the buffer, hence the fuel.
  unfoldable pub parse_frames :
      FrameParser → Bytes → FrameParser × Result H3Error (List (H3Frame H))
  unfolding frames_loop count_overflow extend
  parse_frames p bs =
      if ltb p.max_buffer_size (length p.buffer + length bs)
      then (count_overflow p, err (parse ParseError.buffer_overflow))
      else frames_loop (length p.buffer + length bs + 2) (extend p bs) []
