-- ===== src/Tests/Frames.antt =====
-- Varints, frames and the parser of src/protocol/frame.rs at concrete inputs.
use dummy_h.Prelude.{ℕ, ◌+◌, ◌≤◌, ◌≡◌, refl, ◌≢◌, none, some, List, [], ◌∷◌, ◌++◌, arith, length}
use dummy_h.Parser.Typed.{Announced, IsUnplaced, parse_frame-typed}
use dummy_h.Error.{ok}
use dummy_h.Varint.{read_varint, write_varint}
use dummy_h.Varint.RoundTrip.{read-write}
use dummy_h.Frame.{SettingId, H3Frame, HeaderLib, frame_type_try_from, setting_id_code}
use dummy_h.Frame.Codec.{parse_frame_payload, encode_frame, encode_frame_payload, encode_settings}
use dummy_h.Parser.{
  FrameParser, waiting_header, has_complete_frame, no_stats, new, parse_frame, parse_frames,
  parse_loop, try_parse_header,
}
use dummy_h.Parser.Bounds.{parse_frame-bounded}
use dummy_h.Parser.Chunks.{parse_frame-split}
use dummy_h.Parser.Complete.{Agrees, has_complete_frame-Agrees}
use dummy_h.Parser.Total.{Ends, parse_frames-Ends}
use dummy_h.Parser.Many.{AllFit, parse_frames-encode_all}

-- Header maps as the lists of their names' and values' lengths.
abbrev Headers : Type 0
Headers = List (ℕ × ℕ)

instance abbrev list_headers : HeaderLib Headers
list_headers = record { new = []; lengths = λ h. h; lengths-new = refl }

abbrev push : H3Frame Headers
push = H3Frame.max_push_id 300

abbrev table : H3Frame Headers
table =
    H3Frame.settings
      ((SettingId.max_field_section_size, 70000) ∷ (SettingId.qpack_blocked_streams, 9) ∷ [])

push_encoded : encode_frame push ≡ ok (13 ∷ 2 ∷ 65 ∷ 44 ∷ [])
unfolding encode_frame encode_frame_payload write_varint
push_encoded = refl

table_encoded : encode_frame table ≡ ok (4 ∷ 7 ∷ 6 ∷ 128 ∷ 1 ∷ 17 ∷ 112 ∷ 7 ∷ 9 ∷ [])
unfolding encode_frame encode_frame_payload encode_settings write_varint setting_id_code
table_encoded = refl

-- An unknown frame type is an error each time, since the buffer does not advance.
unknown_type : (parse_frame {H = Headers} new (33 ∷ 0 ∷ [])).0.buffer ≡ 33 ∷ 0 ∷ []
unfolding new parse_frame parse_loop try_parse_header read_varint frame_type_try_from
unknown_type = refl

read-write_example : read_varint (write_varint 70000 ++ 9 ∷ []) ≡ ok (70000, 9 ∷ [])
read-write_example = read-write 70000 (9 ∷ []) (omega arith)

push_done : (parse_frame {H = Headers} new (13 ∷ 2 ∷ 65 ∷ 44 ∷ [])).1 ≢ ok none
unfolding new parse_frame parse_loop try_parse_header read_varint frame_type_try_from
    parse_frame_payload
push_done = λ e. cc

parse_frame-bounded_example :
    let q = (parse_frame {H = Headers} new (13 ∷ 2 ∷ 65 ∷ [])).0 in
    (length q.buffer ≤ q.max_buffer_size)
    × (length q.buffer ≤ length (new.buffer) + 3)
    × (q.max_buffer_size ≡ new.max_buffer_size)
    × (q.max_frame_size ≡ new.max_frame_size)
parse_frame-bounded_example =
    parse_frame-bounded Headers new (13 ∷ 2 ∷ 65 ∷ []) (unfold new in omega arith)

push_waits : (parse_frame {H = Headers} new (13 ∷ 2 ∷ 65 ∷ [])).1 ≡ ok none
unfolding new parse_frame parse_loop try_parse_header read_varint frame_type_try_from
push_waits = refl

parse_frame-split_example :
    parse_frame {H = Headers} (parse_frame {H = Headers} new (13 ∷ 2 ∷ 65 ∷ [])).0 (44 ∷ 4 ∷ [])
    ≡ parse_frame new (13 ∷ 2 ∷ 65 ∷ 44 ∷ 4 ∷ [])
parse_frame-split_example =
    parse_frame-split new (13 ∷ 2 ∷ 65 ∷ []) (44 ∷ 4 ∷ []) (unfold new in omega arith) push_waits

two_fit : AllFit 16384 (push ∷ push ∷ [])
unfolding write_varint
two_fit = omega arith

parse_frames-encode_all_example :
    (parse_frames new (13 ∷ 2 ∷ 65 ∷ 44 ∷ 13 ∷ 2 ∷ 65 ∷ 44 ∷ [])).1 ≡ ok (push ∷ push ∷ [])
unfolding new
parse_frames-encode_all_example =
    parse_frames-encode_all new (push ∷ push ∷ []) (13 ∷ 2 ∷ 65 ∷ 44 ∷ 13 ∷ 2 ∷ 65 ∷ 44 ∷ [])
      (rw push_encoded) two_fit (omega arith) refl refl (omega arith)

parse_frames-Ends_example : Ends (parse_frames {H = Headers} new (13 ∷ 2 ∷ 65 ∷ 44 ∷ 33 ∷ [])).1
parse_frames-Ends_example = parse_frames-Ends Headers new (13 ∷ 2 ∷ 65 ∷ 44 ∷ 33 ∷ [])

-- Two bytes of a header and one of the two bytes that it announces.
abbrev half_frame : FrameParser
half_frame = record {
  buffer = 13 ∷ 2 ∷ 65 ∷ [];
  state = waiting_header;
  max_frame_size = 16384;
  max_buffer_size = 65536;
  stats = no_stats;
}

has_complete_frame-Agrees_example :
    Agrees Headers (has_complete_frame half_frame) (parse_frame {H = Headers} half_frame []).1
has_complete_frame-Agrees_example =
    has_complete_frame-Agrees Headers half_frame refl (omega arith) (omega arith)

push_delivered : (parse_frame {H = Headers} new (13 ∷ 2 ∷ 65 ∷ 44 ∷ [])).1 ≡ ok (some push)
unfolding new parse_frame parse_loop try_parse_header read_varint frame_type_try_from
    parse_frame_payload
push_delivered = refl

parse_frame-typed_example :
    Announced Headers waiting_header 16384 (13 ∷ 2 ∷ 65 ∷ 44 ∷ []) push × IsUnplaced push
unfolding new
parse_frame-typed_example =
    parse_frame-typed Headers new (13 ∷ 2 ∷ 65 ∷ 44 ∷ []) push push_delivered
