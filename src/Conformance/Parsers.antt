-- ===== src/Conformance/Parsers.antt =====
-- The tests of src/protocol/frame.rs about the incremental parser.
use dummy_h.Prelude.{
  ◌-◌, ◌/◌, ◌<◌, ◌≡◌, refl, true, false, Option, none, some, [], ◌∷◌, ◌++◌, arith, length, take,
  drop, replicate,
}
use dummy_h.Error.{H3Error, ParseError, parse, Result, ok, err}
use dummy_h.Varint.{Bytes, read_varint, write_varint}
use dummy_h.Frame.{
  FrameType, SettingId, Settings, H3Frame, HeaderLib, frame_type_try_from, frame_type_code,
  frame_type, is_connection_frame, insert_setting, setting_id_try_from,
}
use dummy_h.Http.Build.{default_priority}
use dummy_h.Frame.Codec.{encode_frame, serialize, parse_frame_payload}
use dummy_h.Parser.{
  FrameParser, Outcome, waiting_header, reading_payload, new, with_max_frame_size, with_config,
  buffer_size, clear, reset_stats, has_complete_frame, parse_frame, parse_frames, try_parse_header,
}

abbrev TestParserCreationAndConfig : Type 0
TestParserCreationAndConfig =
    (buffer_size new ≡ 0)
    × (new.buffer ≡ [])
    × ((with_max_frame_size 32768).max_frame_size ≡ 32768)
    × ((with_config 8192 16384).max_frame_size ≡ 8192)
    × ((with_config 8192 16384).max_buffer_size ≡ 16384)

creation_passes : TestParserCreationAndConfig
unfolding new with_max_frame_size with_config buffer_size
creation_passes = (refl, refl, refl, refl, refl)

abbrev TestParserStatistics : Type 0
TestParserStatistics =
    (new.stats.frames_parsed ≡ 0)
    × (new.stats.bytes_processed ≡ 0)
    × (new.stats.parse_errors ≡ 0)
    × ((reset_stats new).stats.frames_parsed ≡ 0)

statistics_pass : TestParserStatistics
unfolding new reset_stats
statistics_pass = (refl, refl, refl, refl)

-- "test data"
abbrev test_data : Bytes
test_data = 116 ∷ 101 ∷ 115 ∷ 116 ∷ 32 ∷ 100 ∷ 97 ∷ 116 ∷ 97 ∷ []

abbrev TestParserClear : Type 0
TestParserClear =
    let p = record new { buffer = test_data; state = reading_payload FrameType.data_frame 100 } in
    (0 < length (p.buffer)) × ((clear p).buffer ≡ []) × ((clear p).state ≡ waiting_header)

clear_passes : TestParserClear
unfolding clear
clear_passes = (omega arith, refl, refl)

-- The tests hold for whatever header map `map` they insert their header into.
module _ {H : Type 0} ⦃L : HeaderLib H⦄ (map : H) where
  abbrev TestHasCompleteFrame : Type 0
  TestHasCompleteFrame =
      (bytes : Bytes) × (encode_frame {H = H} (H3Frame.max_push_id 42) ≡ ok bytes)
      × (has_complete_frame new ≡ false)
      × (has_complete_frame (record new { buffer = take (length bytes - 1) bytes }) ≡ false)
      × (has_complete_frame (record new { buffer = bytes }) ≡ true)

  complete_passes : TestHasCompleteFrame
  unfolding encode_frame write_varint has_complete_frame read_varint new
  complete_passes = (_, refl, refl, refl, refl)

  abbrev TestIncrementalFrameParsing : Type 0
  TestIncrementalFrameParsing =
      let frame : H3Frame H = H3Frame.max_push_id 123 in
      (bytes : Bytes) × (encode_frame frame ≡ ok bytes)
      × (let middle = length bytes / 2 in
          let (p, first) = parse_frame {H = H} new (take middle bytes) in
          (first ≡ ok none) × ((parse_frame p (drop middle bytes)).1 ≡ ok (some frame)))

  incremental_passes : TestIncrementalFrameParsing
  unfolding encode_frame write_varint parse_frame read_varint new try_parse_header
      frame_type_try_from parse_frame_payload
  incremental_passes = (_, refl, (refl, refl))

  abbrev TestMultipleFramesParsing : Type 0
  TestMultipleFramesParsing =
      let one : H3Frame H = H3Frame.max_push_id 100 in
      let two : H3Frame H = H3Frame.cancel_push 200 in
      let three : H3Frame H = H3Frame.goaway 300 in
      (a : Bytes) × (b : Bytes) × (c : Bytes) × (encode_frame one ≡ ok a)
      × (encode_frame two ≡ ok b)
      × (encode_frame three ≡ ok c)
      × ((parse_frames new (a ++ b ++ c)).1 ≡ ok (one ∷ two ∷ three ∷ []))

  multiple_passes : TestMultipleFramesParsing
  unfolding encode_frame write_varint parse_frames parse_frame read_varint new try_parse_header
      frame_type_try_from parse_frame_payload
  multiple_passes = (_, _, _, refl, refl, refl, refl)

  abbrev TestBufferOverflowProtection : Type 0
  TestBufferOverflowProtection =
      let (p, r) = parse_frame {H = H} (with_config 1024 512) (replicate 1000 0) in
      ((e : H3Error) × (r ≡ err e)) × (p.stats.buffer_overflows ≡ 1)

  overflow_passes : TestBufferOverflowProtection
  unfolding parse_frame with_config
  overflow_passes = ((_, refl), refl)

  abbrev TestFrameSizeLimitEnforcement : Type 0
  TestFrameSizeLimitEnforcement =
      let buf = write_varint (frame_type_code FrameType.data_frame) ++ write_varint 1000 in
      (parse_frame {H = H} (with_max_frame_size 100) buf).1
      ≡ err (parse (ParseError.frame_too_large 1000 100))

  limit_passes : TestFrameSizeLimitEnforcement
  unfolding parse_frame with_max_frame_size write_varint read_varint frame_type_code
      try_parse_header frame_type_try_from
  limit_passes = refl

  abbrev TestParserErrorRecovery : Type 0
  TestParserErrorRecovery =
      let buf = write_varint 0xff ++ write_varint 10 ++ replicate 10 0 in
      let (p, r) = parse_frame {H = H} new buf in
      let frame : H3Frame H = H3Frame.max_push_id 42 in
      (bytes : Bytes) × (encode_frame frame ≡ ok bytes)
      × ((e : H3Error) × (r ≡ err e))
      × (p.stats.parse_errors ≡ 1)
      × ((f : H3Frame H) × ((parse_frame (clear p) bytes).1 ≡ ok (some f)))

  recovery_passes : TestParserErrorRecovery
  unfolding encode_frame parse_frame write_varint read_varint new clear try_parse_header
      frame_type_try_from parse_frame_payload
  recovery_passes = (_, refl, (_, refl), refl, (_, refl))

  abbrev TestPartialVarintParsing : Type 0
  TestPartialVarintParsing =
      let buf =
        write_varint (frame_type_code FrameType.max_push_id) ++ write_varint 1 ++ write_varint 42 in
      let (p, r) = parse_frame {H = H} new (take 1 buf) in
      (r ≡ ok none) × ((parse_frame {H = H} p (drop 1 buf)).1 ≡ ok (some (H3Frame.max_push_id 42)))

  partial_passes : TestPartialVarintParsing
  unfolding parse_frame write_varint read_varint new frame_type_code try_parse_header
      frame_type_try_from parse_frame_payload
  partial_passes = (refl, refl)

  -- `serialized` and its reading back; of the settings frame only that it is written.
  abbrev TestFrameRoundTripSerialization : Type 0
  TestFrameRoundTripSerialization =
      let one : H3Frame H = H3Frame.max_push_id 42 in
      let settings = insert_setting [] SettingId.qpack_max_table_capacity 4096 in
      ((serialized : Bytes) × (serialize one ≡ ok serialized)
        × ((f : H3Frame H) × ((parse_frame new serialized).1 ≡ ok (some f))))
      × ((serialized : Bytes) × (serialize {H = H} (H3Frame.settings settings) ≡ ok serialized)
          × (0 < length serialized))

  serialization_passes : TestFrameRoundTripSerialization
  unfolding serialize parse_frame write_varint read_varint new try_parse_header frame_type_try_from
      parse_frame_payload
  serialization_passes = ((_, refl, (_, refl)), (_, refl, omega arith))

  -- `parser.parse_frame(&parser.encode_frame(&frame).unwrap())`
  abbrev reads : FrameParser → H3Frame H → Outcome H
  reads p f = elim (encode_frame f) [ ok bytes ↦ parse_frame p bytes | err e ↦ (p, err e) ]

  abbrev IsOfType : Result H3Error (Option (H3Frame H)) → FrameType → Type 0
  IsOfType r t = (parsed : H3Frame H) × (r ≡ ok (some parsed)) × (frame_type parsed ≡ t)

  abbrev TestAllFrameTypesEncodingDecoding : Type 0
  TestAllFrameTypesEncodingDecoding =
      let one = insert_setting [] SettingId.qpack_max_table_capacity 4096 in
      let two = insert_setting one SettingId.max_field_section_size 8192 in
      let (p1, r1) = reads new (H3Frame.data_frame 4 test_data true) in
      let (p2, r2) = reads p1 (H3Frame.headers 8 map false (some default_priority)) in
      let (p3, r3) = reads p2 (H3Frame.settings two) in
      let (p4, r4) = reads p3 (H3Frame.push_promise 12 16 map) in
      let (p5, r5) = reads p4 (H3Frame.cancel_push 123) in
      let (p6, r6) = reads p5 (H3Frame.goaway 456) in
      let (p7, r7) = reads p6 (H3Frame.max_push_id 789) in
      IsOfType r1 FrameType.data_frame
      × IsOfType r2 FrameType.headers
      × ((parsed : H3Frame H) × (r3 ≡ ok (some parsed))
          × (frame_type parsed ≡ FrameType.settings)
          × (is_connection_frame parsed ≡ true))
      × IsOfType r4 FrameType.push_promise
      × IsOfType r5 FrameType.cancel_push
      × IsOfType r6 FrameType.goaway
      × IsOfType r7 FrameType.max_push_id

  all_types_pass : TestAllFrameTypesEncodingDecoding
  unfolding encode_frame parse_frame write_varint read_varint new try_parse_header
      frame_type_try_from parse_frame_payload insert_setting is_connection_frame
      dummy_h.Frame.same_setting
  all_types_pass = (
    (_, refl, refl),
    (_, refl, refl),
    (_, refl, refl, refl),
    (_, refl, refl),
    (_, refl, refl),
    (_, refl, refl),
    (_, refl, refl),
  )
