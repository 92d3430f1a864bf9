-- ===== src/Conformance/Frames.antt =====
-- The tests of src/protocol/frame.rs about varints, frame types and frames.
use dummy_h.Prelude.{ℕ, ◌≤◌, ◌<◌, ◌≡◌, refl, true, false, none, some, [], ◌∷◌, arith, length, All}
use dummy_h.Error.{ParseError, ok, err}
use dummy_h.Varint.{Bytes, read_varint, write_varint, varint_size}
use dummy_h.Frame.{
  FrameType, SettingId, Settings, H3Frame, HeaderLib, frame_type_try_from, frame_type_code,
  setting_id_try_from, same_setting, insert_setting, frame_type, stream_id, is_end_stream,
  is_stream_frame, is_connection_frame, payload_size, serialized_size,
}
use dummy_h.Http.Build.{default_priority}
use dummy_h.Frame.Codec.{serialize, encode_frame}

abbrev TestFrameTypeConversion : Type 0
TestFrameTypeConversion =
    (frame_type_try_from 0x00 ≡ ok FrameType.data_frame)
    × (frame_type_try_from 0x01 ≡ ok FrameType.headers)
    × (frame_type_try_from 0x03 ≡ ok FrameType.cancel_push)
    × (frame_type_try_from 0x04 ≡ ok FrameType.settings)
    × (frame_type_try_from 0x05 ≡ ok FrameType.push_promise)
    × (frame_type_try_from 0x07 ≡ ok FrameType.goaway)
    × (frame_type_try_from 0x0d ≡ ok FrameType.max_push_id)
    × ((e : ParseError) × (frame_type_try_from 0xff ≡ err e))

type_conversion_passes : TestFrameTypeConversion
unfolding frame_type_try_from
type_conversion_passes = (refl, refl, refl, refl, refl, refl, refl, (_, refl))

abbrev TestFrameTypeToU64 : Type 0
TestFrameTypeToU64 =
    (frame_type_code FrameType.data_frame ≡ 0x00)
    × (frame_type_code FrameType.headers ≡ 0x01)
    × (frame_type_code FrameType.cancel_push ≡ 0x03)
    × (frame_type_code FrameType.settings ≡ 0x04)

type_code_passes : TestFrameTypeToU64
unfolding frame_type_code
type_code_passes = (refl, refl, refl, refl)

abbrev TestSettingIdConversion : Type 0
TestSettingIdConversion =
    (setting_id_try_from 0x01 ≡ ok SettingId.qpack_max_table_capacity)
    × (setting_id_try_from 0x06 ≡ ok SettingId.max_field_section_size)
    × (setting_id_try_from 0x07 ≡ ok SettingId.qpack_blocked_streams)
    × ((e : ParseError) × (setting_id_try_from 0xff ≡ err e))

setting_conversion_passes : TestSettingIdConversion
unfolding setting_id_try_from
setting_conversion_passes = (refl, refl, refl, (_, refl))

abbrev TestVarintEncoding : Type 0
TestVarintEncoding =
    (write_varint 0 ≡ 0x00 ∷ [])
    × (write_varint 63 ≡ 0x3f ∷ [])
    × (write_varint 64 ≡ 0x40 ∷ 0x40 ∷ [])

encoding_passes : TestVarintEncoding
unfolding write_varint
encoding_passes = (refl, refl, refl)

abbrev TestVarintSizeCalculation : Type 0
TestVarintSizeCalculation =
    (varint_size 0 ≡ 1)
    × (varint_size 63 ≡ 1)
    × (varint_size 64 ≡ 2)
    × (varint_size 16383 ≡ 2)
    × (varint_size 16384 ≡ 4)
    × (varint_size 1073741823 ≡ 4)
    × (varint_size 1073741824 ≡ 8)

size_passes : TestVarintSizeCalculation
unfolding varint_size
size_passes = (refl, refl, refl, refl, refl, refl, refl)

abbrev TestVarintRoundTrip : Type 0
TestVarintRoundTrip =
    All (λ (value : ℕ). read_varint (write_varint value) ≡ ok (value, []))
      (0 ∷ 1 ∷ 63 ∷ 64 ∷ 16383 ∷ 16384 ∷ 1073741823 ∷ 1073741824 ∷ [])

round_trip_passes : TestVarintRoundTrip
unfolding read_varint write_varint
round_trip_passes = (refl, (refl, (refl, (refl, (refl, (refl, (refl, (refl, tt))))))))

abbrev TestPriorityDefault : Type 0
TestPriorityDefault =
    (default_priority.weight ≡ 16)
    × (default_priority.depends_on ≡ none)
    × (default_priority.exclusive ≡ false)

priority_passes : TestPriorityDefault
unfolding default_priority
priority_passes = (refl, refl, refl)

-- The map that holds `settings` after the insertions of the tests.
abbrev one_setting : Settings
one_setting = insert_setting [] SettingId.qpack_max_table_capacity 4096

abbrev two_settings : Settings
two_settings = insert_setting one_setting SettingId.max_field_section_size 8192

-- The tests hold for whatever header map `map` they insert their header into.
module _ {H : Type 0} ⦃L : HeaderLib H⦄ (map : H) where
  -- "Hello, World!"
  abbrev hello : Bytes
  hello = 72 ∷ 101 ∷ 108 ∷ 108 ∷ 111 ∷ 44 ∷ 32 ∷ 87 ∷ 111 ∷ 114 ∷ 108 ∷ 100 ∷ 33 ∷ []

  abbrev TestDataFrameCreation : Type 0
  TestDataFrameCreation =
      let frame : H3Frame H = H3Frame.data_frame 4 hello true in
      (frame_type frame ≡ FrameType.data_frame)
      × (stream_id frame ≡ some 4)
      × (is_end_stream frame ≡ true)
      × (is_stream_frame frame ≡ true)
      × (is_connection_frame frame ≡ false)
      × (payload_size frame ≡ length hello)

  data_frame_passes : TestDataFrameCreation
  unfolding frame_type stream_id is_end_stream is_stream_frame is_connection_frame payload_size
  data_frame_passes = (refl, refl, refl, refl, refl, refl)

  abbrev TestHeadersFrameCreation : Type 0
  TestHeadersFrameCreation =
      let frame : H3Frame H = H3Frame.headers 4 map false (some default_priority) in
      (frame_type frame ≡ FrameType.headers)
      × (stream_id frame ≡ some 4)
      × (is_end_stream frame ≡ false)
      × (is_stream_frame frame ≡ true)

  headers_frame_passes : TestHeadersFrameCreation
  unfolding frame_type stream_id is_end_stream is_stream_frame is_connection_frame
  headers_frame_passes = (refl, refl, refl, refl)

  abbrev TestSettingsFrameCreation : Type 0
  TestSettingsFrameCreation =
      let frame : H3Frame H = H3Frame.settings two_settings in
      (frame_type frame ≡ FrameType.settings)
      × (stream_id frame ≡ none)
      × (is_end_stream frame ≡ false)
      × (is_connection_frame frame ≡ true)
      × (is_stream_frame frame ≡ false)

  settings_frame_passes : TestSettingsFrameCreation
  unfolding frame_type stream_id is_end_stream is_stream_frame is_connection_frame
  settings_frame_passes = (refl, refl, refl, refl, refl)

  abbrev TestCancelPushFrame : Type 0
  TestCancelPushFrame =
      let frame : H3Frame H = H3Frame.cancel_push 123 in
      (frame_type frame ≡ FrameType.cancel_push)
      × (stream_id frame ≡ none)
      × (is_connection_frame frame ≡ true)

  cancel_push_passes : TestCancelPushFrame
  unfolding frame_type stream_id is_connection_frame
  cancel_push_passes = (refl, refl, refl)

  abbrev TestGoawayFrame : Type 0
  TestGoawayFrame =
      let frame : H3Frame H = H3Frame.goaway 100 in
      (frame_type frame ≡ FrameType.goaway)
      × (stream_id frame ≡ some 100)
      × (is_connection_frame frame ≡ true)

  goaway_passes : TestGoawayFrame
  unfolding frame_type stream_id is_connection_frame
  goaway_passes = (refl, refl, refl)

  abbrev TestMaxPushIdFrame : Type 0
  TestMaxPushIdFrame =
      let frame : H3Frame H = H3Frame.max_push_id 255 in
      (frame_type frame ≡ FrameType.max_push_id)
      × (stream_id frame ≡ none)
      × (is_connection_frame frame ≡ true)

  max_push_id_passes : TestMaxPushIdFrame
  unfolding frame_type stream_id is_connection_frame
  max_push_id_passes = (refl, refl, refl)

  abbrev TestFrameSerialization : Type 0
  TestFrameSerialization =
      let frame : H3Frame H = H3Frame.max_push_id 123 in
      (bytes : Bytes) × (serialize frame ≡ ok bytes)
      × (0 < length bytes)
      × (0 < serialized_size frame)

  serialization_passes : TestFrameSerialization
  unfolding serialize serialized_size write_varint
  serialization_passes = (_, refl, omega arith, omega arith)

  abbrev TestSettingsFrameEncodingDecoding : Type 0
  TestSettingsFrameEncodingDecoding =
      let frame : H3Frame H = H3Frame.settings two_settings in
      (bytes : Bytes) × (encode_frame frame ≡ ok bytes) × (2 ≤ length bytes)

  settings_encoding_passes : TestSettingsFrameEncodingDecoding
  unfolding encode_frame write_varint insert_setting same_setting
  settings_encoding_passes = (_, refl, omega arith)
