-- ===== src/Frame.antt =====
-- The frames of src/protocol/frame.rs: `FrameType`, `SettingId`, `Priority`, `H3Frame` and its
-- accessors. `HeaderMap` is the `http` crate's: a type `H` with the operations of `HeaderLib`.
pub mod Codec
pub mod Settings
pub mod Wire
pub mod Size
pub mod Types
use dummy_h.Prelude.{
  ℕ, ◌+◌, ◌*◌, ◌≡◌, Bool, true, false, not, Option, none, some, List, [], ◌∷◌, ◌==◌, if◌then◌else◌,
  length,
}
use dummy_h.Error.{ParseError, Message, msg, Result, ok, err}
use dummy_h.Varint.{Bytes, varint_size}

pub data FrameType : Type 0 where
  data_frame headers cancel_push settings push_promise goaway max_push_id : FrameType

-- `impl TryFrom<u64> for FrameType`
unfoldable pub frame_type_try_from : ℕ → Result ParseError FrameType
frame_type_try_from value =
    if value == 0x00
    then ok FrameType.data_frame
    else if value == 0x01
    then ok FrameType.headers
    else if value == 0x03
    then ok FrameType.cancel_push
    else if value == 0x04
    then ok FrameType.settings
    else if value == 0x05
    then ok FrameType.push_promise
    else if value == 0x07
    then ok FrameType.goaway
    else if value == 0x0d
    then ok FrameType.max_push_id
    else err (ParseError.invalid_format (msg "Unknown frame type: {}" (value ∷ [])))

-- `frame_type as u64`
unfoldable pub frame_type_code : FrameType → ℕ
frame_type_code FrameType.data_frame = 0x00
frame_type_code FrameType.headers = 0x01
frame_type_code FrameType.cancel_push = 0x03
frame_type_code FrameType.settings = 0x04
frame_type_code FrameType.push_promise = 0x05
frame_type_code FrameType.goaway = 0x07
frame_type_code FrameType.max_push_id = 0x0d

pub data SettingId : Type 0 where
  qpack_max_table_capacity max_field_section_size qpack_blocked_streams : SettingId

-- `impl TryFrom<u64> for SettingId`
unfoldable pub setting_id_try_from : ℕ → Result ParseError SettingId
setting_id_try_from value =
    if value == 0x01
    then ok SettingId.qpack_max_table_capacity
    else if value == 0x06
    then ok SettingId.max_field_section_size
    else if value == 0x07
    then ok SettingId.qpack_blocked_streams
    else err (ParseError.invalid_format (msg "Unknown setting ID: {}" (value ∷ [])))

-- `setting_id as u64`
unfoldable pub setting_id_code : SettingId → ℕ
setting_id_code SettingId.qpack_max_table_capacity = 0x01
setting_id_code SettingId.max_field_section_size = 0x06
setting_id_code SettingId.qpack_blocked_streams = 0x07

-- `HashMap<SettingId, u64>`; the order of the list stands for the iteration order.
abbrev pub Settings : Type 0
Settings = List (SettingId × ℕ)

-- The derived `PartialEq` of a field-less enum compares the variants.
unfoldable pub same_setting : SettingId → SettingId → Bool
unfolding setting_id_code
same_setting a b = setting_id_code a == setting_id_code b

unfoldable pub insert_setting : Settings → SettingId → ℕ → Settings
insert_setting [] k v = (k, v) ∷ []
insert_setting ((j, w) ∷ s) k v =
    if same_setting j k then (j, v) ∷ s else (j, w) ∷ insert_setting s k v

pub record Priority : Type 0 where
  pub weight : ℕ
  pub depends_on : Option ℕ
  pub exclusive : Bool

-- What the code uses of `http::HeaderMap`: an empty map, and the lengths of the names and values
-- that its iterator yields. An empty map yields none.
pub record HeaderLib (H : Type 0) : Type 0 where
  pub new : H
  pub lengths : H → List (ℕ × ℕ)
  pub lengths-new : lengths new ≡ []

pub data H3Frame (H : Type 0) : Type 0 where
  -- stream_id, data, end_stream
  data_frame : ℕ → Bytes → Bool → H3Frame H
  -- stream_id, headers, end_stream, priority
  headers : ℕ → H → Bool → Option Priority → H3Frame H
  -- push_id
  cancel_push : ℕ → H3Frame H
  settings : Settings → H3Frame H
  -- stream_id, promised_stream_id, headers
  push_promise : ℕ → ℕ → H → H3Frame H
  -- stream_id
  goaway : ℕ → H3Frame H
  -- push_id
  max_push_id : ℕ → H3Frame H

module _ {H : Type 0} where
  unfoldable pub frame_type : H3Frame H → FrameType
  frame_type (H3Frame.data_frame s d e) = FrameType.data_frame
  frame_type (H3Frame.headers s h e p) = FrameType.headers
  frame_type (H3Frame.cancel_push p) = FrameType.cancel_push
  frame_type (H3Frame.settings s) = FrameType.settings
  frame_type (H3Frame.push_promise s p h) = FrameType.push_promise
  frame_type (H3Frame.goaway s) = FrameType.goaway
  frame_type (H3Frame.max_push_id p) = FrameType.max_push_id

  unfoldable pub stream_id : H3Frame H → Option ℕ
  stream_id (H3Frame.data_frame s d e) = some s
  stream_id (H3Frame.headers s h e p) = some s
  stream_id (H3Frame.push_promise s p h) = some s
  stream_id (H3Frame.goaway s) = some s
  stream_id (H3Frame.cancel_push p) = none
  stream_id (H3Frame.settings s) = none
  stream_id (H3Frame.max_push_id p) = none

  unfoldable pub is_end_stream : H3Frame H → Bool
  is_end_stream (H3Frame.data_frame s d e) = e
  is_end_stream (H3Frame.headers s h e p) = e
  is_end_stream f = false

  unfoldable pub is_connection_frame : H3Frame H → Bool
  is_connection_frame (H3Frame.settings s) = true
  is_connection_frame (H3Frame.goaway s) = true
  is_connection_frame (H3Frame.max_push_id p) = true
  is_connection_frame (H3Frame.cancel_push p) = true
  is_connection_frame f = false

  unfoldable pub is_stream_frame : H3Frame H → Bool
  unfolding is_connection_frame
  is_stream_frame f = not (is_connection_frame f)

-- `headers.iter().map(|(k, v)| k.len() + v.len()).sum()`
unfoldable pub sum_lengths : List (ℕ × ℕ) → ℕ
sum_lengths [] = 0
sum_lengths ((k, v) ∷ hs) = k + v + sum_lengths hs

module _ {H : Type 0} ⦃L : HeaderLib H⦄ where
  unfoldable pub payload_size : H3Frame H → ℕ
  payload_size (H3Frame.data_frame s d e) = length d
  payload_size (H3Frame.headers s h e p) = sum_lengths (L.lengths h)
  payload_size (H3Frame.cancel_push p) = 8
  payload_size (H3Frame.settings s) = length s * 16
  payload_size (H3Frame.push_promise s p h) = 8 + sum_lengths (L.lengths h)
  payload_size (H3Frame.goaway s) = 8
  payload_size (H3Frame.max_push_id p) = 8

  unfoldable pub serialized_size : H3Frame H → ℕ
  unfolding payload_size frame_type frame_type_code
  serialized_size f =
      let size = payload_size f in
      varint_size (frame_type_code (frame_type f)) + varint_size size + size
