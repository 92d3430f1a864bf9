-- ===== src/Frame/Codec.antt =====
-- `encode_frame`, `encode_frame_payload`, `parse_frame_payload`, `parse_settings` and the header
-- stubs of src/protocol/frame.rs.
use dummy_h.Prelude.{ℕ, zero, suc, false, none, [], ◌∷◌, ◌++◌, length}
use dummy_h.Error.{ParseError, H3Error, parse, internal, msg, Result, ok, err, ◌>>=◌, map_err}
use dummy_h.Varint.{Bytes, read_varint, write_varint}
use dummy_h.Frame.{
  FrameType, SettingId, Settings, H3Frame, HeaderLib, frame_type, frame_type_code,
  setting_id_try_from, setting_id_code, insert_setting,
}

-- No error of the source: a loop of the model ran out of fuel.
abbrev pub out_of_fuel : H3Error
out_of_fuel = internal (msg "out of fuel" [])

-- `if let Ok(setting_id) = … { settings.insert(setting_id, value) }`
unfoldable pub store_setting : Result ParseError SettingId → ℕ → Settings → Settings
store_setting (ok k) v s = insert_setting s k v
store_setting (err e) v s = s

-- `while cursor.position() < payload.len()`
unfoldable pub settings_loop : ℕ → Bytes → Settings → Result H3Error Settings
settings_loop fuel [] settings = ok settings
settings_loop zero (b ∷ bs) settings = err out_of_fuel
settings_loop (suc fuel) (b ∷ bs) settings = do
  (key_raw, rest) ← map_err parse (read_varint (b ∷ bs))
  (value, rest') ← map_err parse (read_varint rest)
  settings_loop fuel rest' (store_setting (setting_id_try_from key_raw) value settings)

-- A round takes a byte at least, so as many rounds as bytes are enough.
unfoldable pub parse_settings : Bytes → Result H3Error Settings
unfolding settings_loop
parse_settings payload = settings_loop (length payload) payload []

-- `for (&key, &value) in settings`
unfoldable pub encode_settings : Settings → Bytes
encode_settings [] = []
encode_settings ((k, v) ∷ s) =
    write_varint (setting_id_code k) ++ (write_varint v ++ encode_settings s)

module _ {H : Type 0} ⦃L : HeaderLib H⦄ where
  -- QPACK is not implemented: any bytes parse to the empty map, any map is encoded as no bytes.
  unfoldable pub parse_headers : Bytes → Result H3Error H
  parse_headers bs = ok L.new

  unfoldable pub encode_headers : H → Result H3Error Bytes
  encode_headers h = ok []

  unfoldable pub parse_frame_payload : FrameType → Bytes → Result H3Error (H3Frame H)
  unfolding parse_headers parse_settings
  parse_frame_payload FrameType.data_frame payload = ok (H3Frame.data_frame 0 payload false)
  parse_frame_payload FrameType.headers payload = do
    headers ← parse_headers payload
    ok (H3Frame.headers 0 headers false none)
  parse_frame_payload FrameType.cancel_push payload = do
    (push_id, rest) ← map_err parse (read_varint payload)
    ok (H3Frame.cancel_push push_id)
  parse_frame_payload FrameType.settings payload = do
    settings ← parse_settings payload
    ok (H3Frame.settings settings)
  parse_frame_payload FrameType.push_promise payload = do
    (promised_stream_id, header_data) ← map_err parse (read_varint payload)
    headers ← parse_headers header_data
    ok (H3Frame.push_promise 0 promised_stream_id headers)
  parse_frame_payload FrameType.goaway payload = do
    (stream_id, rest) ← map_err parse (read_varint payload)
    ok (H3Frame.goaway stream_id)
  parse_frame_payload FrameType.max_push_id payload = do
    (push_id, rest) ← map_err parse (read_varint payload)
    ok (H3Frame.max_push_id push_id)

  unfoldable pub encode_frame_payload : H3Frame H → Result H3Error Bytes
  unfolding encode_headers encode_settings
  encode_frame_payload (H3Frame.data_frame s d e) = ok d
  encode_frame_payload (H3Frame.headers s h e p) = encode_headers h
  encode_frame_payload (H3Frame.cancel_push push_id) = ok (write_varint push_id)
  encode_frame_payload (H3Frame.settings s) = ok (encode_settings s)
  encode_frame_payload (H3Frame.push_promise s promised h) = do
    encoded ← encode_headers h
    ok (write_varint promised ++ encoded)
  encode_frame_payload (H3Frame.goaway stream_id) = ok (write_varint stream_id)
  encode_frame_payload (H3Frame.max_push_id push_id) = ok (write_varint push_id)

  unfoldable pub encode_frame : H3Frame H → Result H3Error Bytes
  unfolding encode_frame_payload frame_type frame_type_code
  encode_frame f = do
    payload ← encode_frame_payload f
    ok (write_varint (frame_type_code (frame_type f)) ++ (write_varint (length payload) ++ payload))

  -- `FrameSerialize::serialize` and `FrameDeserialize::deserialize`
  unfoldable pub serialize : H3Frame H → Result H3Error Bytes
  unfolding encode_frame
  serialize f = encode_frame f

  unfoldable pub deserialize : FrameType → Bytes → Result H3Error (H3Frame H)
  unfolding parse_frame_payload
  deserialize t bs = parse_frame_payload t bs
