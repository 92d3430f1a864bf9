-- ===== src/Frame/Wire.antt =====
-- What a frame of src/protocol/frame.rs becomes on the wire: its payload, encoded and parsed.
use dummy_h.Prelude.{ℕ, ◌%◌, ◌^◌, ◌≡◌, refl, false, none, [], ◌++◌, append-nil, length}
use dummy_h.Error.{ok}
use dummy_h.Varint.{Bytes, IsU64, read_varint, write_varint}
use dummy_h.Varint.RoundTrip.{read-write}
use dummy_h.Frame.{H3Frame, HeaderLib, frame_type}
use dummy_h.Frame.Codec.{encode_settings, parse_frame_payload, encode_frame_payload}
use dummy_h.Varint.{write_varint}
use dummy_h.Frame.{frame_type_code}
use dummy_h.Frame.Codec.{encode_frame}
use dummy_h.Frame.Settings.{wire_settings, IsMap, parse-encode_settings}

read_alone : (v : ℕ) → IsU64 v → read_varint (write_varint v) ≡ ok (v % 2 ^ 62, [])
read_alone v u = rw append-nil at (read-write v [] u)

module _ {H : Type 0} ⦃L : HeaderLib H⦄ where
  -- What a receiver gets for a frame: the stream is the placeholder 0, the end mark, the priority
  -- and the headers are gone, and numbers keep 62 bits.
  abbrev pub received : H3Frame H → H3Frame H
  received (H3Frame.data_frame s d e) = H3Frame.data_frame 0 d false
  received (H3Frame.headers s h e p) = H3Frame.headers 0 L.new false none
  received (H3Frame.cancel_push p) = H3Frame.cancel_push (p % 2 ^ 62)
  received (H3Frame.settings s) = H3Frame.settings (wire_settings s)
  received (H3Frame.push_promise s p h) = H3Frame.push_promise 0 (p % 2 ^ 62) L.new
  received (H3Frame.goaway s) = H3Frame.goaway (s % 2 ^ 62)
  received (H3Frame.max_push_id p) = H3Frame.max_push_id (p % 2 ^ 62)

  -- The numbers of a frame are `u64`s, and its settings a map of such.
  abbrev pub IsFrame : H3Frame H → Type 0
  IsFrame (H3Frame.data_frame s d e) = Unit
  IsFrame (H3Frame.headers s h e p) = Unit
  IsFrame (H3Frame.cancel_push p) = IsU64 p
  IsFrame (H3Frame.settings s) = IsMap s
  IsFrame (H3Frame.push_promise s p h) = IsU64 p
  IsFrame (H3Frame.goaway s) = IsU64 s
  IsFrame (H3Frame.max_push_id p) = IsU64 p

  -- The payload of a frame; encoding it never fails.
  abbrev pub payload : H3Frame H → Bytes
  payload (H3Frame.data_frame s d e) = d
  payload (H3Frame.headers s h e p) = []
  payload (H3Frame.cancel_push p) = write_varint p
  payload (H3Frame.settings s) = encode_settings s
  payload (H3Frame.push_promise s p h) = write_varint p ++ []
  payload (H3Frame.goaway s) = write_varint s
  payload (H3Frame.max_push_id p) = write_varint p

  pub encode_frame_payload-payload : (f : H3Frame H) → encode_frame_payload f ≡ ok (payload f)
  unfolding encode_frame_payload
  encode_frame_payload-payload (H3Frame.data_frame s d e) = refl
  encode_frame_payload-payload f = refl

  -- Parsing a frame's payload under its type gives what the receiver is to get.
  pub parse-payload :
      (f : H3Frame H) → IsFrame f → parse_frame_payload (frame_type f) (payload f) ≡ ok (received f)
  unfolding parse_frame_payload frame_type
  parse-payload (H3Frame.data_frame s d e) w = refl
  parse-payload (H3Frame.headers s h e p) w = refl
  parse-payload (H3Frame.cancel_push p) w = rw (read_alone p w)
  parse-payload (H3Frame.settings s) w = rw (parse-encode_settings s w)
  parse-payload (H3Frame.push_promise s p h) w = rw (read-write p [] w)
  parse-payload (H3Frame.goaway s) w = rw (read_alone s w)
  parse-payload (H3Frame.max_push_id p) w = rw (read_alone p w)

  -- The bytes of a frame on the wire.
  abbrev pub frame_bytes : H3Frame H → Bytes
  frame_bytes f =
      write_varint (frame_type_code (frame_type f))
      ++ (write_varint (length (payload f)) ++ payload f)

  pub encode_frame-bytes : (f : H3Frame H) → encode_frame f ≡ ok (frame_bytes f)
  unfolding encode_frame
  encode_frame-bytes f = rw (encode_frame_payload-payload f)
