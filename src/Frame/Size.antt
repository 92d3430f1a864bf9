-- ===== src/Frame/Size.antt =====
-- `serialized_size` of src/protocol/frame.rs against the bytes that `encode_frame` makes.
use dummy_h.Prelude.{
  ℕ, ◌+◌, ◌*◌, ◌≤◌, ◌≡◌, ap, Bool, [], ◌∷◌, ◌++◌, append-nil, arith, length, length-append,
}
use dummy_h.Error.{ok}
use dummy_h.Varint.{Bytes, write_varint, varint_size}
use dummy_h.Varint.RoundTrip.{length-write}
use dummy_h.Frame.{
  Settings, H3Frame, HeaderLib, frame_type, frame_type_code, setting_id_code, payload_size,
  serialized_size,
}
use dummy_h.Frame.Codec.{encode_settings, encode_frame}
use dummy_h.Frame.Wire.{payload, frame_bytes, encode_frame-bytes}

varint_size-le : (v : ℕ) → varint_size v ≤ 8
unfolding varint_size
varint_size-le v = ground arith

varint_size_mono : (v w : ℕ) → v ≤ w → varint_size v ≤ varint_size w
unfolding varint_size
varint_size_mono v w h = ground arith

length-encode_settings-le : (s : Settings) → length (encode_settings s) ≤ length s * 16
unfolding encode_settings
length-encode_settings-le [] = omega arith
length-encode_settings-le ((k, v) ∷ s) = omega (
  arith,
  length-append (write_varint (setting_id_code k)) (write_varint v ++ encode_settings s),
  length-append (write_varint v) (encode_settings s),
  length-write (setting_id_code k),
  length-write v,
  varint_size-le (setting_id_code k),
  varint_size-le v,
  length-encode_settings-le s,
)

number-le : (v : ℕ) → length (write_varint v) ≤ 8
number-le v = omega (arith, length-write v, varint_size-le v)

module _ {H : Type 0} ⦃L : HeaderLib H⦄ where
  payload-le : (f : H3Frame H) → length (payload f) ≤ payload_size f
  unfolding payload_size
  payload-le (H3Frame.data_frame s d e) = omega arith
  payload-le (H3Frame.headers s h e p) = omega arith
  payload-le (H3Frame.cancel_push p) = number-le p
  payload-le (H3Frame.settings s) = length-encode_settings-le s
  payload-le (H3Frame.push_promise s p h) = rw append-nil (omega (arith, number-le p))
  payload-le (H3Frame.goaway s) = number-le s
  payload-le (H3Frame.max_push_id p) = number-le p

  length-frame_bytes :
      (f : H3Frame H)
      → length (frame_bytes f)
        ≡ varint_size (frame_type_code (frame_type f))
          + varint_size (length (payload f))
          + length (payload f)
  length-frame_bytes f =
      let t = write_varint (frame_type_code (frame_type f)) in
      let len = write_varint (length (payload f)) in
      omega (
        arith,
        length-append t (len ++ payload f),
        length-append len (payload f),
        length-write (frame_type_code (frame_type f)),
        length-write (length (payload f)),
      )

  -- The announced size is enough for the bytes of any frame.
  pub serialized_size-encode :
      (f : H3Frame H) (bs : Bytes) → encode_frame f ≡ ok bs → length bs ≤ serialized_size f
  unfolding serialized_size
  serialized_size-encode f bs e =
      let sent : bs ≡ frame_bytes f = cc (encode_frame-bytes f) in
      omega (
        arith,
        ap length sent,
        length-frame_bytes f,
        payload-le f,
        varint_size_mono (length (payload f)) (payload_size f) (payload-le f),
      )

module _ (H : Type 0) ⦃L : HeaderLib H⦄ where
  -- It is exact for DATA frames.
  pub serialized_size_data :
      (s : ℕ) (d : Bytes) (end : Bool) (bs : Bytes)
      → encode_frame {H = H} (H3Frame.data_frame s d end) ≡ ok bs
      → length bs ≡ serialized_size {H = H} (H3Frame.data_frame s d end)
  unfolding serialized_size
  serialized_size_data s d end bs e =
      let f : H3Frame H = H3Frame.data_frame s d end in
      let sent : bs ≡ frame_bytes f = cc (encode_frame-bytes f) in
      omega (arith, ap length sent, length-frame_bytes f)
