-- ===== src/Frame/Types.antt =====
-- The numbers of the frame types and settings, and which frames name a stream.
use dummy_h.Prelude.{ℕ, ◌≡◌, refl, ◌↔◌, true, arith}
use dummy_h.Error.{ok}
use dummy_h.Frame.{
  FrameType, SettingId, frame_type_code, frame_type_try_from, setting_id_code, setting_id_try_from,
  same_setting,
}

-- A number is read as a frame type exactly when it is that type's number.
pub frame_type_try_from-code :
    (n : ℕ) (t : FrameType) → (frame_type_try_from n ≡ ok t) ↔ (n ≡ frame_type_code t)
unfolding frame_type_try_from frame_type_code
frame_type_try_from-code n FrameType.data_frame = grind arith
frame_type_try_from-code n t = grind arith

pub setting_id_try_from-code : (k : SettingId) → setting_id_try_from (setting_id_code k) ≡ ok k
unfolding setting_id_try_from setting_id_code
setting_id_try_from-code SettingId.qpack_max_table_capacity = refl
setting_id_try_from-code SettingId.max_field_section_size = refl
setting_id_try_from-code SettingId.qpack_blocked_streams = refl

pub same_setting_iff : (a b : SettingId) → (same_setting a b ≡ true) ↔ (a ≡ b)
unfolding same_setting
same_setting_iff a b = ground arith
