-- ===== src/Frame/Settings.antt =====
-- The payload of a SETTINGS frame of src/protocol/frame.rs, encoded and parsed.
use dummy_h.Prelude.{
  ℕ, zero, suc, ◌%◌, ◌^◌, ◌≤◌, ◌<◌, ◌≡◌, refl, ap, ◌∙◌, false, [], ◌∷◌, ◌++◌, append-nil,
  append_assoc, arith, length, length-append,
}
use dummy_h.Error.{ok}
use dummy_h.Varint.{Bytes, IsU64, read_varint, write_varint, varint_size}
use dummy_h.Varint.RoundTrip.{read-write, length-write}
use dummy_h.Frame.{
  SettingId, Settings, setting_id_code, setting_id_try_from, same_setting, insert_setting,
}
use dummy_h.Frame.Codec.{store_setting, settings_loop, parse_settings, encode_settings}
use dummy_h.Frame.Types.{setting_id_try_from-code}

-- A variable-length integer keeps 62 bits.
abbrev pub wire_settings : Settings → Settings
wire_settings [] = []
wire_settings ((k, v) ∷ s) = (k, v % 2 ^ 62) ∷ wire_settings s

abbrev pub Absent : SettingId → Settings → Type 0
Absent k [] = Unit
Absent k ((j, v) ∷ s) = (same_setting j k ≡ false) × Absent k s

-- A map holds a key once.
abbrev pub IsMap : Settings → Type 0
IsMap [] = Unit
IsMap ((k, v) ∷ s) = IsU64 v × Absent k s × IsMap s

-- The keys of the second are not in the first.
abbrev AllAbsent : Settings → Settings → Type 0
AllAbsent [] acc = Unit
AllAbsent ((k, v) ∷ s) acc = Absent k acc × AllAbsent s acc

insert-Absent :
    (acc : Settings) (k : SettingId) (v : ℕ)
    → Absent k acc
    → insert_setting acc k v ≡ acc ++ (k, v) ∷ []
unfolding insert_setting
insert-Absent [] k v h = refl
insert-Absent ((j, w) ∷ acc) k v (h, hs) = rw h (ap (◌∷◌ (j, w)) (insert-Absent acc k v hs))

Absent-snoc :
    (acc : Settings) (k j : SettingId) (v : ℕ)
    → Absent j acc
    → same_setting k j ≡ false
    → Absent j (acc ++ (k, v) ∷ [])
Absent-snoc [] k j v h e = (e, tt)
Absent-snoc ((i, w) ∷ acc) k j v (h, hs) e = (h, Absent-snoc acc k j v hs e)

same_comm : (j k : SettingId) → same_setting j k ≡ same_setting k j
unfolding same_setting setting_id_code
same_comm j k = ground arith

AllAbsent-snoc :
    (s acc : Settings) (k : SettingId) (v : ℕ)
    → Absent k s
    → AllAbsent s acc
    → AllAbsent s (acc ++ (k, v) ∷ [])
AllAbsent-snoc [] acc k v h a = tt
AllAbsent-snoc ((j, w) ∷ s) acc k v (h, hs) (a, as') =
    (Absent-snoc acc k j v a (same_comm k j ∙ h), AllAbsent-snoc s acc k v hs as')

-- One round of the loop over two numbers.
settings_round :
    (fuel : ℕ) (bs : Bytes) (acc : Settings) {key v : ℕ} {rest rest' : Bytes}
    → read_varint bs ≡ ok (key, rest)
    → read_varint rest ≡ ok (v, rest')
    → settings_loop (suc fuel) bs acc
      ≡ settings_loop fuel rest' (store_setting (setting_id_try_from key) v acc)
unfolding settings_loop
settings_round fuel [] acc e e' = unfold read_varint in cc
settings_round fuel (b ∷ bs) acc e e' = rw (e, e')

code_small : (k : SettingId) → setting_id_code k < 64
unfolding setting_id_code
code_small k = ground arith

read_key :
    (k : SettingId) (rest : Bytes)
    → read_varint (write_varint (setting_id_code k) ++ rest) ≡ ok (setting_id_code k, rest)
read_key k rest =
    let e : setting_id_code k % 2 ^ 62 ≡ setting_id_code k = omega (arith, code_small k) in
    rw e at (read-write (setting_id_code k) rest (omega (arith, code_small k)))

pub write_pos : (v : ℕ) → 0 < length (write_varint v)
write_pos v = rw (length-write v) (unfold varint_size in ground arith)

length-encode_settings :
    (k : SettingId) (v : ℕ) (s : Settings)
    → length (encode_settings s) < length (encode_settings ((k, v) ∷ s))
unfolding encode_settings
length-encode_settings k v s = omega (
  arith,
  length-append (write_varint (setting_id_code k)) (write_varint v ++ encode_settings s),
  length-append (write_varint v) (encode_settings s),
  write_pos v,
)

store-Absent :
    (acc : Settings) (k : SettingId) (v : ℕ)
    → Absent k acc
    → store_setting (setting_id_try_from (setting_id_code k)) v acc ≡ acc ++ (k, v) ∷ []
unfolding store_setting
store-Absent acc k v h = rw (setting_id_try_from-code k) (insert-Absent acc k v h)

settings_loop-encode :
    (s acc : Settings) (fuel : ℕ)
    → IsMap s
    → AllAbsent s acc
    → length (encode_settings s) ≤ fuel
    → settings_loop fuel (encode_settings s) acc ≡ ok (acc ++ wire_settings s)
unfolding encode_settings settings_loop
settings_loop-encode [] acc fuel m a f = rw (append-nil acc) refl
settings_loop-encode ((k, v) ∷ s) acc zero m a f =
    absurd (omega (arith, length-encode_settings k v s))
settings_loop-encode ((k, v) ∷ s) acc (suc fuel) (u, h, m) (a, as') f =
    settings_round fuel (encode_settings ((k, v) ∷ s)) acc
      (read_key k (write_varint v ++ encode_settings s)) (read-write v (encode_settings s) u)
    ∙ ap (settings_loop fuel (encode_settings s)) (store-Absent acc k (v % 2 ^ 62) a)
    ∙ settings_loop-encode s (acc ++ (k, v % 2 ^ 62) ∷ []) fuel m
        (AllAbsent-snoc s acc k (v % 2 ^ 62) h as') (omega (arith, length-encode_settings k v s))
    ∙ ap ok (append_assoc acc ((k, v % 2 ^ 62) ∷ []) (wire_settings s))

-- Parsing the encoded settings gives the settings, each value modulo 2 ^ 62.
pub parse-encode_settings :
    (s : Settings) → IsMap s → parse_settings (encode_settings s) ≡ ok (wire_settings s)
unfolding parse_settings
parse-encode_settings s m =
    settings_loop-encode s [] (length (encode_settings s)) m (none_stored s) (omega arith)
  where
    none_stored : (s : Settings) → AllAbsent s []
    none_stored [] = tt
    none_stored ((k, v) ∷ s) = (tt, none_stored s)
