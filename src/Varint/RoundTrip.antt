-- ===== src/Varint/RoundTrip.antt =====
-- What `read_varint` makes of the bytes that `write_varint` wrote, for every `u64`.
use dummy_h.Prelude.{
  ℕ, suc, ◌+◌, ◌-◌, ◌*◌, ◌/◌, ◌%◌, ◌^◌, ◌≤◌, ◌<◌, ◌≡◌, refl, ◌∙◌, inl, inr, [], ◌∷◌, ◌++◌, arith,
  ltb, ltb→lt, lt→ltb, le→ltb, Bool-cases, length,
}
use dummy_h.Prelude.Bits.{and_3f, or_40, or_80, or_c0}
use dummy_h.Error.{ok}
use dummy_h.Varint.{Bytes, IsU64, byte_at, read_more, read_varint, write_varint, varint_size}
use dummy_h.Varint.Read.{read_more_step}

-- The first byte holds the length code `k` and the top six bits `r`.
first_byte :
    (k r : ℕ) (bs : Bytes)
    → k < 4
    → r < 64
    → read_varint ((k * 64 + r) ∷ bs) ≡ read_more (2 ^ k - 1) r bs
unfolding read_varint
first_byte k r bs hk hr =
    let q : (k * 64 + r) / 64 ≡ k = omega arith in
    let m : (k * 64 + r) % 64 ≡ r = omega arith in rw (q, and_3f (k * 64 + r) (omega arith), m)

-- A following byte brings the value from `q` to `p`.
next_byte :
    (n q b p : ℕ) (bs : Bytes)
    → q < 2 ^ 54
    → b < 256
    → p ≡ q * 256 + b
    → read_more (suc n) q (b ∷ bs) ≡ read_more n p bs
next_byte n q b p bs hq hb e = rw e (read_more_step n q b bs (omega arith) hb)

last : (v : ℕ) (bs : Bytes) → read_more 0 v bs ≡ ok (v, bs)
unfolding read_more
last v bs = refl

read_one : (v : ℕ) (rest : Bytes) → v < 64 → read_varint (v ∷ rest) ≡ ok (v, rest)
read_one v rest h =
    let e : 0 * 64 + v ≡ v = omega arith in
    rw e at (first_byte 0 v rest (omega arith) h) ∙ last v rest

read_two :
    (v : ℕ) (rest : Bytes)
    → v < 16384
    → read_varint ((64 + v / 256) ∷ v % 256 ∷ rest) ≡ ok (v, rest)
read_two v rest h =
    first_byte 1 (v / 256) (v % 256 ∷ rest) (omega arith) (omega arith)
    ∙ next_byte 0 (v / 256) (v % 256) v rest (omega arith) (omega arith) (omega arith)
    ∙ last v rest

read_four :
    (v : ℕ) (rest : Bytes)
    → v < 1073741824
    → read_varint ((128 + v / 2 ^ 24) ∷ byte_at 16 v ∷ byte_at 8 v ∷ byte_at 0 v ∷ rest)
      ≡ ok (v, rest)
read_four v rest h =
    first_byte 2 (v / 2 ^ 24) _ (omega arith) (omega arith)
    ∙ next_byte 2 (v / 2 ^ 24) (byte_at 16 v) (v / 2 ^ 16) _ (omega arith) (omega arith)
        (omega arith)
    ∙ next_byte 1 (v / 2 ^ 16) (byte_at 8 v) (v / 2 ^ 8) _ (omega arith) (omega arith) (omega arith)
    ∙ next_byte 0 (v / 2 ^ 8) (byte_at 0 v) v _ (omega arith) (omega arith) (omega arith)
    ∙ last v rest

read_eight :
    (v : ℕ) (rest : Bytes)
    → read_varint (
        (192 + v / 2 ^ 56 % 64)
        ∷ byte_at 48 v
        ∷ byte_at 40 v
        ∷ byte_at 32 v
        ∷ byte_at 24 v
        ∷ byte_at 16 v
        ∷ byte_at 8 v
        ∷ byte_at 0 v
        ∷ rest)
      ≡ ok (v % 2 ^ 62, rest)
read_eight v rest =
    first_byte 3 (v / 2 ^ 56 % 64) _ (omega arith) (omega arith)
    ∙ next_byte 6 _ (byte_at 48 v) (v / 2 ^ 48 % 2 ^ 14) _ (omega arith) (omega arith) (omega arith)
    ∙ next_byte 5 _ (byte_at 40 v) (v / 2 ^ 40 % 2 ^ 22) _ (omega arith) (omega arith) (omega arith)
    ∙ next_byte 4 _ (byte_at 32 v) (v / 2 ^ 32 % 2 ^ 30) _ (omega arith) (omega arith) (omega arith)
    ∙ next_byte 3 _ (byte_at 24 v) (v / 2 ^ 24 % 2 ^ 38) _ (omega arith) (omega arith) (omega arith)
    ∙ next_byte 2 _ (byte_at 16 v) (v / 2 ^ 16 % 2 ^ 46) _ (omega arith) (omega arith) (omega arith)
    ∙ next_byte 1 _ (byte_at 8 v) (v / 2 ^ 8 % 2 ^ 54) _ (omega arith) (omega arith) (omega arith)
    ∙ next_byte 0 _ (byte_at 0 v) (v % 2 ^ 62) _ (omega arith) (omega arith) (omega arith)
    ∙ last (v % 2 ^ 62) rest

-- `write_varint` in plain arithmetic, by the four ranges.
write_one : (v : ℕ) → v < 64 → write_varint v ≡ v ∷ []
unfolding write_varint
write_one v h = let e : byte_at 0 v ≡ v = omega arith in rw (lt→ltb v 64 h, e)

write_two : (v : ℕ) → 64 ≤ v → v < 16384 → write_varint v ≡ (64 + v / 256) ∷ v % 256 ∷ []
unfolding write_varint
write_two v l h =
    let e : byte_at 8 v ≡ v / 256 = omega arith in
    let z : byte_at 0 v ≡ v % 256 = omega arith in
    rw (le→ltb v 64 l, lt→ltb v 16384 h, e, z, or_40 (v / 256) (omega arith))

write_four :
    (v : ℕ)
    → 16384 ≤ v
    → v < 1073741824
    → write_varint v ≡ (128 + v / 2 ^ 24) ∷ byte_at 16 v ∷ byte_at 8 v ∷ byte_at 0 v ∷ []
unfolding write_varint
write_four v l h =
    let e : byte_at 24 v ≡ v / 2 ^ 24 = omega arith in
    rw (
      le→ltb v 64 (omega arith),
      le→ltb v 16384 l,
      lt→ltb v 1073741824 h,
      e,
      or_80 (v / 2 ^ 24) (omega arith),
    )

write_eight :
    (v : ℕ)
    → 1073741824 ≤ v
    → write_varint v
      ≡ (192 + v / 2 ^ 56 % 64)
        ∷ byte_at 48 v
        ∷ byte_at 40 v
        ∷ byte_at 32 v
        ∷ byte_at 24 v
        ∷ byte_at 16 v
        ∷ byte_at 8 v
        ∷ byte_at 0 v
        ∷ []
unfolding write_varint
write_eight v l =
    let e : byte_at 56 v % 64 ≡ v / 2 ^ 56 % 64 = omega arith in
    rw (
      le→ltb v 64 (omega arith),
      le→ltb v 16384 (omega arith),
      le→ltb v 1073741824 l,
      or_c0 (byte_at 56 v) (omega arith),
      e,
    )

data Range (v : ℕ) : Type 0 where
  one : v < 64 → Range v
  two : 64 ≤ v → v < 16384 → Range v
  four : 16384 ≤ v → v < 1073741824 → Range v
  eight : 1073741824 ≤ v → Range v

range : (v : ℕ) → Range v
range v = elim (Bool-cases (ltb v 64)) [
  | inl h ↦ one (ltb→lt v 64 h)
  | inr h ↦ elim (Bool-cases (ltb v 16384)) [
    | inl k ↦ two (ground arith) (ltb→lt v 16384 k)
    | inr k ↦ elim (Bool-cases (ltb v 1073741824)) [
      | inl j ↦ four (ground arith) (ltb→lt v 1073741824 j)
      | inr j ↦ eight (ground arith)
    ]
  ]
]

small : (v : ℕ) → v < 1073741824 → v % 2 ^ 62 ≡ v
small v h = omega arith

-- Whatever `u64` is written, the read gives it modulo 2 ^ 62 and leaves the bytes that follow.
pub read-write :
    (v : ℕ) (rest : Bytes) → IsU64 v → read_varint (write_varint v ++ rest) ≡ ok (v % 2 ^ 62, rest)
read-write v rest u = elim (range v) [
  | one h ↦ rw (write_one v h, small v (omega arith)) (read_one v rest h)
  | two l h ↦ rw (write_two v l h, small v (omega arith)) (read_two v rest h)
  | four l h ↦ rw (write_four v l h, small v (omega arith)) (read_four v rest h)
  | eight l ↦ rw (write_eight v l) (read_eight v rest)
]

-- The size that is announced is the number of bytes that are written.
pub length-write : (v : ℕ) → length (write_varint v) ≡ varint_size v
unfolding write_varint varint_size
length-write v = ground arith
