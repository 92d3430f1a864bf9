-- ===== src/Varint.antt =====
-- The variable-length integers of src/protocol/frame.rs: `read_varint`, `write_varint`,
-- `varint_size`. A cursor is the list of the bytes after its position.
pub mod Read
pub mod RoundTrip
use Prim.Native.Nat.{bit_and, bit_or}
use dummy_h.Prelude.{ℕ, zero, suc, ◌-◌, ◌*◌, ◌/◌, ◌%◌, ◌^◌, ◌<◌, List, [], ◌∷◌, ltb, if◌then◌else◌}
use dummy_h.Error.{ParseError, Result, ok, err}

abbrev pub Bytes : Type 0
Bytes = List ℕ

abbrev pub IsByte : ℕ → Type 0
IsByte b = b < 256

abbrev pub IsU64 : ℕ → Type 0
IsU64 v = v < 2 ^ 64

-- The loop `for _ in 1..length`, with the number of rounds left.
pub read_more : ℕ → ℕ → Bytes → Result ParseError (ℕ × Bytes)
read_more zero value bs = ok (value, bs)
read_more (suc n) value [] = err ParseError.incomplete
read_more (suc n) value (b ∷ bs) = read_more n (bit_or (value * 256 % 2 ^ 64) b) bs

unfoldable pub read_varint : Bytes → Result ParseError (ℕ × Bytes)
unfolding read_more
read_varint [] = err ParseError.incomplete
read_varint (first ∷ bs) = read_more (2 ^ (first / 64) - 1) (bit_and first 0x3f) bs

-- `(value >> s) as u8`
abbrev pub byte_at : ℕ → ℕ → ℕ
byte_at s value = value / 2 ^ s % 256

-- The bytes that `write_varint` appends to its buffer.
unfoldable pub write_varint : ℕ → Bytes
write_varint value =
    if ltb value 64
    then byte_at 0 value ∷ []
    else if ltb value 16384
    then bit_or 0x40 (byte_at 8 value) ∷ byte_at 0 value ∷ []
    else if ltb value 1073741824
    then bit_or 0x80 (byte_at 24 value) ∷ byte_at 16 value ∷ byte_at 8 value ∷ byte_at 0 value ∷ []
    else bit_or 0xc0 (byte_at 56 value)
      ∷ byte_at 48 value
      ∷ byte_at 40 value
      ∷ byte_at 32 value
      ∷ byte_at 24 value
      ∷ byte_at 16 value
      ∷ byte_at 8 value
      ∷ byte_at 0 value
      ∷ []

unfoldable pub varint_size : ℕ → ℕ
varint_size value =
    if ltb value 64 then 1 else if ltb value 16384 then 2 else if ltb value 1073741824 then 4 else 8
