-- ===== src/Varint/Read.antt =====
-- `read_varint` on any input.
use Prim.Native.Nat.{bit_and, bit_or}
use dummy_h.Prelude.{
  ℕ, zero, suc, ◌+◌, ◌-◌, ◌*◌, ◌/◌, ◌%◌, ◌^◌, ◌<◌, ◌≡◌, refl, ◌⊎◌, inl, inr, [], ◌∷◌, ◌++◌, arith,
  length,
}
use dummy_h.Prelude.Bits.{or_byte}
use dummy_h.Error.{ParseError, ok, err}
use dummy_h.Varint.{Bytes, IsByte, read_more, read_varint}

-- One round of the loop on a byte, as arithmetic.
pub read_more_step :
    (n v b : ℕ) (bs : Bytes)
    → v * 256 < 2 ^ 64
    → IsByte b
    → read_more (suc n) v (b ∷ bs) ≡ read_more n (v * 256 + b) bs
unfolding read_more
read_more_step n v b bs hv hb =
    let e : v * 256 % 2 ^ 64 ≡ v * 256 = omega arith in rw (e, or_byte v b hb)

read_more_cases :
    (n v : ℕ) (bs : Bytes)
    → (read_more n v bs ≡ err ParseError.incomplete) × (length bs < n)
      ⊎ ((w : ℕ) × (rest : Bytes) × (read_more n v bs ≡ ok (w, rest))
          × (length rest + n ≡ length bs))
unfolding read_more
read_more_cases zero v bs = inr (v, bs, refl, omega arith)
read_more_cases (suc n) v [] = inl (refl, omega arith)
read_more_cases (suc n) v (b ∷ bs) = elim (read_more_cases n (bit_or (v * 256 % 2 ^ 64) b) bs) [
  | inl (e, h) ↦ inl (e, omega arith)
  | inr (w, rest, e, h) ↦ inr (w, rest, e, omega arith)
]

-- A read lacks bytes, or gives a value and a shorter rest; no other error arises.
pub read_cases :
    (bs : Bytes)
    → (read_varint bs ≡ err ParseError.incomplete)
      ⊎ ((v : ℕ) × (rest : Bytes) × (read_varint bs ≡ ok (v, rest)) × (length rest < length bs))
unfolding read_varint
read_cases [] = inl refl
read_cases (b ∷ bs) = elim (read_more_cases (2 ^ (b / 64) - 1) (bit_and b 0x3f) bs) [
  | inl (e, h) ↦ inl e
  | inr (w, rest, e, h) ↦ inr (w, rest, e, omega arith)
]

read_more-append :
    (n v : ℕ) (bs more : Bytes) {w : ℕ} {rest : Bytes}
    → read_more n v bs ≡ ok (w, rest)
    → read_more n v (bs ++ more) ≡ ok (w, rest ++ more)
unfolding read_more
read_more-append zero v bs more e = cc
read_more-append (suc n) v [] more e = cc
read_more-append (suc n) v (b ∷ bs) more e =
    read_more-append n (bit_or (v * 256 % 2 ^ 64) b) bs more e

-- A read does not look past its number.
pub read-append :
    (bs more : Bytes) {w : ℕ} {rest : Bytes}
    → read_varint bs ≡ ok (w, rest)
    → read_varint (bs ++ more) ≡ ok (w, rest ++ more)
unfolding read_varint
read-append [] more e = cc
read-append (b ∷ bs) more e = read_more-append (2 ^ (b / 64) - 1) (bit_and b 0x3f) bs more e
