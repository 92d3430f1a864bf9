-- ===== src/Prelude/Bits.antt =====
-- The masks and shifts of one byte as arithmetic, and `(v << 8) | b` as a sum.
use Prim.Native.Nat.{
  ℕ, zero, suc, ◌+◌, ◌-◌, ◌*◌, ◌/◌, ◌%◌, ◌^◌, ◌≤◌, ◌<◌, min, max, bit_and, bit_or, digits,
  bit_and-bitwise, bit_or-bitwise,
}
use mathlib.Core.Path.{◌≡◌, refl, ap, sym, ◌∙◌}
use mathlib.Core.Bool.{Bool, true, ◌&&◌}
use native.Mathlib.Nat.{pow-suc}
use native.Mathlib.Omega.{arith}
use dummy_h.Prelude.Tests.{◌==◌, ==_iff}

-- Two functions are compared on the values below `n`, the largest one first.
unfoldable pub check_to : ℕ → (ℕ → ℕ) → (ℕ → ℕ) → Bool
check_to zero f g = true
check_to (suc n) f g = check_to n f g && f n == g n

pub from_check : (f g : ℕ → ℕ) (n : ℕ) → check_to n f g ≡ true → (x : ℕ) → x < n → f x ≡ g x
unfolding check_to
from_check f g zero h x lt = absurd (omega arith)
from_check f g (suc n) h x lt = grind (arith, from_check f g n, ==_iff (f n) (g n))

pub and_3f : (b : ℕ) → b < 256 → bit_and b 0x3f ≡ b % 64
unfolding check_to
and_3f = from_check (λ b. bit_and b 0x3f) (λ b. b % 64) 256 refl

pub or_40 : (b : ℕ) → b < 64 → bit_or 0x40 b ≡ 64 + b
unfolding check_to
or_40 = from_check (λ b. bit_or 0x40 b) (λ b. 64 + b) 64 refl

pub or_80 : (b : ℕ) → b < 64 → bit_or 0x80 b ≡ 128 + b
unfolding check_to
or_80 = from_check (λ b. bit_or 0x80 b) (λ b. 128 + b) 64 refl

-- The two top bits are set whatever they were.
pub or_c0 : (b : ℕ) → b < 256 → bit_or 0xc0 b ≡ 192 + b % 64
unfolding check_to
or_c0 = from_check (λ b. bit_or 0xc0 b) (λ b. 192 + b % 64) 256 refl

-- The bit operations recur on the binary digits with fuel; the fuel stops to matter at the number.
module _ (z : ℕ → ℕ) (f : ℕ → ℕ → ℕ) where
  spare_digit : (n a b : ℕ) → a ≤ n → digits z f (suc n) a b ≡ digits z f n a b
  spare_digit zero zero b h = refl
  spare_digit zero (suc a) b h = absurd (omega arith)
  spare_digit (suc n) zero b h = refl
  spare_digit (suc n) (suc a) b h = omega (arith, spare_digit n (suc a / 2) (b / 2) (omega arith))

  spare_digits : (k a b : ℕ) → digits z f (k + a) a b ≡ digits z f a a b
  spare_digits zero a b = let e : 0 + a ≡ a = omega arith in ap (λ (t : ℕ). digits z f t a b) e
  spare_digits (suc k) a b =
      let e : suc k + a ≡ suc (k + a) = omega arith in
      ap (λ (t : ℕ). digits z f t a b) e
      ∙ (spare_digit (k + a) a b (omega arith) ∙ spare_digits k a b)

  pub settle : (n a b : ℕ) → a ≤ n → digits z f n a b ≡ digits z f a a b
  settle n a b h =
      let e : n - a + a ≡ n = omega arith in
      ap (λ (t : ℕ). digits z f t a b) (sym e) ∙ spare_digits (n - a) a b

or_step : (a b : ℕ) → bit_or a b ≡ bit_or (a / 2) (b / 2) * 2 + max (a % 2) (b % 2)
or_step zero b = omega (arith, bit_or-bitwise zero (b / 2), bit_or-bitwise zero b)
or_step (suc a) b =
    let tail = settle (λ b. b) max a (suc a / 2) (b / 2) (omega arith) in
    omega (arith, tail, bit_or-bitwise (suc a / 2) (b / 2), bit_or-bitwise (suc a) b)

and_step : (a b : ℕ) → bit_and a b ≡ bit_and (a / 2) (b / 2) * 2 + min (a % 2) (b % 2)
and_step zero b = omega (arith, bit_and-bitwise zero (b / 2), bit_and-bitwise zero b)
and_step (suc a) b =
    let tail = settle (λ b. 0) min a (suc a / 2) (b / 2) (omega arith) in
    omega (arith, tail, bit_and-bitwise (suc a / 2) (b / 2), bit_and-bitwise (suc a) b)

-- Zero as the second operand, by halving the first `n` times.
nothing_set : (n a : ℕ) → a ≤ n → (bit_or a 0 ≡ a) × (bit_and a 0 ≡ 0)
nothing_set n zero h = (refl, refl)
nothing_set zero (suc a) h = absurd (omega arith)
nothing_set (suc n) (suc a) h =
    let (o, i) = nothing_set n (suc a / 2) (omega arith) in
    (omega (arith, o, or_step (suc a) 0), omega (arith, i, and_step (suc a) 0))

or_shift : (q r : ℕ) → bit_or (q * 2) r ≡ bit_or q (r / 2) * 2 + r % 2
or_shift q r = let half : q * 2 / 2 ≡ q = omega arith in rw (or_step (q * 2) r, half) (omega arith)

or_fields : (k q r : ℕ) → r < 2 ^ k → bit_or (q * 2 ^ k) r ≡ q * 2 ^ k + r
or_fields zero q r h =
    let e : q * 2 ^ 0 ≡ q = omega arith in
    let z : r ≡ 0 = omega arith in rw (e, z) (omega (arith, (nothing_set q q (omega arith)).0))
or_fields (suc k) q r h =
    let e : q * 2 ^ suc k ≡ q * 2 ^ k * 2 = omega (arith, ap (λ (t : ℕ). q * t) (pow-suc 2 k)) in
    rw (e, or_shift (q * 2 ^ k) r)
      (omega (arith, pow-suc 2 k, or_fields k q (r / 2) (omega (arith, pow-suc 2 k))))

-- `(q << 8) | r` is a sum when `r` is a byte.
pub or_byte : (q r : ℕ) → r < 256 → bit_or (q * 256) r ≡ q * 256 + r
or_byte q r h = or_fields 8 q r h

-- The two lowest bits of any number.
pub and_03 : (a : ℕ) → bit_and a 0x03 ≡ a % 4
and_03 a =
    omega (
      arith,
      and_step a 3,
      and_step (a / 2) 1,
      (nothing_set (a / 2 / 2) (a / 2 / 2) (omega arith)).1,
    )
