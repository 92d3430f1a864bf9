-- ===== src/Prelude/Xor.antt =====
-- Exclusive or at variables: it undoes itself, in any order, and stays below a power of two.
use Prim.Native.Nat.{
  ℕ, zero, suc, ◌+◌, ◌*◌, ◌/◌, ◌%◌, ◌^◌, ◌≤◌, ◌<◌, bit_xor, bit_xor-bitwise, differ,
}
use mathlib.Core.Path.{◌≡◌, refl, ap, ◌∙◌}
use native.Mathlib.Nat.{pow-suc}
use native.Mathlib.Omega.{arith}
use dummy_h.Prelude.Bits.{settle}

differ-bits : (a b : ℕ) → differ (a % 2) (b % 2) ≡ (a + b) % 2
differ-bits a b = cases (a % 2) (b % 2) (omega arith) (omega arith) (omega arith)
  where
    cases : (x y : ℕ) → x < 2 → y < 2 → (x + y) % 2 ≡ (a + b) % 2 → differ x y ≡ (a + b) % 2
    cases zero zero h k e = omega (arith, e)
    cases zero (suc zero) h k e = omega (arith, e)
    cases (suc zero) zero h k e = omega (arith, e)
    cases (suc zero) (suc zero) h k e = omega (arith, e)
    cases (suc (suc x)) y h k e = absurd (omega arith)
    cases zero (suc (suc y)) h k e = absurd (omega arith)
    cases (suc zero) (suc (suc y)) h k e = absurd (omega arith)

pub xor_step : (a b : ℕ) → bit_xor a b ≡ bit_xor (a / 2) (b / 2) * 2 + (a + b) % 2
xor_step zero b = omega (arith, bit_xor-bitwise zero (b / 2), bit_xor-bitwise zero b)
xor_step (suc a) b =
    let tail = settle (λ b. b) differ a (suc a / 2) (b / 2) (omega arith) in
    omega (
      arith,
      tail,
      differ-bits (suc a) b,
      bit_xor-bitwise (suc a / 2) (b / 2),
      bit_xor-bitwise (suc a) b,
    )

-- By halving both numbers, `n` times at most.
xor-comm_upto : (n a b : ℕ) → a ≤ n → b ≤ n → bit_xor a b ≡ bit_xor b a
xor-comm_upto zero a b h k =
    let x : a ≡ 0 = omega arith in let y : b ≡ 0 = omega arith in rw (x, y) refl
xor-comm_upto (suc n) a b h k =
    omega (
      arith,
      xor_step a b,
      xor_step b a,
      xor-comm_upto n (a / 2) (b / 2) (omega arith) (omega arith),
    )

xor-assoc_upto :
    (n a b c : ℕ) → a ≤ n → b ≤ n → c ≤ n → bit_xor (bit_xor a b) c ≡ bit_xor a (bit_xor b c)
xor-assoc_upto zero a b c h k l =
    let x : a ≡ 0 = omega arith in
    let y : b ≡ 0 = omega arith in let z : c ≡ 0 = omega arith in rw (x, y, z) refl
xor-assoc_upto (suc n) a b c h k l =
    let left : bit_xor a b / 2 ≡ bit_xor (a / 2) (b / 2) = omega (arith, xor_step a b) in
    let right : bit_xor b c / 2 ≡ bit_xor (b / 2) (c / 2) = omega (arith, xor_step b c) in
    let ih = xor-assoc_upto n (a / 2) (b / 2) (c / 2) (omega arith) (omega arith) (omega arith) in
    let outer = xor_step (bit_xor a b) c in
    let inner = xor_step a (bit_xor b c) in
    let outer' : bit_xor (bit_xor a b) c
        ≡ bit_xor (bit_xor (a / 2) (b / 2)) (c / 2) * 2 + (bit_xor a b + c) % 2 =
      rw left at outer in
    let inner' : bit_xor a (bit_xor b c)
        ≡ bit_xor (a / 2) (bit_xor (b / 2) (c / 2)) * 2 + (a + bit_xor b c) % 2 =
      rw right at inner in
    omega (arith, ih, outer', inner', xor_step a b, xor_step b c)

xor-self_upto : (n a : ℕ) → a ≤ n → bit_xor a a ≡ 0
xor-self_upto zero a h = let x : a ≡ 0 = omega arith in rw x refl
xor-self_upto (suc n) a h = omega (arith, xor_step a a, xor-self_upto n (a / 2) (omega arith))

pub xor_comm : (a b : ℕ) → bit_xor a b ≡ bit_xor b a
xor_comm a b = xor-comm_upto (a + b) a b (omega arith) (omega arith)

pub xor_assoc : (a b c : ℕ) → bit_xor (bit_xor a b) c ≡ bit_xor a (bit_xor b c)
xor_assoc a b c = xor-assoc_upto (a + b + c) a b c (omega arith) (omega arith) (omega arith)

pub xor_self : (a : ℕ) → bit_xor a a ≡ 0
xor_self a = xor-self_upto a a (omega arith)

pub zero-xor : (a : ℕ) → bit_xor 0 a ≡ a
zero-xor a = bit_xor-bitwise 0 a

pub xor_zero : (a : ℕ) → bit_xor a 0 ≡ a
xor_zero a = xor_comm a 0 ∙ zero-xor a

-- What was added by exclusive or is taken away by it.
pub xor_cancel : (a b : ℕ) → bit_xor (bit_xor a b) b ≡ a
xor_cancel a b = xor_assoc a b b ∙ ap (λ (t : ℕ). bit_xor a t) (xor_self b) ∙ xor_zero a

pub xor-lt : (k a b : ℕ) → a < 2 ^ k → b < 2 ^ k → bit_xor a b < 2 ^ k
xor-lt zero a b h l =
    let x : a ≡ 0 = omega arith in let y : b ≡ 0 = omega arith in rw (x, y) (omega arith)
xor-lt (suc k) a b h l =
    let less = xor-lt k (a / 2) (b / 2) (omega (arith, pow-suc 2 k)) (omega (arith, pow-suc 2 k)) in
    omega (arith, pow-suc 2 k, xor_step a b, less)
