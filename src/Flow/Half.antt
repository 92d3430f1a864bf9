-- ===== src/Flow/Half.antt =====
-- `(window as f32 * 0.5) as u32` of src/protocol/flow_control.rs. An `f32` holds 24 significant
-- bits: the conversion of a `u32` rounds to the nearest such number, ties to even. Halving is exact,
-- and the cast back cuts off the fraction.
use native.Mathlib.Nat.{div-add-mod, mod-lt}
use dummy_h.Prelude.{ℕ, ◌+◌, ◌*◌, ◌/◌, ◌%◌, ◌^◌, ◌≤◌, ◌<◌, ◌≡◌, arith, ltb, if◌then◌else◌}

-- To a multiple of `unit`.
unfoldable pub round_to : ℕ → ℕ → ℕ
round_to unit n =
    let q = n / unit in
    let twice = 2 * (n % unit) in
    if ltb twice unit
    then q * unit
    else if ltb unit twice
    then (q + 1) * unit
    else (q + q % 2) * unit

-- The value of a `u32` as an `f32`.
unfoldable pub to_f32 : ℕ → ℕ
to_f32 n =
    if ltb n (2 ^ 24)
    then n
    else if ltb n (2 ^ 25)
    then round_to 2 n
    else if ltb n (2 ^ 26)
    then round_to 4 n
    else if ltb n (2 ^ 27)
    then round_to 8 n
    else if ltb n (2 ^ 28)
    then round_to 16 n
    else if ltb n (2 ^ 29)
    then round_to 32 n
    else if ltb n (2 ^ 30)
    then round_to 64 n
    else if ltb n (2 ^ 31)
    then round_to 128 n
    else round_to 256 n

unfoldable pub half_window : ℕ → ℕ
unfolding to_f32
half_window initial = to_f32 initial / 2

-- Below 2 ^ 24 the threshold is half the window.
pub half_window_exact : (n : ℕ) → n < 2 ^ 24 → half_window n ≡ n / 2
unfolding half_window to_f32
half_window_exact n h = ground arith

parity : (q unit : ℕ) → (q + q % 2) * unit ≤ q * unit + unit
parity q unit = grind arith

round_to-le : (unit n : ℕ) → 0 < unit → round_to unit n ≤ n + unit
unfolding round_to
round_to-le unit n h = ground (arith, div-add-mod n unit, mod-lt n h, parity (n / unit) unit)

-- The threshold never passes the window.
pub half_window-le : (n : ℕ) → half_window n ≤ n
unfolding half_window to_f32
half_window-le n = ground (
  arith,
  round_to-le 2 n,
  round_to-le 4 n,
  round_to-le 8 n,
  round_to-le 16 n,
  round_to-le 32 n,
  round_to-le 64 n,
  round_to-le 128 n,
  round_to-le 256 n,
)
