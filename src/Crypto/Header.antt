-- ===== src/Crypto/Header.antt =====
-- Header protection of src/crypto/protection.rs undoes itself.
use Prim.Native.Nat.{bit_and, bit_xor}
use dummy_h.Prelude.{
  ℕ, zero, suc, ◌*◌, ◌/◌, ◌%◌, ◌<◌, ◌≡◌, refl, ap, [], ◌∷◌, arith, ◌==◌, if◌then◌else◌, All,
}
use dummy_h.Prelude.Bits.{check_to, from_check}
use dummy_h.Prelude.Xor.{xor_step, xor_zero, xor_cancel, xor-lt}
use dummy_h.Varint.{Bytes}
use dummy_h.Crypto.Protection.{
  mask_from, generate_header_protection_mask, xor_rest, mask_bits, apply_mask,
  apply_header_protection, remove_header_protection,
}

xor_rest-twice : (header mask : Bytes) → xor_rest (xor_rest header mask) mask ≡ header
xor_rest-twice [] mask = refl
xor_rest-twice (h ∷ header) [] = refl
xor_rest-twice (h ∷ header) (m ∷ mask) = cc (xor_cancel h m, xor_rest-twice header mask)

and_0f : (m : ℕ) → m < 256 → bit_and m 0x0f ≡ m % 16
unfolding check_to
and_0f = from_check (λ m. bit_and m 0x0f) (λ m. m % 16) 256 refl

and_1f : (m : ℕ) → m < 256 → bit_and m 0x1f ≡ m % 32
unfolding check_to
and_1f = from_check (λ m. bit_and m 0x1f) (λ m. m % 32) 256 refl

and_top : (b : ℕ) → b < 256 → bit_and b 0x80 ≡ b / 128 * 128
unfolding check_to
and_top = from_check (λ b. bit_and b 0x80) (λ b. b / 128 * 128) 256 refl

-- What changes the five low bits at most leaves the top bit.
xor-high : (h x : ℕ) → x < 32 → bit_xor h x / 32 ≡ h / 32
xor-high h x lt =
    let none_set : x / 2 / 2 / 2 / 2 / 2 ≡ 0 = omega arith in
    let last : bit_xor (h / 2 / 2 / 2 / 2 / 2) (x / 2 / 2 / 2 / 2 / 2) ≡ h / 2 / 2 / 2 / 2 / 2 =
      rw none_set (xor_zero (h / 2 / 2 / 2 / 2 / 2)) in
    omega (
      arith,
      xor_step h x,
      xor_step (h / 2) (x / 2),
      xor_step (h / 2 / 2) (x / 2 / 2),
      xor_step (h / 2 / 2 / 2) (x / 2 / 2 / 2),
      xor_step (h / 2 / 2 / 2 / 2) (x / 2 / 2 / 2 / 2),
      last,
    )

masked-small : (h m : ℕ) → m < 256 → bit_and m (mask_bits h) < 32
unfolding mask_bits
masked-small h m lt = ground (arith, and_0f m lt, and_1f m lt)

mask_bits-xor : (h x : ℕ) → h < 256 → x < 32 → mask_bits (bit_xor h x) ≡ mask_bits h
unfolding mask_bits
mask_bits-xor h x lt small =
    let byte = xor-lt 8 h x lt (omega arith) in
    let same : bit_and (bit_xor h x) 0x80 ≡ bit_and h 0x80 =
      omega (arith, and_top h lt, and_top (bit_xor h x) byte, xor-high h x small) in
    ap (λ (t : ℕ). if t == 0 then 0x1f else 0x0f) same

apply_mask-twice :
    (header mask : Bytes)
    → All (λ b. b < 256) header
    → All (λ b. b < 256) mask
    → apply_mask (apply_mask header mask) mask ≡ header
unfolding apply_mask
apply_mask-twice [] mask a b = refl
apply_mask-twice (h ∷ header) [] a b = refl
apply_mask-twice (h ∷ header) (m ∷ mask) (a, a') (b, b') =
    let bits = mask_bits-xor h (bit_and m (mask_bits h)) a (masked-small h m b) in
    rw (bits, xor_cancel h (bit_and m (mask_bits h)), xor_rest-twice header mask) refl

mask_from-bytes :
    (n : ℕ) (sample : Bytes) → All (λ b. b < 256) sample → All (λ b. b < 256) (mask_from n sample)
mask_from-bytes zero sample a = tt
mask_from-bytes (suc n) [] a = (omega arith, mask_from-bytes n [] tt)
mask_from-bytes (suc n) (b ∷ sample) (a, a') =
    (xor-lt 8 b 0x55 a (omega arith), mask_from-bytes n sample a')

-- Removing header protection with the sample that it was applied with gives the header back,
-- whatever the lengths of the two.
pub remove-apply :
    (header sample : Bytes)
    → All (λ b. b < 256) header
    → All (λ b. b < 256) sample
    → remove_header_protection (apply_header_protection header sample) sample ≡ header
unfolding remove_header_protection apply_header_protection generate_header_protection_mask
remove-apply header sample a b =
    apply_mask-twice header (mask_from 5 sample) a (mask_from-bytes 5 sample b)
