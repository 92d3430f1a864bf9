-- ===== src/Crypto/Nonce.antt =====
-- The nonces that src/crypto/keys.rs makes of packet numbers: each number is added by exclusive or to
-- the nonce of the packet before.
use Prim.Native.Nat.{bit_xor}
use dummy_h.Prelude.{
  ℕ, ◌+◌, ◌*◌, ◌%◌, ◌<◌, ◌≡◌, refl, sym, ap, ◌∙◌, List, [], ◌∷◌, ◌++◌, arith, length, take, drop,
  take-append_self, drop-append_self,
}
use dummy_h.Prelude.Bits.{check_to, from_check}
use dummy_h.Prelude.Xor.{xor_assoc, xor_zero, xor_cancel}
use dummy_h.Varint.{Bytes}
use dummy_h.Crypto.{to_be_bytes, xor_bytes, update_nonce}

-- The nonce after packets of these numbers.
unfoldable pub nonce_after : Bytes → List ℕ → Bytes
nonce_after nonce [] = nonce
nonce_after nonce (n ∷ ns) = nonce_after (update_nonce nonce n) ns

-- Four equal bytes, and four bytes that count up from a multiple of four.
same_four : (a b : ℕ) → bit_xor (bit_xor (bit_xor (bit_xor a b) b) b) b ≡ a
same_four a b = rw (xor_cancel a b, xor_cancel a b) refl

four_cancel :
    (q : ℕ) → q < 64 → bit_xor (4 * q) (bit_xor (4 * q + 1) (bit_xor (4 * q + 2) (4 * q + 3))) ≡ 0
unfolding check_to
four_cancel =
    from_check (λ q. bit_xor (4 * q) (bit_xor (4 * q + 1) (bit_xor (4 * q + 2) (4 * q + 3))))
      (λ q. 0) 64 refl

count_four :
    (a q : ℕ)
    → q < 64
    → bit_xor (bit_xor (bit_xor (bit_xor a (4 * q)) (4 * q + 1)) (4 * q + 2)) (4 * q + 3) ≡ a
count_four a q h =
    xor_assoc (bit_xor (bit_xor a (4 * q)) (4 * q + 1)) (4 * q + 2) (4 * q + 3)
    ∙ xor_assoc (bit_xor a (4 * q)) (4 * q + 1) (bit_xor (4 * q + 2) (4 * q + 3))
    ∙ xor_assoc a (4 * q) (bit_xor (4 * q + 1) (bit_xor (4 * q + 2) (4 * q + 3)))
    ∙ ap (λ (t : ℕ). bit_xor a t) (four_cancel q h)
    ∙ xor_zero a

-- Four lists whose bytes at each place add up to nothing.
abbrev Cancel : Bytes → Bytes → Bytes → Bytes → Type 0
Cancel (b ∷ bs) (c ∷ cs) (d ∷ ds) (e ∷ es) =
    ((a : ℕ) → bit_xor (bit_xor (bit_xor (bit_xor a b) c) d) e ≡ a) × Cancel bs cs ds es
Cancel [] [] [] [] = Unit
Cancel bs cs ds es = ⊥

xor_bytes-Cancel :
    (as' bs cs ds es : Bytes)
    → Cancel bs cs ds es
    → xor_bytes (xor_bytes (xor_bytes (xor_bytes as' bs) cs) ds) es ≡ as'
xor_bytes-Cancel [] bs cs ds es h = refl
xor_bytes-Cancel (a ∷ as') [] [] [] [] h = refl
xor_bytes-Cancel (a ∷ as') (b ∷ bs) (c ∷ cs) (d ∷ ds) (e ∷ es) (h, t) =
    cc (h a, xor_bytes-Cancel as' bs cs ds es t)
xor_bytes-Cancel (a ∷ as') [] [] [] (e ∷ es) h = absurd h
xor_bytes-Cancel (a ∷ as') [] [] (d ∷ ds) es h = absurd h
xor_bytes-Cancel (a ∷ as') [] (c ∷ cs) ds es h = absurd h
xor_bytes-Cancel (a ∷ as') (b ∷ bs) [] ds es h = absurd h
xor_bytes-Cancel (a ∷ as') (b ∷ bs) (c ∷ cs) [] es h = absurd h
xor_bytes-Cancel (a ∷ as') (b ∷ bs) (c ∷ cs) (d ∷ ds) [] h = absurd h

-- An upper byte is the same in the four numbers; the lowest one counts up.
upper_cancel :
    (b c d e : ℕ)
    → c ≡ b
    → d ≡ b
    → e ≡ b
    → (a : ℕ) → bit_xor (bit_xor (bit_xor (bit_xor a b) c) d) e ≡ a
upper_cancel b c d e h k l a = rw (h, k, l) (same_four a b)

lower_cancel :
    (q b c d e : ℕ)
    → b ≡ 4 * (q % 64)
    → c ≡ 4 * (q % 64) + 1
    → d ≡ 4 * (q % 64) + 2
    → e ≡ 4 * (q % 64) + 3
    → (a : ℕ) → bit_xor (bit_xor (bit_xor (bit_xor a b) c) d) e ≡ a
lower_cancel q b c d e g h k l a = rw (g, h, k, l) (count_four a (q % 64) (omega arith))

four_numbers :
    (q : ℕ)
    → Cancel
        (to_be_bytes (4 * q))
        (to_be_bytes (4 * q + 1))
        (to_be_bytes (4 * q + 2))
        (to_be_bytes (4 * q + 3))
unfolding to_be_bytes
four_numbers q =
    let lowest =
      lower_cancel q (4 * q % 256) ((4 * q + 1) % 256) ((4 * q + 2) % 256) ((4 * q + 3) % 256)
        (omega arith) (omega arith) (omega arith) (omega arith) in
    (
      upper_cancel _ _ _ _ (omega arith) (omega arith) (omega arith),
      (
        upper_cancel _ _ _ _ (omega arith) (omega arith) (omega arith),
        (
          upper_cancel _ _ _ _ (omega arith) (omega arith) (omega arith),
          (
            upper_cancel _ _ _ _ (omega arith) (omega arith) (omega arith),
            (
              upper_cancel _ _ _ _ (omega arith) (omega arith) (omega arith),
              (
                upper_cancel _ _ _ _ (omega arith) (omega arith) (omega arith),
                (upper_cancel _ _ _ _ (omega arith) (omega arith) (omega arith), (lowest, tt)),
              ),
            ),
          ),
        ),
      ),
    )

pub update-split :
    (front back : Bytes) (n : ℕ)
    → length front ≡ 4
    → update_nonce (front ++ back) n ≡ front ++ xor_bytes back (to_be_bytes n)
unfolding update_nonce
update-split front back n h =
    let t : take 4 (front ++ back) ≡ front = rw (sym h) (take-append_self front back) in
    let d : drop 4 (front ++ back) ≡ back = rw (sym h) (drop-append_self front back) in cc (t, d)

-- Once four packets are sealed whose numbers count up from a multiple of four, the nonce is again
-- the one before them: the last of the four has the nonce that the packet before the first had.
pub nonce_repeats :
    (front back : Bytes) (q : ℕ)
    → length front ≡ 4
    → nonce_after (front ++ back) ((4 * q) ∷ (4 * q + 1) ∷ (4 * q + 2) ∷ (4 * q + 3) ∷ [])
      ≡ front ++ back
unfolding nonce_after
nonce_repeats front back q h =
    let b = to_be_bytes (4 * q) in
    rw
      (
        update-split front back (4 * q) h,
        update-split front (xor_bytes back b) (4 * q + 1) h,
        update-split front (xor_bytes (xor_bytes back b) (to_be_bytes (4 * q + 1))) (4 * q + 2) h,
        update-split front
            (xor_bytes (xor_bytes (xor_bytes back b) (to_be_bytes (4 * q + 1)))
              (to_be_bytes (4 * q + 2)))
            (4 * q + 3) h,
        xor_bytes-Cancel back _ _ _ _ (four_numbers q),
      )
      refl
