-- ===== src/Packet/Bag.antt =====
-- Bags of packet numbers: what is left of a list in src/transport/packet.rs without its order.
use dummy_h.Prelude.{
  ℕ, suc, ◌+◌, ◌≤◌, ◌<◌, ◌≡◌, refl, sym, ap, ◌∙◌, inl, inr, List, [], ◌∷◌, ◌++◌, arith, ◌==◌,
  if◌then◌else◌, ==_iff, ==_refl, Bool-cases, length, Among,
}
use mathlib.Core.Quot
use mathlib.Core.Quot.{Quot, Quot-set}
use dummy_h.Packet.Sorted.{Rising, Rising-Among, sort-Rising}
use dummy_h.Packet.Tracker.{place, sort_numbers}

abbrev pub count : ℕ → List ℕ → ℕ
count k [] = 0
count k (n ∷ ns) = (if n == k then 1 else 0) + count k ns

-- The same numbers, each as often, in any order.
abbrev pub SameItems : List ℕ → List ℕ → Type 0
SameItems xs ys = (k : ℕ) → count k xs ≡ count k ys

count-place : (k n : ℕ) (ms : List ℕ) → count k (place n ms) ≡ count k (n ∷ ms)
unfolding place
count-place k n [] = refl
count-place k n (m ∷ ms) = ground (arith, count-place k n ms)

count-sort : (k : ℕ) (ns : List ℕ) → count k (sort_numbers ns) ≡ count k ns
unfolding sort_numbers
count-sort k [] = refl
count-sort k (n ∷ ns) = omega (arith, count-place k n (sort_numbers ns), count-sort k ns)

Among-count : (k : ℕ) (ns : List ℕ) → 0 < count k ns → Among ns k
Among-count k [] h = absurd (omega arith)
Among-count k (n ∷ ns) h = elim (Bool-cases (n == k)) [
  | inl e ↦ inl ((==_iff n k).0 e)
  | inr e ↦ inr (Among-count k ns (ground arith))
]

-- The first of a rising list is its least.
first-le : (b x y : ℕ) (xs ys : List ℕ) → Rising b (x ∷ xs) → SameItems (x ∷ xs) (y ∷ ys) → x ≤ y
unfolding Rising
first-le b x y xs ys (l, r) same =
    elim (Among-count y (x ∷ xs) (rw (same y, ==_refl y) (omega arith))) [
      | inl e ↦ omega arith
      | inr a ↦ Rising-Among x y xs r a
    ]

sorted_unique : (b c : ℕ) (xs ys : List ℕ) → Rising b xs → Rising c ys → SameItems xs ys → xs ≡ ys
unfolding Rising
sorted_unique b c [] [] r s same = refl
sorted_unique b c [] (y ∷ ys) r s same = absurd (ground (arith, same y))
sorted_unique b c (x ∷ xs) [] r s same = absurd (ground (arith, same x))
sorted_unique b c (x ∷ xs) (y ∷ ys) r s same =
    let e : x ≡ y =
      omega (arith, first-le b x y xs ys r same, first-le c y x ys xs s (λ k. sym (same k))) in
    let rest : xs ≡ ys = sorted_unique x y xs ys r.1 s.1 (λ k. ground (arith, same k)) in
    rw (e, rest) refl

count-Among : (k : ℕ) (ns : List ℕ) → Among ns k → 0 < count k ns
count-Among k [] a = absurd a
count-Among k (n ∷ ns) (inl e) = ground arith
count-Among k (n ∷ ns) (inr a) = ground (arith, count-Among k ns a)

pub Among-same : (k : ℕ) (xs ys : List ℕ) → SameItems xs ys → Among xs k → Among ys k
Among-same k xs ys same a = Among-count k ys (omega (arith, same k, count-Among k xs a))

pub SameItems-sort : (xs ys : List ℕ) → SameItems xs ys → sort_numbers xs ≡ sort_numbers ys
SameItems-sort xs ys same =
    sorted_unique 0 0 _ _ (sort-Rising xs) (sort-Rising ys)
      (λ k. count-sort k xs ∙ (same k ∙ sym (count-sort k ys)))

length-place : (n : ℕ) (ms : List ℕ) → length (place n ms) ≡ suc (length ms)
unfolding place
length-place n [] = refl
length-place n (m ∷ ms) = ground (arith, length-place n ms)

length-sort : (ns : List ℕ) → length (sort_numbers ns) ≡ length ns
unfolding sort_numbers
length-sort [] = refl
length-sort (n ∷ ns) = omega (arith, length-place n (sort_numbers ns), length-sort ns)

pub length-same : (xs ys : List ℕ) → SameItems xs ys → length xs ≡ length ys
length-same xs ys same =
    sym (length-sort xs) ∙ (ap length (SameItems-sort xs ys same) ∙ length-sort ys)

pub count-append : (k : ℕ) (xs ys : List ℕ) → count k (xs ++ ys) ≡ count k xs + count k ys
count-append k [] ys = omega arith
count-append k (x ∷ xs) ys = omega (arith, count-append k xs ys)

-- Numbers without their order.
abbrev pub Bag : Type 0
Bag = Quot SameItems

unfoldable pub put : ℕ → Bag → Bag
put n =
    Quot.lift Quot-set (λ ns. Quot.mk (n ∷ ns)) (λ xs ys h. Quot.sound (λ k. omega (arith, h k)))

pub put_all : List ℕ → Bag → Bag
put_all [] b = b
put_all (n ∷ ns) b = put n (put_all ns b)

pub put_all-mk : (ns qs : List ℕ) → put_all ns (Quot.mk qs) ≡ Quot.mk (ns ++ qs)
unfolding put_all put
put_all-mk [] qs = refl
put_all-mk (n ∷ ns) qs = ap (put n) (put_all-mk ns qs)
