-- ===== src/Packet/Sorted.antt =====
-- The sorted packet numbers of `generate_ack` in src/transport/packet.rs.
use dummy_h.Prelude.{ℕ, ◌≤◌, ◌≡◌, ◌↔◌, ◌⊎◌, inl, inr, List, [], ◌∷◌, arith, Among}
use dummy_h.Packet.Tracker.{place, sort_numbers}

-- Each number is at most those that follow, and `n` at most the first.
unfoldable pub Rising : ℕ → List ℕ → Type 0
Rising n [] = Unit
Rising n (m ∷ ms) = (n ≤ m) × Rising m ms

pub Rising-Among : (n k : ℕ) (ms : List ℕ) → Rising n ms → Among ms k → n ≤ k
unfolding Rising
Rising-Among n k [] r a = elim a [ ]
Rising-Among n k (m ∷ ms) (le, r) (inl e) = omega arith
Rising-Among n k (m ∷ ms) (le, r) (inr a) = omega (arith, Rising-Among m k ms r a)

place-Among : (n k : ℕ) (ms : List ℕ) → Among (place n ms) k ↔ ((n ≡ k) ⊎ Among ms k)
unfolding place
place-Among n k [] = (λ a. a, λ a. a)
place-Among n k (m ∷ ms) = ground (arith, place-Among n k ms)

pub sort-Among : (k : ℕ) (ns : List ℕ) → Among (sort_numbers ns) k ↔ Among ns k
unfolding sort_numbers
sort-Among k [] = (λ a. a, λ a. a)
sort-Among k (n ∷ ns) = ground (arith, place-Among n k (sort_numbers ns), sort-Among k ns)

place-Rising : (b n : ℕ) (ms : List ℕ) → b ≤ n → Rising b ms → Rising b (place n ms)
unfolding place Rising
place-Rising b n [] le r = (le, tt)
place-Rising b n (m ∷ ms) le (h, r) = ground (arith, place-Rising m n ms)

pub sort-Rising : (ns : List ℕ) → Rising 0 (sort_numbers ns)
unfolding sort_numbers Rising
sort-Rising [] = tt
sort-Rising (n ∷ ns) = place-Rising 0 n (sort_numbers ns) (omega arith) (sort-Rising ns)
