-- ===== src/Prelude/Table.antt =====
-- A `HashMap` with a numeric key as an association list. Its order stands for the map's iteration
-- order, which the library leaves open.
use Prim.Native.Nat.{ℕ, suc, ◌≤◌}
use mathlib.Core.Path.{◌≡◌, refl, sym, ap, subst, subst₂}
use mathlib.Core.Option.{Option, none, some}
use mathlib.Core.List.{List, [], ◌∷◌}
use mathlib.Core.Logic.{inl, inr}
use native.Mathlib.Omega.{arith}
use dummy_h.Prelude.Tests.{◌==◌, if◌then◌else◌, ==_iff, Bool-cases}
use dummy_h.Prelude.Lists.{length, All}

abbrev pub Table {ℓ} : Type ℓ → Type ℓ
Table V = List (ℕ × V)

module _ {ℓ} {V : Type ℓ} where
  unfoldable pub get : Table V → ℕ → Option V
  get [] k = none
  get ((j, v) ∷ t) k = if j == k then some v else get t k

  -- A new key goes to the end.
  unfoldable pub insert : Table V → ℕ → V → Table V
  insert [] k v = (k, v) ∷ []
  insert ((j, w) ∷ t) k v = if j == k then (j, v) ∷ t else (j, w) ∷ insert t k v

  unfoldable pub remove : Table V → ℕ → Table V
  remove [] k = []
  remove ((j, w) ∷ t) k = let rest = remove t k in if j == k then rest else (j, w) ∷ rest

  -- No key stands twice.
  abbrev pub IsMap : Table V → Type ℓ
  IsMap [] = Unit
  IsMap ((j, v) ∷ t) = (get t j ≡ none) × IsMap t

  pub get-insert :
      (t : Table V) (k j : ℕ) (v : V) → get (insert t k v) j ≡ (if k == j then some v else get t j)
  unfolding get insert
  get-insert [] k j v = refl
  get-insert ((i, w) ∷ t) k j v = ground (arith, get-insert t k j v)

  pub get-remove : (t : Table V) (k j : ℕ) → get (remove t k) j ≡ (if k == j then none else get t j)
  unfolding get remove
  get-remove [] k j = ground arith
  get-remove ((i, w) ∷ t) k j = ground (arith, get-remove t k j)

  pub insert-IsMap : (t : Table V) (k : ℕ) (v : V) → IsMap t → IsMap (insert t k v)
  unfolding get insert
  insert-IsMap [] k v u = (refl, tt)
  insert-IsMap ((j, w) ∷ t) k v (new, u) =
      ground (arith, insert-IsMap t k v u, get-insert t k j v, ==_iff j k, ==_iff k j)

  pub remove-IsMap : (t : Table V) (k : ℕ) → IsMap t → IsMap (remove t k)
  unfolding get remove
  remove-IsMap [] k u = tt
  remove-IsMap ((j, w) ∷ t) k (new, u) = ground (arith, remove-IsMap t k u, get-remove t k j)

  -- An insertion adds an entry exactly where the key is new.
  pub length-insert_new :
      (t : Table V) (k : ℕ) (v : V) → get t k ≡ none → length (insert t k v) ≡ suc (length t)
  unfolding get insert
  length-insert_new [] k v h = refl
  length-insert_new ((j, w) ∷ t) k v h = ground (arith, length-insert_new t k v)

  pub length-insert_known :
      (t : Table V) (k : ℕ) (v w : V) → get t k ≡ some w → length (insert t k v) ≡ length t
  unfolding get insert
  length-insert_known [] k v w h = cc
  length-insert_known ((j, u) ∷ t) k v w h = ground (arith, length-insert_known t k v w)

  pub length-insert_le : (t : Table V) (k : ℕ) (v : V) → length (insert t k v) ≤ suc (length t)
  unfolding insert
  length-insert_le [] k v = omega arith
  length-insert_le ((j, u) ∷ t) k v = ground (arith, length-insert_le t k v)

  pub length-remove : (t : Table V) (k : ℕ) → length (remove t k) ≤ length t
  unfolding remove
  length-remove [] k = omega arith
  length-remove ((j, w) ∷ t) k = ground (arith, length-remove t k)

-- A property of the entries is kept.
module _ {V : Type 0} (P : ℕ → V → Type 0) where
  abbrev Entries : Table V → Type 0
  Entries t = All (λ (e : ℕ × V). P e.0 e.1) t

  pub All-insert : (t : Table V) (k : ℕ) (v : V) → Entries t → P k v → Entries (insert t k v)
  unfolding insert
  All-insert [] k v a h = (h, tt)
  All-insert ((j, w) ∷ t) k v (a, b) h = elim (Bool-cases (j == k)) [
    | inl e ↦ let same : k ≡ j = sym ((==_iff j k).0 e) in rw e (subst (λ i. P i v) same h, b)
    | inr e ↦ rw e (a, All-insert t k v b h)
  ]

  pub All-remove : (t : Table V) (k : ℕ) → Entries t → Entries (remove t k)
  unfolding remove
  All-remove [] k a = tt
  All-remove ((j, w) ∷ t) k (a, b) = elim (Bool-cases (j == k)) [
    | inl e ↦ rw e (All-remove t k b)
    | inr e ↦ rw e (a, All-remove t k b)
  ]

  pub All-get : (t : Table V) (k : ℕ) (v : V) → Entries t → get t k ≡ some v → P k v
  unfolding get
  All-get [] k v a h = cc
  All-get ((j, w) ∷ t) k v (a, b) h = elim (Bool-cases (j == k)) [
    | inl e ↦
        let same : j ≡ k = (==_iff j k).0 e in
        let known : some w ≡ some v = rw e at h in
        let eq : w ≡ v = ap (λ (o : Option V). elim o [ none ↦ w | some u ↦ u ]) known in
        subst₂ P same eq a
    | inr e ↦ All-get t k v b (rw e at h)
  ]
