-- ===== src/Manager/Order.antt =====
-- The order in which `get_sendable_streams` of src/protocol/stream.rs names the streams.
use dummy_h.Prelude.{
  ℕ, ◌≤◌, ◌<◌, ◌≡◌, refl, ◌∙◌, ◌⊎◌, inl, inr, Bool, true, false, ◌&&◌, List, [], ◌∷◌, arith, ◌==◌,
  if◌then◌else◌, Bool-cases, All,
}
use dummy_h.Prelude.Table.{Table}
use dummy_h.Stream.{StreamState}
use dummy_h.Manager.{StreamManager, PriorityEntry}
use dummy_h.Manager.Schedule.{
  rank, goes_after, place, sort_entries, is_sendable, sendable_ids, get_sendable_streams,
}

-- `a` may come before `b`: its priority is higher, or the same and its weight is not smaller.
abbrev pub Before : PriorityEntry → PriorityEntry → Type 0
Before a b =
    (rank a.priority < rank b.priority)
    ⊎ ((rank a.priority ≡ rank b.priority) × (b.weight ≤ a.weight))

-- Every entry may come before all that follow it.
pub IsOrdered : List PriorityEntry → Type 0
IsOrdered [] = Unit {0}
IsOrdered (a ∷ bs) = All (Before a) bs × IsOrdered bs

goes_after-Before :
    (a b : PriorityEntry)
    → (goes_after a b ≡ true → Before b a) × (goes_after a b ≡ false → Before a b)
unfolding goes_after
goes_after-Before a b = ground arith

Before-trans : (a b c : PriorityEntry) → Before a b → Before b c → Before a c
Before-trans a b c h k = ground arith

after-All :
    (a b : PriorityEntry) (cs : List PriorityEntry)
    → Before a b
    → All (Before b) cs
    → All (Before a) cs
after-All a b [] h k = tt
after-All a b (c ∷ cs) h (k, ks) = (Before-trans a b c h k, after-All a b cs h ks)

place-All :
    (P : PriorityEntry → Type 0) (a : PriorityEntry) (bs : List PriorityEntry)
    → P a
    → All P bs
    → All P (place a bs)
unfolding place
place-All P a [] h k = (h, tt)
place-All P a (b ∷ bs) h (k, ks) = elim (Bool-cases (goes_after a b)) [
  | inl e ↦ rw e (k, place-All P a bs h ks)
  | inr e ↦ rw e (h, (k, ks))
]

place-IsOrdered :
    (a : PriorityEntry) (bs : List PriorityEntry) → IsOrdered bs → IsOrdered (place a bs)
unfolding place IsOrdered
place-IsOrdered a [] o = (tt, tt)
place-IsOrdered a (b ∷ bs) (o, os) = elim (Bool-cases (goes_after a b)) [
  | inl e ↦
      rw e (place-All (Before b) a bs ((goes_after-Before a b).0 e) o, place-IsOrdered a bs os)
  | inr e ↦ let h = (goes_after-Before a b).1 e in rw e ((h, after-All a b bs h o), (o, os))
]

sort-IsOrdered : (es : List PriorityEntry) → IsOrdered (sort_entries es)
unfolding sort_entries IsOrdered
sort-IsOrdered [] = tt
sort-IsOrdered (e ∷ es) = place-IsOrdered e (sort_entries es) (sort-IsOrdered es)

-- The entries whose stream can be sent on.
pub sendable : Table StreamState → List PriorityEntry → List PriorityEntry
sendable t [] = []
sendable t (e ∷ es) = let rest = sendable t es in if is_sendable t e then e ∷ rest else rest

pub ids : List PriorityEntry → List ℕ
ids [] = []
ids (e ∷ es) = e.stream_id ∷ ids es

ids-sendable :
    (t : Table StreamState) (es : List PriorityEntry) → sendable_ids t es ≡ ids (sendable t es)
unfolding sendable_ids sendable ids
ids-sendable t [] = refl
ids-sendable t (e ∷ es) = elim (Bool-cases (is_sendable t e)) [
  | inl h ↦ rw (h, ids-sendable t es) refl
  | inr h ↦ rw (h, ids-sendable t es) refl
]

sendable-All :
    (P : PriorityEntry → Type 0) (t : Table StreamState) (es : List PriorityEntry)
    → All P es
    → All P (sendable t es)
unfolding sendable
sendable-All P t [] h = tt
sendable-All P t (e ∷ es) (h, hs) = elim (Bool-cases (is_sendable t e)) [
  | inl x ↦ rw x (h, sendable-All P t es hs)
  | inr x ↦ rw x (sendable-All P t es hs)
]

sendable-IsOrdered :
    (t : Table StreamState) (es : List PriorityEntry) → IsOrdered es → IsOrdered (sendable t es)
unfolding sendable IsOrdered
sendable-IsOrdered t [] o = tt
sendable-IsOrdered t (e ∷ es) (o, os) = elim (Bool-cases (is_sendable t e)) [
  | inl x ↦ rw x (sendable-All (Before e) t es o, sendable-IsOrdered t es os)
  | inr x ↦ rw x (sendable-IsOrdered t es os)
]

abbrev pub same_rank : PriorityEntry → PriorityEntry → Bool
same_rank a b = rank a.priority == rank b.priority && a.weight == b.weight

-- The entries with the priority and the weight of `a`, in their order.
pub ranked : PriorityEntry → List PriorityEntry → List PriorityEntry
ranked a [] = []
ranked a (e ∷ es) = let rest = ranked a es in if same_rank a e then e ∷ rest else rest

-- An entry is not put behind one of its own rank.
swap_apart :
    (a e b : PriorityEntry) → goes_after e b ≡ true → same_rank a e ≡ true → same_rank a b ≡ false
unfolding goes_after
swap_apart a e b h k = ground arith

place-ranked :
    (t : Table StreamState) (a e : PriorityEntry) (bs : List PriorityEntry)
    → ranked a (sendable t (place e bs)) ≡ ranked a (sendable t (e ∷ bs))
unfolding place ranked sendable
place-ranked t a e [] = refl
place-ranked t a e (b ∷ bs) = ground (arith, place-ranked t a e bs, swap_apart a e b)

sort-ranked :
    (t : Table StreamState) (a : PriorityEntry) (es : List PriorityEntry)
    → ranked a (sendable t (sort_entries es)) ≡ ranked a (sendable t es)
unfolding sort_entries ranked sendable
sort-ranked t a [] = refl
sort-ranked t a (e ∷ es) = place-ranked t a e (sort_entries es) ∙ ground (arith, sort-ranked t a es)

-- `get_sendable_streams` names the streams of the queue's entries whose stream can send and has window
-- left, sorted by priority and then by falling weight; of each priority and weight these are exactly
-- the entries of the queue, in its order.
pub get_sendable_streams_lem :
    (m : StreamManager)
    → (es : List PriorityEntry) × (get_sendable_streams m ≡ ids es)
      × IsOrdered es
      × ((a : PriorityEntry) → ranked a es ≡ ranked a (sendable m.streams m.priority_queue))
unfolding get_sendable_streams
get_sendable_streams_lem m =
    let sorted = sort_entries m.priority_queue in
    (
      sendable m.streams sorted,
      ids-sendable m.streams sorted,
      sendable-IsOrdered m.streams sorted (sort-IsOrdered m.priority_queue),
      λ a. sort-ranked m.streams a m.priority_queue,
    )
