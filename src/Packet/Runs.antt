-- ===== src/Packet/Runs.antt =====
-- What the frames of `generate_ack` in src/transport/packet.rs acknowledge.
use dummy_h.Prelude.{
  ℕ, ◌+◌, ◌-◌, ◌≤◌, ◌<◌, max, ◌≡◌, refl, sym, ap, ◌∙◌, subst, ◌↔◌, ◌⊎◌, inl, inr, true, some, List,
  [], ◌∷◌, arith, ◌==◌, ==_iff, Bool-cases, Among,
}
use dummy_h.Packet.Ack
use dummy_h.Packet.Ack.{AckFrame, is_acked, add_range, any_contains, contains}
use dummy_h.Packet.AckTrip.{is_acked-add_range}
use dummy_h.Packet.Sorted.{Rising, Rising-Among, sort-Among, sort-Rising}
use dummy_h.Packet.Tracker.{
  AckTracker, largest_of, sort_numbers, close_range, scan, scan_sorted, should_ack, ack_of,
  generate_ack, ack_delay_at,
}

close-keeps :
    (start end k : ℕ) (f : AckFrame)
    → is_acked f k ≡ true
    → is_acked (close_range start end f) k ≡ true
unfolding close_range
close-keeps start end k f h = ground (arith, (is_acked-add_range f start end k).1)

close-covers :
    (start end k : ℕ) (f : AckFrame)
    → start < end
    → start ≤ k
    → k ≤ end
    → is_acked (close_range start end f) k ≡ true
unfolding close_range
close-covers start end k f lt lo hi = ground (arith, (is_acked-add_range f start end k).1)

-- The number before or the number after.
abbrev pub Neighbour : List ℕ → ℕ → Type 0
Neighbour ns k = Among ns (k + 1) ⊎ ((0 < k) × Among ns (k - 1))

close_sound :
    (ns : List ℕ) (start end k : ℕ) (f : AckFrame)
    → ((i : ℕ) → start ≤ i → i ≤ end → Among ns i)
    → is_acked (close_range start end f) k ≡ true
    → (is_acked f k ≡ true) ⊎ (Among ns k × Neighbour ns k)
unfolding close_range
close_sound ns start end k f all h = elim (Bool-cases (start == end)) [
  | inl e ↦ inl (rw e at h)
  | inr e ↦ elim ((is_acked-add_range f start end k).0 (rw e at h)) [
    | inl old ↦ inl old
    | inr (lo, hi) ↦ elim (Bool-cases (k == end)) [
      | inl last ↦ inr (all k lo hi, inr (ground arith, all (k - 1) (ground arith) (omega arith)))
      | inr inside ↦ inr (all k lo hi, inl (all (k + 1) (omega arith) (ground arith)))
    ]
  ]
]

-- Where the open range and what follows are received numbers, nothing is acknowledged but what was
-- before and received numbers with a neighbour.
scan_sound :
    (all : List ℕ) (start end k : ℕ) (ns : List ℕ) (f : AckFrame)
    → ((i : ℕ) → start ≤ i → i ≤ end → Among all i)
    → ((i : ℕ) → Among ns i → Among all i)
    → is_acked (scan start end ns f) k ≡ true
    → (is_acked f k ≡ true) ⊎ (Among all k × Neighbour all k)
unfolding scan
scan_sound all start end k [] f open_range more h = close_sound all start end k f open_range h
scan_sound all start end k (n ∷ ns) f open_range more h = elim (Bool-cases (n == end + 1)) [
  | inl e ↦
      scan_sound all start n k ns f
        (λ i lo hi. elim (Bool-cases (i == n)) [
          | inl last ↦ more i (inl (sym ((==_iff i n).0 last)))
          | inr inside ↦ open_range i lo (ground arith)
        ])
        (λ i a. more i (inr a)) (rw e at h)
  | inr e ↦
      elim (scan_sound all n n k ns (close_range start end f)
        (λ i lo hi. more i (inl (omega arith))) (λ i a. more i (inr a)) (rw e at h)) [
          | inl old ↦ close_sound all start end k f open_range old
          | inr new ↦ inr new
        ]
]

scan-keeps :
    (start end k : ℕ) (ns : List ℕ) (f : AckFrame)
    → is_acked f k ≡ true
    → is_acked (scan start end ns f) k ≡ true
unfolding scan
scan-keeps start end k [] f h = close-keeps start end k f h
scan-keeps start end k (n ∷ ns) f h = ground (
  arith,
  scan-keeps start n k ns f h,
  scan-keeps n n k ns (close_range start end f),
  close-keeps start end k f h,
)

scan-covers :
    (start end k : ℕ) (ns : List ℕ) (f : AckFrame)
    → start < end
    → start ≤ k
    → k ≤ end
    → is_acked (scan start end ns f) k ≡ true
unfolding scan
scan-covers start end k [] f lt lo hi = close-covers start end k f lt lo hi
scan-covers start end k (n ∷ ns) f lt lo hi = ground (
  arith,
  scan-covers start n k ns f,
  scan-keeps n n k ns (close_range start end f),
  close-covers start end k f lt lo hi,
)

-- Two numbers that follow each other are both acknowledged.
scan-pairs :
    (start end k j : ℕ) (ns : List ℕ) (f : AckFrame)
    → start ≤ end
    → Rising end ns
    → Among (end ∷ ns) k
    → Among (end ∷ ns) (k + 1)
    → (j ≡ k) ⊎ (j ≡ k + 1)
    → is_acked (scan start end ns f) j ≡ true
unfolding scan Rising
scan-pairs start end k j [] f le r a b p = absurd (ground arith)
scan-pairs start end k j (n ∷ ns) f le (h, r) (inl e) (inl e') p = absurd (omega arith)
scan-pairs start end k j (n ∷ ns) f le (h, r) (inr a) (inl e) p =
    absurd (omega (arith, Rising-Among n k (n ∷ ns) (omega arith, r) a))
scan-pairs start end k j (n ∷ ns) f le (h, r) (inr a) (inr b) p = elim (Bool-cases (n == end + 1)) [
  | inl e ↦ rw e (scan-pairs start n k j ns f (omega arith) r a b p)
  | inr e ↦ rw e (scan-pairs n n k j ns (close_range start end f) (omega arith) r a b p)
]
scan-pairs start end k j (n ∷ ns) f le (h, r) (inl at) (inr b) p =
    let near : n ≤ k + 1 = Rising-Among n (k + 1) (n ∷ ns) (omega arith, r) b in
    elim (Bool-cases (n == end + 1)) [
      | inl e ↦ rw e (scan-covers start n j ns f (ground arith) (ground arith) (ground arith))
      | inr e ↦
          let same : n ≡ k = ground arith in
          rw e (scan-pairs n n k j ns (close_range start end f) (omega arith) r (inl same) b p)
    ]

sorted-pairs :
    (k j : ℕ) (ns : List ℕ) (f : AckFrame)
    → Rising 0 ns
    → Among ns k
    → Among ns (k + 1)
    → (j ≡ k) ⊎ (j ≡ k + 1)
    → is_acked (scan_sorted ns f) j ≡ true
unfolding scan_sorted Rising
sorted-pairs k j [] f r a b p = absurd a
sorted-pairs k j (n ∷ ns) f (z, r) a b p = scan-pairs n n k j ns f (omega arith) r a b p

sorted_sound :
    (all : List ℕ) (k : ℕ) (ns : List ℕ) (f : AckFrame)
    → ((i : ℕ) → Among ns i → Among all i)
    → is_acked (scan_sorted ns f) k ≡ true
    → (is_acked f k ≡ true) ⊎ (Among all k × Neighbour all k)
unfolding scan_sorted
sorted_sound all k [] f more h = inl h
sorted_sound all k (n ∷ ns) f more h =
    scan_sound all n n k ns f (λ i lo hi. more i (inl (omega arith))) (λ i a. more i (inr a)) h

sorted-keeps :
    (k : ℕ) (ns : List ℕ) (f : AckFrame)
    → is_acked f k ≡ true
    → is_acked (scan_sorted ns f) k ≡ true
unfolding scan_sorted
sorted-keeps k [] f h = h
sorted-keeps k (n ∷ ns) f h = scan-keeps n n k ns f h

new-acked : (n d k : ℕ) → (is_acked (Ack.new n d) k ≡ true) ↔ (n ≡ k)
unfolding is_acked any_contains contains Ack.new
new-acked n d k = ground arith

pub largest-Among : (n : ℕ) (ms : List ℕ) → Among (n ∷ ms) (largest_of n ms)
unfolding largest_of
largest-Among n [] = inl refl
largest-Among n (m ∷ ms) = ground (arith, largest-Among (max n m) ms)

-- The frame that is made of the received numbers.
made : ℕ → List ℕ → ℕ → AckFrame
made n ns delay = scan_sorted (sort_numbers (n ∷ ns)) (Ack.new (largest_of n ns) delay)

made-acked :
    (n : ℕ) (ns : List ℕ) (delay k : ℕ)
    → (is_acked (made n ns delay) k ≡ true)
      ↔ (Among (n ∷ ns) k × ((k ≡ largest_of n ns) ⊎ Neighbour (n ∷ ns) k))
unfolding made
made-acked n ns delay k = (
  λ h. elim (sorted_sound (n ∷ ns) k sorted first (λ i. (sort-Among i (n ∷ ns)).0) h) [
    | inl old ↦
        let top = (new-acked (largest_of n ns) delay k).0 old in
        (subst (Among (n ∷ ns)) top (largest-Among n ns), inl (sym top))
    | inr (a, b) ↦ (a, inr b)
  ],
  λ (a, b). elim b [
    | inl top ↦ sorted-keeps k sorted first ((new-acked (largest_of n ns) delay k).1 (sym top))
    | inr (inl after) ↦
        sorted-pairs k k sorted first rising (back k a) (back (k + 1) after) (inl refl)
    | inr (inr (pos, before)) ↦
        let e : k - 1 + 1 ≡ k = omega arith in
        sorted-pairs (k - 1) k sorted first rising (back (k - 1) before) (back (k - 1 + 1) (rw e a))
          (inr (sym e))
  ],
)
  where
    sorted : List ℕ
    sorted = sort_numbers (n ∷ ns)

    first : AckFrame
    first = Ack.new (largest_of n ns) delay

    rising : Rising 0 (sort_numbers (n ∷ ns))
    rising = sort-Rising (n ∷ ns)

    back : (i : ℕ) → Among (n ∷ ns) i → Among (sort_numbers (n ∷ ns)) i
    back i = (sort-Among i (n ∷ ns)).1

ack_of-made :
    (t : AckTracker) (now n : ℕ) (ns : List ℕ) (f : AckFrame)
    → (ack_of t now (n ∷ ns)).1 ≡ some f
    → made n ns (ack_delay_at t now) ≡ f
unfolding ack_of made
ack_of-made t now n ns f g = elim (Bool-cases (should_ack t now)) [
  | inl e ↦ cc (rw e at g)
  | inr e ↦ cc (rw e at g)
]

-- A frame that `generate_ack` makes acknowledges a number exactly if it was received and is the
-- largest received one or has a received neighbour.
pub generate_ack-acked :
    (t : AckTracker) (now n : ℕ) (ns : List ℕ) (f : AckFrame) (k : ℕ)
    → t.received_packets ≡ n ∷ ns
    → (generate_ack t now).1 ≡ some f
    → (is_acked f k ≡ true) ↔ (Among (n ∷ ns) k × ((k ≡ largest_of n ns) ⊎ Neighbour (n ∷ ns) k))
unfolding generate_ack
generate_ack-acked t now n ns f k e g =
    let g' : (ack_of t now (n ∷ ns)).1 ≡ some f =
      sym (ap (λ (r : List ℕ). (ack_of t now r).1) e) ∙ g in
    rw (← ack_of-made t now n ns f g') (made-acked n ns (ack_delay_at t now) k)
