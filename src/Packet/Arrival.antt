-- ===== src/Packet/Arrival.antt =====
-- The order of arrival and `generate_ack` of src/transport/packet.rs.
use dummy_h.Prelude.{
  ℕ, ◌+◌, ◌≤◌, max, ◌≡◌, refl, sym, ap, ◌∙◌, inl, inr, Option, List, [], ◌∷◌, ◌++◌, append-nil,
  append_assoc, arith, length, Among, length-append,
}
use mathlib.Core.Quot
use mathlib.Core.Quot.{Quot}
use dummy_h.Packet.Ack.{AckFrame}
use dummy_h.Packet.Bag.{
  SameItems, Among-same, SameItems-sort, length-same, count-append, Bag, put_all, put_all-mk,
}
use dummy_h.Packet.Runs.{largest-Among}
use dummy_h.Packet.Tracker.{
  AckTracker, largest_of, sort_numbers, should_ack, ack_of, generate_ack, ack_delay_at, keep_recent,
  track_received,
}

largest-le : (n k : ℕ) (ms : List ℕ) → Among (n ∷ ms) k → k ≤ largest_of n ms
unfolding largest_of
largest-le n k [] (inl e) = omega arith
largest-le n k [] (inr a) = absurd a
largest-le n k (m ∷ ms) (inl e) = omega (arith, largest-le (max n m) (max n m) ms (inl refl))
largest-le n k (m ∷ ms) (inr (inl e)) = omega (arith, largest-le (max n m) (max n m) ms (inl refl))
largest-le n k (m ∷ ms) (inr (inr a)) = largest-le (max n m) k ms (inr a)

largest_same :
    (n m : ℕ) (ns ms : List ℕ) → SameItems (n ∷ ns) (m ∷ ms) → largest_of n ns ≤ largest_of m ms
largest_same n m ns ms same =
    largest-le m (largest_of n ns) ms
      (Among-same (largest_of n ns) (n ∷ ns) (m ∷ ms) same (largest-Among n ns))

module _ (t : AckTracker) (now : ℕ) where
  -- The tracker if it had received these packets.
  abbrev pub having : List ℕ → AckTracker
  having ns = record t { received_packets = ns }

  ack-same :
      (xs ys ns ms : List ℕ)
      → SameItems ns ms
      → (ack_of (having xs) now ns).1 ≡ (ack_of (having ys) now ms).1
  unfolding ack_of should_ack ack_delay_at
  ack-same xs ys [] [] same = refl
  ack-same xs ys [] (m ∷ ms) same = absurd (ground (arith, same m))
  ack-same xs ys (n ∷ ns) [] same = absurd (ground (arith, same n))
  ack-same xs ys (n ∷ ns) (m ∷ ms) same =
      let sorted : sort_numbers (n ∷ ns) ≡ sort_numbers (m ∷ ms) =
        SameItems-sort (n ∷ ns) (m ∷ ms) same in
      let top : largest_of n ns ≡ largest_of m ms =
        omega (arith, largest_same n m ns ms same, largest_same m n ms ns (λ k. sym (same k))) in
      rw (sorted, top) (ground arith)

  -- The ACK frame that is made, if any, does not depend on the order in which the packets have
  -- arrived.
  pub generate_ack-order :
      (ns ms : List ℕ)
      → SameItems ns ms
      → (generate_ack (having ns) now).1 ≡ (generate_ack (having ms) now).1
  unfolding generate_ack
  generate_ack-order ns ms same = ack-same ns ms ns ms same

AckFrame-set : IsSet (Option AckFrame)
AckFrame-set = hlevel

-- The frame as a function of the bag of received numbers.
pub ack_of_bag : AckTracker → ℕ → Bag → Option AckFrame
ack_of_bag t now =
    Quot.lift AckFrame-set (λ ns. (generate_ack (having t now ns) now).1) (generate_ack-order t now)

-- Packets arrive one after the other.
pub receive_all : AckTracker → List ℕ → AckTracker
receive_all t [] = t
receive_all t (n ∷ ns) = receive_all (track_received t n) ns

recent_kept : (ns : List ℕ) → length ns ≤ 1000 → keep_recent ns ≡ ns
unfolding keep_recent
recent_kept [] h = refl
recent_kept (n ∷ ns) h = ground arith

receive_all-having :
    (t : AckTracker) (now : ℕ) (rs ns : List ℕ)
    → length rs + length ns ≤ 1000
    → receive_all (having t now rs) ns ≡ having t now (rs ++ ns)
unfolding receive_all track_received
receive_all-having t now rs [] h = ap (having t now) (sym (append-nil rs))
receive_all-having t now rs (n ∷ ns) h =
    let one : length (rs ++ n ∷ []) ≡ length rs + 1 = length-append rs (n ∷ []) in
    rw (recent_kept (rs ++ n ∷ []) (omega arith)) (
      receive_all-having t now (rs ++ n ∷ []) ns (omega arith)
      ∙ ap (having t now) (append_assoc rs (n ∷ []) ns))

-- The numbers that a tracker has received, without their order.
abbrev pub bag_of : AckTracker → Bag
bag_of t = Quot.mk t.received_packets

-- As long as a tracker keeps all the numbers it has received, which is up to a thousand: to receive a
-- packet is to put its number into the bag, the ACK frame is a function of the bag, and so it does not
-- depend on the order in which the packets have arrived.
pub generate_ack_refines :
    (t : AckTracker) (now : ℕ) (ns ms : List ℕ)
    → SameItems ns ms
    → length t.received_packets + length ns ≤ 1000
    → ((generate_ack (receive_all t ns) now).1 ≡ ack_of_bag t now (put_all ns (bag_of t)))
      × ((generate_ack (receive_all t ms) now).1 ≡ ack_of_bag t now (put_all ns (bag_of t)))
generate_ack_refines t now ns ms same h =
    (arrived ns (λ k. refl) h, arrived ms same (omega (arith, length-same ns ms same)))
  where
    rs : List ℕ
    rs = t.received_packets

    arrived :
        (os : List ℕ)
        → SameItems ns os
        → length rs + length os ≤ 1000
        → (generate_ack (receive_all t os) now).1 ≡ ack_of_bag t now (put_all ns (bag_of t))
    arrived os k l =
        rw (receive_all-having t now rs os l, put_all-mk ns rs)
          (unfold ack_of_bag in
            generate_ack-order t now (rs ++ os) (ns ++ rs)
              (λ j. omega (arith, count-append j rs os, count-append j ns rs, k j)))
