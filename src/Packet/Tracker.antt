-- ===== src/Packet/Tracker.antt =====
-- `AckTracker` of src/transport/packet.rs: the packets that wait for an acknowledgment, and the
-- numbers that were received.
use dummy_h.Prelude.{
  ℕ, ◌+◌, ◌-◌, max, ◌≡◌, refl, sym, ap, inl, inr, Bool, true, Option, none, some, List, [], ◌∷◌,
  ◌++◌, arith, ltb, ◌==◌, if◌then◌else◌, ==_iff, ==_refl, Bool-cases, length, Among,
}
use dummy_h.Prelude.Table.{Table, get, insert}
use dummy_h.Packet.{Packet}
use dummy_h.Packet.Ack
use dummy_h.Packet.Ack.{AckFrame, is_acked, add_range}

pub record AckTracker : Type 0 where
  pub unacked_packets : Table Packet
  pub received_packets : List ℕ
  pub last_ack_sent : Option ℕ
  pub ack_delay_threshold : ℕ

-- The threshold is `Duration::from_millis(25)` in nanoseconds.
unfoldable pub new : AckTracker
new = record {
  unacked_packets = [];
  received_packets = [];
  last_ack_sent = none;
  ack_delay_threshold = 25000000;
}

unfoldable pub track_sent : AckTracker → Packet → AckTracker
track_sent t p =
    if p.ack_eliciting
    then record t { unacked_packets = insert t.unacked_packets p.header.packet_number p }
    else t

-- `while self.received_packets.len() > 1000 { self.received_packets.pop_front(); }`
unfoldable pub keep_recent : List ℕ → List ℕ
keep_recent [] = []
keep_recent (n ∷ ns) =
    let rest = keep_recent ns in if ltb 1000 (length (n ∷ ns)) then rest else n ∷ ns

unfoldable pub track_received : AckTracker → ℕ → AckTracker
unfolding keep_recent
track_received t n = record t { received_packets = keep_recent (t.received_packets ++ n ∷ []) }

-- The closure of `retain`: what stays, and what it pushes.
unfoldable pub split_acked : AckFrame → Table Packet → Table Packet × List Packet
split_acked f [] = ([], [])
split_acked f ((n, p) ∷ rest) =
    let (kept, acked) = split_acked f rest in
    if is_acked f n then (kept, p ∷ acked) else ((n, p) ∷ kept, acked)

unfoldable pub process_ack : AckTracker → AckFrame → AckTracker × List Packet
unfolding split_acked
process_ack t f =
    let (kept, acked) = split_acked f t.unacked_packets in
    (record t { unacked_packets = kept }, acked)

-- The packets older than the timeout; `duration_since` is 0 if the clock is behind.
unfoldable pub older_than : ℕ → ℕ → Table Packet → List Packet
older_than rto now [] = []
older_than rto now ((n, p) ∷ rest) =
    let lost = older_than rto now rest in if ltb rto (now - p.timestamp) then p ∷ lost else lost

unfoldable pub get_lost_packets : AckTracker → ℕ → ℕ → List Packet
unfolding older_than
get_lost_packets t rto now = older_than rto now t.unacked_packets

unfoldable pub unacked_count : AckTracker → ℕ
unacked_count t = length t.unacked_packets

-- `received_packets.iter().max()`, on a list that has an element.
unfoldable pub largest_of : ℕ → List ℕ → ℕ
largest_of n [] = n
largest_of n (m ∷ ms) = largest_of (max n m) ms

-- `sort_unstable`; equal numbers cannot be told apart.
unfoldable pub place : ℕ → List ℕ → List ℕ
place n [] = n ∷ []
place n (m ∷ ms) = let rest = place n ms in if ltb m n then m ∷ rest else n ∷ m ∷ ms

unfoldable pub sort_numbers : List ℕ → List ℕ
unfolding place
sort_numbers [] = []
sort_numbers (n ∷ ns) = place n (sort_numbers ns)

-- `if range_start != range_end { ack_frame.add_range(range_start, range_end) }`
unfoldable pub close_range : ℕ → ℕ → AckFrame → AckFrame
close_range start end f = if start == end then f else add_range f start end

-- The loop over the sorted numbers, and the final range.
unfoldable pub scan : ℕ → ℕ → List ℕ → AckFrame → AckFrame
unfolding close_range
scan start end [] f = close_range start end f
scan start end (n ∷ ns) f =
    let longer = scan start n ns f in
    let next = scan n n ns (close_range start end f) in if n == end + 1 then longer else next

unfoldable pub scan_sorted : List ℕ → AckFrame → AckFrame
unfolding scan
scan_sorted [] f = f
scan_sorted (n ∷ ns) f = scan n n ns f

-- `last_ack_sent.map(|last| last.elapsed() > …).unwrap_or(true)`
unfoldable pub should_ack : AckTracker → ℕ → Bool
should_ack t now = elim t.last_ack_sent [
  | none ↦ true
  | some last ↦ ltb t.ack_delay_threshold (now - last)
]

unfoldable pub ack_delay_at : AckTracker → ℕ → ℕ
ack_delay_at t now = elim t.last_ack_sent [ none ↦ 0 | some last ↦ now - last ]

-- `generate_ack` over the received numbers. The clock is read once for the whole call.
unfoldable pub ack_of : AckTracker → ℕ → List ℕ → AckTracker × Option AckFrame
unfolding should_ack ack_delay_at scan_sorted sort_numbers largest_of Ack.new
ack_of t now [] = (t, none)
ack_of t now (n ∷ ns) =
    if should_ack t now
    then (
      record t { last_ack_sent = some now },
      some (scan_sorted (sort_numbers (n ∷ ns)) (Ack.new (largest_of n ns) (ack_delay_at t now))),
    )
    else (t, none)

unfoldable pub generate_ack : AckTracker → ℕ → AckTracker × Option AckFrame
unfolding ack_of
generate_ack t now = ack_of t now t.received_packets

split-get :
    (f : AckFrame) (t : Table Packet) (n : ℕ)
    → get (split_acked f t).0 n ≡ (if is_acked f n then none else get t n)
unfolding get split_acked
split-get f [] n = ground arith
split-get f ((k, p) ∷ t) n = elim (Bool-cases (k == n)) [
  | inl e ↦
      let same : k ≡ n = (==_iff k n).0 e in
      rw (sym same, ==_refl k) (ground (arith, split-get f t k))
  | inr e ↦ ground (arith, split-get f t n)
]

split-length :
    (f : AckFrame) (t : Table Packet)
    → length (split_acked f t).0 + length (split_acked f t).1 ≡ length t
unfolding split_acked
split-length f [] = refl
split-length f ((k, p) ∷ t) = ground (arith, split-length f t)

split-Among :
    (f : AckFrame) (t : Table Packet) (n : ℕ) (p : Packet)
    → get t n ≡ some p
    → is_acked f n ≡ true
    → Among (split_acked f t).1 p
unfolding get split_acked
split-Among f [] n p h a = cc
split-Among f ((k, q) ∷ t) n p h a = elim (Bool-cases (k == n)) [
  | inl e ↦
      let same : k ≡ n = (==_iff k n).0 e in
      let eq : some q ≡ some p = rw e at h in
      let here : q ≡ p = ap (λ (o : Option Packet). elim o [ none ↦ q | some x ↦ x ]) eq in
      rw (same, a) (inl here)
  | inr e ↦
      let there = split-Among f t n p (rw e at h) a in
      elim (Bool-cases (is_acked f k)) [ inl b ↦ rw b (inr there) | inr b ↦ rw b there ]
]

-- An ACK frame takes exactly the packets with the numbers it acknowledges from those that wait, hands
-- them out, and each of the others stays; none is lost or made twice.
pub process_ack_lem :
    (t : AckTracker) (f : AckFrame)
    → let (u, acked) = process_ack t f in
      ((n : ℕ) → get u.unacked_packets n ≡ (if is_acked f n then none else get t.unacked_packets n))
      × ((n : ℕ) (p : Packet)
          → get t.unacked_packets n ≡ some p
          → is_acked f n ≡ true
          → Among acked p)
      × (unacked_count u + length acked ≡ unacked_count t)
unfolding process_ack unacked_count
process_ack_lem t f = (
  split-get f t.unacked_packets,
  split-Among f t.unacked_packets,
  split-length f t.unacked_packets,
)
