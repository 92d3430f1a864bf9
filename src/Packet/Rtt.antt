-- ===== src/Packet/Rtt.antt =====
-- `RttEstimator` and `LossDetector` of src/transport/packet.rs. A `Duration` is its number of
-- nanoseconds; its `*` and `/` by a `u32` are exact and floored, and no sum here overflows it.
use dummy_h.Prelude.{
  ℕ, ◌+◌, ◌-◌, ◌*◌, ◌/◌, ◌≤◌, min, max, ◌≡◌, refl, Option, none, some, List, [], ◌∷◌, arith, ltb,
  if◌then◌else◌, All,
}
use dummy_h.Prelude.Table.{Table}
use dummy_h.Packet.{Packet}
use dummy_h.Packet.Tracker.{AckTracker}

pub record RttEstimator : Type 0 where
  pub srtt : Option ℕ
  pub rttvar : ℕ
  pub min_rtt : Option ℕ

-- The variance starts at 250 milliseconds.
unfoldable pub new : RttEstimator
new = record { srtt = none; rttvar = 250000000; min_rtt = none }

-- `self.min_rtt.map(|min| min.min(rtt_sample)).unwrap_or(rtt_sample)`
abbrev pub min_with : Option ℕ → ℕ → ℕ
min_with none sample = sample
min_with (some least) sample = min least sample

-- `match self.srtt { … }`
abbrev pub smooth : RttEstimator → Option ℕ → ℕ → RttEstimator
smooth e none sample = record e { srtt = some sample; rttvar = sample / 2 }
smooth e (some srtt) sample =
    let rttvar_sample = if ltb srtt sample then sample - srtt else srtt - sample in
    record e { rttvar = (3 * e.rttvar + rttvar_sample) / 4; srtt = some ((7 * srtt + sample) / 8) }

unfoldable pub update : RttEstimator → ℕ → RttEstimator
update e sample = smooth (record e { min_rtt = some (min_with e.min_rtt sample) }) e.srtt sample

-- `self.srtt.unwrap_or(Duration::from_millis(500))`
abbrev pub srtt_or_initial : Option ℕ → ℕ
srtt_or_initial none = 500000000
srtt_or_initial (some srtt) = srtt

-- At least 200 milliseconds.
unfoldable pub rto_of : RttEstimator → ℕ
rto_of e = max (srtt_or_initial e.srtt + 4 * e.rttvar) 200000000

pub record LossDetector : Type 0 where
  pub rtt_estimator : RttEstimator
  pub rto : ℕ
  pub loss_timer : Option ℕ
  pub packet_threshold : ℕ
  pub time_threshold : ℕ

unfoldable pub new_detector : LossDetector
unfolding new
new_detector = record {
  rtt_estimator = new;
  rto = 500000000;
  loss_timer = none;
  packet_threshold = 3;
  time_threshold = 9000000;
}

unfoldable pub update_rtt : LossDetector → ℕ → LossDetector
unfolding update rto_of
update_rtt d sample =
    let e = update d.rtt_estimator sample in record d { rtt_estimator = e; rto = rto_of e }

-- `for (&packet_number, packet) in &ack_tracker.unacked_packets`
unfoldable pub numbers_older_than : ℕ → ℕ → Table Packet → List ℕ
numbers_older_than rto now [] = []
numbers_older_than rto now ((n, p) ∷ rest) =
    let lost = numbers_older_than rto now rest in
    if ltb rto (now - p.timestamp) then n ∷ lost else lost

unfoldable pub detect_loss : LossDetector → AckTracker → ℕ → List ℕ
unfolding numbers_older_than
detect_loss d t now = numbers_older_than d.rto now t.unacked_packets

-- The samples one after the other.
unfoldable pub samples : LossDetector → List ℕ → LossDetector
samples d [] = d
samples d (x ∷ xs) = samples (update_rtt d x) xs

abbrev pub Inside : ℕ → ℕ → Option ℕ → Type 0
Inside lo hi none = ⊥
Inside lo hi (some s) = (lo ≤ s) × (s ≤ hi)

-- Once there was a sample, the estimates lie between the least and the largest one.
record Between (lo hi : ℕ) (d : LossDetector) : Type 0 where
  smoothed : Inside lo hi d.rtt_estimator.srtt
  least : Inside lo hi d.rtt_estimator.min_rtt
  spread : d.rtt_estimator.rttvar ≤ hi
  timeout : d.rto ≡ rto_of d.rtt_estimator

update-Inside :
    (lo hi x v : ℕ) (srtt least : Option ℕ)
    → lo ≤ x
    → x ≤ hi
    → v ≤ hi
    → Inside lo hi srtt
    → Inside lo hi least
    → let e = update (record { srtt = srtt; rttvar = v; min_rtt = least }) x in
      Inside lo hi e.srtt × Inside lo hi e.min_rtt × (e.rttvar ≤ hi)
unfolding update
update-Inside lo hi x v none least l h small s m = absurd s
update-Inside lo hi x v (some s) none l h small b m = absurd m
update-Inside lo hi x v (some s) (some n) l h small b m = ground arith

first-Between : (lo hi x : ℕ) → lo ≤ x → x ≤ hi → Between lo hi (update_rtt new_detector x)
unfolding update_rtt new_detector update new
first-Between lo hi x l h = record {
  smoothed = (l, h);
  least = (l, h);
  spread = omega arith;
  timeout = refl;
}

more-Between :
    (lo hi x : ℕ) (d : LossDetector)
    → lo ≤ x
    → x ≤ hi
    → Between lo hi d
    → Between lo hi (update_rtt d x)
unfolding update_rtt
more-Between lo hi x d l h b =
    let e = d.rtt_estimator in
    let (s, m, v) =
      update-Inside lo hi x e.rttvar e.srtt e.min_rtt l h b.spread b.smoothed b.least in
    record { smoothed = s; least = m; spread = v; timeout = refl }

rto-le :
    (hi v : ℕ) (lo : ℕ) (s : Option ℕ)
    → Inside lo hi s
    → v ≤ hi
    → srtt_or_initial s + 4 * v ≤ 5 * hi
rto-le hi v lo none i h = absurd i
rto-le hi v lo (some s) i h = omega arith

samples-Between :
    (lo hi : ℕ) (xs : List ℕ) (d : LossDetector)
    → All (λ x. (lo ≤ x) × (x ≤ hi)) xs
    → Between lo hi d
    → Between lo hi (samples d xs)
unfolding samples
samples-Between lo hi [] d a b = b
samples-Between lo hi (x ∷ xs) d ((l, h), a) b =
    samples-Between lo hi xs (update_rtt d x) a (more-Between lo hi x d l h b)

-- After one sample or more, all between `lo` and `hi`, the smoothed and the least round-trip time
-- are between them too, and the timeout is at least 200 milliseconds and at most the larger of these
-- and five times `hi`.
pub samples_bounds :
    (lo hi x : ℕ) (xs : List ℕ)
    → All (λ y. (lo ≤ y) × (y ≤ hi)) (x ∷ xs)
    → let d = samples new_detector (x ∷ xs) in
      Inside lo hi d.rtt_estimator.srtt
      × Inside lo hi d.rtt_estimator.min_rtt
      × (200000000 ≤ d.rto)
      × (d.rto ≤ max 200000000 (5 * hi))
unfolding samples rto_of
samples_bounds lo hi x xs ((l, h), a) =
    let d = samples (update_rtt new_detector x) xs in
    let b = samples-Between lo hi xs (update_rtt new_detector x) a (first-Between lo hi x l h) in
    let e = d.rtt_estimator in
    let small = rto-le hi e.rttvar lo e.srtt b.smoothed b.spread in
    (b.smoothed, b.least, omega (arith, b.timeout), omega (arith, b.timeout, small))
