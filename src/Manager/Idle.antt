-- ===== src/Manager/Idle.antt =====
-- What `cleanup_idle_streams` in src/protocol/stream.rs removes and what it keeps.
use dummy_h.Prelude.{
  ℕ, ◌-◌, ◌≤◌, ◌≡◌, refl, ◌≢◌, ◌⊎◌, inl, inr, Bool, true, false, ◌||◌, none, some, List, [], ◌∷◌,
  arith, ◌==◌, if◌then◌else◌, ==_iff, Bool-cases, Among,
}
use dummy_h.Prelude.Table.{Table, get, remove, get-remove, IsMap}
use dummy_h.Flow.{remove_stream}
use dummy_h.Stream.{StreamState, StreamConfig, is_closed, is_idle_timeout}
use dummy_h.Manager.{StreamManager, PriorityEntry, new}
use dummy_h.Manager.Calls.{ManagerCall, run}
use dummy_h.Manager.Keyed.{run-IsKeyed}
use dummy_h.Manager.Schedule.{without_child}
use dummy_h.Manager.Cleanup.{
  to_remove, without_entry, forget_stream, forget_streams, cleanup_idle_streams,
}

-- The entries of the stream `k` in the queue.
abbrev pub entries_of : ℕ → List PriorityEntry → List PriorityEntry
entries_of k [] = []
entries_of k (e ∷ es) = if e.stream_id == k then e ∷ entries_of k es else entries_of k es

entries-without_entry :
    (es : List PriorityEntry) (i k : ℕ)
    → entries_of k (without_entry es i) ≡ (if i == k then [] else entries_of k es)
unfolding without_entry
entries-without_entry [] i k = ground arith
entries-without_entry (e ∷ es) i k = ground (arith, entries-without_entry es i k)

get-without_child :
    (t : Table (List ℕ)) (i k : ℕ) → get t k ≡ none → get (without_child t i) k ≡ none
unfolding get without_child
get-without_child [] i k h = refl
get-without_child ((j, children) ∷ t) i k h = ground (arith, get-without_child t i k)

-- The stream `k` is in none of the three maps and not in the queue, and has no dependants.
pub record IsForgotten (m : StreamManager) (k : ℕ) : Type 0 where
  pub no_stream : get m.streams k ≡ none
  pub no_send_window : get m.flow_controller.stream_send_windows k ≡ none
  pub no_recv_window : get m.flow_controller.stream_recv_windows k ≡ none
  pub no_entry : entries_of k m.priority_queue ≡ []
  pub no_dependants : get m.dependency_tree k ≡ none

-- From `m` to `n` the stream `k` keeps its state, its windows and its entries in the queue.
pub record IsKept (m n : StreamManager) (k : ℕ) : Type 0 where
  pub same_stream : get n.streams k ≡ get m.streams k
  pub same_send :
      get n.flow_controller.stream_send_windows k ≡ get m.flow_controller.stream_send_windows k
  pub same_recv :
      get n.flow_controller.stream_recv_windows k ≡ get m.flow_controller.stream_recv_windows k
  pub same_entries : entries_of k n.priority_queue ≡ entries_of k m.priority_queue

forget-IsForgotten :
    (m : StreamManager) (i k : ℕ) → (i ≡ k) ⊎ IsForgotten m k → IsForgotten (forget_stream m i) k
unfolding forget_stream remove_stream
forget-IsForgotten m i k h = ground (
  arith,
  get-remove m.streams i k,
  get-remove m.flow_controller.stream_send_windows i k,
  get-remove m.flow_controller.stream_recv_windows i k,
  get-remove m.dependency_tree i k,
  get-without_child (remove m.dependency_tree i) i k,
  entries-without_entry m.priority_queue i k,
)

forget-IsKept :
    (l m : StreamManager) (i k : ℕ) → i ≢ k → IsKept l m k → IsKept l (forget_stream m i) k
unfolding forget_stream remove_stream
forget-IsKept l m i k d h = ground (
  arith,
  get-remove m.streams i k,
  get-remove m.flow_controller.stream_send_windows i k,
  get-remove m.flow_controller.stream_recv_windows i k,
  entries-without_entry m.priority_queue i k,
)

stays-IsForgotten :
    (m : StreamManager) (ks : List ℕ) (k : ℕ)
    → IsForgotten m k
    → IsForgotten (forget_streams m ks) k
unfolding forget_streams
stays-IsForgotten m [] k f = f
stays-IsForgotten m (i ∷ ks) k f =
    stays-IsForgotten (forget_stream m i) ks k (forget-IsForgotten m i k (inr f))

forget_all-IsForgotten :
    (m : StreamManager) (ks : List ℕ) (k : ℕ) → Among ks k → IsForgotten (forget_streams m ks) k
unfolding forget_streams
forget_all-IsForgotten m [] k h = absurd h
forget_all-IsForgotten m (i ∷ ks) k (inl e) =
    stays-IsForgotten (forget_stream m i) ks k (forget-IsForgotten m i k (inl e))
forget_all-IsForgotten m (i ∷ ks) k (inr h) = forget_all-IsForgotten (forget_stream m i) ks k h

forget_all-IsKept :
    (l m : StreamManager) (ks : List ℕ) (k : ℕ)
    → ¬ Among ks k
    → IsKept l m k
    → IsKept l (forget_streams m ks) k
unfolding forget_streams
forget_all-IsKept l m [] k h kept = kept
forget_all-IsKept l m (i ∷ ks) k h kept =
    forget_all-IsKept l (forget_stream m i) ks k (λ a. h (inr a))
      (forget-IsKept l m i k (λ e. h (inl e)) kept)

-- Whether a cleanup at `now` takes the stream.
abbrev pub is_due : StreamManager → ℕ → StreamState → Bool
is_due m now s = is_closed s || is_idle_timeout s m.idle_timeout now

listed :
    (timeout now : ℕ) (t : Table StreamState) (k : ℕ) (s : StreamState)
    → get t k ≡ some s
    → (is_closed s || is_idle_timeout s timeout now) ≡ true
    → Among (to_remove timeout now t) k
unfolding get to_remove
listed timeout now [] k s h o = cc
listed timeout now ((j, u) ∷ t) k s h o = ground (arith, listed timeout now t k s)

unlisted :
    (timeout now : ℕ) (t : Table StreamState) (k : ℕ)
    → get t k ≡ none
    → ¬ Among (to_remove timeout now t) k
unfolding get to_remove
unlisted timeout now [] k h = λ a. a
unlisted timeout now ((j, u) ∷ t) k h = ground (arith, unlisted timeout now t k)

live_unlisted :
    (timeout now : ℕ) (t : Table StreamState) (k : ℕ) (s : StreamState)
    → IsMap t
    → get t k ≡ some s
    → (is_closed s || is_idle_timeout s timeout now) ≡ false
    → ¬ Among (to_remove timeout now t) k
unfolding get to_remove
live_unlisted timeout now [] k s u h o = cc
live_unlisted timeout now ((j, v) ∷ t) k s (new, u) h o =
    ground (arith, live_unlisted timeout now t k s u, unlisted timeout now t k, ==_iff j k)

-- What a cleanup from `m` to `n` does to the stream `k`, by whether it takes the stream.
abbrev pub Fate : Bool → StreamManager → StreamManager → ℕ → Type 0
Fate true m n k = IsForgotten n k
Fate false m n k = IsKept m n k

-- For a table that holds each identifier once.
cleanup_map :
    (m : StreamManager) (now k : ℕ) (s : StreamState)
    → 30000000000 ≤ now - m.last_cleanup
    → IsMap m.streams
    → get m.streams k ≡ some s
    → Fate (is_due m now s) m (cleanup_idle_streams m now) k
unfolding cleanup_idle_streams
cleanup_map m now k s due map known =
    let timeout = m.idle_timeout in
    let taken = to_remove timeout now m.streams in
    elim (Bool-cases (is_due m now s)) [
      | inl e ↦
          let gone = forget_all-IsForgotten m taken k (listed timeout now m.streams k s known e) in
          rw e (ground (arith, gone))
      | inr e ↦
          let live = live_unlisted timeout now m.streams k s map known e in
          let same : IsKept m m k = record {
            same_stream = refl;
            same_send = refl;
            same_recv = refl;
            same_entries = refl;
          } in
          rw e (ground (arith, forget_all-IsKept m m taken k live same))
    ]

-- Whatever was called on a manager that was new, `cleanup_idle_streams` thirty seconds or more after
-- the last cleanup forgets every stream of the table that is closed or was idle for longer than the
-- timeout: its state, its windows, its entries in the queue and its list of dependants are gone. Every
-- other stream of the table keeps its state, its windows and its entries.
pub cleanup_idle_streams_lem :
    {H : Type 0} (config : StreamConfig) (is_client : Bool) (made : ℕ) (cs : List (ManagerCall H))
    (now k : ℕ) (s : StreamState)
    → let m = run (new config is_client made) cs in
      30000000000 ≤ now - m.last_cleanup
      → get m.streams k ≡ some s
      → Fate (is_due m now s) m (cleanup_idle_streams m now) k
cleanup_idle_streams_lem config is_client made cs now k s due known =
    let m = run (new config is_client made) cs in
    cleanup_map m now k s due (run-IsKeyed config is_client made cs).0 known
