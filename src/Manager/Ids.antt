-- ===== src/Manager/Ids.antt =====
-- The identifiers that `create_stream` of src/protocol/stream.rs gives out.
use dummy_h.Prelude.{
  ℕ, ◌%◌, ◌≡◌, refl, inl, inr, Bool, true, false, List, [], ◌∷◌, arith, leb, Bool-cases, length,
}
use dummy_h.Prelude.Bits.{and_03}
use dummy_h.Frame.{H3Frame}
use dummy_h.Error.{ok, err}
use dummy_h.Stream.{
  StreamConfig, StreamType, client_bidirectional, server_bidirectional, client_unidirectional,
  server_unidirectional, from_id,
}
use dummy_h.Stream.{StreamState}
use dummy_h.Stream
use dummy_h.Manager.{
  StreamManager, Call, new, client_id, server_id, allocate, register, create_as, create_stream,
  close_stream, reset_stream, process_frame, accept_stream, accept_as, ensure_stream, deliver,
  set_max_concurrent_streams, set_idle_timeout, open_state, can_accept_stream,
}
use dummy_h.Manager.Windows.{
  reserve_send_window, process_received_data, update_send_window, update_recv_window,
}
use dummy_h.Manager.Schedule.{
  StreamSchedule, create_stream_with_priority, add_priority, update_stream_priority,
}
use dummy_h.Manager.Cleanup.{
  cleanup_closed_streams, cleanup_idle_streams, forget_streams, forget_stream, to_remove,
}
use dummy_h.Manager.Calls.{
  ManagerCall, creates, creates_with, accepts, receives, cleans_idle, call_stream, step, run,
}

-- The counter that this side uses is a multiple of four.
pub record CountsByFour (m : StreamManager) : Type 0 where
  pub client : m.is_client ≡ true → m.next_client_stream_id % 4 ≡ 0
  pub server : m.is_client ≡ false → m.next_server_stream_id % 4 ≡ 0

-- What the calls other than the creation of a stream leave alone.
pub record SameIds (m n : StreamManager) : Type 0 where
  pub side : n.is_client ≡ m.is_client
  pub next_client : n.next_client_stream_id ≡ m.next_client_stream_id
  pub next_server : n.next_server_stream_id ≡ m.next_server_stream_id

kept : (m n : StreamManager) → SameIds m n → CountsByFour m → CountsByFour n
kept m n s b = ground arith

register-SameIds : (m : StreamManager) (id : ℕ) (s : StreamState) → SameIds m (register m id s).0
unfolding register
register-SameIds m id s = ground arith

allocate-ByFour :
    (m : StreamManager) (t : StreamType) → CountsByFour m → CountsByFour (allocate m t).0
unfolding allocate client_id server_id
allocate-ByFour m t b = ground arith

create_as-SameIds : (c : Call ℕ) (now : ℕ) → SameIds c.0 (create_as c now).0
unfolding create_as
create_as-SameIds (m, err e) now = ground arith
create_as-SameIds (m, ok id) now = register-SameIds m id (open_state m id now)

create-ByFour :
    (m : StreamManager) (t : StreamType) (now : ℕ)
    → CountsByFour m
    → CountsByFour (create_stream m t now).0
unfolding create_stream
create-ByFour m t now b = elim (Bool-cases (leb m.max_concurrent_streams (length m.streams))) [
  | inl e ↦ rw e b
  | inr e ↦ rw e (kept _ _ (create_as-SameIds (allocate m t) now) (allocate-ByFour m t b))
]

add_priority-SameIds :
    (c : Call ℕ) (schedule : StreamSchedule) → SameIds c.0 (add_priority c schedule).0
unfolding add_priority
add_priority-SameIds (m, err e) schedule = ground arith
add_priority-SameIds (m, ok id) schedule = ground arith

SameIds-trans : (m n o : StreamManager) → SameIds m n → SameIds n o → SameIds m o
SameIds-trans m n o a b = ground arith

accept_as-SameIds : (c : Call (Unit {0})) (id : ℕ) → SameIds c.0 (accept_as c id).0
unfolding accept_as
accept_as-SameIds (m, err e) id = ground arith
accept_as-SameIds (m, ok u) id = ground arith

accept-SameIds : (m : StreamManager) (id now : ℕ) → SameIds m (accept_stream m id now).0
unfolding accept_stream
accept-SameIds m id now = elim (Bool-cases (can_accept_stream m id)) [
  | inl e ↦ rw e (
      let s = Stream.new id m.config now in
      SameIds-trans _ _ _ (register-SameIds m id s) (accept_as-SameIds (register m id s) id))
  | inr e ↦ rw e (ground arith)
]

forget-SameIds : (m : StreamManager) (ids : List ℕ) → SameIds m (forget_streams m ids)
unfolding forget_streams forget_stream
forget-SameIds m [] = ground arith
forget-SameIds m (id ∷ ids) =
    SameIds-trans m (forget_stream m id) _ (ground arith) (forget-SameIds (forget_stream m id) ids)

cleanup-SameIds : (m : StreamManager) (now : ℕ) → SameIds m (cleanup_idle_streams m now)
unfolding cleanup_idle_streams
cleanup-SameIds m now = ground (arith, forget-SameIds m (to_remove m.idle_timeout now m.streams))

module _ {H : Type 0} where
  process-SameIds :
      (m : StreamManager) (f : H3Frame H) (now : ℕ) → SameIds m (process_frame m f now).0
  unfolding process_frame deliver ensure_stream
  process-SameIds m f now = ground arith

  step-ByFour : (m : StreamManager) (c : ManagerCall H) → CountsByFour m → CountsByFour (step m c)
  unfolding step close_stream reset_stream call_stream update_stream_priority cleanup_closed_streams
      set_max_concurrent_streams set_idle_timeout reserve_send_window process_received_data
      update_send_window update_recv_window create_stream_with_priority
  step-ByFour m (creates t now) b = create-ByFour m t now b
  step-ByFour m (creates_with t schedule now) b =
      kept _ _ (add_priority-SameIds (create_stream m t now) schedule) (create-ByFour m t now b)
  step-ByFour m (accepts id now) b = kept _ _ (accept-SameIds m id now) b
  step-ByFour m (receives f now) b = kept _ _ (process-SameIds m f now) b
  step-ByFour m (cleans_idle now) b = kept _ _ (cleanup-SameIds m now) b
  step-ByFour m c b = kept m (step m c) (ground arith) b

  run-ByFour :
      (m : StreamManager) (cs : List (ManagerCall H)) → CountsByFour m → CountsByFour (run m cs)
  unfolding run
  run-ByFour m [] b = b
  run-ByFour m (c ∷ cs) b = run-ByFour (step m c) cs (step-ByFour m c b)

created_id :
    (m : StreamManager) (t : StreamType) (now id : ℕ)
    → CountsByFour m
    → (create_stream m t now).1 ≡ ok id
    → id % 4 ≡ 0
unfolding create_stream create_as allocate client_id server_id register
created_id m t now id b h = ground arith

-- Whatever was called before on a new manager, of either side, and whatever type is asked for, an
-- identifier that `create_stream` returns is a multiple of four, which reads as the identifier of a
-- bidirectional stream that the client opened.
pub create_stream-from_id :
    {H : Type 0} (config : StreamConfig) (is_client : Bool) (now : ℕ) (cs : List (ManagerCall H))
    (t : StreamType) (later id : ℕ)
    → (create_stream (run (new config is_client now) cs) t later).1 ≡ ok id
    → from_id id ≡ client_bidirectional
unfolding new from_id
create_stream-from_id config is_client now cs t later id h =
    let m = new config is_client now in
    let four : id % 4 ≡ 0 = created_id (run m cs) t later id (run-ByFour m cs (ground arith)) h in
    rw (and_03 id, four) refl
