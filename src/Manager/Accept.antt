-- ===== src/Manager/Accept.antt =====
-- Which streams of the other side `StreamManager` in src/protocol/stream.rs accepts over its history.
use dummy_h.Prelude.{
  ℕ, ◌<◌, ◌≡◌, refl, ◌↔◌, Bool, true, Option, none, some, List, [], ◌∷◌, ◌++◌, arith, length, All,
}
use dummy_h.Error.{ok, err}
use dummy_h.Frame.{H3Frame, stream_id}
use dummy_h.Flow.{initialize_stream}
use dummy_h.Stream
use dummy_h.Stream.{StreamState, StreamConfig, StreamType, from_id}
use dummy_h.Manager.{
  StreamManager, Call, new, allocate, client_id, server_id, register, create_as, create_stream,
  close_stream, reset_stream, process_frame, accept_stream, accept_as, ensure_stream, deliver,
  set_max_concurrent_streams, set_idle_timeout, can_accept_stream, is_remote_initiated,
}
use dummy_h.Manager.Windows.{
  reserve_send_window, process_received_data, update_send_window, update_recv_window,
}
use dummy_h.Manager.Schedule.{
  StreamSchedule, create_stream_with_priority, add_priority, update_stream_priority,
}
use dummy_h.Manager.Cleanup.{
  cleanup_closed_streams, cleanup_idle_streams, forget_streams, forget_stream, to_remove,
}
use dummy_h.Manager.Calls.{
  ManagerCall, creates, creates_with, accepts, receives, cleans_idle, call_stream, step, run,
}

-- The side and the largest accepted identifier are as they were.
abbrev SameRemote : StreamManager → StreamManager → Type 0
SameRemote m n = (n.max_remote_stream_id ≡ m.max_remote_stream_id) × (n.is_client ≡ m.is_client)

register-SameRemote :
    (m : StreamManager) (id : ℕ) (s : StreamState) → SameRemote m (register m id s).0
unfolding register initialize_stream
register-SameRemote m id s = ground arith

create-SameRemote :
    (m : StreamManager) (t : StreamType) (now : ℕ) → SameRemote m (create_stream m t now).0
unfolding create_stream create_as allocate client_id server_id register initialize_stream
create-SameRemote m t now = ground arith

add_priority-SameRemote :
    (c : Call ℕ) (schedule : StreamSchedule) → SameRemote c.0 (add_priority c schedule).0
unfolding add_priority
add_priority-SameRemote (m, ok id) schedule = (refl, refl)
add_priority-SameRemote (m, err e) schedule = (refl, refl)

forget-SameRemote : (m : StreamManager) (ids : List ℕ) → SameRemote m (forget_streams m ids)
unfolding forget_streams forget_stream
forget-SameRemote m [] = (refl, refl)
forget-SameRemote m (id ∷ ids) = forget-SameRemote (forget_stream m id) ids

deliver-SameRemote :
    {H : Type 0} (m : StreamManager) (id : ℕ) (f : H3Frame H) → SameRemote m (deliver m id f).0
unfolding deliver
deliver-SameRemote m id f = ground arith

process-SameRemote :
    {H : Type 0} (m : StreamManager) (f : H3Frame H) (now : ℕ)
    → SameRemote m (process_frame m f now).0
unfolding process_frame ensure_stream
process-SameRemote m f now = handled (stream_id f)
  where
    handled :
        (o : Option ℕ)
        → SameRemote m
            (elim o as (λ o. Call (List Stream.StreamEvent)) [
              | none ↦ (m, ok [])
              | some id ↦ deliver (ensure_stream m id now) id f
            ]).0
    handled none = (refl, refl)
    handled (some id) = ground (arith, deliver-SameRemote (ensure_stream m id now) id f)

-- The identifier that a call accepts, if it does.
abbrev pub accepted_by : {H : Type 0} → StreamManager → ManagerCall H → List ℕ
accepted_by m (accepts id now) = elim (accept_stream m id now).1 [ ok u ↦ id ∷ [] | err e ↦ [] ]
accepted_by m c = []

-- The identifiers of the streams that a history accepts, in their order.
pub accepted : {H : Type 0} → StreamManager → List (ManagerCall H) → List ℕ
accepted m [] = []
accepted m (c ∷ cs) = accepted_by m c ++ accepted (step m c) cs

-- An identifier is below the bound that the manager keeps exactly if one of those is.
abbrev Above : ℕ → StreamManager → List ℕ → Type 0
Above id m ids = (m.max_remote_stream_id < id) × All (λ j. j < id) ids

accept-Above :
    (m : StreamManager) (j now id : ℕ)
    → ((accept_stream m j now).0.max_remote_stream_id < id)
      ↔ Above id m (elim (accept_stream m j now).1 [ ok u ↦ j ∷ [] | err e ↦ [] ])
unfolding accept_stream accept_as can_accept_stream register initialize_stream
accept-Above m j now id = ground arith

All-split :
    (id : ℕ) (xs ys : List ℕ)
    → All (λ j. j < id) (xs ++ ys) ↔ (All (λ j. j < id) xs × All (λ j. j < id) ys)
All-split id [] ys = (λ h. (tt, h), λ h. h.1)
All-split id (x ∷ xs) ys = (
  λ h. let r = (All-split id xs ys).0 h.1 in ((h.0, r.0), r.1),
  λ h. (h.0.0, (All-split id xs ys).1 (h.0.1, h.1)),
)

module _ {H : Type 0} where
  step-Above :
      (m : StreamManager) (c : ManagerCall H) (id : ℕ)
      → ((step m c).max_remote_stream_id < id) ↔ Above id m (accepted_by m c)
  unfolding step cleanup_closed_streams create_stream_with_priority update_stream_priority
      set_max_concurrent_streams set_idle_timeout reserve_send_window process_received_data
      update_send_window update_recv_window close_stream reset_stream call_stream
      cleanup_idle_streams
  step-Above m (creates t now) id = ground (arith, create-SameRemote m t now)
  step-Above m (creates_with t schedule now) id =
      ground
        (arith, create-SameRemote m t now, add_priority-SameRemote (create_stream m t now) schedule)
  step-Above m (accepts j now) id = accept-Above m j now id
  step-Above m (receives f now) id = ground (arith, process-SameRemote m f now)
  step-Above m (cleans_idle now) id =
      ground (arith, forget-SameRemote m (to_remove m.idle_timeout now m.streams))
  step-Above m c id = ground arith

  run-Above :
      (m : StreamManager) (cs : List (ManagerCall H)) (id : ℕ)
      → ((run m cs).max_remote_stream_id < id) ↔ Above id m (accepted m cs)
  unfolding run accepted
  run-Above m [] id = (λ h. (h, tt), λ h. h.0)
  run-Above m (c ∷ cs) id =
      let one = step-Above m c id in
      let more = run-Above (step m c) cs id in
      let split = All-split id (accepted_by m c) (accepted (step m c) cs) in
      (
        λ h. let (a, b) = more.0 h in let (d, e) = one.0 a in (d, split.1 (e, b)),
        λ (d, h). let (e, b) = split.0 h in more.1 (one.1 (d, e), b),
      )

  -- Whatever was called on a manager that was new, `accept_stream` accepts a stream exactly if the other
  -- side may open it, its identifier is not 0 and above each identifier that was accepted before, and
  -- there are fewer streams than the limit.
  pub accept_stream_iff :
      (config : StreamConfig) (is_client : Bool) (made : ℕ) (cs : List (ManagerCall H)) (id now : ℕ)
      → let start = new config is_client made in
        let m = run start cs in
        ((accept_stream m id now).1 ≡ ok tt) ↔ (
          (is_remote_initiated m (from_id id) ≡ true)
          × (0 < id)
          × All (λ j. j < id) (accepted start cs)
          × (length m.streams < m.max_concurrent_streams))
  unfolding accept_stream accept_as can_accept_stream register initialize_stream new
  accept_stream_iff config is_client made cs id now =
      let above = run-Above (new config is_client made) cs id in
      (
        λ h.
            let bound : (run (new config is_client made) cs).max_remote_stream_id < id =
              ground arith in
            let (zero_below, all) = above.0 bound in (ground arith, zero_below, all, ground arith),
        λ (h, z, all, l). let bound = above.1 (z, all) in ground arith,
      )
