-- ===== src/Manager/Limit.antt =====
-- The limit on the number of streams in src/protocol/stream.rs, over a history of calls.
use dummy_h.Prelude.{
  ℕ, ◌+◌, ◌≤◌, max, ◌≡◌, refl, Option, none, some, List, [], ◌∷◌, arith, length, All,
}
use dummy_h.Prelude.Table.{Table, get, insert, length-insert_le, length-insert_known, length-remove}
use dummy_h.Frame.{H3Frame, stream_id}
use dummy_h.Error.{ok, err}
use dummy_h.Stream
use dummy_h.Stream.{StreamEvent, StreamState, StreamConfig, StreamType, closed, is_closed}
use dummy_h.Stream.Calls
use dummy_h.Stream.Calls.{StreamCall}
use dummy_h.Manager.{
  StreamManager, Call, allocate, client_id, server_id, register, create_as, create_stream,
  close_stream, reset_stream, process_frame, accept_stream, accept_as, ensure_stream, deliver,
  set_idle_timeout, open_state, can_accept_stream,
}
use dummy_h.Manager.Windows.{
  reserve_send_window, process_received_data, update_send_window, update_recv_window,
}
use dummy_h.Manager.Schedule.{
  StreamSchedule, create_stream_with_priority, add_priority, update_stream_priority,
}
use dummy_h.Manager.Cleanup.{
  retain_open, cleanup_closed_streams, cleanup_idle_streams, forget_streams, forget_stream,
  to_remove,
}
use dummy_h.Manager.Calls.{
  ManagerCall, creates, creates_with, accepts, closes, resets, receives, on_stream, cleans_closed,
  cleans_idle, sets_max, call_stream, step, run,
}

-- The limit is as it was, and there are at most so many more streams.
abbrev Grows : ℕ → StreamManager → StreamManager → Type 0
Grows k m n =
    (n.max_concurrent_streams ≡ m.max_concurrent_streams)
    × (length n.streams ≤ length m.streams + k)

register-Grows : (m : StreamManager) (id : ℕ) (s : StreamState) → Grows 1 m (register m id s).0
unfolding register
register-Grows m id s = ground (arith, length-insert_le m.streams id s)

allocate-Grows : (m : StreamManager) (t : StreamType) → Grows 0 m (allocate m t).0
unfolding allocate client_id server_id
allocate-Grows m t = ground arith

create_as-Grows : (c : Call ℕ) (now : ℕ) → Grows 1 c.0 (create_as c now).0
unfolding create_as
create_as-Grows (m, err e) now = ground arith
create_as-Grows (m, ok id) now = register-Grows m id (open_state m id now)

accept_as-Grows : (c : Call (Unit {0})) (id : ℕ) → Grows 0 c.0 (accept_as c id).0
unfolding accept_as
accept_as-Grows (m, ok u) id = ground arith
accept_as-Grows (m, err e) id = ground arith

add_priority-Grows :
    (c : Call ℕ) (schedule : StreamSchedule) → Grows 0 c.0 (add_priority c schedule).0
unfolding add_priority
add_priority-Grows (m, ok id) schedule = ground arith
add_priority-Grows (m, err e) schedule = ground arith

retain-length : (t : Table StreamState) → length (retain_open t) ≤ length t
unfolding retain_open
retain-length [] = omega arith
retain-length ((id, s) ∷ t) = ground (arith, retain-length t)

forget-Grows : (m : StreamManager) (ids : List ℕ) → Grows 0 m (forget_streams m ids)
unfolding forget_streams forget_stream
forget-Grows m [] = ground arith
forget-Grows m (id ∷ ids) =
    ground (arith, length-remove m.streams id, forget-Grows (forget_stream m id) ids)

-- A stream that is known is replaced.
replaced :
    (t : Table StreamState) (id : ℕ) (o : Option StreamState) (f : StreamState → StreamState)
    → get t id ≡ o
    → length (elim o [ none ↦ t | some s ↦ insert t id (f s) ]) ≡ length t
replaced t id none f e = refl
replaced t id (some s) f e = length-insert_known t id (f s) s e

close-Grows : (m : StreamManager) (id : ℕ) → Grows 0 m (close_stream m id).0
unfolding close_stream
close-Grows m id =
    ground (arith, replaced m.streams id (get m.streams id) (λ s. record s { state = closed }) refl)

reset-Grows : (m : StreamManager) (id code now : ℕ) → Grows 0 m (reset_stream m id code now).0
unfolding reset_stream
reset-Grows m id code now =
    ground (arith, replaced m.streams id (get m.streams id) (λ s. (Stream.reset s code now).0) refl)

ensure-Grows : (m : StreamManager) (id now : ℕ) → Grows 1 m (ensure_stream m id now)
unfolding ensure_stream
ensure-Grows m id now = ground (arith, length-insert_le m.streams id (open_state m id now))

module _ {H : Type 0} where
  deliver-Grows : (m : StreamManager) (id : ℕ) (f : H3Frame H) → Grows 0 m (deliver m id f).0
  unfolding deliver
  deliver-Grows m id f =
      ground
        (arith, replaced m.streams id (get m.streams id) (λ s. (Stream.process_frame s f).0) refl)

  process-Grows :
      (m : StreamManager) (f : H3Frame H) (now : ℕ) → Grows 1 m (process_frame m f now).0
  unfolding process_frame
  process-Grows m f now = handled (stream_id f)
    where
      handled :
          (o : Option ℕ)
          → let r : Call (List StreamEvent) = elim o [
            | none ↦ (m, ok [])
            | some id ↦ deliver (ensure_stream m id now) id f
          ] in
            Grows 1 m r.0
      handled none = ground arith
      handled (some id) =
          ground (arith, deliver-Grows (ensure_stream m id now) id f, ensure-Grows m id now)

  call-Grows : (m : StreamManager) (id : ℕ) (c : StreamCall H) → Grows 0 m (call_stream m id c)
  unfolding call_stream
  call-Grows m id c =
      ground (arith, replaced m.streams id (get m.streams id) (λ s. Calls.step s c) refl)

-- The limit is `limit`, and it is passed by `over` streams at most.
abbrev pub IsWithin : ℕ → ℕ → StreamManager → Type 0
IsWithin limit over m = (m.max_concurrent_streams ≡ limit) × (length m.streams ≤ limit + over)

create-IsWithin :
    (limit over : ℕ) (m : StreamManager) (t : StreamType) (now : ℕ)
    → IsWithin limit over m
    → IsWithin limit over (create_stream m t now).0
unfolding create_stream
create-IsWithin limit over m t now h =
    ground (arith, create_as-Grows (allocate m t) now, allocate-Grows m t)

accept-IsWithin :
    (limit over : ℕ) (m : StreamManager) (id now : ℕ)
    → IsWithin limit over m
    → IsWithin limit over (accept_stream m id now).0
unfolding accept_stream can_accept_stream
accept-IsWithin limit over m id now h =
    let s = Stream.new id m.config now in
    ground (arith, accept_as-Grows (register m id s) id, register-Grows m id s)

module _ {H : Type 0} where
  -- The call does not change the limit.
  abbrev pub KeepsLimit : ManagerCall H → Type 0
  KeepsLimit (sets_max max) = ⊥
  KeepsLimit c = Unit {0}

  -- How many of the calls hand a frame in.
  abbrev pub frames : List (ManagerCall H) → ℕ
  frames [] = 0
  frames (receives f now ∷ cs) = frames cs + 1
  frames (c ∷ cs) = frames cs

  step-IsWithin :
      (limit over : ℕ) (m : StreamManager) (c : ManagerCall H)
      → KeepsLimit c
      → IsWithin limit over m
      → IsWithin limit (over + frames (c ∷ [])) (step m c)
  unfolding step reserve_send_window process_received_data update_send_window update_recv_window
      create_stream_with_priority update_stream_priority cleanup_closed_streams cleanup_idle_streams
      set_idle_timeout
  step-IsWithin limit over m (creates t now) k h =
      ground (arith, create-IsWithin limit over m t now h)
  step-IsWithin limit over m (creates_with t schedule now) k h = ground (
    arith,
    create-IsWithin limit over m t now h,
    add_priority-Grows (create_stream m t now) schedule,
  )
  step-IsWithin limit over m (accepts id now) k h =
      ground (arith, accept-IsWithin limit over m id now h)
  step-IsWithin limit over m (closes id) k h = ground (arith, close-Grows m id)
  step-IsWithin limit over m (resets id code now) k h = ground (arith, reset-Grows m id code now)
  step-IsWithin limit over m (receives f now) k h = ground (arith, process-Grows m f now)
  step-IsWithin limit over m (on_stream id c) k h = ground (arith, call-Grows m id c)
  step-IsWithin limit over m cleans_closed k h = ground (arith, retain-length m.streams)
  step-IsWithin limit over m (cleans_idle now) k h =
      ground (arith, forget-Grows m (to_remove m.idle_timeout now m.streams))
  step-IsWithin limit over m (sets_max max) k h = absurd k
  step-IsWithin limit over m c k h = ground arith

  -- Over every history of calls that does not change the limit on the number of streams, the number
  -- passes it by at most one for each frame that was handed in: only frames pass the limit.
  pub run-IsWithin :
      (limit over : ℕ) (m : StreamManager) (cs : List (ManagerCall H))
      → All KeepsLimit cs
      → IsWithin limit over m
      → IsWithin limit (over + frames cs) (run m cs)
  unfolding run
  run-IsWithin limit over m [] k h = ground arith
  run-IsWithin limit over m (c ∷ cs) (k, ks) h = ground (
    arith,
    run-IsWithin limit (over + frames (c ∷ [])) (step m c) cs ks (step-IsWithin limit over m c k h),
  )
