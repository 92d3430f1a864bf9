-- ===== src/Manager/Keyed.antt =====
-- The table of streams in src/protocol/stream.rs: each stream stands once, under its own identifier.
use dummy_h.Prelude.{
  ℕ, ◌≡◌, refl, ◌∙◌, inl, inr, Bool, none, some, List, [], ◌∷◌, arith, Bool-cases, Option-cases,
  All,
}
use dummy_h.Prelude.Table.{
  Table, get, insert, IsMap, insert-IsMap, remove-IsMap, All-insert, All-remove, All-get,
}
use dummy_h.Frame.{H3Frame, stream_id}
use dummy_h.Error.{ok, err}
use dummy_h.Flow.{initialize_stream}
use dummy_h.Stream
use dummy_h.Stream.{
  StreamState, StreamConfig, StreamType, closed, is_closed, finish_receive, finish_send,
  receive_headers, open_stream, send_headers, send_data, update_state_on_end_stream_sent,
}
use dummy_h.Stream.Calls
use dummy_h.Stream.Calls.{StreamCall, receive}
use dummy_h.Manager.{
  StreamManager, Call, new, allocate, client_id, server_id, register, create_as, create_stream,
  close_stream, reset_stream, process_frame, accept_stream, accept_as, ensure_stream, deliver,
  set_max_concurrent_streams, set_idle_timeout, open_state, stream_exists,
}
use dummy_h.Manager.Windows.{
  reserve_send_window, process_received_data, update_send_window, update_recv_window,
}
use dummy_h.Manager.Schedule.{
  StreamSchedule, create_stream_with_priority, add_priority, update_stream_priority,
}
use dummy_h.Manager.Cleanup.{
  retain_open, cleanup_closed_streams, cleanup_idle_streams, forget_streams, forget_stream,
  to_remove,
}
use dummy_h.Manager.Calls.{
  ManagerCall, creates, creates_with, accepts, closes, resets, receives, on_stream, cleans_closed,
  cleans_idle, call_stream, step, run,
}

abbrev IsOwn : ℕ → StreamState → Type 0
IsOwn k s = s.id ≡ k

abbrev IsKeyedTable : Table StreamState → Type 0
IsKeyedTable t = IsMap t × All (λ (e : ℕ × StreamState). IsOwn e.0 e.1) t

abbrev pub IsKeyed : StreamManager → Type 0
IsKeyed m = IsKeyedTable m.streams

insert-IsKeyedTable :
    (t : Table StreamState) (k : ℕ) (s : StreamState)
    → IsKeyedTable t
    → s.id ≡ k
    → IsKeyedTable (insert t k s)
insert-IsKeyedTable t k s (u, own) e = (insert-IsMap t k s u, All-insert IsOwn t k s own e)

retain-none : (t : Table StreamState) (k : ℕ) → get t k ≡ none → get (retain_open t) k ≡ none
unfolding get retain_open
retain-none [] k h = refl
retain-none ((j, s) ∷ t) k h = ground (arith, retain-none t k)

step-id : {H : Type 0} (s : StreamState) (c : StreamCall H) → (Calls.step s c).id ≡ s.id
unfolding Calls.step Stream.process_frame open_stream Stream.reset send_headers send_data
    finish_receive finish_send Stream.update_send_window Stream.update_recv_window
    update_state_on_end_stream_sent receive_headers
step-id s (receive (H3Frame.data_frame i d e)) = ground arith
step-id s (receive (H3Frame.headers i hs e p)) = ground arith
step-id s (receive f) = ground arith
step-id s c = ground arith

pub register-streams :
    (m : StreamManager) (id : ℕ) (s : StreamState)
    → (register m id s).0.streams ≡ insert m.streams id s
unfolding register initialize_stream
register-streams m id s = ground arith

register-IsKeyed :
    (m : StreamManager) (id : ℕ) (s : StreamState)
    → s.id ≡ id
    → IsKeyed m
    → IsKeyed (register m id s).0
register-IsKeyed m id s e k = rw (register-streams m id s) (insert-IsKeyedTable m.streams id s k e)

allocate-streams : (m : StreamManager) (t : StreamType) → (allocate m t).0.streams ≡ m.streams
unfolding allocate client_id server_id
allocate-streams m t = ground arith

create_as-IsKeyed : (c : Call ℕ) (now : ℕ) → IsKeyed c.0 → IsKeyed (create_as c now).0
unfolding create_as
create_as-IsKeyed (m, err e) now k = k
create_as-IsKeyed (m, ok id) now k =
    register-IsKeyed m id (open_state m id now) (unfold open_state in unfold Stream.new in refl) k

create-IsKeyed :
    (m : StreamManager) (t : StreamType) (now : ℕ) → IsKeyed m → IsKeyed (create_stream m t now).0
unfolding create_stream
create-IsKeyed m t now k =
    let same = allocate-streams m t in
    ground (arith, create_as-IsKeyed (allocate m t) now (rw same k))

add_priority-streams :
    (c : Call ℕ) (schedule : StreamSchedule) → (add_priority c schedule).0.streams ≡ c.0.streams
unfolding add_priority
add_priority-streams (m, err e) schedule = refl
add_priority-streams (m, ok id) schedule = refl

accept_as-IsKeyed : (c : Call (Unit {0})) (id : ℕ) → IsKeyed c.0 → IsKeyed (accept_as c id).0
unfolding accept_as
accept_as-IsKeyed (m, err e) id k = k
accept_as-IsKeyed (m, ok u) id k = k

accept-IsKeyed : (m : StreamManager) (id now : ℕ) → IsKeyed m → IsKeyed (accept_stream m id now).0
unfolding accept_stream
accept-IsKeyed m id now k =
    let s = Stream.new id m.config now in
    ground (
      arith,
      accept_as-IsKeyed (register m id s) id
          (register-IsKeyed m id s (unfold Stream.new in refl) k),
    )

replaced :
    (m : StreamManager) (id : ℕ) (s t : StreamState)
    → IsKeyed m
    → get m.streams id ≡ some s
    → t.id ≡ s.id
    → IsKeyed (record m { streams = insert m.streams id t })
replaced m id s t k known e =
    insert-IsKeyedTable m.streams id t k (e ∙ All-get IsOwn m.streams id s k.1 known)

retain-IsKeyed : (t : Table StreamState) → IsKeyedTable t → IsKeyedTable (retain_open t)
unfolding retain_open
retain-IsKeyed [] k = k
retain-IsKeyed ((j, s) ∷ t) ((new, u), (own, owns)) =
    ground (arith, retain-IsKeyed t (u, owns), retain-none t j)

forget-IsKeyed : (m : StreamManager) (ids : List ℕ) → IsKeyed m → IsKeyed (forget_streams m ids)
unfolding forget_streams forget_stream
forget-IsKeyed m [] k = k
forget-IsKeyed m (id ∷ ids) k =
    forget-IsKeyed (forget_stream m id) ids
      (remove-IsMap m.streams id k.0, All-remove IsOwn m.streams id k.1)

ensure-IsKeyed : (m : StreamManager) (id now : ℕ) → IsKeyed m → IsKeyed (ensure_stream m id now)
unfolding ensure_stream
ensure-IsKeyed m id now k =
    let s = open_state m id now in
    let own : s.id ≡ id = unfold open_state in unfold Stream.new in refl in
    elim (Bool-cases (stream_exists m id)) [
      | inl e ↦ rw (ensure_stream, e) k
      | inr e ↦ rw (ensure_stream, e) (insert-IsKeyedTable m.streams id s k own)
    ]

module _ {H : Type 0} where
  deliver-IsKeyed :
      (m : StreamManager) (id : ℕ) (f : H3Frame H) → IsKeyed m → IsKeyed (deliver m id f).0
  unfolding deliver
  deliver-IsKeyed m id f k = elim (Option-cases (get m.streams id)) [
    | inl e ↦ rw (deliver, e) k
    | inr (s, e) ↦
        rw (deliver, e)
          (replaced m id s (Stream.process_frame s f).0 k e
            (unfold Calls.step in step-id s (receive f)))
  ]

  process-IsKeyed :
      (m : StreamManager) (f : H3Frame H) (now : ℕ) → IsKeyed m → IsKeyed (process_frame m f now).0
  unfolding process_frame
  process-IsKeyed m f now k = elim (Option-cases (stream_id f)) [
    | inl e ↦ rw (process_frame, e) k
    | inr (id, e) ↦
        rw (process_frame, e)
          (deliver-IsKeyed (ensure_stream m id now) id f (ensure-IsKeyed m id now k))
  ]

  call-IsKeyed :
      (m : StreamManager) (id : ℕ) (c : StreamCall H) → IsKeyed m → IsKeyed (call_stream m id c)
  unfolding call_stream
  call-IsKeyed m id c k = elim (Option-cases (get m.streams id)) [
    | inl e ↦ rw (call_stream, e) k
    | inr (s, e) ↦ rw (call_stream, e) (replaced m id s (Calls.step s c) k e (step-id s c))
  ]

close-IsKeyed : (m : StreamManager) (id : ℕ) → IsKeyed m → IsKeyed (close_stream m id).0
unfolding close_stream
close-IsKeyed m id k = elim (Option-cases (get m.streams id)) [
  | inl e ↦ rw (close_stream, e) k
  | inr (s, e) ↦ rw (close_stream, e) (replaced m id s (record s { state = closed }) k e refl)
]

reset-IsKeyed :
    (m : StreamManager) (id code now : ℕ) → IsKeyed m → IsKeyed (reset_stream m id code now).0
unfolding reset_stream Stream.reset
reset-IsKeyed m id code now k = elim (Option-cases (get m.streams id)) [
  | inl e ↦ rw (reset_stream, e) k
  | inr (s, e) ↦ rw (reset_stream, e) (replaced m id s (Stream.reset s code now).0 k e refl)
]

cleanup-IsKeyed : (m : StreamManager) (now : ℕ) → IsKeyed m → IsKeyed (cleanup_idle_streams m now)
unfolding cleanup_idle_streams
cleanup-IsKeyed m now k =
    ground (arith, forget-IsKeyed m (to_remove m.idle_timeout now m.streams) k)

module _ {H : Type 0} where
  step-IsKeyed : (m : StreamManager) (c : ManagerCall H) → IsKeyed m → IsKeyed (step m c)
  unfolding step cleanup_closed_streams create_stream_with_priority update_stream_priority
      set_max_concurrent_streams set_idle_timeout reserve_send_window process_received_data
      update_send_window update_recv_window
  step-IsKeyed m (creates t now) k = create-IsKeyed m t now k
  step-IsKeyed m (creates_with t schedule now) k =
      rw (add_priority-streams (create_stream m t now) schedule) (create-IsKeyed m t now k)
  step-IsKeyed m (accepts id now) k = accept-IsKeyed m id now k
  step-IsKeyed m (closes id) k = close-IsKeyed m id k
  step-IsKeyed m (resets id code now) k = reset-IsKeyed m id code now k
  step-IsKeyed m (receives f now) k = process-IsKeyed m f now k
  step-IsKeyed m (on_stream id c) k = call-IsKeyed m id c k
  step-IsKeyed m cleans_closed k = retain-IsKeyed m.streams k
  step-IsKeyed m (cleans_idle now) k = cleanup-IsKeyed m now k
  step-IsKeyed m c k = k

  run_on : (m : StreamManager) (cs : List (ManagerCall H)) → IsKeyed m → IsKeyed (run m cs)
  unfolding run
  run_on m [] k = k
  run_on m (c ∷ cs) k = run_on (step m c) cs (step-IsKeyed m c k)

  -- After any calls on a new manager every stream in its table stands there once, under its own
  -- identifier.
  pub run-IsKeyed :
      (config : StreamConfig) (is_client : Bool) (now : ℕ) (cs : List (ManagerCall H))
      → IsKeyed (run (new config is_client now) cs)
  run-IsKeyed config is_client now cs =
      run_on (new config is_client now) cs (unfold new in (tt, tt))
