-- ===== src/Manager/Calls.antt =====
-- The calls on a `StreamManager` of src/protocol/stream.rs, as steps.
use dummy_h.Prelude.{ℕ, max, none, some, List, [], ◌∷◌}
use dummy_h.Prelude.Table.{get, insert}
use dummy_h.Frame.{H3Frame}
use dummy_h.Stream.{StreamType}
use dummy_h.Stream.Calls.{StreamCall}
use dummy_h.Stream.Calls
use dummy_h.Manager.{
  StreamManager, create_stream, close_stream, reset_stream, process_frame, accept_stream,
  set_max_concurrent_streams, set_idle_timeout,
}
use dummy_h.Manager.Windows.{
  reserve_send_window, process_received_data, update_send_window, update_recv_window,
}
use dummy_h.Manager.Schedule.{StreamSchedule, create_stream_with_priority, update_stream_priority}
use dummy_h.Manager.Cleanup.{cleanup_closed_streams, cleanup_idle_streams}

-- What may be called on a manager; the last number of a call is the time.
pub data ManagerCall (H : Type 0) : Type 0 where
  creates : StreamType → ℕ → ManagerCall H
  creates_with : StreamType → StreamSchedule → ℕ → ManagerCall H
  accepts : ℕ → ℕ → ManagerCall H
  closes : ℕ → ManagerCall H
  resets : ℕ → ℕ → ℕ → ManagerCall H
  receives : H3Frame H → ℕ → ManagerCall H
  -- A call on the stream that `get_stream` lends out.
  on_stream : ℕ → StreamCall H → ManagerCall H
  reschedules : ℕ → StreamSchedule → ManagerCall H
  cleans_closed : ManagerCall H
  cleans_idle : ℕ → ManagerCall H
  sets_max sets_timeout : ℕ → ManagerCall H
  reserves takes grants_send grants_recv : ℕ → ℕ → ManagerCall H

module _ {H : Type 0} where
  unfoldable pub call_stream : StreamManager → ℕ → StreamCall H → StreamManager
  call_stream m id c = elim (get m.streams id) [
    | none ↦ m
    | some s ↦ record m { streams = insert m.streams id (Calls.step s c) }
  ]

  unfoldable pub step : StreamManager → ManagerCall H → StreamManager
  step m (creates t now) = (create_stream m t now).0
  step m (creates_with t schedule now) = (create_stream_with_priority m t schedule now).0
  step m (accepts id now) = (accept_stream m id now).0
  step m (closes id) = (close_stream m id).0
  step m (resets id code now) = (reset_stream m id code now).0
  step m (receives frame now) = (process_frame m frame now).0
  step m (on_stream id c) = call_stream m id c
  step m (reschedules id schedule) = (update_stream_priority m id schedule).0
  step m cleans_closed = cleanup_closed_streams m
  step m (cleans_idle now) = cleanup_idle_streams m now
  step m (sets_max max) = set_max_concurrent_streams m max
  step m (sets_timeout timeout) = set_idle_timeout m timeout
  step m (reserves id bytes) = (reserve_send_window m id bytes).0
  step m (takes id bytes) = (process_received_data m id bytes).0
  step m (grants_send id increment) = (update_send_window m id increment).0
  step m (grants_recv id increment) = (update_recv_window m id increment).0

  unfoldable pub run : StreamManager → List (ManagerCall H) → StreamManager
  run m [] = m
  run m (c ∷ cs) = run (step m c) cs
