-- ===== src/Manager/Windows.antt =====
-- The calls of `StreamManager` on its flow controller, and its views of the windows.
use dummy_h.Prelude.{
  ℕ, ◌+◌, ◌-◌, ◌/◌, ◌%◌, ◌^◌, Bool, false, not, none, some, List, [], ◌∷◌, ◌++◌, ltb, leb, ◌==◌,
  if◌then◌else◌,
}
use dummy_h.Prelude.Table.{Table, get}
use dummy_h.Flow
use dummy_h.Flow.{FlowControlEvent, FlowControlStats, remove_stream}
use dummy_h.Stream
use dummy_h.Stream.{
  StreamPriority, urgent, high, normal, low, background, StreamType, StreamState, StreamStateType,
  opened, half_closed_local, half_closed_remote, closed, is_closed, is_idle_timeout,
}
use dummy_h.Manager.{StreamManager, Call}

unfoldable pub can_send_data : StreamManager → ℕ → ℕ → Bool
can_send_data m id bytes = elim (get m.streams id) [
  | none ↦ false
  | some s ↦ if not (Stream.can_send s) then false else Flow.can_send m.flow_controller id bytes
]

-- A method of the flow controller, on the manager's own.
abbrev on_flow {ℓ} : {A : Type ℓ} → StreamManager → Flow.Call A → Call A
on_flow m (c, r) = (record m { flow_controller = c }, r)

unfoldable pub reserve_send_window : StreamManager → ℕ → ℕ → Call (List FlowControlEvent)
reserve_send_window m id bytes = on_flow m (Flow.reserve_send_window m.flow_controller id bytes)

unfoldable pub process_received_data : StreamManager → ℕ → ℕ → Call (List FlowControlEvent)
process_received_data m id bytes = on_flow m (Flow.process_received_data m.flow_controller id bytes)

unfoldable pub update_send_window : StreamManager → ℕ → ℕ → Call (Unit {0})
update_send_window m id increment =
    on_flow m (Flow.update_send_window m.flow_controller id increment)

unfoldable pub update_recv_window : StreamManager → ℕ → ℕ → Call (Unit {0})
update_recv_window m id increment =
    on_flow m (Flow.update_recv_window m.flow_controller id increment)

unfoldable pub send_window : StreamManager → ℕ → ℕ
send_window m id = Flow.send_window m.flow_controller id

unfoldable pub recv_window : StreamManager → ℕ → ℕ
recv_window m id = Flow.recv_window m.flow_controller id

unfoldable pub effective_send_window : StreamManager → ℕ → ℕ
effective_send_window m id = Flow.effective_send_window m.flow_controller id

unfoldable pub connection_send_window : StreamManager → ℕ
connection_send_window m = Flow.send_window m.flow_controller 0

unfoldable pub connection_recv_window : StreamManager → ℕ
connection_recv_window m = Flow.recv_window m.flow_controller 0

unfoldable pub flow_control_stats : StreamManager → FlowControlStats
flow_control_stats m = Flow.get_stats m.flow_controller

-- The loop of `handle_backpressure` over the streams.
unfoldable pub backpressure : StreamManager → Table StreamState → List (ℕ × ℕ)
backpressure m [] = []
backpressure m ((id, s) ∷ rest) =
    let blocked = backpressure m rest in
    let window = effective_send_window m id in
    if not (Stream.can_send s)
    then blocked
    else if window == 0
    then (id, 0) ∷ blocked
    else if ltb window 1024
    then (id, window) ∷ blocked
    else blocked

unfoldable pub handle_backpressure : StreamManager → List (ℕ × ℕ)
unfolding backpressure
handle_backpressure m = backpressure m m.streams

-- One entry: a `u32` difference, which would wrap if the window were above the initial size.
unfoldable pub due_update : ℕ → ℕ → ℕ → List (ℕ × ℕ)
due_update initial id window =
    if leb window (initial / 2) then (id, (initial + 2 ^ 32 - window) % 2 ^ 32) ∷ [] else []

-- `for &stream_id in self.streams.keys() { … }`
unfoldable pub due_updates : StreamManager → Table StreamState → List (ℕ × ℕ)
due_updates m [] = []
due_updates m ((id, s) ∷ rest) =
    due_update m.config.initial_window_size id (recv_window m id) ++ due_updates m rest

unfoldable pub get_streams_needing_flow_control_updates : StreamManager → List (ℕ × ℕ)
unfolding due_updates
get_streams_needing_flow_control_updates m =
    due_update m.config.initial_window_size 0 (connection_recv_window m) ++ due_updates m m.streams
