-- ===== src/Conformance/Schedules.antt =====
-- The tests of src/protocol/stream.rs about the manager's priorities and flow control.
use dummy_h.Prelude.{
  ℕ, ◌+◌, ◌-◌, ◌/◌, ◌<◌, ◌≡◌, refl, inl, true, false, Option, none, some, List, [], ◌∷◌, arith,
  Among,
}
use dummy_h.Prelude.Table.{get, insert, remove}
use dummy_h.Error.{ok}
use dummy_h.Stream
use dummy_h.Stream.{
  StreamState, client_bidirectional, default_stream_config, opened, StreamPriority, high, low,
  normal,
}
use dummy_h.Flow
use dummy_h.Flow.{FlowControlEvent, flow_control_blocked, window_update_needed}
use dummy_h.Manager
use dummy_h.Manager.{
  StreamManager, create_stream, create_as, allocate, client_id, register, open_state, close_stream,
}
use dummy_h.Manager.Schedule.{
  StreamSchedule, create_stream_with_priority, get_stream_children, get_sendable_streams,
}
use dummy_h.Manager.Windows.{
  can_send_data, reserve_send_window, process_received_data, update_send_window, send_window,
  recv_window, effective_send_window, connection_send_window, connection_recv_window,
  flow_control_stats, handle_backpressure,
}

abbrev schedule_of : StreamPriority → ℕ → Option ℕ → StreamSchedule
schedule_of p weight parent = record {
  priority = p;
  weight = weight;
  dependent_on = parent;
  exclusive = false;
}

-- `manager.create_stream(StreamType::ClientBidirectional)` on a client's new manager, at the time 0.
abbrev created : StreamManager
created = (create_stream (Manager.new default_stream_config true 0) client_bidirectional 0).0

abbrev initial_window : ℕ
initial_window = default_stream_config.initial_window_size

abbrev TestStreamPriorityScheduling : Type 0
TestStreamPriorityScheduling =
    let m0 = Manager.new default_stream_config true 0 in
    let (m1, r1) =
      create_stream_with_priority m0 client_bidirectional (schedule_of high 32 none) 0 in
    let (m2, r2) = create_stream_with_priority m1 client_bidirectional (schedule_of low 8 none) 0 in
    (r1 ≡ ok 0) × (r2 ≡ ok 4) × (get_sendable_streams m2 ≡ 0 ∷ 4 ∷ [])

scheduling_passes : TestStreamPriorityScheduling
unfolding Manager.new create_stream allocate register insert get Stream.new Flow.new
    Flow.initialize_stream open_state create_stream_with_priority get_sendable_streams
    Stream.can_send default_stream_config
scheduling_passes = (refl, refl, refl)

abbrev TestStreamDependencyTree : Type 0
TestStreamDependencyTree =
    let (m, r) =
      create_stream_with_priority created client_bidirectional (schedule_of normal 16 (some 0)) 0 in
    (r ≡ ok 4) × (get_stream_children m 0 ≡ 4 ∷ [])

dependency_passes : TestStreamDependencyTree
unfolding Manager.new create_stream allocate register insert get Stream.new Flow.new
    Flow.initialize_stream open_state create_stream_with_priority get_stream_children
dependency_passes = (refl, refl)

abbrev TestFlowControlIntegration : Type 0
TestFlowControlIntegration =
    let (m, events) = reserve_send_window created 0 1000 in
    (can_send_data created 0 1000 ≡ true)
    × (events ≡ ok [])
    × (send_window m 0 ≡ initial_window - 1000)
    × (connection_send_window m ≡ initial_window - 1000)

integration_passes : TestFlowControlIntegration
unfolding Manager.new create_stream allocate register insert get Stream.new Flow.new
    Flow.initialize_stream open_state can_send_data reserve_send_window send_window
    connection_send_window default_stream_config Stream.can_send Flow.can_send
    Flow.reserve_send_window Flow.send_window
integration_passes = (refl, refl, refl, refl)

abbrev TestFlowControlBlocking : Type 0
TestFlowControlBlocking =
    let size = initial_window + 1000 in
    (can_send_data created 0 size ≡ false)
    × ((reserve_send_window created 0 size).1
        ≡ ok (flow_control_blocked 0 initial_window size ∷ []))

blocking_passes : TestFlowControlBlocking
unfolding Manager.new create_stream allocate register insert get Stream.new Flow.new
    Flow.initialize_stream open_state can_send_data reserve_send_window default_stream_config
    Stream.can_send Flow.can_send Flow.reserve_send_window
blocking_passes = (refl, refl)

abbrev TestReceivedDataFlowControl : Type 0
TestReceivedDataFlowControl =
    let (m, events) = process_received_data created 0 1000 in
    (events ≡ ok [])
    × (recv_window m 0 ≡ initial_window - 1000)
    × (connection_recv_window m ≡ initial_window - 1000)

received_passes : TestReceivedDataFlowControl
unfolding Manager.new create_stream allocate register insert get Stream.new Flow.new
    Flow.initialize_stream open_state process_received_data recv_window connection_recv_window
    default_stream_config Flow.process_received_data Flow.update_event Flow.recv_window
received_passes = (refl, refl, refl)

abbrev TestWindowUpdateNeeded : Type 0
TestWindowUpdateNeeded =
    (events : List FlowControlEvent) × ((process_received_data created 0
        (initial_window / 2 + 1000)).1
      ≡ ok events)
    × ((increment : ℕ) × Among events (window_update_needed 0 increment))

update_passes : TestWindowUpdateNeeded
unfolding Manager.new create_stream allocate register insert get Stream.new Flow.new
    Flow.initialize_stream open_state process_received_data default_stream_config
    Flow.process_received_data Flow.update_event
update_passes = (_, refl, (_, inl refl))

abbrev TestSendWindowUpdate : Type 0
TestSendWindowUpdate =
    let m = (reserve_send_window created 0 1000).0 in
    let (n, r) = update_send_window m 0 500 in
    (r ≡ ok tt) × (send_window n 0 ≡ send_window m 0 + 500)

send_update_passes : TestSendWindowUpdate
unfolding Manager.new create_stream allocate register insert get Stream.new Flow.new
    Flow.initialize_stream open_state reserve_send_window update_send_window send_window
    default_stream_config Flow.update_send_window Flow.reserve_send_window Flow.send_window
send_update_passes = (refl, refl)

abbrev TestEffectiveSendWindow : Type 0
TestEffectiveSendWindow =
    let m = (reserve_send_window created 0 1000).0 in
    (effective_send_window created 0 ≡ send_window created 0)
    × (effective_send_window m 0 ≡ send_window created 0 - 1000)

effective_passes : TestEffectiveSendWindow
unfolding Manager.new create_stream allocate register insert get Stream.new Flow.new
    Flow.initialize_stream open_state reserve_send_window effective_send_window send_window
    default_stream_config Flow.send_window Flow.effective_send_window Flow.reserve_send_window
effective_passes = (refl, refl)

abbrev TestBackpressureHandling : Type 0
TestBackpressureHandling =
    let (m, events) = reserve_send_window created 0 (send_window created 0) in
    ((es : List FlowControlEvent) × (events ≡ ok es)) × (handle_backpressure m ≡ (0, 0) ∷ [])

backpressure_passes : TestBackpressureHandling
unfolding Manager.new create_stream allocate register insert get Stream.new Flow.new
    Flow.initialize_stream open_state reserve_send_window send_window handle_backpressure
    default_stream_config Flow.reserve_send_window Flow.send_window Stream.can_send
    effective_send_window Flow.effective_send_window
backpressure_passes = ((_, refl), refl)

-- A client's new manager whose maps hold the open stream 4.
abbrev holds_four : StreamManager
holds_four =
    let config = default_stream_config in
    let m = Manager.new config true 0 in
    record m {
      streams = insert m.streams 4 (record (Stream.new 4 config 0) { state = opened });
      flow_controller = (Flow.initialize_stream m.flow_controller 4).0;
    }

abbrev TestFlowControlCleanup : Type 0
TestFlowControlCleanup =
    let (m, r) = close_stream holds_four 4 in
    (0 < send_window holds_four 4) × (r ≡ ok tt) × (send_window m 4 ≡ 0)

cleanup_passes : TestFlowControlCleanup
unfolding Manager.new insert get remove Stream.new Flow.new Flow.initialize_stream close_stream
    Flow.remove_stream send_window default_stream_config Flow.send_window Flow.window_of
cleanup_passes = (omega arith, refl, refl)

abbrev TestFlowControlStats : Type 0
TestFlowControlStats =
    let (m, sent) = reserve_send_window holds_four 4 1000 in
    let (n, received) = process_received_data m 4 500 in
    let stats = flow_control_stats n in
    (sent ≡ ok [])
    × (received ≡ ok [])
    × (stats.total_bytes_sent ≡ 1000)
    × (stats.total_bytes_received ≡ 500)
    × (stats.active_streams ≡ 1)

stats_pass : TestFlowControlStats
unfolding Manager.new insert get Stream.new Flow.new Flow.initialize_stream reserve_send_window
    process_received_data flow_control_stats default_stream_config Flow.reserve_send_window
    Flow.window_of Flow.process_received_data Flow.update_event Flow.get_stats
stats_pass = (refl, refl, refl, refl, refl)
