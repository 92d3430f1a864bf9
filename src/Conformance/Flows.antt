-- ===== src/Conformance/Flows.antt =====
-- The tests of src/protocol/flow_control.rs.
use dummy_h.Prelude.{ℕ, ◌≡◌, refl, inl, none, some, List, [], ◌∷◌, Among}
use dummy_h.Prelude.Table.{get, insert}
use dummy_h.Error.{H3Error, ok, err}
use dummy_h.Flow.{
  FlowControlEvent, flow_control_blocked, window_update_needed, max_window_size, new, window_of,
  initialize_stream, reserve_send_window, process_received_data, update_event, update_send_window,
  send_window, recv_window, effective_send_window, get_stats, update_initial_window_sizes, adjust,
  size_ok, resize_streams, update_stream_size,
}

abbrev TestFlowControllerCreation : Type 0
TestFlowControllerCreation =
    let c = new 65536 32768 in
    (c.connection_send_window ≡ 65536)
    × (c.connection_recv_window ≡ 65536)
    × (c.initial_connection_window ≡ 65536)
    × (c.initial_stream_window ≡ 32768)

creation_passes : TestFlowControllerCreation
unfolding new
creation_passes = (refl, refl, refl, refl)

abbrev TestStreamInitialization : Type 0
TestStreamInitialization =
    let (c, r) = initialize_stream (new 65536 32768) 1 in
    (r ≡ ok tt) × (send_window c 1 ≡ 32768) × (recv_window c 1 ≡ 32768)

initialization_passes : TestStreamInitialization
unfolding new initialize_stream send_window recv_window window_of get insert
initialization_passes = (refl, refl, refl)

abbrev TestSendWindowReservation : Type 0
TestSendWindowReservation =
    let (c, r) = initialize_stream (new 65536 32768) 1 in
    let (d, events) = reserve_send_window c 1 1000 in
    (r ≡ ok tt) × (events ≡ ok []) × (send_window d 1 ≡ 31768) × (d.connection_send_window ≡ 64536)

reservation_passes : TestSendWindowReservation
unfolding new initialize_stream reserve_send_window send_window window_of get insert
reservation_passes = (refl, refl, refl, refl)

abbrev TestFlowControlBlocking : Type 0
TestFlowControlBlocking =
    let (c, r) = initialize_stream (new 1000 500) 1 in
    (r ≡ ok tt) × ((reserve_send_window c 1 600).1 ≡ ok (flow_control_blocked 1 500 600 ∷ []))

blocking_passes : TestFlowControlBlocking
unfolding new initialize_stream reserve_send_window window_of get insert
blocking_passes = (refl, refl)

abbrev TestReceivedDataProcessing : Type 0
TestReceivedDataProcessing =
    let (c, r) = initialize_stream (new 65536 32768) 1 in
    let (d, events) = process_received_data c 1 1000 in
    (r ≡ ok tt) × (recv_window d 1 ≡ 31768) × (d.connection_recv_window ≡ 64536) × (events ≡ ok [])

received_passes : TestReceivedDataProcessing
unfolding new initialize_stream process_received_data recv_window window_of update_event get insert
received_passes = (refl, refl, refl, refl)

-- Some event is of the stream, and its increment is as expected.
abbrev Found : ℕ → (ℕ → Type 0) → List FlowControlEvent → Type 0
Found id P events =
    (increment : ℕ) × (Among events (window_update_needed id increment) × P increment)

abbrev TestWindowUpdateNeeded : Type 0
TestWindowUpdateNeeded =
    let (c, r) = initialize_stream (new 1000 1000) 1 in
    (r ≡ ok tt)
    × ((events : List FlowControlEvent) × ((process_received_data c 1 600).1 ≡ ok events)
        × Found 1 (λ increment. increment ≡ 600) events)

update_needed_passes : TestWindowUpdateNeeded
unfolding new initialize_stream process_received_data window_of update_event get insert
update_needed_passes = (refl, (_, refl, (600, (inl refl, refl))))

abbrev TestSendWindowUpdate : Type 0
TestSendWindowUpdate =
    let (c, r) = initialize_stream (new 65536 32768) 1 in
    let d = (reserve_send_window c 1 1000).0 in
    let (e, s) = update_send_window d 1 500 in
    (r ≡ ok tt) × (send_window d 1 ≡ 31768) × (s ≡ ok tt) × (send_window e 1 ≡ 32268)

window_update_passes : TestSendWindowUpdate
unfolding new initialize_stream reserve_send_window update_send_window send_window window_of get
    insert
window_update_passes = (refl, refl, refl, refl)

abbrev TestEffectiveSendWindow : Type 0
TestEffectiveSendWindow =
    let (c, r) = initialize_stream (new 1000 2000) 1 in
    let (d, events) = reserve_send_window c 1 500 in
    (r ≡ ok tt)
    × (effective_send_window c 1 ≡ 1000)
    × (events ≡ ok [])
    × (effective_send_window d 1 ≡ 500)

effective_passes : TestEffectiveSendWindow
unfolding new initialize_stream reserve_send_window effective_send_window window_of get insert
effective_passes = (refl, refl, refl, refl)

abbrev TestWindowOverflowProtection : Type 0
TestWindowOverflowProtection =
    let (c, r) = initialize_stream (new 65536 32768) 1 in
    (r ≡ ok tt) × ((e : H3Error) × ((update_send_window c 1 max_window_size).1 ≡ err e))

overflow_passes : TestWindowOverflowProtection
unfolding new initialize_stream update_send_window window_of get insert
overflow_passes = (refl, (_, refl))

abbrev TestFlowControlStats : Type 0
TestFlowControlStats =
    let c = (initialize_stream (initialize_stream (new 65536 32768) 1).0 2).0 in
    let (d, events) = reserve_send_window c 1 1000 in
    let (e, more) = process_received_data d 1 500 in
    let stats = get_stats e in
    (events ≡ ok [])
    × (more ≡ ok [])
    × (stats.active_streams ≡ 2)
    × (stats.total_bytes_sent ≡ 1000)
    × (stats.total_bytes_received ≡ 500)

stats_passes : TestFlowControlStats
unfolding new initialize_stream reserve_send_window process_received_data update_event get_stats
    window_of get insert
stats_passes = (refl, refl, refl, refl, refl)

abbrev TestInitialWindowSizeUpdate : Type 0
TestInitialWindowSizeUpdate =
    let (c, r) = initialize_stream (new 65536 32768) 1 in
    let (d, s) = update_initial_window_sizes c none (some 16384) in
    (r ≡ ok tt) × (s ≡ ok tt) × (d.initial_stream_window ≡ 16384) × (send_window d 1 ≡ 16384)

size_update_passes : TestInitialWindowSizeUpdate
unfolding new initialize_stream update_initial_window_sizes update_stream_size size_ok
    resize_streams send_window window_of get insert adjust
size_update_passes = (refl, refl, refl, refl)
