-- ===== src/Conformance/Streams.antt =====
-- The tests of src/protocol/stream.rs about one stream.
use dummy_h.Prelude.{ℕ, ◌+◌, ◌-◌, ◌/◌, ◌<◌, ◌≡◌, refl, true, false, none, List, [], ◌∷◌, arith}
use dummy_h.Error.{ok}
use dummy_h.Frame.{H3Frame}
use dummy_h.Stream.{
  client_bidirectional, server_bidirectional, client_unidirectional, server_unidirectional, from_id,
  default_stream_config, new, idle, opened, half_closed_local, half_closed_remote, StreamState,
  StreamEvent, data_received, process_frame, send_data, send_headers, update_send_window,
  open_stream, needs_window_update, calculate_window_update,
}

abbrev TestStreamTypeFromId : Type 0
TestStreamTypeFromId =
    (from_id 0 ≡ client_bidirectional)
    × (from_id 1 ≡ server_bidirectional)
    × (from_id 2 ≡ client_unidirectional)
    × (from_id 3 ≡ server_unidirectional)
    × (from_id 4 ≡ client_bidirectional)

type_passes : TestStreamTypeFromId
unfolding from_id
type_passes = (refl, refl, refl, refl, refl)

-- Stream 0, made at the time 0.
abbrev fresh_stream : StreamState
fresh_stream = new 0 default_stream_config 0

abbrev open_one : StreamState
open_one = record fresh_stream { state = opened }

abbrev TestStreamStateTransitions : Type 0
TestStreamStateTransitions =
    let (s, events) = process_frame {H = Unit {0}} open_one (H3Frame.headers 0 tt false none) in
    (events ≡ ok (StreamEvent.headers_received 0 ∷ [])) × (s.headers_received ≡ true)

transitions_pass : TestStreamStateTransitions
unfolding new process_frame
transitions_pass = (refl, refl)

-- "test data"
abbrev test_data : List ℕ
test_data = 116 ∷ 101 ∷ 115 ∷ 116 ∷ 32 ∷ 100 ∷ 97 ∷ 116 ∷ 97 ∷ []

abbrev TestDataFrameProcessing : Type 0
TestDataFrameProcessing =
    let (s, events) = process_frame {H = Unit {0}} open_one (H3Frame.data_frame 0 test_data true) in
    (events ≡ ok (data_received 0 test_data ∷ StreamEvent.end_stream_received 0 ∷ []))
    × (s.state ≡ half_closed_remote)

data_passes : TestDataFrameProcessing
unfolding new process_frame default_stream_config
data_passes = (refl, refl)

abbrev TestStreamFlowControl : Type 0
TestStreamFlowControl =
    let config = default_stream_config in
    let (s, r) = send_data open_one 100 false 0 in
    let (t, q) = update_send_window s 50 0 in
    (r ≡ ok tt)
    × (s.send_window ≡ config.initial_window_size - 100)
    × (s.bytes_sent ≡ 100)
    × (q ≡ ok tt)
    × (t.send_window ≡ config.initial_window_size - 100 + 50)

flow_passes : TestStreamFlowControl
unfolding new send_data update_send_window default_stream_config
flow_passes = (refl, refl, refl, refl, refl)

abbrev TestStreamLifecycleManagement : Type 0
TestStreamLifecycleManagement =
    let (s, r) = open_stream fresh_stream 0 in
    let (t, q) = send_headers s false 0 in
    let (u, p) = send_data t 100 true 0 in
    (fresh_stream.state ≡ idle)
    × (r ≡ ok tt)
    × (s.state ≡ opened)
    × (q ≡ ok tt)
    × (t.headers_sent ≡ true)
    × (p ≡ ok tt)
    × (u.state ≡ half_closed_local)
    × (u.end_stream_sent ≡ true)

lifecycle_passes : TestStreamLifecycleManagement
unfolding new open_stream send_headers send_data default_stream_config
lifecycle_passes = (refl, refl, refl, refl, refl, refl, refl, refl)

abbrev TestWindowUpdateDetection : Type 0
TestWindowUpdateDetection =
    let size = default_stream_config.initial_window_size / 2 + 1 in
    let s = record open_one {
      recv_window = open_one.recv_window - size;
      bytes_received = open_one.bytes_received + size;
    } in
    (needs_window_update s ≡ true) × (0 < calculate_window_update s)

detection_passes : TestWindowUpdateDetection
unfolding new needs_window_update calculate_window_update default_stream_config
detection_passes = (refl, omega arith)
