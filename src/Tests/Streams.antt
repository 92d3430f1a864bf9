-- ===== src/Tests/Streams.antt =====
-- The flow controller and the streams of src/protocol at concrete inputs.
use dummy_h.Prelude.{ℕ, ◌+◌, ◌≡◌, refl, true, false, none, List, [], ◌∷◌, arith, All}
use dummy_h.Flow.Ledger.{all_taken, all_given, credit_conserved}
use dummy_h.Prelude.Table.{get, insert}
use dummy_h.Error.{ok}
use dummy_h.Frame.{H3Frame}
use dummy_h.Flow.{
  FlowController, FlowControlEvent, flow_control_blocked, window_of, max_window_size,
  initialize_stream, can_send, reserve_send_window, process_received_data, update_send_window,
  send_window, recv_window, effective_send_window, adjust_all,
}
use dummy_h.Flow
use dummy_h.Flow.Receive.{Restores, receive-Restores}
use dummy_h.Flow.Resize.{IsBounded, FlowCall, run-IsBounded, get-adjust_all}
use dummy_h.Stream.{
  StreamState, StreamConfig, normal, opened, closed, client_bidirectional, from_id,
  is_client_initiated, is_bidirectional, can_transition_to, process_frame, send_data, send_headers,
  data_received, can_send as stream_can_send, needs_window_update, calculate_window_update, u32_max,
}
use dummy_h.Stream
use dummy_h.Stream.Calls.{StreamCall, receive, opens, sends, run}
use dummy_h.Stream.Machine.{IsExact, run-IsExact}

-- A connection with one stream, 4, over windows of 1000 and 500 bytes.
abbrev pub one_stream : FlowController
one_stream = record {
  connection_send_window = 1000;
  connection_recv_window = 1000;
  initial_connection_window = 1000;
  stream_send_windows = (4, 500) ∷ [];
  stream_recv_windows = (4, 500) ∷ [];
  initial_stream_window = 500;
  total_bytes_sent = 0;
  total_bytes_received = 0;
  pending_updates = [];
}

one_stream_lem : (initialize_stream (Flow.new 1000 500) 4).0 ≡ one_stream
unfolding Flow.new initialize_stream insert
one_stream_lem = refl

receive-Restores_example :
    (events : List FlowControlEvent) × ((process_received_data one_stream 4 300).1 ≡ ok events)
    × All (Restores (process_received_data one_stream 4 300).0) events
receive-Restores_example =
    receive-Restores one_stream 4 300 (omega arith) (omega arith) (omega arith)
      (unfold recv_window window_of get in omega arith)

run-IsBounded_example :
    IsBounded
      (Flow.Resize.run (Flow.new 1000 500) (FlowCall.initialize 4 ∷ FlowCall.reserve 4 200 ∷ []))
run-IsBounded_example =
    run-IsBounded 1000 500 (FlowCall.initialize 4 ∷ FlowCall.reserve 4 200 ∷ []) (omega arith)
      (omega arith)

abbrev pub config : StreamConfig
config = record {
  initial_window_size = 1000;
  max_frame_size = 16384;
  priority = normal;
  enable_flow_control = true;
}

-- A stream that was opened at time 0.
abbrev pub opened_stream : StreamState
opened_stream = record {
  id = 4;
  state = opened;
  send_window = 1000;
  recv_window = 1000;
  initial_window_size = 1000;
  headers_received = false;
  headers_sent = false;
  end_stream_received = false;
  end_stream_sent = false;
  priority = normal;
  stream_type = client_bidirectional;
  bytes_sent = 0;
  bytes_received = 0;
  created_at = 0;
  last_activity = 0;
  is_reset = false;
  reset_error_code = none;
}

-- Data that ends the stream.
abbrev last_data : StreamCall ℕ
last_data = receive (H3Frame.data_frame 4 (1 ∷ 2 ∷ 3 ∷ []) true)

run-IsExact_example :
    IsExact (run (Stream.new 4 config 0) (opens 0 ∷ last_data ∷ sends 10 true 5 ∷ []))
run-IsExact_example = run-IsExact 4 config 0 0 (last_data ∷ sends 10 true 5 ∷ [])

-- A reservation, more credit, and a reservation of too much.
abbrev transfers : List FlowCall
transfers = FlowCall.reserve 4 200 ∷ FlowCall.update_send 4 50 ∷ FlowCall.reserve 4 2000 ∷ []

credit_conserved_example :
    send_window (Flow.Resize.run one_stream transfers) 4 + all_taken 4 one_stream transfers
    ≡ send_window one_stream 4 + all_given 4 one_stream transfers
credit_conserved_example = credit_conserved 4 one_stream transfers (tt, (tt, (tt, tt)))
