-- ===== src/Stream/Machine.antt =====
-- The state machine of a stream in src/protocol/stream.rs.
use dummy_h.Prelude.{ℕ, ◌≡◌, ◌≢◌, ◌↔◌, Bool, true, false, none, List, [], ◌∷◌, arith}
use dummy_h.Frame.{H3Frame}
use dummy_h.Stream.{
  StreamState, StreamStateType, opened, half_closed_local, half_closed_remote, closed, StreamConfig,
  new, process_frame, update_state_on_end_stream_sent, reset, open_stream, send_headers, send_data,
  update_send_window, update_recv_window, can_transition_to, finish_send, finish_receive,
  receive_headers,
}
use dummy_h.Stream.Calls.{StreamCall, receive, opens, step, run}

module _ {H : Type 0} where
  -- Every change of state that a call makes is one that `can_transition_to` allows.
  pub step-transition :
      (s : StreamState) (c : StreamCall H) → can_transition_to s (step s c).state ≡ true
  unfolding step can_transition_to process_frame finish_receive finish_send open_stream reset
      send_headers send_data update_send_window update_recv_window update_state_on_end_stream_sent
      receive_headers
  step-transition s (receive (H3Frame.data_frame i d e)) = ground arith
  step-transition s (receive (H3Frame.headers i h e p)) = ground arith
  step-transition s (receive f) = ground arith
  step-transition s c = ground arith

  -- A closed stream stays closed, whatever is called.
  pub step-closed :
      (s : StreamState) (c : StreamCall H) → s.state ≡ closed → (step s c).state ≡ closed
  unfolding step process_frame open_stream reset send_headers send_data finish_receive finish_send
      update_send_window update_recv_window update_state_on_end_stream_sent receive_headers
  step-closed s (receive (H3Frame.data_frame i d e)) h = ground arith
  step-closed s (receive (H3Frame.headers i hs e p)) h = ground arith
  step-closed s (receive f) h = ground arith
  step-closed s c h = ground arith

-- The state that the flags of a stream amount to once it was opened.
abbrev pub state_of : Bool → Bool → Bool → StreamStateType
state_of true sent received = closed
state_of false false false = opened
state_of false true false = half_closed_local
state_of false false true = half_closed_remote
state_of false true true = closed

-- The state is the one that the flags amount to, and there is an error code exactly on a reset.
abbrev pub IsExact : StreamState → Type 0
IsExact s =
    (s.state ≡ state_of s.is_reset s.end_stream_sent s.end_stream_received)
    × ((s.is_reset ≡ true) ↔ (s.reset_error_code ≢ none))

module _ {H : Type 0} where
  step-IsExact : (s : StreamState) (c : StreamCall H) → IsExact s → IsExact (step s c)
  unfolding step process_frame open_stream reset send_headers send_data finish_receive finish_send
      update_send_window update_recv_window update_state_on_end_stream_sent receive_headers
  step-IsExact s (receive (H3Frame.data_frame i d e)) h = ground arith
  step-IsExact s (receive (H3Frame.headers i hs e p)) h = ground arith
  step-IsExact s (receive f) h = ground arith
  step-IsExact s c h = ground arith

  run_from : (s : StreamState) (cs : List (StreamCall H)) → IsExact s → IsExact (run s cs)
  unfolding run
  run_from s [] h = h
  run_from s (c ∷ cs) h = run_from (step s c) cs (step-IsExact s c h)

  -- After any calls on a stream that was new and then opened, its state is exactly what its flags say:
  -- closed if it was reset or both ends were seen, half-closed on the side whose end alone was seen,
  -- and open otherwise. It has an error code exactly if it was reset.
  pub run-IsExact :
      (id : ℕ) (config : StreamConfig) (now at : ℕ) (cs : List (StreamCall H))
      → IsExact (run (new id config now) (opens at ∷ cs))
  unfolding new open_stream run step
  run-IsExact id config now at cs =
      run_from (open_stream (new id config now) at).0 cs (ground arith)
