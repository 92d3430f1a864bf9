-- ===== src/Stream/Calls.antt =====
-- The calls on one stream of src/protocol/stream.rs, as steps.
use dummy_h.Prelude.{ℕ, Bool, List, [], ◌∷◌}
use dummy_h.Frame.{H3Frame}
use dummy_h.Stream.{
  StreamState, process_frame, update_state_on_end_stream_sent, reset, open_stream, send_headers,
  send_data, update_send_window, update_recv_window,
}

-- What may be called on a stream; the last number of a call is the time.
pub data StreamCall (H : Type 0) : Type 0 where
  receive : H3Frame H → StreamCall H
  end_sent : StreamCall H
  resets : ℕ → ℕ → StreamCall H
  opens : ℕ → StreamCall H
  headers : Bool → ℕ → StreamCall H
  sends : ℕ → Bool → ℕ → StreamCall H
  grants_send grants_recv : ℕ → ℕ → StreamCall H

module _ {H : Type 0} where
  unfoldable pub step : StreamState → StreamCall H → StreamState
  step s (receive f) = (process_frame s f).0
  step s end_sent = (update_state_on_end_stream_sent s).0
  step s (resets code now) = (reset s code now).0
  step s (opens now) = (open_stream s now).0
  step s (headers end now) = (send_headers s end now).0
  step s (sends len end now) = (send_data s len end now).0
  step s (grants_send increment now) = (update_send_window s increment now).0
  step s (grants_recv increment now) = (update_recv_window s increment now).0

  unfoldable pub run : StreamState → List (StreamCall H) → StreamState
  run s [] = s
  run s (c ∷ cs) = run (step s c) cs
