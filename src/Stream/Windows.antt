-- ===== src/Stream/Windows.antt =====
-- The windows and counters of a stream in src/protocol/stream.rs.
use dummy_h.Prelude.{
  ℕ, ◌+◌, ◌%◌, ◌^◌, ◌≤◌, ◌<◌, ◌≡◌, refl, ◌∙◌, ◌≢◌, ◌↔◌, Bool, true, false, List, [], ◌∷◌, arith,
  length,
}
use dummy_h.Error.{ok}
use dummy_h.Varint.{Bytes}
use dummy_h.Frame.{H3Frame}
use dummy_h.Stream.{
  StreamState, data_received, from_id, is_bidirectional, is_client_initiated, process_frame,
  update_state_on_end_stream_sent, reset, open_stream, send_headers, send_data, update_send_window,
  update_recv_window, finish_send, finish_receive, receive_headers, can_send, u32_max,
  needs_window_update, calculate_window_update,
}
use dummy_h.Stream.Calls.{StreamCall, receive, step, run}
use dummy_h.Prelude.Bits.{and_03}

-- Data is sent exactly when the stream can send and its window holds the data; then the window is
-- lowered by it and the counter grows. Otherwise the stream stays as it was.
pub send_data_iff :
    (s : StreamState) (len : ℕ) (end : Bool) (now : ℕ)
    → let (t, r) = send_data s len end now in
      ((r ≡ ok tt) ↔ ((can_send s ≡ true) × (len ≤ s.send_window)))
      × (r ≡ ok tt
          → (t.send_window + len ≡ s.send_window) × (t.bytes_sent ≡ (s.bytes_sent + len) % 2 ^ 64))
      × (r ≢ ok tt → t ≡ s)
unfolding send_data update_state_on_end_stream_sent
send_data_iff s len end now = ground arith

-- Headers are sent once: a second attempt fails and changes nothing.
pub send_headers_once :
    (s : StreamState) (end end' : Bool) (now later : ℕ)
    → (send_headers s end now).1 ≡ ok tt
    → let t = (send_headers s end now).0 in
      ((send_headers t end' later).1 ≢ ok tt) × ((send_headers t end' later).0 ≡ t)
unfolding send_headers update_state_on_end_stream_sent
send_headers_once s end end' now later h = ground arith

module _ (H : Type 0) where
  -- Data that fits the receive window lowers it by its length and is handed on; data past the
  -- window is refused and changes nothing.
  pub receive_data :
      (s : StreamState) (id : ℕ) (bytes : Bytes)
      → let (t, r) = process_frame {H = H} s (H3Frame.data_frame id bytes false) in
        (length bytes ≤ s.recv_window
          → (r ≡ ok (data_received s.id bytes ∷ []))
            × (t.recv_window + length bytes ≡ s.recv_window))
        × (s.recv_window < length bytes → (r ≢ ok (data_received s.id bytes ∷ [])) × (t ≡ s))
  unfolding process_frame finish_receive
  receive_data s id bytes = ground arith

module _ {H : Type 0} where
  step-bytes_received :
      (s : StreamState) (c : StreamCall H) → (step s c).bytes_received ≡ s.bytes_received
  unfolding step process_frame open_stream reset send_headers send_data finish_receive finish_send
      update_send_window update_recv_window update_state_on_end_stream_sent receive_headers
  step-bytes_received s (receive (H3Frame.data_frame i d e)) = ground arith
  step-bytes_received s (receive (H3Frame.headers i hs e p)) = ground arith
  step-bytes_received s (receive f) = ground arith
  step-bytes_received s c = ground arith

  -- The counter of received bytes never moves, whatever is received.
  pub run-bytes_received :
      (s : StreamState) (cs : List (StreamCall H)) → (run s cs).bytes_received ≡ s.bytes_received
  unfolding run
  run-bytes_received s [] = refl
  run-bytes_received s (c ∷ cs) = run-bytes_received (step s c) cs ∙ step-bytes_received s c

  step-windows :
      (s : StreamState) (c : StreamCall H)
      → s.send_window ≤ u32_max
      → s.recv_window ≤ u32_max
      → ((step s c).send_window ≤ u32_max) × ((step s c).recv_window ≤ u32_max)
  unfolding step process_frame open_stream reset send_headers send_data finish_receive finish_send
      update_send_window update_recv_window update_state_on_end_stream_sent receive_headers
  step-windows s (receive (H3Frame.data_frame i d e)) h k = ground arith
  step-windows s (receive (H3Frame.headers i hs e p)) h k = ground arith
  step-windows s (receive f) h k = ground arith
  step-windows s c h k = ground arith

  -- Each window stays a `u32` after any calls.
  pub run-windows :
      (s : StreamState) (cs : List (StreamCall H))
      → s.send_window ≤ u32_max
      → s.recv_window ≤ u32_max
      → ((run s cs).send_window ≤ u32_max) × ((run s cs).recv_window ≤ u32_max)
  unfolding run
  run-windows s [] h k = (h, k)
  run-windows s (c ∷ cs) h k =
      let (h', k') = step-windows s c h k in run-windows (step s c) cs h' k'

-- Where an update of the receive window is due, the increment brings it back to the initial size.
pub window_update_restores :
    (s : StreamState)
    → s.initial_window_size ≤ u32_max
    → needs_window_update s ≡ true
    → s.recv_window + calculate_window_update s ≡ s.initial_window_size
unfolding needs_window_update calculate_window_update
window_update_restores s h n = ground arith

-- Every number is the identifier of one of the four types, by its two lowest bits.
pub from_id_iff :
    (id : ℕ)
    → (is_client_initiated (from_id id) ≡ true → id % 2 ≡ 0)
      × (is_bidirectional (from_id id) ≡ true → id % 4 < 2)
      × (id % 2 ≡ 0 → is_client_initiated (from_id id) ≡ true)
      × (id % 4 < 2 → is_bidirectional (from_id id) ≡ true)
unfolding from_id is_client_initiated is_bidirectional
from_id_iff id = ground (arith, and_03 id)
