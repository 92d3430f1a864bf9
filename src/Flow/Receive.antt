-- ===== src/Flow/Receive.antt =====
-- Received data in src/protocol/flow_control.rs: the receive windows and the updates that are asked.
use dummy_h.Prelude.{
  ℕ, ◌+◌, ◌-◌, ◌%◌, ◌^◌, ◌≤◌, ◌<◌, ◌≡◌, ◌≢◌, inl, inr, true, List, [], ◌∷◌, ◌++◌, arith, ◌==◌,
  if◌then◌else◌, Bool-cases, All,
}
use dummy_h.Error.{ok}
use dummy_h.Flow.Half.{half_window-le}
use dummy_h.Flow.Windows.{window-insert}
use dummy_h.Flow.{
  FlowController, FlowControlEvent, flow_control_blocked, window_exhausted, window_update_needed,
  window_of, process_received_data, send_window, recv_window, update_event, calculate_window_update,
  needs_window_update,
}

abbrev pub initial_window : FlowController → ℕ → ℕ
initial_window c id = if id == 0 then c.initial_connection_window else c.initial_stream_window

-- An update that is asked for brings its window back to the initial size.
abbrev pub Restores : FlowController → FlowControlEvent → Type 0
Restores c (window_update_needed j increment) = recv_window c j + increment ≡ initial_window c j
Restores c (flow_control_blocked j w b) = ⊥
Restores c (window_exhausted j) = ⊥

increment_exact :
    (window initial : ℕ)
    → initial < 2 ^ 32
    → needs_window_update window initial ≡ true
    → window + calculate_window_update window initial ≡ initial
unfolding needs_window_update calculate_window_update
increment_exact window initial h n = ground (arith, half_window-le initial)

update_event-Restores :
    (c : FlowController) (id : ℕ)
    → initial_window c id < 2 ^ 32
    → All (Restores c) (update_event id (recv_window c id) (initial_window c id))
unfolding update_event
update_event-Restores c id h =
    ground (arith, increment_exact (recv_window c id) (initial_window c id) h)

All-append {ℓ κ} :
    {A : Type ℓ} (P : A → Type κ) (xs ys : List A) → All P xs → All P ys → All P (xs ++ ys)
All-append P [] ys p q = q
All-append P (x ∷ xs) ys (p, ps) q = (p, All-append P xs ys ps q)

-- Data within both windows is taken: each window is lowered by exactly the bytes, and the total
-- grows by them.
pub receive_taken :
    (c : FlowController) (id bytes : ℕ)
    → bytes ≤ c.connection_recv_window
    → bytes ≤ recv_window c id
    → let d = (process_received_data c id bytes).0 in
      (d.connection_recv_window + bytes ≡ c.connection_recv_window)
      × (recv_window d id + bytes ≡ recv_window c id)
      × ((j : ℕ) → j ≢ 0 → j ≢ id → recv_window d j ≡ recv_window c j)
      × ((j : ℕ) → send_window d j ≡ send_window c j)
      × (d.total_bytes_received ≡ (c.total_bytes_received + bytes) % 2 ^ 64)
unfolding process_received_data recv_window send_window
receive_taken c id bytes h k =
    let w = window_of c.stream_recv_windows id in
    (
      ground arith,
      ground (arith, window-insert c.stream_recv_windows id id (w - bytes)),
      λ j hj hne. ground (arith, window-insert c.stream_recv_windows id j (w - bytes)),
      λ j. ground arith,
      ground arith,
    )

-- The result is a list of updates, and each brings its window back to its initial size.
pub receive-Restores :
    (c : FlowController) (id bytes : ℕ)
    → c.initial_connection_window < 2 ^ 32
    → c.initial_stream_window < 2 ^ 32
    → bytes ≤ c.connection_recv_window
    → bytes ≤ recv_window c id
    → (events : List FlowControlEvent) × ((process_received_data c id bytes).1 ≡ ok events)
      × All (Restores (process_received_data c id bytes).0) events
receive-Restores c id bytes hc hs h k = elim (Bool-cases (id == 0)) [
  | inl e ↦ (
    event 0,
    unfold process_received_data recv_window in ground arith,
    update_event-Restores d 0 (initial_kept 0),
  )
  | inr e ↦ (
    event id ++ event 0,
    unfold process_received_data recv_window in
        ground (
          arith,
          window-insert c.stream_recv_windows id id (window_of c.stream_recv_windows id - bytes),
        ),
    All-append (Restores d) (event id) (event 0) (update_event-Restores d id (initial_kept id))
        (update_event-Restores d 0 (initial_kept 0)),
  )
]
  where
    d : FlowController
    d = (process_received_data c id bytes).0

    event : ℕ → List FlowControlEvent
    event j = update_event j (recv_window d j) (initial_window d j)

    initial_kept : (j : ℕ) → initial_window d j < 2 ^ 32
    initial_kept j = unfold process_received_data recv_window in ground arith

-- Data past the connection's window is refused and changes nothing.
pub receive_over_connection :
    (c : FlowController) (id bytes : ℕ)
    → c.connection_recv_window < bytes
    → ((process_received_data c id bytes).0 ≡ c)
      × ((events : List FlowControlEvent) → (process_received_data c id bytes).1 ≢ ok events)
unfolding process_received_data
receive_over_connection c id bytes h = (ground arith, λ events. ground arith)

-- Data past the stream's window only is refused too, but the connection's window is lowered and its
-- total grows as if it had been taken.
pub receive_over_stream :
    (c : FlowController) (id bytes : ℕ)
    → id ≢ 0
    → bytes ≤ c.connection_recv_window
    → recv_window c id < bytes
    → let (d, r) = process_received_data c id bytes in
      ((events : List FlowControlEvent) → r ≢ ok events)
      × (d.connection_recv_window + bytes ≡ c.connection_recv_window)
      × (recv_window d id ≡ recv_window c id)
      × (d.total_bytes_received ≡ (c.total_bytes_received + bytes) % 2 ^ 64)
unfolding process_received_data recv_window
receive_over_stream c id bytes n h k =
    (λ events. ground arith, ground arith, ground arith, ground arith)
