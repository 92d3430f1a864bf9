-- ===== src/Flow/Windows.antt =====
-- The windows of src/protocol/flow_control.rs stay within their limits and account for what is sent.
use dummy_h.Prelude.{
  ℕ, ◌+◌, ◌-◌, ◌%◌, ◌^◌, ◌≤◌, ◌<◌, ◌≡◌, ◌≢◌, ◌↔◌, inl, inr, true, none, [], ◌∷◌, arith, ltb, ◌==◌,
  if◌then◌else◌, Bool-cases, Option-cases,
}
use dummy_h.Prelude.Table.{Table, get, insert, get-insert}
use dummy_h.Error.{ok}
use dummy_h.Flow.{
  FlowController, flow_control_blocked, window_of, max_window_size, can_send, reserve_send_window,
  update_send_window, send_window, recv_window, effective_send_window,
}

pub window-insert :
    (t : Table ℕ) (k j v : ℕ) → window_of (insert t k v) j ≡ (if k == j then v else window_of t j)
unfolding window_of
window-insert t k j v = ground (arith, get-insert t k j v)

-- Where both windows hold the bytes, each is lowered by exactly them, the total grows by them, and
-- no other stream's window changes, nor any receive window.
pub reserve_granted :
    (c : FlowController) (id bytes : ℕ)
    → bytes ≤ effective_send_window c id
    → let d = (reserve_send_window c id bytes).0 in
      (d.connection_send_window + bytes ≡ c.connection_send_window)
      × (send_window d id + bytes ≡ send_window c id)
      × ((j : ℕ) → j ≢ 0 → j ≢ id → send_window d j ≡ send_window c j)
      × ((j : ℕ) → recv_window d j ≡ recv_window c j)
      × (d.total_bytes_sent ≡ (c.total_bytes_sent + bytes) % 2 ^ 64)
unfolding reserve_send_window effective_send_window send_window recv_window
reserve_granted c id bytes h =
    let w = window_of c.stream_send_windows id in
    (
      ground arith,
      ground (arith, window-insert c.stream_send_windows id id (w - bytes)),
      λ j hj hne. ground (arith, window-insert c.stream_send_windows id j (w - bytes)),
      λ j. ground arith,
      ground arith,
    )

-- Where one of them does not, the controller stays as it was, and the one event names a window that
-- is too small, with its size.
pub reserve_refused :
    (c : FlowController) (id bytes : ℕ)
    → effective_send_window c id < bytes
    → ((reserve_send_window c id bytes).0 ≡ c)
      × ((j : ℕ) × ((reserve_send_window c id bytes).1
            ≡ ok (flow_control_blocked j (send_window c j) bytes ∷ []))
          × (send_window c j < bytes))
unfolding reserve_send_window effective_send_window send_window
reserve_refused c id bytes h = elim (Bool-cases (ltb c.connection_send_window bytes)) [
  | inl e ↦ (ground arith, (0, ground arith, ground arith))
  | inr e ↦ (ground arith, (id, ground arith, ground arith))
]

-- `can_send` answers yes exactly where a reservation is granted, on a stream that is known.
pub can_send_iff :
    (c : FlowController) (id bytes : ℕ)
    → (can_send c id bytes ≡ true)
      ↔ ((bytes ≤ effective_send_window c id) × ((id ≢ 0) → get c.stream_send_windows id ≢ none))
unfolding can_send effective_send_window window_of
can_send_iff c id bytes = elim (Option-cases (get c.stream_send_windows id)) [
  | inl e ↦ (ground arith, λ (h, known). ground (arith, known))
  | inr (w, e) ↦ (ground arith, λ (h, known). ground arith)
]

-- An increment that stays within 2 ^ 31 - 1 is added to the window it names, and to no other.
pub update_send_window_lem :
    (c : FlowController) (id increment : ℕ)
    → send_window c id + increment ≤ max_window_size
    → let (d, r) = update_send_window c id increment in
      (r ≡ ok tt)
      × ((j : ℕ)
          → send_window d j ≡ (if id == j then send_window c j + increment else send_window c j))
unfolding update_send_window send_window
update_send_window_lem c id increment h =
    let w = window_of c.stream_send_windows id in
    (ground arith, λ j. ground (arith, window-insert c.stream_send_windows id j (w + increment)))

-- A larger one is refused and changes nothing.
pub update_send_window_refused :
    (c : FlowController) (id increment : ℕ)
    → max_window_size < send_window c id + increment
    → ((update_send_window c id increment).0 ≡ c) × ((update_send_window c id increment).1 ≢ ok tt)
unfolding update_send_window send_window
update_send_window_refused c id increment h = ground arith
