-- ===== src/Flow/Ledger.antt =====
-- The credit for sending that src/protocol/flow_control.rs keeps, as a ledger of what is answered.
use dummy_h.Prelude.{
  ℕ, ◌+◌, ◌-◌, ◌≡◌, refl, ◌≢◌, Bool, true, false, ◌&&◌, ◌||◌, List, [], ◌∷◌, arith, ◌==◌,
  if◌then◌else◌, All,
}
use dummy_h.Prelude.Table.{get-remove}
use dummy_h.Error.{H3Error, Result, ok, err}
use dummy_h.Flow.{
  FlowController, FlowControlEvent, flow_control_blocked, window_exhausted, window_update_needed,
  window_of, initialize_stream, remove_stream, reserve_send_window, process_received_data,
  update_send_window, update_recv_window, send_window,
}
use dummy_h.Flow.Windows.{window-insert}
use dummy_h.Flow.Resize.{
  FlowCall, initialize, remove_one, reserve, receive, update_send, update_recv, resize, resets,
  step, run,
}

-- The answer to a reservation of bytes lets them be sent.
pub granted : Result H3Error (List FlowControlEvent) → Bool
granted (err e) = false
granted (ok []) = true
granted (ok (flow_control_blocked j w b ∷ events)) = false
granted (ok (window_exhausted j ∷ events)) = true
granted (ok (window_update_needed j n ∷ events)) = true

pub accepted : Result H3Error (Unit {0}) → Bool
accepted (ok u) = true
accepted (err e) = false

-- The bytes that a call lets be sent on the connection (0) or on a stream, and those that it adds.
pub taken : ℕ → FlowController → FlowCall → ℕ
unfolding granted
taken j c (reserve id bytes) =
    if granted (reserve_send_window c id bytes).1 && (j == 0 || j == id) then bytes else 0
taken j c x = 0

pub given : ℕ → FlowController → FlowCall → ℕ
unfolding accepted
given j c (update_send id n) = if accepted (update_send_window c id n).1 && j == id then n else 0
given j c x = 0

-- The totals over a history.
pub all_taken : ℕ → FlowController → List FlowCall → ℕ
all_taken j c [] = 0
all_taken j c (x ∷ xs) = taken j c x + all_taken j (step c x) xs

pub all_given : ℕ → FlowController → List FlowCall → ℕ
all_given j c [] = 0
all_given j c (x ∷ xs) = given j c x + all_given j (step c x) xs

-- The call does not set the window of `j` anew.
abbrev pub Keeps : ℕ → FlowCall → Type 0
Keeps j (initialize id) = j ≢ id
Keeps j (remove_one id) = j ≢ id
Keeps j (resize connection streams) = ⊥
Keeps j resets = ⊥
Keeps j (reserve id bytes) = Unit {0}
Keeps j (receive id bytes) = Unit {0}
Keeps j (update_send id n) = Unit {0}
Keeps j (update_recv id n) = Unit {0}

reserve-credit :
    (j : ℕ) (c : FlowController) (id bytes : ℕ)
    → send_window (step c (reserve id bytes)) j + taken j c (reserve id bytes) ≡ send_window c j
unfolding step taken reserve_send_window send_window granted
reserve-credit j c id bytes =
    let w = window_of c.stream_send_windows id in
    ground (arith, window-insert c.stream_send_windows id j (w - bytes))

update-credit :
    (j : ℕ) (c : FlowController) (id n : ℕ)
    → send_window (step c (update_send id n)) j ≡ send_window c j + given j c (update_send id n)
unfolding step given update_send_window send_window accepted
update-credit j c id n =
    let w = window_of c.stream_send_windows id in
    ground (arith, window-insert c.stream_send_windows id j (w + n))

initialize-credit :
    (j : ℕ) (c : FlowController) (id : ℕ)
    → j ≢ id
    → send_window (initialize_stream c id).0 j ≡ send_window c j
unfolding initialize_stream send_window
initialize-credit j c id h =
    ground (arith, window-insert c.stream_send_windows id j c.initial_stream_window)

remove-credit :
    (j : ℕ) (c : FlowController) (id : ℕ)
    → j ≢ id
    → send_window (remove_stream c id) j ≡ send_window c j
unfolding remove_stream send_window window_of
remove-credit j c id h = ground (arith, get-remove c.stream_send_windows id j)

receive-credit :
    (j : ℕ) (c : FlowController) (id bytes : ℕ)
    → send_window (process_received_data c id bytes).0 j ≡ send_window c j
unfolding process_received_data send_window
receive-credit j c id bytes = ground arith

update_recv-credit :
    (j : ℕ) (c : FlowController) (id n : ℕ)
    → send_window (update_recv_window c id n).0 j ≡ send_window c j
unfolding update_recv_window send_window
update_recv-credit j c id n = ground arith

step-credit :
    (j : ℕ) (c : FlowController) (x : FlowCall)
    → Keeps j x
    → send_window (step c x) j + taken j c x ≡ send_window c j + given j c x
unfolding step taken given
step-credit j c (initialize id) k = omega (arith, initialize-credit j c id k)
step-credit j c (remove_one id) k = omega (arith, remove-credit j c id k)
step-credit j c (reserve id bytes) k = omega (arith, reserve-credit j c id bytes)
step-credit j c (receive id bytes) k = omega (arith, receive-credit j c id bytes)
step-credit j c (update_send id n) k = omega (arith, update-credit j c id n)
step-credit j c (update_recv id n) k = omega (arith, update_recv-credit j c id n)
step-credit j c (resize connection streams) k = absurd k
step-credit j c resets k = absurd k

-- Over every history of calls, none of which sets the window of the connection (0) or of the stream
-- anew, its send window and the bytes that were let through add up to the window at the start and the
-- increments that were accepted: never more is sent than was allowed.
pub credit_conserved :
    (j : ℕ) (c : FlowController) (xs : List FlowCall)
    → All (Keeps j) xs
    → send_window (run c xs) j + all_taken j c xs ≡ send_window c j + all_given j c xs
unfolding run all_taken all_given
credit_conserved j c [] k = refl
credit_conserved j c (x ∷ xs) (k, ks) =
    omega (arith, step-credit j c x k, credit_conserved j (step c x) xs ks)
