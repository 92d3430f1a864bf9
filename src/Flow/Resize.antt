-- ===== src/Flow/Resize.antt =====
-- `update_initial_window_sizes` of src/protocol/flow_control.rs, and the bound on every window.
use dummy_h.Prelude.{
  ℕ, ◌+◌, ◌-◌, ◌≤◌, min, ◌≡◌, inl, inr, true, Option, none, some, List, [], ◌∷◌, arith, Bool-cases,
  All,
}
use dummy_h.Prelude.Table.{Table, get, insert, remove}
use dummy_h.Flow.{
  FlowController, new, window_of, max_window_size, initialize_stream, remove_stream,
  reserve_send_window, process_received_data, update_send_window, update_recv_window, adjust,
  adjust_all, size_ok, resize_connection, resize_streams, update_stream_size,
  update_initial_window_sizes, reset,
}

-- Every window is at most 2 ^ 31 - 1.
abbrev WindowsBelow : Table ℕ → Type 0
WindowsBelow t = All (λ (e : ℕ × ℕ). e.1 ≤ max_window_size) t

pub record IsBounded (c : FlowController) : Type 0 where
  pub initial_connection : c.initial_connection_window ≤ max_window_size
  pub initial_stream : c.initial_stream_window ≤ max_window_size
  pub connection_send : c.connection_send_window ≤ max_window_size
  pub connection_recv : c.connection_recv_window ≤ max_window_size
  pub stream_send : WindowsBelow c.stream_send_windows
  pub stream_recv : WindowsBelow c.stream_recv_windows

insert-Below :
    (t : Table ℕ) (k v : ℕ) → WindowsBelow t → v ≤ max_window_size → WindowsBelow (insert t k v)
unfolding insert
insert-Below [] k v b h = (h, tt)
insert-Below ((j, w) ∷ t) k v (b, bs) h = ground (arith, insert-Below t k v bs h)

remove-Below : (t : Table ℕ) (k : ℕ) → WindowsBelow t → WindowsBelow (remove t k)
unfolding remove
remove-Below [] k b = tt
remove-Below ((j, w) ∷ t) k (b, bs) = ground (arith, remove-Below t k bs)

window_of-Below : (t : Table ℕ) (k : ℕ) → WindowsBelow t → window_of t k ≤ max_window_size
unfolding window_of get
window_of-Below [] k b = omega arith
window_of-Below ((j, w) ∷ t) k (b, bs) = ground (arith, window_of-Below t k bs)

adjust_all-Below : (old size : ℕ) (t : Table ℕ) → WindowsBelow (adjust_all old size t)
unfolding adjust_all adjust
adjust_all-Below old size [] = tt
adjust_all-Below old size ((k, w) ∷ t) = (omega arith, adjust_all-Below old size t)

-- A window that is adjusted follows the change of the initial size, stopped at 0 and at the limit.
pub get-adjust_all :
    (old size : ℕ) (t : Table ℕ) (k w : ℕ)
    → WindowsBelow t
    → size ≤ max_window_size
    → get t k ≡ some w
    → get (adjust_all old size t) k ≡ some (min (w + size - old) max_window_size)
unfolding adjust_all adjust get
get-adjust_all old size [] k w b h e = cc
get-adjust_all old size ((j, v) ∷ t) k w (b, bs) h e =
    ground (arith, get-adjust_all old size t k w bs h)

-- The calls on a flow controller.
pub data FlowCall : Type 0 where
  initialize remove_one : ℕ → FlowCall
  reserve receive update_send update_recv : ℕ → ℕ → FlowCall
  resize : Option ℕ → Option ℕ → FlowCall
  resets : FlowCall

unfoldable pub step : FlowController → FlowCall → FlowController
step c (initialize id) = (initialize_stream c id).0
step c (remove_one id) = remove_stream c id
step c (reserve id bytes) = (reserve_send_window c id bytes).0
step c (receive id bytes) = (process_received_data c id bytes).0
step c (update_send id increment) = (update_send_window c id increment).0
step c (update_recv id increment) = (update_recv_window c id increment).0
step c (resize connection streams) = (update_initial_window_sizes c connection streams).0
step c resets = reset c

unfoldable pub run : FlowController → List FlowCall → FlowController
run c [] = c
run c (x ∷ xs) = run (step c x) xs

initialize-IsBounded :
    (c : FlowController) (id : ℕ) → IsBounded c → IsBounded (initialize_stream c id).0
unfolding initialize_stream
initialize-IsBounded c id b = ground (
  arith,
  insert-Below c.stream_send_windows id c.initial_stream_window b.stream_send b.initial_stream,
  insert-Below c.stream_recv_windows id c.initial_stream_window b.stream_recv b.initial_stream,
)

remove-IsBounded : (c : FlowController) (id : ℕ) → IsBounded c → IsBounded (remove_stream c id)
unfolding remove_stream
remove-IsBounded c id b = ground (
  arith,
  remove-Below c.stream_send_windows id b.stream_send,
  remove-Below c.stream_recv_windows id b.stream_recv,
)

reserve-IsBounded :
    (c : FlowController) (id bytes : ℕ) → IsBounded c → IsBounded (reserve_send_window c id bytes).0
unfolding reserve_send_window
reserve-IsBounded c id bytes b =
    let w = window_of c.stream_send_windows id in
    ground (
      arith,
      window_of-Below c.stream_send_windows id b.stream_send,
      insert-Below c.stream_send_windows id (w - bytes) b.stream_send,
    )

receive-IsBounded :
    (c : FlowController) (id bytes : ℕ)
    → IsBounded c
    → IsBounded (process_received_data c id bytes).0
unfolding process_received_data
receive-IsBounded c id bytes b =
    let w = window_of c.stream_recv_windows id in
    ground (
      arith,
      window_of-Below c.stream_recv_windows id b.stream_recv,
      insert-Below c.stream_recv_windows id (w - bytes) b.stream_recv,
    )

update_send-IsBounded :
    (c : FlowController) (id increment : ℕ)
    → IsBounded c
    → IsBounded (update_send_window c id increment).0
unfolding update_send_window
update_send-IsBounded c id increment b =
    let w = window_of c.stream_send_windows id in
    ground (arith, insert-Below c.stream_send_windows id (w + increment) b.stream_send)

update_recv-IsBounded :
    (c : FlowController) (id increment : ℕ)
    → IsBounded c
    → IsBounded (update_recv_window c id increment).0
unfolding update_recv_window
update_recv-IsBounded c id increment b =
    let w = window_of c.stream_recv_windows id in
    ground (arith, insert-Below c.stream_recv_windows id (w + increment) b.stream_recv)

resize_streams-IsBounded :
    (c : FlowController) (size : Option ℕ) → IsBounded c → IsBounded (update_stream_size c size).0
unfolding update_stream_size resize_streams size_ok
resize_streams-IsBounded c none b = b
resize_streams-IsBounded c (some size) b = ground (
  arith,
  adjust_all-Below c.initial_stream_window size c.stream_send_windows,
  adjust_all-Below c.initial_stream_window size c.stream_recv_windows,
)

resize_connection-IsBounded :
    (c : FlowController) (size : ℕ)
    → size_ok size ≡ true
    → IsBounded c
    → IsBounded (resize_connection c size)
unfolding size_ok resize_connection adjust
resize_connection-IsBounded c size h b = ground arith

resize-IsBounded :
    (c : FlowController) (size streams : Option ℕ)
    → IsBounded c
    → IsBounded (update_initial_window_sizes c size streams).0
unfolding update_initial_window_sizes
resize-IsBounded c none streams b = resize_streams-IsBounded c streams b
resize-IsBounded c (some size) streams b = elim (Bool-cases (size_ok size)) [
  | inl e ↦ rw e (
      resize_streams-IsBounded (resize_connection c size) streams
        (resize_connection-IsBounded c size e b))
  | inr e ↦ rw e b
]

step-IsBounded : (c : FlowController) (x : FlowCall) → IsBounded c → IsBounded (step c x)
unfolding step
step-IsBounded c (initialize id) b = initialize-IsBounded c id b
step-IsBounded c (remove_one id) b = remove-IsBounded c id b
step-IsBounded c (reserve id bytes) b = reserve-IsBounded c id bytes b
step-IsBounded c (receive id bytes) b = receive-IsBounded c id bytes b
step-IsBounded c (update_send id increment) b = update_send-IsBounded c id increment b
step-IsBounded c (update_recv id increment) b = update_recv-IsBounded c id increment b
step-IsBounded c (resize connection streams) b = resize-IsBounded c connection streams b
step-IsBounded c resets b = unfold reset in omega arith

run-Bounded : (c : FlowController) (xs : List FlowCall) → IsBounded c → IsBounded (run c xs)
unfolding run
run-Bounded c [] b = b
run-Bounded c (x ∷ xs) b = run-Bounded (step c x) xs (step-IsBounded c x b)

-- After any calls on a controller that is created with sizes of at most 2 ^ 31 - 1, every window is
-- at most 2 ^ 31 - 1.
pub run-IsBounded :
    (connection streams : ℕ) (xs : List FlowCall)
    → connection ≤ max_window_size
    → streams ≤ max_window_size
    → IsBounded (run (new connection streams) xs)
unfolding new
run-IsBounded connection streams xs h k = run-Bounded (new connection streams) xs (omega arith)
