-- ===== src/Flow.antt =====
-- `FlowController` of src/protocol/flow_control.rs: the windows of a connection and its streams.
pub mod Half
pub mod Windows
pub mod Receive
pub mod Resize
pub mod Ledger
use dummy_h.Prelude.{
  ℕ, ◌+◌, ◌-◌, ◌%◌, ◌^◌, min, Bool, true, false, not, ◌||◌, Option, none, some, List, [], ◌∷◌, ◌++◌,
  ltb, leb, ◌==◌, if◌then◌else◌, length,
}
use dummy_h.Prelude.Table.{Table, get, insert, remove}
use dummy_h.Error.{Message, msg, StreamError, H3Error, stream, Result, ok, err}
use Half.{half_window}

abbrev pub min_window_size : ℕ
min_window_size = 1024

-- (1 << 31) - 1
abbrev pub max_window_size : ℕ
max_window_size = 2 ^ 31 - 1

abbrev pub default_window_size : ℕ
default_window_size = 65536

pub record WindowUpdate : Type 0 where
  pub stream_id : ℕ
  pub increment : ℕ

pub data FlowControlEvent : Type 0 where
  -- stream_id, increment
  window_update_needed : ℕ → ℕ → FlowControlEvent
  -- stream_id, available_window, requested_bytes
  flow_control_blocked : ℕ → ℕ → ℕ → FlowControlEvent
  -- stream_id
  window_exhausted : ℕ → FlowControlEvent

pub record FlowController : Type 0 where
  pub connection_send_window : ℕ
  pub connection_recv_window : ℕ
  pub initial_connection_window : ℕ
  pub stream_send_windows : Table ℕ
  pub stream_recv_windows : Table ℕ
  pub initial_stream_window : ℕ
  pub total_bytes_sent : ℕ
  pub total_bytes_received : ℕ
  pub pending_updates : List WindowUpdate

unfoldable pub new : ℕ → ℕ → FlowController
new initial_connection_window initial_stream_window = record {
  connection_send_window = initial_connection_window;
  connection_recv_window = initial_connection_window;
  initial_connection_window = initial_connection_window;
  stream_send_windows = [];
  stream_recv_windows = [];
  initial_stream_window = initial_stream_window;
  total_bytes_sent = 0;
  total_bytes_received = 0;
  pending_updates = [];
}

-- A method that may fail returns the controller it leaves with its result.
abbrev pub Call {ℓ} : Type ℓ → Type ℓ
Call A = FlowController × Result H3Error A

-- `Err(StreamError::InvalidState { expected, actual }.into())`
abbrev pub bad_state {ℓ} : {A : Type ℓ} → Message → Message → Result H3Error A
bad_state expected actual = err (stream (StreamError.invalid_state expected actual))

-- `….get(&stream_id).copied().unwrap_or(0)`
unfoldable pub window_of : Table ℕ → ℕ → ℕ
window_of t k = elim (get t k) [ none ↦ 0 | some w ↦ w ]

unfoldable pub initialize_stream : FlowController → ℕ → Call (Unit {0})
initialize_stream c id =
    if id == 0 then (c, bad_state (msg "non-zero stream ID" []) (msg "stream ID 0" [])) else (
      record c {
        stream_send_windows = insert c.stream_send_windows id c.initial_stream_window;
        stream_recv_windows = insert c.stream_recv_windows id c.initial_stream_window;
      },
      ok tt,
    )

unfoldable pub remove_stream : FlowController → ℕ → FlowController
remove_stream c id = record c {
  stream_send_windows = remove c.stream_send_windows id;
  stream_recv_windows = remove c.stream_recv_windows id;
}

unfoldable pub can_send : FlowController → ℕ → ℕ → Bool
can_send c id bytes =
    if ltb c.connection_send_window bytes
    then false
    else if id == 0
    then true
    else elim (get c.stream_send_windows id) [ none ↦ false | some w ↦ not (ltb w bytes) ]

-- The last lines of `reserve_send_window`: the connection's share, and its event.
unfoldable pub reserve_connection :
    FlowController → ℕ → List FlowControlEvent → Call (List FlowControlEvent)
reserve_connection c bytes events =
    let left = c.connection_send_window - bytes in
    (
      record c {
        connection_send_window = left;
        total_bytes_sent = (c.total_bytes_sent + bytes) % 2 ^ 64;
      },
      ok (if left == 0 then events ++ window_exhausted 0 ∷ [] else events),
    )

-- The windows are tested before they are lowered, so no subtraction stops at 0.
unfoldable pub reserve_send_window : FlowController → ℕ → ℕ → Call (List FlowControlEvent)
unfolding reserve_connection
reserve_send_window c id bytes =
    if ltb c.connection_send_window bytes
    then (c, ok (flow_control_blocked 0 c.connection_send_window bytes ∷ []))
    else if id == 0
    then reserve_connection c bytes []
    else let window = window_of c.stream_send_windows id in
      if ltb window bytes
      then (c, ok (flow_control_blocked id window bytes ∷ []))
      else reserve_connection
          (record c { stream_send_windows = insert c.stream_send_windows id (window - bytes) })
          bytes (if window - bytes == 0 then window_exhausted id ∷ [] else [])

-- `(initial_window as f32 * WINDOW_UPDATE_THRESHOLD) as u32`
unfoldable pub needs_window_update : ℕ → ℕ → Bool
unfolding half_window
needs_window_update current initial = leb current (half_window initial)

-- A `u32` difference, which would wrap if the window were above its initial size.
unfoldable pub calculate_window_update : ℕ → ℕ → ℕ
calculate_window_update current initial = (initial + 2 ^ 32 - current) % 2 ^ 32

-- The event for one window.
unfoldable pub update_event : ℕ → ℕ → ℕ → List FlowControlEvent
unfolding needs_window_update calculate_window_update
update_event id current initial =
    if needs_window_update current initial
    then window_update_needed id (calculate_window_update current initial) ∷ []
    else []

-- The connection's window is lowered first, also where the stream's window then is too small.
unfoldable pub process_received_data : FlowController → ℕ → ℕ → Call (List FlowControlEvent)
process_received_data c id bytes =
    if ltb c.connection_recv_window bytes
    then (
      c,
      bad_state (msg "sufficient connection receive window" [])
          (msg "window: {}, data: {}" (c.connection_recv_window ∷ bytes ∷ [])),
    )
    else let d : FlowController = record c {
      connection_recv_window = c.connection_recv_window - bytes;
      total_bytes_received = (c.total_bytes_received + bytes) % 2 ^ 64;
    } in
      let connection = update_event 0 d.connection_recv_window d.initial_connection_window in
      if id == 0
      then (d, ok connection)
      else let window = window_of d.stream_recv_windows id in
        if ltb window bytes
        then (
          d,
          bad_state (msg "sufficient stream receive window" [])
              (msg "window: {}, data: {}" (window ∷ bytes ∷ [])),
        )
        else (
          record d { stream_recv_windows = insert d.stream_recv_windows id (window - bytes) },
          ok (update_event id (window - bytes) d.initial_stream_window ++ connection),
        )

abbrev window_overflow {ℓ} : {A : Type ℓ} → ℕ → ℕ → Result H3Error A
window_overflow window increment =
    bad_state (msg "valid window size" [])
      (msg "window overflow: {} + {}" (window ∷ increment ∷ []))

unfoldable pub update_send_window : FlowController → ℕ → ℕ → Call (Unit {0})
update_send_window c id increment =
    if id == 0
    then if ltb max_window_size (c.connection_send_window + increment)
      then (c, window_overflow c.connection_send_window increment)
      else (record c { connection_send_window = c.connection_send_window + increment }, ok tt)
    else let window = window_of c.stream_send_windows id in
      if ltb max_window_size (window + increment) then (c, window_overflow window increment) else (
        record c { stream_send_windows = insert c.stream_send_windows id (window + increment) },
        ok tt,
      )

unfoldable pub update_recv_window : FlowController → ℕ → ℕ → Call (Unit {0})
update_recv_window c id increment =
    if id == 0
    then if ltb max_window_size (c.connection_recv_window + increment)
      then (c, window_overflow c.connection_recv_window increment)
      else (record c { connection_recv_window = c.connection_recv_window + increment }, ok tt)
    else let window = window_of c.stream_recv_windows id in
      if ltb max_window_size (window + increment) then (c, window_overflow window increment) else (
        record c { stream_recv_windows = insert c.stream_recv_windows id (window + increment) },
        ok tt,
      )

unfoldable pub send_window : FlowController → ℕ → ℕ
send_window c id = if id == 0 then c.connection_send_window else window_of c.stream_send_windows id

unfoldable pub recv_window : FlowController → ℕ → ℕ
recv_window c id = if id == 0 then c.connection_recv_window else window_of c.stream_recv_windows id

unfoldable pub effective_send_window : FlowController → ℕ → ℕ
effective_send_window c id =
    if id == 0
    then c.connection_send_window
    else min c.connection_send_window (window_of c.stream_send_windows id)

unfoldable pub clear_pending_updates : FlowController → FlowController
clear_pending_updates c = record c { pending_updates = [] }

unfoldable pub add_pending_update : FlowController → ℕ → ℕ → FlowController
add_pending_update c id increment = record c {
  pending_updates = c.pending_updates ++ record { stream_id = id; increment = increment } ∷ [];
}

pub record FlowControlStats : Type 0 where
  pub connection_send_window : ℕ
  pub connection_recv_window : ℕ
  pub total_bytes_sent : ℕ
  pub total_bytes_received : ℕ
  pub active_streams : ℕ
  pub pending_updates : ℕ

unfoldable pub get_stats : FlowController → FlowControlStats
get_stats c = record {
  connection_send_window = c.connection_send_window;
  connection_recv_window = c.connection_recv_window;
  total_bytes_sent = c.total_bytes_sent;
  total_bytes_received = c.total_bytes_received;
  active_streams = length c.stream_send_windows;
  pending_updates = length c.pending_updates;
}

unfoldable pub reset : FlowController → FlowController
reset c = record c {
  connection_send_window = c.initial_connection_window;
  connection_recv_window = c.initial_connection_window;
  stream_send_windows = [];
  stream_recv_windows = [];
  total_bytes_sent = 0;
  total_bytes_received = 0;
  pending_updates = [];
}

-- `(window as i64 + new as i64 - old as i64).max(0) as u32`, then `.min(MAX_WINDOW_SIZE)`. The
-- difference on ℕ stops at 0 as `max(0)` does; the cast keeps 32 bits.
unfoldable pub adjust : ℕ → ℕ → ℕ → ℕ
adjust old size window = min ((window + size - old) % 2 ^ 32) max_window_size

-- `for window in ….values_mut()`
unfoldable pub adjust_all : ℕ → ℕ → Table ℕ → Table ℕ
adjust_all old size [] = []
adjust_all old size ((k, w) ∷ t) = (k, adjust old size w) ∷ adjust_all old size t

abbrev bad_size {ℓ} : {A : Type ℓ} → ℕ → Result H3Error A
bad_size size =
    bad_state (msg "window size between {} and {}" (min_window_size ∷ max_window_size ∷ []))
      (msg "{}" (size ∷ []))

unfoldable pub size_ok : ℕ → Bool
size_ok size = not (ltb size min_window_size || ltb max_window_size size)

unfoldable pub resize_connection : FlowController → ℕ → FlowController
unfolding adjust
resize_connection c size = record c {
  initial_connection_window = size;
  connection_send_window = adjust c.initial_connection_window size c.connection_send_window;
  connection_recv_window = adjust c.initial_connection_window size c.connection_recv_window;
}

unfoldable pub resize_streams : FlowController → ℕ → FlowController
unfolding adjust_all
resize_streams c size = record c {
  initial_stream_window = size;
  stream_send_windows = adjust_all c.initial_stream_window size c.stream_send_windows;
  stream_recv_windows = adjust_all c.initial_stream_window size c.stream_recv_windows;
}

-- The second half of `update_initial_window_sizes`.
unfoldable pub update_stream_size : FlowController → Option ℕ → Call (Unit {0})
update_stream_size c none = (c, ok tt)
update_stream_size c (some size) =
    if size_ok size then (resize_streams c size, ok tt) else (c, bad_size size)

unfoldable pub update_initial_window_sizes : FlowController → Option ℕ → Option ℕ → Call (Unit {0})
update_initial_window_sizes c none streams = update_stream_size c streams
update_initial_window_sizes c (some size) streams =
    if size_ok size
    then update_stream_size (resize_connection c size) streams
    else (c, bad_size size)
