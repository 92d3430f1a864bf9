-- ===== src/Stream.antt =====
-- One stream of src/protocol/stream.rs: its type, its state machine and its windows. A time is the
-- number of nanoseconds that an `Instant` stands for, and `Instant::now()` an argument.
pub mod Calls
pub mod Machine
pub mod Windows
use Prim.Native.Nat.{bit_and}
use Prim.Native.String.{String}
use dummy_h.Prelude.{
  ℕ, ◌+◌, ◌-◌, ◌/◌, ◌%◌, ◌^◌, Bool, true, false, not, Option, none, some, List, [], ◌∷◌, ◌++◌, ltb,
  ◌==◌, if◌then◌else◌, length,
}
use dummy_h.Error.{Message, msg, StreamError, H3Error, stream, Result, ok, err, ◌>>=◌}
use dummy_h.Varint.{Bytes}
use dummy_h.Frame.{H3Frame}

pub data StreamPriority : Type 0 where
  urgent high normal low background : StreamPriority

unfoldable pub default_stream_priority : StreamPriority
default_stream_priority = normal

pub record StreamConfig : Type 0 where
  pub initial_window_size : ℕ
  pub max_frame_size : ℕ
  pub priority : StreamPriority
  pub enable_flow_control : Bool

unfoldable pub default_stream_config : StreamConfig
unfolding default_stream_priority
default_stream_config = record {
  initial_window_size = 65536;
  max_frame_size = 16384;
  priority = default_stream_priority;
  enable_flow_control = true;
}

pub data StreamStateType : Type 0 where
  idle opened half_closed_local half_closed_remote closed : StreamStateType
  reserved_local reserved_remote : StreamStateType

pub data StreamType : Type 0 where
  client_bidirectional server_bidirectional : StreamType
  client_unidirectional server_unidirectional : StreamType

-- `match stream_id & 0x03`; the mask leaves no other value than these four.
unfoldable pub from_id : ℕ → StreamType
from_id id =
    let code = bit_and id 0x03 in
    if code == 0x00
    then client_bidirectional
    else if code == 0x01
    then server_bidirectional
    else if code == 0x02
    then client_unidirectional
    else server_unidirectional

unfoldable pub is_bidirectional : StreamType → Bool
is_bidirectional client_bidirectional = true
is_bidirectional server_bidirectional = true
is_bidirectional t = false

unfoldable pub is_client_initiated : StreamType → Bool
is_client_initiated client_bidirectional = true
is_client_initiated client_unidirectional = true
is_client_initiated t = false

pub record StreamState : Type 0 where
  pub id : ℕ
  pub state : StreamStateType
  pub send_window : ℕ
  pub recv_window : ℕ
  pub initial_window_size : ℕ
  pub headers_received : Bool
  pub headers_sent : Bool
  pub end_stream_received : Bool
  pub end_stream_sent : Bool
  pub priority : StreamPriority
  pub stream_type : StreamType
  pub bytes_sent : ℕ
  pub bytes_received : ℕ
  pub created_at : ℕ
  pub last_activity : ℕ
  pub is_reset : Bool
  pub reset_error_code : Option ℕ

unfoldable pub new : ℕ → StreamConfig → ℕ → StreamState
new id config now = record {
  id = id;
  state = idle;
  send_window = config.initial_window_size;
  recv_window = config.initial_window_size;
  initial_window_size = config.initial_window_size;
  headers_received = false;
  headers_sent = false;
  end_stream_received = false;
  end_stream_sent = false;
  priority = config.priority;
  stream_type = from_id id;
  bytes_sent = 0;
  bytes_received = 0;
  created_at = now;
  last_activity = now;
  is_reset = false;
  reset_error_code = none;
}

abbrev can_send_in : StreamStateType → Bool
can_send_in opened = true
can_send_in half_closed_remote = true
can_send_in s = false

unfoldable pub can_send : StreamState → Bool
can_send s = can_send_in s.state

abbrev can_receive_in : StreamStateType → Bool
can_receive_in opened = true
can_receive_in half_closed_local = true
can_receive_in s = false

unfoldable pub can_receive : StreamState → Bool
can_receive s = can_receive_in s.state

abbrev is_closed_in : StreamStateType → Bool
is_closed_in closed = true
is_closed_in s = false

unfoldable pub is_closed : StreamState → Bool
is_closed s = is_closed_in s.state

pub data StreamEvent : Type 0 where
  -- stream_id
  headers_received : ℕ → StreamEvent
  -- stream_id, data
  data_received : ℕ → Bytes → StreamEvent
  -- stream_id
  end_stream_received : ℕ → StreamEvent
  -- stream_id, error_code
  stream_reset : ℕ → ℕ → StreamEvent
  -- stream_id, increment
  window_updated : ℕ → ℕ → StreamEvent

-- A method returns the stream that it leaves with its result.
abbrev pub Call {ℓ} : Type ℓ → Type ℓ
Call A = StreamState × Result H3Error A

abbrev pub bad_state {ℓ} : {A : Type ℓ} → Message → Message → Result H3Error A
bad_state expected actual = err (stream (StreamError.invalid_state expected actual))

-- `format!("{:?}", self.state)`
abbrev pub state_name : StreamStateType → Message
state_name idle = msg "Idle" []
state_name opened = msg "Open" []
state_name half_closed_local = msg "HalfClosedLocal" []
state_name half_closed_remote = msg "HalfClosedRemote" []
state_name closed = msg "Closed" []
state_name reserved_local = msg "ReservedLocal" []
state_name reserved_remote = msg "ReservedRemote" []

abbrev end_received_in : StreamState → StreamStateType → Call (Unit {0})
end_received_in s opened = (record s { state = half_closed_remote }, ok tt)
end_received_in s half_closed_local = (record s { state = closed }, ok tt)
end_received_in s other = (s, bad_state (msg "Open or HalfClosedLocal" []) (state_name other))

unfoldable pub update_state_on_end_stream_received : StreamState → Call (Unit {0})
update_state_on_end_stream_received s = end_received_in s s.state

abbrev end_sent_in : StreamState → StreamStateType → Call (Unit {0})
end_sent_in s opened = (record s { state = half_closed_local }, ok tt)
end_sent_in s half_closed_remote = (record s { state = closed }, ok tt)
end_sent_in s other = (s, bad_state (msg "Open or HalfClosedRemote" []) (state_name other))

unfoldable pub update_state_on_end_stream_sent : StreamState → Call (Unit {0})
update_state_on_end_stream_sent s = end_sent_in (record s { end_stream_sent = true }) s.state

-- `if *end_stream { … }`, with the events pushed so far.
unfoldable pub finish_receive : Bool → StreamState → List StreamEvent → Call (List StreamEvent)
unfolding update_state_on_end_stream_received
finish_receive false s events = (s, ok events)
finish_receive true s events =
    let (s', done) =
      update_state_on_end_stream_received (record s { end_stream_received = true }) in
    (s', done >>= λ _. ok (events ++ StreamEvent.end_stream_received s.id ∷ []))

-- `if !self.headers_received { … }`
unfoldable pub receive_headers : Bool → Bool → StreamState → Call (List StreamEvent)
unfolding finish_receive
receive_headers true end s = finish_receive end s []
receive_headers false end s =
    finish_receive end (record s { headers_received = true })
      (StreamEvent.headers_received s.id ∷ [])

unfoldable pub process_frame : {H : Type 0} → StreamState → H3Frame H → Call (List StreamEvent)
unfolding receive_headers finish_receive
process_frame s (H3Frame.headers id h end p) = receive_headers s.headers_received end s
process_frame s (H3Frame.data_frame id bytes end) =
    if ltb s.recv_window (length bytes)
    then (
      s,
      bad_state (msg "sufficient flow control window" [])
          (msg "window: {}, data: {}" (s.recv_window ∷ length bytes ∷ [])),
    )
    else finish_receive end (record s { recv_window = s.recv_window - length bytes })
        (data_received s.id bytes ∷ [])
process_frame s other = (s, ok [])

unfoldable pub reset : StreamState → ℕ → ℕ → Call (Unit {0})
reset s error_code now = (
  record s {
    state = closed;
    is_reset = true;
    reset_error_code = some error_code;
    last_activity = now;
  },
  ok tt,
)

abbrev open_in : StreamState → ℕ → StreamStateType → Call (Unit {0})
open_in s now idle = (record s { state = opened; last_activity = now }, ok tt)
open_in s now other = (s, bad_state (msg "Idle" []) (state_name other))

-- `open`
unfoldable pub open_stream : StreamState → ℕ → Call (Unit {0})
open_stream s now = open_in s now s.state

-- `if end_stream { self.update_state_on_end_stream_sent()?; } Ok(())`
unfoldable pub finish_send : Bool → StreamState → Call (Unit {0})
unfolding update_state_on_end_stream_sent
finish_send false s = (s, ok tt)
finish_send true s = update_state_on_end_stream_sent s

abbrev cannot_send : StreamState → Call (Unit {0})
cannot_send s = (s, bad_state (msg "stream that can send" []) (state_name s.state))

unfoldable pub send_headers : StreamState → Bool → ℕ → Call (Unit {0})
unfolding can_send finish_send
send_headers s end now =
    if can_send s
    then if s.headers_sent
      then (s, bad_state (msg "headers not yet sent" []) (msg "headers already sent" []))
      else finish_send end (record s { headers_sent = true; last_activity = now })
    else cannot_send s

unfoldable pub send_data : StreamState → ℕ → Bool → ℕ → Call (Unit {0})
unfolding can_send finish_send
send_data s len end now =
    if can_send s
    then if ltb s.send_window len
      then (
        s,
        bad_state (msg "sufficient flow control window" [])
            (msg "window: {}, data: {}" (s.send_window ∷ len ∷ [])),
      )
      else finish_send end (record s {
        send_window = s.send_window - len;
        bytes_sent = (s.bytes_sent + len) % 2 ^ 64;
        last_activity = now;
      })
    else cannot_send s

abbrev pub u32_max : ℕ
u32_max = 2 ^ 32 - 1

abbrev window_overflow : ℕ → ℕ → Result H3Error (Unit {0})
window_overflow window increment =
    bad_state (msg "valid window size" [])
      (msg "window overflow: {} + {}" (window ∷ increment ∷ []))

unfoldable pub update_send_window : StreamState → ℕ → ℕ → Call (Unit {0})
update_send_window s increment now =
    if ltb u32_max (s.send_window + increment)
    then (s, window_overflow s.send_window increment)
    else (record s { send_window = s.send_window + increment; last_activity = now }, ok tt)

unfoldable pub update_recv_window : StreamState → ℕ → ℕ → Call (Unit {0})
update_recv_window s increment now =
    if ltb u32_max (s.recv_window + increment)
    then (s, window_overflow s.recv_window increment)
    else (record s { recv_window = s.recv_window + increment; last_activity = now }, ok tt)

-- `elapsed()` is 0 if the clock is behind.
unfoldable pub is_idle_timeout : StreamState → ℕ → ℕ → Bool
is_idle_timeout s timeout now = ltb timeout (now - s.last_activity)

unfoldable pub needs_window_update : StreamState → Bool
needs_window_update s = ltb s.recv_window (s.initial_window_size / 2)

-- A `u32` difference, which wraps if the window is above its initial size.
unfoldable pub calculate_window_update : StreamState → ℕ
calculate_window_update s = (s.initial_window_size + 2 ^ 32 - s.recv_window) % 2 ^ 32

-- The table of `can_transition_to`, its arms in their order.
abbrev pub transition : StreamStateType → StreamStateType → Bool
transition idle opened = true
transition idle reserved_local = true
transition idle reserved_remote = true
transition opened half_closed_local = true
transition opened half_closed_remote = true
transition reserved_local half_closed_remote = true
transition reserved_remote half_closed_local = true
transition s closed = true
transition idle idle = true
transition opened opened = true
transition half_closed_local half_closed_local = true
transition half_closed_remote half_closed_remote = true
transition reserved_local reserved_local = true
transition reserved_remote reserved_remote = true
transition s t = false

unfoldable pub can_transition_to : StreamState → StreamStateType → Bool
can_transition_to s t = transition s.state t
