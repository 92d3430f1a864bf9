-- ===== src/Manager.antt =====
-- `StreamManager` of src/protocol/stream.rs: the streams of a connection, the identifiers it gives
-- out, the limit on their number, and the flow controller it owns. A time is a number, and
-- `Instant::now()` an argument.
pub mod Windows
pub mod Schedule
pub mod Cleanup
pub mod Calls
pub mod Ids
pub mod Streams
pub mod Create
pub mod Send
pub mod Removal
pub mod Idle
pub mod Accept
pub mod Feed
pub mod Keyed
pub mod Order
pub mod Limit
use dummy_h.Prelude.{
  ℕ, ◌+◌, ◌%◌, ◌^◌, max, Bool, true, false, not, Option, none, some, List, [], ◌∷◌, leb, ◌==◌,
  if◌then◌else◌, length,
}
use dummy_h.Prelude.Table.{Table, get, insert, remove}
use dummy_h.Error.{StreamError, msg, H3Error, stream, Result, ok, err, ◌>>=◌}
use dummy_h.Frame.{H3Frame, stream_id}
use dummy_h.Flow
use dummy_h.Flow.{
  FlowController, FlowControlEvent, FlowControlStats, initialize_stream, remove_stream,
}
use dummy_h.Stream
use dummy_h.Stream.{
  StreamPriority, StreamConfig, StreamType, client_bidirectional, server_bidirectional,
  client_unidirectional, server_unidirectional, StreamState, StreamStateType, opened, closed,
  StreamEvent, from_id, bad_state, is_closed, is_idle_timeout,
}

pub record PriorityEntry : Type 0 where
  pub stream_id : ℕ
  pub priority : StreamPriority
  pub weight : ℕ
  pub dependent_on : Option ℕ
  pub exclusive : Bool

pub record StreamManager : Type 0 where
  pub streams : Table StreamState
  pub next_client_stream_id : ℕ
  pub next_server_stream_id : ℕ
  pub max_concurrent_streams : ℕ
  pub config : StreamConfig
  pub is_client : Bool
  pub priority_queue : List PriorityEntry
  pub dependency_tree : Table (List ℕ)
  pub flow_controller : FlowController
  pub max_remote_stream_id : ℕ
  pub idle_timeout : ℕ
  pub last_cleanup : ℕ

-- A method returns the manager that it leaves with its result.
abbrev pub Call {ℓ} : Type ℓ → Type ℓ
Call A = StreamManager × Result H3Error A

-- The timeout is `Duration::from_secs(300)` in nanoseconds.
unfoldable pub new : StreamConfig → Bool → ℕ → StreamManager
new config is_client now = record {
  streams = [];
  next_client_stream_id = if is_client then 0 else 1;
  next_server_stream_id = if is_client then 1 else 0;
  max_concurrent_streams = 100;
  config = config;
  is_client = is_client;
  priority_queue = [];
  dependency_tree = [];
  flow_controller = Flow.new config.initial_window_size config.initial_window_size;
  max_remote_stream_id = 0;
  idle_timeout = 300000000000;
  last_cleanup = now;
}

abbrev server_only : StreamManager → Call ℕ
server_only m = (m, bad_state (msg "server context" []) (msg "client context" []))

abbrev client_only : StreamManager → Call ℕ
client_only m = (m, bad_state (msg "client context" []) (msg "server context" []))

-- `self.next_…_stream_id += 4`, on the side that may create the stream.
unfoldable pub client_id : StreamManager → Call ℕ
client_id m = if not m.is_client then client_only m else (
  record m { next_client_stream_id = (m.next_client_stream_id + 4) % 2 ^ 64 },
  ok m.next_client_stream_id,
)

unfoldable pub server_id : StreamManager → Call ℕ
server_id m = if m.is_client then server_only m else (
  record m { next_server_stream_id = (m.next_server_stream_id + 4) % 2 ^ 64 },
  ok m.next_server_stream_id,
)

-- `let stream_id = match stream_type { … }`
unfoldable pub allocate : StreamManager → StreamType → Call ℕ
unfolding client_id server_id
allocate m client_bidirectional = client_id m
allocate m client_unidirectional = client_id m
allocate m server_bidirectional = server_id m
allocate m server_unidirectional = server_id m

-- `if stream_id != 0 { self.flow_controller.initialize_stream(stream_id)?; }`, then the insertion.
unfoldable pub register : StreamManager → ℕ → StreamState → Call (Unit {0})
register m id s =
    let (c, r) =
      if id == 0 then (m.flow_controller, ok tt) else initialize_stream m.flow_controller id in
    elim r [
      | ok u ↦ (record m { flow_controller = c; streams = insert m.streams id s }, ok u)
      | err e ↦ (record m { flow_controller = c }, err e)
    ]

-- `StreamState::new`, then `state = Open`.
unfoldable pub open_state : StreamManager → ℕ → ℕ → StreamState
open_state m id now = record (Stream.new id m.config now) { state = opened }

-- The part of `create_stream` after the identifier.
unfoldable pub create_as : Call ℕ → ℕ → Call ℕ
create_as (m, err e) now = (m, err e)
create_as (m, ok id) now =
    let (m', r) = register m id (open_state m id now) in (m', r >>= λ _. ok id)

unfoldable pub create_stream : StreamManager → StreamType → ℕ → Call ℕ
unfolding create_as
create_stream m t now =
    if leb m.max_concurrent_streams (length m.streams)
    then (m, err (stream StreamError.limit_exceeded))
    else create_as (allocate m t) now

unfoldable pub get_stream : StreamManager → ℕ → Option StreamState
get_stream m id = get m.streams id

unfoldable pub stream_exists : StreamManager → ℕ → Bool
stream_exists m id = elim (get m.streams id) [ none ↦ false | some s ↦ true ]

abbrev not_found {ℓ} : {A : Type ℓ} → StreamManager → ℕ → Call A
not_found m id = (m, err (stream (StreamError.not_found id)))

unfoldable pub close_stream : StreamManager → ℕ → Call (Unit {0})
close_stream m id = elim (get m.streams id) [
  | none ↦ not_found m id
  | some s ↦ (
    record m {
      streams = insert m.streams id (record s { state = closed });
      flow_controller = remove_stream m.flow_controller id;
    },
    ok tt,
  )
]

unfoldable pub reset_stream : StreamManager → ℕ → ℕ → ℕ → Call (Unit {0})
reset_stream m id error_code now = elim (get m.streams id) [
  | none ↦ not_found m id
  | some s ↦
      let (s', r) = Stream.reset s error_code now in
      (record m { streams = insert m.streams id s' }, r)
]

-- `if !self.streams.contains_key(&stream_id) { … }`
unfoldable pub ensure_stream : StreamManager → ℕ → ℕ → StreamManager
unfolding stream_exists
ensure_stream m id now =
    if stream_exists m id
    then m
    else record m { streams = insert m.streams id (open_state m id now) }

-- `if let Some(stream) = self.streams.get_mut(&stream_id) { stream.process_frame(&frame) } …`
unfoldable pub deliver : {H : Type 0} → StreamManager → ℕ → H3Frame H → Call (List StreamEvent)
deliver m id frame = elim (get m.streams id) [
  | none ↦ not_found m id
  | some s ↦
      let (s', r) = Stream.process_frame s frame in
      (record m { streams = insert m.streams id s' }, r)
]

unfoldable pub process_frame :
    {H : Type 0} → StreamManager → H3Frame H → ℕ → Call (List StreamEvent)
process_frame m frame now = elim (stream_id frame) [
  | none ↦ (m, ok [])
  | some id ↦ deliver (ensure_stream m id now) id frame
]

unfoldable pub active_stream_count : StreamManager → ℕ
active_stream_count m = length m.streams

unfoldable pub set_max_concurrent_streams : StreamManager → ℕ → StreamManager
set_max_concurrent_streams m max = record m { max_concurrent_streams = max }

unfoldable pub set_idle_timeout : StreamManager → ℕ → StreamManager
set_idle_timeout m timeout = record m { idle_timeout = timeout }

unfoldable pub next_stream_id : StreamManager → StreamType → ℕ
next_stream_id m client_bidirectional = m.next_client_stream_id
next_stream_id m client_unidirectional = m.next_client_stream_id
next_stream_id m server_bidirectional = m.next_server_stream_id
next_stream_id m server_unidirectional = m.next_server_stream_id

unfoldable pub is_remote_initiated : StreamManager → StreamType → Bool
is_remote_initiated m client_bidirectional = not m.is_client
is_remote_initiated m client_unidirectional = not m.is_client
is_remote_initiated m server_bidirectional = m.is_client
is_remote_initiated m server_unidirectional = m.is_client

unfoldable pub can_accept_stream : StreamManager → ℕ → Bool
can_accept_stream m id =
    if not (is_remote_initiated m (from_id id))
    then false
    else if leb id m.max_remote_stream_id
    then false
    else if leb m.max_concurrent_streams (length m.streams)
    then false
    else true

-- The rest of `accept_stream` after the insertion.
unfoldable pub accept_as : Call (Unit {0}) → ℕ → Call (Unit {0})
accept_as (m, ok u) id = (record m { max_remote_stream_id = max id m.max_remote_stream_id }, ok tt)
accept_as (m, err e) id = (m, err e)

-- An accepted stream stays in the state `Idle`.
unfoldable pub accept_stream : StreamManager → ℕ → ℕ → Call (Unit {0})
unfolding accept_as
accept_stream m id now =
    if can_accept_stream m id
    then accept_as (register m id (Stream.new id m.config now)) id
    else (m, bad_state (msg "acceptable stream" []) (msg "stream {} cannot be accepted" (id ∷ [])))
