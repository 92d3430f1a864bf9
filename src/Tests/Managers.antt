-- ===== src/Tests/Managers.antt =====
-- The manager of streams at concrete inputs.
use dummy_h.Prelude.{
  ℕ, ◌+◌, ◌-◌, ◌≤◌, ◌<◌, ◌≡◌, refl, ◌↔◌, true, false, none, some, List, [], ◌∷◌, arith, length, All,
}
use dummy_h.Manager.Calls.{receives}
use dummy_h.Manager.Limit.{IsWithin, run-IsWithin}
use dummy_h.Prelude.Table.{get, insert}
use dummy_h.Error.{ok}
use dummy_h.Frame.{H3Frame}
use dummy_h.Flow
use dummy_h.Flow.{initialize_stream}
use dummy_h.Stream
use dummy_h.Stream.{
  StreamState, urgent, client_bidirectional, client_unidirectional, from_id, is_closed,
  is_idle_timeout,
}
use dummy_h.Manager
use dummy_h.Manager.{
  StreamManager, PriorityEntry, create_stream, create_as, allocate, client_id, register,
  process_frame, accept_stream, open_state, next_stream_id, is_remote_initiated, get_stream,
}
use dummy_h.Manager.Schedule.{get_sendable_streams}
use dummy_h.Manager.Cleanup.{cleanup_idle_streams}
use dummy_h.Manager.Calls.{ManagerCall, creates, accepts, run, step}
use dummy_h.Manager.Ids.{create_stream-from_id}
use dummy_h.Manager.Accept.{accepted, accept_stream_iff}
use dummy_h.Manager.Feed.{feed, follow, feed-follow}
use dummy_h.Manager.Idle.{Fate, is_due, cleanup_idle_streams_lem}
use dummy_h.Manager.Order.{IsOrdered, ids, ranked, sendable, get_sendable_streams_lem}
use dummy_h.Tests.Streams.{opened_stream, one_stream, config}

-- A client with stream 4 open, and an entry for it in the queue.
abbrev connected : StreamManager
connected = record {
  streams = (4, opened_stream) ∷ [];
  next_client_stream_id = 8;
  next_server_stream_id = 1;
  max_concurrent_streams = 100;
  config = config;
  is_client = true;
  priority_queue =
      record {
        stream_id = 4;
        priority = urgent;
        weight = 16;
        dependent_on = none;
        exclusive = false;
      }
      ∷ [];
  dependency_tree = [];
  flow_controller = one_stream;
  max_remote_stream_id = 0;
  idle_timeout = 300;
  last_cleanup = 0;
}

abbrev data_for : ℕ → H3Frame ℕ
data_for id = H3Frame.data_frame id (1 ∷ 2 ∷ 3 ∷ []) false

abbrev two_created : List (ManagerCall ℕ)
two_created = creates client_bidirectional 1 ∷ creates client_unidirectional 2 ∷ []

third_id :
    (create_stream (run (Manager.new config true 0) two_created) client_unidirectional 3).1 ≡ ok 8
unfolding create_stream create_as allocate client_id register open_state run step Manager.new
    Flow.new Stream.new initialize_stream insert
third_id = refl

create_stream-from_id_example : from_id 8 ≡ client_bidirectional
create_stream-from_id_example =
    create_stream-from_id config true 0 two_created client_unidirectional 3 8 third_id

-- The calls by which a client accepts streams 1 and 9 and then refuses stream 5.
abbrev two_accepted : List (ManagerCall ℕ)
two_accepted = accepts 1 1 ∷ accepts 9 2 ∷ accepts 5 3 ∷ []

accept_stream_iff_example :
    let start = Manager.new config true 0 in
    let m = run start two_accepted in
    ((accept_stream m 13 7).1 ≡ ok tt) ↔ (
      (is_remote_initiated m (from_id 13) ≡ true)
      × (0 < 13)
      × All (λ j. j < 13) (accepted start two_accepted)
      × (length m.streams < m.max_concurrent_streams))
accept_stream_iff_example = accept_stream_iff config true 0 two_accepted 13 7

-- Frames for stream 4, which is known, and twice for stream 13, which is not.
abbrev three_frames : List (H3Frame ℕ × ℕ)
three_frames = (data_for 13, 7) ∷ (data_for 4, 8) ∷ (data_for 13, 9) ∷ []

feed-follow_example :
    (get (feed connected three_frames).streams 13
      ≡ follow connected.config 13 (get connected.streams 13) three_frames)
    × ((feed connected three_frames).flow_controller ≡ connected.flow_controller)
feed-follow_example = feed-follow connected three_frames 13

-- Streams 0 and 4, which a client opened at the times 1 and 2.
abbrev two_opened : StreamManager
two_opened = run (Manager.new config true 0) two_created

abbrev first_opened : StreamState
first_opened = open_state (Manager.new config true 0) 0 1

first_known : get two_opened.streams 0 ≡ some first_opened
unfolding create_stream create_as allocate client_id register open_state run step Manager.new
    Flow.new Stream.new initialize_stream insert get
first_known = refl

never_cleaned : 30000000000 ≤ 400000000000 - two_opened.last_cleanup
unfolding create_stream create_as allocate client_id register open_state run step Manager.new
    Flow.new Stream.new initialize_stream insert
never_cleaned = omega arith

first_due : is_due two_opened 400000000000 first_opened ≡ true
unfolding run step create_stream create_as allocate client_id register open_state Manager.new
    Flow.new Stream.new initialize_stream insert is_closed is_idle_timeout
first_due = refl

cleanup_idle_streams_lem_example :
    Fate
      (is_due two_opened 400000000000 first_opened)
      two_opened
      (cleanup_idle_streams two_opened 400000000000)
      0
cleanup_idle_streams_lem_example =
    cleanup_idle_streams_lem config true 0 two_created 400000000000 0 first_opened never_cleaned
      first_known

get_sendable_streams_lem_example :
    (es : List PriorityEntry) × (get_sendable_streams connected ≡ ids es)
    × IsOrdered es
    × ((a : PriorityEntry)
        → ranked a es ≡ ranked a (sendable connected.streams connected.priority_queue))
get_sendable_streams_lem_example = get_sendable_streams_lem connected

abbrev full_and_more : List (ManagerCall ℕ)
full_and_more = creates client_bidirectional 1 ∷ receives (data_for 13) 2 ∷ []

run-IsWithin_example : IsWithin 100 (0 + 1) (run connected full_and_more)
run-IsWithin_example = run-IsWithin 100 0 connected full_and_more (tt, (tt, tt)) (refl, omega arith)
