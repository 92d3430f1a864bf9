-- ===== src/Conformance/Managers.antt =====
-- The tests of src/protocol/stream.rs about the manager.
use dummy_h.Prelude.{◌≡◌, refl, true, false, some}
use dummy_h.Prelude.Table.{get, insert, remove}
use dummy_h.Error.{StreamError, stream, ok, err}
use dummy_h.Stream
use dummy_h.Stream.{StreamState, client_bidirectional, default_stream_config, closed, opened}
use dummy_h.Flow
use dummy_h.Manager
use dummy_h.Manager.{
  StreamManager, create_stream, create_as, allocate, client_id, register, open_state, reset_stream,
  close_stream, get_stream, stream_exists, can_accept_stream, accept_stream,
  set_max_concurrent_streams, is_remote_initiated,
}
use dummy_h.Manager.Cleanup.{get_stream_stats}

-- A client's manager, made at the time 0.
abbrev client : StreamManager
client = Manager.new default_stream_config true 0

abbrev TestStreamCreation : Type 0
TestStreamCreation =
    let (m, first) = create_stream client client_bidirectional 0 in
    let (n, second) = create_stream m client_bidirectional 0 in (first ≡ ok 0) × (second ≡ ok 4)

creation_passes : TestStreamCreation
unfolding Manager.new create_stream allocate register insert Stream.new Flow.new
    Flow.initialize_stream open_state
creation_passes = (refl, refl)

abbrev TestConcurrentStreamLimit : Type 0
TestConcurrentStreamLimit =
    let (m, first) = create_stream (set_max_concurrent_streams client 2) client_bidirectional 0 in
    let (n, second) = create_stream m client_bidirectional 0 in
    (first ≡ ok 0)
    × (second ≡ ok 4)
    × ((create_stream n client_bidirectional 0).1 ≡ err (stream StreamError.limit_exceeded))

limit_passes : TestConcurrentStreamLimit
unfolding Manager.new create_stream allocate register insert Stream.new Flow.new
    Flow.initialize_stream open_state set_max_concurrent_streams
limit_passes = (refl, refl, refl)

abbrev TestStreamReset : Type 0
TestStreamReset =
    let (m, r) = create_stream client client_bidirectional 0 in
    let (n, q) = reset_stream m 0 0x100 0 in
    (r ≡ ok 0)
    × (q ≡ ok tt)
    × ((s : StreamState) × (get_stream n 0 ≡ some s)
        × (s.state ≡ closed)
        × (s.is_reset ≡ true)
        × (s.reset_error_code ≡ some 0x100))

reset_passes : TestStreamReset
unfolding Manager.new create_stream allocate register insert get Stream.new Stream.reset Flow.new
    Flow.initialize_stream open_state reset_stream get_stream
reset_passes = (refl, refl, (_, refl, refl, refl, refl))

abbrev TestStreamStatistics : Type 0
TestStreamStatistics =
    let (m, first) = create_stream client client_bidirectional 0 in
    let (n, second) = create_stream m client_bidirectional 0 in
    let (o, r) = close_stream n 4 in
    let stats = get_stream_stats o in
    (first ≡ ok 0)
    × (second ≡ ok 4)
    × (r ≡ ok tt)
    × (stats.total_streams ≡ 2)
    × (stats.open_streams ≡ 1)
    × (stats.closed_streams ≡ 1)

statistics_pass : TestStreamStatistics
unfolding Manager.new create_stream allocate register insert get remove Stream.new Flow.new
    Flow.initialize_stream Flow.remove_stream open_state close_stream get_stream_stats
statistics_pass = (refl, refl, refl, refl, refl, refl)

abbrev TestRemoteStreamAcceptance : Type 0
TestRemoteStreamAcceptance =
    let (m, r) = accept_stream client 1 0 in
    (can_accept_stream client 1 ≡ true)
    × (can_accept_stream client 3 ≡ true)
    × (can_accept_stream client 0 ≡ false)
    × (can_accept_stream client 2 ≡ false)
    × (r ≡ ok tt)
    × (stream_exists m 1 ≡ true)
    × (m.max_remote_stream_id ≡ 1)

acceptance_passes : TestRemoteStreamAcceptance
unfolding Manager.new can_accept_stream is_remote_initiated Stream.from_id accept_stream register
    insert get Stream.new Flow.new Flow.initialize_stream stream_exists
acceptance_passes = (refl, refl, refl, refl, refl, refl, refl)
