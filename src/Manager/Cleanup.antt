-- ===== src/Manager/Cleanup.antt =====
-- The cleanup of streams and the statistics of `StreamManager`.
use dummy_h.Prelude.{ℕ, ◌+◌, ◌-◌, ◌%◌, ◌^◌, ◌||◌, List, [], ◌∷◌, ltb, ◌==◌, if◌then◌else◌}
use dummy_h.Prelude.Table.{Table, remove}
use dummy_h.Flow.{remove_stream}
use dummy_h.Stream.{
  StreamState, StreamStateType, opened, half_closed_local, half_closed_remote, closed, is_closed,
  is_idle_timeout,
}
use dummy_h.Manager.{StreamManager, PriorityEntry}
use dummy_h.Manager.Windows.{connection_send_window, connection_recv_window}
use dummy_h.Manager.Schedule.{without_child}

-- `self.streams.retain(|_, stream| !stream.is_closed())`
unfoldable pub retain_open : Table StreamState → Table StreamState
retain_open [] = []
retain_open ((id, s) ∷ rest) =
    let kept = retain_open rest in if is_closed s then kept else (id, s) ∷ kept

unfoldable pub cleanup_closed_streams : StreamManager → StreamManager
unfolding retain_open
cleanup_closed_streams m = record m { streams = retain_open m.streams }

-- The first loop of `cleanup_idle_streams`. `elapsed()` reads the clock again; here it is `now`.
unfoldable pub to_remove : ℕ → ℕ → Table StreamState → List ℕ
to_remove timeout now [] = []
to_remove timeout now ((id, s) ∷ rest) =
    let ids = to_remove timeout now rest in
    if is_closed s || is_idle_timeout s timeout now then id ∷ ids else ids

-- `self.priority_queue.retain(|entry| entry.stream_id != stream_id)`
unfoldable pub without_entry : List PriorityEntry → ℕ → List PriorityEntry
without_entry [] id = []
without_entry (e ∷ es) id =
    let rest = without_entry es id in if e.stream_id == id then rest else e ∷ rest

-- The body of the second loop.
unfoldable pub forget_stream : StreamManager → ℕ → StreamManager
unfolding without_entry
forget_stream m id = record m {
  streams = remove m.streams id;
  priority_queue = without_entry m.priority_queue id;
  dependency_tree = without_child (remove m.dependency_tree id) id;
  flow_controller = remove_stream m.flow_controller id;
}

unfoldable pub forget_streams : StreamManager → List ℕ → StreamManager
unfolding forget_stream
forget_streams m [] = m
forget_streams m (id ∷ ids) = forget_streams (forget_stream m id) ids

-- At most once every 30 seconds; `duration_since` is 0 if the clock is behind.
unfoldable pub cleanup_idle_streams : StreamManager → ℕ → StreamManager
unfolding forget_streams to_remove
cleanup_idle_streams m now =
    if ltb (now - m.last_cleanup) 30000000000
    then m
    else record (forget_streams m (to_remove m.idle_timeout now m.streams)) { last_cleanup = now }

pub record StreamStats : Type 0 where
  pub total_streams : ℕ
  pub open_streams : ℕ
  pub half_closed_local : ℕ
  pub half_closed_remote : ℕ
  pub closed_streams : ℕ
  pub reset_streams : ℕ
  pub total_bytes_sent : ℕ
  pub total_bytes_received : ℕ
  pub connection_send_window : ℕ
  pub connection_recv_window : ℕ
  pub max_concurrent_streams : ℕ

-- `StreamStats::default()`
abbrev empty_stats : StreamStats
empty_stats = record {
  total_streams = 0;
  open_streams = 0;
  half_closed_local = 0;
  half_closed_remote = 0;
  closed_streams = 0;
  reset_streams = 0;
  total_bytes_sent = 0;
  total_bytes_received = 0;
  connection_send_window = 0;
  connection_recv_window = 0;
  max_concurrent_streams = 0;
}

-- `match stream.state { … }`
unfoldable pub count_state : StreamStats → StreamStateType → StreamStats
count_state t opened = record t { open_streams = t.open_streams + 1 }
count_state t half_closed_local = record t { half_closed_local = t.half_closed_local + 1 }
count_state t half_closed_remote = record t { half_closed_remote = t.half_closed_remote + 1 }
count_state t closed = record t { closed_streams = t.closed_streams + 1 }
count_state t other = t

-- The body of the loop of `get_stream_stats`. A count stays below the number of streams, so only the
-- sums of bytes may wrap.
unfoldable pub count_stream : StreamStats → StreamState → StreamStats
unfolding count_state
count_stream t s =
    let u =
      count_state
        (record t {
          total_streams = t.total_streams + 1;
          total_bytes_sent = (t.total_bytes_sent + s.bytes_sent) % 2 ^ 64;
          total_bytes_received = (t.total_bytes_received + s.bytes_received) % 2 ^ 64;
        })
        s.state in
    if s.is_reset then record u { reset_streams = u.reset_streams + 1 } else u

unfoldable pub count_streams : StreamStats → Table StreamState → StreamStats
unfolding count_stream
count_streams t [] = t
count_streams t ((id, s) ∷ rest) = count_streams (count_stream t s) rest

unfoldable pub get_stream_stats : StreamManager → StreamStats
unfolding count_streams
get_stream_stats m = record (count_streams empty_stats m.streams) {
  connection_send_window = connection_send_window m;
  connection_recv_window = connection_recv_window m;
  max_concurrent_streams = m.max_concurrent_streams;
}
