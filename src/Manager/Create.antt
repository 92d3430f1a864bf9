-- ===== src/Manager/Create.antt =====
-- Creating streams in `StreamManager` of src/protocol/stream.rs.
use dummy_h.Prelude.{
  ℕ, ◌+◌, ◌%◌, ◌^◌, ◌<◌, ◌≡◌, ◌≢◌, ◌↔◌, false, some, arith, ◌==◌, if◌then◌else◌, length,
}
use dummy_h.Prelude.Table.{get, get-insert}
use dummy_h.Error.{ok}
use dummy_h.Flow.{initialize_stream}
use dummy_h.Stream.{StreamType}
use dummy_h.Manager.{
  StreamManager, client_id, server_id, allocate, register, create_as, create_stream, open_state,
  is_remote_initiated, next_stream_id,
}

-- `create_stream` succeeds exactly below the limit, on the side that may create such a stream.
pub create_stream_iff :
    (m : StreamManager) (t : StreamType) (now : ℕ)
    → ((id : ℕ) × ((create_stream m t now).1 ≡ ok id))
      ↔ ((length m.streams < m.max_concurrent_streams) × (is_remote_initiated m t ≡ false))
unfolding create_stream create_as allocate client_id server_id register is_remote_initiated
    initialize_stream next_stream_id
create_stream_iff m t now = (λ (id, h). ground arith, λ (h, k). (next_stream_id m t, ground arith))

-- The stream that it creates stands under the identifier it returns, open, with its windows in the
-- flow controller unless the identifier is 0; the other streams are unchanged, and the counter of
-- that side goes on by four.
pub create_stream_lem :
    (m : StreamManager) (t : StreamType) (now id : ℕ)
    → (create_stream m t now).1 ≡ ok id
    → let n = (create_stream m t now).0 in
      (id ≡ next_stream_id m t)
      × (next_stream_id n t ≡ (id + 4) % 2 ^ 64)
      × ((j : ℕ)
          → get n.streams j ≡ (if id == j then some (open_state m id now) else get m.streams j))
      × (id ≢ 0
          → get n.flow_controller.stream_send_windows id
            ≡ some m.flow_controller.initial_stream_window)
unfolding create_stream create_as allocate client_id server_id register next_stream_id
    initialize_stream open_state
create_stream_lem m t now id h =
    let c = m.flow_controller in
    (
      ground arith,
      ground arith,
      λ j. ground (arith, get-insert m.streams id j (open_state m id now)),
      λ nz. ground (arith, get-insert c.stream_send_windows id id c.initial_stream_window),
    )
