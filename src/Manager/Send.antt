-- ===== src/Manager/Send.antt =====
-- Sending on the streams of a `StreamManager` of src/protocol/stream.rs.
use dummy_h.Prelude.{
  ℕ, ◌+◌, ◌≡◌, refl, ap, ◌∙◌, ◌≢◌, inl, inr, true, false, none, some, arith, Option-cases,
}
use dummy_h.Prelude.Table.{get, get-insert}
use dummy_h.Error.{ok}
use dummy_h.Frame.{H3Frame, stream_id}
use dummy_h.Flow
use dummy_h.Flow.{FlowController}
use dummy_h.Stream
use dummy_h.Stream.{StreamType, StreamState, opened, idle, closed, from_id}
use dummy_h.Manager.{StreamManager, register, get_stream, accept_stream, accept_as, process_frame}
use dummy_h.Manager.Windows.{can_send_data, reserve_send_window, send_window}
use dummy_h.Manager.Streams.{process_frame_unknown}
use dummy_h.Flow.Windows.{can_send_iff, reserve_granted}

-- Where `can_send_data` answers yes, the stream is known and can send, and reserving the bytes
-- lowers the window of the connection and that of the stream by exactly them. The streams, with the
-- windows they keep themselves, are as before.
pub can_send_data-reserve :
    (m : StreamManager) (id bytes : ℕ)
    → can_send_data m id bytes ≡ true
    → let n = (reserve_send_window m id bytes).0 in
      ((s : StreamState) × ((get_stream m id ≡ some s) × (Stream.can_send s ≡ true)))
      × (send_window n 0 + bytes ≡ send_window m 0)
      × (send_window n id + bytes ≡ send_window m id)
      × (n.streams ≡ m.streams)
unfolding can_send_data reserve_send_window send_window get_stream Flow.send_window
can_send_data-reserve m id bytes h = elim (Option-cases (get m.streams id)) [
  | inl e ↦ absurd (ground arith)
  | inr (s, e) ↦
      let allowed : Flow.can_send m.flow_controller id bytes ≡ true = ground arith in
      let able : Stream.can_send s ≡ true = ground arith in
      let granted =
        reserve_granted m.flow_controller id bytes
          ((can_send_iff m.flow_controller id bytes).0 allowed).0 in
      ((s, (e, able)), granted.0, granted.1, refl)
]

-- Nothing can be sent on a stream that the flow controller does not know.
unregistered :
    (m : StreamManager) (id bytes : ℕ)
    → id ≢ 0
    → get m.flow_controller.stream_send_windows id ≡ none
    → can_send_data m id bytes ≡ false
unfolding can_send_data Flow.can_send
unregistered m id bytes nz h = ground arith

-- A stream that a frame creates is one on which `can_send_data` refuses any number of bytes, if it
-- is not stream 0.
pub can_send_data-process_frame :
    {H : Type 0} (m : StreamManager) (frame : H3Frame H) (now id bytes : ℕ)
    → id ≢ 0
    → stream_id frame ≡ some id
    → get m.streams id ≡ none
    → get m.flow_controller.stream_send_windows id ≡ none
    → can_send_data (process_frame m frame now).0 id bytes ≡ false
can_send_data-process_frame m frame now id bytes nz named unknown untold =
    let same = (process_frame_unknown m frame now id named unknown).2 in
    unregistered (process_frame m frame now).0 id bytes nz
      (ap (λ (c : FlowController). get c.stream_send_windows id) same ∙ untold)

-- A stream that was accepted is one on which it refuses them too, since the stream is still idle.
pub can_send_data-accept_stream :
    (m : StreamManager) (id now bytes : ℕ)
    → (accept_stream m id now).1 ≡ ok tt
    → can_send_data (accept_stream m id now).0 id bytes ≡ false
unfolding can_send_data accept_stream accept_as register Stream.can_send Stream.new
can_send_data-accept_stream m id now bytes h =
    ground (arith, get-insert m.streams id id (Stream.new id m.config now))
