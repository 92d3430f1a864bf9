-- ===== src/Manager/Streams.antt =====
-- What the calls of `StreamManager` in src/protocol/stream.rs do to its table of streams.
use dummy_h.Prelude.{ℕ, ◌+◌, ◌≡◌, refl, none, some, arith, length}
use dummy_h.Prelude.Table.{get, insert, get-insert, length-insert_new, length-insert_known}
use dummy_h.Frame.{H3Frame, stream_id}
use dummy_h.Stream
use dummy_h.Stream.{StreamState}
use dummy_h.Stream.Calls.{receive}
use dummy_h.Stream.Calls
use dummy_h.Manager.{
  StreamManager, process_frame, ensure_stream, deliver, stream_exists, open_state,
}

module _ {H : Type 0} where
  process-named :
      (m : StreamManager) (frame : H3Frame H) (now id : ℕ)
      → stream_id frame ≡ some id
      → process_frame m frame now ≡ deliver (ensure_stream m id now) id frame
  unfolding process_frame
  process-named m frame now id named = rw (process_frame, named) refl

  pub deliver-known :
      (m : StreamManager) (frame : H3Frame H) (id : ℕ) (s : StreamState)
      → get m.streams id ≡ some s
      → deliver m id frame ≡ (
        record m { streams = insert m.streams id (Stream.process_frame s frame).0 },
        (Stream.process_frame s frame).1,
      )
  unfolding deliver
  deliver-known m frame id s known = rw (deliver, known) refl

  -- A frame for a stream that is not known makes one more stream, whatever `max_concurrent_streams`
  -- and `max_remote_stream_id` say; the stream takes the frame as an open one would, and the flow
  -- controller is not told of it.
  pub process_frame_unknown :
      (m : StreamManager) (frame : H3Frame H) (now id : ℕ)
      → stream_id frame ≡ some id
      → get m.streams id ≡ none
      → let (n, r) = process_frame m frame now in
        (length n.streams ≡ length m.streams + 1)
        × (get n.streams id ≡ some (Calls.step (open_state m id now) (receive frame)))
        × (n.flow_controller ≡ m.flow_controller)
  unfolding ensure_stream stream_exists Calls.step
  process_frame_unknown m frame now id named unknown =
      let s = open_state m id now in
      let n = record m { streams = insert m.streams id s } in
      let made : ensure_stream m id now ≡ n = rw (ensure_stream, stream_exists, unknown) refl in
      let here : get n.streams id ≡ some s = ground (arith, get-insert m.streams id id s) in
      let t = (Stream.process_frame s frame).0 in
      rw (process-named m frame now id named, made, deliver-known n frame id s here)
        (
          omega (
            arith,
            length-insert_known n.streams id t s here,
            length-insert_new m.streams id s unknown,
          ),
          ground (arith, get-insert n.streams id id t),
          refl,
        )
