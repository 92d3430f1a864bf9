-- ===== src/Connection/Calls.antt =====
-- The streams, datagrams and maintenance of src/transport/connection.rs, with `QuicStream` of
-- src/transport/mod.rs.
use dummy_h.Prelude.{
  ℕ, ◌-◌, Bool, true, false, not, ◌&&◌, Option, none, some, ltb, if◌then◌else◌, length,
}
use dummy_h.Error.{H3Error, Result, ok, map_err}
use dummy_h.Varint.{Bytes}
use dummy_h.Stream.{StreamType, is_bidirectional}
use dummy_h.Manager.{create_stream}
use dummy_h.Connection.{
  QuicConnection, closed, failure, Call, Sending, chain, done, not_connected, is_connected,
  is_timed_out, send_packet, stream_packet, datagram_packet, create_data_packet,
}
use dummy_h.Connection.Incoming.{Receiving, process_incoming}

pub record QuicStream : Type 0 where
  pub id : ℕ
  pub is_bidirectional : Bool

-- `send`, `recv` and `close` of a stream reach no connection.
unfoldable pub stream_send : QuicStream → Bytes → QuicStream × Result H3Error (Unit {0})
stream_send s bytes = (s, ok tt)

unfoldable pub stream_recv : QuicStream → QuicStream × Result H3Error (Option Bytes)
stream_recv s = (s, ok none)

unfoldable pub stream_close : QuicStream → QuicStream × Result H3Error (Unit {0})
stream_close s = (s, ok tt)

module _ {C S : Type 0} where
  unfoldable pub accept_stream : QuicConnection C S → Receiving → Call C S QuicStream
  accept_stream c w =
      if not (is_connected c)
      then not_connected "Cannot accept stream in state: " c
      else (chain (process_incoming c w)
          λ d u. (d, ok (record { id = if d.is_client then 1 else 0; is_bidirectional = true })))

  unfoldable pub open_stream : QuicConnection C S → StreamType → ℕ → Call C S QuicStream
  open_stream c stream_type now =
      if not (is_connected c)
      then not_connected "Cannot open stream in state: " c
      else (let (m, r) = create_stream c.stream_manager stream_type now in
          chain (record c { stream_manager = m }, map_err failure r)
            λ d id. (d, ok (record { id = id; is_bidirectional = is_bidirectional stream_type })))

  unfoldable pub send_stream_data : QuicConnection C S → ℕ → Bytes → Bool → Sending → Call C S ℕ
  send_stream_data c stream_id bytes fin w =
      if not (is_connected c)
      then not_connected "Cannot send stream data in state: " c
      else (chain (send_packet c (stream_packet c stream_id bytes fin) w)
          λ d u. (d, ok (length bytes)))

  unfoldable pub send_datagram : QuicConnection C S → Bytes → Sending → Call C S (Unit {0})
  send_datagram c bytes w =
      if not (is_connected c)
      then not_connected "Cannot send datagram in state: " c
      else send_packet c (datagram_packet c bytes) w

  unfoldable pub recv_datagram : QuicConnection C S → Receiving → Call C S (Option Bytes)
  recv_datagram c w =
      if not (is_connected c)
      then not_connected "Cannot receive datagram in state: " c
      else (chain (process_incoming c w) λ d u. (d, ok none))

  -- `if let Some(keep_alive) = self.config.keep_alive { … }` at the time `now`.
  unfoldable pub keep_alive_due : QuicConnection C S → Option ℕ → ℕ → Bool
  keep_alive_due c none now = false
  keep_alive_due c (some keep_alive) now = ltb keep_alive (now - c.last_activity) && is_connected c

  unfoldable pub send_keep_alive : QuicConnection C S → ℕ → Sending → Call C S (Unit {0})
  unfolding keep_alive_due
  send_keep_alive c now w =
      if keep_alive_due c c.config.keep_alive now
      then send_packet c (create_data_packet c) w
      else done c

  -- The times are those of the two tests.
  unfoldable pub maintain : QuicConnection C S → ℕ → ℕ → Sending → Receiving → Call C S (Unit {0})
  unfolding send_keep_alive
  maintain c now later w r =
      if is_timed_out c now
      then done (record c { state = closed })
      else chain (send_keep_alive c later w) λ d u. process_incoming d r
