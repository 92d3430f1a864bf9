-- ===== src/Connection/Incoming.antt =====
-- Receiving packets in src/transport/connection.rs.
use dummy_h.Prelude.{
  ℕ, ◌+◌, ◌-◌, ◌%◌, ◌^◌, not, ◌&&◌, some, [], ◌∷◌, leb, ◌==◌, if◌then◌else◌, length, take,
}
use dummy_h.Error.{Result, ok, err, map_err}
use dummy_h.Varint.{Bytes}
use dummy_h.Socket.{Received, recv_from}
use dummy_h.Socket.Address.{SocketAddr, same_addr}
use dummy_h.Connection.{
  QuicConnection, connecting, connected, in_state, Stop, failure, panic, Call, Sending, chain, done,
  send_packet, create_handshake_packet, create_data_packet, create_ack_packet,
}

-- What the system answers when a packet is received, the time after it, the time when a handshake is
-- recorded, and what it answers when a reply is sent.
pub record Receiving : Type 0 where
  pub answer : Received
  pub at : ℕ
  pub established_at : ℕ
  pub reply : Sending

-- `self.recv_buffer[..bytes_read]`
unfoldable pub front_of : ℕ → Bytes → Result Stop Bytes
front_of n buffer = if leb n (length buffer) then ok (take n buffer) else err panic

module _ {C S : Type 0} where
  unfoldable pub handle_initial_packet : QuicConnection C S → Receiving → Call C S (Unit {0})
  handle_initial_packet c w =
      if in_state c.state connecting && not c.is_client
      then send_packet c (create_handshake_packet c) w.reply
      else done c

  -- `self.created_at.elapsed()` stops at 0.
  unfoldable pub establish : QuicConnection C S → ℕ → QuicConnection C S
  establish c now = record c {
    state = connected;
    stats = record c.stats { establishment_time = some (now - c.created_at) };
  }

  unfoldable pub handle_handshake_packet : QuicConnection C S → Receiving → Call C S (Unit {0})
  unfolding establish
  handle_handshake_packet c w =
      if in_state c.state connecting
      then (let d = establish c w.established_at in
          if c.is_client then send_packet d (create_data_packet d) w.reply else done d)
      else done c

  unfoldable pub handle_data_packet : QuicConnection C S → Receiving → Call C S (Unit {0})
  handle_data_packet c w =
      if in_state c.state connected then send_packet c (create_ack_packet c) w.reply else done c

  unfoldable pub process_packet : QuicConnection C S → Bytes → Receiving → Call C S (Unit {0})
  process_packet c [] w = done c
  process_packet c (b ∷ packet) w =
      if b == 0x80
      then handle_initial_packet c w
      else if b == 0x81
      then handle_handshake_packet c w
      else if b == 0x82
      then handle_data_packet c w
      else done c

  unfoldable pub count_received : QuicConnection C S → ℕ → ℕ → QuicConnection C S
  count_received c bytes_read now = record c {
    stats = record c.stats {
      packets_received = (c.stats.packets_received + 1) % 2 ^ 64;
      bytes_received = (c.stats.bytes_received + bytes_read) % 2 ^ 64;
    };
    last_activity = now;
  }

  -- `process_incoming` after the packet is received.
  unfoldable pub accept_packet :
      QuicConnection C S → Result Stop (ℕ × SocketAddr) → Receiving → Call C S (Unit {0})
  unfolding front_of
  accept_packet c (err e) w = (c, err e)
  accept_packet c (ok (bytes_read, from)) w =
      if bytes_read == 0
      then done c
      else if not (same_addr from c.remote_addr)
      then done c
      else chain (count_received c bytes_read w.at, front_of bytes_read c.recv_buffer)
          λ d packet. process_packet d packet w

  -- The buffer is emptied, and received into without being filled up first.
  unfoldable pub process_incoming : QuicConnection C S → Receiving → Call C S (Unit {0})
  unfolding accept_packet
  process_incoming c w =
      let (buffer, r) = recv_from c.socket [] w.answer in
      accept_packet (record c { recv_buffer = buffer }) (map_err failure r) w
