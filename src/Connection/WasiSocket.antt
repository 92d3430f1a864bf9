-- ===== src/Connection/WasiSocket.antt =====
-- Receiving in src/transport/connection.rs from the WASI socket of src/network/socket.rs, which always
-- reports one byte.
use dummy_h.Prelude.{◌≡◌, [], arith, if◌then◌else◌}
use dummy_h.Error.{ok, err, map_err}
use dummy_h.Socket.{Inner, wasi_socket, recv_from, recv_from_inner}
use dummy_h.Socket.Wasi
use dummy_h.Socket.Wasi.{WasiUdpSocket, local_server}
use dummy_h.Socket.Address.{same_addr}
use dummy_h.Connection.{QuicConnection, failure, panic}
use dummy_h.Connection.Incoming.{
  Receiving, accept_packet, count_received, front_of, process_incoming,
}

module _ {C S : Type 0} where
  one_byte :
      (c : QuicConnection C S) (w : Receiving)
      → (accept_packet (record c { recv_buffer = [] }) (ok (1, local_server)) w).1
        ≡ (if same_addr local_server c.remote_addr then err panic else ok tt)
  unfolding accept_packet front_of count_received
  one_byte c w = ground arith

  wasi_read :
      (c : QuicConnection C S) (inner : Inner) (s : WasiUdpSocket) (w : Receiving)
      → inner ≡ wasi_socket s
      → let (buffer, r) = recv_from_inner inner c.socket.local_addr [] w.answer in
        (accept_packet (record c { recv_buffer = buffer }) (map_err failure r) w).1
        ≡ (if same_addr local_server c.remote_addr then err panic else ok tt)
  unfolding recv_from_inner Wasi.recv_from
  wasi_read c inner s w e = rw e (one_byte c w)

  -- With a WASI socket, receiving panics exactly if the peer's address is 127.0.0.1:8080, since one
  -- byte is taken from a buffer that has none; with any other peer it succeeds.
  pub process_incoming-wasi :
      (c : QuicConnection C S) (s : WasiUdpSocket) (w : Receiving)
      → c.socket.inner ≡ wasi_socket s
      → (process_incoming c w).1
        ≡ (if same_addr local_server c.remote_addr then err panic else ok tt)
  unfolding process_incoming recv_from
  process_incoming-wasi c s w e = wasi_read c c.socket.inner s w e
