-- ===== src/Tests/Connections.antt =====
-- Connections of src/transport/connection.rs, and a response of src/client/mod.rs, at concrete inputs.
use dummy_h.Prelude.{
  ◌≡◌, refl, ◌≢◌, true, false, ◌&&◌, none, some, List, [], ◌∷◌, arith, if◌then◌else◌, replicate,
}
use dummy_h.Error.{◌>>=◌, ok, err}
use dummy_h.Stream.{normal}
use dummy_h.Tests.Protections.{toy_ring}
use dummy_h.Socket.{UdpSocket, std_socket, wasi_socket, send_to}
use dummy_h.Socket.Address.{SocketAddr, v4, same_addr}
use dummy_h.Socket.Wasi.{local_server, WasiUdpSocket}
use dummy_h.Connection.{
  QuicConnection, ConnectionConfig, connecting, connected, panic, Sending, is_alive,
  create_handshake_packet, create_data_packet, send_packet, record_sent, close, in_state,
  state_code, no_stats,
}
use dummy_h.Connection.Create.{fresh}
use dummy_h.Connection.Incoming.{Receiving, process_packet, process_incoming}
use dummy_h.Connection.Calls.{maintain}
use dummy_h.Connection.Steps.{here, next, incoming, packet, maintaining, Changes}
use dummy_h.Connection.Machine.{any_ends, ends_handshake, process_all, process_all-state}
use dummy_h.Connection.Refine.{Step-Changes}
use dummy_h.Connection.Invariants.{IsCounted, Reach-IsCounted, Reach-ended, never_connected}
use dummy_h.Varint.{Bytes}
use dummy_h.Http.{bytes}
use dummy_h.Http.Chunks.{
  ResponseStream, collect_body, until_error, concat, collect_body-until_error,
}
use dummy_h.Connection.WasiSocket.{process_incoming-wasi}

abbrev pub server_addr : SocketAddr
server_addr = v4 (127 ∷ 0 ∷ 0 ∷ 1 ∷ []) 8080

abbrev pub native : UdpSocket
native = record { inner = std_socket; local_addr = v4 (0 ∷ 0 ∷ 0 ∷ 0 ∷ []) 0 }

abbrev wasi : WasiUdpSocket
wasi = record { fd = 42; non_blocking = true; recv_buffer_size = 8192; send_buffer_size = 8192 }

abbrev pub plain_config : ConnectionConfig (Unit {0}) (Unit {0})
plain_config = record {
  timeout = 10;
  idle_timeout = 30;
  keep_alive = some 15;
  max_streams = 100;
  initial_window_size = 65536;
  max_packet_size = 1350;
  stream_config = record { initial_window_size = 65536; priority = normal };
  tls_config = record { client_config = none; server_config = none };
}

abbrev pub waiting_client : QuicConnection (Unit {0}) (Unit {0})
waiting_client = fresh native server_addr plain_config true (replicate 16 1) 5

abbrev pub waiting_server : QuicConnection (Unit {0}) (Unit {0})
waiting_server = fresh native server_addr plain_config false (replicate 16 2) 5

abbrev pub all_sent : Sending
all_sent = record { answer = ok 38; at = 9 }

-- A datagram arrived, and nothing of it fits the buffer.
abbrev pub cut_off : Receiving
cut_off = record { answer = ok ([], server_addr); at = 9; established_at = 9; reply = all_sent }

-- A packet of acknowledgments, one that ends a handshake, and one of data.
abbrev three_packets : List (Bytes × Receiving)
three_packets =
    (0x83 ∷ [], cut_off)
    ∷ (create_handshake_packet waiting_server, cut_off)
    ∷ (0x82 ∷ [], cut_off)
    ∷ []

process_all-state_example : (process_all waiting_client three_packets).state ≡ (
    if any_ends three_packets && in_state waiting_client.state connecting
    then connected
    else waiting_client.state)
process_all-state_example = process_all-state waiting_client three_packets

now_connected : (process_all waiting_client three_packets).state ≡ connected
unfolding any_ends ends_handshake in_state state_code fresh create_handshake_packet
now_connected = process_all-state_example

Step-Changes_example : Changes false waiting_client (maintain waiting_client 9 9 all_sent cut_off).0
unfolding fresh
Step-Changes_example = Step-Changes (maintaining waiting_client 9 9 all_sent cut_off (refl, refl))

Reach-IsCounted_example : IsCounted (process_packet waiting_client (0x81 ∷ []) cut_off).0
unfolding fresh no_stats
Reach-IsCounted_example =
    Reach-IsCounted {hears = true} {c = waiting_client}
      (next here (packet waiting_client (0x81 ∷ []) cut_off refl)) (omega arith, omega arith)

abbrev ended : QuicConnection (Unit {0}) (Unit {0})
ended = (close waiting_client all_sent).0

Reach-ended_example : is_alive (process_packet ended (0x81 ∷ []) cut_off).0 ≡ false
unfolding fresh close send_packet record_sent send_to is_alive in_state state_code
    create_data_packet
Reach-ended_example =
    Reach-ended {hears = true} {c = ended} (next here (packet ended (0x81 ∷ []) cut_off refl)) refl

never_connected_example : (process_incoming waiting_client cut_off).0.state ≢ connected
unfolding fresh
never_connected_example =
    never_connected {c = waiting_client} (next here (incoming waiting_client cut_off (refl, refl)))
      (λ e. absurd (ground arith))

abbrev on_wasi : QuicConnection (Unit {0}) (Unit {0})
on_wasi = record waiting_client {
  socket = record { inner = wasi_socket wasi; local_addr = server_addr };
}

process_incoming-wasi_example :
    (process_incoming on_wasi cut_off).1
    ≡ (if same_addr local_server on_wasi.remote_addr then err panic else ok tt)
process_incoming-wasi_example = process_incoming-wasi on_wasi wasi cut_off refl

abbrev response : ResponseStream (Unit {0}) (Unit {0})
response = record {
  headers = none;
  status = none;
  chunks = ok (1 ∷ 2 ∷ []) ∷ ok (3 ∷ []) ∷ [];
  complete = false;
}

collect_body-until_error_example :
    collect_body (λ chunks. bytes (concat chunks)) response
    ≡ some (until_error response.chunks >>= λ chunks. ok (bytes (concat chunks)))
collect_body-until_error_example =
    collect_body-until_error (λ chunks. bytes (concat chunks)) response refl
