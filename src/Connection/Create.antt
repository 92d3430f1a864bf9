-- ===== src/Connection/Create.antt =====
-- Creating a connection in src/transport/connection.rs: `new` and `connect` of `QuicConnection`.
use Prim.Native.String.{String}
use dummy_h.Prelude.{ℕ, Bool, true, false, none, some, []}
use dummy_h.Error.{Result, ok, ◌>>=◌, map_err, H3Error}
use dummy_h.Varint.{Bytes}
use dummy_h.Manager
use dummy_h.Crypto.{RingLib}
use dummy_h.Crypto.Tls.{new_client}
use dummy_h.Crypto.Protection.{new_protection}
use dummy_h.Socket.{UdpSocket}
use dummy_h.Socket.Address.{SocketAddr}
use dummy_h.Connection.{
  ConnectionConfig, connecting, no_stats, QuicConnection, Stop, failure, Sending,
  initiate_connection,
}

module _ {C S : Type 0} where
  -- The connection of `new` before its client's part; `id` is the random identifier.
  unfoldable pub fresh :
      UdpSocket → SocketAddr → ConnectionConfig C S → Bool → Bytes → ℕ → QuicConnection C S
  unfolding no_stats
  fresh socket remote_addr config is_client id now = record {
    id = id;
    remote_addr = remote_addr;
    config = config;
    state = connecting;
    socket = socket;
    outbox = [];
    stream_manager =
        Manager.new
          (record {
            initial_window_size = config.stream_config.initial_window_size;
            max_frame_size = 16384;
            priority = config.stream_config.priority;
            enable_flow_control = true;
          })
          is_client now;
    stats = no_stats;
    created_at = now;
    last_activity = now;
    recv_buffer = [];
    next_packet_number = 0;
    received_packet_numbers = [];
    outgoing_packets = [];
    incoming_packets = [];
    is_client = is_client;
    peer_connection_id = none;
    local_connection_id = id;
    tls_session = none;
    packet_protection = none;
  }

  module _ ⦃R : RingLib⦄ where
    -- The two `if is_client { … }` of `new`; `server_name` is the text of the remote address.
    unfoldable pub start :
        QuicConnection C S → Bool → String → Sending → Result Stop (QuicConnection C S)
    unfolding initiate_connection
    start c false server_name w = ok c
    start c true server_name w = do
      session ← map_err failure (new_client c.config.tls_config server_name)
      protection ← map_err failure (new_protection session c.local_connection_id true)
      let c' = record c { packet_protection = some protection } in
          (initiate_connection c' w).1 >>= λ u. ok (initiate_connection c' w).0

    unfoldable pub new :
        UdpSocket
        → SocketAddr
        → ConnectionConfig C S
        → Bool
        → Bytes
        → ℕ
        → String
        → Sending
        → Result Stop (QuicConnection C S)
    unfolding start fresh
    new socket remote_addr config is_client id now server_name w =
        start (fresh socket remote_addr config is_client id now) is_client server_name w

    -- `bound` is the result of `UdpSocket::bind("0.0.0.0:0")`.
    unfoldable pub connect :
        Result H3Error UdpSocket
        → SocketAddr
        → ConnectionConfig C S
        → Bytes
        → ℕ
        → String
        → Sending
        → Result Stop (QuicConnection C S)
    unfolding new
    connect bound addr config id now server_name w =
        map_err failure bound >>= λ socket. new socket addr config true id now server_name w
