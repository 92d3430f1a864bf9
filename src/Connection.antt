-- ===== src/Connection.antt =====
-- `QuicConnection` of src/transport/connection.rs: its configuration and state, and how packets are
-- built and sent. A time is a number of nanoseconds; each `Instant::now()` is an argument, as are the
-- answers of the operating system.
pub mod Create
pub mod Incoming
pub mod Calls
pub mod Steps
pub mod Changes
pub mod Machine
pub mod Refine
pub mod Invariants
pub mod Sent
pub mod Network
pub mod Start
pub mod WasiSocket
pub mod Endpoint
use Prim.Native.String.{String}
use dummy_h.Prelude.{
  ℕ, ◌+◌, ◌-◌, ◌/◌, ◌%◌, ◌^◌, Bool, ◌||◌, Option, none, some, List, [], ◌∷◌, ◌++◌, ltb, leb, ◌==◌,
  if◌then◌else◌, length, take, replicate,
}
use dummy_h.Prelude.Table.{Table}
use dummy_h.Error.{msg, invalid_state, H3Error, connection, Result, ok, err, ◌>>=◌, map_err}
use dummy_h.Varint.{Bytes}
use dummy_h.Packet.{Packet}
use dummy_h.Stream.{StreamPriority, normal}
use dummy_h.Manager.{StreamManager}
use dummy_h.Crypto.{RingLib, codes, to_be_bytes}
use dummy_h.Crypto.Tls.{TlsConfig, TlsSession, new_config, new_client}
use dummy_h.Crypto.Protection.{PacketProtection, new_protection}
use dummy_h.Socket.{UdpSocket, send_to}
use dummy_h.Socket.Address.{SocketAddr, IoError}

abbrev pub max_packet_size : ℕ
max_packet_size = 1350

-- `StreamConfig` of this file, which has two of the fields of the one in `src/config.rs`.
pub record StreamDefaults : Type 0 where
  pub initial_window_size : ℕ
  pub priority : StreamPriority

pub record ConnectionConfig (C S : Type 0) : Type 0 where
  pub timeout : ℕ
  pub idle_timeout : ℕ
  pub keep_alive : Option ℕ
  pub max_streams : ℕ
  pub initial_window_size : ℕ
  pub max_packet_size : ℕ
  pub stream_config : StreamDefaults
  pub tls_config : TlsConfig C S

-- 10, 30 and 15 seconds.
unfoldable pub default_config : {C S : Type 0} → ConnectionConfig C S
unfolding new_config
default_config = record {
  timeout = 10000000000;
  idle_timeout = 30000000000;
  keep_alive = some 15000000000;
  max_streams = 100;
  initial_window_size = 65536;
  max_packet_size = max_packet_size;
  stream_config = record { initial_window_size = 65536; priority = normal };
  tls_config = new_config;
}

-- `ConnectionId::from_slice`: the first sixteen bytes.
unfoldable pub from_slice : Bytes → Option Bytes
from_slice slice = if leb 16 (length slice) then some (take 16 slice) else none

pub data ConnectionState : Type 0 where
  connecting connected closing closed error : ConnectionState

unfoldable pub state_code : ConnectionState → ℕ
state_code connecting = 0
state_code connected = 1
state_code closing = 2
state_code closed = 3
state_code error = 4

-- `==` on states.
unfoldable pub in_state : ConnectionState → ConnectionState → Bool
unfolding state_code
in_state s t = state_code s == state_code t

pub record ConnectionStats : Type 0 where
  pub bytes_sent : ℕ
  pub bytes_received : ℕ
  pub packets_sent : ℕ
  pub packets_received : ℕ
  pub rtt : ℕ
  pub establishment_time : Option ℕ

unfoldable pub no_stats : ConnectionStats
no_stats = record {
  bytes_sent = 0;
  bytes_received = 0;
  packets_sent = 0;
  packets_received = 0;
  rtt = 0;
  establishment_time = none;
}

-- `outbox` is no field of the code: it keeps the packets that the socket took, the newest first.
pub record QuicConnection (C S : Type 0) : Type 0 where
  pub id : Bytes
  pub remote_addr : SocketAddr
  pub config : ConnectionConfig C S
  pub state : ConnectionState
  pub socket : UdpSocket
  pub outbox : List Bytes
  pub stream_manager : StreamManager
  pub stats : ConnectionStats
  pub created_at : ℕ
  pub last_activity : ℕ
  pub recv_buffer : Bytes
  pub next_packet_number : ℕ
  pub received_packet_numbers : Table ℕ
  pub outgoing_packets : List Packet
  pub incoming_packets : List Packet
  pub is_client : Bool
  pub peer_connection_id : Option Bytes
  pub local_connection_id : Bytes
  pub tls_session : Option (TlsSession C S)
  pub packet_protection : Option (PacketProtection C S)

-- A call returns, or indexes a slice out of its range.
pub data Stop : Type 0 where
  failure : H3Error → Stop
  panic : Stop

-- A method returns the connection that it leaves with its result.
abbrev pub Call {ℓ} : (C S : Type 0) → Type ℓ → Type ℓ
Call C S A = QuicConnection C S × Result Stop A

-- What the system answers when a packet is sent, and the time after it.
pub record Sending : Type 0 where
  pub answer : Result IoError ℕ
  pub at : ℕ

-- The type byte, the connection ID and four bytes of zero.
abbrev pub packet_start : ℕ → Bytes → Bytes
packet_start code id = code ∷ (id ++ replicate 4 0)

module _ {C S : Type 0} where
  -- `?` between two parts of a method.
  abbrev pub chain {ℓ κ} :
      {A : Type ℓ} {B : Type κ} → Call C S A → (QuicConnection C S → A → Call C S B) → Call C S B
  chain (c, ok a) f = f c a
  chain (c, err e) f = (c, err e)

  abbrev pub done : QuicConnection C S → Call C S (Unit {0})
  done c = (c, ok tt)

  unfoldable pub create_initial_packet : QuicConnection C S → Bytes
  create_initial_packet c = packet_start 0x80 c.local_connection_id ++ codes "QUIC Initial Packet"

  unfoldable pub create_handshake_packet : QuicConnection C S → Bytes
  create_handshake_packet c =
      packet_start 0x81 c.local_connection_id ++ codes "QUIC Handshake Packet"

  unfoldable pub create_data_packet : QuicConnection C S → Bytes
  create_data_packet c = packet_start 0x82 c.local_connection_id ++ codes "QUIC Data Packet"

  unfoldable pub create_ack_packet : QuicConnection C S → Bytes
  create_ack_packet c = packet_start 0x83 c.local_connection_id ++ codes "QUIC ACK Packet"

  -- The error code is a `u16`.
  unfoldable pub create_close_packet : QuicConnection C S → ℕ → String → Bytes
  create_close_packet c error_code reason =
      packet_start 0x85 c.local_connection_id
      ++ error_code / 2 ^ 8 % 256 ∷ error_code % 256 ∷ codes reason

  -- The packet of `send_stream_data`.
  unfoldable pub stream_packet : QuicConnection C S → ℕ → Bytes → Bool → Bytes
  stream_packet c stream_id bytes fin =
      packet_start 0x82 c.local_connection_id
      ++ (to_be_bytes stream_id ++ (bytes ++ (if fin then 0x01 else 0x00) ∷ []))

  -- The packet of `send_datagram`.
  unfoldable pub datagram_packet : QuicConnection C S → Bytes → Bytes
  datagram_packet c bytes = packet_start 0x84 c.local_connection_id ++ bytes

  -- `send_packet` after the socket's result.
  unfoldable pub record_sent :
      QuicConnection C S → Bytes → ℕ → Result H3Error ℕ → Call C S (Unit {0})
  record_sent c packet now (err e) = (c, err (failure e))
  record_sent c packet now (ok bytes_sent) = done (record c {
    outbox = packet ∷ c.outbox;
    stats = record c.stats {
      packets_sent = (c.stats.packets_sent + 1) % 2 ^ 64;
      bytes_sent = (c.stats.bytes_sent + bytes_sent) % 2 ^ 64;
    };
    last_activity = now;
    next_packet_number = (c.next_packet_number + 1) % 2 ^ 64;
  })

  unfoldable pub send_packet : QuicConnection C S → Bytes → Sending → Call C S (Unit {0})
  unfolding record_sent
  send_packet c packet w =
      record_sent c packet w.at (send_to c.socket packet c.remote_addr w.answer)

  unfoldable pub initiate_connection : QuicConnection C S → Sending → Call C S (Unit {0})
  initiate_connection c w = send_packet c (create_initial_packet c) w

  abbrev pub not_connected {ℓ} : {A : Type ℓ} → String → QuicConnection C S → Call C S A
  not_connected text c =
      (c, err (failure (connection (invalid_state (msg text (state_code c.state ∷ []))))))

  unfoldable pub is_connected : QuicConnection C S → Bool
  is_connected c = in_state c.state connected

  unfoldable pub is_alive : QuicConnection C S → Bool
  is_alive c = in_state c.state connecting || in_state c.state connected

  -- `Instant::elapsed` stops at 0.
  unfoldable pub is_timed_out : QuicConnection C S → ℕ → Bool
  is_timed_out c now = ltb c.config.idle_timeout (now - c.last_activity)

  -- `CONNECTION_CLOSE` with the code 0; the connection stays in `Closing` when it cannot be sent.
  unfoldable pub close : QuicConnection C S → Sending → Call C S (Unit {0})
  close c w =
      let c' = record c { state = closing } in
      chain (send_packet c' (create_close_packet c' 0 "Normal closure") w)
        λ d u. done (record d { state = closed })
