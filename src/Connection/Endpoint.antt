-- ===== src/Connection/Endpoint.antt =====
-- `Endpoint` and `QuicListener` of src/transport/endpoint.rs.
use Prim.Native.String.{String}
use dummy_h.Prelude.{ℕ, ◌≡◌, Option, some, [], ◌∷◌}
use dummy_h.Error.{H3Error, Result, ok, err}
use dummy_h.Varint.{Bytes}
use dummy_h.Crypto.{RingLib}
use dummy_h.Socket.{UdpSocket}
use dummy_h.Socket.Address.{SocketAddr, v4}
use dummy_h.Connection.{QuicConnection, ConnectionConfig, default_config, Stop, failure, Sending}
use dummy_h.Connection.Create.{connect}
use dummy_h.Connection.Start.{opening_error, connect_fails}

pub record EndpointConfig (C S : Type 0) : Type 0 where
  pub connection_config : ConnectionConfig C S
  pub max_connections : Option ℕ

pub record Endpoint (C S : Type 0) : Type 0 where
  pub local_addr : SocketAddr
  pub config : EndpointConfig C S

pub record QuicListener (C S : Type 0) : Type 0 where
  pub endpoint : Endpoint C S

-- `"127.0.0.1:0"`
abbrev pub dummy_addr : SocketAddr
dummy_addr = v4 (127 ∷ 0 ∷ 0 ∷ 1 ∷ []) 0

module _ {C S : Type 0} where
  unfoldable pub default_endpoint : EndpointConfig C S
  unfolding default_config
  default_endpoint = record { connection_config = default_config; max_connections = some 1000 }

  -- No socket is bound.
  unfoldable pub bind_endpoint : SocketAddr → EndpointConfig C S → Result H3Error (Endpoint C S)
  bind_endpoint addr config = ok (record { local_addr = addr; config = config })

  unfoldable pub bind_listener : SocketAddr → EndpointConfig C S → Result H3Error (QuicListener C S)
  unfolding bind_endpoint
  bind_listener addr config = elim (bind_endpoint addr config) [
    | ok e ↦ ok (record { endpoint = e })
    | err e ↦ err e
  ]

  unfoldable pub close_listener : QuicListener C S → Result H3Error (Unit {0})
  close_listener l = ok tt

  module _ ⦃R : RingLib⦄ where
    -- The arguments after the address are those of `QuicConnection::connect`.
    unfoldable pub connect_from :
        Endpoint C S
        → Result H3Error UdpSocket
        → SocketAddr
        → Bytes
        → ℕ
        → String
        → Sending
        → Result Stop (QuicConnection C S)
    connect_from e bound addr id now name w =
        connect bound addr e.config.connection_config id now name w

    -- No connection is waited for: it connects to an address that is written in.
    unfoldable pub accept :
        QuicListener C S
        → Result H3Error UdpSocket
        → Bytes
        → ℕ
        → String
        → Sending
        → Result Stop (QuicConnection C S)
    accept l bound id now name w =
        connect bound dummy_addr l.endpoint.config.connection_config id now name w

    -- A listener accepts no connection and an endpoint opens none: every call is an error, that of the
    -- socket's binding or that of creating a client's connection.
    pub never_accepted :
        (l : QuicListener C S) (bound : Result H3Error UdpSocket) (addr : SocketAddr) (id : Bytes)
        (now : ℕ) (name : String) (w : Sending)
        → let e = err (
            failure
              (opening_error bound l.endpoint.config.connection_config.tls_config.client_config)) in
          (accept l bound id now name w ≡ e)
          × (connect_from l.endpoint bound addr id now name w ≡ e)
    unfolding accept connect_from
    never_accepted l bound addr id now name w =
        let config = l.endpoint.config.connection_config in
        (
          connect_fails bound dummy_addr config id now name w,
          connect_fails bound addr config id now name w,
        )
