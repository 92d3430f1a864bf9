-- ===== src/Connection/Start.antt =====
-- Creating a connection in src/transport/connection.rs.
use Prim.Native.String.{String}
use dummy_h.Prelude.{ℕ, ◌≡◌, refl, true, Option, none, some, []}
use dummy_h.Error.{TlsError, msg, H3Error, tls, Result, ok, err}
use dummy_h.Varint.{Bytes}
use dummy_h.Crypto.{RingLib}
use dummy_h.Crypto.Tls.{new_client, client_session}
use dummy_h.Crypto.Start.{new_protection_fails}
use dummy_h.Socket.{UdpSocket}
use dummy_h.Socket.Address.{SocketAddr}
use dummy_h.Connection.{ConnectionConfig, failure, Sending, QuicConnection}
use dummy_h.Connection.Create.{start, fresh, new, connect}

-- The error of a client, with or without a TLS configuration for clients.
unfoldable pub client_error : {K : Type 0} → Option K → TlsError
client_error none = TlsError.handshake_failed (msg "Client TLS not configured" [])
client_error (some k) = TlsError.key_derivation_failed

-- The error of a connection that is opened by a client.
abbrev pub opening_error : {K : Type 0} → Result H3Error UdpSocket → Option K → H3Error
opening_error (err e) k = e
opening_error (ok socket) k = tls (client_error k)

module _ {C S : Type 0} ⦃R : RingLib⦄ where
  start-fails :
      (c : QuicConnection C S) (k : Option C) (name : String) (w : Sending)
      → c.config.tls_config.client_config ≡ k
      → start c true name w ≡ err (failure (tls (client_error k)))
  unfolding start new_client client_session client_error
  start-fails c none name w e = rw (new_client, e) refl
  start-fails c (some k) name w e =
      rw (new_client, e, new_protection_fails _ c.local_connection_id true) refl

  -- A connection of a client is never created: without a TLS configuration for clients that is the
  -- error, and with one the derivation of the packet protection's keys fails.
  pub new-client_fails :
      (socket : UdpSocket) (addr : SocketAddr) (config : ConnectionConfig C S) (id : Bytes)
      (now : ℕ) (name : String) (w : Sending)
      → new socket addr config true id now name w
        ≡ err (failure (tls (client_error config.tls_config.client_config)))
  unfolding new fresh
  new-client_fails socket addr config id now name w =
      start-fails (fresh socket addr config true id now) _ name w refl

  pub connect_fails :
      (bound : Result H3Error UdpSocket) (addr : SocketAddr) (config : ConnectionConfig C S)
      (id : Bytes) (now : ℕ) (name : String) (w : Sending)
      → connect bound addr config id now name w
        ≡ err (failure (opening_error bound config.tls_config.client_config))
  unfolding connect
  connect_fails (err e) addr config id now name w = refl
  connect_fails (ok socket) addr config id now name w =
      rw (new-client_fails socket addr config id now name w) refl
