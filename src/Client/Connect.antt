-- ===== src/Client/Connect.antt =====
-- `H3Client::connect` of src/client/mod.rs.
use Prim.Native.Nat.{Ordering}
use Prim.Native.String.{String, compare}
use dummy_h.Prelude.{
  ℕ, ◌≡◌, refl, Bool, true, false, Option, none, some, List, [], ◌∷◌, if◌then◌else◌,
}
use dummy_h.Error.{Message, msg, TlsError, H3Error, config, tls, Result, ok, err, ◌>>=◌, map_err}
use dummy_h.Varint.{Bytes}
use dummy_h.Config.{ClientConfig}
use dummy_h.Http.{HttpLib}
use dummy_h.Crypto.{RingLib}
use dummy_h.Crypto.Tls.{new_config, configure_client}
use dummy_h.Socket.{UdpSocket}
use dummy_h.Socket.Address.{SocketAddr}
use dummy_h.Connection.{ConnectionConfig, default_config, Stop, failure, Sending}
use dummy_h.Connection.Create.{connect}
use dummy_h.Connection.Start.{client_error, connect_fails}
use dummy_h.Client.{Session, new_session}

unfoldable pub same_text : String → String → Bool
same_text s t = elim (compare s t) [ Ordering.eq ↦ true | _ ↦ false ]

-- `match uri.scheme_str() { … }`
unfoldable pub default_port : Option String → ℕ
unfolding same_text
default_port none = 443
default_port (some scheme) =
    if same_text scheme "https" then 443 else if same_text scheme "http" then 80 else 443

-- `next` and `ok_or_else` on an iterator and an option.
abbrev ok_or : {E A : Type 0} → E → Option A → Result E A
ok_or e none = err e
ok_or e (some a) = ok a

abbrev first : {A : Type 0} → List A → Option A
first [] = none
first (a ∷ rest) = some a

module _ (L : HttpLib) where
  unfoldable pub port_of : L.Uri → ℕ
  unfolding default_port
  port_of uri = elim (L.port_u16 uri) [ none ↦ default_port (L.scheme_str uri) | some p ↦ p ]

  -- The address of an endpoint; `lookup` is `to_socket_addrs` on the text of host and port.
  unfoldable pub find_server :
      (String → ℕ → Result Message (List SocketAddr)) → String → Result H3Error (L.Uri × SocketAddr)
  unfolding port_of
  find_server lookup endpoint = do
    uri ← map_err (λ e. config (msg "Invalid URI: {}" [])) (L.parse_uri endpoint)
    host ← ok_or (config (msg "Missing host in URI" [])) (L.host uri)
    found ←
        map_err (λ e. config (msg "Failed to resolve address: {}" [])) (lookup host (port_of uri))
    addr ← ok_or (config (msg "No addresses found" [])) (first found)
    ok (uri, addr)

  -- The error of `connect_client`: that of finding the server, of binding the socket, or of the keys.
  abbrev pub first_failure :
      Result H3Error (L.Uri × SocketAddr) → Result H3Error UdpSocket → H3Error
  first_failure (err e) bound = e
  first_failure (ok a) (err e) = e
  first_failure (ok a) (ok socket) = tls TlsError.key_derivation_failed

  module _ {C S Roots : Type 0} where
    -- The configuration of the connection, with the TLS configuration that `build` makes.
    unfoldable pub client_connection :
        (Option Roots → List Bytes → C) → Result H3Error (ConnectionConfig C S)
    unfolding configure_client default_config new_config
    client_connection build =
        let (t, r) = configure_client build new_config none in
        r >>= λ u. ok (record default_config { tls_config = t })

    module _ ⦃R : RingLib⦄ where
      -- The arguments from `bound` on are those of `QuicConnection::connect`.
      unfoldable pub connect_to :
          (Option Roots → List Bytes → C)
          → ClientConfig
          → Result H3Error UdpSocket
          → Bytes
          → ℕ
          → String
          → Sending
          → L.Uri × SocketAddr
          → Result Stop (Session L C S)
      unfolding client_connection
      connect_to build settings bound id now name w (uri, addr) = do
        chosen ← map_err failure (client_connection build)
        connection ← connect bound addr chosen id now name w
        ok (new_session L settings connection uri)

      unfoldable pub connect_client :
          (String → ℕ → Result Message (List SocketAddr))
          → (Option Roots → List Bytes → C)
          → String
          → ClientConfig
          → Result H3Error UdpSocket
          → Bytes
          → ℕ
          → String
          → Sending
          → Result Stop (Session L C S)
      unfolding find_server connect_to
      connect_client lookup build endpoint settings bound id now name w =
          map_err failure (find_server lookup endpoint)
          >>= connect_to build settings bound id now name w

      found_fails :
          (build : Option Roots → List Bytes → C) (settings : ClientConfig)
          (bound : Result H3Error UdpSocket) (id : Bytes) (now : ℕ) (name : String) (w : Sending)
          (r : Result H3Error (L.Uri × SocketAddr))
          → (map_err failure r >>= connect_to build settings bound id now name w)
            ≡ err (failure (first_failure r bound))
      unfolding connect_to client_error
      found_fails build settings bound id now name w (err e) = refl
      found_fails build settings (ok socket) id now name w (ok (uri, addr)) =
          rw (connect_fails (ok socket) addr _ id now name w) refl
      found_fails build settings (err e) id now name w (ok (uri, addr)) =
          rw (connect_fails (err e) addr _ id now name w) refl

      -- Connecting never gives a client, whatever is outside: the error is that of reading the endpoint
      -- or of finding its address, or that of binding the socket, or else that of the packet
      -- protection's keys, although TLS is configured.
      pub connect_client_fails :
          (lookup : String → ℕ → Result Message (List SocketAddr))
          (build : Option Roots → List Bytes → C) (endpoint : String) (settings : ClientConfig)
          (bound : Result H3Error UdpSocket) (id : Bytes) (now : ℕ) (name : String) (w : Sending)
          → connect_client lookup build endpoint settings bound id now name w
            ≡ err (failure (first_failure (find_server lookup endpoint) bound))
      unfolding connect_client
      connect_client_fails lookup build endpoint settings bound id now name w =
          found_fails build settings bound id now name w (find_server lookup endpoint)
