-- ===== src/Crypto/Tls.antt =====
-- The TLS configuration and session of src/crypto/tls.rs. What `rustls` builds is a parameter: its
-- types, and the functions that build its configurations.
use Prim.Native.String.{String}
use dummy_h.Prelude.{ℕ, Bool, true, false, Option, none, some, List, [], ◌∷◌, replicate}
use dummy_h.Error.{Message, msg, TlsError, H3Error, tls, Result, ok, err}
use dummy_h.Varint.{Bytes}
use dummy_h.Crypto.{codes}

pub record TlsConfig (C S : Type 0) : Type 0 where
  pub client_config : Option C
  pub server_config : Option S

pub record TlsSecrets : Type 0 where
  pub client_secret : Bytes
  pub server_secret : Bytes

unfoldable pub new_secrets : TlsSecrets
new_secrets = record { client_secret = replicate 32 0; server_secret = replicate 32 0 }

pub record TlsSession (C S : Type 0) : Type 0 where
  pub is_client : Bool
  pub config : TlsConfig C S
  pub secrets : TlsSecrets

module _ {C S : Type 0} where
  unfoldable pub new_config : TlsConfig C S
  new_config = record { client_config = none; server_config = none }

  -- `build` takes the root certificates, or their default, and the ALPN protocols.
  unfoldable pub configure_client :
      {Roots : Type 0}
      → (Option Roots → List Bytes → C)
      → TlsConfig C S
      → Option Roots
      → TlsConfig C S × Result H3Error (Unit {0})
  configure_client build c roots =
      (record c { client_config = some (build roots (codes "h3" ∷ [])) }, ok tt)

  -- `build` is `with_single_cert`, whose error is turned into a text.
  unfoldable pub configure_server :
      {Chain Key : Type 0}
      → (Chain → Key → Result Message S)
      → TlsConfig C S
      → Chain
      → Key
      → TlsConfig C S × Result H3Error (Unit {0})
  configure_server build c chain key = elim (build chain key) [
    | ok s ↦ (record c { server_config = some s }, ok tt)
    | err e ↦ (c, err (tls (TlsError.certificate_validation e)))
  ]

  abbrev pub not_configured : String → Result H3Error (TlsSession C S)
  not_configured text = err (tls (TlsError.handshake_failed (msg text [])))

  unfoldable pub client_session : TlsConfig C S → Option C → Result H3Error (TlsSession C S)
  unfolding new_secrets
  client_session c none = not_configured "Client TLS not configured"
  client_session c (some k) = ok (record { is_client = true; config = c; secrets = new_secrets })

  -- The server's name is not used.
  unfoldable pub new_client : TlsConfig C S → String → Result H3Error (TlsSession C S)
  unfolding client_session
  new_client c server_name = client_session c c.client_config

  unfoldable pub server_session : TlsConfig C S → Option S → Result H3Error (TlsSession C S)
  unfolding new_secrets
  server_session c none = not_configured "Server TLS not configured"
  server_session c (some k) = ok (record { is_client = false; config = c; secrets = new_secrets })

  unfoldable pub new_server : TlsConfig C S → Result H3Error (TlsSession C S)
  unfolding server_session
  new_server c = server_session c c.server_config

  unfoldable pub process_handshake : TlsSession C S → Bytes → TlsSession C S × Result H3Error Bytes
  process_handshake s bytes = (s, ok [])

  unfoldable pub is_handshake_complete : TlsSession C S → Bool
  is_handshake_complete s = true

  unfoldable pub alpn_protocol : TlsSession C S → Option Bytes
  alpn_protocol s = some (codes "h3")

  unfoldable pub encrypt : TlsSession C S → ℕ → Bytes → Bytes → Result H3Error Bytes
  encrypt s packet_number bytes header = ok bytes

  unfoldable pub decrypt : TlsSession C S → ℕ → Bytes → Bytes → Result H3Error Bytes
  decrypt s packet_number bytes header = ok bytes
