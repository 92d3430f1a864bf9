-- ===== src/Config.antt =====
-- The configurations of src/config.rs, with their defaults and builders. A time is a number of
-- nanoseconds. `StreamConfig` stands in the module Stream.
use Prim.Native.String.{String}
use dummy_h.Prelude.{ℕ, max, Bool, true, false, Option, none, some, List, [], ◌∷◌}
use dummy_h.Varint.{Bytes}

pub record Certificate : Type 0 where
  pub der : Bytes

pub record PrivateKey : Type 0 where
  pub der : Bytes

unfoldable pub no_certificate : Certificate
no_certificate = record { der = [] }

unfoldable pub no_key : PrivateKey
no_key = record { der = [] }

pub data CipherSuite : Type 0 where
  aes128_gcm_sha256 aes256_gcm_sha384 chacha20_poly1305_sha256 : CipherSuite

pub data SignatureAlgorithm : Type 0 where
  rsa_pkcs1_sha256 rsa_pkcs1_sha384 rsa_pkcs1_sha512 : SignatureAlgorithm
  ecdsa_secp256r1_sha256 ecdsa_secp384r1_sha384 : SignatureAlgorithm
  rsa_pss_rsae_sha256 rsa_pss_rsae_sha384 rsa_pss_rsae_sha512 : SignatureAlgorithm

pub record TlsClientConfig : Type 0 where
  pub verify_certificates : Bool
  pub custom_ca_certs : List Certificate
  pub client_cert : Option Certificate
  pub client_key : Option PrivateKey
  pub server_name : Option String

unfoldable pub default_client_tls : TlsClientConfig
default_client_tls = record {
  verify_certificates = true;
  custom_ca_certs = [];
  client_cert = none;
  client_key = none;
  server_name = none;
}

pub record TlsServerConfig : Type 0 where
  pub require_client_certs : Bool
  pub client_ca_certs : List Certificate
  pub cipher_suites : List CipherSuite
  pub signature_algorithms : List SignatureAlgorithm

unfoldable pub default_server_tls : TlsServerConfig
default_server_tls = record {
  require_client_certs = false;
  client_ca_certs = [];
  cipher_suites = [];
  signature_algorithms = [];
}

pub record ClientConfig : Type 0 where
  pub max_concurrent_streams : ℕ
  pub initial_window_size : ℕ
  pub connection_timeout : ℕ
  pub idle_timeout : ℕ
  pub tls_config : TlsClientConfig
  pub alpn_protocols : List String
  pub enable_migration : Bool
  pub keep_alive_interval : Option ℕ
  pub max_frame_size : ℕ

unfoldable pub default_client : ClientConfig
unfolding default_client_tls
default_client = record {
  max_concurrent_streams = 100;
  initial_window_size = 65536;
  connection_timeout = 10000000000;
  idle_timeout = 30000000000;
  tls_config = default_client_tls;
  alpn_protocols = "h3" ∷ [];
  enable_migration = true;
  keep_alive_interval = some 15000000000;
  max_frame_size = 16384;
}

pub record ServerConfig : Type 0 where
  pub max_concurrent_streams : ℕ
  pub initial_window_size : ℕ
  pub max_frame_size : ℕ
  pub connection_timeout : ℕ
  pub tls_config : TlsServerConfig
  pub certificate_chain : List Certificate
  pub private_key : PrivateKey
  pub enable_push : Bool
  pub max_connections : Option ℕ
  pub idle_timeout : ℕ

unfoldable pub default_server : ServerConfig
unfolding default_server_tls no_key
default_server = record {
  max_concurrent_streams = 100;
  initial_window_size = 65536;
  max_frame_size = 16384;
  connection_timeout = 10000000000;
  tls_config = default_server_tls;
  certificate_chain = [];
  private_key = no_key;
  enable_push = false;
  max_connections = some 1000;
  idle_timeout = 60000000000;
}

-- One call of a builder for each of its methods; a builder holds the configuration so far.
pub data ClientSetting : Type 0 where
  client_streams client_window client_timeout client_idle : ℕ → ClientSetting
  client_migration : Bool → ClientSetting
  client_keep_alive : Option ℕ → ClientSetting

unfoldable pub set_client : ClientConfig → ClientSetting → ClientConfig
set_client c (client_streams max) = record c { max_concurrent_streams = max }
set_client c (client_window size) = record c { initial_window_size = size }
set_client c (client_timeout timeout) = record c { connection_timeout = timeout }
set_client c (client_idle timeout) = record c { idle_timeout = timeout }
set_client c (client_migration enable) = record c { enable_migration = enable }
set_client c (client_keep_alive interval) = record c { keep_alive_interval = interval }

-- `ClientConfig::builder()`, the calls in order, and `build()`.
unfoldable pub build_client : List ClientSetting → ClientConfig
build_client settings = calls default_client settings
  where
    calls : ClientConfig → List ClientSetting → ClientConfig
    calls c [] = c
    calls c (s ∷ rest) = calls (set_client c s) rest

pub data ServerSetting : Type 0 where
  server_streams server_window server_frame : ℕ → ServerSetting
  server_chain : List Certificate → ServerSetting
  server_key : PrivateKey → ServerSetting
  server_push : Bool → ServerSetting
  server_connections : Option ℕ → ServerSetting

unfoldable pub set_server : ServerConfig → ServerSetting → ServerConfig
set_server c (server_streams max) = record c { max_concurrent_streams = max }
set_server c (server_window size) = record c { initial_window_size = size }
set_server c (server_frame size) = record c { max_frame_size = size }
set_server c (server_chain chain) = record c { certificate_chain = chain }
set_server c (server_key key) = record c { private_key = key }
set_server c (server_push enable) = record c { enable_push = enable }
set_server c (server_connections max) = record c { max_connections = max }

unfoldable pub build_server : List ServerSetting → ServerConfig
build_server settings = calls default_server settings
  where
    calls : ServerConfig → List ServerSetting → ServerConfig
    calls c [] = c
    calls c (s ∷ rest) = calls (set_server c s) rest
