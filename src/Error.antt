-- ===== src/Error.antt =====
-- The error types of src/error.rs, and `Result` with its `?` chains.
pub mod Policy
use Prim.Native.String.{String}
use dummy_h.Prelude.{ℕ, ◌≡◌, refl, Bool, true, false, List, arith}

-- A text as `format!` builds it: its template, and the numbers put in.
pub data Message : Type 0 where
  msg : String → List ℕ → Message

pub data NetworkError : Type 0 where
  io_error : Message → NetworkError
  address_resolution_failed connection_refused connection_reset : NetworkError
  connection_timeout network_unreachable : NetworkError
  operation_not_supported : Message → NetworkError
  permission_denied address_in_use : NetworkError
  other : Message → NetworkError

pub data TransportError : Type 0 where
  invalid_packet invalid_frame : Message → TransportError
  packet_loss packet_reordering : TransportError
  congestion_control flow_control other : Message → TransportError

pub data ConnectionError : Type 0 where
  establishment_failed unexpected_close : ConnectionError
  handshake_failed : Message → ConnectionError
  migration_failed idle_timeout : ConnectionError
  invalid_state : Message → ConnectionError

pub data ProtocolError : Type 0 where
  invalid_frame_type : ℕ → ProtocolError
  protocol_violation : Message → ProtocolError
  unsupported_version invalid_alpn flow_control_violation : ProtocolError
  settings : Message → ProtocolError

pub data StreamError : Type 0 where
  not_found already_closed : ℕ → StreamError
  -- expected, then actual
  invalid_state : Message → Message → StreamError
  limit_exceeded : StreamError
  reset : ℕ → StreamError
  blocked : StreamError

pub data ParseError : Type 0 where
  incomplete : ParseError
  invalid_format : Message → ParseError
  -- size, then max
  frame_too_large : ℕ → ℕ → ParseError
  header_compression invalid_varint buffer_overflow : ParseError

pub data TlsError : Type 0 where
  certificate_validation handshake_failed : Message → TlsError
  encryption_failed decryption_failed key_derivation_failed invalid_certificate : TlsError

-- An `std::io::Error` is carried as its text.
pub data H3Error : Type 0 where
  connection : ConnectionError → H3Error
  protocol : ProtocolError → H3Error
  stream : StreamError → H3Error
  parse : ParseError → H3Error
  tls : TlsError → H3Error
  transport : TransportError → H3Error
  network : NetworkError → H3Error
  timeout : H3Error
  config : Message → H3Error
  io : Message → H3Error
  internal : Message → H3Error

pub data Result {ℓ} (E : Type 0) (A : Type ℓ) : Type ℓ where
  ok : A → Result E A
  err : E → Result E A

infixl 5 ◌>>=◌
abbrev pub ◌>>=◌ {ℓ κ} :
    {E : Type 0} {A : Type ℓ} {B : Type κ} → Result E A → (A → Result E B) → Result E B
ok a >>= f = f a
err e >>= f = err e

-- A chain that ends well went well at its first step.
pub bind_ok {ℓ κ} :
    {E : Type 0} {A : Type ℓ} {B : Type κ} {b : B} (r : Result E A) (f : A → Result E B)
    → (r >>= f) ≡ ok b
    → (a : A) × (r ≡ ok a) × (f a ≡ ok b)
bind_ok (ok a) f h = (a, refl, h)
bind_ok (err e) f h = absurd (ground arith)

-- `?` turns an error into the caller's by `From`.
abbrev pub map_err {ℓ} : {E F : Type 0} {A : Type ℓ} → (E → F) → Result E A → Result F A
map_err g (ok a) = ok a
map_err g (err e) = err (g e)

unfoldable pub is_recoverable : H3Error → Bool
is_recoverable (connection ConnectionError.idle_timeout) = true
is_recoverable (stream StreamError.blocked) = true
is_recoverable timeout = true
is_recoverable (io m) = true
is_recoverable e = false

unfoldable pub should_close_connection : H3Error → Bool
should_close_connection (connection e) = true
should_close_connection (protocol e) = true
should_close_connection (tls e) = true
should_close_connection e = false
