-- ===== src/Socket/Address.antt =====
-- The addresses that src/network/socket.rs passes on from the standard library, and its errors.
use dummy_h.Prelude.{ℕ, Bool, true, false, ◌&&◌, [], ◌∷◌, ◌==◌}
use dummy_h.Error.{Message, io_error, H3Error, network}
use dummy_h.Varint.{Bytes}

-- An IPv4 address is its four bytes, an IPv6 address its sixteen; then the port, and for IPv6 the flow
-- information and the scope.
pub data SocketAddr : Type 0 where
  v4 : Bytes → ℕ → SocketAddr
  v6 : Bytes → ℕ → ℕ → ℕ → SocketAddr

unfoldable pub same_bytes : Bytes → Bytes → Bool
same_bytes [] [] = true
same_bytes (a ∷ as') (b ∷ bs) = a == b && same_bytes as' bs
same_bytes as' bs = false

-- `==` on addresses.
unfoldable pub same_addr : SocketAddr → SocketAddr → Bool
unfolding same_bytes
same_addr (v4 ip port) (v4 ip' port') = same_bytes ip ip' && port == port'
same_addr (v6 ip port flow scope) (v6 ip' port' flow' scope') =
    same_bytes ip ip' && port == port' && flow == flow' && scope == scope'
same_addr a b = false

-- `std::io::Error` with its text: of the kind `WouldBlock`, or another one.
pub data IoError : Type 0 where
  would_block failed : Message → IoError

abbrev pub io_text : IoError → Message
io_text (would_block text) = text
io_text (failed text) = text

-- `NetworkError::IoError(e).into()`
abbrev pub from_io : IoError → H3Error
from_io e = network (io_error (io_text e))
