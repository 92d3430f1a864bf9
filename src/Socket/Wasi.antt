-- ===== src/Socket/Wasi.antt =====
-- `WasiUdpSocket` of src/network/socket.rs, which stands in for a socket.
use dummy_h.Prelude.{ℕ, Bool, false, [], ◌∷◌, length}
use dummy_h.Error.{Result, ok}
use dummy_h.Varint.{Bytes}
use dummy_h.Socket.Address.{SocketAddr, v4, IoError}

pub record WasiUdpSocket : Type 0 where
  pub fd : ℕ
  pub non_blocking : Bool
  pub recv_buffer_size : ℕ
  pub send_buffer_size : ℕ

unfoldable pub new : Result IoError WasiUdpSocket
new =
    ok (record { fd = 42; non_blocking = false; recv_buffer_size = 8192; send_buffer_size = 8192 })

unfoldable pub bind : WasiUdpSocket → SocketAddr → Result IoError (Unit {0})
bind s addr = ok tt

unfoldable pub send_to : WasiUdpSocket → Bytes → SocketAddr → Result IoError ℕ
send_to s bytes addr = ok (length bytes)

-- The first byte of a buffer that has one is set.
abbrev pub fill : Bytes → Bytes
fill [] = []
fill (b ∷ buf) = 42 ∷ buf

abbrev pub local_server : SocketAddr
local_server = v4 (127 ∷ 0 ∷ 0 ∷ 1 ∷ []) 8080

-- The buffer that is left, and how much was received from where.
unfoldable pub recv_from : WasiUdpSocket → Bytes → Bytes × Result IoError (ℕ × SocketAddr)
recv_from s buf = (fill buf, ok (1, local_server))

unfoldable pub set_nonblocking : WasiUdpSocket → Bool → WasiUdpSocket × Result IoError (Unit {0})
set_nonblocking s nonblocking = (record s { non_blocking = nonblocking }, ok tt)

unfoldable pub set_recv_buffer_size : WasiUdpSocket → ℕ → WasiUdpSocket × Result IoError (Unit {0})
set_recv_buffer_size s size = (record s { recv_buffer_size = size }, ok tt)

unfoldable pub set_send_buffer_size : WasiUdpSocket → ℕ → WasiUdpSocket × Result IoError (Unit {0})
set_send_buffer_size s size = (record s { send_buffer_size = size }, ok tt)
