-- ===== src/Socket.antt =====
-- `UdpSocket` of src/network/socket.rs, in its native and in its WASI form. What a call of the
-- operating system returned is an argument; the bytes that it wrote into a buffer are part of it.
pub mod Address
pub mod Wasi
pub mod Dns
use dummy_h.Prelude.{ℕ, Bool, true, not, List, [], ◌∷◌, ◌++◌, length, drop}
use dummy_h.Error.{
  msg, address_resolution_failed, operation_not_supported, H3Error, network, Result, ok, err, ◌>>=◌,
  map_err,
}
use dummy_h.Varint.{Bytes}
use dummy_h.Socket.Address.{SocketAddr, IoError, would_block, failed, from_io}
use dummy_h.Socket.Wasi
use dummy_h.Socket.Wasi.{WasiUdpSocket}

pub data Platform : Type 0 where
  native wasm : Platform

-- The inner socket of the target that the library is built for.
pub data Inner : Type 0 where
  std_socket : Inner
  wasi_socket : WasiUdpSocket → Inner

pub record UdpSocket : Type 0 where
  pub inner : Inner
  pub local_addr : SocketAddr

-- The first address that `to_socket_addrs` gives.
unfoldable pub first_address : Result IoError (List SocketAddr) → Result H3Error SocketAddr
first_address (ok []) = err (network address_resolution_failed)
first_address (ok (addr ∷ addrs)) = ok addr
first_address (err e) = err (from_io e)

-- `bound` and `set` are what the system's `bind` and `set_nonblocking` return.
unfoldable pub bind_to :
    Platform
    → Result IoError (Unit {0})
    → Result IoError (Unit {0})
    → SocketAddr
    → Result H3Error UdpSocket
bind_to native bound set addr = map_err from_io bound >>= λ u.
    map_err from_io set >>= λ u. ok (record { inner = std_socket; local_addr = addr })
bind_to wasm bound set addr = map_err from_io Wasi.new >>= λ socket.
    map_err from_io (Wasi.bind socket addr) >>= λ u.
    map_err from_io (Wasi.set_nonblocking socket true).1 >>= λ u.
    ok (record { inner = wasi_socket (Wasi.set_nonblocking socket true).0; local_addr = addr })

unfoldable pub bind :
    Platform
    → Result IoError (List SocketAddr)
    → Result IoError (Unit {0})
    → Result IoError (Unit {0})
    → Result H3Error UdpSocket
unfolding first_address bind_to
bind platform addrs bound set = first_address addrs >>= bind_to platform bound set

-- A call that would block is taken to have sent everything.
unfoldable pub sent_or_all : Bytes → Result IoError ℕ → Result H3Error ℕ
sent_or_all bytes (ok n) = ok n
sent_or_all bytes (err (would_block text)) = ok (length bytes)
sent_or_all bytes (err (failed text)) = err (from_io (failed text))

-- A system's answer to a receiving call: the bytes it wrote to the buffer's front, and the sender.
abbrev pub Received : Type 0
Received = Result IoError (Bytes × SocketAddr)

unfoldable pub send_to_inner : Inner → Bytes → SocketAddr → Result IoError ℕ → Result H3Error ℕ
unfolding sent_or_all
send_to_inner std_socket bytes addr answer = sent_or_all bytes answer
send_to_inner (wasi_socket s) bytes addr answer = map_err from_io (Wasi.send_to s bytes addr)

unfoldable pub send_to : UdpSocket → Bytes → SocketAddr → Result IoError ℕ → Result H3Error ℕ
unfolding send_to_inner
send_to s bytes addr answer = send_to_inner s.inner bytes addr answer

-- A call that would block is taken to have received nothing, from the socket's own address.
unfoldable pub received_or_none :
    SocketAddr → Bytes → Received → Bytes × Result H3Error (ℕ × SocketAddr)
received_or_none local buf (ok (bytes, from)) =
    (bytes ++ drop (length bytes) buf, ok (length bytes, from))
received_or_none local buf (err (would_block text)) = (buf, ok (0, local))
received_or_none local buf (err (failed text)) = (buf, err (from_io (failed text)))

unfoldable pub recv_from_inner :
    Inner → SocketAddr → Bytes → Received → Bytes × Result H3Error (ℕ × SocketAddr)
unfolding received_or_none
recv_from_inner std_socket local buf answer = received_or_none local buf answer
recv_from_inner (wasi_socket s) local buf answer =
    let (buf', r) = Wasi.recv_from s buf in (buf', map_err from_io r)

-- The buffer as it is left, and the result.
unfoldable pub recv_from : UdpSocket → Bytes → Received → Bytes × Result H3Error (ℕ × SocketAddr)
unfolding recv_from_inner
recv_from s buf answer = recv_from_inner s.inner s.local_addr buf answer

-- The setters: the system's answer where there is a system, and success otherwise.
abbrev pub answered {ℓ} : {A : Type ℓ} → Inner → A → Result IoError A → Result H3Error A
answered std_socket a answer = map_err from_io answer
answered (wasi_socket s) a answer = ok a

unfoldable pub set_nonblocking :
    UdpSocket → Bool → Result IoError (Unit {0}) → Result H3Error (Unit {0})
set_nonblocking s nonblocking answer = answered s.inner tt answer

-- Neither form sets a buffer's size.
unfoldable pub set_recv_buffer_size : UdpSocket → ℕ → Result H3Error (Unit {0})
set_recv_buffer_size s size = ok tt

unfoldable pub set_send_buffer_size : UdpSocket → ℕ → Result H3Error (Unit {0})
set_send_buffer_size s size = ok tt

unfoldable pub set_ttl : UdpSocket → ℕ → Result IoError (Unit {0}) → Result H3Error (Unit {0})
set_ttl s ttl answer = answered s.inner tt answer

unfoldable pub clone_inner : Inner → Result IoError (Unit {0}) → Result H3Error Inner
clone_inner std_socket answer = map_err from_io answer >>= λ u. ok std_socket
clone_inner (wasi_socket s) answer =
    err (network (operation_not_supported (msg "Socket cloning not supported in WASI" [])))

unfoldable pub try_clone : UdpSocket → Result IoError (Unit {0}) → Result H3Error UdpSocket
unfolding clone_inner
try_clone s answer =
    clone_inner s.inner answer >>= λ inner. ok (record { inner = inner; local_addr = s.local_addr })

unfoldable pub connect :
    UdpSocket
    → Result IoError (List SocketAddr)
    → Result IoError (Unit {0})
    → Result H3Error (Unit {0})
unfolding first_address
connect s addrs answer = first_address addrs >>= λ addr. answered s.inner tt answer

unfoldable pub send_inner : Inner → Bytes → Result IoError ℕ → Result H3Error ℕ
unfolding sent_or_all
send_inner std_socket bytes answer = sent_or_all bytes answer
send_inner (wasi_socket s) bytes answer = ok (length bytes)

unfoldable pub send : UdpSocket → Bytes → Result IoError ℕ → Result H3Error ℕ
unfolding send_inner
send s bytes answer = send_inner s.inner bytes answer

unfoldable pub recv_inner : Inner → Bytes → Result IoError Bytes → Bytes × Result H3Error ℕ
recv_inner std_socket buf (ok bytes) = (bytes ++ drop (length bytes) buf, ok (length bytes))
recv_inner std_socket buf (err (would_block text)) = (buf, ok 0)
recv_inner std_socket buf (err (failed text)) = (buf, err (from_io (failed text)))
recv_inner (wasi_socket s) buf answer = (Wasi.fill buf, ok 1)

unfoldable pub recv : UdpSocket → Bytes → Result IoError Bytes → Bytes × Result H3Error ℕ
unfolding recv_inner
recv s buf answer = recv_inner s.inner buf answer
