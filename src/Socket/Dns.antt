-- ===== src/Socket/Dns.antt =====
-- `DnsResolver` of src/network/dns.rs. `parse` is the standard library's reading of an IP address; an
-- IPv4 address is four bytes, an IPv6 address sixteen.
use Prim.Native.String.{String}
use dummy_h.Prelude.{ℕ, Option, none, some, List, [], ◌∷◌}
use dummy_h.Error.{H3Error, Result, ok, ◌>>=◌}
use dummy_h.Varint.{Bytes}
use dummy_h.Socket.Address.{SocketAddr, v4, v6}

pub data IpAddr : Type 0 where
  ip_v4 ip_v6 : Bytes → IpAddr

-- `SocketAddr::new`
unfoldable pub socket_addr : IpAddr → ℕ → SocketAddr
socket_addr (ip_v4 bytes) port = v4 bytes port
socket_addr (ip_v6 bytes) port = v6 bytes port 0 0

pub record DnsResolver : Type 0 where
  pub servers : List SocketAddr

unfoldable pub new : DnsResolver
new = record { servers = v4 (8 ∷ 8 ∷ 8 ∷ 8 ∷ []) 53 ∷ v4 (8 ∷ 8 ∷ 4 ∷ 4 ∷ []) 53 ∷ [] }

unfoldable pub with_servers : List SocketAddr → DnsResolver
with_servers servers = record { servers = servers }

-- What is no address is taken to be the local host.
abbrev pub or_local_host : Option IpAddr → List IpAddr
or_local_host none = ip_v4 (127 ∷ 0 ∷ 0 ∷ 1 ∷ []) ∷ []
or_local_host (some ip) = ip ∷ []

unfoldable pub with_port : ℕ → List IpAddr → List SocketAddr
unfolding socket_addr
with_port port [] = []
with_port port (ip ∷ ips) = socket_addr ip port ∷ with_port port ips

module _ (parse : String → Option IpAddr) where
  unfoldable pub resolve : DnsResolver → String → Result H3Error (List IpAddr)
  resolve r hostname = ok (or_local_host (parse hostname))

  unfoldable pub resolve_with_port : DnsResolver → String → ℕ → Result H3Error (List SocketAddr)
  unfolding resolve with_port
  resolve_with_port r hostname port = resolve r hostname >>= λ ips. ok (with_port port ips)
