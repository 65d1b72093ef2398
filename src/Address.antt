-- ===== src/Address.antt =====
-- `Address` of rd-interface/src/address.rs: a socket address, or a domain name with a port. A text
-- is its bytes; ports and IP addresses are numbers.
pub mod Decimal
pub mod Parse
pub mod RoundTrip
pub mod Tests
use rabbit_digger.Base.{
  Bytes, ℕ, ◌+◌, List, [], ◌∷◌, ◌++◌, Option, none, some, ◌≡◌, ◌≢◌, ◌==◌, ℕ_discrete,
}

-- `std::net::IpAddr`.
pub data IpAddr : Type 0 where
  v4 : ℕ → IpAddr
  v6 : ℕ → IpAddr

-- `std::net::SocketAddr`: an IPv6 address has flow information and a scope.
pub data SocketAddr : Type 0 where
  socket_v4 : ℕ → ℕ → SocketAddr
  socket_v6 : ℕ → ℕ → ℕ → ℕ → SocketAddr

-- `SocketAddr::new`.
unfoldable pub new_socket : IpAddr → ℕ → SocketAddr
new_socket (v4 ip) port = socket_v4 ip port
new_socket (v6 ip) port = socket_v6 ip port 0 0

-- `SocketAddr::ip`.
unfoldable pub socket_ip : SocketAddr → IpAddr
socket_ip (socket_v4 ip port) = v4 ip
socket_ip (socket_v6 ip port flow scope) = v6 ip

-- `SocketAddr::port`.
unfoldable pub socket_port : SocketAddr → ℕ
socket_port (socket_v4 ip port) = port
socket_port (socket_v6 ip port flow scope) = port

pub data Address : Type 0 where
  socket_addr : SocketAddr → Address
  domain : Bytes → ℕ → Address

pub IpAddr-discrete : Discrete IpAddr
IpAddr-discrete = hlevel ℕ_discrete

pub SocketAddr-discrete : Discrete SocketAddr
SocketAddr-discrete = hlevel ℕ_discrete

pub Address-discrete : Discrete Address
Address-discrete = hlevel (ℕ_discrete)

-- `Address::port`.
unfoldable pub port : Address → ℕ
unfolding socket_port
port (socket_addr s) = socket_port s
port (domain d p) = p

-- `Address::any_addr_port`.
unfoldable pub any_addr_port : SocketAddr → Address
unfolding new_socket
any_addr_port (socket_v4 ip port) = socket_addr (new_socket (v4 0) 0)
any_addr_port (socket_v6 ip port flow scope) = socket_addr (new_socket (v6 0) 0)
