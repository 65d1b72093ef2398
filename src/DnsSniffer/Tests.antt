-- ===== src/DnsSniffer/Tests.antt =====
-- A run of the DNS sniffer, and the theorem about it with tables of one entry.
use rabbit_digger.Address.{SocketAddr, socket_addr, socket_v4, socket_port}
use rabbit_digger.Base.{Bytes, ℕ, List, [], ◌∷◌, none, some, refl}
use rabbit_digger.Context.{Field}
use rabbit_digger.Context.Tests.{Value, socket, domain_port, as_socket, as_domain, of_client}
use rabbit_digger.DnsSniffer.Targets.{Op, comes_in, connects, AllRecover, sniffer_lem}
use rabbit_digger.Net.{Net, Sockets, ok}
use rabbit_digger.ReverseLookup.{new}
use rabbit_digger.ReverseLookup.Tests.{by_addr, by_name, read_byte, OneByte, asks-OneByte}

abbrev numbers : Sockets
numbers = record { TcpStream = ℕ; TcpListener = ℕ; UdpSocket = ℕ }

abbrev direct : Net Value numbers
direct = record {
  provide_tcp_connect = some (λ ctx addr. (ok 5, ctx));
  provide_tcp_bind = none;
  provide_udp_bind = none;
  provide_lookup_host = none;
}

abbrev domains : Field Value (Bytes × ℕ)
domains = record { to_json = λ d. some (domain_port d.0 d.1); from_json = as_domain }

abbrev sockets_field : Field Value SocketAddr
sockets_field = record { to_json = λ s. some (socket s); from_json = as_socket }

-- An answer for the address 5 from port 53, a packet from elsewhere, and a connection to the address.
abbrev ops : List (Op by_addr by_name read_byte domains sockets_field)
ops =
    comes_in (socket_v4 1 53) (5 ∷ [])
    ∷ comes_in (socket_v4 1 80) (6 ∷ 7 ∷ [])
    ∷ connects of_client (socket_addr (socket_v4 5 443))
    ∷ []

sniffer_lem_example :
    AllRecover by_addr by_name read_byte domains sockets_field direct OneByte ops
      (new by_addr by_name read_byte)
unfolding socket_port
sniffer_lem_example =
    sniffer_lem by_addr by_name read_byte domains sockets_field direct OneByte ops
      (λ d. (domain_port d.0 d.1, refl, refl)) (λ p. asks-OneByte, (λ p. cc p, tt))
