-- ===== src/Builtin/Tests.antt =====
-- Runs of the nets over other nets, and the theorem about the resolving net.
use rabbit_digger.Address.{Address, socket_addr, domain, SocketAddr, socket_v4, socket_v6}
use rabbit_digger.Address.Tests.{letters}
use rabbit_digger.Address.Parse.{resolve, normalize, strip_brackets, strip_suffix}
use rabbit_digger.Base.Text.{strip_prefix, starts_with}
use rabbit_digger.Base.{
  ℕ, List, [], ◌∷◌, none, some, true, false, ◌≡◌, ◌⊎◌, refl, ◌==◌, if◌then◌else◌,
}
use rabbit_digger.Base.Io.{not_found}
use rabbit_digger.Builtin.{
  alias_as_net, combine_as_net, not_implemented_net, black_item, blackhole_net,
}
use rabbit_digger.Builtin.Attempts.{FirstOf, Candidates, NoLookup, resolve_tcp_connect_lem}
use rabbit_digger.Builtin.Resolve.{
  is_ipv4, is_ipv6, wanted, keep_wanted, keep_found, last_or_not_found, on_answer, try_each,
  try_all, new, resolve_tcp_connect,
}
use rabbit_digger.Context.Tests.{Value, of_client}
use rabbit_digger.Net.{
  Net, Sockets, NetError, other_error, io_error, to_io_err, NetResult, ok, err, not_implemented,
  tcp_connect, tcp_bind, lookup_host, or_not_implemented,
}

abbrev numbers : Sockets
numbers = record { TcpStream = ℕ; TcpListener = ℕ; UdpSocket = ℕ }

-- Connections to the address 7 are made, others fail.
abbrev dial : Address → NetResult ℕ
dial (socket_addr (socket_v4 ip port)) = if ip == 7 then ok port else err (other_error ip)
dial _ = err (other_error 0)

abbrev direct : Net Value numbers
direct = record {
  provide_tcp_connect = some (λ ctx addr. (dial addr, ctx));
  provide_tcp_bind = none;
  provide_udp_bind = none;
  provide_lookup_host = none;
}

-- A name has one IPv6 address and two IPv4 addresses.
abbrev names : Net Value numbers
names = record {
  provide_tcp_connect = none;
  provide_tcp_bind = none;
  provide_udp_bind = none;
  provide_lookup_host =
      some (λ addr. ok (socket_v6 7 80 0 0 ∷ socket_v4 6 80 ∷ socket_v4 7 80 ∷ []));
}

abbrev named : Address
named = domain (b'a' ∷ b'.' ∷ b'b' ∷ []) 80

runs :
    (resolve_tcp_connect letters (new direct names true false) of_client named ≡ (ok 80, of_client))
    × (resolve_tcp_connect letters (new direct names false false) of_client named
        ≡ (err (io_error not_found), of_client))
    × (tcp_connect (alias_as_net (record { net = direct })) of_client named
        ≡ (err (other_error 0), of_client))
    × (tcp_connect (not_implemented_net {V = Value} {sockets = numbers}) of_client named
        ≡ (err not_implemented, of_client))
    × (lookup_host
          (combine_as_net (record {
            tcp_connect = direct;
            tcp_bind = direct;
            udp_bind = direct;
            lookup_host = names;
          }))
          named
        ≡ ok (socket_v6 7 80 0 0 ∷ socket_v4 6 80 ∷ socket_v4 7 80 ∷ []))
    × (tcp_bind (blackhole_net {V = Value}) of_client named ≡ (ok black_item, of_client))
unfolding is_ipv4 is_ipv6 wanted keep_wanted keep_found last_or_not_found on_answer try_each try_all
    new resolve_tcp_connect resolve normalize strip_brackets strip_suffix strip_prefix starts_with
    lookup_host tcp_connect or_not_implemented alias_as_net combine_as_net not_implemented_net
    blackhole_net tcp_bind
runs = (refl, refl, refl, refl, refl, refl)

resolve_tcp_connect_lem_example :
    ((as_ : List SocketAddr) × Candidates letters direct names true false named as_
      × FirstOf
          (tcp_connect direct)
          as_
          of_client
          none
          (resolve_tcp_connect letters (new direct names true false) of_client named))
    ⊎ ((e : NetError) × NoLookup letters direct names true false named e
        × (resolve_tcp_connect letters (new direct names true false) of_client named
            ≡ (err (io_error (to_io_err e)), of_client)))
resolve_tcp_connect_lem_example =
    resolve_tcp_connect_lem letters direct names true false named of_client
