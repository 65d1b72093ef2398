-- ===== src/Builtin/Resolve.antt =====
-- `ResolveNet` of rd-std/src/builtin/resolve.rs: names are looked up in one net, and their addresses
-- are tried one after the other in another.
use rabbit_digger.Address.{socket_addr, domain, SocketAddr, socket_v4, socket_v6}
use rabbit_digger.Address.Parse.{IpText, resolve}
use rabbit_digger.Base.{
  Bytes, ℕ, List, [], ◌∷◌, Option, none, some, Bool, true, false, ◌&&◌, ◌||◌, if◌then◌else◌,
}
use rabbit_digger.Base.Io.{not_found}
use rabbit_digger.Context.{Context}
use rabbit_digger.Net.{
  Net, Sockets, Operation, NetError, io_error, to_io_err, NetResult, ok, err, tcp_connect, udp_bind,
  lookup_host,
}

unfoldable pub is_ipv4 : SocketAddr → Bool
is_ipv4 (socket_v4 ip port) = true
is_ipv4 (socket_v6 ip port flow scope) = false

unfoldable pub is_ipv6 : SocketAddr → Bool
is_ipv6 (socket_v4 ip port) = false
is_ipv6 (socket_v6 ip port flow scope) = true

-- The filter of the resolver.
unfoldable pub wanted : Bool → Bool → SocketAddr → Bool
wanted ipv4 ipv6 a = (ipv4 && is_ipv4 a) || (ipv6 && is_ipv6 a)

unfoldable pub keep_wanted : Bool → Bool → List SocketAddr → List SocketAddr
keep_wanted ipv4 ipv6 [] = []
keep_wanted ipv4 ipv6 (a ∷ as_) =
    let rest = keep_wanted ipv4 ipv6 as_ in if wanted ipv4 ipv6 a then a ∷ rest else rest

-- `?` makes an `io::Error` of the error of the lookup.
unfoldable pub keep_found : Bool → Bool → NetResult (List SocketAddr) → NetResult (List SocketAddr)
keep_found ipv4 ipv6 (ok as_) = ok (keep_wanted ipv4 ipv6 as_)
keep_found ipv4 ipv6 (err e) = err (io_error (to_io_err e))

-- `last_err.unwrap_or_else(…)`.
unfoldable pub last_or_not_found : Option NetError → NetError
last_or_not_found (some e) = e
last_or_not_found none = io_error not_found

module _ {V T : Type 0} (attempt : Operation V T) where
  unfoldable pub on_answer :
      (Context V → Option NetError → NetResult T × Context V)
      → NetResult T × Context V
      → NetResult T × Context V
  on_answer rest (ok x, ctx) = (ok x, ctx)
  on_answer rest (err e, ctx) = rest ctx (some e)

  -- The loop over the addresses, with the last error.
  unfoldable pub try_each : List SocketAddr → Context V → Option NetError → NetResult T × Context V
  try_each [] ctx last = (err (last_or_not_found last), ctx)
  try_each (a ∷ as_) ctx last = on_answer (try_each as_) (attempt ctx (socket_addr a))

  -- `addr.resolve(…).await?`, then the loop.
  unfoldable pub try_all : NetResult (List SocketAddr) → Context V → NetResult T × Context V
  try_all (ok as_) ctx = try_each as_ ctx none
  try_all (err e) ctx = (err e, ctx)

pub record ResolveNet (V : Type 0) (sockets : Sockets) : Type 0 where
  pub net : Net V sockets
  pub resolver : Bytes → ℕ → NetResult (List SocketAddr)

unfoldable pub new :
    {V : Type 0} {sockets : Sockets}
    → Net V sockets
    → Net V sockets
    → Bool
    → Bool
    → ResolveNet V sockets
new net resolve_net ipv4 ipv6 = record {
  net = net;
  resolver = λ d p. keep_found ipv4 ipv6 (lookup_host resolve_net (domain d p));
}

module _ (text : IpText) {V : Type 0} {sockets : Sockets} where
  unfoldable pub resolve_tcp_connect : ResolveNet V sockets → Operation V sockets.TcpStream
  resolve_tcp_connect r ctx addr = try_all (tcp_connect r.net) (resolve text ok addr r.resolver) ctx

  unfoldable pub resolve_udp_bind : ResolveNet V sockets → Operation V sockets.UdpSocket
  resolve_udp_bind r ctx addr = try_all (udp_bind r.net) (resolve text ok addr r.resolver) ctx

  unfoldable pub resolve_as_net : ResolveNet V sockets → Net V sockets
  resolve_as_net r = record {
    provide_tcp_connect = some (resolve_tcp_connect r);
    provide_tcp_bind = r.net.provide_tcp_bind;
    provide_udp_bind = some (resolve_udp_bind r);
    provide_lookup_host = r.net.provide_lookup_host;
  }
