-- ===== src/Builtin.antt =====
-- Nets over other nets: rd-std/src/builtin/alias.rs, combine.rs, blackhole.rs and noop.rs, and
-- rd-std/src/util/net.rs; and rd-std/src/builtin/resolve.rs in Builtin.Resolve.
pub mod Resolve
pub mod Attempts
mod Tests
use rabbit_digger.Address.{SocketAddr, Address}
use rabbit_digger.Base.{Bytes, ℕ, List, [], Option, none, some, length}
use rabbit_digger.Base.Io.{Poll, pending, done}
use rabbit_digger.Context.{Context}
use rabbit_digger.Net.{Net, Sockets, NetResult, ok, err, not_implemented}

pub record AliasNet (V : Type 0) (sockets : Sockets) : Type 0 where
  pub net : Net V sockets

-- `CombineNet`, of builtin/combine.rs and of util/net.rs.
pub record CombineNet (V : Type 0) (sockets : Sockets) : Type 0 where
  pub tcp_connect : Net V sockets
  pub tcp_bind : Net V sockets
  pub udp_bind : Net V sockets
  pub lookup_host : Net V sockets

module _ {V : Type 0} {sockets : Sockets} where
  -- `NotImplementedNet`, which is also `NoopNet`.
  unfoldable pub not_implemented_net : Net V sockets
  not_implemented_net = record {
    provide_tcp_connect = none;
    provide_tcp_bind = none;
    provide_udp_bind = none;
    provide_lookup_host = none;
  }

  unfoldable pub alias_as_net : AliasNet V sockets → Net V sockets
  alias_as_net a = record {
    provide_tcp_connect = a.net.provide_tcp_connect;
    provide_tcp_bind = a.net.provide_tcp_bind;
    provide_udp_bind = a.net.provide_udp_bind;
    provide_lookup_host = a.net.provide_lookup_host;
  }

  unfoldable pub combine_as_net : CombineNet V sockets → Net V sockets
  combine_as_net c = record {
    provide_tcp_connect = c.tcp_connect.provide_tcp_connect;
    provide_tcp_bind = c.tcp_bind.provide_tcp_bind;
    provide_udp_bind = c.udp_bind.provide_udp_bind;
    provide_lookup_host = c.lookup_host.provide_lookup_host;
  }

-- `BlackItem`: a stream that ends and takes everything, a socket and a listener that wait.
pub data BlackItem : Type 0 where
  black_item : BlackItem

-- What a read appends to the buffer.
unfoldable pub poll_read : BlackItem → Poll Bytes
poll_read black_item = done []

unfoldable pub poll_write : BlackItem → Bytes → Poll ℕ
poll_write black_item buf = done (length buf)

unfoldable pub poll_flush : BlackItem → Poll Unit
poll_flush black_item = done tt

unfoldable pub poll_shutdown : BlackItem → Poll Unit
poll_shutdown black_item = done tt

unfoldable pub black_addr : BlackItem → NetResult SocketAddr
black_addr black_item = err not_implemented

unfoldable pub poll_recv_from : BlackItem → Poll (Bytes × SocketAddr)
poll_recv_from black_item = pending

unfoldable pub poll_send_to : BlackItem → Bytes → Address → Poll ℕ
poll_send_to black_item buf target = pending

abbrev pub black_items : Sockets
black_items = record { TcpStream = BlackItem; TcpListener = BlackItem; UdpSocket = BlackItem }

unfoldable pub blackhole_net : {V : Type 0} → Net V black_items
blackhole_net = record {
  provide_tcp_connect = some (λ ctx addr. (ok black_item, ctx));
  provide_tcp_bind = some (λ ctx addr. (ok black_item, ctx));
  provide_udp_bind = some (λ ctx addr. (ok black_item, ctx));
  provide_lookup_host = none;
}
