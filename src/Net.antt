-- ===== src/Net.antt =====
-- `Net` of rd-interface/src/interface.rs: what a net provides, and what its operations do when it
-- does not provide them. Nets are code outside of the model: functions that may change the context.
use rabbit_digger.Address.{Address, SocketAddr}
use rabbit_digger.Base.{ℕ, List, Option, none, some}
use rabbit_digger.Base.Io.{IoError, other}
use rabbit_digger.Context.{Context, Error}

-- `Error` of rd-interface/src/error.rs, as far as the nets of the model look at it.
pub data NetError : Type 0 where
  not_implemented not_matched not_found : NetError
  io_error : IoError → NetError
  context_error : Error → NetError
  other_error : ℕ → NetError

pub data NetResult (A : Type 0) : Type 0 where
  ok : A → NetResult A
  err : NetError → NetResult A

-- `From<Error> for io::Error`. An error that wraps another one has kind `Other`, here the number 0, and
-- what it wraps is left out.
unfoldable pub to_io_err : NetError → IoError
to_io_err (io_error e) = e
to_io_err not_implemented = other 0
to_io_err not_matched = other 0
to_io_err not_found = other 0
to_io_err (context_error e) = other 0
to_io_err (other_error n) = other 0

-- What nets hand out.
pub record Sockets : Type 1 where
  pub TcpStream : Type 0
  pub TcpListener : Type 0
  pub UdpSocket : Type 0

-- An operation that takes the context, which it may change, and an address.
abbrev pub Operation : Type 0 → Type 0 → Type 0
Operation V A = Context V → Address → NetResult A × Context V

-- `INet`: the operations that a net provides.
pub record Net (V : Type 0) (sockets : Sockets) : Type 0 where
  pub provide_tcp_connect : Option (Operation V sockets.TcpStream)
  pub provide_tcp_bind : Option (Operation V sockets.TcpListener)
  pub provide_udp_bind : Option (Operation V sockets.UdpSocket)
  pub provide_lookup_host : Option (Address → NetResult (List SocketAddr))

-- `.ok_or(Error::NotImplemented)?`.
unfoldable pub or_not_implemented : {V A : Type 0} → Option (Operation V A) → Operation V A
or_not_implemented none ctx addr = (err not_implemented, ctx)
or_not_implemented (some f) ctx addr = f ctx addr

module _ {V : Type 0} {sockets : Sockets} where
  unfoldable pub tcp_connect : Net V sockets → Operation V sockets.TcpStream
  tcp_connect net = or_not_implemented net.provide_tcp_connect

  unfoldable pub tcp_bind : Net V sockets → Operation V sockets.TcpListener
  tcp_bind net = or_not_implemented net.provide_tcp_bind

  unfoldable pub udp_bind : Net V sockets → Operation V sockets.UdpSocket
  udp_bind net = or_not_implemented net.provide_udp_bind

  unfoldable pub lookup_host : Net V sockets → Address → NetResult (List SocketAddr)
  lookup_host net addr = elim net.provide_lookup_host [
    | none ↦ err not_implemented
    | some f ↦ f addr
  ]
