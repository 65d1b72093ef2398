-- ===== src/Running/Nets.antt =====
-- `RunningNet` and `RunningServerNet` of src/rabbit_digger/running.rs: nets that write down their
-- names in the context, and that of a server, which also tells the target and reports connections.
use rabbit_digger.Address.{Address, domain, socket_addr}
use rabbit_digger.Base.{Bytes, ℕ, List, some, MayPanic, returns, ◌>>=◌}
use rabbit_digger.ConnectionManager.{EventType, Protocol, tcp, udp}
use rabbit_digger.ConnectionManager.Connection.{ConnType, default_conn, open_batches}
use rabbit_digger.Context.{
  Context, Json, Result, ok as stored, err as not_stored, append_net, insert_common, to_value,
}
use rabbit_digger.Context.Fields.{CommonFields}
use rabbit_digger.Net.{
  Net, Sockets, NetResult, ok, err, context_error, Operation, tcp_connect as connect,
  tcp_bind as bind, udp_bind as bind_udp, lookup_host as lookup,
}

module _ (V : Type 0) (sockets : Sockets) where
  pub record RunningNet : Type 0 where
    pub name : Bytes
    pub net : Net V sockets

  pub record RunningServerNet : Type 0 where
    pub server_name : Bytes
    pub server_net : Net V sockets

module _ {V : Type 0} {sockets : Sockets} where
  unfoldable pub update_net : RunningNet V sockets → Net V sockets → RunningNet V sockets
  update_net r net = record r { net = net }

  -- `as_net`, as the net that is inside at the time of a call makes it.
  unfoldable pub as_net : RunningNet V sockets → Net V sockets
  as_net r = record {
    provide_tcp_connect = some (λ ctx addr. connect r.net (append_net r.name ctx) addr);
    provide_tcp_bind = some (λ ctx addr. bind r.net (append_net r.name ctx) addr);
    provide_udp_bind = some (λ ctx addr. bind_udp r.net (append_net r.name ctx) addr);
    provide_lookup_host = some (λ addr. lookup r.net addr);
  }

-- What a server's net hands out: the inner stream or socket, the connection that counts for it, and
-- the batches of events that were sent when it was opened.
pub record Opened (V A : Type 0) : Type 0 where
  pub inner : A
  pub conn : ConnType
  pub batches : List (List (EventType V))

module _ {V : Type 0} (fields : CommonFields V) where
  -- `// prepare context`: the target is stored under the field of its kind.
  unfoldable pub prepare_context : Address → Context V → Result (Context V)
  prepare_context (domain d p) ctx = insert_common fields.dest_domain (d, p) ctx
  prepare_context (socket_addr s) ctx = insert_common fields.dest_socket_addr s ctx

module _ {V : Type 0} (json : Json V) where
  -- `manager.new_connection(addr, ctx)` for a stream or socket that the inner net gave.
  unfoldable pub wrap :
      {A : Type 0}
      → Protocol
      → Address
      → ℕ
      → NetResult A × Context V
      → MayPanic (NetResult (Opened V A) × Context V)
  wrap p addr stopper (err e, ctx) = returns (err e, ctx)
  wrap p addr stopper (ok inner, ctx) = do
    value ← to_value json ctx
    returns (
      ok (record {
        inner = inner;
        conn = default_conn p;
        batches = open_batches (default_conn p) addr value stopper;
      }),
      ctx,
    )

  module _ (fields : CommonFields V) {sockets : Sockets} where
    -- `tcp_connect` of `RunningServerNet`; the sender of the stop channel goes by `stopper`.
    unfoldable pub server_tcp_connect :
        RunningServerNet V sockets
        → ℕ
        → Context V
        → Address
        → MayPanic (NetResult (Opened V sockets.TcpStream) × Context V)
    server_tcp_connect r stopper ctx addr =
        let named = append_net r.server_name ctx in
        elim (prepare_context fields addr named) [
          | not_stored e ↦ returns (err (context_error e), named)
          | stored ready ↦ wrap tcp addr stopper (connect r.server_net ready addr)
        ]

module _ {V : Type 0} {sockets : Sockets} where
  unfoldable pub server_tcp_bind : RunningServerNet V sockets → Operation V sockets.TcpListener
  server_tcp_bind r ctx addr = bind r.server_net (append_net r.server_name ctx) addr

  unfoldable pub server_udp_bind :
      Json V
      → RunningServerNet V sockets
      → ℕ
      → Context V
      → Address
      → MayPanic (NetResult (Opened V sockets.UdpSocket) × Context V)
  server_udp_bind json r stopper ctx addr =
      wrap json udp addr stopper (bind_udp r.server_net (append_net r.server_name ctx) addr)
