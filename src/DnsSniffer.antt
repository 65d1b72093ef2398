-- ===== src/DnsSniffer.antt =====
-- `DNSSnifferNet` of rd-std/src/sniffer/dns_sniffer.rs: a net that learns names from the DNS answers
-- that pass through its sockets, and connects to names in place of their addresses.
pub mod Targets
mod Tests
use rabbit_digger.Address.{Address, socket_addr, domain, IpAddr, SocketAddr, socket_ip, socket_port}
use rabbit_digger.Base.{
  Bytes, ℕ, ◌==◌, Bool, if◌then◌else◌, Option, none, some, MayPanic, returns, panics, ◌>>=◌,
}
use rabbit_digger.Base.Io.{Poll, pending, done, failed}
use rabbit_digger.Context.{Context, Result, ok, err, insert_common}
use rabbit_digger.Context.Fields.{CommonFields}
use rabbit_digger.Net.{
  Net, Sockets, NetResult, Operation, ok as made, err as not_made, tcp_connect, udp_bind,
}
use rabbit_digger.ReverseLookup.{Inner, Message, record_packet, reverse_lookup}
use rabbit_digger.Rule.Cache.{LruCache}

module _ (by_addr : LruCache IpAddr Bytes) (by_name : LruCache Bytes Bytes)
    (read : Bytes → Option Message) where
  -- The tables, which the net shares with its sockets.
  abbrev pub Names : Type 0
  Names = Inner by_addr by_name read

  -- `MitmUdp::poll_recv_from`, where the inner socket has the given answer, and the buffer is filled.
  unfoldable pub poll_recv_from : Poll SocketAddr → Bytes → Names → Poll SocketAddr × Names
  poll_recv_from pending filled s = (pending, s)
  poll_recv_from (failed e) filled s = (failed e, s)
  poll_recv_from (done from) filled s =
      (done from, if socket_port from == 53 then record_packet by_addr by_name read filled s else s)

  module _ {V : Type 0} (fields : CommonFields V) where
    -- `expect("Failed to insert domain")`.
    unfoldable pub inserted : Address → Result (Context V) → MayPanic (Address × Context V)
    inserted target (ok ctx) = returns (target, ctx)
    inserted target (err e) = panics

    -- A name was found for the address, or none.
    unfoldable pub recovered :
        Option Bytes → SocketAddr → Context V → MayPanic (Address × Context V)
    recovered none sa ctx = returns (socket_addr sa, ctx)
    recovered (some name) sa ctx =
        inserted (domain name (socket_port sa))
          (insert_common fields.dest_domain (name, socket_port sa) ctx)

    -- `DNSSnifferNet::reverse_lookup`.
    unfoldable pub sniff : Context V → Address → Names → MayPanic ((Address × Context V) × Names)
    sniff ctx (socket_addr sa) s =
        let (found, s') = reverse_lookup by_addr by_name read (socket_ip sa) s in
        recovered found sa ctx >>= λ target. returns (target, s')
    sniff ctx (domain d p) s = returns ((domain d p, ctx), s)

    module _ {sockets : Sockets} where
      unfoldable pub sniffer_tcp_connect :
          Net V sockets
          → Context V
          → Address
          → Names
          → MayPanic ((NetResult sockets.TcpStream × Context V) × Names)
      sniffer_tcp_connect net ctx addr s =
          sniff ctx addr s >>= λ ((target, ctx'), s'). returns (tcp_connect net ctx' target, s')

-- `udp_bind`: the socket is wrapped, `MitmUdp`.
unfoldable pub wrapped :
    {V Udp Mitm : Type 0} → (Udp → Mitm) → NetResult Udp × Context V → NetResult Mitm × Context V
wrapped mitm (made udp, ctx) = (made (mitm udp), ctx)
wrapped mitm (not_made e, ctx) = (not_made e, ctx)

unfoldable pub sniffer_udp_bind :
    {V : Type 0} {sockets : Sockets} {Mitm : Type 0}
    → (sockets.UdpSocket → Mitm)
    → Net V sockets
    → Operation V Mitm
sniffer_udp_bind mitm net ctx addr = wrapped mitm (udp_bind net ctx addr)
