-- ===== src/DnsSniffer/Targets.antt =====
-- Where the DNS sniffer of rd-std/src/sniffer/dns_sniffer.rs connects to.
use rabbit_digger.Address.{Address, socket_addr, domain, IpAddr, SocketAddr, socket_ip, socket_port}
use rabbit_digger.Base.{
  Bytes, ℕ, List, [], ◌∷◌, ◌==◌, Option, none, some, returns, ◌≡◌, inl, inr, refl, ap, arith,
  Bool-cases,
}
use rabbit_digger.Base.Io.{done}
use rabbit_digger.Context.{Context, Field, get_common, ok as stored}
use rabbit_digger.Context.Fields.{CommonFields, common_fields}
use rabbit_digger.Context.Laws.{get_common-insert_common}
use rabbit_digger.DnsSniffer.{
  Names, poll_recv_from, inserted, recovered, sniff, sniffer_tcp_connect,
}
use rabbit_digger.Net.{Net, Sockets, tcp_connect}
use rabbit_digger.ReverseLookup.{Message, reverse_lookup, new}
use rabbit_digger.ReverseLookup.Names.{
  AllNames, AsksFor, record_packet-AllNames, reverse_lookup-AllNames, reverse_lookup-Answers,
  Answers,
}
use rabbit_digger.Rule.Cache.{LruCache}
use rabbit_digger.Running.Chain.{WritesBack}

module _ (by_addr : LruCache IpAddr Bytes) (by_name : LruCache Bytes Bytes)
    (read : Bytes → Option Message) where
  recv-AllNames :
      (P : Bytes → Type 0) (from : SocketAddr) (filled : Bytes) (s : Names by_addr by_name read)
      → (socket_port from ≡ 53 → AsksFor by_addr by_name read P filled)
      → AllNames by_addr by_name read P s
      → AllNames by_addr by_name read P (poll_recv_from by_addr by_name read (done from) filled s).1
  unfolding poll_recv_from
  recv-AllNames P from filled s asks all = elim (Bool-cases (socket_port from == 53)) [
    | inl dns ↦
        rw dns (record_packet-AllNames by_addr by_name read P filled s (asks (ground arith)) all)
    | inr elsewhere ↦ rw elsewhere all
  ]

  module _ {V : Type 0} (domains : Field V (Bytes × ℕ)) (sockets_field : Field V SocketAddr) where
    abbrev the_fields : CommonFields V
    the_fields = common_fields domains sockets_field

    -- The target `target` with context `ctx'` in place of `addr` with `ctx`: the same, or a name with
    -- the property for the address, which the context tells.
    pub data Recovers (P : Bytes → Type 0) (addr : Address) (ctx : Context V)
        : Address → Context V → Type 0 where
      as_it_was : Recovers P addr ctx addr ctx
      by_its_name :
          (sa : SocketAddr) (name : Bytes) (ctx' : Context V)
          → addr ≡ socket_addr sa
          → P name
          → get_common the_fields.dest_domain ctx' ≡ stored (some (name, socket_port sa))
          → get_common the_fields.src_socket_addr ctx' ≡ get_common the_fields.src_socket_addr ctx
          → ctx'.net_list ≡ ctx.net_list
          → Recovers P addr ctx (domain name (socket_port sa)) ctx'

    recovered-Recovers :
        (P : Bytes → Type 0) (found : Option Bytes) (sa : SocketAddr) (ctx : Context V)
        → WritesBack domains
        → Answers by_addr by_name read P found
        → (target : Address) × (ctx' : Context V) × (recovered by_addr by_name read the_fields found
              sa ctx
            ≡ returns (target, ctx'))
          × Recovers P (socket_addr sa) ctx target ctx'
    unfolding recovered inserted common_fields
    recovered-Recovers P none sa ctx w a = (socket_addr sa, ctx, refl, as_it_was)
    recovered-Recovers P (some name) sa ctx w a =
        let (v, written, back) = w (name, socket_port sa) in
        let (ready, e, got, src, raw, nets) =
          get_common-insert_common the_fields.dest_domain the_fields.src_socket_addr
            (name, socket_port sa) [] ctx written back (ground arith) (ground arith) in
        (
          domain name (socket_port sa),
          ready,
          ap (inserted by_addr by_name read the_fields (domain name (socket_port sa))) e,
          by_its_name sa name ready refl a got src nets,
        )

    sniff-Recovers :
        (P : Bytes → Type 0) (ctx : Context V) (addr : Address) (s : Names by_addr by_name read)
        → WritesBack domains
        → AllNames by_addr by_name read P s
        → (target : Address) × (ctx' : Context V) × (s' : Names by_addr by_name read) × (sniff
              by_addr by_name read the_fields ctx addr s
            ≡ returns ((target, ctx'), s'))
          × Recovers P addr ctx target ctx'
          × AllNames by_addr by_name read P s'
    unfolding sniff
    sniff-Recovers P ctx (domain d p) s w all = (domain d p, ctx, s, refl, as_it_was, all)
    sniff-Recovers P ctx (socket_addr sa) s w all =
        let answer = reverse_lookup by_addr by_name read (socket_ip sa) s in
        let (target, ctx', e, r) =
          recovered-Recovers P answer.0 sa ctx w
            (reverse_lookup-Answers by_addr by_name read P (socket_ip sa) s all) in
        (
          target,
          ctx',
          answer.1,
          rw e refl,
          r,
          reverse_lookup-AllNames by_addr by_name read P (socket_ip sa) s all,
        )

    -- What happens to the net: a packet comes in at one of its sockets, or a connection is asked for.
    pub data Op : Type 0 where
      comes_in : SocketAddr → Bytes → Op
      connects : Context V → Address → Op

    -- The packets from port 53 ask for names with the property.
    abbrev pub AllAsk : (Bytes → Type 0) → List Op → Type 0
    AllAsk P [] = Unit {0}
    AllAsk P (comes_in from filled ∷ ops) =
        (socket_port from ≡ 53 → AsksFor by_addr by_name read P filled) × AllAsk P ops
    AllAsk P (connects ctx addr ∷ ops) = AllAsk P ops

    module _ {sockets : Sockets} (net : Net V sockets) where
      -- Each connection is made by the inner net to the target that it should go to.
      pub AllRecover : (Bytes → Type 0) → List Op → Names by_addr by_name read → Type 0
      AllRecover P [] s = Unit {0}
      AllRecover P (comes_in from filled ∷ ops) s =
          AllRecover P ops (poll_recv_from by_addr by_name read (done from) filled s).1
      AllRecover P (connects ctx addr ∷ ops) s =
          (target : Address) × (ctx' : Context V) × (s' : Names by_addr by_name read)
          × (sniffer_tcp_connect by_addr by_name read the_fields net ctx addr s
              ≡ returns (tcp_connect net ctx' target, s'))
          × Recovers P addr ctx target ctx'
          × AllRecover P ops s'

      ops-AllRecover :
          (P : Bytes → Type 0) (ops : List Op) (s : Names by_addr by_name read)
          → WritesBack domains
          → AllAsk P ops
          → AllNames by_addr by_name read P s
          → AllRecover P ops s
      unfolding AllRecover sniffer_tcp_connect
      ops-AllRecover P [] s w asks all = tt
      ops-AllRecover P (comes_in from filled ∷ ops) s w asks all =
          ops-AllRecover P ops (poll_recv_from by_addr by_name read (done from) filled s).1 w asks.1
            (recv-AllNames P from filled s asks.0 all)
      ops-AllRecover P (connects ctx addr ∷ ops) s w asks all =
          let (target, ctx', s', e, r, all') = sniff-Recovers P ctx addr s w all in
          (
            target,
            ctx',
            s',
            rw (sniffer_tcp_connect, e) refl,
            r,
            ops-AllRecover P ops s' w asks all',
          )

      -- If names can be written into the context and read back: whatever packets come in and whatever
      -- connections are asked for in between, from the empty tables on, each connection is made by the
      -- inner net, to the address that was asked for in the context as it was, or in place of a socket
      -- address to a name with the same port, which the context then holds as the domain of the
      -- target, with the same source and nets. Every such name has each property that the questions of
      -- the packets from port 53 have, so it was asked for in one of them.
      pub sniffer_lem :
          (P : Bytes → Type 0) (ops : List Op)
          → WritesBack domains
          → AllAsk P ops
          → AllRecover P ops (new by_addr by_name read)
      unfolding new
      sniffer_lem P ops w asks = ops-AllRecover P ops (new by_addr by_name read) w asks (record {
        of_addr = λ q d e. cc (by_addr.peek-with_capacity 128 q, e);
        of_alias = λ q d e. cc (by_name.peek-with_capacity 128 q, e);
      })
