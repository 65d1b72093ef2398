-- ===== src/Running/Chain.antt =====
-- What the nets of src/rabbit_digger/running.rs leave in the context of a connection.
use mathlib.Core.List.{append-nil, append_assoc}
use rabbit_digger.Address.{Address, domain, SocketAddr, socket_addr}
use rabbit_digger.Base.{Bytes, ℕ, List, [], ◌∷◌, ◌++◌, some, ◌≡◌, refl}
use rabbit_digger.CompactVecString.Represents.{Represents, push-Represents}
use rabbit_digger.Context.{Context, Json, Field, ok as stored, append_net, get_common}
use rabbit_digger.Context.Fields.{CommonFields, common_fields}
use rabbit_digger.Net.{
  Net, Sockets, or_not_implemented, tcp_connect as connect, tcp_bind as bind, udp_bind as bind_udp,
  lookup_host as lookup,
}
use rabbit_digger.Running.Nets.{as_net}

module _ {V : Type 0} {sockets : Sockets} where
  -- Running nets around a net, the outermost first.
  abbrev pub chain : List Bytes → Net V sockets → Net V sockets
  chain [] net = net
  chain (n ∷ ns) net = as_net (record { name = n; net = chain ns net })

  -- Connecting, binding and binding UDP through any chain of running nets is doing so in the
  -- innermost net, in a context that has the names of the chain at the end of its list of nets, from
  -- the outside in, and the same entries; a lookup goes through unchanged.
  pub chain_lem :
      (names : List Bytes) (net : Net V sockets) (ctx : Context V) (addr : Address)
      {nets : List Bytes}
      → Represents ctx.net_list nets
      → (inner : Context V) × Represents inner.net_list (nets ++ names)
        × (inner.entries ≡ ctx.entries)
        × (connect (chain names net) ctx addr ≡ connect net inner addr)
        × (bind (chain names net) ctx addr ≡ bind net inner addr)
        × (bind_udp (chain names net) ctx addr ≡ bind_udp net inner addr)
        × (lookup (chain names net) addr ≡ lookup net addr)
  unfolding as_net connect bind bind_udp lookup or_not_implemented append_net
  chain_lem [] net ctx addr r = (ctx, rw append-nil r, refl, refl, refl, refl, refl)
  chain_lem (n ∷ ns) net ctx addr r =
      let (inner, nets, entries, c, b, u, l) =
        chain_lem ns net (append_net n ctx) addr (push-Represents n r) in
      (inner, rw append_assoc at nets, entries, c, b, u, l)

-- A value that is written can be read back.
abbrev pub WritesBack : {V T : Type 0} → Field V T → Type 0
WritesBack {V = V} {T = T} f = (t : T) → (v : V) × (f.to_json t ≡ some v) × (f.from_json v ≡ some t)

-- The field of the target's kind holds the target.
abbrev pub TargetStored : {V : Type 0} → CommonFields V → Address → Context V → Type 0
TargetStored fields (domain d p) ctx = get_common fields.dest_domain ctx ≡ stored (some (d, p))
TargetStored fields (socket_addr s) ctx = get_common fields.dest_socket_addr ctx ≡ stored (some s)

-- What is asked of the field of the target's kind: it writes the target, and reads back what it wrote.
abbrev pub TargetWritesBack :
    {V : Type 0} → Field V (Bytes × ℕ) → Field V SocketAddr → Address → Type 0
TargetWritesBack {V} domains sockets_field (domain d p) =
    (v : V) × (domains.to_json (d, p) ≡ some v) × (domains.from_json v ≡ some (d, p))
TargetWritesBack {V} domains sockets_field (socket_addr s) =
    (v : V) × (sockets_field.to_json s ≡ some v) × (sockets_field.from_json v ≡ some s)

module _ {V : Type 0} (json : Json V) (domains : Field V (Bytes × ℕ))
    (sockets_field : Field V SocketAddr) where
  abbrev pub the_fields : CommonFields V
  the_fields = common_fields domains sockets_field
