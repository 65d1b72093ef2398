-- ===== src/Rule/MatchContext.antt =====
-- `MatchContext` of rd-std/src/rule/matcher.rs: what rules look at.
use rabbit_digger.Address.{Address, socket_addr, domain, IpAddr, SocketAddr, socket_ip}
use rabbit_digger.Address.Parse.{ok as parsed, no_addr, IpText, to_normalized, to_socket_addr}
use rabbit_digger.Base.{Bytes, ℕ, Option, none, some}
use rabbit_digger.Context.{Context, Result, ok, err, get_common}
use rabbit_digger.Context.Fields.{CommonFields}

pub record MatchContext : Type 0 where
  pub address : Address
  pub src_ip_addr : Option IpAddr
  pub dest_socket_addr : Option SocketAddr
  pub dest_domain : Option (Bytes × ℕ)

infixl 5 ◌>>=◌
abbrev ◌>>=◌ : {A B : Type 0} → Result A → (A → Result B) → Result B
ok a >>= f = f a
err e >>= f = err e

abbrev ip_of : Option SocketAddr → Option IpAddr
ip_of none = none
ip_of (some s) = some (socket_ip s)

unfoldable pub from_context_address :
    IpText → {V : Type 0} → CommonFields V → Context V → Address → Result MatchContext
from_context_address text fields ctx addr = do
  src ← get_common fields.src_socket_addr ctx
  dest ← get_common fields.dest_socket_addr ctx
  name ← get_common fields.dest_domain ctx
  ok (record {
    address = to_normalized text addr;
    src_ip_addr = ip_of src;
    dest_socket_addr = dest;
    dest_domain = name;
  })

-- The domain of the address, or else the one that a sniffer has put into the context.
unfoldable pub domain_or : Address → Option (Bytes × ℕ) → Option (Bytes × ℕ)
domain_or (domain d p) other = some (d, p)
domain_or (socket_addr s) other = other

unfoldable pub get_domain : MatchContext → Option (Bytes × ℕ)
get_domain m = domain_or m.address m.dest_domain

-- The socket address of the address, or else the one in the context.
unfoldable pub socket_or : IpText → Address → Option SocketAddr → Option SocketAddr
socket_or text (socket_addr s) other = some s
socket_or text (domain d p) other = elim (to_socket_addr text (domain d p)) [
  | parsed s ↦ some s
  | no_addr ↦ other
]

unfoldable pub get_socket_addr : IpText → MatchContext → Option SocketAddr
get_socket_addr text m = socket_or text m.address m.dest_socket_addr
