-- ===== src/Address/Parse.antt =====
-- Reading and writing an `Address` as text, and looking for an IP address in a domain name.
use rabbit_digger.Base.{
  Bytes, ℕ, List, [], ◌∷◌, ◌++◌, Option, none, some, ◌≡◌, ◌≢◌, ◌==◌, if◌then◌else◌,
}
use rabbit_digger.Address.{
  IpAddr, v4, v6, SocketAddr, socket_v4, socket_v6, new_socket, Address, socket_addr, domain,
  any_addr_port,
}
use rabbit_digger.Address.Decimal.{print_u16, print_u32, parse_u16}

-- `std::io::Result` where the one error is `ErrorKind::AddrNotAvailable`.
pub data AddrResult {ℓ} (A : Type ℓ) : Type ℓ where
  ok : A → AddrResult A
  no_addr : AddrResult A

infixl 5 ◌>>=◌
abbrev pub ◌>>=◌ {ℓ κ} :
    {A : Type ℓ} {B : Type κ} → AddrResult A → (A → AddrResult B) → AddrResult B
ok a >>= f = f a
no_addr >>= f = no_addr

abbrev pub ok_or {ℓ} : {A : Type ℓ} → Option A → AddrResult A
ok_or (some a) = ok a
ok_or none = no_addr

-- The text form of an IP address, which the standard library defines: what is printed is read
-- back, and has no bracket in front.
pub record IpText : Type 0 where
  pub parse_ip : Bytes → Option IpAddr
  pub print_ip : IpAddr → Bytes
  pub parse-print_ip : (ip : IpAddr) → parse_ip (print_ip ip) ≡ some ip
  pub print_ip-unbracketed : (ip : IpAddr) (rest : Bytes) → print_ip ip ≢ b'[' ∷ rest

-- `s.rsplitn(2, c)`: what stands before and behind the last `c`, if there is one.
unfoldable pub rsplit : ℕ → Bytes → Option (Bytes × Bytes)
rsplit c [] = none
rsplit c (x ∷ xs) = elim (rsplit c xs) [
  | some (front, back) ↦ some (x ∷ front, back)
  | none ↦ if x == c then some ([], xs) else none
]

-- `s.strip_suffix(c)`.
unfoldable pub strip_suffix : ℕ → Bytes → Option Bytes
strip_suffix c [] = none
strip_suffix c (x ∷ []) = if x == c then some [] else none
strip_suffix c (x ∷ y ∷ xs) = elim (strip_suffix c (y ∷ xs)) [
  | some front ↦ some (x ∷ front)
  | none ↦ none
]

unfoldable pub strip_brackets : Bytes → Bytes
strip_brackets [] = []
strip_brackets (c ∷ cs) =
    if c == b'[' then (elim (strip_suffix b']' cs) [ some h ↦ h | none ↦ c ∷ cs ]) else c ∷ cs

-- `Either<SocketAddr, (&String, u16)>`, what `normalize` returns.
pub data Normalized : Type 0 where
  left : SocketAddr → Normalized
  right : Bytes → ℕ → Normalized

module _ (text : IpText) where
  open text use {parse_ip, print_ip}

  unfoldable pub host_to_address : Bytes → ℕ → Address
  host_to_address host port = elim (parse_ip (strip_brackets host)) [
    | some ip ↦ socket_addr (new_socket ip port)
    | none ↦ domain host port
  ]

  -- `IntoAddress for &str`, and `FromStr`. With no colon the whole text is read as the port, and
  -- then the host is missing.
  unfoldable pub into_address : Bytes → AddrResult Address
  into_address s = elim (rsplit b':' s) [
    | some (host, last) ↦ ok_or (parse_u16 last) >>= λ port. ok (host_to_address host port)
    | none ↦ ok_or (parse_u16 s) >>= λ port. no_addr
  ]

  -- `FromStr for AddressDomain`, as the pair of its fields.
  unfoldable pub parse_address_domain : Bytes → AddrResult (Bytes × ℕ)
  parse_address_domain s = elim (rsplit b':' s) [
    | some (host, last) ↦ ok_or (parse_u16 last) >>= λ port. ok (host, port)
    | none ↦ ok_or (parse_u16 s) >>= λ port. no_addr
  ]

  -- `Display for SocketAddr` of the standard library.
  unfoldable pub print_socket : SocketAddr → Bytes
  print_socket (socket_v4 ip port) = print_ip (v4 ip) ++ (b':' ∷ print_u16 port)
  print_socket (socket_v6 ip port flow scope) =
      let zone = if scope == 0 then [] else b'%' ∷ print_u32 scope in
      b'[' ∷ (print_ip (v6 ip) ++ (zone ++ (b']' ∷ b':' ∷ print_u16 port)))

  -- `Display for Address`.
  unfoldable pub print_address : Address → Bytes
  print_address (socket_addr s) = print_socket s
  print_address (domain d port) = d ++ (b':' ∷ print_u16 port)

  unfoldable pub normalize : Address → Normalized
  normalize (socket_addr s) = left s
  normalize (domain d p) = elim (parse_ip (strip_brackets d)) [
    | some ip ↦ left (new_socket ip p)
    | none ↦ right d p
  ]

  unfoldable pub to_normalized : Address → Address
  to_normalized a = elim (normalize a) [ left s ↦ socket_addr s | right d p ↦ domain d p ]

  unfoldable pub to_socket_addr : Address → AddrResult SocketAddr
  to_socket_addr a = elim (normalize a) [ left s ↦ ok s | right d p ↦ no_addr ]

  unfoldable pub to_any_addr_port : Address → AddrResult Address
  to_any_addr_port a = elim (normalize a) [ left s ↦ ok (any_addr_port s) | right d p ↦ no_addr ]

  -- `resolve`: `f` looks a domain up. The result is one of any type, with its case for success.
  unfoldable pub resolve : {R : Type 0} → (List SocketAddr → R) → Address → (Bytes → ℕ → R) → R
  resolve found a f = elim (normalize a) [ left s ↦ found (s ∷ []) | right d p ↦ f d p ]

  -- `host`: an IPv6 address in brackets.
  unfoldable pub host : Address → Bytes
  host (socket_addr (socket_v4 ip port)) = print_ip (v4 ip)
  host (socket_addr (socket_v6 ip port flow scope)) = b'[' ∷ (print_ip (v6 ip) ++ b']' ∷ [])
  host (domain d p) = d
