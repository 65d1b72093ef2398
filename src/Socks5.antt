-- ===== src/Socks5.antt =====
-- The UDP packets of SOCKS5, rd-std/src/socks5/common.rs. The crate socks5_protocol, which reads and
-- writes addresses, is a parameter.
pub mod RoundTrip
mod Tests
use rabbit_digger.Address.{Address, socket_addr, domain, SocketAddr, socket_v4, socket_v6}
use rabbit_digger.Base.{
  Bytes, ℕ, ◌+◌, ◌-◌, List, [], ◌∷◌, ◌++◌, Option, none, some, Bool, true, false, ◌&&◌, ◌==◌,
  if◌then◌else◌, length, take, drop, ◌≡◌, MayPanic, returns, panics, ltb,
}
use rabbit_digger.ConnectTcp.{overwrite}

-- `socks5_protocol::Address`.
pub data SocksAddress : Type 0 where
  socks_domain : Bytes → ℕ → SocksAddress
  socks_socket : SocketAddr → SocksAddress

-- An IPv6 address without its flow information and scope, which are not written.
abbrev pub plain_socket : SocketAddr → SocketAddr
plain_socket (socket_v4 ip port) = socket_v4 ip port
plain_socket (socket_v6 ip port flow scope) = socket_v6 ip port 0 0

abbrev pub on_wire : SocksAddress → SocksAddress
on_wire (socks_domain d p) = socks_domain d p
on_wire (socks_socket s) = socks_socket (plain_socket s)

-- `read_from` gives the address and how many bytes it took; `write_to` may refuse an address. What is
-- written of an address is read back, whatever follows it.
pub record AddressCodec : Type 0 where
  pub read_from : Bytes → Option (SocksAddress × ℕ)
  pub write_to : SocksAddress → Option Bytes
  pub read_from-write_to :
      (a : SocksAddress) (rest : Bytes) {b : Bytes}
      → write_to a ≡ some b
      → read_from (b ++ rest) ≡ some (on_wire a, length b)

unfoldable pub sa2ra : SocksAddress → Address
sa2ra (socks_domain d p) = domain d p
sa2ra (socks_socket s) = socket_addr s

unfoldable pub ra2sa : Address → SocksAddress
ra2sa (domain d p) = socks_domain d p
ra2sa (socket_addr s) = socks_socket s

-- The errors: too few bytes, a header that is not zero, an address that is not read or written.
pub data UdpError : Type 0 where
  unexpected_eof : UdpError
  wrong_header : ℕ → ℕ → ℕ → UdpError
  address_error : UdpError

pub data UdpResult (A : Type 0) : Type 0 where
  ok : A → UdpResult A
  err : UdpError → UdpResult A

-- The bytes from `pos` on are moved to the front, and the buffer is cut to them. `copy_within` and the
-- subtraction panic if `pos` is past the end.
unfoldable pub cut_front : ℕ → Bytes → MayPanic Bytes
cut_front pos filled =
    if ltb (length filled) pos
    then panics
    else returns (take (length filled - pos) (overwrite (drop pos filled) filled))

module _ (codec : AddressCodec) where
  unfoldable pub with_address :
      Option (SocksAddress × ℕ) → Bytes → MayPanic (UdpResult Address × Bytes)
  with_address none filled = returns (err address_error, filled)
  with_address (some (a, n)) filled = elim (cut_front (3 + n) filled) [
    | panics ↦ panics
    | returns rest ↦ returns (ok (sa2ra a), rest)
  ]

  unfoldable pub after_header : ℕ → ℕ → ℕ → Bytes → Bytes → MayPanic (UdpResult Address × Bytes)
  after_header rsv rsv' frag rest filled =
      if (rsv == 0) && ((rsv' == 0) && (frag == 0))
      then with_address (codec.read_from rest) filled
      else returns (err (wrong_header rsv rsv' frag), filled)

  -- `parse_udp`: the address, and what the buffer holds after it.
  unfoldable pub parse_udp : Bytes → MayPanic (UdpResult Address × Bytes)
  parse_udp (rsv ∷ rsv' ∷ frag ∷ rest) = after_header rsv rsv' frag rest (rsv ∷ rsv' ∷ frag ∷ rest)
  parse_udp [] = returns (err unexpected_eof, [])
  parse_udp (x ∷ []) = returns (err unexpected_eof, x ∷ [])
  parse_udp (x ∷ y ∷ []) = returns (err unexpected_eof, x ∷ y ∷ [])

  unfoldable pub packed : Option Bytes → Bytes → UdpResult Bytes
  packed none buf = err address_error
  packed (some b) buf = ok (0 ∷ 0 ∷ 0 ∷ (b ++ buf))

  -- `pack_udp`: the vector, which is cleared first.
  unfoldable pub pack_udp : Address → Bytes → UdpResult Bytes
  pack_udp addr buf = packed (codec.write_to (ra2sa addr)) buf
