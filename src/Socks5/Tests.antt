-- ===== src/Socks5/Tests.antt =====
-- A SOCKS5 UDP packet, with addresses of one byte.
use rabbit_digger.Address.{Address, domain, socket_addr, socket_v4, socket_v6}
use rabbit_digger.Base.{
  Bytes, ℕ, zero, suc, [], ◌∷◌, ◌++◌, Option, none, some, length, returns, ◌≡◌, refl, ap,
  take-append, some-inj, take, if◌then◌else◌, ◌==◌, Bool-cases, inl, inr,
}
use rabbit_digger.ConnectTcp.{overwrite}
use rabbit_digger.Socks5.{
  SocksAddress, socks_domain, socks_socket, on_wire, AddressCodec, wrong_header, unexpected_eof,
  address_error, ok, err, sa2ra, ra2sa, cut_front, with_address, after_header, parse_udp, packed,
  pack_udp,
}
use rabbit_digger.Socks5.RoundTrip.{parse_udp-pack_udp}

-- A tag, then a name after its length and the port, or the address and the port.
abbrev write_name : SocksAddress → Option Bytes
write_name (socks_domain d p) = some (0 ∷ length d ∷ p ∷ d)
write_name (socks_socket (socket_v4 ip p)) = if ip == 0 then none else some (1 ∷ ip ∷ p ∷ [])
write_name (socks_socket (socket_v6 ip p flow scope)) = some (2 ∷ ip ∷ p ∷ [])

abbrev read_name : Bytes → Option (SocksAddress × ℕ)
read_name (zero ∷ n ∷ p ∷ rest) = some (socks_domain (take n rest) p, suc (suc (suc n)))
read_name (suc zero ∷ ip ∷ p ∷ rest) = some (socks_socket (socket_v4 ip p), 3)
read_name (suc (suc zero) ∷ ip ∷ p ∷ rest) = some (socks_socket (socket_v6 ip p 0 0), 3)
read_name _ = none

read_name-write_name :
    (a : SocksAddress) (rest : Bytes) {b : Bytes}
    → write_name a ≡ some b
    → read_name (b ++ rest) ≡ some (on_wire a, length b)
read_name-write_name (socks_domain d p) rest {b} e =
    let same : 0 ∷ length d ∷ p ∷ d ≡ b = some-inj e in
    rw (← same) (ap (λ x. some (socks_domain x p, suc (suc (suc (length d))))) (take-append d rest))
read_name-write_name (socks_socket (socket_v4 ip p)) rest {b} e = elim (Bool-cases (ip == 0)) [
  | inl zero_ ↦ let refused = rw zero_ at e in cc refused
  | inr other_ ↦ let same : 1 ∷ ip ∷ p ∷ [] ≡ b = some-inj (rw other_ at e) in rw (← same) refl
]
read_name-write_name (socks_socket (socket_v6 ip p flow scope)) rest {b} e =
    let same : 2 ∷ ip ∷ p ∷ [] ≡ b = some-inj e in rw (← same) refl

abbrev codec : AddressCodec
codec = record {
  read_from = read_name;
  write_to = write_name;
  read_from-write_to = read_name-write_name;
}

abbrev name : Address
name = domain (b'a' ∷ b'b' ∷ []) 53

-- A packet, one that is too short, one with a fragment number, and an address that is not written.
runs :
    (parse_udp codec (0 ∷ 0 ∷ 0 ∷ 0 ∷ 2 ∷ 53 ∷ b'a' ∷ b'b' ∷ 9 ∷ []) ≡ returns (ok name, 9 ∷ []))
    × (parse_udp codec (0 ∷ 0 ∷ []) ≡ returns (err unexpected_eof, 0 ∷ 0 ∷ []))
    × (parse_udp codec (0 ∷ 0 ∷ 1 ∷ 7 ∷ [])
        ≡ returns (err (wrong_header 0 0 1), 0 ∷ 0 ∷ 1 ∷ 7 ∷ []))
    × (pack_udp codec (socket_addr (socket_v4 0 2)) [] ≡ err address_error)
unfolding parse_udp after_header with_address cut_front overwrite sa2ra pack_udp packed ra2sa
runs = (refl, refl, refl, refl)

parse_udp-pack_udp_example :
    parse_udp codec (0 ∷ 0 ∷ 0 ∷ 2 ∷ 7 ∷ 53 ∷ 8 ∷ 9 ∷ [])
    ≡ returns (ok (socket_addr (socket_v6 7 53 0 0)), 8 ∷ 9 ∷ [])
unfolding pack_udp packed ra2sa
parse_udp-pack_udp_example =
    parse_udp-pack_udp codec (socket_addr (socket_v6 7 53 1 4)) (8 ∷ 9 ∷ []) refl
