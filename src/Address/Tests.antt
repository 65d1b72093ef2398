-- ===== src/Address/Tests.antt =====
-- Runs of the address functions, and the theorems about them at concrete addresses.
use rabbit_digger.Base.{
  Bytes, ℕ, [], ◌∷◌, ◌++◌, Option, none, some, ◌≡◌, ◌≢◌, ◌⊎◌, refl, if◌then◌else◌, ◌==◌, arith,
}
use rabbit_digger.Address.{
  IpAddr, v4, v6, SocketAddr, socket_v4, socket_v6, new_socket, Address, socket_addr, domain,
  any_addr_port, port,
}
use rabbit_digger.Address.Decimal.{
  print_digits, print_u16, print_u32, push_digit, parse_digits, parse_u16,
}
use rabbit_digger.Address.Parse.{
  ok, no_addr, IpText, rsplit, strip_suffix, strip_brackets, host_to_address, into_address,
  print_socket, print_address, normalize, to_normalized, to_socket_addr, resolve, to_any_addr_port,
}
use rabbit_digger.Address.RoundTrip.{
  into_address-print_address, into_address_normal, resolve-to_normalized,
}

program : Unit {0}
unfolding new_socket print_digits print_u16 print_u32 push_digit parse_digits parse_u16 rsplit
    strip_suffix strip_brackets host_to_address into_address print_socket print_address normalize
    to_normalized to_socket_addr any_addr_port to_any_addr_port
program = tt

-- A text form with one letter for the family and one for the address.
abbrev parse_letters : Bytes → Option IpAddr
parse_letters (f ∷ ip ∷ []) =
    if f == b'4' then some (v4 ip) else if f == b'6' then some (v6 ip) else none
parse_letters _ = none

abbrev print_letters : IpAddr → Bytes
print_letters (v4 ip) = b'4' ∷ ip ∷ []
print_letters (v6 ip) = b'6' ∷ ip ∷ []

pub parse-print_letters : (ip : IpAddr) → parse_letters (print_letters ip) ≡ some ip
parse-print_letters (v4 ip) = refl
parse-print_letters (v6 ip) = refl

pub print_letters-unbracketed : (ip : IpAddr) (rest : Bytes) → print_letters ip ≢ b'[' ∷ rest
print_letters-unbracketed (v4 ip) rest = λ e. ground arith
print_letters-unbracketed (v6 ip) rest = λ e. ground arith

abbrev pub letters : IpText
letters = record {
  parse_ip = parse_letters;
  print_ip = print_letters;
  parse-print_ip = parse-print_letters;
  print_ip-unbracketed = print_letters-unbracketed;
}

abbrev localhost : Address
localhost = socket_addr (socket_v6 9 8080 0 0)

abbrev named : Bytes
named = b'a' ∷ b'.' ∷ b'b' ∷ []

runs :
    (into_address letters (named ++ b':' ∷ b'8' ∷ b'0' ∷ []) ≡ ok (domain named 80))
    × (into_address letters named ≡ no_addr)
    × (into_address letters (named ++ b':' ∷ print_u16 65535) ≡ ok (domain named 65535))
    × (into_address letters (b'4' ∷ 7 ∷ b':' ∷ b'+' ∷ b'1' ∷ []) ≡ ok (socket_addr (socket_v4 7 1)))
    × (parse_u16 (b'6' ∷ b'5' ∷ b'5' ∷ b'3' ∷ b'6' ∷ []) ≡ none)
    × (to_any_addr_port letters localhost ≡ ok (socket_addr (socket_v6 0 0 0 0)))
    × (to_normalized letters (domain (b'[' ∷ b'6' ∷ 9 ∷ b']' ∷ []) 1)
        ≡ socket_addr (socket_v6 9 1 0 0))
unfolding program
runs = (refl, refl, refl, refl, refl, refl, refl)

into_address-print_address_example :
    into_address letters (print_address letters localhost) ≡ ok (to_normalized letters localhost)
into_address-print_address_example =
    into_address-print_address letters localhost (unfold port in omega arith) (refl, refl)

into_address_normal_example : to_normalized letters (domain named 80) ≡ domain named 80
unfolding program
into_address_normal_example = into_address_normal letters (named ++ b':' ∷ b'8' ∷ b'0' ∷ []) refl

resolve-to_normalized_example :
    ((s : SocketAddr) × (to_normalized letters localhost ≡ socket_addr s)
      × (to_socket_addr letters localhost ≡ ok s)
      × (resolve letters ok localhost (λ d p. no_addr) ≡ ok (s ∷ [])))
    ⊎ ((d : Bytes) × (p : ℕ) × (localhost ≡ domain d p)
        × (to_normalized letters localhost ≡ localhost)
        × (to_socket_addr letters localhost ≡ no_addr)
        × (resolve letters ok localhost (λ d p. no_addr) ≡ no_addr))
resolve-to_normalized_example = resolve-to_normalized letters localhost (λ d p. no_addr)
