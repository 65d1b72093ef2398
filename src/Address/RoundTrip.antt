-- ===== src/Address/RoundTrip.antt =====
-- Addresses read back from their text, and the laws of normalisation.
use rabbit_digger.Base.{
  ap, ◌⊎◌, Bytes, ℕ, ◌<◌, List, [], ◌∷◌, ◌++◌, none, some, ◌≡◌, ◌≢◌, refl, arith, append_assoc, ◌∙◌,
  Option-cases, inl, inr,
}
use rabbit_digger.Address.{
  IpAddr, v4, v6, SocketAddr, socket_v4, socket_v6, new_socket, Address, socket_addr, domain, port,
}
use rabbit_digger.Address.Decimal.{
  print_u16, parse_u16, u16_mod, AllDigits, print_u16-AllDigits, parse-print_u16,
}
use rabbit_digger.Address.Parse.{
  AddrResult, ok, no_addr, IpText, rsplit, strip_suffix, strip_brackets, host_to_address,
  into_address, print_socket, print_address, normalize, to_normalized, to_socket_addr, resolve,
}

rsplit-AllDigits : (cs : Bytes) → AllDigits cs → rsplit b':' cs ≡ none
unfolding rsplit
rsplit-AllDigits [] h = refl
rsplit-AllDigits (c ∷ cs) h = rw (rsplit-AllDigits cs h.1) (ground arith)

rsplit-append :
    (front back : Bytes)
    → rsplit b':' back ≡ none
    → rsplit b':' (front ++ b':' ∷ back) ≡ some (front, back)
unfolding rsplit
rsplit-append [] back h = rw h
rsplit-append (x ∷ front) back h = rw (rsplit-append front back h)

strip_suffix-append : (front : Bytes) (c : ℕ) → strip_suffix c (front ++ c ∷ []) ≡ some front
unfolding strip_suffix
strip_suffix-append [] c = ground arith
strip_suffix-append (x ∷ []) c = ground (arith)
strip_suffix-append (x ∷ y ∷ front) c = rw (strip_suffix-append (y ∷ front) c)

strip_brackets-bracketed : (s : Bytes) → strip_brackets (b'[' ∷ (s ++ b']' ∷ [])) ≡ s
unfolding strip_brackets
strip_brackets-bracketed s = rw (strip_suffix-append s b']')

strip_brackets-unbracketed : (s : Bytes) → ((rest : Bytes) → s ≢ b'[' ∷ rest) → strip_brackets s ≡ s
unfolding strip_brackets
strip_brackets-unbracketed [] h = refl
strip_brackets-unbracketed (c ∷ cs) h = ground (arith, h cs)

new_socket_v4 : (ip p : ℕ) → new_socket (v4 ip) p ≡ socket_v4 ip p
unfolding new_socket
new_socket_v4 ip p = refl

new_socket_v6 : (ip p : ℕ) → new_socket (v6 ip) p ≡ socket_v6 ip p 0 0
unfolding new_socket
new_socket_v6 ip p = refl

-- An address that `SocketAddr::new` or a domain gives: no flow information and no scope.
abbrev pub IsPlain : Address → Type 0
IsPlain (socket_addr (socket_v4 ip port)) = Unit {0}
IsPlain (socket_addr (socket_v6 ip port flow scope)) = (flow ≡ 0) × (scope ≡ 0)
IsPlain (domain d p) = Unit {0}

module _ (text : IpText) where
  open text use {parse_ip, print_ip, parse-print_ip, print_ip-unbracketed}

  host_to_address-print_ip :
      (ip : IpAddr) (p : ℕ) → host_to_address text (print_ip ip) p ≡ socket_addr (new_socket ip p)
  unfolding host_to_address
  host_to_address-print_ip ip p = rw (
    host_to_address,
    strip_brackets-unbracketed (print_ip ip) (print_ip-unbracketed ip),
    parse-print_ip ip,
  )

  host_to_address-bracketed :
      (ip : IpAddr) (p : ℕ)
      → host_to_address text (b'[' ∷ (print_ip ip ++ b']' ∷ [])) p ≡ socket_addr (new_socket ip p)
  unfolding host_to_address
  host_to_address-bracketed ip p =
      rw (host_to_address, strip_brackets-bracketed (print_ip ip), parse-print_ip ip)

  into_address-append :
      (host : Bytes) (p : ℕ)
      → p < u16_mod
      → into_address text (host ++ b':' ∷ print_u16 p) ≡ ok (host_to_address text host p)
  unfolding into_address
  into_address-append host p h = rw (
    into_address,
    rsplit-append host (print_u16 p) (rsplit-AllDigits _ (print_u16-AllDigits p)),
    parse-print_u16 p h,
  )

  print_socket_plain :
      (ip p flow scope : ℕ)
      → scope ≡ 0
      → print_socket text (socket_v6 ip p flow scope)
        ≡ (b'[' ∷ (print_ip (v6 ip) ++ b']' ∷ [])) ++ b':' ∷ print_u16 p
  unfolding print_socket
  print_socket_plain ip p flow scope e = rw (e, append_assoc)

  print_socket_v4 :
      (ip p : ℕ) → print_socket text (socket_v4 ip p) ≡ print_ip (v4 ip) ++ b':' ∷ print_u16 p
  unfolding print_socket
  print_socket_v4 ip p = refl

  -- A host and a port make the address that the domain of that name normalises to.
  host_to_address-to_normalized :
      (d : Bytes) (p : ℕ) → ok (host_to_address text d p) ≡ ok (to_normalized text (domain d p))
  unfolding host_to_address to_normalized normalize
  host_to_address-to_normalized d p = ground arith

  -- What an address with a port below 2 ^ 16 prints is read back as its normal form, an IPv6 socket
  -- address only if it has no flow information and no scope: a socket address as itself, a domain as
  -- itself unless it is the text of an IP address, bracketed or not.
  pub into_address-print_address :
      (a : Address)
      → port a < u16_mod
      → IsPlain a
      → into_address text (print_address text a) ≡ ok (to_normalized text a)
  unfolding print_address port to_normalized normalize
  into_address-print_address (socket_addr (socket_v4 ip p)) h k = rw print_socket_v4 (
      into_address-append (print_ip (v4 ip)) p h
      ∙ ap ok (host_to_address-print_ip (v4 ip) p)
      ∙ rw new_socket_v4)
  into_address-print_address (socket_addr (socket_v6 ip p flow scope)) h k =
      rw (print_socket_plain ip p flow scope k.1) (
        into_address-append (b'[' ∷ (print_ip (v6 ip) ++ b']' ∷ [])) p h
        ∙ ap ok (host_to_address-bracketed (v6 ip) p)
        ∙ rw (new_socket_v6, k.0, k.1))
  into_address-print_address (domain d p) h k =
      into_address-append d p h ∙ host_to_address-to_normalized d p

  -- Parsing yields a normal form, and normalising keeps it.
  to_normalized_idem :
      (a : Address) → to_normalized text (to_normalized text a) ≡ to_normalized text a
  unfolding to_normalized normalize
  to_normalized_idem (socket_addr s) = refl
  to_normalized_idem (domain d p) = ground arith

  host_to_address_normal :
      (host : Bytes) (p : ℕ)
      → to_normalized text (host_to_address text host p) ≡ host_to_address text host p
  unfolding to_normalized normalize host_to_address
  host_to_address_normal host p = ground arith

  -- Every address that is parsed from a text is in normal form already.
  pub into_address_normal :
      (s : Bytes) {a : Address} → into_address text s ≡ ok a → to_normalized text a ≡ a
  unfolding into_address
  into_address_normal s {a} e = elim (Option-cases (rsplit b':' s)) [
    | inl bare ↦ absurd (ground arith)
    | inr ((h, last), split) ↦ elim (Option-cases (parse_u16 last)) [
      | inl bad ↦ absurd (ground arith)
      | inr (n, good) ↦ ground (arith, host_to_address_normal h n)
    ]
  ]

  -- An address has a socket address exactly when its normal form is one, and resolving it then
  -- asks nobody; otherwise the lookup is made for the domain and port that are written in it.
  pub resolve-to_normalized :
      (a : Address) (f : Bytes → ℕ → AddrResult (List SocketAddr))
      → ((s : SocketAddr) × (to_normalized text a ≡ socket_addr s)
          × (to_socket_addr text a ≡ ok s)
          × (resolve text ok a f ≡ ok (s ∷ [])))
        ⊎ ((d : Bytes) × (p : ℕ) × (a ≡ domain d p)
            × (to_normalized text a ≡ a)
            × (to_socket_addr text a ≡ no_addr)
            × (resolve text ok a f ≡ f d p))
  unfolding to_normalized normalize to_socket_addr resolve
  resolve-to_normalized (socket_addr s) f = inl (s, refl, refl, refl)
  resolve-to_normalized (domain d p) f = elim (Option-cases (parse_ip (strip_brackets d))) [
    | inl none_found ↦ inr (
      d,
      p,
      refl,
      rw (to_normalized, normalize, none_found),
      rw (to_socket_addr, normalize, none_found),
      rw (resolve, normalize, none_found),
    )
    | inr (ip, found) ↦ inl (
      new_socket ip p,
      rw (to_normalized, normalize, found),
      rw (to_socket_addr, normalize, found),
      rw (resolve, normalize, found),
    )
  ]
