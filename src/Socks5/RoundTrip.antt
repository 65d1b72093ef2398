-- ===== src/Socks5/RoundTrip.antt =====
-- That a SOCKS5 UDP packet of rd-std/src/socks5/common.rs is read as it was written.
use rabbit_digger.Address.{Address, socket_addr, domain}
use rabbit_digger.Base.{
  Bytes, ℕ, ◌+◌, ◌-◌, ◌∷◌, ◌++◌, false, length, drop, ltb, returns, ◌≡◌, refl, sym, ap, ◌∙◌, arith,
  length-append, drop-append, take-append, Option-cases, inl, inr,
}
use rabbit_digger.ConnectTcp.{overwrite}
use rabbit_digger.Socks5.{
  AddressCodec, plain_socket, on_wire, sa2ra, ra2sa, ok, cut_front, with_address, after_header,
  parse_udp, packed, pack_udp,
}

-- What SOCKS5 keeps of an address.
abbrev pub without_scope : Address → Address
without_scope (socket_addr s) = socket_addr (plain_socket s)
without_scope (domain d p) = domain d p

sa2ra-on_wire : (a : Address) → sa2ra (on_wire (ra2sa a)) ≡ without_scope a
unfolding sa2ra ra2sa
sa2ra-on_wire (socket_addr s) = refl
sa2ra-on_wire (domain d p) = refl

cut_front-append : (n : ℕ) (a b : Bytes) → length a ≡ n → cut_front n (a ++ b) ≡ returns b
unfolding cut_front overwrite
cut_front-append n a b e =
    let size = length-append a b in
    let fits : ltb (length (a ++ b)) n ≡ false = ground arith in
    let rest : drop n (a ++ b) ≡ b = ap (λ k. drop k (a ++ b)) (sym e) ∙ drop-append a b in
    let len : length (a ++ b) - n ≡ length b = omega arith in
    rw (fits, rest, len) (ap returns (take-append b (drop (length b) (a ++ b))))

module _ (codec : AddressCodec) where
  -- If a packet can be packed, then parsing it gives its address, an IPv6 address without its flow
  -- information and scope, and leaves its content in the buffer; parsing does not panic.
  pub parse_udp-pack_udp :
      (addr : Address) (buf : Bytes) {v : Bytes}
      → pack_udp codec addr buf ≡ ok v
      → parse_udp codec v ≡ returns (ok (without_scope addr), buf)
  unfolding pack_udp packed parse_udp after_header with_address
  parse_udp-pack_udp addr buf {v} e = elim (Option-cases (codec.write_to (ra2sa addr))) [
    | inl refused ↦ let no_packet = rw refused at e in cc no_packet
    | inr (b, written) ↦
        let same : ok (0 ∷ 0 ∷ 0 ∷ (b ++ buf)) ≡ ok v = rw written at e in
        let v_is : 0 ∷ 0 ∷ 0 ∷ (b ++ buf) ≡ v = cc same in
        let cut : cut_front (3 + length b) (0 ∷ 0 ∷ 0 ∷ (b ++ buf)) ≡ returns buf =
          cut_front-append (3 + length b) (0 ∷ 0 ∷ 0 ∷ b) buf (omega arith) in
        rw (← v_is) (
          rw
            (
              codec.read_from-write_to (ra2sa addr) buf written,
              with_address,
              cut,
              sa2ra-on_wire addr,
            )
            refl)
  ]
