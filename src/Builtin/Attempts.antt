-- ===== src/Builtin/Attempts.antt =====
-- Which address `ResolveNet` of rd-std/src/builtin/resolve.rs connects to.
use rabbit_digger.Address.{Address, socket_addr, domain, SocketAddr, socket_v4, socket_v6}
use rabbit_digger.Base.Io.{not_found}
use rabbit_digger.Address.Parse.{IpText, resolve, Normalized, normalize, left, right}
use rabbit_digger.Base.{
  Bytes, ℕ, List, [], ◌∷◌, ◌++◌, Option, none, some, Bool, true, ◌≡◌, refl, ap, ◌⊎◌, inl, inr,
  false,
}
use rabbit_digger.Context.{Context}
use rabbit_digger.Net.{
  Net, Sockets, Operation, NetError, io_error, to_io_err, NetResult, ok, err, tcp_connect,
  lookup_host,
}
use rabbit_digger.Builtin.Resolve.{
  is_ipv4, is_ipv6, wanted, keep_wanted, keep_found, last_or_not_found, on_answer, try_each,
  try_all, new, resolve_tcp_connect,
}

module _ {V T : Type 0} (attempt : Operation V T) where
  -- Each of the addresses was tried, in turn, and failed: the context and the last error.
  pub data Failed
      : List SocketAddr → Context V → Option NetError → Context V → Option NetError → Type 0 where
    untried : (ctx : Context V) (last : Option NetError) → Failed [] ctx last ctx last
    failed :
        (a : SocketAddr) (as_ : List SocketAddr) (e : NetError) (ctx ctx' z : Context V)
        (last end : Option NetError)
        → attempt ctx (socket_addr a) ≡ (err e, ctx')
        → Failed as_ ctx' (some e) z end
        → Failed (a ∷ as_) ctx last z end

  -- The result of the first address that does not fail, or else the last error, or "not found" if
  -- there has been none.
  pub data FirstOf (as_ : List SocketAddr) (ctx : Context V) (last : Option NetError)
      : NetResult T × Context V → Type 0 where
    made :
        (before : List SocketAddr) (a : SocketAddr) (after : List SocketAddr) (x : T)
        (ctx' z : Context V) (end : Option NetError)
        → as_ ≡ before ++ a ∷ after
        → Failed before ctx last ctx' end
        → attempt ctx' (socket_addr a) ≡ (ok x, z)
        → FirstOf as_ ctx last (ok x, z)
    all_failed :
        (z : Context V) (e : NetError)
        → Failed as_ ctx last z (some e)
        → FirstOf as_ ctx last (err e, z)
    nothing_tried :
        (z : Context V)
        → Failed as_ ctx last z none
        → FirstOf as_ ctx last (err (io_error not_found), z)

  FirstOf-cons :
      (a : SocketAddr) (as_ : List SocketAddr) (e : NetError) (ctx ctx' : Context V)
      (last : Option NetError) (q : NetResult T × Context V)
      → attempt ctx (socket_addr a) ≡ (err e, ctx')
      → FirstOf as_ ctx' (some e) q
      → FirstOf (a ∷ as_) ctx last q
  FirstOf-cons a as_ e ctx ctx' last _ h (made before b after x c z end s f g) =
      made (a ∷ before) b after x c z end (ap (◌∷◌ a) s) (failed a before e ctx ctx' c last end h f)
        g
  FirstOf-cons a as_ e ctx ctx' last _ h (all_failed z x f) =
      all_failed z x (failed a as_ e ctx ctx' z last (some x) h f)
  FirstOf-cons a as_ e ctx ctx' last _ h (nothing_tried z f) =
      nothing_tried z (failed a as_ e ctx ctx' z last none h f)

  on_answer-FirstOf :
      (a : SocketAddr) (as_ : List SocketAddr) (ctx : Context V) (last : Option NetError)
      (q : NetResult T × Context V)
      → attempt ctx (socket_addr a) ≡ q
      → ((ctx' : Context V) (end : Option NetError)
          → FirstOf as_ ctx' end (try_each attempt as_ ctx' end))
      → FirstOf (a ∷ as_) ctx last (on_answer attempt (try_each attempt as_) q)
  unfolding on_answer
  on_answer-FirstOf a as_ ctx last (ok x, z) h ih =
      made [] a as_ x ctx z last refl (untried ctx last) h
  on_answer-FirstOf a as_ ctx last (err e, ctx') h ih =
      FirstOf-cons a as_ e ctx ctx' last (try_each attempt as_ ctx' (some e)) h (ih ctx' (some e))

  pub try_each-FirstOf :
      (as_ : List SocketAddr) (ctx : Context V) (last : Option NetError)
      → FirstOf as_ ctx last (try_each attempt as_ ctx last)
  unfolding try_each last_or_not_found
  try_each-FirstOf [] ctx none = nothing_tried ctx (untried ctx none)
  try_each-FirstOf [] ctx (some e) = all_failed ctx e (untried ctx (some e))
  try_each-FirstOf (a ∷ as_) ctx last =
      on_answer-FirstOf a as_ ctx last (attempt ctx (socket_addr a)) refl (try_each-FirstOf as_)

-- Of all addresses, those of a wanted family are chosen, in their order.
pub data Chosen (ipv4 ipv6 : Bool) : List SocketAddr → List SocketAddr → Type 0 where
  none_left : Chosen ipv4 ipv6 [] []
  take_v4 :
      (ip port : ℕ) (all as_ : List SocketAddr)
      → ipv4 ≡ true
      → Chosen ipv4 ipv6 all as_
      → Chosen ipv4 ipv6 (socket_v4 ip port ∷ all) (socket_v4 ip port ∷ as_)
  skip_v4 :
      (ip port : ℕ) (all as_ : List SocketAddr)
      → ipv4 ≡ false
      → Chosen ipv4 ipv6 all as_
      → Chosen ipv4 ipv6 (socket_v4 ip port ∷ all) as_
  take_v6 :
      (ip port flow scope : ℕ) (all as_ : List SocketAddr)
      → ipv6 ≡ true
      → Chosen ipv4 ipv6 all as_
      → Chosen ipv4 ipv6 (socket_v6 ip port flow scope ∷ all) (socket_v6 ip port flow scope ∷ as_)
  skip_v6 :
      (ip port flow scope : ℕ) (all as_ : List SocketAddr)
      → ipv6 ≡ false
      → Chosen ipv4 ipv6 all as_
      → Chosen ipv4 ipv6 (socket_v6 ip port flow scope ∷ all) as_

keep_wanted-Chosen :
    (ipv4 ipv6 : Bool) (all : List SocketAddr) → Chosen ipv4 ipv6 all (keep_wanted ipv4 ipv6 all)
unfolding keep_wanted wanted is_ipv4 is_ipv6
keep_wanted-Chosen ipv4 ipv6 [] = none_left
keep_wanted-Chosen true true (socket_v4 ip port ∷ all) =
    take_v4 ip port all (keep_wanted true true all) refl (keep_wanted-Chosen true true all)
keep_wanted-Chosen true false (socket_v4 ip port ∷ all) =
    take_v4 ip port all (keep_wanted true false all) refl (keep_wanted-Chosen true false all)
keep_wanted-Chosen false true (socket_v4 ip port ∷ all) =
    skip_v4 ip port all (keep_wanted false true all) refl (keep_wanted-Chosen false true all)
keep_wanted-Chosen false false (socket_v4 ip port ∷ all) =
    skip_v4 ip port all (keep_wanted false false all) refl (keep_wanted-Chosen false false all)
keep_wanted-Chosen true true (socket_v6 ip port flow scope ∷ all) =
    take_v6 ip port flow scope all (keep_wanted true true all) refl
      (keep_wanted-Chosen true true all)
keep_wanted-Chosen true false (socket_v6 ip port flow scope ∷ all) =
    skip_v6 ip port flow scope all (keep_wanted true false all) refl
      (keep_wanted-Chosen true false all)
keep_wanted-Chosen false true (socket_v6 ip port flow scope ∷ all) =
    take_v6 ip port flow scope all (keep_wanted false true all) refl
      (keep_wanted-Chosen false true all)
keep_wanted-Chosen false false (socket_v6 ip port flow scope ∷ all) =
    skip_v6 ip port flow scope all (keep_wanted false false all) refl
      (keep_wanted-Chosen false false all)

Normalized-cases :
    (n : Normalized) → ((s : SocketAddr) × (n ≡ left s)) ⊎ ((d : Bytes) × (p : ℕ) × (n ≡ right d p))
Normalized-cases (left s) = inl (s, refl)
Normalized-cases (right d p) = inr (d, p, refl)

NetResult-cases :
    {A : Type 0} (r : NetResult A) → ((a : A) × (r ≡ ok a)) ⊎ ((e : NetError) × (r ≡ err e))
NetResult-cases (ok a) = inl (a, refl)
NetResult-cases (err e) = inr (e, refl)

module _ (text : IpText) {V : Type 0} {sockets : Sockets} (net resolve_net : Net V sockets)
    (ipv4 ipv6 : Bool) where
  -- The addresses to be tried for an address: its own, if it has one, or those that the other net
  -- finds for the domain and that are of a wanted family, in their order.
  pub data Candidates (addr : Address) : List SocketAddr → Type 0 where
    own : (s : SocketAddr) → normalize text addr ≡ left s → Candidates addr (s ∷ [])
    looked_up :
        (d : Bytes) (p : ℕ) (all as_ : List SocketAddr)
        → normalize text addr ≡ right d p
        → lookup_host resolve_net (domain d p) ≡ ok all
        → Chosen ipv4 ipv6 all as_
        → Candidates addr as_

  -- The lookup failed.
  pub record NoLookup (addr : Address) (e : NetError) : Type 0 where
    pub d : Bytes
    pub p : ℕ
    pub is_domain : normalize text addr ≡ right d p
    pub refused : lookup_host resolve_net (domain d p) ≡ err e

  candidates :
      (addr : Address)
      → ((as_ : List SocketAddr) × Candidates addr as_
          × (resolve text ok addr (new net resolve_net ipv4 ipv6).resolver ≡ ok as_))
        ⊎ ((e : NetError) × NoLookup addr e
            × (resolve text ok addr (new net resolve_net ipv4 ipv6).resolver
                ≡ err (io_error (to_io_err e))))
  unfolding resolve new keep_found
  candidates addr = elim (Normalized-cases (normalize text addr)) [
    | inl (s, q) ↦ inl (s ∷ [], own s q, rw (resolve, q) refl)
    | inr (d, p, q) ↦ elim (NetResult-cases (lookup_host resolve_net (domain d p))) [
      | inl (all, z) ↦ inl (
        keep_wanted ipv4 ipv6 all,
        looked_up d p all (keep_wanted ipv4 ipv6 all) q z (keep_wanted-Chosen ipv4 ipv6 all),
        rw (resolve, q, z) refl,
      )
      | inr (e, z) ↦
          inr (e, record { d = d; p = p; is_domain = q; refused = z }, rw (resolve, q, z) refl)
    ]
  ]

  -- A connection of the resolving net is the first one that its inner net makes to one of the
  -- candidates for the address, tried in their order, each in the context that the last attempt left;
  -- if none is made, the error is the last one, and "not found" if there is no candidate. If the
  -- lookup fails, no attempt is made, and its error is returned as an I/O error.
  pub resolve_tcp_connect_lem :
      (addr : Address) (ctx : Context V)
      → ((as_ : List SocketAddr) × Candidates addr as_
          × FirstOf
              (tcp_connect net)
              as_
              ctx
              none
              (resolve_tcp_connect text (new net resolve_net ipv4 ipv6) ctx addr))
        ⊎ ((e : NetError) × NoLookup addr e
            × (resolve_tcp_connect text (new net resolve_net ipv4 ipv6) ctx addr
                ≡ (err (io_error (to_io_err e)), ctx)))
  unfolding resolve_tcp_connect try_all new
  resolve_tcp_connect_lem addr ctx = elim (candidates addr) [
    | inl (as_, c, q) ↦
        inl (as_, c, rw (resolve_tcp_connect, q) (try_each-FirstOf (tcp_connect net) as_ ctx none))
    | inr (e, n, q) ↦ inr (e, n, rw (resolve_tcp_connect, q) refl)
  ]
