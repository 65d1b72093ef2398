-- ===== src/Rule/Merge.antt =====
-- `merge` of rd-std/src/rule/config.rs: two rules with one target become one.
use rabbit_digger.Address.{IpAddr, socket_ip}
use rabbit_digger.Base.{
  Bytes, List, [], ◌∷◌, ◌++◌, ◌≡◌, refl, arith, Bool, true, false, ◌||◌, if◌then◌else◌, MayPanic,
  returns, ◌>>=◌, Option-cases, inl, inr,
}
use rabbit_digger.CompactVecString.{collect_all, extend as extend_texts}
use rabbit_digger.CompactVecString.Reads.{collect_all-Represents}
use rabbit_digger.CompactVecString.Represents.{Represents, extend-Represents}
use rabbit_digger.Rule.MatchContext.{MatchContext, get_domain, get_socket_addr}
use rabbit_digger.Rule.Matcher.{
  DomainMatcher, Libraries, Matcher, domain_matcher, ip_cidr, src_ip_cidr, any_matcher, test_text,
  test_domain, any_of, test_cidr, match_rule,
}
use rabbit_digger.Rule.Meaning.{test_domain-any_of}
use rabbit_digger.SingleOrVec.{SingleOrVec, iter_items, extend, iter_items-extend}

module _ {Cidr : Type 0} where
  -- `Matcher::merge`: the matcher after it, and whether the other one was taken in.
  unfoldable pub merge : Matcher Cidr → Matcher Cidr → MayPanic (Matcher Cidr × Bool)
  merge (domain_matcher m) (domain_matcher o) = collect_all o.domains >>= λ texts.
      returns (domain_matcher (record m { domains = extend_texts m.domains texts }), true)
  merge (ip_cidr m) (ip_cidr o) = returns (ip_cidr (extend m (iter_items o)), true)
  merge (src_ip_cidr m) (src_ip_cidr o) = returns (src_ip_cidr (extend m (iter_items o)), true)
  merge any_matcher any_matcher = returns (any_matcher, true)
  merge m o = returns (m, false)

  -- The patterns of a domain matcher are some list of texts.
  abbrev pub WellFormed : Matcher Cidr → Type 0
  WellFormed (domain_matcher m) = (ds : List Bytes) × Represents m.domains ds
  WellFormed _ = Unit {0}

  -- Domain matchers with the same method; anything else.
  abbrev pub SameMethod : Matcher Cidr → Matcher Cidr → Type 0
  SameMethod (domain_matcher m) (domain_matcher o) = m.method ≡ o.method
  SameMethod _ _ = Unit {0}

any_of-append :
    {A : Type 0} (f : A → Bool) (xs ys : List A)
    → any_of f (xs ++ ys) ≡ (any_of f xs || any_of f ys)
unfolding any_of
any_of-append f [] ys = refl
any_of-append f (x ∷ xs) ys = ground (arith, any_of-append f xs ys)

module _ (lib : Libraries) where
  open lib use {Cidr, contains_addr, text}

  -- What two results of `match_rule` make together.
  abbrev pub either_matches : MayPanic Bool → MayPanic Bool → MayPanic Bool
  either_matches a b = a >>= λ x. b >>= λ y. returns (x || y)

  merge_domain :
      (m o : DomainMatcher) (ctx : MatchContext) {ds es : List Bytes}
      → Represents m.domains ds
      → Represents o.domains es
      → m.method ≡ o.method
      → match_rule lib (domain_matcher (record m { domains = extend_texts m.domains es })) ctx
        ≡ either_matches
            (match_rule lib (domain_matcher m) ctx)
            (match_rule lib (domain_matcher o) ctx)
  unfolding match_rule
  merge_domain m o ctx {ds} {es} r q e = elim (Option-cases (get_domain ctx)) [
    | inl absent ↦ rw (match_rule, absent)
    | inr ((d, p), found) ↦ rw (
      match_rule,
      found,
      test_domain-any_of (record m { domains = extend_texts m.domains es }) d
          (extend-Represents es r),
      test_domain-any_of m d r,
      test_domain-any_of o d q,
      any_of-append,
      e,
    )
  ]

  merge_cidr :
      (m o : SingleOrVec Cidr) (ip : IpAddr)
      → test_cidr lib (extend m (iter_items o)) ip ≡ (test_cidr lib m ip || test_cidr lib o ip)
  unfolding test_cidr
  merge_cidr m o ip = rw (iter_items-extend, any_of-append)

  merge_ip_cidr :
      (m o : SingleOrVec Cidr) (ctx : MatchContext)
      → match_rule lib (ip_cidr (extend m (iter_items o))) ctx
        ≡ either_matches (match_rule lib (ip_cidr m) ctx) (match_rule lib (ip_cidr o) ctx)
  unfolding match_rule
  merge_ip_cidr m o ctx = elim (Option-cases (get_socket_addr text ctx)) [
    | inl absent ↦ rw (match_rule, absent)
    | inr (s, found) ↦ rw (match_rule, found, merge_cidr m o (socket_ip s))
  ]

  merge_src_ip_cidr :
      (m o : SingleOrVec Cidr) (ctx : MatchContext)
      → match_rule lib (src_ip_cidr (extend m (iter_items o))) ctx
        ≡ either_matches (match_rule lib (src_ip_cidr m) ctx) (match_rule lib (src_ip_cidr o) ctx)
  unfolding match_rule
  merge_src_ip_cidr m o ctx = elim (Option-cases ctx.src_ip_addr) [
    | inl absent ↦ rw (match_rule, absent)
    | inr (ip, found) ↦ rw (match_rule, found, merge_cidr m o ip)
  ]

  -- A merge that takes the other matcher in matches what either of the two matched, if domain
  -- matchers agree on their method; one that does not leaves the matcher as it was.
  pub merge-match_rule :
      (m o : Matcher Cidr) (ctx : MatchContext)
      → WellFormed m
      → WellFormed o
      → SameMethod m o
      → (m' : Matcher Cidr) × (taken : Bool) × (merge m o ≡ returns (m', taken))
        × (match_rule lib m' ctx ≡ (
            if taken
            then either_matches (match_rule lib m ctx) (match_rule lib o ctx)
            else match_rule lib m ctx))
  unfolding merge
  merge-match_rule (domain_matcher m) (domain_matcher o) ctx (ds, r) (es, q) e = (
    domain_matcher (record m { domains = extend_texts m.domains es }),
    true,
    rw (collect_all-Represents q),
    merge_domain m o ctx r q e,
  )
  merge-match_rule (ip_cidr m) (ip_cidr o) ctx h k e =
      (ip_cidr (extend m (iter_items o)), true, refl, merge_ip_cidr m o ctx)
  merge-match_rule (src_ip_cidr m) (src_ip_cidr o) ctx h k e =
      (src_ip_cidr (extend m (iter_items o)), true, refl, merge_src_ip_cidr m o ctx)
  merge-match_rule any_matcher any_matcher ctx h k e =
      (any_matcher, true, refl, unfold match_rule in refl)
  merge-match_rule m o ctx h k e = (m, false, refl, refl)

-- Merging looks at no method: the patterns that are taken in are tested by the method of the
-- matcher that takes them, whatever method they came with.
pub merge_own_method :
    {Cidr : Type 0} (m o : DomainMatcher) (s : Bytes) {ds es : List Bytes}
    → Represents m.domains ds
    → Represents o.domains es
    → (m' : DomainMatcher) × (merge {Cidr = Cidr} (domain_matcher m) (domain_matcher o)
        ≡ returns (domain_matcher m', true))
      × (test_domain m' s
          ≡ returns (any_of (test_text m.method s) ds || any_of (test_text m.method s) es))
unfolding merge
merge_own_method m o s {ds} {es} r q =
    let merged = record m { domains = extend_texts m.domains es } in
    (
      merged,
      rw (collect_all-Represents q),
      rw (test_domain-any_of merged s (extend-Represents es r), any_of-append),
    )
