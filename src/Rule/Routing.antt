-- ===== src/Rule/Routing.antt =====
-- `get_rule` finds the first rule that matches, with a cache of any contents that it filled itself.
use rabbit_digger.Address.{socket_ip}
use rabbit_digger.Base.{
  ℕ, zero, suc, ◌+◌, ◌<◌, List, [], ◌∷◌, Option, none, some, ◌≡◌, inl, inr, refl, arith, Bool, true,
  false, returns, get_elem?, Option-cases, zero-add, some-inj,
}
use rabbit_digger.Rule.Cache.{LruCache}
use rabbit_digger.Rule.MatchContext.{MatchContext, get_domain, get_socket_addr}
use rabbit_digger.Rule.Matcher.{
  Libraries, Matcher, domain_matcher, ip_cidr, src_ip_cidr, geo_ip, any_matcher, match_rule, any_of,
  test_text, test_cidr, test_country,
}
use rabbit_digger.Rule.Meaning.{test_domain-any_of}
use rabbit_digger.Rule.Merge.{WellFormed}
use rabbit_digger.Rule.Net.{RuleItem, Routed, routed, not_matched, search_rules, route}

module _ (lib : Libraries) where
  -- A matcher whose patterns were stored by the buffer's operations gives an answer.
  pub match_rule-returns :
      (m : Matcher lib.Cidr) (ctx : MatchContext)
      → WellFormed m
      → (b : Bool) × (match_rule lib m ctx ≡ returns b)
  unfolding match_rule
  match_rule-returns (domain_matcher m) ctx (ds, r) = elim (Option-cases (get_domain ctx)) [
    | inl absent ↦ (false, rw (match_rule, absent))
    | inr ((d, p), found) ↦
        (any_of (test_text m.method d) ds, rw (match_rule, found) (test_domain-any_of m d r))
  ]
  match_rule-returns (ip_cidr b) ctx h = elim (Option-cases (get_socket_addr lib.text ctx)) [
    | inl absent ↦ (false, rw (match_rule, absent))
    | inr (s, found) ↦ (test_cidr lib b (socket_ip s), rw (match_rule, found))
  ]
  match_rule-returns (src_ip_cidr b) ctx h = elim (Option-cases ctx.src_ip_addr) [
    | inl absent ↦ (false, rw (match_rule, absent))
    | inr (s, found) ↦ (test_cidr lib b s, rw (match_rule, found))
  ]
  match_rule-returns (geo_ip c) ctx h = elim (Option-cases (get_socket_addr lib.text ctx)) [
    | inl absent ↦ (false, rw (match_rule, absent))
    | inr (s, found) ↦ (test_country lib c (lib.country_of (socket_ip s)), rw (match_rule, found))
  ]
  match_rule-returns any_matcher ctx h = (true, refl)

  module _ {Target : Type 0} where
    -- Every rule has a well-formed matcher.
    abbrev pub AllWellFormed : List (RuleItem lib.Cidr Target) → Type 0
    AllWellFormed [] = Unit {0}
    AllWellFormed (r ∷ rs) = WellFormed r.matcher × AllWellFormed rs

    -- No rule of the list matches.
    abbrev pub NoneMatches : List (RuleItem lib.Cidr Target) → MatchContext → Type 0
    NoneMatches rules m =
        (j : ℕ) (r : RuleItem lib.Cidr Target)
        → get_elem? rules j ≡ some r
        → match_rule lib r.matcher m ≡ returns false

    -- The rule at `i` matches, and none before it does.
    pub record IsFirst (rules : List (RuleItem lib.Cidr Target)) (m : MatchContext) (i : ℕ)
        (item : RuleItem lib.Cidr Target) : Type 0 where
      pub here : get_elem? rules i ≡ some item
      pub matches : match_rule lib item.matcher m ≡ returns true
      pub before :
          (j : ℕ) (r : RuleItem lib.Cidr Target)
          → j < i
          → get_elem? rules j ≡ some r
          → match_rule lib r.matcher m ≡ returns false

    -- What a search from index `i` may find in the rules that are left.
    data Found (i : ℕ) (rest : List (RuleItem lib.Cidr Target)) (m : MatchContext)
        : Option (ℕ × RuleItem lib.Cidr Target) → Type 0 where
      nothing : NoneMatches rest m → Found i rest m none
      first_at :
          (k n : ℕ) (item : RuleItem lib.Cidr Target)
          → k ≡ i + n
          → IsFirst rest m n item
          → Found i rest m (some (k, item))

    NoneMatches-cons :
        (r : RuleItem lib.Cidr Target) (rest : List (RuleItem lib.Cidr Target)) (m : MatchContext)
        → match_rule lib r.matcher m ≡ returns false
        → NoneMatches rest m
        → NoneMatches (r ∷ rest) m
    NoneMatches-cons r rest m fails h zero q e = rw (← some-inj e) fails
    NoneMatches-cons r rest m fails h (suc j) q e = h j q e

    IsFirst-before :
        (r : RuleItem lib.Cidr Target) {rest : List (RuleItem lib.Cidr Target)} {m : MatchContext}
        {n : ℕ} {item : RuleItem lib.Cidr Target}
        → match_rule lib r.matcher m ≡ returns false
        → IsFirst rest m n item
        → (j : ℕ) (q : RuleItem lib.Cidr Target) → j < suc n
        → get_elem? (r ∷ rest) j ≡ some q
        → match_rule lib q.matcher m ≡ returns false
    IsFirst-before r fails f zero q lt e = rw (← some-inj e) fails
    IsFirst-before r fails f (suc j) q lt e = f.before j q (omega arith) e

    IsFirst-cons :
        (r : RuleItem lib.Cidr Target) {rest : List (RuleItem lib.Cidr Target)} {m : MatchContext}
        {n : ℕ} {item : RuleItem lib.Cidr Target}
        → match_rule lib r.matcher m ≡ returns false
        → IsFirst rest m n item
        → IsFirst (r ∷ rest) m (suc n) item
    IsFirst-cons r {m = m} fails f = record {
      here = f.here;
      matches = f.matches;
      before = λ j q lt e. IsFirst-before r fails f j q lt e;
    }

    Found-cons :
        (i : ℕ) (r : RuleItem lib.Cidr Target) {rest : List (RuleItem lib.Cidr Target)}
        {m : MatchContext} {found : Option (ℕ × RuleItem lib.Cidr Target)}
        → match_rule lib r.matcher m ≡ returns false
        → Found (suc i) rest m found
        → Found i (r ∷ rest) m found
    Found-cons i r {rest = rest} {m = m} fails (nothing h) =
        nothing (NoneMatches-cons r rest m fails h)
    Found-cons i r fails (first_at k n item e f) =
        first_at k (suc n) item (omega arith) (IsFirst-cons r fails f)

    -- What a search yields, and what that means.
    abbrev SearchYields : ℕ → List (RuleItem lib.Cidr Target) → MatchContext → Type 0
    SearchYields i rest m =
        (found : Option (ℕ × RuleItem lib.Cidr Target)) × (search_rules lib i rest m
          ≡ returns found)
        × Found i rest m found

    search_rules-cons :
        (i : ℕ) (r : RuleItem lib.Cidr Target) (rest : List (RuleItem lib.Cidr Target))
        (m : MatchContext) (b : Bool)
        → match_rule lib r.matcher m ≡ returns b
        → SearchYields (suc i) rest m
        → SearchYields i (r ∷ rest) m
    unfolding search_rules
    search_rules-cons i r rest m true e later = (
      some (i, r),
      rw e,
      first_at i 0 r (omega arith)
          (record { here = refl; matches = e; before = λ j q lt g. absurd (omega arith) }),
    )
    search_rules-cons i r rest m false e (found, later, shape) =
        (found, rw (e, later), Found-cons i r e shape)

    search_rules-Found :
        (i : ℕ) (rest : List (RuleItem lib.Cidr Target)) (m : MatchContext)
        → AllWellFormed rest
        → SearchYields i rest m
    unfolding search_rules
    search_rules-Found i [] m w = (none, refl, nothing (λ j r e. cc))
    search_rules-Found i (r ∷ rest) m w =
        let (b, e) = match_rule-returns r.matcher m w.0 in
        search_rules-cons i r rest m b e (search_rules-Found (suc i) rest m w.1)

    -- What `get_rule` returns: the first rule that matches, or `NotMatched` if none does.
    pub data Outcome (rules : List (RuleItem lib.Cidr Target)) (m : MatchContext)
        : Routed (RuleItem lib.Cidr Target) → Type 0 where
      first :
          (i : ℕ) (item : RuleItem lib.Cidr Target)
          → IsFirst rules m i item
          → Outcome rules m (routed item)
      no_rule : NoneMatches rules m → Outcome rules m not_matched

    module _ (lru : LruCache MatchContext ℕ) where
      open lru use {
        Cache, with_capacity, get, insert, peek, peek-with_capacity, get-peek, peek-get,
        peek-insert,
      }

      -- Whatever the cache holds is the index of the first rule that matches.
      abbrev pub CacheIsRight : List (RuleItem lib.Cidr Target) → Cache → Type 0
      CacheIsRight rules cache =
          (m : MatchContext) (i : ℕ)
          → peek m cache ≡ some i
          → (item : RuleItem lib.Cidr Target) × IsFirst rules m i item

      pub with_capacity-CacheIsRight :
          (rules : List (RuleItem lib.Cidr Target)) (n : ℕ) → CacheIsRight rules (with_capacity n)
      with_capacity-CacheIsRight rules n m i e = cc (peek-with_capacity n m)

      insert-CacheIsRight :
          (rules : List (RuleItem lib.Cidr Target)) (m : MatchContext) (i : ℕ)
          (item : RuleItem lib.Cidr Target) (cache : Cache)
          → IsFirst rules m i item
          → CacheIsRight rules cache
          → CacheIsRight rules (insert m i cache)
      insert-CacheIsRight rules m i item cache f right q j e = elim (peek-insert m q i cache e) [
        | inl (qm, ji) ↦ rw (qm, ji) (item, f)
        | inr old ↦ right q j old
      ]

      get-CacheIsRight :
          (rules : List (RuleItem lib.Cidr Target)) (m : MatchContext) (cache : Cache)
          → CacheIsRight rules cache
          → CacheIsRight rules (get m cache).1
      get-CacheIsRight rules m cache right q i e = right q i (peek-get m q cache e)

      abbrev pub RoutedRightly : List (RuleItem lib.Cidr Target) → MatchContext → Cache → Type 0
      RoutedRightly rules m cache =
          (result : Routed (RuleItem lib.Cidr Target)) × (cache' : Cache) × (route lib lru rules m
              cache
            ≡ returns (result, cache'))
          × Outcome rules m result
          × CacheIsRight rules cache'

      route_miss :
          (rules : List (RuleItem lib.Cidr Target)) (m : MatchContext) (cache : Cache)
          {found : Option (ℕ × RuleItem lib.Cidr Target)}
          → (get m cache).0 ≡ none
          → search_rules lib 0 rules m ≡ returns found
          → Found 0 rules m found
          → CacheIsRight rules (get m cache).1
          → RoutedRightly rules m cache
      unfolding route
      route_miss rules m cache miss e (nothing h) kept =
          (not_matched, (get m cache).1, rw (route, miss, e), no_rule h, kept)
      route_miss rules m cache miss e (first_at k n item kn f) kept =
          let f' : IsFirst rules m k item = rw (kn, zero-add) f in
          (
            routed item,
            insert m k (get m cache).1,
            rw (route, miss, e),
            first k item f',
            insert-CacheIsRight rules m k item (get m cache).1 f' kept,
          )

      -- With a cache that holds right indices, as a new one does, routing does not panic, returns the
      -- first rule that matches, or `NotMatched` if none does, and leaves such a cache.
      pub route-Outcome :
          (rules : List (RuleItem lib.Cidr Target)) (m : MatchContext) (cache : Cache)
          → AllWellFormed rules
          → CacheIsRight rules cache
          → RoutedRightly rules m cache
      unfolding route
      route-Outcome rules m cache w right =
          let kept = get-CacheIsRight rules m cache right in
          elim (Option-cases (get m cache).0) [
            | inl miss ↦
                let (found, e, shape) = search_rules-Found 0 rules m w in
                route_miss rules m cache miss e shape kept
            | inr (i, hit) ↦
                let (item, f) = right m i (get-peek m cache hit) in
                (routed item, (get m cache).1, rw (route, hit, f.here), first i item f, kept)
          ]
