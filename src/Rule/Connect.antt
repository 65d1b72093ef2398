-- ===== src/Rule/Connect.antt =====
-- `RuleNet::tcp_connect` of rd-std/src/rule/rule_net.rs: a connection is made in the net of the rule
-- that the target goes to.
use rabbit_digger.Address.{Address}
use rabbit_digger.Base.{ℕ, List, MayPanic, returns, ◌>>=◌, ◌≡◌, ◌⊎◌, inl, inr}
use rabbit_digger.Context.{Context, ok as made}
use rabbit_digger.Context.Fields.{CommonFields}
use rabbit_digger.Net.{
  Net, Sockets, NetResult, err, not_matched as no_rule, context_error, tcp_connect,
}
use rabbit_digger.Rule.Cache.{LruCache}
use rabbit_digger.Rule.MatchContext.{MatchContext, from_context_address}
use rabbit_digger.Rule.Matcher.{Libraries}
use rabbit_digger.Rule.Net.{
  RuleItem, Routed, routed, not_matched, context_error as bad_context, get_rule,
}
use rabbit_digger.Rule.Routing.{
  AllWellFormed, CacheIsRight, Outcome, first, no_rule as none_matches, IsFirst, NoneMatches,
  route-Outcome,
}

module _ (lib : Libraries) {V : Type 0} {sockets : Sockets} where
  -- The end of `tcp_connect`: the target net connects, or the error of `get_rule` is returned.
  unfoldable pub connect_by :
      Routed (RuleItem lib.Cidr (Net V sockets))
      → Context V
      → Address
      → NetResult sockets.TcpStream × Context V
  connect_by (routed item) ctx addr = tcp_connect item.target ctx addr
  connect_by not_matched ctx addr = (err no_rule, ctx)
  connect_by (bad_context e) ctx addr = (err (context_error e), ctx)

  module _ (lru : LruCache MatchContext ℕ) (fields : CommonFields V) where
    unfoldable pub rule_tcp_connect :
        List (RuleItem lib.Cidr (Net V sockets))
        → Context V
        → Address
        → lru.Cache
        → MayPanic ((NetResult sockets.TcpStream × Context V) × lru.Cache)
    rule_tcp_connect rules ctx addr cache =
        get_rule lib lru fields rules ctx addr cache >>= λ (found, cache').
        returns (connect_by found ctx addr, cache')

    -- The net of the rule that goes first connects, or there is no rule that matches.
    connect_by-Outcome :
        (rules : List (RuleItem lib.Cidr (Net V sockets))) (ctx : Context V) (addr : Address)
        (cache cache' : lru.Cache) {m : MatchContext}
        (found : Routed (RuleItem lib.Cidr (Net V sockets)))
        → rule_tcp_connect rules ctx addr cache ≡ returns (connect_by found ctx addr, cache')
        → Outcome lib rules m found
        → ((i : ℕ) × (item : RuleItem lib.Cidr (Net V sockets)) × (rule_tcp_connect rules ctx addr
                cache
              ≡ returns (tcp_connect item.target ctx addr, cache'))
            × IsFirst lib rules m i item)
          ⊎ ((rule_tcp_connect rules ctx addr cache ≡ returns ((err no_rule, ctx), cache'))
              × NoneMatches lib rules m)
    unfolding connect_by
    connect_by-Outcome rules ctx addr cache cache' _ e (first i item f) = inl (i, item, e, f)
    connect_by-Outcome rules ctx addr cache cache' _ e (none_matches h) = inr (e, h)

    -- If the rules are well formed, the context gives a match context and the cache holds right
    -- indices, the rule net connects, in the context as it was, through the net of the first rule that matches, or fails with
    -- `NotMatched`, in the same context, if none does; its cache is right again.
    pub rule_tcp_connect_lem :
        (rules : List (RuleItem lib.Cidr (Net V sockets))) (ctx : Context V) (addr : Address)
        (cache : lru.Cache) {m : MatchContext}
        → AllWellFormed lib rules
        → CacheIsRight lib lru rules cache
        → from_context_address lib.text fields ctx addr ≡ made m
        → (cache' : lru.Cache) × CacheIsRight lib lru rules cache'
          × (((i : ℕ) × (item : RuleItem lib.Cidr (Net V sockets)) × (rule_tcp_connect rules ctx
                    addr cache
                  ≡ returns (tcp_connect item.target ctx addr, cache'))
                × IsFirst lib rules m i item)
              ⊎ ((rule_tcp_connect rules ctx addr cache ≡ returns ((err no_rule, ctx), cache'))
                  × NoneMatches lib rules m))
    unfolding rule_tcp_connect get_rule
    rule_tcp_connect_lem rules ctx addr cache {m} w right e =
        let (found, cache', run, outcome, kept) = route-Outcome lib lru rules m cache w right in
        (
          cache',
          kept,
          connect_by-Outcome rules ctx addr cache cache' found (rw (get_rule, e, run)) outcome,
        )
