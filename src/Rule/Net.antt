-- ===== src/Rule/Net.antt =====
-- `Rule` of rd-std/src/rule/rule_net.rs: a target goes to the first rule that matches it.
use rabbit_digger.Address.{Address}
use rabbit_digger.Base.{
  Bytes, ℕ, suc, List, [], ◌∷◌, Option, none, some, true, false, MayPanic, returns, ◌>>=◌, at_index,
}
use rabbit_digger.Context.{Context, ok, err, Error}
use rabbit_digger.Context.Fields.{CommonFields}
use rabbit_digger.Rule.Cache.{LruCache}
use rabbit_digger.Rule.MatchContext.{MatchContext, from_context_address}
use rabbit_digger.Rule.Matcher.{Libraries, Matcher, match_rule}

pub record RuleItem (Cidr Target : Type 0) : Type 0 where
  pub target_name : Bytes
  pub target : Target
  pub matcher : Matcher Cidr

-- The outcomes of `get_rule`: an item, `Error::NotMatched`, or the error of the context.
pub data Routed (A : Type 0) : Type 0 where
  routed : A → Routed A
  not_matched : Routed A
  context_error : Error → Routed A

module _ (lib : Libraries) {Target : Type 0} where
  -- The loop of `get_rule` over the rules that are left, of which the first has index `i`.
  unfoldable pub search_rules :
      ℕ
      → List (RuleItem lib.Cidr Target)
      → MatchContext
      → MayPanic (Option (ℕ × RuleItem lib.Cidr Target))
  search_rules i [] m = returns none
  search_rules i (rule ∷ rest) m =
      let later = search_rules (suc i) rest m in
      match_rule lib rule.matcher m >>= λ matched. elim matched [
        | true ↦ returns (some (i, rule))
        | false ↦ later
      ]

  module _ (lru : LruCache MatchContext ℕ) where
    open lru use {Cache, get, insert}

    -- `get_rule` once the match context is made: the result, and the cache after it.
    unfoldable pub route :
        List (RuleItem lib.Cidr Target)
        → MatchContext
        → Cache
        → MayPanic (Routed (RuleItem lib.Cidr Target) × Cache)
    route rules m cache =
        let (hit, cache') = get m cache in
        elim hit [
          | some i ↦ at_index rules i >>= λ rule. returns (routed rule, cache')
          | none ↦ search_rules 0 rules m >>= λ found. elim found [
            | some (i, rule) ↦ returns (routed rule, insert m i cache')
            | none ↦ returns (not_matched, cache')
          ]
        ]

    unfoldable pub get_rule :
        {V : Type 0}
        → CommonFields V
        → List (RuleItem lib.Cidr Target)
        → Context V
        → Address
        → Cache
        → MayPanic (Routed (RuleItem lib.Cidr Target) × Cache)
    get_rule fields rules ctx addr cache = elim (from_context_address lib.text fields ctx addr) [
      | ok m ↦ route rules m cache
      | err e ↦ returns (context_error e, cache)
    ]
