-- ===== src/Rule/Items.antt =====
-- `RuleItem` of rd-std/src/rule/config.rs and its `merge`, which joins the rules of one target.
use rabbit_digger.Base.{
  Bytes, Bool, true, false, if◌then◌else◌, ◌≡◌, refl, Bool-cases, inl, inr, MayPanic, returns,
  ◌>>=◌,
}
use rabbit_digger.Base.Text.{text_eq, text_eq_iff}
use rabbit_digger.Rule.MatchContext.{MatchContext}
use rabbit_digger.Rule.Matcher.{Libraries, Matcher, match_rule}
use rabbit_digger.Rule.Merge.{merge, WellFormed, SameMethod, either_matches, merge-match_rule}

-- The target by the name that `represent` gives.
pub record ConfigItem (Cidr : Type 0) : Type 0 where
  pub target : Bytes
  pub matcher : Matcher Cidr

unfoldable pub merge_item :
    {Cidr : Type 0} → ConfigItem Cidr → ConfigItem Cidr → MayPanic (ConfigItem Cidr × Bool)
merge_item i o =
    if text_eq i.target o.target
    then (merge i.matcher o.matcher >>= λ (m, taken). returns (record i { matcher = m }, taken))
    else returns (i, false)

module _ (lib : Libraries) where
  -- What an item matches after a merge: what either one did if the other was taken in, which then has
  -- the same target, and else what it did before.
  abbrev pub MergedRightly :
      Bool → ConfigItem lib.Cidr → ConfigItem lib.Cidr → ConfigItem lib.Cidr → MatchContext → Type 0
  MergedRightly true i o i' ctx =
      (i.target ≡ o.target)
      × (match_rule lib i'.matcher ctx
          ≡ either_matches lib (match_rule lib i.matcher ctx) (match_rule lib o.matcher ctx))
  MergedRightly false i o i' ctx = match_rule lib i'.matcher ctx ≡ match_rule lib i.matcher ctx

  taken-MergedRightly :
      (taken : Bool) (i o i' : ConfigItem lib.Cidr) (ctx : MatchContext)
      → i.target ≡ o.target
      → match_rule lib i'.matcher ctx ≡ (
          if taken
          then either_matches lib (match_rule lib i.matcher ctx) (match_rule lib o.matcher ctx)
          else match_rule lib i.matcher ctx)
      → MergedRightly taken i o i' ctx
  taken-MergedRightly true i o i' ctx e h = (e, h)
  taken-MergedRightly false i o i' ctx e h = h

  -- Merging two rules, both well formed and, if both have domain matchers, with the same method, keeps
  -- the target of the first; if the second is taken in, it had the same target, and the rule matches what either
  -- of them did; if not, it matches what it did.
  pub merge_item_lem :
      (i o : ConfigItem lib.Cidr) (ctx : MatchContext)
      → WellFormed i.matcher
      → WellFormed o.matcher
      → SameMethod i.matcher o.matcher
      → (i' : ConfigItem lib.Cidr) × (taken : Bool) × (merge_item i o ≡ returns (i', taken))
        × (i'.target ≡ i.target)
        × MergedRightly taken i o i' ctx
  unfolding merge_item
  merge_item_lem i o ctx wi wo same = elim (Bool-cases (text_eq i.target o.target)) [
    | inr differ ↦ (i, false, rw (merge_item, differ), refl, refl)
    | inl equal ↦
        let (m, taken, e, matches) = merge-match_rule lib i.matcher o.matcher ctx wi wo same in
        let i' : ConfigItem lib.Cidr = record i { matcher = m } in
        (
          i',
          taken,
          rw (merge_item, equal, e),
          refl,
          taken-MergedRightly taken i o i' ctx ((text_eq_iff i.target o.target).0 equal) matches,
        )
  ]
