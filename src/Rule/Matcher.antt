-- ===== src/Rule/Matcher.antt =====
-- The matchers of rd-std/src/rule/config.rs with their tests in domain.rs, ipcidr.rs, geoip.rs and
-- any.rs. CIDR blocks and the country database come from libraries.
use rabbit_digger.Address.{IpAddr, socket_ip}
use rabbit_digger.Address.Parse.{IpText}
use rabbit_digger.Base.{
  Bytes, ℕ, zero, suc, List, [], ◌∷◌, none, some, Bool, true, false, ◌||◌, if◌then◌else◌, MayPanic,
  returns, ◌>>=◌,
}
use rabbit_digger.Base.Text.{text_eq, strip_prefix, starts_with, ends_with, contains}
use rabbit_digger.CompactVecString.{CompactVecString, Iter, iter, next, len}
use rabbit_digger.Rule.MatchContext.{MatchContext, get_domain, get_socket_addr}
use rabbit_digger.SingleOrVec.{SingleOrVec, iter_items}

-- `DomainMatcherMethod`.
pub data Method : Type 0 where
  keyword suffix exact : Method

pub record DomainMatcher : Type 0 where
  pub method : Method
  pub domains : CompactVecString

-- The libraries smoltcp and maxminddb: blocks of addresses, and what the database says of an
-- address.
pub data Country : Type 0 where
  iso_code : Bytes → Country
  address_not_found : Country
  unknown : Country

pub record Libraries : Type 1 where
  pub Cidr : Type 0
  pub contains_addr : Cidr → IpAddr → Bool
  pub country_of : IpAddr → Country
  pub text : IpText

-- The `Matcher` of the configuration.
pub data Matcher (Cidr : Type 0) : Type 0 where
  domain_matcher : DomainMatcher → Matcher Cidr
  ip_cidr : SingleOrVec Cidr → Matcher Cidr
  src_ip_cidr : SingleOrVec Cidr → Matcher Cidr
  geo_ip : Bytes → Matcher Cidr
  any_matcher : Matcher Cidr

-- `+.` in front of a pattern.
abbrev pub plus_dot : Bytes
plus_dot = b'+' ∷ b'.' ∷ []

-- One pattern against a domain.
unfoldable pub test_text : Method → Bytes → Bytes → Bool
test_text keyword domain d = contains d domain
test_text suffix domain d = ends_with d domain
test_text exact domain d =
    if starts_with plus_dot d
    then (elim (strip_prefix (b'+' ∷ []) d) [ some i ↦ ends_with i domain | none ↦ false ])
      || (elim (strip_prefix plus_dot d) [ some i ↦ text_eq domain i | none ↦ false ])
    else text_eq domain d

-- `iter().any(f)`: stops at the first text that passes. `fuel` bounds the rounds.
unfoldable pub any_text : (Bytes → Bool) → ℕ → Iter → MayPanic Bool
any_text f zero it = returns false
any_text f (suc fuel) it = next it >>= λ p. elim p.0 [
  | none ↦ returns false
  | some s ↦ elim (f s) [ true ↦ returns true | false ↦ any_text f fuel p.1 ]
]

-- `DomainMatcher::test`: an iteration ends after one round more than there are patterns.
unfoldable pub test_domain : DomainMatcher → Bytes → MayPanic Bool
test_domain m domain = any_text (test_text m.method domain) (suc (len m.domains)) (iter m.domains)

unfoldable pub any_of : {A : Type 0} → (A → Bool) → List A → Bool
any_of f [] = false
any_of f (x ∷ xs) = f x || any_of f xs

module _ (lib : Libraries) where
  open lib use {Cidr, contains_addr, country_of, text}

  -- `IpCidrMatcher::test` and `SrcIpCidrMatcher::test`.
  unfoldable pub test_cidr : SingleOrVec Cidr → IpAddr → Bool
  test_cidr blocks address = any_of (λ i. contains_addr i address) (iter_items blocks)

  unfoldable pub test_country : Bytes → Country → Bool
  test_country country (iso_code c) = text_eq c country
  test_country country address_not_found = text_eq country []
  test_country country unknown = false

  -- `match_rule` of each matcher.
  unfoldable pub match_rule : Matcher Cidr → MatchContext → MayPanic Bool
  match_rule (domain_matcher m) ctx = elim (get_domain ctx) [
    | some d ↦ test_domain m d.0
    | none ↦ returns false
  ]
  match_rule (ip_cidr blocks) ctx = elim (get_socket_addr text ctx) [
    | some addr ↦ returns (test_cidr blocks (socket_ip addr))
    | none ↦ returns false
  ]
  match_rule (src_ip_cidr blocks) ctx = elim ctx.src_ip_addr [
    | some addr ↦ returns (test_cidr blocks addr)
    | none ↦ returns false
  ]
  match_rule (geo_ip country) ctx = elim (get_socket_addr text ctx) [
    | some addr ↦ returns (test_country country (country_of (socket_ip addr)))
    | none ↦ returns false
  ]
  match_rule any_matcher ctx = returns true
