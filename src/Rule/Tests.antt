-- ===== src/Rule/Tests.antt =====
-- Runs of the rule net, and the theorems about it at concrete rules.
use rabbit_digger.Address.{
  Address, socket_ip, new_socket, IpAddr, v4, v6, domain, IpAddr-discrete, SocketAddr-discrete,
  Address-discrete,
}
use rabbit_digger.Address.Parse.{to_socket_addr, strip_brackets, strip_suffix, normalize}
use rabbit_digger.Base.Text.{starts_with, strip_prefix, ends_with, text_eq, contains}
use rabbit_digger.Address.Tests.{letters}
use rabbit_digger.Base.{
  Bytes, ℕ, List, [], ◌∷◌, Option, none, some, ◌≡◌, ◌↔◌, ◌⊎◌, inl, refl, sym, Bool, true, false,
  ◌||◌, if◌then◌else◌, returns, ℕ_discrete, ◌==◌, some-inj,
}
use rabbit_digger.CompactVecString.{from_iter, iter, next, get, len}
use rabbit_digger.CompactVecString.Represents.{from_iter-Represents}
use mathlib.Core.List.{lookup}
use rabbit_digger.Address.Parse.{to_normalized}
use rabbit_digger.Context.{Bytes-discrete, ok as made, get_common, get_field}
use rabbit_digger.Context.Tests.{Value, of_client, value_fields}
use rabbit_digger.Net.{
  Net, Sockets, NetResult, ok, err, udp_bind, tcp_connect, or_not_implemented,
  not_matched as no_rule,
}
use rabbit_digger.Base.Io.{done}
use rabbit_digger.UdpConnector.{
  binded, new, poll_send_to, send_in, send_binding, bound, send_binded,
}
use rabbit_digger.UdpConnector.Tests.{log}
use rabbit_digger.Rule.Udp.{
  connect_first, bind_by, send_first, after_send, SentByRule, connect_first_lem,
}
use rabbit_digger.Rule.Connect.{rule_tcp_connect, rule_tcp_connect_lem}
use rabbit_digger.Rule.Cache.{LruCache}
use rabbit_digger.Rule.MatchContext.{
  MatchContext, from_context_address, get_domain, domain_or, get_socket_addr, socket_or,
}
use rabbit_digger.Rule.Matcher.{
  suffix, exact, DomainMatcher, Libraries, Country, iso_code, address_not_found, Matcher,
  domain_matcher, ip_cidr, any_matcher, match_rule, test_domain, test_text, any_text, any_of,
  test_cidr,
}
use rabbit_digger.Rule.Meaning.{MatchesPattern, AnyIn, test_domain_iff}
use rabbit_digger.Rule.Items.{ConfigItem, merge_item, MergedRightly, merge_item_lem}
use rabbit_digger.Rule.Merge.{merge, merge-match_rule, merge_own_method, either_matches}
use rabbit_digger.Rule.Net.{RuleItem, search_rules, route, get_rule}
use rabbit_digger.Rule.Routing.{
  IsFirst, NoneMatches, CacheIsRight, RoutedRightly, route-Outcome, with_capacity-CacheIsRight,
}
use rabbit_digger.SingleOrVec.{iter_items, sequence, single}

MatchContext-discrete : Discrete MatchContext
MatchContext-discrete = hlevel (ℕ_discrete, IpAddr-discrete, SocketAddr-discrete, Address-discrete)

-- Blocks of one IPv4 address, and a database that knows one address.
abbrev same_ip : IpAddr → IpAddr → Bool
same_ip (v4 a) (v4 b) = a == b
same_ip (v6 a) (v6 b) = a == b
same_ip _ _ = false

abbrev country_at : IpAddr → Country
country_at ip = if same_ip ip (v4 5) then iso_code (b'C' ∷ []) else address_not_found

abbrev libraries : Libraries
libraries = record {
  Cidr = IpAddr;
  contains_addr = same_ip;
  country_of = country_at;
  text = letters;
}

-- A cache of one entry.
abbrev LastEntry : Type 0
LastEntry = Option (MatchContext × ℕ)

abbrev value_if : {P : Type 0} → Dec P → ℕ → Option ℕ
value_if (yes _) v = some v
value_if (no _) v = none

abbrev peek_last : MatchContext → LastEntry → Option ℕ
peek_last q none = none
peek_last q (some (k, v)) = value_if (MatchContext-discrete q k) v

value_if-some : {P : Type 0} (d : Dec P) (w : ℕ) {v : ℕ} → value_if d w ≡ some v → P × (v ≡ w)
value_if-some (yes p) w h = (p, sym (some-inj h))
value_if-some (no n) w h = cc

abbrev last_entry : LruCache MatchContext ℕ
last_entry = record {
  Cache = LastEntry;
  with_capacity = λ n. none;
  get = λ k c. (peek_last k c, c);
  insert = λ k v c. some (k, v);
  peek = peek_last;
  peek-with_capacity = λ n q. refl;
  get-peek = λ k c h. h;
  peek-get = λ k q c h. h;
  peek-insert = λ k q w c h. inl (value_if-some (MatchContext-discrete q k) w h);
}

abbrev name : Bytes
name = b'a' ∷ b'.' ∷ b'b' ∷ []

abbrev exact_b : DomainMatcher
exact_b = record { method = exact; domains = from_iter ((b'+' ∷ b'.' ∷ b'b' ∷ []) ∷ []) }

abbrev suffix_b : DomainMatcher
suffix_b = record { method = suffix; domains = from_iter ((b'b' ∷ []) ∷ (b'c' ∷ []) ∷ []) }

abbrev to_name : MatchContext
to_name = record {
  address = domain name 80;
  src_ip_addr = none;
  dest_socket_addr = none;
  dest_domain = none;
}

abbrev rules : List (RuleItem IpAddr ℕ)
rules =
    record { target_name = b'x' ∷ []; target = 1; matcher = ip_cidr (single (v4 7)) }
    ∷ record { target_name = b'y' ∷ []; target = 2; matcher = domain_matcher exact_b }
    ∷ record { target_name = b'z' ∷ []; target = 3; matcher = any_matcher }
    ∷ []

program : Unit {0}
unfolding test_text any_text test_domain match_rule search_rules get_domain domain_or
    get_socket_addr socket_or to_socket_addr test_cidr any_of iter_items iter next get len from_iter
    starts_with strip_prefix ends_with text_eq contains normalize strip_brackets strip_suffix
program = tt

runs :
    (test_domain exact_b name ≡ returns true)
    × (test_domain exact_b (b'b' ∷ []) ≡ returns true)
    × (test_domain exact_b (b'a' ∷ b'b' ∷ []) ≡ returns false)
    × (test_domain suffix_b (b'a' ∷ b'b' ∷ []) ≡ returns true)
    × (search_rules libraries 0 rules to_name
        ≡ returns (
            some (
              1,
              record { target_name = b'y' ∷ []; target = 2; matcher = domain_matcher exact_b },
            )))
unfolding program
runs = (refl, refl, refl, refl, refl)

test_domain_iff_example :
    (b : Bool) × (test_domain suffix_b name ≡ returns b)
    × ((b ≡ true) ↔ AnyIn (MatchesPattern name suffix) ((b'b' ∷ []) ∷ (b'c' ∷ []) ∷ []))
test_domain_iff_example =
    test_domain_iff suffix_b name (from_iter-Represents ((b'b' ∷ []) ∷ (b'c' ∷ []) ∷ []))

merge-match_rule_example :
    (m' : Matcher IpAddr) × (taken : Bool) × (merge
        (ip_cidr (single (v4 7)))
        (ip_cidr (single (v4 5)))
      ≡ returns (m', taken))
    × (match_rule libraries m' to_name ≡ (
        if taken
        then either_matches libraries
            (match_rule libraries (ip_cidr (single (v4 7))) to_name)
            (match_rule libraries (ip_cidr (single (v4 5))) to_name)
        else match_rule libraries (ip_cidr (single (v4 7))) to_name))
merge-match_rule_example =
    merge-match_rule libraries (ip_cidr (single (v4 7))) (ip_cidr (single (v4 5))) to_name tt tt tt

merge_own_method_example :
    (m' : DomainMatcher) × (merge {Cidr = IpAddr} (domain_matcher exact_b) (domain_matcher suffix_b)
      ≡ returns (domain_matcher m', true))
    × (test_domain m' name
        ≡ returns (
            any_of (test_text exact name) ((b'+' ∷ b'.' ∷ b'b' ∷ []) ∷ [])
            || any_of (test_text exact name) ((b'b' ∷ []) ∷ (b'c' ∷ []) ∷ [])))
merge_own_method_example =
    merge_own_method {Cidr = IpAddr} exact_b suffix_b name
      (from_iter-Represents ((b'+' ∷ b'.' ∷ b'b' ∷ []) ∷ []))
      (from_iter-Represents ((b'b' ∷ []) ∷ (b'c' ∷ []) ∷ []))

route-Outcome_example : RoutedRightly libraries last_entry rules to_name none
route-Outcome_example =
    route-Outcome libraries last_entry rules to_name none
      (tt, ((_, from_iter-Represents ((b'+' ∷ b'.' ∷ b'b' ∷ []) ∷ [])), (tt, tt)))
      (with_capacity-CacheIsRight libraries last_entry rules 1)

abbrev block_7 : ConfigItem IpAddr
block_7 = record { target = b'x' ∷ []; matcher = ip_cidr (single (v4 7)) }

abbrev block_5 : ConfigItem IpAddr
block_5 = record { target = b'x' ∷ []; matcher = ip_cidr (sequence (v4 5 ∷ [])) }

merge_item_lem_example :
    (i' : ConfigItem IpAddr) × (taken : Bool) × (merge_item block_7 block_5 ≡ returns (i', taken))
    × (i'.target ≡ b'x' ∷ [])
    × MergedRightly libraries taken block_7 block_5 i' to_name
merge_item_lem_example = merge_item_lem libraries block_7 block_5 to_name tt tt tt

-- Streams and sockets that are numbers.
abbrev numbers : Sockets
numbers = record { TcpStream = ℕ; TcpListener = ℕ; UdpSocket = ℕ }

abbrev direct : Net Value numbers
direct = record {
  provide_tcp_connect = some (λ ctx addr. (ok 5, ctx));
  provide_tcp_bind = none;
  provide_udp_bind = some (λ ctx addr. (ok 7, ctx));
  provide_lookup_host = none;
}

abbrev one_rule : List (RuleItem IpAddr (Net Value numbers))
one_rule = record { target_name = b'x' ∷ []; target = direct; matcher = any_matcher } ∷ []

abbrev from_client : MatchContext
from_client = record {
  address = domain name 80;
  src_ip_addr = some (v4 1);
  dest_socket_addr = none;
  dest_domain = none;
}

from_client_lem :
    from_context_address letters value_fields of_client (domain name 80) ≡ made from_client
unfolding program from_context_address to_normalized get_common get_field lookup Bytes-discrete
    ℕ_discrete socket_ip new_socket
from_client_lem = refl

rule_tcp_connect_lem_example :
    (cache' : Option (MatchContext × ℕ)) × CacheIsRight libraries last_entry one_rule cache'
    × (((i : ℕ) × (item : RuleItem IpAddr (Net Value numbers)) × (rule_tcp_connect libraries
              last_entry value_fields one_rule of_client
              (domain name 80)
              none
            ≡ returns (tcp_connect item.target of_client (domain name 80), cache'))
          × IsFirst libraries one_rule from_client i item)
        ⊎ ((rule_tcp_connect libraries last_entry value_fields one_rule of_client
                (domain name 80)
                none
              ≡ returns ((err no_rule, of_client), cache'))
            × NoneMatches libraries one_rule from_client))
rule_tcp_connect_lem_example =
    rule_tcp_connect_lem libraries last_entry value_fields one_rule of_client (domain name 80) none
      (tt, tt) (with_capacity-CacheIsRight libraries last_entry one_rule 1) from_client_lem

-- The socket that was bound, with the packets that were sent, and the connector of the rule net.
abbrev opened : ℕ → List Bytes
opened u = []

abbrev rule_connector : Bytes → Address → NetResult (List Bytes)
rule_connector b t = ok (b ∷ [])

first_send_run :
    connect_first libraries last_entry value_fields log numbers opened one_rule of_client
      (domain [] 0)
      (1 ∷ [])
      (domain name 80)
      none
    ≡ returns (some (ok ((1 ∷ []) ∷ [])), some (from_client, 0))
unfolding program connect_first bind_by send_first after_send get_rule route search_rules match_rule
    udp_bind or_not_implemented from_context_address to_normalized get_common get_field lookup
    Bytes-discrete ℕ_discrete socket_ip new_socket
first_send_run = refl

connect_first_lem_example :
    (result : Option (NetResult (List Bytes))) × (cache' : Option (MatchContext × ℕ))
    × (connect_first libraries last_entry value_fields log numbers opened one_rule of_client
          (domain [] 0)
          (1 ∷ [])
          (domain name 80)
          none
        ≡ returns (result, cache'))
    × SentByRule libraries last_entry value_fields log numbers opened one_rule of_client
        (domain [] 0)
        (1 ∷ [])
        (domain name 80)
        from_client
        result
    × CacheIsRight libraries last_entry one_rule cache'
connect_first_lem_example =
    connect_first_lem libraries last_entry value_fields log numbers opened one_rule of_client
      (domain [] 0) (1 ∷ []) (domain name 80) none (tt, tt)
      (with_capacity-CacheIsRight libraries last_entry one_rule 1) from_client_lem

-- The connector of the rule net, and then the first send, each send the packet.
sent_twice :
    poll_send_to log (1 ∷ []) (domain name 80) (new log rule_connector)
    ≡ returns (done 1, record { permits = 1; state = binded ((1 ∷ []) ∷ (1 ∷ []) ∷ []) })
unfolding poll_send_to new send_in send_binding bound send_binded
sent_twice = refl
