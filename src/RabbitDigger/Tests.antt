-- ===== src/RabbitDigger/Tests.antt =====
-- Runs of the building of nets, and the theorems about it, with two types of nets: one that stands
-- alone, and one over another net.
use mathlib.Core.List.{lookup}
use rabbit_digger.Base.{
  Bytes, ℕ, suc, ◌≤◌, List, [], ◌∷◌, Option, none, some, ◌≡◌, ◌≢◌, refl, ap, ◌∙◌, arith, some-inj,
  ℕ_discrete, ite,
}
use rabbit_digger.Base.Assoc.{insert}
use rabbit_digger.Base.Text.{text_eq}
use rabbit_digger.RabbitDigger.Weight.{total, weigh}
use rabbit_digger.Context.{Bytes-discrete}
use rabbit_digger.RabbitDigger.{
  Json, NetConf, Resolver, type_not_loaded, ok, err, out_of_fuel, BuildContext, circular, join,
  join_rest,
}
use rabbit_digger.RabbitDigger.Build.{
  put_config, name_nested, name_of, visit_more, visit_rest, visit, build_written, build_resolved,
  build_parsed, build_net, keep_net, get_entry, get_cached, get_named, get_net,
}
use rabbit_digger.RabbitDigger.Names.{get_net-InCache}
use rabbit_digger.RabbitDigger.Terminates.{get_net-ends}
use rabbit_digger.RabbitDigger.Visiting.{Finite, costs, left_over}

data Value : Type 0 where
  nothing leaf : Value
  text : Bytes → Value
  over : Value → Value

abbrev as_text : Value → Option Bytes
as_text (text b) = some b
as_text _ = none

abbrev json : Json
json = record { V = Value; null = nothing; string = text; as_string = as_text }

abbrev alone_type : Bytes
alone_type = b'd' ∷ []

abbrev over_type : Bytes
over_type = b'a' ∷ []

abbrev conf_of : Value → Option (NetConf Value)
conf_of leaf = some (record { net_type = alone_type; opt = leaf })
conf_of (over v) = some (record { net_type = over_type; opt = over v })
conf_of _ = none

abbrev parse_alone : Value → Option (List (List Bytes × Value))
parse_alone leaf = some []
parse_alone _ = none

abbrev parse_over : Value → Option (List (List Bytes × Value))
parse_over (over v) = some (((b'n' ∷ []) ∷ [], v) ∷ [])
parse_over _ = none

abbrev write_over : Value → List Value → Option Value
write_over v (w ∷ []) = some (over w)
write_over _ _ = none

-- A net is how many nets are below it.
abbrev build_over : Value → List ℕ → Option ℕ
build_over v (n ∷ []) = some (suc n)
build_over _ _ = none

abbrev alone : Resolver Value ℕ
alone = record { parse = parse_alone; write = λ v vs. some v; build = λ v ns. some 0 }

abbrev over_another : Resolver Value ℕ
over_another = record { parse = parse_over; write = write_over; build = build_over }

abbrev registry : List (Bytes × Resolver Value ℕ)
registry = (alone_type, alone) ∷ (over_type, over_another) ∷ []

abbrev size : Value → ℕ
size (over v) = suc (size v)
size _ = 0

parts_alone :
    (v : Value) (refs : List (List Bytes × Value))
    → parse_alone v ≡ some refs
    → costs json conf_of registry size refs ≤ size v
parts_alone leaf refs e = rw (← some-inj e) (omega arith)
parts_alone nothing refs e = cc
parts_alone (text b) refs e = cc
parts_alone (over v) refs e = cc

cost_most :
    (v : Value) → costs json conf_of registry size (((b'n' ∷ []) ∷ [], v) ∷ []) ≤ suc (size v)
cost_most nothing = omega arith
cost_most leaf = omega arith
cost_most (text b) = omega arith
cost_most (over v) = omega arith

parts_over :
    (v : Value) (refs : List (List Bytes × Value))
    → parse_over v ≡ some refs
    → costs json conf_of registry size refs ≤ size v
parts_over leaf refs e = cc
parts_over nothing refs e = cc
parts_over (text b) refs e = cc
parts_over (over v) refs e = rw (← some-inj e) (cost_most v)

parts :
    (t : Bytes) (r : Resolver Value ℕ) (v : Value) (refs : List (List Bytes × Value))
    → lookup Bytes-discrete t registry ≡ some r
    → r.parse v ≡ some refs
    → costs json conf_of registry size refs ≤ size v
unfolding lookup
parts t r v refs =
    elim (Bytes-discrete t alone_type)
      as (λ x.
        ite {C = Option (Resolver Value ℕ)} x (some alone) (
            ite {C = Option (Resolver Value ℕ)} (Bytes-discrete t over_type) (some over_another)
              none)
          ≡ some r
        → r.parse v ≡ some refs
        → costs json conf_of registry size refs ≤ size v) [
          | yes a ↦ λ e h. parts_alone v refs (ap (λ x. x.parse v) (some-inj e) ∙ h)
          | no a ↦
              elim (Bytes-discrete t over_type)
                as (λ x.
                  ite {C = Option (Resolver Value ℕ)} x (some over_another) none ≡ some r
                  → r.parse v ≡ some refs
                  → costs json conf_of registry size refs ≤ size v) [
                    | yes b ↦ λ e h. parts_over v refs (ap (λ x. x.parse v) (some-inj e) ∙ h)
                    | no b ↦ λ e h. cc e
                  ]
        ]

nested : (v : Value) (c : NetConf Value) → conf_of v ≡ some c → size c.opt ≤ size v
nested nothing c e = cc
nested leaf c e = rw (← some-inj e) (omega arith)
nested (text b) c e = cc
nested (over v) c e = rw (← some-inj e) (omega arith)

finite : Finite json conf_of registry size
unfolding lookup Bytes-discrete ℕ_discrete
finite = record { parts = parts; nested = nested; no_circular = refl }

-- A net over itself, and an empty cache.
abbrev loop : BuildContext Value ℕ
loop = record {
  config = (over_type, record { net_type = over_type; opt = over (text over_type) }) ∷ [];
  net_cache = [];
}

abbrev no_nets : BuildContext Value ℕ
no_nets = record { config = []; net_cache = [] }

abbrev at_n : List Bytes
at_n = (b'n' ∷ []) ∷ []

-- A nested net gets the name "s/n", and one nested in it "net/s/n/n"; a circle is an error.
runs :
    ((get_net json conf_of registry 3 ((b's' ∷ []) ∷ []) at_n (over leaf) no_nets).0
      ≡ ok (1, text (b's' ∷ b'/' ∷ b'n' ∷ [])))
    × ((get_net json conf_of registry 3 [] at_n (text over_type) loop).0
        ≡ err (type_not_loaded circular))
unfolding lookup insert put_config name_nested name_of visit_more visit_rest visit build_written
    build_resolved build_parsed build_net keep_net get_entry get_cached get_named get_net join
    join_rest Bytes-discrete ℕ_discrete
runs = (refl, refl)

nested_net :
    (get_net json conf_of registry 3 ((b's' ∷ []) ∷ []) at_n (over leaf) no_nets).0
    ≡ ok (1, text (b's' ∷ b'/' ∷ b'n' ∷ []))
nested_net = runs.0

get_net-ends_example :
    ((get_net json conf_of registry 9 [] at_n (text over_type) loop).0 ≢ out_of_fuel)
    × ((a : ℕ × Value)
        → (get_net json conf_of registry 9 [] at_n (text over_type) loop).0 ≡ ok a
        → left_over json conf_of registry size finite
            (get_net json conf_of registry 9 [] at_n (text over_type) loop).1
          ≤ left_over json conf_of registry size finite loop)
unfolding total weigh lookup Bytes-discrete ℕ_discrete text_eq
get_net-ends_example =
    get_net-ends json conf_of registry size finite 9 [] at_n (text over_type) loop (omega arith)

get_net-InCache_example :
    (text (b's' ∷ b'/' ∷ b'n' ∷ []) ≡ text (join ((b's' ∷ []) ∷ at_n)))
    × (lookup Bytes-discrete
          (join ((b's' ∷ []) ∷ at_n))
          (get_net json conf_of registry 3 ((b's' ∷ []) ∷ []) at_n (over leaf) no_nets).1.net_cache
        ≡ some 1)
get_net-InCache_example =
    get_net-InCache json conf_of registry 3 ((b's' ∷ []) ∷ []) at_n (over leaf) no_nets 1
      (text (b's' ∷ b'/' ∷ b'n' ∷ [])) nested_net
