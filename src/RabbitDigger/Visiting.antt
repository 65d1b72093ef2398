-- ===== src/RabbitDigger/Visiting.antt =====
-- That visiting the references of a configuration, src/rabbit_digger.rs, comes to an end if building
-- each of them does.
use mathlib.Core.List.{lookup}
use rabbit_digger.Base.{
  Bytes, ℕ, suc, ◌+◌, ◌≤◌, ◌<◌, List, [], ◌∷◌, Option, none, some, ◌≡◌, ◌≢◌, refl, arith,
  Option-cases, inl, inr,
}
use rabbit_digger.Base.Assoc.{insert, lookup-insert_self}
use rabbit_digger.Context.{Bytes-discrete}
use rabbit_digger.RabbitDigger.{Json, NetConf, Resolver, Built, ok, err, out_of_fuel, circular}
use rabbit_digger.RabbitDigger.Build.{
  State, Getter, visit_more, visit_rest, visit, build_written, build_resolved, keep_net,
}
use rabbit_digger.RabbitDigger.Weight.{weight_cached, total, total-insert, total-cached}

module _ (json : Json) {N : Type 0} (conf_of : json.V → Option (NetConf json.V))
    (registry : List (Bytes × Resolver json.V N)) where
  open json use {V}

  abbrev pub Ctx : Type 0
  Ctx = State json conf_of registry

  -- What a reference may add to the configuration: nothing if it is a name.
  abbrev pub cost_as : Option Bytes → ℕ → ℕ
  cost_as (some name) k = 0
  cost_as none k = suc k

  abbrev pub costs : (V → ℕ) → List (List Bytes × V) → ℕ
  costs size [] = 0
  costs size ((path, v) ∷ refs) = cost_as (json.as_string v) (size v) + costs size refs

  -- A size of values for which the references that a resolver finds in a value are parts of it, and the
  -- value that a nested configuration is read from has its size at least; and no type of net is
  -- registered under the name of the placeholder.
  pub record Finite (size : V → ℕ) : Type 0 where
    pub parts :
        (t : Bytes) (r : Resolver V N) (v : V) (refs : List (List Bytes × V))
        → lookup Bytes-discrete t registry ≡ some r
        → r.parse v ≡ some refs
        → costs size refs ≤ size v
    pub nested : (v : V) (c : NetConf V) → conf_of v ≡ some c → size c.opt ≤ size v
    pub no_circular : lookup Bytes-discrete circular registry ≡ none

  module _ (size : V → ℕ) (finite : Finite size) where
    -- What is left to build.
    abbrev pub left_over : Ctx → ℕ
    left_over s = total size s.net_cache s.config

    -- A result within the fuel, and at most so much left to build after a success.
    pub record Within {A : Type 0} (bound : ℕ) (q : Built A × Ctx) : Type 0 where
      pub in_fuel : q.0 ≢ out_of_fuel
      pub less : (a : A) → q.0 ≡ ok a → left_over q.1 ≤ bound

    visit_more-Within :
        (n : N) (v : V) (bound : ℕ) (q : Built (List N × List V) × Ctx)
        → Within bound q
        → Within bound (visit_more json conf_of registry n v q)
    unfolding visit_more
    visit_more-Within n v bound (err e, s) w = w
    visit_more-Within n v bound (out_of_fuel, s) w = w
    visit_more-Within n v bound (ok (ns, vs), s) w = record {
      in_fuel = λ h. cc;
      less = λ a h. w.less (ns, vs) refl;
    }

    visit_rest-Within :
        (rest : Ctx → Built (List N × List V) × Ctx) (bound : ℕ) (q : Built (N × V) × Ctx)
        → Within bound q
        → ((s : Ctx) → left_over s ≤ bound → Within (left_over s) (rest s))
        → Within bound (visit_rest json conf_of registry rest q)
    unfolding visit_rest
    visit_rest-Within rest bound (err e, s) w ih = record { in_fuel = λ h. cc; less = λ a h. cc }
    visit_rest-Within rest bound (out_of_fuel, s) w ih = absurd (w.in_fuel refl)
    visit_rest-Within rest bound (ok (n, v), s) w ih =
        let l = w.less (n, v) refl in
        let k = visit_more-Within n v (left_over s) (rest s) (ih s l) in
        record { in_fuel = k.in_fuel; less = λ a h. let m = k.less a h in omega arith }

    pub visit-Within :
        (get : Getter json conf_of registry) (fuel : ℕ)
        → ((path : List Bytes) (v : V) (s : Ctx)
            → left_over s + cost_as (json.as_string v) (size v) < fuel
            → Within (left_over s) (get path v s))
        → (refs : List (List Bytes × V)) (s : Ctx) → left_over s + costs size refs < fuel
        → Within (left_over s) (visit json conf_of registry get refs s)
    unfolding visit
    visit-Within get fuel ih [] s l = record { in_fuel = λ h. cc; less = λ a h. omega arith }
    visit-Within get fuel ih ((path, v) ∷ refs) s l =
        visit_rest-Within (visit json conf_of registry get refs) (left_over s) (get path v s)
          (ih path v s (omega arith)) (λ t h. visit-Within get fuel ih refs t (omega arith))

    build_written-in_fuel :
        (r : Resolver V N) (c : NetConf V) (ns : List N) (o : Option V)
        → build_written json conf_of registry r c ns o ≢ out_of_fuel
    unfolding build_written
    build_written-in_fuel r c ns none h = cc
    build_written-in_fuel r c ns (some opt) h = elim (Option-cases (r.build opt ns)) [
      | inl e ↦ let no_result = rw (build_written, e) at h in cc no_result
      | inr (n, e) ↦ let no_result = rw (build_written, e) at h in cc no_result
    ]

    pub build_resolved-Within :
        (r : Resolver V N) (c : NetConf V) (bound : ℕ) (q : Built (List N × List V) × Ctx)
        → Within bound q
        → Within bound (build_resolved json conf_of registry r c q)
    unfolding build_resolved
    build_resolved-Within r c bound (err e, s) w = record { in_fuel = λ h. cc; less = λ a h. cc }
    build_resolved-Within r c bound (out_of_fuel, s) w = absurd (w.in_fuel refl)
    build_resolved-Within r c bound (ok (ns, vs), s) w = record {
      in_fuel = build_written-in_fuel r c ns (r.write c.opt vs);
      less = λ a h. w.less (ns, vs) refl;
    }

    pub keep_net-Within :
        (name : Bytes) (bound : ℕ) (q : Built (N × NetConf V) × Ctx)
        → Within bound q
        → Within bound (keep_net json conf_of registry name q)
    unfolding keep_net
    keep_net-Within name bound (err e, s) w = record { in_fuel = λ h. cc; less = λ a h. cc }
    keep_net-Within name bound (out_of_fuel, s) w = absurd (w.in_fuel refl)
    keep_net-Within name bound (ok (n, c), s) w =
        let cache' = insert Bytes-discrete name n s.net_cache in
        let l = w.less (n, c) refl in
        let inserted = total-insert size cache' name c s.config in
        let nothing =
          weight_cached size cache' name n c
            (lookup-insert_self Bytes-discrete name n s.net_cache) in
        let cached = total-cached size name n s.net_cache s.config in
        record { in_fuel = λ h. cc; less = λ a h. omega arith }
