-- ===== src/RabbitDigger/Terminates.antt =====
-- That `BuildContext::get_net` of src/rabbit_digger.rs comes to an end, whatever refers to what.
use mathlib.Core.List.{lookup}
use mathlib.Core.Path.{subst}
use rabbit_digger.Base.{
  Bytes, ℕ, zero, suc, ◌+◌, ◌≤◌, ◌<◌, List, [], ◌∷◌, ◌++◌, Option, none, some, false, ◌≡◌, ◌≢◌,
  refl, sym, ap, ◌∙◌, arith, Option-cases, Bool-cases, inl, inr,
}
use rabbit_digger.Base.Assoc.{lookup-insert_self}
use rabbit_digger.Base.Text.{text_eq, text_eq_iff}
use rabbit_digger.Context.{Bytes-discrete}
use rabbit_digger.RabbitDigger.{
  Json, NetConf, Resolver, Built, ok, err, out_of_fuel, circular, join,
}
use rabbit_digger.RabbitDigger.Build.{
  placeholder, put_config, name_nested, name_of, Getter, visit, build_parsed, build_net, get_entry,
  get_cached, get_named, get_net,
}
use rabbit_digger.RabbitDigger.Weight.{
  weight, weight-size, weight_cached, weight_open, weight_placeholder, total-insert, total-replace,
}
use rabbit_digger.RabbitDigger.Visiting.{
  Ctx, cost_as, Finite, left_over, Within, visit-Within, build_resolved-Within, keep_net-Within,
}

module _ (json : Json) {N : Type 0} (conf_of : json.V → Option (NetConf json.V))
    (registry : List (Bytes × Resolver json.V N)) where
  open json use {V}

  module _ (size : V → ℕ) (finite : Finite json conf_of registry size) where
    -- What the entry of a name adds to what is left to build.
    abbrev entry_weight : Ctx json conf_of registry → Bytes → ℕ
    entry_weight s name = elim (lookup Bytes-discrete name s.config) [
      | none ↦ 0
      | some c ↦ weight size s.net_cache name c
    ]

    -- A result within the fuel, after which the entry of `name` is built, too.
    record Without {A : Type 0} (name : Bytes) (s : Ctx json conf_of registry)
        (q : Built A × Ctx json conf_of registry) : Type 0 where
      bound : ℕ
      within : Within json conf_of registry size finite bound q
      freed : bound + entry_weight s name ≤ left_over json conf_of registry size finite s

    module _ (get : List Bytes → Getter json conf_of registry) (fuel : ℕ)
        (ih : (prefix path : List Bytes) (v : V) (s : Ctx json conf_of registry)
          → left_over json conf_of registry size finite s
              + cost_as json conf_of registry (json.as_string v) (size v)
            < fuel
          → Within json conf_of registry size finite
              (left_over json conf_of registry size finite s)
              (get prefix path v s)) where
      build_parsed-Within :
          (prefix : List Bytes) (r : Resolver V N) (c : NetConf V) (s : Ctx json conf_of registry)
          → lookup Bytes-discrete c.net_type registry ≡ some r
          → left_over json conf_of registry size finite s + size c.opt < fuel
          → Within json conf_of registry size finite
              (left_over json conf_of registry size finite s)
              (build_parsed json conf_of registry (get prefix) r c (r.parse c.opt) s)
      unfolding build_parsed
      build_parsed-Within prefix r c s e l = elim (Option-cases (r.parse c.opt)) [
        | inl z ↦ rw (build_parsed, z) (record { in_fuel = λ h. cc; less = λ a h. cc })
        | inr (refs, z) ↦
            let small = finite.parts c.net_type r c.opt refs e z in
            rw (build_parsed, z)
              (build_resolved-Within json conf_of registry size finite r c
                (left_over json conf_of registry size finite s)
                (visit json conf_of registry (get prefix) refs s)
                (visit-Within json conf_of registry size finite (get prefix) fuel (ih prefix) refs s
                  (omega arith)))
      ]

      build_net-Within :
          (prefix : List Bytes) (c : NetConf V) (s : Ctx json conf_of registry)
          → ((r : Resolver V N)
              → lookup Bytes-discrete c.net_type registry ≡ some r
              → left_over json conf_of registry size finite s + size c.opt < fuel)
          → Within json conf_of registry size finite
              (left_over json conf_of registry size finite s)
              (build_net json conf_of registry
                (get prefix)
                c
                (lookup Bytes-discrete c.net_type registry)
                s)
      unfolding build_net
      build_net-Within prefix c s l =
          elim (Option-cases (lookup Bytes-discrete c.net_type registry)) [
            | inl e ↦ rw (build_net, e) (record { in_fuel = λ h. cc; less = λ a h. cc })
            | inr (r, e) ↦ rw (build_net, e) (build_parsed-Within prefix r c s e (l r e))
          ]

      -- A registered type is not that of the placeholder.
      registered :
          (t : Bytes) (r : Resolver V N)
          → lookup Bytes-discrete t registry ≡ some r
          → text_eq t circular ≡ false
      registered t r e = elim (Bool-cases (text_eq t circular)) [
        | inl same ↦
            let is : t ≡ circular = (text_eq_iff t circular).0 same in
            cc (sym (ap (λ x. lookup Bytes-discrete x registry) is) ∙ e, finite.no_circular)
        | inr differ ↦ differ
      ]

      get_entry-Without :
          (name : Bytes) (s : Ctx json conf_of registry)
          → lookup Bytes-discrete name s.net_cache ≡ none
          → left_over json conf_of registry size finite s < suc fuel
          → Without name s
              (get_entry json conf_of registry get name (lookup Bytes-discrete name s.config) s)
      unfolding get_entry build_net put_config
      get_entry-Without name s open_ l = elim (Option-cases (lookup Bytes-discrete name s.config)) [
        | inl e ↦
            rw (get_entry, e)
              (record {
                bound = left_over json conf_of registry size finite s;
                within = record { in_fuel = λ h. cc; less = λ a h. cc };
                freed = rw (entry_weight, e) (omega arith);
              })
        | inr (c, e) ↦
            let t = put_config json conf_of registry name (placeholder json conf_of registry) s in
            let replaced =
              total-replace size s.net_cache name (placeholder json conf_of registry) c s.config
                e in
            let nothing =
              weight_placeholder size s.net_cache name (placeholder json conf_of registry)
                ((text_eq_iff circular circular).1 refl) in
            rw (get_entry, e)
              (record {
                bound = left_over json conf_of registry size finite t;
                within =
                    keep_net-Within json conf_of registry size finite name
                      (left_over json conf_of registry size finite t)
                      (build_net json conf_of registry (get ((b'n' ∷ b'e' ∷ b't' ∷ []) ∷ name ∷ []))
                        c (lookup Bytes-discrete c.net_type registry) t)
                      (build_net-Within ((b'n' ∷ b'e' ∷ b't' ∷ []) ∷ name ∷ []) c t (λ r z.
                        let counts =
                          weight_open size s.net_cache name c open_ (registered c.net_type r z) in
                        omega arith));
                freed = rw (entry_weight, e) (omega arith);
              })
      ]

      get_cached-Without :
          (name : Bytes) (s : Ctx json conf_of registry)
          → left_over json conf_of registry size finite s < suc fuel
          → Without name s
              (get_cached json conf_of registry get name (lookup Bytes-discrete name s.net_cache) s)
      unfolding get_cached
      get_cached-Without name s l = elim (Option-cases (lookup Bytes-discrete name s.net_cache)) [
        | inl e ↦ rw (get_cached, e) (get_entry-Without name s e l)
        | inr (n, e) ↦
            rw (get_cached, e)
              (record {
                bound = left_over json conf_of registry size finite s;
                within = record { in_fuel = λ h. cc; less = λ a h. omega arith };
                freed = elim (Option-cases (lookup Bytes-discrete name s.config)) [
                  | inl z ↦ rw (entry_weight, z) (omega arith)
                  | inr (c, z) ↦
                      let nothing = weight_cached size s.net_cache name n c e in
                      rw (entry_weight, z) (omega arith)
                ];
              })
      ]

      -- What naming a reference does: at most its cost is added, and that to the entry of the name.
      record Named (cost : ℕ) (s : Ctx json conf_of registry)
          (q : Built Bytes × Ctx json conf_of registry) : Type 0 where
        in_fuel : q.0 ≢ out_of_fuel
        costs_most :
            left_over json conf_of registry size finite q.1
            ≤ left_over json conf_of registry size finite s + cost
        in_entry :
            (name : Bytes)
            → q.0 ≡ ok name
            → left_over json conf_of registry size finite q.1
              ≤ left_over json conf_of registry size finite s + entry_weight q.1 name

      name_nested-Named :
          (v : V) (o : Option (NetConf V)) (generated : Bytes) (s : Ctx json conf_of registry)
          → conf_of v ≡ o
          → Named (suc (size v)) s (name_nested json conf_of registry o generated s)
      unfolding name_nested put_config
      name_nested-Named v none generated s e = record {
        in_fuel = λ h. cc;
        costs_most = omega arith;
        in_entry = λ name h. cc;
      }
      name_nested-Named v (some c) generated s e =
          let inserted = total-insert size s.net_cache generated c s.config in
          let most = weight-size size s.net_cache generated c in
          let nested = finite.nested v c e in
          record {
            in_fuel = λ h. cc;
            costs_most = omega arith;
            in_entry = λ name h.
                let t = put_config json conf_of registry generated c s in
                let here : left_over json conf_of registry size finite t
                    ≤ left_over json conf_of registry size finite s + entry_weight t generated =
                  rw (entry_weight, lookup-insert_self Bytes-discrete generated c s.config)
                    inserted in
                let same : generated ≡ name = cc h in
                subst
                  (λ x.
                    left_over json conf_of registry size finite t
                    ≤ left_over json conf_of registry size finite s + entry_weight t x)
                  same here;
          }

      name_of-Named :
          (o : Option Bytes) (prefix path : List Bytes) (v : V) (s : Ctx json conf_of registry)
          → Named
              (cost_as json conf_of registry o (size v))
              s
              (name_of json conf_of registry o prefix path v s)
      unfolding name_of
      name_of-Named (some name) prefix path v s = record {
        in_fuel = λ h. cc;
        costs_most = omega arith;
        in_entry = λ n h. omega arith;
      }
      name_of-Named none prefix path v s =
          name_nested-Named v (conf_of v) (join (prefix ++ path)) s refl

      get_named-Within :
          (cost : ℕ) (s : Ctx json conf_of registry) (q : Built Bytes × Ctx json conf_of registry)
          → Named cost s q
          → left_over json conf_of registry size finite s + cost < suc fuel
          → Within json conf_of registry size finite
              (left_over json conf_of registry size finite s)
              (get_named json conf_of registry get q)
      unfolding get_named
      get_named-Within cost s (err e, t) n l = record { in_fuel = λ h. cc; less = λ a h. cc }
      get_named-Within cost s (out_of_fuel, t) n l = absurd (n.in_fuel refl)
      get_named-Within cost s (ok name, t) n l =
          let most = n.costs_most in
          let entry = n.in_entry name refl in
          let w = get_cached-Without name t (omega arith) in
          let freed = w.freed in
          record {
            in_fuel = w.within.in_fuel;
            less = λ a h. let less = w.within.less a h in omega arith;
          }

    get_net-Within :
        (fuel : ℕ) (prefix path : List Bytes) (v : V) (s : Ctx json conf_of registry)
        → left_over json conf_of registry size finite s
            + cost_as json conf_of registry (json.as_string v) (size v)
          < fuel
        → Within json conf_of registry size finite
            (left_over json conf_of registry size finite s)
            (get_net json conf_of registry fuel prefix path v s)
    unfolding get_net
    get_net-Within zero prefix path v s l = absurd (omega arith)
    get_net-Within (suc fuel) prefix path v s l =
        get_named-Within (get_net json conf_of registry fuel) fuel (get_net-Within fuel)
          (cost_as json conf_of registry (json.as_string v) (size v)) s
          (name_of json conf_of registry (json.as_string v) prefix path v s)
          (name_of-Named (get_net json conf_of registry fuel) fuel (get_net-Within fuel)
            (json.as_string v) prefix path v s)
          l

    -- If values have a size of which the references in them take their parts, and no type of net
    -- is registered under the placeholder's name, building the net of a reference comes to an end,
    -- whatever the nets of the configuration refer to, themselves included: with fuel for more
    -- nested calls than the size of the entries that are not built yet and of what the reference
    -- itself nests, it gives a net or an error. After a success no more is left to build than
    -- before.
    pub get_net-ends :
        (fuel : ℕ) (prefix path : List Bytes) (v : V) (s : Ctx json conf_of registry)
        → left_over json conf_of registry size finite s
            + cost_as json conf_of registry (json.as_string v) (size v)
          < fuel
        → ((get_net json conf_of registry fuel prefix path v s).0 ≢ out_of_fuel)
          × ((a : N × V)
              → (get_net json conf_of registry fuel prefix path v s).0 ≡ ok a
              → left_over json conf_of registry size finite
                  (get_net json conf_of registry fuel prefix path v s).1
                ≤ left_over json conf_of registry size finite s)
    get_net-ends fuel prefix path v s l =
        let w = get_net-Within fuel prefix path v s l in (w.in_fuel, w.less)
