-- ===== src/RabbitDigger/Names.antt =====
-- What `BuildContext::get_net` of src/rabbit_digger.rs leaves in the place of a reference.
use mathlib.Core.List.{lookup}
use mathlib.Core.Path.{subst}
use rabbit_digger.Base.{
  Bytes, ℕ, zero, suc, List, ◌++◌, Option, none, some, ◌≡◌, refl, sym, ap, ◌∙◌, Option-cases, inl,
  inr,
}
use rabbit_digger.Base.Assoc.{lookup-insert_self}
use rabbit_digger.Context.{Bytes-discrete}
use rabbit_digger.RabbitDigger.{Json, NetConf, Resolver, Built, ok, err, out_of_fuel, join}
use rabbit_digger.RabbitDigger.Build.{
  State, Getter, name_nested, name_of, keep_net, get_entry, get_cached, get_named, get_net,
}

module _ (json : Json) {N : Type 0} (conf_of : json.V → Option (NetConf json.V))
    (registry : List (Bytes × Resolver json.V N)) where
  open json use {V}

  -- After a success, the value is the name, and the net is the one in the cache under it.
  pub InCache : Bytes → Built (N × V) × State json conf_of registry → Type 0
  InCache name q =
      (n : N) (v : V)
      → q.0 ≡ ok (n, v)
      → (v ≡ json.string name) × (lookup Bytes-discrete name q.1.net_cache ≡ some n)

  keep_net-InCache :
      (name : Bytes) (q : Built (N × NetConf V) × State json conf_of registry)
      → InCache name (keep_net json conf_of registry name q)
  unfolding keep_net InCache
  keep_net-InCache name (err e, s) n v h = cc
  keep_net-InCache name (out_of_fuel, s) n v h = cc
  keep_net-InCache name (ok (m, c), s) n v h =
      let same : m ≡ n = cc h in
      let named : json.string name ≡ v = cc h in
      (sym named, lookup-insert_self Bytes-discrete name m s.net_cache ∙ ap some same)

  get_entry-InCache :
      (get : List Bytes → Getter json conf_of registry) (name : Bytes) (o : Option (NetConf V))
      (s : State json conf_of registry)
      → InCache name (get_entry json conf_of registry get name o s)
  unfolding get_entry InCache
  get_entry-InCache get name none s = λ n v h. cc
  get_entry-InCache get name (some c) s = keep_net-InCache name _

  get_cached-InCache :
      (get : List Bytes → Getter json conf_of registry) (name : Bytes) (o : Option N)
      (s : State json conf_of registry)
      → lookup Bytes-discrete name s.net_cache ≡ o
      → InCache name (get_cached json conf_of registry get name o s)
  unfolding get_cached InCache
  get_cached-InCache get name none s e =
      get_entry-InCache get name (lookup Bytes-discrete name s.config) s
  get_cached-InCache get name (some m) s e = λ n v h.
      let same : m ≡ n = cc h in
      let named : json.string name ≡ v = cc h in (sym named, e ∙ ap some same)

  -- The name that a reference goes by: its own, or the generated one.
  abbrev pub goes_by : Option Bytes → List Bytes → List Bytes → Bytes
  goes_by (some name) prefix path = name
  goes_by none prefix path = join (prefix ++ path)

  name_of-goes_by :
      (o : Option Bytes) (prefix path : List Bytes) (v : V) (s : State json conf_of registry)
      {name : Bytes}
      → (name_of json conf_of registry o prefix path v s).0 ≡ ok name
      → goes_by o prefix path ≡ name
  unfolding name_of name_nested
  name_of-goes_by (some own) prefix path v s e = cc e
  name_of-goes_by none prefix path v s e = elim (Option-cases (conf_of v)) [
    | inl z ↦ let no_name = rw (name_nested, z) at e in cc no_name
    | inr (c, z) ↦ let same = rw (name_nested, z) at e in cc same
  ]

  get_named-InCache :
      (get : List Bytes → Getter json conf_of registry) (name : Bytes)
      (q : Built Bytes × State json conf_of registry)
      → ((own : Bytes) → q.0 ≡ ok own → name ≡ own)
      → InCache name (get_named json conf_of registry get q)
  unfolding get_named InCache
  get_named-InCache get name (err e, s) same = λ n v h. cc
  get_named-InCache get name (out_of_fuel, s) same = λ n v h. cc
  get_named-InCache get name (ok own, s) same =
      subst
        (λ x.
          InCache x
            (get_cached json conf_of registry get own (lookup Bytes-discrete own s.net_cache) s))
        (sym (same own refl))
        (get_cached-InCache get own (lookup Bytes-discrete own s.net_cache) s refl)

  -- After a success, the reference is the name of a net in the cache, which is the net that was
  -- returned: its own name if it was one, and else the name made of the prefix and the path.
  pub get_net-InCache :
      (fuel : ℕ) (prefix path : List Bytes) (value : V) (s : State json conf_of registry) (n : N)
      (v : V)
      → (get_net json conf_of registry fuel prefix path value s).0 ≡ ok (n, v)
      → (v ≡ json.string (goes_by (json.as_string value) prefix path))
        × (lookup Bytes-discrete
              (goes_by (json.as_string value) prefix path)
              (get_net json conf_of registry fuel prefix path value s).1.net_cache
            ≡ some n)
  unfolding get_net InCache
  get_net-InCache zero prefix path value s = λ n v h. cc
  get_net-InCache (suc fuel) prefix path value s =
      get_named-InCache (get_net json conf_of registry fuel)
        (goes_by (json.as_string value) prefix path)
        (name_of json conf_of registry (json.as_string value) prefix path value s)
        (λ own e. name_of-goes_by (json.as_string value) prefix path value s e)
