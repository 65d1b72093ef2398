-- ===== src/RabbitDigger/Build.antt =====
-- `BuildContext::get_net` of src/rabbit_digger.rs, on fuel for the depth of its recursion.
use mathlib.Core.List.{lookup}
use rabbit_digger.Base.{Bytes, ℕ, zero, suc, List, [], ◌∷◌, ◌++◌, Option, none, some}
use rabbit_digger.Base.Assoc.{insert}
use rabbit_digger.Context.{Bytes-discrete}
use rabbit_digger.RabbitDigger.{
  Json, NetConf, Resolver, type_not_loaded, net_not_found, config_error, build_failed, Built, ok,
  err, out_of_fuel, BuildContext, circular, join,
}

module _ (json : Json) {N : Type 0} (conf_of : json.V → Option (NetConf json.V))
    (registry : List (Bytes × Resolver json.V N)) where
  open json use {V}

  abbrev pub State : Type 0
  State = BuildContext V N

  abbrev pub placeholder : NetConf V
  placeholder = record { net_type = circular; opt = json.null }

  unfoldable pub put_config : Bytes → NetConf V → State → State
  put_config name c s = record s { config = insert Bytes-discrete name c s.config }

  -- A nested configuration gets an entry under a generated name.
  unfoldable pub name_nested : Option (NetConf V) → Bytes → State → Built Bytes × State
  name_nested none generated s = (err config_error, s)
  name_nested (some c) generated s = (ok generated, put_config generated c s)

  unfoldable pub name_of : Option Bytes → List Bytes → List Bytes → V → State → Built Bytes × State
  name_of (some name) prefix path value s = (ok name, s)
  name_of none prefix path value s = name_nested (conf_of value) (join (prefix ++ path)) s

  -- A getter, which `build` calls for each reference: its path and its value, to the net and the value
  -- that refers to it.
  abbrev pub Getter : Type 0
  Getter = List Bytes → V → State → Built (N × V) × State

  unfoldable pub visit_more :
      N → V → Built (List N × List V) × State → Built (List N × List V) × State
  visit_more n v (err e, s) = (err e, s)
  visit_more n v (out_of_fuel, s) = (out_of_fuel, s)
  visit_more n v (ok (ns, vs), s) = (ok (n ∷ ns, v ∷ vs), s)

  unfoldable pub visit_rest :
      (State → Built (List N × List V) × State)
      → Built (N × V) × State
      → Built (List N × List V) × State
  visit_rest rest (err e, s) = (err e, s)
  visit_rest rest (out_of_fuel, s) = (out_of_fuel, s)
  visit_rest rest (ok (n, v), s) = visit_more n v (rest s)

  -- `resolve_net`: the visitor over the references; an error ends it.
  unfoldable pub visit : Getter → List (List Bytes × V) → State → Built (List N × List V) × State
  visit get [] s = (ok ([], []), s)
  visit get ((path, v) ∷ refs) s = visit_rest (visit get refs) (get path v s)

  -- `build_dyn` once the references are resolved: the configuration is written, then the net is built.
  unfoldable pub build_written :
      Resolver V N → NetConf V → List N → Option V → Built (N × NetConf V)
  build_written r c ns none = err config_error
  build_written r c ns (some opt) = elim (r.build opt ns) [
    | none ↦ err build_failed
    | some n ↦ ok (n, record c { opt = opt })
  ]

  unfoldable pub build_resolved :
      Resolver V N → NetConf V → Built (List N × List V) × State → Built (N × NetConf V) × State
  build_resolved r c (err e, s) = (err e, s)
  build_resolved r c (out_of_fuel, s) = (out_of_fuel, s)
  build_resolved r c (ok (ns, vs), s) = (build_written r c ns (r.write c.opt vs), s)

  unfoldable pub build_parsed :
      Getter
      → Resolver V N
      → NetConf V
      → Option (List (List Bytes × V))
      → State
      → Built (N × NetConf V) × State
  build_parsed get r c none s = (err config_error, s)
  build_parsed get r c (some refs) s = build_resolved r c (visit get refs s)

  -- `Registry::build_net`.
  unfoldable pub build_net :
      Getter → NetConf V → Option (Resolver V N) → State → Built (N × NetConf V) × State
  build_net get c none s = (err (type_not_loaded c.net_type), s)
  build_net get c (some r) s = build_parsed get r c (r.parse c.opt) s

  -- The net is built: its configuration goes back, and the net into the cache.
  unfoldable pub keep_net : Bytes → Built (N × NetConf V) × State → Built (N × V) × State
  keep_net name (err e, s) = (err e, s)
  keep_net name (out_of_fuel, s) = (out_of_fuel, s)
  keep_net name (ok (n, c), s) = (
    ok (n, json.string name),
    record {
      config = insert Bytes-discrete name c s.config;
      net_cache = insert Bytes-discrete name n s.net_cache;
    },
  )

  -- The entry is there or not; while its net is built, a placeholder stands for it.
  unfoldable pub get_entry :
      (List Bytes → Getter) → Bytes → Option (NetConf V) → State → Built (N × V) × State
  get_entry get name none s = (err (net_not_found name), s)
  get_entry get name (some c) s = keep_net name (
      build_net (get ((b'n' ∷ b'e' ∷ b't' ∷ []) ∷ name ∷ [])) c
        (lookup Bytes-discrete c.net_type registry) (put_config name placeholder s))

  unfoldable pub get_cached :
      (List Bytes → Getter) → Bytes → Option N → State → Built (N × V) × State
  get_cached get name (some n) s = (ok (n, json.string name), s)
  get_cached get name none s = get_entry get name (lookup Bytes-discrete name s.config) s

  unfoldable pub get_named : (List Bytes → Getter) → Built Bytes × State → Built (N × V) × State
  get_named get (err e, s) = (err e, s)
  get_named get (out_of_fuel, s) = (out_of_fuel, s)
  get_named get (ok name, s) = get_cached get name (lookup Bytes-discrete name s.net_cache) s

  -- `get_net`, with the prefix of generated names.
  unfoldable pub get_net : ℕ → List Bytes → Getter
  get_net zero prefix path value s = (out_of_fuel, s)
  get_net (suc fuel) prefix path value s =
      get_named (get_net fuel) (name_of (json.as_string value) prefix path value s)
