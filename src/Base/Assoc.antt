-- ===== src/Base/Assoc.antt =====
-- Maps as association lists over the library's `lookup`: what `HashMap`, `DashMap` and `BTreeMap`
-- of the source promise about single keys. A key stands at most once.
use Prim.Native.Nat.{ℕ, ◌+◌}
use mathlib.Core.List.{List, [], ◌∷◌, lookup}
use mathlib.Core.Logic.{◌≢◌, ite, if_pos, if_neg}
use mathlib.Core.Option.{Option, none, some}
use mathlib.Core.Path.{◌≡◌, ◌∙◌, refl}
use native.Mathlib.Omega.{arith}

module _ {ℓ} {K V : Type ℓ} (dec : Discrete K) where
  -- `map.insert(k, v)`: an old value is replaced in place.
  unfoldable pub insert : K → V → List (K × V) → List (K × V)
  insert k v [] = (k, v) ∷ []
  insert k v ((j, w) ∷ m) = ite (dec k j) ((k, v) ∷ m) ((j, w) ∷ insert k v m)

  -- `map.remove(&k)`.
  unfoldable pub remove : K → List (K × V) → List (K × V)
  remove k [] = []
  remove k ((j, w) ∷ m) = ite (dec k j) (remove k m) ((j, w) ∷ remove k m)

  pub lookup-cons :
      (q k : K) (v : V) (m : List (K × V))
      → lookup dec q ((k, v) ∷ m) ≡ ite {C = Option V} (dec q k) (some v) (lookup dec q m)
  unfolding lookup
  lookup-cons q k v m = refl

  pub lookup-insert :
      (k q : K) (v : V) (m : List (K × V))
      → lookup dec q (insert k v m) ≡ ite {C = Option V} (dec q k) (some v) (lookup dec q m)
  unfolding lookup insert
  lookup-insert k q v [] = refl
  lookup-insert k q v ((j, w) ∷ m) = ground (arith, lookup-insert k q v m)

  pub lookup-remove :
      (k q : K) (m : List (K × V))
      → lookup dec q (remove k m) ≡ ite {C = Option V} (dec q k) none (lookup dec q m)
  unfolding lookup remove
  lookup-remove k q [] = ground arith
  lookup-remove k q ((j, w) ∷ m) = ground (arith, lookup-remove k q m)

  pub lookup-insert_self : (k : K) (v : V) (m : List (K × V)) → lookup dec k (insert k v m) ≡ some v
  lookup-insert_self k v m = lookup-insert k k v m ∙ if_pos (dec k k) refl (some v) _

  pub lookup-insert_ne :
      (k q : K) (v : V) (m : List (K × V)) → q ≢ k → lookup dec q (insert k v m) ≡ lookup dec q m
  lookup-insert_ne k q v m n = lookup-insert k q v m ∙ if_neg (dec q k) n (some v) _

  pub lookup-remove_self : (k : K) (m : List (K × V)) → lookup dec k (remove k m) ≡ none
  lookup-remove_self k m = lookup-remove k k m ∙ if_pos (dec k k) refl none _

  pub lookup-remove_ne :
      (k q : K) (m : List (K × V)) → q ≢ k → lookup dec q (remove k m) ≡ lookup dec q m
  lookup-remove_ne k q m n = lookup-remove k q m ∙ if_neg (dec q k) n none _

  -- No key stands twice.
  abbrev pub Distinct : List (K × V) → Type ℓ
  Distinct [] = Unit
  Distinct ((j, w) ∷ m) = (lookup dec j m ≡ none) × Distinct m

  pub Distinct-insert : (k : K) (v : V) (m : List (K × V)) → Distinct m → Distinct (insert k v m)
  unfolding insert lookup
  Distinct-insert k v [] d = (refl, tt)
  Distinct-insert k v ((j, w) ∷ m) d = elim (dec k j) [
    | yes p ↦ rw (if_pos _ p) (rw p d.0, d.1)
    | no p ↦ rw (if_neg _ p) (ground (arith, lookup-insert k j v m), Distinct-insert k v m d.1)
  ]

  pub remove_absent : (k : K) (m : List (K × V)) → lookup dec k m ≡ none → remove k m ≡ m
  unfolding lookup remove
  remove_absent k [] h = refl
  remove_absent k ((j, w) ∷ m) h = ground (arith, remove_absent k m)

  -- A new entry that is removed again leaves no trace.
  pub remove-insert_new :
      (k : K) (v : V) (m : List (K × V)) → lookup dec k m ≡ none → remove k (insert k v m) ≡ m
  unfolding lookup remove insert
  remove-insert_new k v [] h = ground arith
  remove-insert_new k v ((j, w) ∷ m) h = ground (arith, remove-insert_new k v m)

  pub Distinct-remove : (k : K) (m : List (K × V)) → Distinct m → Distinct (remove k m)
  unfolding remove lookup
  Distinct-remove k [] d = tt
  Distinct-remove k ((j, w) ∷ m) d = elim (dec k j) [
    | yes p ↦ rw (if_pos _ p) (Distinct-remove k m d.1)
    | no p ↦ rw (if_neg _ p) (ground (arith, lookup-remove k j m), Distinct-remove k m d.1)
  ]

module _ {ℓ} {K V : Type ℓ} (f : V → ℕ) where
  -- The sum of `f` over the values.
  unfoldable pub sum_values : List (K × V) → ℕ
  sum_values [] = 0
  sum_values ((k, v) ∷ m) = f v + sum_values m

module _ {ℓ} {K V : Type ℓ} (dec : Discrete K) (f : V → ℕ) where
  pub sum_values-insert_new :
      (k : K) (v : V) (m : List (K × V))
      → lookup dec k m ≡ none
      → sum_values f (insert dec k v m) ≡ sum_values f m + f v
  unfolding sum_values lookup insert
  sum_values-insert_new k v [] h = ground arith
  sum_values-insert_new k v ((j, w) ∷ m) h = ground (arith, sum_values-insert_new k v m)

  pub sum_values-insert_old :
      (k : K) (v old : V) (m : List (K × V))
      → lookup dec k m ≡ some old
      → sum_values f (insert dec k v m) + f old ≡ sum_values f m + f v
  unfolding sum_values lookup insert
  sum_values-insert_old k v old [] h = ground arith
  sum_values-insert_old k v old ((j, w) ∷ m) h = ground (arith, sum_values-insert_old k v old m)

  pub sum_values-remove :
      (k : K) (old : V) (m : List (K × V))
      → Distinct dec m
      → lookup dec k m ≡ some old
      → sum_values f (remove dec k m) + f old ≡ sum_values f m
  unfolding sum_values lookup remove
  sum_values-remove k old [] d h = ground arith
  sum_values-remove k old ((j, w) ∷ m) d h =
      ground (arith, sum_values-remove k old m, remove_absent dec k m)
