-- ===== src/SingleOrVec.antt =====
-- `SingleOrVec` of rd-interface/src/config/single_or_vec.rs: one item, or a sequence of items.
use rabbit_digger.Base.{List, [], ◌∷◌, ◌++◌, ◌≡◌, refl}

pub data SingleOrVec {ℓ} (A : Type ℓ) : Type ℓ where
  single : A → SingleOrVec A
  sequence : List A → SingleOrVec A

module _ {ℓ} {A : Type ℓ} where
  unfoldable pub into_vec : SingleOrVec A → List A
  into_vec (single t) = t ∷ []
  into_vec (sequence v) = v

  -- The items that `iter` yields.
  unfoldable pub iter_items : SingleOrVec A → List A
  iter_items (single t) = t ∷ []
  iter_items (sequence v) = v

  -- `Extend`: a single item becomes a sequence.
  unfoldable pub extend : SingleOrVec A → List A → SingleOrVec A
  extend (single i) items = sequence (i ∷ items)
  extend (sequence v) items = sequence (v ++ items)

  pub iter_items-extend :
      (x : SingleOrVec A) (items : List A) → iter_items (extend x items) ≡ iter_items x ++ items
  unfolding iter_items extend
  iter_items-extend (single i) items = refl
  iter_items-extend (sequence v) items = refl
