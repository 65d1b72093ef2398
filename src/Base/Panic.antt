-- ===== src/Base/Panic.antt =====
-- Code that may panic: slice indexing out of range, `unwrap` and `expect`.
use Prim.Native.Nat.{ℕ}
use mathlib.Core.Bool.{◌&&◌}
use mathlib.Core.List.{List}
use mathlib.Core.Option.{Option, none, some}
use mathlib.Core.Logic.{◌⊎◌, inl, inr}
use mathlib.Core.Path.{◌≡◌, refl}
use rabbit_digger.Base.Lists.{length, get_elem?, slice}
use rabbit_digger.Base.Tests.{leb, if◌then◌else◌}

pub data MayPanic {ℓ} (A : Type ℓ) : Type ℓ where
  returns : A → MayPanic A
  panics : MayPanic A

module _ {ℓ κ} {A : Type ℓ} {B : Type κ} where
  infixl 5 ◌>>=◌
  abbrev pub ◌>>=◌ : MayPanic A → (A → MayPanic B) → MayPanic B
  returns a >>= f = f a
  panics >>= f = panics

module _ {ℓ} {A : Type ℓ} where
  -- `opt.unwrap()`.
  abbrev pub unwrap : Option A → MayPanic A
  unwrap (some a) = returns a
  unwrap none = panics

  -- `xs[i]`.
  abbrev pub at_index : List A → ℕ → MayPanic A
  at_index xs i = unwrap (get_elem? xs i)

  -- `&xs[lo..hi]`.
  abbrev pub at_range : List A → ℕ → ℕ → MayPanic (List A)
  at_range xs lo hi = if leb lo hi && leb hi (length xs) then returns (slice lo hi xs) else panics

pub MayPanic-cases {ℓ} : {A : Type ℓ} (p : MayPanic A) → (p ≡ panics) ⊎ ((a : A) × (p ≡ returns a))
MayPanic-cases panics = inl refl
MayPanic-cases (returns a) = inr (a, refl)

pub returns-inj {ℓ} : {A : Type ℓ} {a b : A} → returns a ≡ returns b → a ≡ b
returns-inj e = cc
