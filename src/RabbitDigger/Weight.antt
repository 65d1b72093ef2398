-- ===== src/RabbitDigger/Weight.antt =====
-- How much of a configuration `BuildContext` of src/rabbit_digger.rs has still to build.
use mathlib.Core.List.{lookup}
use rabbit_digger.Base.{
  Bytes, ℕ, suc, ◌+◌, ◌≤◌, List, [], ◌∷◌, Option, none, some, Bool, true, false, ◌≡◌, refl, sym, ap,
  ◌∙◌, some-inj, arith, ite, Option-cases, inl, inr,
}
use rabbit_digger.Base.Assoc.{insert, lookup-insert_self, lookup-insert_ne}
use rabbit_digger.Base.Text.{text_eq}
use rabbit_digger.Context.{Bytes-discrete}
use rabbit_digger.RabbitDigger.{NetConf, circular}

module _ {V N : Type 0} (size : V → ℕ) where
  -- An entry counts if its net is not built yet and not being built.
  unfoldable pub weigh : Option N → Bool → ℕ → ℕ
  weigh (some n) b k = 0
  weigh none true k = 0
  weigh none false k = suc k

  weigh_most : (o : Option N) (b : Bool) (k : ℕ) → weigh o b k ≤ suc k
  unfolding weigh
  weigh_most (some n) b k = omega arith
  weigh_most none true k = omega arith
  weigh_most none false k = omega arith

  abbrev pub weight : List (Bytes × N) → Bytes → NetConf V → ℕ
  weight cache name c =
      weigh (lookup Bytes-discrete name cache) (text_eq c.net_type circular) (size c.opt)

  unfoldable pub total : List (Bytes × N) → List (Bytes × NetConf V) → ℕ
  total cache [] = 0
  total cache ((k, c) ∷ m) = weight cache k c + total cache m

  pub total-insert :
      (cache : List (Bytes × N)) (k : Bytes) (c : NetConf V) (m : List (Bytes × NetConf V))
      → total cache (insert Bytes-discrete k c m) ≤ total cache m + weight cache k c
  unfolding total insert
  total-insert cache k c [] = omega arith
  total-insert cache k c ((j, d) ∷ m) =
      elim (Bytes-discrete k j)
        as (λ x.
          total cache (ite x ((k, c) ∷ m) ((j, d) ∷ insert Bytes-discrete k c m))
          ≤ weight cache j d + total cache m + weight cache k c) [
            | yes same ↦ omega arith
            | no differ ↦ omega (arith, total-insert cache k c m)
          ]

  pub total-replace :
      (cache : List (Bytes × N)) (k : Bytes) (c old : NetConf V) (m : List (Bytes × NetConf V))
      → lookup Bytes-discrete k m ≡ some old
      → total cache (insert Bytes-discrete k c m) + weight cache k old
        ≡ total cache m + weight cache k c
  unfolding total insert lookup
  total-replace cache k c old [] e = cc
  total-replace cache k c old ((j, d) ∷ m) e =
      (elim (Bytes-discrete k j)
          as (λ x.
            ite {C = Option (NetConf V)} x (some d) (lookup Bytes-discrete k m) ≡ some old
            → total cache (ite x ((k, c) ∷ m) ((j, d) ∷ insert Bytes-discrete k c m))
                + weight cache k old
              ≡ weight cache j d + total cache m + weight cache k c) [
                | yes same ↦ λ h.
                    let found : d ≡ old = some-inj h in
                    let w : weight cache j d ≡ weight cache k old =
                      ap (λ x. weight cache x d) (sym same) ∙ ap (weight cache k) found in
                    omega arith
                | no differ ↦ λ h. omega (arith, total-replace cache k c old m h)
              ])
        e

  weigh-cached :
      (name k : Bytes) (n : N) (cache : List (Bytes × N)) (c : NetConf V)
      → weight (insert Bytes-discrete name n cache) k c ≤ weight cache k c
  unfolding weigh
  weigh-cached name k n cache c = elim (Bytes-discrete k name) [
    | yes same ↦ rw (same, lookup-insert_self Bytes-discrete name n cache) (omega arith)
    | no differ ↦ rw (lookup-insert_ne Bytes-discrete name k n cache differ) (omega arith)
  ]

  pub total-cached :
      (name : Bytes) (n : N) (cache : List (Bytes × N)) (m : List (Bytes × NetConf V))
      → total (insert Bytes-discrete name n cache) m ≤ total cache m
  unfolding total
  total-cached name n cache [] = omega arith
  total-cached name n cache ((k, c) ∷ m) =
      omega (arith, weigh-cached name k n cache c, total-cached name n cache m)

  pub weight-size :
      (cache : List (Bytes × N)) (k : Bytes) (c : NetConf V) → weight cache k c ≤ suc (size c.opt)
  weight-size cache k c =
      weigh_most (lookup Bytes-discrete k cache) (text_eq c.net_type circular) (size c.opt)

  -- An entry whose net is built, or that is a placeholder, does not count; any other counts its size.
  pub weight_cached :
      (cache : List (Bytes × N)) (k : Bytes) (n : N) (c : NetConf V)
      → lookup Bytes-discrete k cache ≡ some n
      → weight cache k c ≡ 0
  unfolding weigh
  weight_cached cache k n c e = rw e refl

  pub weight_open :
      (cache : List (Bytes × N)) (k : Bytes) (c : NetConf V)
      → lookup Bytes-discrete k cache ≡ none
      → text_eq c.net_type circular ≡ false
      → weight cache k c ≡ suc (size c.opt)
  unfolding weigh
  weight_open cache k c e h = rw (e, h) refl

  pub weight_placeholder :
      (cache : List (Bytes × N)) (k : Bytes) (c : NetConf V)
      → text_eq c.net_type circular ≡ true
      → weight cache k c ≡ 0
  unfolding weigh
  weight_placeholder cache k c h = elim (Option-cases (lookup Bytes-discrete k cache)) [
    | inl e ↦ rw (e, h) refl
    | inr (n, e) ↦ rw e refl
  ]
