-- ===== src/Base/Text.antt =====
-- Tests on texts as lists of bytes, as the standard library's `str` makes them, with what they mean.
use mathlib.Core.Bool.{Bool, true, false, ◌&&◌, ◌||◌}
use mathlib.Core.List.{List, [], ◌∷◌, ◌++◌}
use mathlib.Core.Logic.{◌↔◌, inl, inr}
use mathlib.Core.Option.{Option, none, some}
use mathlib.Core.Path.{◌≡◌, refl, ap}
use native.Mathlib.Omega.{arith}
use Prim.Native.Nat.{ℕ}
use rabbit_digger.Base.Tests.{◌==◌, if◌then◌else◌, Bool-cases, Option-cases}

-- `s == t`.
unfoldable pub text_eq : List ℕ → List ℕ → Bool
text_eq [] [] = true
text_eq (x ∷ xs) (y ∷ ys) = x == y && text_eq xs ys
text_eq _ _ = false

-- `s.strip_prefix(p)`.
unfoldable pub strip_prefix : List ℕ → List ℕ → Option (List ℕ)
strip_prefix [] s = some s
strip_prefix (p ∷ ps) [] = none
strip_prefix (p ∷ ps) (c ∷ cs) = if p == c then strip_prefix ps cs else none

-- `s.starts_with(p)`.
unfoldable pub starts_with : List ℕ → List ℕ → Bool
starts_with p s = elim (strip_prefix p s) [ some rest ↦ true | none ↦ false ]

-- `s.ends_with(p)`.
unfoldable pub ends_with : List ℕ → List ℕ → Bool
ends_with p [] = text_eq [] p
ends_with p (c ∷ cs) = text_eq (c ∷ cs) p || ends_with p cs

-- `s.contains(p)`.
unfoldable pub contains : List ℕ → List ℕ → Bool
contains p [] = starts_with p []
contains p (c ∷ cs) = starts_with p (c ∷ cs) || contains p cs

pub text_eq_iff : (s t : List ℕ) → (text_eq s t ≡ true) ↔ (s ≡ t)
unfolding text_eq
text_eq_iff [] [] = ground arith
text_eq_iff (x ∷ xs) (y ∷ ys) = ground (arith, text_eq_iff xs ys)
text_eq_iff [] (y ∷ ys) = ground arith
text_eq_iff (x ∷ xs) [] = ground arith

pub strip_prefix-append : (p rest : List ℕ) → strip_prefix p (p ++ rest) ≡ some rest
unfolding strip_prefix
strip_prefix-append [] rest = refl
strip_prefix-append (c ∷ p) rest = ground (arith, strip_prefix-append p rest)

pub strip_prefix-eq-append :
    (p s : List ℕ) {rest : List ℕ} → strip_prefix p s ≡ some rest → s ≡ p ++ rest
unfolding strip_prefix
strip_prefix-eq-append [] s h = ground arith
strip_prefix-eq-append (c ∷ p) [] h = cc
strip_prefix-eq-append (c ∷ p) (d ∷ s) {rest} h =
    ground (arith, strip_prefix-eq-append p s {rest = rest})

-- `s` is `p` behind something.
abbrev pub IsSuffix : List ℕ → List ℕ → Type 0
IsSuffix p s = (front : List ℕ) × (s ≡ front ++ p)

-- `p` stands somewhere in `s`.
abbrev pub IsInfix : List ℕ → List ℕ → Type 0
IsInfix p s = (front : List ℕ) × (rest : List ℕ) × (s ≡ front ++ (p ++ rest))

ends_with-IsSuffix : (p s : List ℕ) → ends_with p s ≡ true → IsSuffix p s
unfolding ends_with
ends_with-IsSuffix p [] h = ([], (text_eq_iff [] p).0 h)
ends_with-IsSuffix p (c ∷ cs) h = elim (Bool-cases (text_eq (c ∷ cs) p)) [
  | inl whole ↦ ([], (text_eq_iff (c ∷ cs) p).0 whole)
  | inr part ↦ let (front, e) = ends_with-IsSuffix p cs (ground arith) in (c ∷ front, ap (◌∷◌ c) e)
]

ends_with_self : (p : List ℕ) → ends_with p p ≡ true
unfolding ends_with
ends_with_self [] = (text_eq_iff [] []).1 refl
ends_with_self (c ∷ cs) = rw ((text_eq_iff (c ∷ cs) (c ∷ cs)).1 refl)

IsSuffix-ends_with : (p front : List ℕ) → ends_with p (front ++ p) ≡ true
unfolding ends_with
IsSuffix-ends_with p [] = ends_with_self p
IsSuffix-ends_with p (c ∷ front) = ground (arith, IsSuffix-ends_with p front)

pub ends_with_iff : (p s : List ℕ) → (ends_with p s ≡ true) ↔ IsSuffix p s
ends_with_iff p s = (ends_with-IsSuffix p s, λ (front, e). rw e (IsSuffix-ends_with p front))

starts_with-cases : (p s : List ℕ) → starts_with p s ≡ true → (rest : List ℕ) × (s ≡ p ++ rest)
unfolding starts_with
starts_with-cases p s h = elim (Option-cases (strip_prefix p s)) [
  | inl no_prefix ↦ absurd (ground arith)
  | inr (rest, e) ↦ (rest, strip_prefix-eq-append p s e)
]

contains-IsInfix : (p s : List ℕ) → contains p s ≡ true → IsInfix p s
unfolding contains
contains-IsInfix p [] h = let (rest, e) = starts_with-cases p [] h in ([], rest, e)
contains-IsInfix p (c ∷ cs) h = elim (Bool-cases (starts_with p (c ∷ cs))) [
  | inl here ↦ let (rest, e) = starts_with-cases p (c ∷ cs) here in ([], rest, e)
  | inr later ↦
      let (front, rest, e) = contains-IsInfix p cs (ground arith) in (c ∷ front, rest, ap (◌∷◌ c) e)
]

starts_with-append : (p rest : List ℕ) → starts_with p (p ++ rest) ≡ true
unfolding starts_with
starts_with-append p rest = rw (starts_with, strip_prefix-append p rest)

contains_of_starts_with : (p s : List ℕ) → starts_with p s ≡ true → contains p s ≡ true
unfolding contains
contains_of_starts_with p [] h = h
contains_of_starts_with p (c ∷ s) h = rw h

IsInfix-contains : (p front rest : List ℕ) → contains p (front ++ (p ++ rest)) ≡ true
unfolding contains
IsInfix-contains p [] rest = contains_of_starts_with p (p ++ rest) (starts_with-append p rest)
IsInfix-contains p (c ∷ front) rest = ground (arith, IsInfix-contains p front rest)

pub contains_iff : (p s : List ℕ) → (contains p s ≡ true) ↔ IsInfix p s
contains_iff p s = (contains-IsInfix p s, λ (front, rest, e). rw e (IsInfix-contains p front rest))
