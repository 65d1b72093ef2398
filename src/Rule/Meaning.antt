-- ===== src/Rule/Meaning.antt =====
-- What a domain matcher accepts: the patterns of rd-std/src/rule/domain.rs by what they mean.
use native.Mathlib.Numerals.{add-one}
use rabbit_digger.Base.{
  Bytes, ℕ, zero, suc, ◌+◌, ◌<◌, List, [], ◌∷◌, ◌++◌, none, ◌≡◌, ◌≢◌, ◌↔◌, ◌⊎◌, inl, inr, refl, sym,
  ◌∙◌, arith, Bool, true, false, ◌||◌, Bool-cases, Option-cases, length, drop, get_elem?, returns,
}
use rabbit_digger.Base.Text.{
  text_eq, strip_prefix, starts_with, ends_with, text_eq_iff, strip_prefix-append,
  strip_prefix-eq-append, IsSuffix, IsInfix, ends_with_iff, contains_iff,
}
use rabbit_digger.CompactVecString.{CompactVecString, iter, next, len}
use rabbit_digger.CompactVecString.Reads.{
  get-get_elem?, len-Represents, drop_found, drop-none, drop_past,
}
use rabbit_digger.CompactVecString.Represents.{Represents}
use rabbit_digger.Rule.Matcher.{
  Method, keyword, suffix, exact, DomainMatcher, plus_dot, test_text, any_text, test_domain, any_of,
}

or-left : {a : Bool} (b : Bool) → a ≡ true → a || b ≡ true
or-left b h = rw h

or-right : (a : Bool) {b : Bool} → b ≡ true → a || b ≡ true
or-right true h = refl
or-right false h = h

any_text-drop :
    (f : Bytes → Bool) (fuel i : ℕ) {c : CompactVecString} {xs : List Bytes}
    → Represents c xs
    → length xs < fuel + i
    → any_text f fuel (record { inner = c; position = i }) ≡ returns (any_of f (drop i xs))
unfolding any_text any_of next
any_text-drop f zero i {c} {xs} r h = rw (drop_past i xs (omega arith))
any_text-drop f (suc fuel) i {c} {xs} r h = elim (Option-cases (get_elem? xs i)) [
  | inl out ↦ rw (any_text, next, get-get_elem? r i, out, drop-none xs i out)
  | inr (x, found) ↦ elim (Bool-cases (f x)) [
    | inl good ↦ rw (any_text, next, get-get_elem? r i, found, drop_found xs i found, good)
    | inr bad ↦
        rw (any_text, next, get-get_elem? r i, found, drop_found xs i found, bad, add-one)
          (any_text-drop f fuel (suc i) r (omega arith))
  ]
]

-- The loop over the stored patterns is a test of the list that they stand for.
pub test_domain-any_of :
    (m : DomainMatcher) {ds : List Bytes} (s : Bytes)
    → Represents m.domains ds
    → test_domain m s ≡ returns (any_of (test_text m.method s) ds)
unfolding test_domain iter
test_domain-any_of m s r =
    any_text-drop (test_text m.method s) (suc (len m.domains)) 0 r (omega (arith, len-Represents r))

-- `+.name` stands for the domain itself and all below it; any other exact pattern for itself.
pub data MatchesPattern (s : Bytes) : Method → Bytes → Type 0 where
  has : {d : Bytes} → IsInfix d s → MatchesPattern s keyword d
  ends : {d : Bytes} → IsSuffix d s → MatchesPattern s suffix d
  below :
      {d : Bytes} (name : Bytes)
      → d ≡ plus_dot ++ name
      → IsSuffix (b'.' ∷ name) s
      → MatchesPattern s exact d
  itself : {d : Bytes} (name : Bytes) → d ≡ plus_dot ++ name → s ≡ name → MatchesPattern s exact d
  same : {d : Bytes} → ((name : Bytes) → d ≢ plus_dot ++ name) → s ≡ d → MatchesPattern s exact d

exact-plus_dot :
    (s name : Bytes)
    → test_text exact s (plus_dot ++ name) ≡ (ends_with (b'.' ∷ name) s || text_eq s name)
unfolding test_text starts_with
exact-plus_dot s name = rw (
  test_text,
  starts_with,
  strip_prefix-append plus_dot name,
  strip_prefix-append (b'+' ∷ []) (b'.' ∷ name),
)

exact_plain : (s d : Bytes) → strip_prefix plus_dot d ≡ none → test_text exact s d ≡ text_eq s d
unfolding test_text starts_with
exact_plain s d h = rw (test_text, starts_with, h)

not_plus_dot : (d : Bytes) → strip_prefix plus_dot d ≡ none → (name : Bytes) → d ≢ plus_dot ++ name
not_plus_dot d h name e = cc (rw e at h, strip_prefix-append plus_dot name)

test_text-MatchesPattern :
    (m : Method) (s d : Bytes) → test_text m s d ≡ true → MatchesPattern s m d
unfolding test_text
test_text-MatchesPattern keyword s d h = has ((contains_iff d s).0 h)
test_text-MatchesPattern suffix s d h = ends ((ends_with_iff d s).0 h)
test_text-MatchesPattern exact s d h = elim (Option-cases (strip_prefix plus_dot d)) [
  | inl plain ↦ same (not_plus_dot d plain) ((text_eq_iff s d).0 (sym (exact_plain s d plain) ∙ h))
  | inr (name, e) ↦
      let shape = strip_prefix-eq-append plus_dot d e in
      let h' : ends_with (b'.' ∷ name) s || text_eq s name ≡ true =
        sym (exact-plus_dot s name) ∙ (rw shape at h) in
      elim (Bool-cases (ends_with (b'.' ∷ name) s)) [
        | inl sub ↦ below name shape ((ends_with_iff (b'.' ∷ name) s).0 sub)
        | inr other ↦ itself name shape ((text_eq_iff s name).0 (ground arith))
      ]
]

MatchesPattern-test_text :
    {m : Method} {s d : Bytes} → MatchesPattern s m d → test_text m s d ≡ true
unfolding test_text
MatchesPattern-test_text {s = s} (has {d = d} h) = (contains_iff d s).1 h
MatchesPattern-test_text {s = s} (ends {d = d} h) = (ends_with_iff d s).1 h
MatchesPattern-test_text {s = s} (below name e h) =
    rw e (exact-plus_dot s name ∙ or-left _ ((ends_with_iff (b'.' ∷ name) s).1 h))
MatchesPattern-test_text {s = s} (itself name e h) =
    rw e (exact-plus_dot s name ∙ or-right (ends_with (b'.' ∷ name) s) ((text_eq_iff s name).1 h))
MatchesPattern-test_text {s = s} (same {d = d} h e) =
    elim (Option-cases (strip_prefix plus_dot d)) [
      | inl plain ↦ exact_plain s d plain ∙ (text_eq_iff s d).1 e
      | inr (name, found) ↦ absurd (h name (strip_prefix-eq-append plus_dot d found))
    ]

-- Some item of the list has the property.
abbrev pub AnyIn : {A : Type 0} → (A → Type 0) → List A → Type 0
AnyIn P [] = ⊥
AnyIn P (x ∷ xs) = P x ⊎ AnyIn P xs

any_of-AnyIn :
    (m : Method) (s : Bytes) (ds : List Bytes)
    → (any_of (test_text m s) ds ≡ true) ↔ AnyIn (MatchesPattern s m) ds
unfolding any_of
any_of-AnyIn m s [] = (λ h. cc, λ h. absurd h)
any_of-AnyIn m s (d ∷ ds) = (
  λ h. elim (Bool-cases (test_text m s d)) [
    | inl here ↦ inl (test_text-MatchesPattern m s d here)
    | inr not_here ↦ inr ((any_of-AnyIn m s ds).0 (rw not_here at h))
  ],
  λ found. elim found [
    | inl here ↦ or-left _ (MatchesPattern-test_text here)
    | inr later ↦ or-right (test_text m s d) ((any_of-AnyIn m s ds).1 later)
  ],
)

-- A domain matcher accepts exactly the domains that one of its patterns stands for, and never
-- panics on patterns that were stored by the buffer's own operations.
pub test_domain_iff :
    (m : DomainMatcher) {ds : List Bytes} (s : Bytes)
    → Represents m.domains ds
    → (b : Bool) × (test_domain m s ≡ returns b)
      × ((b ≡ true) ↔ AnyIn (MatchesPattern s m.method) ds)
test_domain_iff m {ds} s r =
    (any_of (test_text m.method s) ds, test_domain-any_of m s r, any_of-AnyIn m.method s ds)
