-- ===== src/Address/Decimal.antt =====
-- Decimal text of a `u16`, as the standard library's `Display` and `FromStr` write and read it.
use rabbit_digger.Base.{
  Bytes, ℕ, zero, suc, ◌+◌, ◌-◌, ◌*◌, ◌/◌, ◌%◌, ◌^◌, ◌≤◌, ◌<◌, [], ◌∷◌, ◌++◌, Option, none, some,
  ◌≡◌, ◌≢◌, refl, inl, inr, ◌&&◌, arith, ltb, leb, ◌==◌, if◌then◌else◌, Bool-cases, ltb→lt, lt→ltb,
  Option-cases, ◌∙◌,
}
use native.Mathlib.Nat.{pow-suc}
use mathlib.Core.List.{concat-ne-nil}

abbrev pub u16_mod : ℕ
u16_mod = 65536

-- `{}` of an unsigned number, by its digits from the left. `fuel` bounds the digits.
unfoldable pub print_digits : ℕ → ℕ → Bytes
print_digits zero n = []
print_digits (suc fuel) n =
    let front = print_digits fuel (n / 10) in
    if ltb n 10 then (b'0' + n) ∷ [] else front ++ (b'0' + n % 10) ∷ []

-- A `u16` has at most five digits.
unfoldable pub print_u16 : ℕ → Bytes
unfolding print_digits
print_u16 = print_digits 5

-- A `u32` has at most ten.
unfoldable pub print_u32 : ℕ → Bytes
unfolding print_digits
print_u32 = print_digits 10

-- One digit onto the number read so far, with the check for overflow.
unfoldable pub push_digit : ℕ → ℕ → Option ℕ
push_digit acc c =
    if leb b'0' c && leb c b'9'
    then (if ltb (acc * 10 + (c - b'0')) u16_mod then some (acc * 10 + (c - b'0')) else none)
    else none

unfoldable pub parse_digits : ℕ → Bytes → Option ℕ
parse_digits acc [] = some acc
parse_digits acc (c ∷ cs) = elim (push_digit acc c) [ none ↦ none | some n ↦ parse_digits n cs ]

-- `s.parse::<u16>()`: a leading `+` is accepted, an empty text and a sign alone are not.
unfoldable pub parse_u16 : Bytes → Option ℕ
unfolding parse_digits push_digit
parse_u16 [] = none
parse_u16 (c ∷ []) = parse_digits 0 (c ∷ [])
parse_u16 (c ∷ d ∷ cs) = if c == b'+' then parse_digits 0 (d ∷ cs) else parse_digits 0 (c ∷ d ∷ cs)

parse_digits-append :
    (xs : Bytes) (acc n c : ℕ)
    → parse_digits acc xs ≡ some n
    → parse_digits acc (xs ++ c ∷ []) ≡ push_digit n c
unfolding parse_digits
parse_digits-append [] acc n c h = ground arith
parse_digits-append (x ∷ xs) acc n c h = elim (Option-cases (push_digit acc x)) [
  | inl bad ↦ absurd (ground arith)
  | inr (m, good) ↦
      rw (good, parse_digits) (parse_digits-append xs m n c (rw (good, parse_digits) at h))
]

push_digit_lem : (n : ℕ) → n < u16_mod → push_digit (n / 10) (b'0' + n % 10) ≡ some n
unfolding push_digit
push_digit_lem n h = ground arith

parse_digit : (n : ℕ) → n < 10 → parse_digits 0 ((b'0' + n) ∷ []) ≡ some n
unfolding parse_digits push_digit
parse_digit n h = ground arith

parse-print_digits :
    (fuel n : ℕ)
    → n < 10 ^ suc fuel
    → n < u16_mod
    → parse_digits 0 (print_digits (suc fuel) n) ≡ some n
unfolding print_digits
parse-print_digits zero n h k = rw (lt→ltb n 10 (omega arith)) (parse_digit n (omega arith))
parse-print_digits (suc fuel) n h k = elim (Bool-cases (ltb n 10)) [
  | inl small ↦ rw small (parse_digit n (ltb→lt n 10 small))
  | inr large ↦ rw large (
      parse_digits-append (print_digits (suc fuel) (n / 10)) 0 (n / 10) (b'0' + n % 10)
        (parse-print_digits fuel (n / 10) (omega (arith, pow-suc 10 (suc fuel))) (omega arith))
      ∙ push_digit_lem n k)
]

-- A text of decimal digits.
abbrev pub AllDigits : Bytes → Type 0
AllDigits [] = Unit {0}
AllDigits (c ∷ cs) = ((b'0' ≤ c) × (c ≤ b'9')) × AllDigits cs

AllDigits-append : (xs ys : Bytes) → AllDigits xs → AllDigits ys → AllDigits (xs ++ ys)
AllDigits-append [] ys h k = k
AllDigits-append (x ∷ xs) ys h k = (h.0, AllDigits-append xs ys h.1 k)

print_digits-AllDigits : (fuel n : ℕ) → AllDigits (print_digits fuel n)
unfolding print_digits
print_digits-AllDigits zero n = tt
print_digits-AllDigits (suc fuel) n = elim (Bool-cases (ltb n 10)) [
  | inl small ↦ rw small (omega (arith, ltb→lt n 10 small))
  | inr large ↦ rw large (AllDigits-append _ _ (print_digits-AllDigits fuel (n / 10)) (omega arith))
]

pub print_u16-AllDigits : (n : ℕ) → AllDigits (print_u16 n)
unfolding print_u16
print_u16-AllDigits n = print_digits-AllDigits 5 n

print_digits-ne-nil : (fuel n : ℕ) → print_digits (suc fuel) n ≢ []
unfolding print_digits
print_digits-ne-nil fuel n e = elim (Bool-cases (ltb n 10)) [
  | inl small ↦ cc (rw (small, print_digits) at e)
  | inr large ↦ concat-ne-nil _ _ (rw (large, print_digits) at e)
]

parse_u16-parse_digits : (cs : Bytes) → AllDigits cs → cs ≢ [] → parse_u16 cs ≡ parse_digits 0 cs
unfolding parse_u16
parse_u16-parse_digits [] h ne = absurd (ne refl)
parse_u16-parse_digits (c ∷ []) h ne = refl
parse_u16-parse_digits (c ∷ d ∷ cs) h ne = ground arith

-- A port is read back from its text.
pub parse-print_u16 : (n : ℕ) → n < u16_mod → parse_u16 (print_u16 n) ≡ some n
unfolding print_u16
parse-print_u16 n h =
    parse_u16-parse_digits (print_digits 5 n) (print_digits-AllDigits 5 n) (print_digits-ne-nil 4 n)
    ∙ parse-print_digits 4 n (omega arith) h
