-- ===== src/CompactVecString/Reads.antt =====
-- What `get`, an iteration and `join` read from a buffer that stands for a list of texts.
use rabbit_digger.Base.{
  Bytes, ℕ, zero, suc, ◌+◌, ◌-◌, ◌≤◌, ◌<◌, le→leb, lt→leb_false, List, [], ◌∷◌, ◌++◌, none, some,
  ◌≡◌, refl, ap, sym, ◌∙◌, arith, length, drop, get_elem?, slice, length-append, append-nil,
  append_assoc, take-append, drop-append, Option-cases, inl, inr, returns,
}
use native.Mathlib.Numerals.{add-one}
use rabbit_digger.CompactVecString.{
  CompactVecString, end_of, get, len, collect, collect_all, join, join_texts, from_iter,
}
use rabbit_digger.CompactVecString.Represents.{Represents, concat, offsets, from_iter-Represents}

length-offsets : (n : ℕ) (xs : List Bytes) → length (offsets n xs) ≡ length xs
length-offsets n [] = refl
length-offsets n (x ∷ xs) = ap suc (length-offsets (n + length x) xs)

-- The text at `i`, found by its offset in a buffer that holds other texts before these.
record Located (n : ℕ) (buf : Bytes) (xs : List Bytes) (i : ℕ) (x : Bytes) : Type 0 where
  start : ℕ
  starts_at : get_elem? (offsets n xs) i ≡ some start
  ends_at : end_of (offsets n xs) i (length buf) ≡ returns (start + length x)
  inside : start + length x ≤ length buf
  content : slice start (start + length x) buf ≡ x

end_of-cons :
    (n : ℕ) (index : List ℕ) (i total : ℕ) → end_of (n ∷ index) (suc i) total ≡ end_of index i total
unfolding end_of
end_of-cons n index i total = ground arith

end_of_first :
    (n : ℕ) (x : Bytes) (xs : List Bytes) (total : ℕ)
    → total ≡ n + length (x ++ concat xs)
    → end_of (offsets n (x ∷ xs)) 0 total ≡ returns (n + length x)
unfolding end_of
end_of_first n x [] total h = ap returns (h ∙ rw append-nil)
end_of_first n x (y ∷ xs) total h = ground arith

slice_middle :
    (pre x post : Bytes) → slice (length pre) (length pre + length x) (pre ++ (x ++ post)) ≡ x
slice_middle pre x post =
    let e : length pre + length x - length pre ≡ length x = omega arith in
    rw (e, drop-append pre (x ++ post), take-append)

module _ (buf : Bytes) {x : Bytes} where
  locate :
      (xs : List Bytes) (i n : ℕ) (pre : Bytes)
      → n ≡ length pre
      → buf ≡ pre ++ concat xs
      → get_elem? xs i ≡ some x
      → Located n buf xs i x
  locate [] i n pre hn hb h = cc
  locate (y ∷ ys) zero n pre hn hb h =
      let e : y ≡ x = cc in
      let total : length buf ≡ n + length (y ++ concat ys) =
        rw (hb, hn, length-append pre (y ++ concat ys)) in
      record {
        start = n;
        starts_at = refl;
        ends_at = rw (← e) (end_of_first n y ys (length buf) total);
        inside = rw (← e) (omega (arith, total, length-append y (concat ys)));
        content = rw (← e, hb, hn) (slice_middle pre y (concat ys));
      }
  locate (y ∷ ys) (suc i) n pre hn hb h =
      let later =
        locate ys i (n + length y) (pre ++ y) (omega (arith, length-append pre y))
          (hb ∙ rw append_assoc) h in
      record {
        start = later.start;
        starts_at = later.starts_at;
        ends_at = rw end_of-cons later.ends_at;
        inside = later.inside;
        content = later.content;
      }

get_elem?-lt : {A : Type 0} (xs : List A) (i : ℕ) {x : A} → get_elem? xs i ≡ some x → i < length xs
get_elem?-lt [] i h = cc
get_elem?-lt (x ∷ xs) zero h = omega arith
get_elem?-lt (x ∷ xs) (suc i) h = omega (arith, get_elem?-lt xs i h)

get_elem?-none : {A : Type 0} (xs : List A) (i : ℕ) → get_elem? xs i ≡ none → length xs ≤ i
get_elem?-none [] i h = omega arith
get_elem?-none (x ∷ xs) zero h = cc
get_elem?-none (x ∷ xs) (suc i) h = omega (arith, get_elem?-none xs i h)

get_inside :
    (c : CompactVecString) (i : ℕ) {start end : ℕ}
    → i < length c.index
    → get_elem? c.index i ≡ some start
    → end_of c.index i (length c.underlying) ≡ returns end
    → start ≤ end
    → end ≤ length c.underlying
    → get c i ≡ returns (some (slice start end c.underlying))
unfolding get
get_inside c i {start} {end} lt found ends lo hi =
    rw (lt→leb_false _ _ lt, found, ends, le→leb _ _ lo, le→leb _ _ hi)

module _ {c : CompactVecString} {xs : List Bytes} (r : Represents c xs) where
  length-index : length c.index ≡ length xs
  length-index = rw r.starts (length-offsets 0 xs)

  pub len-Represents : len c ≡ length xs
  unfolding len
  len-Represents = length-index

  -- `get` finds every text and nothing past the end, and its unchecked slice is in range.
  pub get-get_elem? : (i : ℕ) → get c i ≡ returns (get_elem? xs i)
  get-get_elem? i = elim (Option-cases (get_elem? xs i)) [
    | inl out ↦ rw out (
        unfold get in
        rw (le→leb (length c.index) i (omega (arith, get_elem?-none xs i out, length-index))))
    | inr (x, found) ↦
        let at = locate c.underlying xs i 0 [] refl r.buffer found in
        rw found (
          get_inside c i {start = at.start} {end = at.start + length x}
            (omega (arith, get_elem?-lt xs i found, length-index)) (rw r.starts at.starts_at)
            (rw r.starts at.ends_at) (omega arith) at.inside
          ∙ rw at.content)
  ]

pub drop_found :
    {A : Type 0} (xs : List A) (i : ℕ) {x : A}
    → get_elem? xs i ≡ some x
    → drop i xs ≡ x ∷ drop (suc i) xs
drop_found [] i h = cc
drop_found (x ∷ xs) zero h = cc
drop_found (x ∷ xs) (suc i) h = drop_found xs i h

pub drop_past : {A : Type 0} (i : ℕ) (xs : List A) → length xs ≤ i → drop i xs ≡ []
drop_past zero [] h = refl
drop_past zero (x ∷ xs) h = absurd (omega arith)
drop_past (suc i) [] h = refl
drop_past (suc i) (x ∷ xs) h = drop_past i xs (omega arith)

pub drop-none : {A : Type 0} (xs : List A) (i : ℕ) → get_elem? xs i ≡ none → drop i xs ≡ []
drop-none [] zero h = refl
drop-none [] (suc i) h = refl
drop-none (x ∷ xs) zero h = cc
drop-none (x ∷ xs) (suc i) h = drop-none xs i h

-- An iteration that stands at `i` yields the texts from there on, given a round more than they are.
collect-drop :
    (fuel i : ℕ) {c : CompactVecString} {xs : List Bytes}
    → Represents c xs
    → length xs < fuel + i
    → collect fuel (record { inner = c; position = i }) ≡ returns (drop i xs)
unfolding collect
collect-drop zero i {c} {xs} r h = ap returns (sym (drop_past i xs (omega arith)))
collect-drop (suc fuel) i {c} {xs} r h = elim (Option-cases (get_elem? xs i)) [
  | inl out ↦ rw (get-get_elem? r i, out, drop-none xs i out)
  | inr (x, found) ↦ rw (
    get-get_elem? r i,
    found,
    collect-drop fuel (i + 1) r (omega arith),
    drop_found xs i found,
    add-one,
  )
]

-- Iterating over the buffer gives the texts that were stored, in order, and the iteration ends.
pub collect_all-Represents :
    {c : CompactVecString} {xs : List Bytes} → Represents c xs → collect_all c ≡ returns xs
unfolding collect_all
collect_all-Represents {c} {xs} r = collect-drop (suc (len c)) 0 r (omega (arith, len-Represents r))

-- The texts of a list come back from the buffer that it is collected into.
pub collect_all-from_iter : (xs : List Bytes) → collect_all (from_iter xs) ≡ returns xs
collect_all-from_iter xs = collect_all-Represents (from_iter-Represents xs)

pub join-Represents :
    {c : CompactVecString} {xs : List Bytes} (sep : Bytes)
    → Represents c xs
    → join c sep ≡ returns (join_texts sep xs)
unfolding join
join-Represents sep r = rw (collect_all-Represents r)
