-- ===== src/CompactVecString/Serde.antt =====
-- `Serialize` and `Deserialize` of `CompactVecString`: one text alone is a string, else a sequence.
use rabbit_digger.Base.{
  Bytes, List, [], ◌∷◌, Option, none, some, ◌≡◌, refl, arith, ◌==◌, if◌then◌else◌, map, MayPanic,
  ap, ◌∙◌, returns, ◌>>=◌,
}
use rabbit_digger.CompactVecString.{
  CompactVecString, with_capacity, push, get, len, collect_all, new, extend, from_iter,
}
use rabbit_digger.CompactVecString.Represents.{Represents, from_iter-Represents}
use rabbit_digger.CompactVecString.Reads.{get-get_elem?, len-Represents, collect_all-Represents}

-- What the serializer is called with, and what a visitor is. An element that is no string is `none`.
pub data Visited : Type 0 where
  str : Bytes → Visited
  sequence : List (Option Bytes) → Visited

unfoldable pub serialize : CompactVecString → MayPanic Visited
serialize c =
    let seq = collect_all c >>= λ texts. returns (sequence (map some texts)) in
    if len c == 1
    then get c 0 >>= (λ first. elim first [ some s ↦ returns (str s) | none ↦ seq ])
    else seq

-- The loop of `visit_seq`: it stops at the first element that is no string.
unfoldable pub visit_elements : CompactVecString → List (Option Bytes) → Option CompactVecString
visit_elements values [] = some values
visit_elements values (none ∷ rest) = none
visit_elements values (some s ∷ rest) = visit_elements (push values s) rest

unfoldable pub deserialize : Visited → Option CompactVecString
unfolding visit_elements with_capacity
deserialize (str s) = some (push (with_capacity 1) s)
deserialize (sequence elements) = visit_elements (with_capacity 10) elements

Represents-unique :
    {c d : CompactVecString} {xs : List Bytes} → Represents c xs → Represents d xs → c ≡ d
Represents-unique r q = ground arith

visit_elements-extend :
    (ys : List Bytes) (c : CompactVecString) → visit_elements c (map some ys) ≡ some (extend c ys)
unfolding visit_elements extend
visit_elements-extend [] c = refl
visit_elements-extend (y ∷ ys) c = visit_elements-extend ys (push c y)

-- What a buffer is written as.
abbrev written : List Bytes → Visited
written (x ∷ []) = str x
written xs = sequence (map some xs)

serialize-written :
    (xs : List Bytes) {c : CompactVecString} → Represents c xs → serialize c ≡ returns (written xs)
unfolding serialize
serialize-written [] r = rw (len-Represents r, collect_all-Represents r)
serialize-written (x ∷ []) r = rw (len-Represents r, get-get_elem? r 0)
serialize-written (x ∷ y ∷ xs) r = rw (len-Represents r, collect_all-Represents r) (ground arith)

deserialize-written : (xs : List Bytes) → deserialize (written xs) ≡ some (from_iter xs)
unfolding deserialize from_iter extend new
deserialize-written [] = refl
deserialize-written (x ∷ []) = refl
deserialize-written (x ∷ y ∷ xs) = visit_elements-extend (x ∷ y ∷ xs) new

-- A buffer that stands for some list of texts is read back from what it is written as, with the
-- same bytes and offsets; writing it does not panic.
pub deserialize-serialize :
    {c : CompactVecString} {xs : List Bytes}
    → Represents c xs
    → (v : Visited) × (serialize c ≡ returns v) × (deserialize v ≡ some c)
deserialize-serialize {c} {xs} r = (
  written xs,
  serialize-written xs r,
  deserialize-written xs ∙ ap some (Represents-unique (from_iter-Represents xs) r),
)
