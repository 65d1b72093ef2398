-- ===== src/CompactVecString/Represents.antt =====
-- The list of texts that a buffer stands for, and the operations that build one.
use rabbit_digger.Base.{
  Bytes, ℕ, ◌+◌, List, [], ◌∷◌, ◌++◌, some, ◌≡◌, refl, ap, arith, length, length-append, append-nil,
  append_assoc, take-append, zero-add,
}
use rabbit_digger.CompactVecString.{CompactVecString, new, push, pop_last, pop, extend, from_iter}

abbrev pub concat : List Bytes → Bytes
concat [] = []
concat (x ∷ xs) = x ++ concat xs

-- The offsets of texts that begin at `n`.
abbrev pub offsets : ℕ → List Bytes → List ℕ
offsets n [] = []
offsets n (x ∷ xs) = n ∷ offsets (n + length x) xs

pub record Represents (c : CompactVecString) (xs : List Bytes) : Type 0 where
  pub buffer : c.underlying ≡ concat xs
  pub starts : c.index ≡ offsets 0 xs

pub concat-append : (xs ys : List Bytes) → concat (xs ++ ys) ≡ concat xs ++ concat ys
concat-append [] ys = refl
concat-append (x ∷ xs) ys = simp (concat-append xs ys, append_assoc)

pub offsets-append :
    (n : ℕ) (xs ys : List Bytes)
    → offsets n (xs ++ ys) ≡ offsets n xs ++ offsets (n + length (concat xs)) ys
offsets-append n [] ys = ap (λ k. offsets k ys) (omega arith)
offsets-append n (x ∷ xs) ys =
    let e : n + length x + length (concat xs) ≡ n + length (x ++ concat xs) =
      omega (arith, length-append x (concat xs)) in
    rw (offsets-append (n + length x) xs ys, e)

pub new-Represents : Represents new []
unfolding new
new-Represents = record { buffer = refl; starts = refl }

pub push-Represents :
    {c : CompactVecString} {xs : List Bytes} (s : Bytes)
    → Represents c xs
    → Represents (push c s) (xs ++ s ∷ [])
unfolding push
push-Represents {c} {xs} s r = record {
  buffer = rw (r.buffer, concat-append xs (s ∷ []), append-nil);
  starts = rw (r.buffer, r.starts, offsets-append 0 xs (s ∷ []), zero-add);
}

pub extend-Represents :
    (ys : List Bytes) {c : CompactVecString} {xs : List Bytes}
    → Represents c xs
    → Represents (extend c ys) (xs ++ ys)
unfolding extend
extend-Represents [] {c} {xs} r = rw append-nil r
extend-Represents (y ∷ ys) {c} {xs} r =
    rw append_assoc at (extend-Represents ys (push-Represents y r))

pub from_iter-Represents : (xs : List Bytes) → Represents (from_iter xs) xs
unfolding from_iter
from_iter-Represents xs = extend-Represents xs new-Represents

pop_last-append {ℓ} : {A : Type ℓ} (xs : List A) (x : A) → pop_last (xs ++ x ∷ []) ≡ some (xs, x)
unfolding pop_last
pop_last-append [] x = refl
pop_last-append (y ∷ ys) x = rw (pop_last-append ys x, pop_last)

-- `pop` undoes `push`, on any state of the buffer at all.
pub pop-push : (c : CompactVecString) (s : Bytes) → pop (push c s) ≡ c
unfolding pop push
pop-push c s = rw (pop_last-append c.index (length c.underlying), pop, take-append)
