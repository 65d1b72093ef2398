-- ===== src/CompactVecString.antt =====
-- `CompactVecString` of rd-interface/src/config/compact_vec_string.rs: many texts in one buffer,
-- with the offset at which each begins. A text is its bytes; capacities are not modelled.
pub mod Represents
pub mod Reads
pub mod Serde
mod Tests
use rabbit_digger.Base.{
  Bytes, ℕ, zero, suc, ◌+◌, List, [], ◌∷◌, ◌++◌, Option, none, some, foldl, length, take, leb, ltb,
  if◌then◌else◌, MayPanic, returns, ◌>>=◌, at_index, at_range,
}

pub record CompactVecString : Type 0 where
  pub underlying : Bytes
  pub index : List ℕ

unfoldable pub new : CompactVecString
new = record { underlying = []; index = [] }

-- The capacity is a hint that the contents do not show.
unfoldable pub with_capacity : ℕ → CompactVecString
with_capacity capacity = record { underlying = []; index = [] }

unfoldable pub push : CompactVecString → Bytes → CompactVecString
push c s =
    let len = length c.underlying in
    record { underlying = c.underlying ++ s; index = c.index ++ (len ∷ []) }

-- `Vec::pop`: the last element, and the rest.
unfoldable pub pop_last {ℓ} : {A : Type ℓ} → List A → Option (List A × A)
pop_last [] = none
pop_last (x ∷ xs) = elim (pop_last xs) [ none ↦ some ([], x) | some (r, y) ↦ some (x ∷ r, y) ]

unfoldable pub pop : CompactVecString → CompactVecString
unfolding pop_last
pop c = elim (pop_last c.index) [
  | none ↦ c
  | some (rest, i) ↦ record { underlying = take i c.underlying; index = rest }
]

unfoldable pub len : CompactVecString → ℕ
len c = length c.index

-- Where the text at `i` ends: at the next offset, or at the end of the buffer.
unfoldable pub end_of : List ℕ → ℕ → ℕ → MayPanic ℕ
end_of index i total = if ltb (i + 1) (length index) then at_index index (i + 1) else returns total

unfoldable pub get : CompactVecString → ℕ → MayPanic (Option Bytes)
unfolding end_of
get c i = if leb (length c.index) i then returns none else (do
  start ← at_index c.index i
  end ← end_of c.index i (length c.underlying)
  text ← at_range c.underlying start end
  returns (some text))

pub record Iter : Type 0 where
  pub inner : CompactVecString
  pub position : ℕ

unfoldable pub iter : CompactVecString → Iter
iter c = record { inner = c; position = 0 }

unfoldable pub next : Iter → MayPanic (Option Bytes × Iter)
unfolding get
next it = do
  result ← get it.inner it.position
  returns (result, record it { position = it.position + 1 })

-- `it.collect::<Vec<_>>()`: `next` until it returns `None`, in at most `fuel` rounds.
unfoldable pub collect : ℕ → Iter → MayPanic (List Bytes)
unfolding next
collect zero it = returns []
collect (suc fuel) it = next it >>= λ p. elim p.0 [
  | none ↦ returns []
  | some text ↦ collect fuel p.1 >>= λ texts. returns (text ∷ texts)
]

-- Every text of `c`: an iteration ends after one round more than there are texts.
unfoldable pub collect_all : CompactVecString → MayPanic (List Bytes)
unfolding iter collect len
collect_all c = collect (suc (len c)) (iter c)

unfoldable pub extend : CompactVecString → List Bytes → CompactVecString
unfolding push
extend = foldl push

unfoldable pub from_iter : List Bytes → CompactVecString
unfolding new extend
from_iter = extend new

-- `texts.join(sep)` of the standard library.
unfoldable pub join_texts : Bytes → List Bytes → Bytes
join_texts sep [] = []
join_texts sep (x ∷ []) = x
join_texts sep (x ∷ y ∷ r) = x ++ (sep ++ join_texts sep (y ∷ r))

unfoldable pub join : CompactVecString → Bytes → MayPanic Bytes
unfolding collect_all join_texts
join c sep = do texts ← collect_all c; returns (join_texts sep texts)
