-- ===== src/CompactVecString/Tests.antt =====
-- Runs of the buffer, and the theorems about it at concrete buffers.
use rabbit_digger.Base.{Bytes, List, [], ◌∷◌, none, some, ◌≡◌, refl, returns, panics, get_elem?}
use rabbit_digger.CompactVecString.{new, push, pop, get, len, from_iter, collect_all, join}
use rabbit_digger.CompactVecString.Represents.{from_iter-Represents, pop-push}
use rabbit_digger.CompactVecString.Reads.{get-get_elem?, collect_all-from_iter}
use rabbit_digger.CompactVecString.Serde.{
  Visited, str, sequence, serialize, deserialize, deserialize-serialize,
}

abbrev hello : Bytes
hello = b'h' ∷ b'i' ∷ []

abbrev world : Bytes
world = b'w' ∷ b'o' ∷ b'w' ∷ []

abbrev two_texts : List Bytes
two_texts = hello ∷ world ∷ []

-- the tests of the source file: push, get, pop, len
runs :
    (get (from_iter two_texts) 1 ≡ returns (some world))
    × (get (pop (from_iter two_texts)) 1 ≡ returns none)
    × (pop new ≡ new)
    × (len (from_iter two_texts) ≡ 2)
    × (join (from_iter two_texts) (b',' ∷ []) ≡ returns (b'h' ∷ b'i' ∷ b',' ∷ world))
    × (serialize (from_iter (hello ∷ [])) ≡ returns (str hello))
    × (deserialize (sequence (some hello ∷ none ∷ [])) ≡ none)
unfolding get from_iter pop new len join serialize deserialize
runs = (refl, refl, refl, refl, refl, refl, refl)

-- an index that does not fit the buffer makes the slice panic
get_corrupt : get (record { underlying = []; index = 1 ∷ [] }) 0 ≡ panics
unfolding get
get_corrupt = refl

get-get_elem?_example : get (from_iter two_texts) 1 ≡ returns (get_elem? two_texts 1)
get-get_elem?_example = get-get_elem? (from_iter-Represents two_texts) 1

collect_all-from_iter_example : collect_all (from_iter two_texts) ≡ returns two_texts
collect_all-from_iter_example = collect_all-from_iter two_texts

pop-push_example : pop (push (from_iter two_texts) hello) ≡ from_iter two_texts
pop-push_example = pop-push (from_iter two_texts) hello

deserialize-serialize_example :
    (v : Visited) × (serialize (from_iter two_texts) ≡ returns v)
    × (deserialize v ≡ some (from_iter two_texts))
deserialize-serialize_example = deserialize-serialize (from_iter-Represents two_texts)
