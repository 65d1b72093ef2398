-- ===== src/Rule/Cache.antt =====
-- The LRU cache that the rule net uses, from the library lru_time_cache: what it promises.
use rabbit_digger.Base.{ℕ, Option, none, some, ◌≡◌, ◌⊎◌}

-- `peek q c` is what the cache holds for `q`. Entries may be dropped at any operation, and none is
-- made up: what is held was held before, or was just inserted.
pub record LruCache (K V : Type 0) : Type 1 where
  pub Cache : Type 0
  pub with_capacity : ℕ → Cache
  pub get : K → Cache → Option V × Cache
  pub insert : K → V → Cache → Cache
  pub peek : K → Cache → Option V
  pub peek-with_capacity : (n : ℕ) (q : K) → peek q (with_capacity n) ≡ none
  pub get-peek : (k : K) (c : Cache) {v : V} → (get k c).0 ≡ some v → peek k c ≡ some v
  pub peek-get : (k q : K) (c : Cache) {v : V} → peek q (get k c).1 ≡ some v → peek q c ≡ some v
  pub peek-insert :
      (k q : K) (w : V) (c : Cache) {v : V}
      → peek q (insert k w c) ≡ some v
      → ((q ≡ k) × (v ≡ w)) ⊎ (peek q c ≡ some v)
