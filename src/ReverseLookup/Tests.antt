-- ===== src/ReverseLookup/Tests.antt =====
-- Runs of the reverse lookup, and the theorems about it with tables of one entry.
use rabbit_digger.Address.{IpAddr, v4, IpAddr-discrete}
use rabbit_digger.Base.{
  Bytes, ℕ, ◌≤◌, List, [], ◌∷◌, Option, none, some, some-inj, ◌≡◌, ◌⊎◌, inl, refl, sym, ap, ◌∙◌,
}
use rabbit_digger.Context.{Bytes-discrete}
use rabbit_digger.ReverseLookup.{a_record, Message, trim_cons, trim_dots, walk, new}
use rabbit_digger.ReverseLookup.Names.{
  Aliases, IsRoot, walk_lem, Op, packet, lookup_of, run, AllAnswer, run-AllAnswer,
}
use rabbit_digger.Rule.Cache.{LruCache}

abbrev pub value_if : {P V : Type 0} → Dec P → V → Option V
value_if (yes _) v = some v
value_if (no _) v = none

pub value_if-some : {P V : Type 0} (d : Dec P) (w : V) {v : V} → value_if d w ≡ some v → P × (v ≡ w)
value_if-some (yes p) w h = (p, sym (some-inj h))
value_if-some (no n) w h = cc

-- A cache of one entry.
abbrev pub last_entry : {K : Type 0} → Discrete K → LruCache K Bytes
last_entry {K} dec =
    let peek : K → Option (K × Bytes) → Option Bytes =
      λ q c. elim c [ none ↦ none | some e ↦ value_if (dec q e.0) e.1 ] in
    record {
      Cache = Option (K × Bytes);
      with_capacity = λ n. none;
      get = λ k c. (peek k c, c);
      insert = λ k v c. some (k, v);
      peek = peek;
      peek-with_capacity = λ n q. refl;
      get-peek = λ k c h. h;
      peek-get = λ k q c h. h;
      peek-insert = λ k q w c h. inl (value_if-some (dec q k) w h);
    }

abbrev pub by_addr : LruCache IpAddr Bytes
by_addr = last_entry IpAddr-discrete

abbrev pub by_name : LruCache Bytes Bytes
by_name = last_entry Bytes-discrete

-- Packets of one byte ask for the name of that byte.
abbrev pub read_byte : Bytes → Option Message
read_byte (b ∷ []) =
    some (record { queries = (b ∷ b'.' ∷ []) ∷ []; answers = a_record (v4 b) ∷ [] })
read_byte _ = none

runs : trim_dots (b'a' ∷ b'.' ∷ b'b' ∷ b'.' ∷ b'.' ∷ []) ≡ b'a' ∷ b'.' ∷ b'b' ∷ []
unfolding trim_dots trim_cons
runs = refl

walk_lem_example :
    (n : ℕ) × (n ≤ 16)
    × Aliases by_addr by_name
        (some (7 ∷ [], 8 ∷ []))
        n
        (7 ∷ [])
        (walk by_addr by_name read_byte (some (7 ∷ [], 8 ∷ [])) 16 (7 ∷ []))
    × ((n ≡ 16)
        ⊎ IsRoot by_addr by_name
            (some (7 ∷ [], 8 ∷ []))
            (walk by_addr by_name read_byte (some (7 ∷ [], 8 ∷ [])) 16 (7 ∷ [])))
walk_lem_example = walk_lem by_addr by_name read_byte (some (7 ∷ [], 8 ∷ [])) 16 (7 ∷ [])

abbrev ops : List Op
ops = packet (5 ∷ []) ∷ lookup_of (v4 5) ∷ []

-- The names of one byte.
abbrev pub OneByte : Bytes → Type 0
OneByte (b ∷ []) = Unit {0}
OneByte _ = ⊥

pub asks-OneByte :
    (msg : Message) (q : Bytes)
    → read_byte (5 ∷ []) ≡ some msg
    → msg.queries ≡ q ∷ []
    → OneByte (trim_dots q)
unfolding trim_dots trim_cons
asks-OneByte msg q e h =
    let same : (5 ∷ b'.' ∷ []) ∷ [] ≡ q ∷ [] = ap {A = Message} (λ m. m.queries) (some-inj e) ∙ h in
    let name : q ≡ 5 ∷ b'.' ∷ [] = cc same in rw name tt

run-AllAnswer_example :
    AllAnswer by_addr by_name read_byte OneByte
      (run by_addr by_name read_byte ops (new by_addr by_name read_byte)).0
run-AllAnswer_example = run-AllAnswer by_addr by_name read_byte OneByte ops (asks-OneByte, tt)
