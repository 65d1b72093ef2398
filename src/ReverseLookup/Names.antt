-- ===== src/ReverseLookup/Names.antt =====
-- What rd-std/src/sniffer/service.rs answers: the end of a chain of aliases, and only names that were
-- asked for.
use rabbit_digger.Address.{IpAddr}
use rabbit_digger.Base.{
  Bytes, ℕ, zero, suc, ◌≤◌, List, [], ◌∷◌, Option, none, some, foldl, ◌≡◌, ◌≢◌, ◌⊎◌, inl, inr, refl,
  sym, ap, ◌∙◌, arith, Option-cases, Bool-cases,
}
use rabbit_digger.Base.Text.{text_eq, text_eq_iff}
use rabbit_digger.ReverseLookup.{
  RData, a_record, aaaa_record, cname_record, other_record, Message, trim_dots, Inner, new,
  record_answer, record_message, record_packet, walk, reverse_lookup,
}
use rabbit_digger.Rule.Cache.{LruCache}

module _ (by_addr : LruCache IpAddr Bytes) (by_name : LruCache Bytes Bytes) where
  -- From the first name to the last by so many aliases, none of which stands for itself.
  pub data Aliases (names : by_name.Cache) : ℕ → Bytes → Bytes → Type 0 where
    none_taken : (d : Bytes) → Aliases names 0 d d
    alias :
        (n : ℕ) (d r e : Bytes)
        → by_name.peek d names ≡ some r
        → r ≢ d
        → Aliases names n r e
        → Aliases names (suc n) d e

  -- No alias leads on.
  abbrev pub IsRoot : by_name.Cache → Bytes → Type 0
  IsRoot names e = (by_name.peek e names ≡ none) ⊎ (by_name.peek e names ≡ some e)

  module _ (read : Bytes → Option Message) where
    -- The walk along aliases follows at most `limit` of them, and if it follows fewer it ends at a name
    -- from which none leads on.
    pub walk_lem :
        (names : by_name.Cache) (limit : ℕ) (d : Bytes)
        → (n : ℕ) × (n ≤ limit)
          × Aliases names n d (walk by_addr by_name read names limit d)
          × ((n ≡ limit) ⊎ IsRoot names (walk by_addr by_name read names limit d))
    unfolding walk
    walk_lem names zero d = (0, omega arith, none_taken d, inl refl)
    walk_lem names (suc limit) d = elim (Option-cases (by_name.peek d names)) [
      | inl end ↦ rw (walk, end) (0, omega arith, none_taken d, inr (inl end))
      | inr (r, e) ↦ elim (Bool-cases (text_eq r d)) [
        | inl same ↦
            rw (walk, e, same)
              (0, omega arith, none_taken d, inr (inr (e ∙ ap some ((text_eq_iff r d).0 same))))
        | inr differ ↦
            let (n, le, chain, stop) = walk_lem names limit r in
            rw (walk, e, differ)
              (
                suc n,
                omega arith,
                alias n d r _ e (λ q. let h = (text_eq_iff r d).1 q in cc (sym h ∙ differ)) chain,
                elim stop [ inl all ↦ inl (omega arith) | inr root ↦ inr root ],
              )
      ]
    ]

    -- Every name that the tables hold has the property.
    pub record AllNames (P : Bytes → Type 0) (s : Inner by_addr by_name read) : Type 0 where
      pub of_addr : (q : IpAddr) (d : Bytes) → by_addr.peek q s.records ≡ some d → P d
      pub of_alias : (q : Bytes) (d : Bytes) → by_name.peek q s.cname_map ≡ some d → P d

    record_answer-AllNames :
        (P : Bytes → Type 0) (name : Bytes) (s : Inner by_addr by_name read) (r : RData)
        → P name
        → AllNames P s
        → AllNames P (record_answer by_addr by_name read name s r)
    unfolding record_answer
    record_answer-AllNames P name s (a_record addr) good all = record {
      of_addr = λ q d e. elim (by_addr.peek-insert addr q name s.records e) [
        | inl (here, same) ↦ rw same good
        | inr old ↦ all.of_addr q d old
      ];
      of_alias = all.of_alias;
    }
    record_answer-AllNames P name s (aaaa_record addr) good all = record {
      of_addr = λ q d e. elim (by_addr.peek-insert addr q name s.records e) [
        | inl (here, same) ↦ rw same good
        | inr old ↦ all.of_addr q d old
      ];
      of_alias = all.of_alias;
    }
    record_answer-AllNames P name s (cname_record cname) good all = record {
      of_addr = all.of_addr;
      of_alias = λ q d e. elim (by_name.peek-insert (trim_dots cname) q name s.cname_map e) [
        | inl (here, same) ↦ rw same good
        | inr old ↦ all.of_alias q d old
      ];
    }
    record_answer-AllNames P name s other_record good all = all

    walk-AllNames :
        (P : Bytes → Type 0) (names : by_name.Cache) (limit : ℕ) (d : Bytes)
        → P d
        → ((q e : Bytes) → by_name.peek q names ≡ some e → P e)
        → P (walk by_addr by_name read names limit d)
    unfolding walk
    walk-AllNames P names zero d good all = good
    walk-AllNames P names (suc limit) d good all = elim (Option-cases (by_name.peek d names)) [
      | inl end ↦ rw (walk, end) good
      | inr (r, e) ↦ elim (Bool-cases (text_eq r d)) [
        | inl same ↦ rw (walk, e, same) good
        | inr differ ↦ rw (walk, e, differ) (walk-AllNames P names limit r (all d r e) all)
      ]
    ]

    foldl-AllNames :
        (P : Bytes → Type 0) (name : Bytes) (rs : List RData) (s : Inner by_addr by_name read)
        → P name
        → AllNames P s
        → AllNames P (foldl (record_answer by_addr by_name read name) s rs)
    foldl-AllNames P name [] s good all = all
    foldl-AllNames P name (r ∷ rs) s good all =
        foldl-AllNames P name rs (record_answer by_addr by_name read name s r) good
          (record_answer-AllNames P name s r good all)

    -- The name that a packet asks for has the property, if it is a message with one question.
    abbrev pub AsksFor : (Bytes → Type 0) → Bytes → Type 0
    AsksFor P packet =
        (msg : Message) (q : Bytes)
        → read packet ≡ some msg
        → msg.queries ≡ q ∷ []
        → P (trim_dots q)

    record_message-AllNames :
        (P : Bytes → Type 0) (qs : List Bytes) (rs : List RData) (s : Inner by_addr by_name read)
        → ((q : Bytes) → qs ≡ q ∷ [] → P (trim_dots q))
        → AllNames P s
        → AllNames P (record_message by_addr by_name read (record { queries = qs; answers = rs }) s)
    unfolding record_message
    record_message-AllNames P [] rs s asks all = all
    record_message-AllNames P (q ∷ []) rs s asks all =
        foldl-AllNames P (trim_dots q) rs s (asks q refl) all
    record_message-AllNames P (q ∷ x ∷ xs) rs s asks all = all

    pub record_packet-AllNames :
        (P : Bytes → Type 0) (packet : Bytes) (s : Inner by_addr by_name read)
        → AsksFor P packet
        → AllNames P s
        → AllNames P (record_packet by_addr by_name read packet s)
    unfolding record_packet
    record_packet-AllNames P packet s asks all = elim (Option-cases (read packet)) [
      | inl bad ↦ rw (record_packet, bad) all
      | inr (msg, e) ↦
          rw (record_packet, e)
            (record_message-AllNames P msg.queries msg.answers s (λ q h. asks msg q e h) all)
    ]

    pub reverse_lookup-AllNames :
        (P : Bytes → Type 0) (addr : IpAddr) (s : Inner by_addr by_name read)
        → AllNames P s
        → AllNames P (reverse_lookup by_addr by_name read addr s).1
    unfolding reverse_lookup
    reverse_lookup-AllNames P addr s all = elim (Option-cases (by_addr.get addr s.records).0) [
      | inl absent ↦
          rw (reverse_lookup, absent)
            (record {
              of_addr = λ q d e. all.of_addr q d (by_addr.peek-get addr q s.records e);
              of_alias = all.of_alias;
            })
      | inr (d, found) ↦
          rw (reverse_lookup, found)
            (record {
              of_addr = λ q d e. all.of_addr q d (by_addr.peek-get addr q s.records e);
              of_alias = all.of_alias;
            })
    ]

    -- An answer, if there is one, has the property.
    abbrev pub Answers : (Bytes → Type 0) → Option Bytes → Type 0
    Answers P none = Unit {0}
    Answers P (some d) = P d

    pub reverse_lookup-Answers :
        (P : Bytes → Type 0) (addr : IpAddr) (s : Inner by_addr by_name read)
        → AllNames P s
        → Answers P (reverse_lookup by_addr by_name read addr s).0
    unfolding reverse_lookup
    reverse_lookup-Answers P addr s all = elim (Option-cases (by_addr.get addr s.records).0) [
      | inl absent ↦ rw (reverse_lookup, absent) tt
      | inr (d, found) ↦
          rw (reverse_lookup, found)
            (walk-AllNames P s.cname_map 16 d
              (all.of_addr addr d (by_addr.get-peek addr s.records found)) all.of_alias)
    ]

-- A packet that passes by, or a lookup.
pub data Op : Type 0 where
  packet : Bytes → Op
  lookup_of : IpAddr → Op

module _ (by_addr : LruCache IpAddr Bytes) (by_name : LruCache Bytes Bytes)
    (read : Bytes → Option Message) where
  -- The answers of the lookups, and the tables after them.
  unfoldable pub run :
      List Op → Inner by_addr by_name read → List (Option Bytes) × Inner by_addr by_name read
  run [] s = ([], s)
  run (packet p ∷ ops) s = run ops (record_packet by_addr by_name read p s)
  run (lookup_of addr ∷ ops) s =
      let (answer, s') = reverse_lookup by_addr by_name read addr s in
      let (rest, z) = run ops s' in (answer ∷ rest, z)

  abbrev pub AllAsk : (Bytes → Type 0) → List Op → Type 0
  AllAsk P [] = Unit {0}
  AllAsk P (packet p ∷ ops) = AsksFor by_addr by_name read P p × AllAsk P ops
  AllAsk P (lookup_of addr ∷ ops) = AllAsk P ops

  abbrev pub AllAnswer : (Bytes → Type 0) → List (Option Bytes) → Type 0
  AllAnswer P [] = Unit {0}
  AllAnswer P (a ∷ as_) = Answers by_addr by_name read P a × AllAnswer P as_

  run-AllNames :
      (P : Bytes → Type 0) (ops : List Op) (s : Inner by_addr by_name read)
      → AllAsk P ops
      → AllNames by_addr by_name read P s
      → AllAnswer P (run ops s).0
  unfolding run
  run-AllNames P [] s asks all = tt
  run-AllNames P (packet p ∷ ops) s asks all =
      run-AllNames P ops (record_packet by_addr by_name read p s) asks.1
        (record_packet-AllNames by_addr by_name read P p s asks.0 all)
  run-AllNames P (lookup_of addr ∷ ops) s asks all = (
    reverse_lookup-Answers by_addr by_name read P addr s all,
    run-AllNames P ops (reverse_lookup by_addr by_name read addr s).1 asks
        (reverse_lookup-AllNames by_addr by_name read P addr s all),
  )

  -- Over any packets and lookups from the empty tables on, whatever the tables drop in between, each
  -- property that the questions of the packets have, without the dots at their ends, has every name
  -- that a lookup answers with: an answer was asked for.
  pub run-AllAnswer :
      (P : Bytes → Type 0) (ops : List Op)
      → AllAsk P ops
      → AllAnswer P (run ops (new by_addr by_name read)).0
  unfolding new
  run-AllAnswer P ops asks = run-AllNames P ops (new by_addr by_name read) asks (record {
    of_addr = λ q d e. cc (by_addr.peek-with_capacity 128 q);
    of_alias = λ q d e. cc (by_name.peek-with_capacity 128 q);
  })
