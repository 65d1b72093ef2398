-- ===== src/ReverseLookup.antt =====
-- `ReverseLookup` of rd-std/src/sniffer/service.rs: the names that DNS answers gave for addresses.
pub mod Names
pub mod Tests
use rabbit_digger.Address.{IpAddr}
use rabbit_digger.Base.{
  Bytes, ℕ, zero, suc, List, [], ◌∷◌, Option, none, some, Bool, true, false, ◌||◌, ◌==◌,
  if◌then◌else◌, foldl, ◌≡◌,
}
use rabbit_digger.Base.Text.{text_eq}
use rabbit_digger.Rule.Cache.{LruCache}

-- A DNS message, which trust-dns reads: the names that it asks for, and the data of its answers.
pub data RData : Type 0 where
  a_record : IpAddr → RData
  aaaa_record : IpAddr → RData
  cname_record : Bytes → RData
  other_record : RData

pub record Message : Type 0 where
  pub queries : List Bytes
  pub answers : List RData

-- `trim_end_matches('.')`.
unfoldable pub trim_cons : ℕ → Bytes → Bytes
trim_cons b [] = if b == b'.' then [] else b ∷ []
trim_cons b (c ∷ rest) = b ∷ c ∷ rest

unfoldable pub trim_dots : Bytes → Bytes
trim_dots [] = []
trim_dots (b ∷ bs) = trim_cons b (trim_dots bs)

module _ (by_addr : LruCache IpAddr Bytes) (by_name : LruCache Bytes Bytes)
    (read : Bytes → Option Message) where
  pub record Inner : Type 0 where
    pub records : by_addr.Cache
    pub cname_map : by_name.Cache

  unfoldable pub new : Inner
  new = record { records = by_addr.with_capacity 128; cname_map = by_name.with_capacity 128 }

  -- One answer to a question for `name`.
  unfoldable pub record_answer : Bytes → Inner → RData → Inner
  record_answer name s (a_record addr) = record s { records = by_addr.insert addr name s.records }
  record_answer name s (aaaa_record addr) = record s {
    records = by_addr.insert addr name s.records;
  }
  record_answer name s (cname_record cname) = record s {
    cname_map = by_name.insert (trim_dots cname) name s.cname_map;
  }
  record_answer name s other_record = s

  unfoldable pub record_message : Message → Inner → Inner
  record_message msg s = elim msg.queries [
    | [] ↦ s
    | q ∷ more ↦ elim more [ [] ↦ foldl (record_answer (trim_dots q)) s msg.answers | x ∷ xs ↦ s ]
  ]

  -- `record_packet`: anything but a message with one question is passed over.
  unfoldable pub record_packet : Bytes → Inner → Inner
  record_packet packet s = elim (read packet) [ none ↦ s | some msg ↦ record_message msg s ]

  -- The loop of `reverse_lookup`, with `limit` steps left; with none left it ends, whatever `peek`
  -- finds.
  unfoldable pub walk : by_name.Cache → ℕ → Bytes → Bytes
  walk names zero d = d
  walk names (suc limit) d = elim (by_name.peek d names) [
    | none ↦ d
    | some r ↦ if text_eq r d then d else walk names limit r
  ]

  unfoldable pub reverse_lookup : IpAddr → Inner → Option Bytes × Inner
  reverse_lookup addr s =
      let (found, records') = by_addr.get addr s.records in
      let s' = record s { records = records' } in
      elim found [ none ↦ (none, s') | some d ↦ (some (walk s.cname_map 16 d), s') ]
