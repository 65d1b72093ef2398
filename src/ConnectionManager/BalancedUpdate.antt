-- ===== src/ConnectionManager/BalancedUpdate.antt =====
-- A step of one open connection keeps the books of the manager balanced.
use mathlib.Core.List.{lookup}
use rabbit_digger.Base.{
  ℕ, ◌+◌, List, none, some, ◌≡◌, ◌≢◌, sym, ◌∙◌, arith, ◌⊎◌, inl, inr, ℕ_discrete,
}
use rabbit_digger.Base.Assoc.{
  insert, remove, lookup-insert_self, lookup-insert_ne, lookup-remove_self, lookup-remove_ne,
  Distinct-insert, Distinct-remove, sum_values-insert_old, sum_values-remove,
}
use rabbit_digger.ConnectionManager.{ConnectionState, find}
use rabbit_digger.ConnectionManager.Charged.{SameCount, Charged}
use rabbit_digger.ConnectionManager.System.{Live, System, live_at, drained}
use rabbit_digger.ConnectionManager.Balanced.{live_down, live_up, Booked, Balanced}

-- In a table of open connections where `uuid` now stands for `l'`, the others as before.
pub live-absent :
    (m : List (ℕ × Live)) (uuid : ℕ) (l' : Live) (q : ℕ)
    → lookup ℕ_discrete q (insert ℕ_discrete uuid l' m) ≡ none
    → (q ≢ uuid) × (lookup ℕ_discrete q m ≡ none)
live-absent m uuid l' q e = elim (ℕ_discrete q uuid) [
  | yes p ↦ absurd (cc (rw p at e, lookup-insert_self ℕ_discrete uuid l' m))
  | no n ↦ (n, sym (lookup-insert_ne ℕ_discrete uuid q l' m n) ∙ e)
]

pub live-present :
    (m : List (ℕ × Live)) (uuid : ℕ) (l' : Live) (q : ℕ) (k : Live)
    → lookup ℕ_discrete q (insert ℕ_discrete uuid l' m) ≡ some k
    → ((q ≡ uuid) × (k ≡ l')) ⊎ ((q ≢ uuid) × (lookup ℕ_discrete q m ≡ some k))
live-present m uuid l' q k e = elim (ℕ_discrete q uuid) [
  | yes p ↦ inl (p, cc (rw p at e, lookup-insert_self ℕ_discrete uuid l' m))
  | no n ↦ inr (n, sym (lookup-insert_ne ℕ_discrete uuid q l' m n) ∙ e)
]

module _ {V : Type 0} where
  pub Booked-other :
      {u : ℕ} {l : Live} {F F' : ConnectionState V}
      → find u F' ≡ find u F
      → Booked u l F
      → Booked u l F'
  Booked-other e b = record { info = b.info; found = e ∙ b.found; down = b.down; up = b.up }

  -- A step of one open connection that charges `d` and `p` bytes to the table while `x` and `y` more
  -- bytes are moved.
  module _ {s : System V} {uuid : ℕ} {l : Live} (inv : Balanced s)
      (here : live_at uuid s ≡ some l) where
    pub Balanced-update :
        {d p : ℕ} (x y : ℕ) (l' : Live) (t : System V)
        → t.live ≡ insert ℕ_discrete uuid l' s.live
        → Charged uuid d p (inv.booked uuid l here).info (drained s) (drained t)
        → SameCount (live_down l' + d) (live_down l + x)
        → SameCount (live_up l' + p) (live_up l + y)
        → l'.moved_down ≡ l.moved_down + x
        → l'.moved_up ≡ l.moved_up + y
        → t.all_down ≡ s.all_down + x
        → t.all_up ≡ s.all_up + y
        → Balanced t
    Balanced-update {d} {p} x y l' t tl c hd hp md mp ad ap' =
        let old = inv.booked uuid l here in
        let mine : Booked uuid l' (drained t) = record {
          info = c.after;
          found = c.found;
          down = omega (arith, c.download, old.down);
          up = omega (arith, c.upload, old.up);
        } in
        record {
          distinct = rw tl (Distinct-insert ℕ_discrete uuid l' s.live inv.distinct);
          absent = λ q e.
              let (n, gone) = live-absent s.live uuid l' q (rw tl at e) in
              c.others q n ∙ inv.absent q gone;
          booked = λ q k e. elim (live-present s.live uuid l' q k (rw tl at e)) [
            | inl (p, kl) ↦ rw (p, kl) mine
            | inr (n, was) ↦ Booked-other (c.others q n) (inv.booked q k was)
          ];
          total_down = rw tl (
              omega (
                arith,
                sum_values-insert_old ℕ_discrete live_down uuid l' l s.live here,
                c.total_down,
                inv.total_down,
              ));
          total_up = rw tl (
              omega (
                arith,
                sum_values-insert_old ℕ_discrete live_up uuid l' l s.live here,
                c.total_up,
                inv.total_up,
              ));
        }

    -- The connection is closed after a last report of all that was pending.
    pub Balanced-remove :
        {d p : ℕ} {G : ConnectionState V}
        → d ≡ live_down l
        → p ≡ live_up l
        → Charged uuid d p (inv.booked uuid l here).info (drained s) G
        → (t : System V) → t.live ≡ remove ℕ_discrete uuid s.live
        → drained t ≡ record G { connections = remove ℕ_discrete uuid G.connections }
        → t.all_down ≡ s.all_down
        → t.all_up ≡ s.all_up
        → Balanced t
    Balanced-remove {d} {p} {G} hd hp c t tl closed ad au = record {
      distinct = rw tl (Distinct-remove ℕ_discrete uuid s.live inv.distinct);
      absent = λ q e. elim (ℕ_discrete q uuid) [
        | yes same ↦ rw (closed, same) (lookup-remove_self ℕ_discrete uuid G.connections)
        | no n ↦ rw closed (
            lookup-remove_ne ℕ_discrete uuid q G.connections n
            ∙ c.others q n
            ∙ inv.absent q (sym (lookup-remove_ne ℕ_discrete uuid q s.live n) ∙ (rw tl at e)))
      ];
      booked = λ q k e. elim (ℕ_discrete q uuid) [
        | yes same ↦ absurd (cc (rw (tl, same) at e, lookup-remove_self ℕ_discrete uuid s.live))
        | no n ↦
            Booked-other
              (rw closed (lookup-remove_ne ℕ_discrete uuid q G.connections n ∙ c.others q n))
              (inv.booked q k (sym (lookup-remove_ne ℕ_discrete uuid q s.live n) ∙ (rw tl at e)))
      ];
      total_down =
          rw (tl, closed)
            (omega (
              arith,
              sum_values-remove ℕ_discrete live_down uuid l s.live inv.distinct here,
              c.total_down,
              inv.total_down,
            ));
      total_up =
          rw (tl, closed)
            (omega (
              arith,
              sum_values-remove ℕ_discrete live_up uuid l s.live inv.distinct here,
              c.total_up,
              inv.total_up,
            ));
    }
