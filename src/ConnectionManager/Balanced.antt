-- ===== src/ConnectionManager/Balanced.antt =====
-- What it means that the books of the manager balance, and the table after a batch of events.
use mathlib.Core.List.{foldl-append}
use rabbit_digger.Base.{
  ℕ, ◌+◌, List, [], ◌∷◌, ◌++◌, none, some, ◌≡◌, refl, sym, ◌∙◌, map, foldl, ℕ_discrete, append-nil,
  append_assoc,
}
use rabbit_digger.Base.Assoc.{Distinct, sum_values}
use rabbit_digger.ConnectionManager.{
  EventType, ConnectionState, ConnectionInfo, find, apply_event, input_event, recv_event,
}
use rabbit_digger.ConnectionManager.Charged.{SameCount}
use rabbit_digger.ConnectionManager.Connection.{sends}
use rabbit_digger.ConnectionManager.Pending.{pending_down, pending_up}
use rabbit_digger.ConnectionManager.System.{Live, System, stamp, post, live_at, drained}

abbrev pub live_down : Live → ℕ
live_down l = pending_down l.conn

abbrev pub live_up : Live → ℕ
live_up l = pending_up l.conn

module _ {V : Type 0} where
  -- An open connection is in the table, which holds what it has moved but for what it has yet to
  -- report.
  pub record Booked (uuid : ℕ) (l : Live) (s : ConnectionState V) : Type 0 where
    pub info : ConnectionInfo V
    pub found : find uuid s ≡ some info
    pub down : SameCount (info.download + live_down l) l.moved_down
    pub up : SameCount (info.upload + live_up l) l.moved_up

  -- The table, once drained, lists the open connections and no others, each with its bytes; the
  -- totals are all the bytes ever moved, by open and by closed connections, but for those that open
  -- connections have yet to report.
  pub record Balanced (s : System V) : Type 0 where
    pub distinct : Distinct ℕ_discrete s.live
    pub absent : (u : ℕ) → live_at u s ≡ none → find u (drained s) ≡ none
    pub booked : (u : ℕ) (l : Live) → live_at u s ≡ some l → Booked u l (drained s)
    pub total_down : SameCount ((drained s).total_download + sum_values live_down s.live) s.all_down
    pub total_up : SameCount ((drained s).total_upload + sum_values live_up s.live) s.all_up

  abbrev pub batched : List (List (EventType V)) → List (EventType V)
  batched [] = []
  batched (es ∷ bs) = es ++ batched bs

  batches-batched :
      (u time : ℕ) (bs : List (List (EventType V))) (s : ConnectionState V)
      → recv_event s (map (stamp u time) bs) ≡ foldl (apply_event u time) s (batched bs)
  unfolding recv_event input_event
  batches-batched u time [] s = refl
  batches-batched u time (es ∷ bs) s =
      batches-batched u time bs (foldl (apply_event u time) s es)
      ∙ sym (foldl-append (apply_event u time) s es (batched bs))

  pub drained-post :
      (u time : ℕ) (bs : List (List (EventType V))) (s : System V)
      → drained (post u time bs s) ≡ foldl (apply_event u time) (drained s) (batched bs)
  unfolding recv_event
  drained-post u time bs s =
      foldl-append input_event s.state s.channel (map (stamp u time) bs)
      ∙ batches-batched u time bs (drained s)

  pub batched-sends : (es : List (EventType V)) → batched (sends es) ≡ es
  unfolding sends
  batched-sends [] = refl
  batched-sends (e ∷ es) = append-nil (e ∷ es)

  pub batched-append :
      (cs bs : List (List (EventType V))) → batched (cs ++ bs) ≡ batched cs ++ batched bs
  batched-append [] bs = refl
  batched-append (a ∷ cs) bs = simp (batched-append cs bs, append_assoc)
