-- ===== src/ConnectionManager/Accounting.antt =====
-- The books of the manager balance in every reachable state, whatever the interleaving.
use mathlib.Core.List.{lookup, foldl-append}
use rabbit_digger.Address.{Address}
use rabbit_digger.Base.{
  ℕ, ◌+◌, List, [], ◌∷◌, ◌++◌, some, ◌≡◌, refl, ap, ◌∙◌, arith, foldl, Bool, true, false,
  ℕ_discrete,
}
use rabbit_digger.Base.Assoc.{remove, sum_values}
use rabbit_digger.ConnectionManager.{close_connection, Event, apply_event, input_event, recv_event}
use rabbit_digger.ConnectionManager.Charged.{
  Charged, Charged-none, report-Charged, AllCounts, downs, ups,
}
use rabbit_digger.ConnectionManager.Connection.{ConnType, get_events, sends, poll, drop_batches}
use rabbit_digger.ConnectionManager.Pending.{
  pending_down, pending_up, pending-count_in, pending-count_out, get_events-Reports,
}
use rabbit_digger.ConnectionManager.System.{
  Live, System, initial, post, live_at, in_step, out_step, poll_step, drop_step, Step, opens,
  receives, transmits, polls, drops, delivers, Reach, start, next, drained,
}
use rabbit_digger.ConnectionManager.Balanced.{
  Balanced, drained-post, batched, batched-sends, batched-append,
}
use rabbit_digger.ConnectionManager.Opened.{open_Step-Balanced}
use rabbit_digger.ConnectionManager.BalancedUpdate.{Balanced-update, Balanced-remove}

-- What a poll leaves pending and what it reports make up what was pending before.
record PollReports (V : Type 0) (seen heartbeat stopped : Bool) (c : ConnType) : Type 0 where
  counts : AllCounts (batched (poll {V = V} seen heartbeat stopped c).batches)
  down :
      pending_down (poll {V = V} seen heartbeat stopped c).conn
        + downs (batched (poll {V = V} seen heartbeat stopped c).batches)
      ≡ pending_down c
  up :
      pending_up (poll {V = V} seen heartbeat stopped c).conn
        + ups (batched (poll {V = V} seen heartbeat stopped c).batches)
      ≡ pending_up c

module _ {V : Type 0} where
  in_Step-Balanced :
      (s : System V) (uuid : ℕ) (l : Live) (addr : Address) (size : ℕ)
      → live_at uuid s ≡ some l
      → Balanced s
      → Balanced (in_step uuid l addr size s)
  unfolding in_step
  in_Step-Balanced s uuid l addr size here inv =
      let (counted, same) = pending-count_in l.conn addr size in
      Balanced-update inv here size 0 _ _ refl (Charged-none (inv.booked uuid l here).found)
        (omega arith) (omega arith) refl (omega arith) refl (omega arith)

  out_Step-Balanced :
      (s : System V) (uuid : ℕ) (l : Live) (addr : Address) (size : ℕ)
      → live_at uuid s ≡ some l
      → Balanced s
      → Balanced (out_step uuid l addr size s)
  unfolding out_step
  out_Step-Balanced s uuid l addr size here inv =
      let (counted, same) = pending-count_out l.conn addr size in
      Balanced-update inv here 0 size _ _ refl (Charged-none (inv.booked uuid l here).found)
        (omega arith) (omega arith) (omega arith) refl (omega arith) refl

  poll-PollReports :
      (seen heartbeat stopped : Bool) (c : ConnType) → PollReports V seen heartbeat stopped c
  unfolding poll
  poll-PollReports seen false stopped c = record {
    counts = tt;
    down = omega arith;
    up = omega arith;
  }
  poll-PollReports seen true stopped c =
      let r = get_events-Reports {V = V} c in
      let e = batched-sends (get_events {V = V} c).0 in
      record {
        counts = rw e r.counts;
        down = rw e (omega (arith, r.down, r.down_left));
        up = rw e (omega (arith, r.up, r.up_left));
      }

  poll_Step-Balanced :
      (s : System V) (uuid : ℕ) (l : Live) (seen heartbeat stopped : Bool) (time : ℕ)
      → live_at uuid s ≡ some l
      → Balanced s
      → Balanced (poll_step uuid l seen heartbeat stopped time s)
  unfolding poll_step
  poll_Step-Balanced s uuid l seen heartbeat stopped time here inv =
      let r = poll-PollReports seen heartbeat stopped l.conn in
      let p = poll {V = V} seen heartbeat stopped l.conn in
      let kept = record l { conn = p.conn } in
      let charged : Charged uuid (downs (batched p.batches)) (ups (batched p.batches))
          (inv.booked uuid l here).info (drained s)
          (foldl (apply_event uuid time) (drained s) (batched p.batches)) =
        report-Charged (batched p.batches) time (inv.booked uuid l here).found r.counts in
      Balanced-update inv here {d = downs (batched p.batches)} {p = ups (batched p.batches)} 0 0
        kept _ refl (rw (drained-post uuid time p.batches s) charged) (omega (arith, r.down))
        (omega (arith, r.up)) (omega arith) (omega arith) (omega arith) (omega arith)

  drained-drop :
      (uuid time : ℕ) (c : ConnType) (s : System V)
      → drained (post uuid time (drop_batches c) s)
        ≡ record (foldl (apply_event uuid time) (drained s) (get_events {V = V} c).0) {
          connections =
              remove ℕ_discrete uuid
                (foldl (apply_event uuid time) (drained s) (get_events {V = V} c).0).connections;
        }
  unfolding drop_batches apply_event
  drained-drop uuid time c s =
      let es = (get_events {V = V} c).0 in
      drained-post uuid time (drop_batches c) s
      ∙ ap (foldl (apply_event uuid time) (drained s)) {y = es ++ close_connection ∷ []} (
          batched-append (sends es) (sends (close_connection ∷ []))
          ∙ rw (batched-sends es, batched-sends))
      ∙ foldl-append (apply_event uuid time) (drained s) es (close_connection ∷ [])

  -- The closing event takes its connection out of the table and changes nothing else.
  drop_Step-Balanced :
      (s : System V) (uuid : ℕ) (l : Live) (time : ℕ)
      → live_at uuid s ≡ some l
      → Balanced s
      → Balanced (drop_step uuid l time s)
  unfolding drop_step
  drop_Step-Balanced s uuid l time here inv =
      let r = get_events-Reports {V = V} l.conn in
      let charged =
        report-Charged (get_events {V = V} l.conn).0 time (inv.booked uuid l here).found r.counts in
      Balanced-remove inv here r.down r.up charged _ refl (drained-drop uuid time l.conn s) refl
        refl

  delivers-Balanced :
      (s : System V) (e : Event V) (rest : List (Event V))
      → s.channel ≡ e ∷ rest
      → Balanced s
      → Balanced (record s { state = input_event s.state e; channel = rest })
  unfolding recv_event
  delivers-Balanced s e rest c inv =
      let same : drained s ≡ recv_event (input_event s.state e) rest = ap (recv_event s.state) c in
      record {
        distinct = inv.distinct;
        absent = λ q gone. rw (← same) (inv.absent q gone);
        booked = λ q l found. rw (← same) (inv.booked q l found);
        total_down = rw (← same) inv.total_down;
        total_up = rw (← same) inv.total_up;
      }

  Step-Balanced : {s t : System V} → Step s t → Balanced s → Balanced t
  Step-Balanced (opens s uuid p addr ctx stopper time new) inv =
      open_Step-Balanced s uuid p addr ctx stopper time new inv
  Step-Balanced (receives s uuid l addr size here) inv =
      in_Step-Balanced s uuid l addr size here inv
  Step-Balanced (transmits s uuid l addr size here) inv =
      out_Step-Balanced s uuid l addr size here inv
  Step-Balanced (polls s uuid l seen heartbeat stopped time here) inv =
      poll_Step-Balanced s uuid l seen heartbeat stopped time here inv
  Step-Balanced (drops s uuid l time here) inv = drop_Step-Balanced s uuid l time here inv
  Step-Balanced (delivers s e rest c) inv = delivers-Balanced s e rest c inv

  initial-Balanced : Balanced (initial {V = V})
  unfolding recv_event sum_values lookup
  initial-Balanced = record {
    distinct = tt;
    absent = λ u e. refl;
    booked = λ u l e. ground arith;
    total_down = refl;
    total_up = refl;
  }

  -- In every reachable state the books balance: once the channel is drained, the table lists the
  -- open connections and no others, each with the bytes that it has moved but for those it has yet
  -- to report, and the totals are all the bytes that open and closed connections ever moved, but
  -- for those that open ones have yet to report; every count is modulo 2 ^ 64.
  pub Reach-Balanced : {s : System V} → Reach s → Balanced s
  Reach-Balanced start = initial-Balanced
  Reach-Balanced (next r st) = Step-Balanced st (Reach-Balanced r)
