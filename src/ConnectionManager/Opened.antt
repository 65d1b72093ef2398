-- ===== src/ConnectionManager/Opened.antt =====
-- A new connection enters the table, with the books of the manager balanced.
use rabbit_digger.Address.{Address}
use rabbit_digger.Base.{ℕ, none, some, ◌≡◌, ◌≢◌, refl, ◌∙◌, arith, foldl, inl, inr, ℕ_discrete}
use rabbit_digger.Base.Assoc.{Distinct-insert, sum_values-insert_new}
use rabbit_digger.ConnectionManager.{
  ConnectionState, ConnectionInfo, Protocol, tcp, udp, find, put, new_info, keep_stopper,
  apply_event,
}
use rabbit_digger.ConnectionManager.Charged.{find-put_self, find-put_ne}
use rabbit_digger.ConnectionManager.Connection.{default_conn, event_type, sends, open_batches}
use rabbit_digger.ConnectionManager.Pending.{pending-default_conn}
use rabbit_digger.ConnectionManager.System.{Live, System, live_at, open_step, drained}
use rabbit_digger.ConnectionManager.Balanced.{live_down, live_up, Balanced, drained-post, batched}
use rabbit_digger.ConnectionManager.BalancedUpdate.{Booked-other, live-absent, live-present}

module _ {V : Type 0} where
  -- The table after the first batch of a connection.
  record Entered (uuid : ℕ) (s s' : ConnectionState V) : Type 0 where
    info : ConnectionInfo V
    found : find uuid s' ≡ some info
    no_download : info.download ≡ 0
    no_upload : info.upload ≡ 0
    total_down : s'.total_download ≡ s.total_download
    total_up : s'.total_upload ≡ s.total_upload
    others : (q : ℕ) → q ≢ uuid → find q s' ≡ find q s

  stopper-Entered :
      (uuid stopper : ℕ) (i : ConnectionInfo V) (s : ConnectionState V)
      → i.download ≡ 0
      → i.upload ≡ 0
      → Entered uuid s (keep_stopper uuid stopper (put uuid i s))
  unfolding keep_stopper
  stopper-Entered uuid stopper i s d u =
      rw (keep_stopper, find-put_self uuid i s)
        (record {
          info = record i { stop_sender = some stopper };
          found = find-put_self uuid _ (put uuid i s);
          no_download = d;
          no_upload = u;
          total_down = refl;
          total_up = refl;
          others = λ q n. find-put_ne uuid _ (put uuid i s) q n ∙ find-put_ne uuid i s q n;
        })

  open-Entered :
      (uuid time : ℕ) (p : Protocol) (addr : Address) (ctx : V) (stopper : ℕ)
      (s : ConnectionState V)
      → Entered uuid s (
          foldl
            (apply_event uuid time)
            s
            (batched (open_batches (default_conn p) addr ctx stopper)))
  unfolding open_batches sends event_type default_conn apply_event new_info
  open-Entered uuid time tcp addr ctx stopper s = stopper-Entered uuid stopper _ s refl refl
  open-Entered uuid time udp addr ctx stopper s = stopper-Entered uuid stopper _ s refl refl

  pub open_Step-Balanced :
      (s : System V) (uuid : ℕ) (p : Protocol) (addr : Address) (ctx : V) (stopper time : ℕ)
      → live_at uuid s ≡ none
      → Balanced s
      → Balanced (open_step uuid p addr ctx stopper time s)
  unfolding open_step
  open_Step-Balanced s uuid p addr ctx stopper time new inv =
      let batches = open_batches (default_conn p) addr ctx stopper in
      let fresh : Live = record { conn = default_conn p; moved_down = 0; moved_up = 0 } in
      let table = drained-post uuid time batches s in
      let entered = open-Entered uuid time p addr ctx stopper (drained s) in
      let (no_down, no_up) = pending-default_conn p in
      record {
        distinct = Distinct-insert ℕ_discrete uuid fresh s.live inv.distinct;
        absent = λ q e.
            let (n, gone) = live-absent s.live uuid fresh q e in
            rw table (entered.others q n ∙ inv.absent q gone);
        booked = λ q k e. rw table (elim (live-present s.live uuid fresh q k e) [
          | inl (same, kl) ↦
              rw (same, kl)
                (record {
                  info = entered.info;
                  found = entered.found;
                  down = omega (arith, entered.no_download, no_down);
                  up = omega (arith, entered.no_upload, no_up);
                })
          | inr (n, was) ↦ Booked-other (entered.others q n) (inv.booked q k was)
        ]);
        total_down = rw table (
            omega (
              arith,
              sum_values-insert_new ℕ_discrete live_down uuid fresh s.live new,
              entered.total_down,
              no_down,
              inv.total_down,
            ));
        total_up = rw table (
            omega (
              arith,
              sum_values-insert_new ℕ_discrete live_up uuid fresh s.live new,
              entered.total_up,
              no_up,
              inv.total_up,
            ));
      }
