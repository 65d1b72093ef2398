-- ===== src/ConnectTcp/Both/Transfer.antt =====
-- What one direction of rd-std/src/context/connect_tcp.rs delivers.
use rabbit_digger.Base.{Bytes, ℕ, [], ◌++◌, append-nil, ◌≡◌, ◌≢◌, refl, sym, ap, ◌∙◌}
use rabbit_digger.Base.Io.{Poll, pending, done, failed, Stream}
use rabbit_digger.ConnectTcp.{
  Copied, waits, finished, fails, panicked, out_of_fuel, Copy, poll_copy,
}
use rabbit_digger.ConnectTcp.Both.{
  TransferState, running, shutting_down, ended, Direction, shutdown_answer, shut_down, after_copy,
  transfer,
}
use rabbit_digger.ConnectTcp.Invariant.{Good, unsent, total}
use rabbit_digger.ConnectTcp.Delivered.{Delivers, poll_copy-Delivers}
use rabbit_digger.ConnectTcp.Stable.{poll_copy-Holds}

module _ (reader writer : Stream) where
  -- A running direction has a good buffer, and one that is past that has nothing left to read.
  abbrev pub StateGood : TransferState → reader.T → Type 0
  StateGood (running c) r = Good reader writer c r
  StateGood (shutting_down n) r = reader.incoming r ≡ []
  StateGood (ended n) r = reader.incoming r ≡ []

  -- The bytes between the two streams.
  abbrev pub on_the_way : TransferState → Bytes
  on_the_way (running c) = unsent reader writer c
  on_the_way (shutting_down n) = []
  on_the_way (ended n) = []

  abbrev pub all_bytes : TransferState → reader.T → writer.T → Bytes
  all_bytes t r w = writer.written w ++ (on_the_way t ++ reader.incoming r)

  pub record Transferred (all : Bytes) (back_read : Bytes) (back_written : Bytes)
      (p : Copied × Direction reader writer) : Type 0 where
    pub good : StateGood p.1.state p.1.r
    pub same : all_bytes p.1.state p.1.r p.1.w ≡ all
    pub no_panic : p.0 ≢ panicked
    pub complete : {n : ℕ} → p.0 ≡ finished n → writer.written p.1.w ≡ all
    pub same_incoming : writer.incoming p.1.w ≡ back_read
    pub same_written : reader.written p.1.r ≡ back_written

  nothing_left :
      (r : reader.T) (w : writer.T)
      → reader.incoming r ≡ []
      → writer.written w ++ reader.incoming r ≡ writer.written w
  nothing_left r w e = ap (λ x. writer.written w ++ x) e ∙ append-nil (writer.written w)

  shutdown_answer-Transferred :
      (p : Poll Unit) (n : ℕ) (r : reader.T) (w : writer.T)
      → reader.incoming r ≡ []
      → Transferred
          (writer.written w)
          (writer.incoming w)
          (reader.written r)
          (shutdown_answer reader writer p n (record { state = shutting_down n; r = r; w = w }))
  unfolding shutdown_answer
  shutdown_answer-Transferred pending n r w e = record {
    good = e;
    same = nothing_left r w e;
    no_panic = λ q. cc;
    complete = λ q. refl;
    same_incoming = refl;
    same_written = refl;
  }
  shutdown_answer-Transferred (failed x) n r w e = record {
    good = e;
    same = nothing_left r w e;
    no_panic = λ q. cc;
    complete = λ q. refl;
    same_incoming = refl;
    same_written = refl;
  }
  shutdown_answer-Transferred (done u) n r w e = record {
    good = e;
    same = nothing_left r w e;
    no_panic = λ q. cc;
    complete = λ q. refl;
    same_incoming = refl;
    same_written = refl;
  }

  shut_down-Transferred :
      (n : ℕ) (r : reader.T) (w : writer.T) {all : Bytes} {back_read : Bytes} {back_written : Bytes}
      → reader.incoming r ≡ []
      → writer.written w ≡ all
      → writer.incoming w ≡ back_read
      → reader.written r ≡ back_written
      → Transferred all back_read back_written (shut_down reader writer n r w)
  unfolding shut_down
  shut_down-Transferred n r w e a i o =
      let w' = (writer.poll_shutdown w).1 in
      let k = shutdown_answer-Transferred (writer.poll_shutdown w).0 n r w' e in
      let kept = writer.shutdown-written w ∙ a in
      record {
        good = k.good;
        same = k.same ∙ kept;
        no_panic = k.no_panic;
        complete = λ q. k.complete q ∙ kept;
        same_incoming = k.same_incoming ∙ writer.shutdown-incoming w ∙ i;
        same_written = k.same_written ∙ o;
      }

  after_copy-Transferred :
      {back_read : Bytes} {back_written : Bytes} (s : Copy reader writer)
      (p : Copied × Copy reader writer)
      → Delivers reader writer s p
      → writer.incoming p.1.w ≡ back_read
      → reader.written p.1.r ≡ back_written
      → Transferred (total reader writer s) back_read back_written (after_copy reader writer p)
  unfolding after_copy
  after_copy-Transferred s (finished n, t) d i o =
      let (e, a) = d.complete refl in shut_down-Transferred n t.r t.w e a i o
  after_copy-Transferred s (panicked, t) d i o = absurd (d.no_panic refl)
  after_copy-Transferred s (waits, t) d i o = record {
    good = d.good;
    same = d.same;
    no_panic = λ q. cc;
    complete = λ q. cc;
    same_incoming = i;
    same_written = o;
  }
  after_copy-Transferred s (fails x, t) d i o = record {
    good = d.good;
    same = d.same;
    no_panic = λ q. cc;
    complete = λ q. cc;
    same_incoming = i;
    same_written = o;
  }
  after_copy-Transferred s (out_of_fuel, t) d i o = record {
    good = d.good;
    same = d.same;
    no_panic = λ q. cc;
    complete = λ q. cc;
    same_incoming = i;
    same_written = o;
  }

  pub transfer-Transferred :
      (fuel : ℕ) (t : TransferState) (r : reader.T) (w : writer.T)
      → StateGood t r
      → Transferred
          (all_bytes t r w)
          (writer.incoming w)
          (reader.written r)
          (transfer reader writer fuel t r w)
  unfolding transfer
  transfer-Transferred fuel (running c) r w g =
      let s : Copy reader writer = record { c = c; r = r; w = w } in
      let (i, o) =
        poll_copy-Holds reader writer
          (λ x y. (writer.incoming y ≡ writer.incoming w) × (reader.written x ≡ reader.written r))
          (λ n x y (i, o). (i, reader.read-written n x ∙ o))
          (λ b x y (i, o). (writer.write-incoming b y ∙ i, o))
          (λ x y (i, o). (writer.flush-incoming y ∙ i, o)) fuel s (refl, refl) in
      after_copy-Transferred s (poll_copy reader writer fuel s)
        (poll_copy-Delivers reader writer fuel s g) i o
  transfer-Transferred fuel (shutting_down n) r w g =
      shut_down-Transferred n r w g (sym (nothing_left r w g)) refl refl
  transfer-Transferred fuel (ended n) r w g = record {
    good = g;
    same = refl;
    no_panic = λ q. cc;
    complete = λ q. sym (nothing_left r w g);
    same_incoming = refl;
    same_written = refl;
  }

  pub StateGood-same :
      (t : TransferState) (r r' : reader.T)
      → reader.incoming r' ≡ reader.incoming r
      → StateGood t r
      → StateGood t r'
  StateGood-same (running c) r r' e g = record {
    ordered = g.ordered;
    inside = g.inside;
    roomy = g.roomy;
    ended = λ d. e ∙ g.ended d;
  }
  StateGood-same (shutting_down n) r r' e g = e ∙ g
  StateGood-same (ended n) r r' e g = e ∙ g

  pub all_bytes-same :
      (t : TransferState) {r r' : reader.T} {w w' : writer.T}
      → reader.incoming r' ≡ reader.incoming r
      → writer.written w' ≡ writer.written w
      → all_bytes t r' w' ≡ all_bytes t r w
  all_bytes-same t {r} {r'} {w} {w'} e f =
      ap (λ x. x ++ (on_the_way t ++ reader.incoming r')) f
      ∙ ap (λ x. writer.written w ++ (on_the_way t ++ x)) e
