-- ===== src/ConnectTcp/Turns.antt =====
-- What one turn of the loop of rd-std/src/context/connect_tcp.rs brings forward.
use rabbit_digger.Base.{
  Bytes, ℕ, suc, ◌-◌, ◌≤◌, ◌<◌, ◌++◌, [], ◌∷◌, none, some, Bool, true, false, ◌&&◌, not, ◌==◌,
  length, ◌≡◌, ◌≢◌, refl, sym, ap, ◌∙◌, ◌⊎◌, inl, inr, arith, Bool-cases, Option-cases,
  length-append,
}
use rabbit_digger.Base.Io.{Poll, pending, done, failed, Poll-cases, Stream}
use rabbit_digger.ConnectTcp.{
  CopyBuffer, Copied, out_of_fuel, Copy, Part, flush_answer, flush_if, take_in, read_answer,
  read_if, read_in, write_out, finish_answer, finish_if, finish, and_then, round,
}
use rabbit_digger.ConnectTcp.Invariant.{Good}
use rabbit_digger.ConnectTcp.Reading.{read_in-Kept}
use rabbit_digger.ConnectTcp.Wrote.{Wrote, write_out-Wrote}

module _ (reader writer : Stream) where
  -- When the first part goes on: there was something in the buffer or the end was seen before, or the
  -- end is seen now, or bytes were read.
  record Read (s : Copy reader writer) (p : Part reader writer) : Type 0 where
    in_fuel : p.0 ≢ some out_of_fuel
    shrinks : length (reader.incoming p.1.r) ≤ length (reader.incoming s.r)
    progress :
        p.0 ≡ none
        → s.c.pos ≡ s.c.cap
        → s.c.read_done ≡ false
        → (p.1.c.read_done ≡ true) ⊎ (length (reader.incoming p.1.r) < length (reader.incoming s.r))

  -- An answer that ends the poll and leaves the reader alone.
  record Paused (s : Copy reader writer) (p : Part reader writer) : Type 0 where
    stops : p.0 ≢ none
    in_fuel : p.0 ≢ some out_of_fuel
    same_reader : p.1.r ≡ s.r

  flush_answer-Paused :
      (p : Poll Unit) (s : Copy reader writer) → Paused s (flush_answer reader writer p s)
  unfolding flush_answer
  flush_answer-Paused pending s = record { stops = λ e. cc; in_fuel = λ e. cc; same_reader = refl }
  flush_answer-Paused (failed x) s = record {
    stops = λ e. cc;
    in_fuel = λ e. cc;
    same_reader = refl;
  }
  flush_answer-Paused (done u) s = record { stops = λ e. cc; in_fuel = λ e. cc; same_reader = refl }

  flush_if-Paused : (b : Bool) (s : Copy reader writer) → Paused s (flush_if reader writer b s)
  unfolding flush_if
  flush_if-Paused false s = record { stops = λ e. cc; in_fuel = λ e. cc; same_reader = refl }
  flush_if-Paused true s =
      let k =
        flush_answer-Paused (writer.poll_flush s.w).0
          (record s { w = (writer.poll_flush s.w).1 }) in
      record { stops = k.stops; in_fuel = k.in_fuel; same_reader = k.same_reader }

  take_in-Read :
      (b : Bytes) (s : Copy reader writer) (r : reader.T)
      → reader.incoming s.r ≡ b ++ reader.incoming r
      → Read s (take_in reader writer b (record s { r = r }))
  unfolding take_in
  take_in-Read [] s r i = record {
    in_fuel = λ e. cc;
    shrinks = let l = ap length i in omega arith;
    progress = λ e h d. inl refl;
  }
  take_in-Read (x ∷ b) s r i =
      let l = ap length i in
      let more = length-append (x ∷ b) (reader.incoming r) in
      record { in_fuel = λ e. cc; shrinks = omega arith; progress = λ e h d. inr (omega arith) }

  read_answer-Read :
      (n : ℕ) (s : Copy reader writer)
      → Read s (
          read_answer reader writer
            (reader.poll_read n s.r).0
            (record s { r = (reader.poll_read n s.r).1 }))
  unfolding read_answer
  read_answer-Read n s =
      let t : Copy reader writer = record s { r = (reader.poll_read n s.r).1 } in
      elim (Poll-cases (reader.poll_read n s.r).0) [
        | inl q ↦
            let stays = reader.read_waits n s.r (λ b h. cc (q, h)) in
            let k = flush_if-Paused t.c.need_flush t in
            let l = ap (λ x. length (reader.incoming x)) k.same_reader in
            let l' = ap length stays in
            rw q (record {
              in_fuel = k.in_fuel;
              shrinks = omega arith;
              progress = λ e. absurd (k.stops e);
            })
        | inr (inl (x, q)) ↦
            let l' = ap length (reader.read_waits n s.r (λ b h. cc (q, h))) in
            rw q (record { in_fuel = λ e. cc; shrinks = omega arith; progress = λ e. cc })
        | inr (inr (b, q)) ↦
            rw q (take_in-Read b s (reader.poll_read n s.r).1 (reader.read-incoming n s.r q).0)
      ]

  read_in-Read : (s : Copy reader writer) → Read s (read_in reader writer s)
  unfolding read_in read_if
  read_in-Read s = elim (Bool-cases ((s.c.pos == s.c.cap) && not s.c.read_done)) [
    | inr full ↦
        rw full
          (record { in_fuel = λ e. cc; shrinks = omega arith; progress = λ e p d. ground arith })
    | inl empty ↦ rw empty (read_answer-Read (length s.c.buf) s)
  ]

  and_then-some :
      {o : Copied} (p : Part reader writer) (f : Copy reader writer → Part reader writer)
      → p.0 ≡ some o
      → and_then reader writer p f ≡ p
  unfolding and_then
  and_then-some (some x, s) f e = refl
  and_then-some (none, s) f e = cc

  and_then-none :
      (p : Part reader writer) (f : Copy reader writer → Part reader writer)
      → p.0 ≡ none
      → and_then reader writer p f ≡ f p.1
  unfolding and_then
  and_then-none (none, s) f e = refl
  and_then-none (some x, s) f e = cc

  -- The last part of the loop ends the poll, unless there is more to read.
  record Ended (s : Copy reader writer) (p : Part reader writer) : Type 0 where
    in_fuel : p.0 ≢ some out_of_fuel
    goes_on : p.0 ≡ none → (p.1 ≡ s) × (((s.c.pos == s.c.cap) && s.c.read_done) ≡ false)

  finish_answer-stops :
      (p : Poll Unit) (s : Copy reader writer)
      → ((finish_answer reader writer p s).0 ≢ none)
        × ((finish_answer reader writer p s).0 ≢ some out_of_fuel)
  unfolding finish_answer
  finish_answer-stops pending s = (λ e. cc, λ e. cc)
  finish_answer-stops (failed x) s = (λ e. cc, λ e. cc)
  finish_answer-stops (done u) s = (λ e. cc, λ e. cc)

  finish-Ended : (s : Copy reader writer) → Ended s (finish reader writer s)
  unfolding finish finish_if
  finish-Ended s = elim (Bool-cases ((s.c.pos == s.c.cap) && s.c.read_done)) [
    | inr more ↦ rw more (record { in_fuel = λ e. cc; goes_on = λ e. (refl, more) })
    | inl all ↦
        let (stops, in_fuel) =
          finish_answer-stops (writer.poll_flush s.w).0
            (record s { w = (writer.poll_flush s.w).1 }) in
        rw all (record { in_fuel = in_fuel; goes_on = λ e. absurd (stops e) })
  ]

  -- Once through the loop: if it goes on, the buffer is empty and the end of the stream not yet seen;
  -- and if it began so, bytes were read.
  pub record Turn (s : Copy reader writer) (p : Part reader writer) : Type 0 where
    pub in_fuel : p.0 ≢ some out_of_fuel
    pub empty : p.0 ≡ none → (p.1.c.pos ≡ p.1.c.cap) × (p.1.c.read_done ≡ false)
    pub shrinks : p.0 ≡ none → length (reader.incoming p.1.r) ≤ length (reader.incoming s.r)
    pub progress :
        p.0 ≡ none
        → s.c.pos ≡ s.c.cap
        → s.c.read_done ≡ false
        → length (reader.incoming p.1.r) < length (reader.incoming s.r)

  read_done_false :
      (c : CopyBuffer)
      → c.pos ≡ c.cap
      → ((c.pos == c.cap) && c.read_done) ≡ false
      → c.read_done ≡ false
  read_done_false c e h = ground arith

  rest-Turn :
      (s : Copy reader writer) (q : Part reader writer)
      (go : Copy reader writer → Part reader writer)
      → Read s q
      → q.0 ≡ none
      → Wrote reader writer q.1 (go q.1)
      → Turn s (and_then reader writer (go q.1) (finish reader writer))
  rest-Turn s q go k e w = elim (Option-cases (go q.1).0) [
    | inr (o, z) ↦ rw (and_then-some (go q.1) (finish reader writer) z) (record {
      in_fuel = w.in_fuel;
      empty = λ n. cc (z, n);
      shrinks = λ n. cc (z, n);
      progress = λ n. cc (z, n);
    })
    | inl z ↦
        let u = (go q.1).1 in
        let f = finish-Ended u in
        let same_reader = ap (λ x. length (reader.incoming x)) w.same_reader in
        rw (and_then-none (go q.1) (finish reader writer) z) (record {
          in_fuel = f.in_fuel;
          empty = λ n.
              let (same, test) = f.goes_on n in
              (
                ap (λ x. x.c.pos) same ∙ w.empty z ∙ sym (ap (λ x. x.c.cap) same),
                ap (λ x. x.c.read_done) same ∙ read_done_false u.c (w.empty z) test,
              );
          shrinks = λ n.
              let (same, test) = f.goes_on n in
              let l = ap (λ x. length (reader.incoming x.r)) same in
              let h = k.shrinks in omega arith;
          progress = λ n h d.
              let (same, test) = f.goes_on n in
              let l = ap (λ x. length (reader.incoming x.r)) same in
              elim (k.progress e h d) [
                | inl ended ↦ cc (sym w.same_end ∙ read_done_false u.c (w.empty z) test, ended)
                | inr less ↦ omega arith
              ];
        })
  ]

  pub round-Turn :
      (s : Copy reader writer) → Good reader writer s.c s.r → Turn s (round reader writer s)
  unfolding round
  round-Turn s g =
      let q = read_in reader writer s in
      let k = read_in-Read s in
      let go : Copy reader writer → Part reader writer =
        λ t. write_out reader writer (suc (t.c.cap - t.c.pos)) t in
      elim (Option-cases q.0) [
        | inr (o, e) ↦
            rw (and_then-some q go e, and_then-some q (finish reader writer) e)
              (record {
                in_fuel = k.in_fuel;
                empty = λ z. cc (e, z);
                shrinks = λ z. k.shrinks;
                progress = λ z. cc (e, z);
              })
        | inl e ↦ rw (and_then-none q go e) (
            rest-Turn s q go k e (
              write_out-Wrote reader writer (suc (q.1.c.cap - q.1.c.pos)) q.1
                (read_in-Kept reader writer s g).good (omega arith)))
      ]
