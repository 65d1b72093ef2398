-- ===== src/ConnectTcp/Wrote.antt =====
-- That the inner loop of rd-std/src/context/connect_tcp.rs comes to an end.
use rabbit_digger.Base.{
  ℕ, zero, suc, ◌-◌, ◌<◌, none, some, ltb, ◌≡◌, ◌≢◌, refl, inl, inr, arith, Bool-cases,
}
use rabbit_digger.Base.Io.{Poll-cases, Stream}
use rabbit_digger.ConnectTcp.{out_of_fuel, Copy, Part, advance, write_next, write_out}
use rabbit_digger.ConnectTcp.Invariant.{Good, unsent, at_range_inside}
use rabbit_digger.ConnectTcp.Writing.{within, advance-Good}

module _ (reader writer : Stream) where
  -- The inner loop leaves the reader alone, and when it goes on, the buffer is empty.
  pub record Wrote (s : Copy reader writer) (p : Part reader writer) : Type 0 where
    pub same_reader : p.1.r ≡ s.r
    pub same_end : p.1.c.read_done ≡ s.c.read_done
    pub empty : p.0 ≡ none → p.1.c.pos ≡ p.1.c.cap
    pub in_fuel : p.0 ≢ some out_of_fuel

  write_next-Wrote :
      (go : Copy reader writer → Part reader writer) (i : ℕ) (s : Copy reader writer)
      → ((j : ℕ) → i ≡ suc j → Wrote (advance reader writer i s) (go (advance reader writer i s)))
      → Wrote s (write_next reader writer go i s)
  unfolding write_next advance
  write_next-Wrote go zero s h = record {
    same_reader = refl;
    same_end = refl;
    empty = λ e. cc;
    in_fuel = λ e. cc;
  }
  write_next-Wrote go (suc i) s h =
      let k = h i refl in
      record {
        same_reader = k.same_reader;
        same_end = k.same_end;
        empty = k.empty;
        in_fuel = k.in_fuel;
      }

  -- A write takes at least one byte, so the inner loop runs at most once for each byte in the buffer.
  pub write_out-Wrote :
      (fuel : ℕ) (s : Copy reader writer)
      → Good reader writer s.c s.r
      → s.c.cap - s.c.pos < fuel
      → Wrote s (write_out reader writer fuel s)
  unfolding write_out advance
  write_out-Wrote zero s g f = absurd (omega arith)
  write_out-Wrote (suc fuel) s g f = elim (Bool-cases (ltb s.c.pos s.c.cap)) [
    | inr all ↦
        let o = g.ordered in
        rw (write_out, all)
          (record {
            same_reader = refl;
            same_end = refl;
            empty = λ e. ground arith;
            in_fuel = λ e. cc;
          })
    | inl more ↦
        let range = at_range_inside reader writer s.c.pos s.c.cap s.c.buf g.ordered g.inside in
        let w' = (writer.poll_write (unsent reader writer s.c) s.w).1 in
        elim (Poll-cases (writer.poll_write (unsent reader writer s.c) s.w).0) [
          | inl q ↦
              rw (write_out, more, range, q)
                (record { same_reader = refl; same_end = refl; empty = λ e. cc; in_fuel = λ e. cc })
          | inr (inl (x, q)) ↦
              rw (write_out, more, range, q)
                (record { same_reader = refl; same_end = refl; empty = λ e. cc; in_fuel = λ e. cc })
          | inr (inr (i, q)) ↦
              let (e, h) = writer.write-written (unsent reader writer s.c) s.w q in
              let l = within reader writer s.c i g.ordered h in
              let k =
                write_next-Wrote (write_out reader writer fuel) i (record s { w = w' })
                  (λ j z.
                    write_out-Wrote fuel (advance reader writer i (record s { w = w' }))
                      (advance-Good reader writer i (record s { w = w' }) l g) (omega arith)) in
              rw (write_out, more, range, q)
                (record {
                  same_reader = k.same_reader;
                  same_end = k.same_end;
                  empty = k.empty;
                  in_fuel = k.in_fuel;
                })
        ]
  ]
