-- ===== src/ConnectTcp/Rounds.antt =====
-- Once through the loop of rd-std/src/context/connect_tcp.rs keeps the bytes.
use rabbit_digger.Base.{
  suc, ◌-◌, [], ◌++◌, none, some, true, ◌&&◌, ◌==◌, ◌≡◌, refl, ap, ◌∙◌, arith, Bool-cases, inl, inr,
}
use rabbit_digger.Base.Io.{Poll, pending, done, failed, Stream}
use rabbit_digger.ConnectTcp.{
  CopyBuffer, Copy, Part, read_in, write_out, finish_answer, finish_if, finish, and_then, round,
}
use rabbit_digger.ConnectTcp.Invariant.{Good, Kept, unsent, Kept-after, unsent_none}
use rabbit_digger.ConnectTcp.Reading.{read_in-Kept}
use rabbit_digger.ConnectTcp.Writing.{write_out-Kept}

module _ (reader writer : Stream) where
  finish_answer-Kept :
      (p : Poll Unit) (s : Copy reader writer)
      → Good reader writer s.c s.r
      → unsent reader writer s.c ++ reader.incoming s.r ≡ []
      → Kept reader writer s (finish_answer reader writer p s)
  unfolding finish_answer
  finish_answer-Kept pending s g e = record {
    good = g;
    same = refl;
    no_panic = λ q. cc;
    complete = λ q. e;
  }
  finish_answer-Kept (failed x) s g e = record {
    good = g;
    same = refl;
    no_panic = λ q. cc;
    complete = λ q. e;
  }
  finish_answer-Kept (done u) s g e = record {
    good = g;
    same = refl;
    no_panic = λ q. cc;
    complete = λ q. e;
  }

  finish_tests :
      (c : CopyBuffer)
      → ((c.pos == c.cap) && c.read_done) ≡ true
      → (c.pos ≡ c.cap) × (c.read_done ≡ true)
  finish_tests c h = ground arith

  pub finish-Kept :
      (s : Copy reader writer)
      → Good reader writer s.c s.r
      → Kept reader writer s (finish reader writer s)
  unfolding finish finish_if
  finish-Kept s g = elim (Bool-cases ((s.c.pos == s.c.cap) && s.c.read_done)) [
    | inr more ↦ rw more (record { good = g; same = refl; no_panic = λ e. cc; complete = λ e. cc })
    | inl all ↦
        let (e, d) = finish_tests s.c all in
        let nothing =
          ap (λ x. x ++ reader.incoming s.r) (unsent_none reader writer s.c e) ∙ g.ended d in
        let t = record s { w = (writer.poll_flush s.w).1 } in
        rw all (
          Kept-after reader writer s t (finish_answer reader writer (writer.poll_flush s.w).0 t)
            (ap (λ x. x ++ (unsent reader writer s.c ++ reader.incoming s.r))
              (writer.flush-written s.w))
            (finish_answer-Kept (writer.poll_flush s.w).0 t g nothing))
  ]

  and_then-Kept :
      (s : Copy reader writer) (p : Part reader writer)
      (f : Copy reader writer → Part reader writer)
      → ((t : Copy reader writer) → Good reader writer t.c t.r → Kept reader writer t (f t))
      → Kept reader writer s p
      → Kept reader writer s (and_then reader writer p f)
  unfolding and_then
  and_then-Kept s (some o, t) f h k = k
  and_then-Kept s (none, t) f h k = Kept-after reader writer s t (f t) k.same (h t k.good)

  pub round-Kept :
      (s : Copy reader writer)
      → Good reader writer s.c s.r
      → Kept reader writer s (round reader writer s)
  unfolding round
  round-Kept s g =
      and_then-Kept s
        (and_then reader writer (read_in reader writer s)
          (λ t. write_out reader writer (suc (t.c.cap - t.c.pos)) t))
        (finish reader writer) finish-Kept
        (and_then-Kept s (read_in reader writer s)
          (λ t. write_out reader writer (suc (t.c.cap - t.c.pos)) t)
          (λ t. write_out-Kept reader writer (suc (t.c.cap - t.c.pos)) t)
          (read_in-Kept reader writer s g))
