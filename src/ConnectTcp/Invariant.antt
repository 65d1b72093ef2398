-- ===== src/ConnectTcp/Invariant.antt =====
-- What the copy loop of rd-std/src/context/connect_tcp.rs keeps: its indices stay in the buffer, and
-- no byte is lost on the way from the reader to the writer.
use rabbit_digger.Base.{
  Bytes, ℕ, ◌-◌, ◌≤◌, ◌<◌, [], ◌++◌, some, Bool, true, false, length, take, drop, slice, returns,
  at_range, ◌≡◌, ◌≢◌, refl, ap, ◌∙◌, arith,
}
use rabbit_digger.Base.Io.{Poll, pending, done, failed, Stream}
use rabbit_digger.ConnectTcp.{CopyBuffer, finished, panicked, Copy, Part, flush_answer, flush_if}

module _ (reader writer : Stream) where
  -- The indices lie in the buffer, and a reader that has ended has nothing to give.
  pub record Good (c : CopyBuffer) (r : reader.T) : Type 0 where
    pub ordered : c.pos ≤ c.cap
    pub inside : c.cap ≤ length c.buf
    pub roomy : 0 < length c.buf
    pub ended : c.read_done ≡ true → reader.incoming r ≡ []

  -- What is in the buffer and not yet written.
  abbrev pub unsent : CopyBuffer → Bytes
  unsent c = slice c.pos c.cap c.buf

  -- What was written, what is on the way, and what is to come.
  abbrev pub total : Copy reader writer → Bytes
  total s = writer.written s.w ++ (unsent s.c ++ reader.incoming s.r)

  pub record Kept (s : Copy reader writer) (p : Part reader writer) : Type 0 where
    pub good : Good p.1.c p.1.r
    pub same : total p.1 ≡ total s
    pub no_panic : p.0 ≢ some panicked
    pub complete : {n : ℕ} → p.0 ≡ some (finished n) → unsent p.1.c ++ reader.incoming p.1.r ≡ []

  flush_answer-Kept :
      (p : Poll Unit) (s : Copy reader writer)
      → Good s.c s.r
      → Kept s (flush_answer reader writer p s)
  unfolding flush_answer
  flush_answer-Kept pending s g = record {
    good = g;
    same = refl;
    no_panic = λ e. cc;
    complete = λ e. cc;
  }
  flush_answer-Kept (failed e) s g = record {
    good = g;
    same = refl;
    no_panic = λ e. cc;
    complete = λ e. cc;
  }
  flush_answer-Kept (done u) s g = record {
    good = record { ordered = g.ordered; inside = g.inside; roomy = g.roomy; ended = g.ended };
    same = refl;
    no_panic = λ e. cc;
    complete = λ e. cc;
  }

  -- A step that moves no byte between the streams and the buffer, before one that keeps them.
  pub Kept-after :
      (s t : Copy reader writer) (p : Part reader writer) → total t ≡ total s → Kept t p → Kept s p
  Kept-after s t p e k = record {
    good = k.good;
    same = k.same ∙ e;
    no_panic = k.no_panic;
    complete = k.complete;
  }

  pub flush_if-Kept :
      (b : Bool) (s : Copy reader writer) → Good s.c s.r → Kept s (flush_if reader writer b s)
  unfolding flush_if
  flush_if-Kept false s g = record { good = g; same = refl; no_panic = λ e. cc; complete = λ e. cc }
  flush_if-Kept true s g =
      let t = record s { w = (writer.poll_flush s.w).1 } in
      Kept-after s t (flush_answer reader writer (writer.poll_flush s.w).0 t)
        (ap (λ x. x ++ (unsent s.c ++ reader.incoming s.r)) (writer.flush-written s.w))
        (flush_answer-Kept (writer.poll_flush s.w).0 t g)

  slice_empty : (n : ℕ) (xs : Bytes) → slice n n xs ≡ []
  slice_empty n xs =
      let none_left : n - n ≡ 0 = omega arith in ap (λ k. take k (drop n xs)) none_left

  pub unsent_none : (c : CopyBuffer) → c.pos ≡ c.cap → unsent c ≡ []
  unsent_none c e = ap (λ k. slice k c.cap c.buf) e ∙ slice_empty c.cap c.buf

  pub at_range_inside :
      (lo hi : ℕ) (xs : Bytes)
      → lo ≤ hi
      → hi ≤ length xs
      → at_range xs lo hi ≡ returns (slice lo hi xs)
  at_range_inside lo hi xs h k = ground arith
