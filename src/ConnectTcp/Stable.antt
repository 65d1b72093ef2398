-- ===== src/ConnectTcp/Stable.antt =====
-- What `poll_copy` of rd-std/src/context/connect_tcp.rs leaves alone: it only reads from the reader,
-- and only writes to the writer and flushes it.
use rabbit_digger.Base.{
  Bytes, ℕ, zero, suc, ◌-◌, [], ◌∷◌, none, some, Bool, true, false, ◌&&◌, not, ◌==◌, ltb, length,
  at_range, MayPanic-cases, Bool-cases, Option-cases, inl, inr,
}
use rabbit_digger.Base.Io.{Poll, pending, done, failed, Poll-cases, Stream}
use rabbit_digger.ConnectTcp.{
  Copy, Part, flush_answer, flush_if, take_in, read_answer, read_if, read_in, advance, write_next,
  write_out, finish_answer, finish_if, finish, and_then, round, poll_copy,
}

module _ (reader writer : Stream) (P : reader.T → writer.T → Type 0)
    (on_read : (n : ℕ) (r : reader.T) (w : writer.T) → P r w → P (reader.poll_read n r).1 w)
    (on_write : (b : Bytes) (r : reader.T) (w : writer.T) → P r w → P r (writer.poll_write b w).1)
    (on_flush : (r : reader.T) (w : writer.T) → P r w → P r (writer.poll_flush w).1) where
  abbrev Holds : Copy reader writer → Type 0
  Holds s = P s.r s.w

  flush_answer-Holds :
      (p : Poll Unit) (s : Copy reader writer) → Holds s → Holds (flush_answer reader writer p s).1
  unfolding flush_answer
  flush_answer-Holds pending s h = h
  flush_answer-Holds (failed e) s h = h
  flush_answer-Holds (done u) s h = h

  flush_if-Holds :
      (b : Bool) (s : Copy reader writer) → Holds s → Holds (flush_if reader writer b s).1
  unfolding flush_if
  flush_if-Holds false s h = h
  flush_if-Holds true s h =
      flush_answer-Holds (writer.poll_flush s.w).0 (record s { w = (writer.poll_flush s.w).1 })
        (on_flush s.r s.w h)

  take_in-Holds :
      (b : Bytes) (s : Copy reader writer) → Holds s → Holds (take_in reader writer b s).1
  unfolding take_in
  take_in-Holds [] s h = h
  take_in-Holds (x ∷ b) s h = h

  read_answer-Holds :
      (p : Poll Bytes) (s : Copy reader writer) → Holds s → Holds (read_answer reader writer p s).1
  unfolding read_answer
  read_answer-Holds (done b) s h = take_in-Holds b s h
  read_answer-Holds (failed e) s h = h
  read_answer-Holds pending s h = flush_if-Holds s.c.need_flush s h

  read_if-Holds :
      (b : Bool) (s : Copy reader writer) → Holds s → Holds (read_if reader writer b s).1
  unfolding read_if
  read_if-Holds false s h = h
  read_if-Holds true s h =
      read_answer-Holds (reader.poll_read (length s.c.buf) s.r).0
        (record s { r = (reader.poll_read (length s.c.buf) s.r).1 })
        (on_read (length s.c.buf) s.r s.w h)

  write_next-Holds :
      (go : Copy reader writer → Part reader writer) (i : ℕ) (s : Copy reader writer)
      → ((t : Copy reader writer) → Holds t → Holds (go t).1)
      → Holds s
      → Holds (write_next reader writer go i s).1
  unfolding write_next advance
  write_next-Holds go zero s ih h = h
  write_next-Holds go (suc i) s ih h = ih (advance reader writer (suc i) s) h

  write_out-Holds :
      (fuel : ℕ) (s : Copy reader writer) → Holds s → Holds (write_out reader writer fuel s).1
  unfolding write_out
  write_out-Holds zero s h = h
  write_out-Holds (suc fuel) s h = elim (Bool-cases (ltb s.c.pos s.c.cap)) [
    | inr all ↦ rw (write_out, all) h
    | inl more ↦ elim (MayPanic-cases (at_range s.c.buf s.c.pos s.c.cap)) [
      | inl q ↦ rw (write_out, more, q) h
      | inr (b, q) ↦ elim (Poll-cases (writer.poll_write b s.w).0) [
        | inl z ↦ rw (write_out, more, q, z) (on_write b s.r s.w h)
        | inr (inl (x, z)) ↦ rw (write_out, more, q, z) (on_write b s.r s.w h)
        | inr (inr (i, z)) ↦
            rw (write_out, more, q, z)
              (write_next-Holds (write_out reader writer fuel) i
                (record s { w = (writer.poll_write b s.w).1 }) (write_out-Holds fuel)
                (on_write b s.r s.w h))
      ]
    ]
  ]

  finish_answer-Holds :
      (p : Poll Unit) (s : Copy reader writer) → Holds s → Holds (finish_answer reader writer p s).1
  unfolding finish_answer
  finish_answer-Holds pending s h = h
  finish_answer-Holds (failed e) s h = h
  finish_answer-Holds (done u) s h = h

  finish_if-Holds :
      (b : Bool) (s : Copy reader writer) → Holds s → Holds (finish_if reader writer b s).1
  unfolding finish_if
  finish_if-Holds false s h = h
  finish_if-Holds true s h =
      finish_answer-Holds (writer.poll_flush s.w).0 (record s { w = (writer.poll_flush s.w).1 })
        (on_flush s.r s.w h)

  and_then-Holds :
      (p : Part reader writer) (f : Copy reader writer → Part reader writer)
      → ((t : Copy reader writer) → Holds t → Holds (f t).1)
      → Holds p.1
      → Holds (and_then reader writer p f).1
  unfolding and_then
  and_then-Holds (some o, t) f ih h = h
  and_then-Holds (none, t) f ih h = ih t h

  round-Holds : (s : Copy reader writer) → Holds s → Holds (round reader writer s).1
  unfolding round read_in finish
  round-Holds s h =
      let go : Copy reader writer → Part reader writer =
        λ t. write_out reader writer (suc (t.c.cap - t.c.pos)) t in
      and_then-Holds (and_then reader writer (read_in reader writer s) go) (finish reader writer)
        (λ t. finish_if-Holds ((t.c.pos == t.c.cap) && t.c.read_done) t)
        (and_then-Holds (read_in reader writer s) go
          (λ t. write_out-Holds (suc (t.c.cap - t.c.pos)) t)
          (read_if-Holds ((s.c.pos == s.c.cap) && not s.c.read_done) s h))

  pub poll_copy-Holds :
      (fuel : ℕ) (s : Copy reader writer) → Holds s → Holds (poll_copy reader writer fuel s).1
  unfolding poll_copy
  poll_copy-Holds zero s h = h
  poll_copy-Holds (suc fuel) s h = elim (Option-cases (round reader writer s).0) [
    | inr (o, e) ↦ rw (poll_copy, e) (round-Holds s h)
    | inl e ↦ rw (poll_copy, e) (poll_copy-Holds fuel (round reader writer s).1 (round-Holds s h))
  ]
