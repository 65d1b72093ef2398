-- ===== src/ConnectTcp/Writing.antt =====
-- Writing out the buffer of rd-std/src/context/connect_tcp.rs keeps its bytes.
use rabbit_digger.Base.{
  ℕ, zero, suc, ◌+◌, ◌-◌, ◌≤◌, ◌++◌, append_assoc, append-nil, ltb, length, take, drop, slice, ◌≡◌,
  refl, sym, ap, ◌∙◌, arith, Bool-cases, inl, inr, length-take, take-append-drop, drop-slice,
}
use rabbit_digger.Base.Io.{Poll-cases, Stream}
use rabbit_digger.ConnectTcp.{CopyBuffer, Copy, Part, advance, write_next, write_out}
use rabbit_digger.ConnectTcp.Invariant.{Good, Kept, unsent, total, Kept-after, at_range_inside}

module _ (reader writer : Stream) where
  pub advance-Good :
      (i : ℕ) (s : Copy reader writer)
      → s.c.pos + i ≤ s.c.cap
      → Good reader writer s.c s.r
      → Good reader writer (advance reader writer i s).c s.r
  unfolding advance
  advance-Good i s h g = record { ordered = h; inside = g.inside; roomy = g.roomy; ended = g.ended }

  -- A write of the first `i` bytes that are on the way.
  advance-same :
      (i : ℕ) (s : Copy reader writer) (w : writer.T)
      → s.c.pos + i ≤ s.c.cap
      → writer.written w ≡ writer.written s.w ++ take i (unsent reader writer s.c)
      → total reader writer (advance reader writer i (record s { w = w })) ≡ total reader writer s
  unfolding advance
  advance-same i s w h e =
      ap (λ x. x ++ (slice (s.c.pos + i) s.c.cap s.c.buf ++ reader.incoming s.r)) e
      ∙ ap
          (λ x.
            (writer.written s.w ++ take i (unsent reader writer s.c)) ++ (x ++ reader.incoming s.r))
          (sym (drop-slice i s.c.pos s.c.cap s.c.buf))
      ∙ append_assoc (writer.written s.w) (take i (unsent reader writer s.c))
          (drop i (unsent reader writer s.c) ++ reader.incoming s.r)
      ∙ ap (λ x. writer.written s.w ++ x)
          (sym (
            append_assoc (take i (unsent reader writer s.c)) (drop i (unsent reader writer s.c))
              (reader.incoming s.r)))
      ∙ ap (λ x. writer.written s.w ++ (x ++ reader.incoming s.r))
          (take-append-drop i (unsent reader writer s.c))

  -- What the loop does with the answer of the writer.
  write_next-Kept :
      (go : Copy reader writer → Part reader writer) (i : ℕ) (s : Copy reader writer) (w : writer.T)
      → ((t : Copy reader writer) → Good reader writer t.c t.r → Kept reader writer t (go t))
      → Good reader writer s.c s.r
      → writer.written w ≡ writer.written s.w ++ take i (unsent reader writer s.c)
      → s.c.pos + i ≤ s.c.cap
      → Kept reader writer s (write_next reader writer go i (record s { w = w }))
  unfolding write_next advance
  write_next-Kept go zero s w ih g e h = record {
    good = g;
    same =
        ap (λ x. x ++ (unsent reader writer s.c ++ reader.incoming s.r))
          (e ∙ append-nil (writer.written s.w));
    no_panic = λ q. cc;
    complete = λ q. cc;
  }
  write_next-Kept go (suc i) s w ih g e h =
      let t = advance reader writer (suc i) (record s { w = w }) in
      Kept-after reader writer s t (go t) (advance-same (suc i) s w h e)
        (ih t (advance-Good (suc i) (record s { w = w }) h g))

  pub within :
      (c : CopyBuffer) (i : ℕ)
      → c.pos ≤ c.cap
      → i ≤ length (unsent reader writer c)
      → c.pos + i ≤ c.cap
  within c i o h = omega (arith, length-take (c.cap - c.pos) (drop c.pos c.buf))

  pub write_out-Kept :
      (fuel : ℕ) (s : Copy reader writer)
      → Good reader writer s.c s.r
      → Kept reader writer s (write_out reader writer fuel s)
  unfolding write_out
  write_out-Kept zero s g = record { good = g; same = refl; no_panic = λ e. cc; complete = λ e. cc }
  write_out-Kept (suc fuel) s g = elim (Bool-cases (ltb s.c.pos s.c.cap)) [
    | inr all ↦
        rw (write_out, all)
          (record { good = g; same = refl; no_panic = λ e. cc; complete = λ e. cc })
    | inl more ↦
        let range = at_range_inside reader writer s.c.pos s.c.cap s.c.buf g.ordered g.inside in
        let w' = (writer.poll_write (unsent reader writer s.c) s.w).1 in
        elim (Poll-cases (writer.poll_write (unsent reader writer s.c) s.w).0) [
          | inl q ↦
              rw (write_out, more, range, q)
                (record {
                  good = g;
                  same =
                      ap (λ x. x ++ (unsent reader writer s.c ++ reader.incoming s.r))
                        (writer.write_waits (unsent reader writer s.c) s.w (λ i h. cc (q, h)));
                  no_panic = λ e. cc;
                  complete = λ e. cc;
                })
          | inr (inl (x, q)) ↦
              rw (write_out, more, range, q)
                (record {
                  good = g;
                  same =
                      ap (λ x. x ++ (unsent reader writer s.c ++ reader.incoming s.r))
                        (writer.write_waits (unsent reader writer s.c) s.w (λ i h. cc (q, h)));
                  no_panic = λ e. cc;
                  complete = λ e. cc;
                })
          | inr (inr (i, q)) ↦
              let (e, h) = writer.write-written (unsent reader writer s.c) s.w q in
              rw (write_out, more, range, q)
                (write_next-Kept (write_out reader writer fuel) i s w' (write_out-Kept fuel) g e
                  (within s.c i g.ordered h))
        ]
  ]
