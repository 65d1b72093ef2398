-- ===== src/ConnectTcp/Reading.antt =====
-- Reading into the buffer of rd-std/src/context/connect_tcp.rs keeps its bytes.
use rabbit_digger.Base.{
  Bytes, ℕ, ◌≤◌, [], ◌∷◌, ◌++◌, true, false, ◌&&◌, not, ◌==◌, length, take, drop, slice, ◌≡◌, refl,
  sym, ap, ◌∙◌, arith, Bool-cases, inl, inr, length-append, length-drop, take-append,
}
use rabbit_digger.Base.Io.{Poll-cases, Stream}
use rabbit_digger.ConnectTcp.{
  CopyBuffer, overwrite, Copy, flush_if, take_in, read_answer, read_if, read_in,
}
use rabbit_digger.ConnectTcp.Invariant.{Good, Kept, unsent, flush_if-Kept, Kept-after, unsent_none}

module _ (reader writer : Stream) where
  length-overwrite : (b buf : Bytes) → length b ≤ length buf → length (overwrite b buf) ≡ length buf
  unfolding overwrite
  length-overwrite b buf h =
      omega (arith, length-append b (drop (length b) buf), length-drop (length b) buf)

  slice-overwrite : (b buf : Bytes) → slice 0 (length b) (overwrite b buf) ≡ b
  unfolding overwrite
  slice-overwrite b buf =
      ap (λ k. take k (b ++ drop (length b) buf)) (omega arith)
      ∙ take-append b (drop (length b) buf)

  -- What a read with the answer `b` does, if the buffer was empty.
  take_in-Kept :
      (b : Bytes) (s : Copy reader writer) (r : reader.T)
      → Good reader writer s.c s.r
      → s.c.pos ≡ s.c.cap
      → s.c.read_done ≡ false
      → reader.incoming s.r ≡ b ++ reader.incoming r
      → length b ≤ length s.c.buf
      → (b ≡ [] → reader.incoming r ≡ [])
      → Kept reader writer s (take_in reader writer b (record s { r = r }))
  unfolding take_in
  take_in-Kept [] s r g e d i l end = record {
    good = record {
      ordered = g.ordered;
      inside = g.inside;
      roomy = g.roomy;
      ended = λ q. end refl;
    };
    same = ap (λ x. writer.written s.w ++ (unsent reader writer s.c ++ x)) (sym i);
    no_panic = λ q. cc;
    complete = λ q. cc;
  }
  take_in-Kept (x ∷ b) s r g e d i l end = record {
    good = record {
      ordered = omega arith;
      inside = omega (arith, length-overwrite (x ∷ b) s.c.buf l);
      roomy = omega (arith, length-overwrite (x ∷ b) s.c.buf l);
      ended = λ q. cc;
    };
    same =
        ap (λ y. writer.written s.w ++ (y ++ reader.incoming r)) (slice-overwrite (x ∷ b) s.c.buf)
        ∙ ap (λ y. writer.written s.w ++ y) (sym i)
        ∙ ap (λ y. writer.written s.w ++ (y ++ reader.incoming s.r))
            (sym (unsent_none reader writer s.c e));
    no_panic = λ q. cc;
    complete = λ q. cc;
  }

  read_answer-Kept :
      (n : ℕ) (s : Copy reader writer)
      → n ≡ length s.c.buf
      → s.c.pos ≡ s.c.cap
      → s.c.read_done ≡ false
      → Good reader writer s.c s.r
      → Kept reader writer s (
          read_answer reader writer
            (reader.poll_read n s.r).0
            (record s { r = (reader.poll_read n s.r).1 }))
  unfolding read_answer
  read_answer-Kept n s m e d g =
      let t : Copy reader writer = record s { r = (reader.poll_read n s.r).1 } in
      elim (Poll-cases (reader.poll_read n s.r).0) [
        | inl q ↦
            let stays = reader.read_waits n s.r (λ b h. cc (q, h)) in
            rw q (
              Kept-after reader writer s t (flush_if reader writer t.c.need_flush t)
                (ap (λ x. writer.written s.w ++ (unsent reader writer s.c ++ x)) stays)
                (flush_if-Kept reader writer t.c.need_flush t (record {
                  ordered = g.ordered;
                  inside = g.inside;
                  roomy = g.roomy;
                  ended = λ h. stays ∙ g.ended h;
                })))
        | inr (inl (x, q)) ↦
            let stays = reader.read_waits n s.r (λ b h. cc (q, h)) in
            rw q (record {
              good = record {
                ordered = g.ordered;
                inside = g.inside;
                roomy = g.roomy;
                ended = λ h. stays ∙ g.ended h;
              };
              same = ap (λ x. writer.written s.w ++ (unsent reader writer s.c ++ x)) stays;
              no_panic = λ h. cc;
              complete = λ h. cc;
            })
        | inr (inr (b, q)) ↦
            let (i, l) = reader.read-incoming n s.r q in
            rw q (
              take_in-Kept b s (reader.poll_read n s.r).1 g e d i (omega arith) (λ z.
                let all : reader.incoming s.r ≡ reader.incoming t.r =
                  i ∙ ap (λ y. y ++ reader.incoming t.r) z in
                sym all ∙ reader.read_end n s.r (omega arith) (rw z at q)))
      ]

  read_tests :
      (c : CopyBuffer)
      → ((c.pos == c.cap) && not c.read_done) ≡ true
      → (c.pos ≡ c.cap) × (c.read_done ≡ false)
  read_tests c h = ground arith

  pub read_in-Kept :
      (s : Copy reader writer)
      → Good reader writer s.c s.r
      → Kept reader writer s (read_in reader writer s)
  unfolding read_in read_if
  read_in-Kept s g = elim (Bool-cases ((s.c.pos == s.c.cap) && not s.c.read_done)) [
    | inr full ↦ rw full (record { good = g; same = refl; no_panic = λ e. cc; complete = λ e. cc })
    | inl empty ↦
        let (e, d) = read_tests s.c empty in
        rw empty (read_answer-Kept (length s.c.buf) s refl e d g)
  ]
