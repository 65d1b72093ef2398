-- ===== src/ConnectTcp/Delivered.antt =====
-- That `poll_copy` of rd-std/src/context/connect_tcp.rs delivers what it reads.
use rabbit_digger.Base.{
  ℕ, zero, suc, ◌++◌, append-nil, Option-cases, some, ◌≡◌, ◌≢◌, refl, sym, ap, ◌∙◌, inl, inr, List,
  [], ◌∷◌,
}
use rabbit_digger.Base.Io.{Stream}
use rabbit_digger.ConnectTcp.{Copied, finished, panicked, Copy, round, poll_copy}
use rabbit_digger.ConnectTcp.Invariant.{Good, unsent, total}
use rabbit_digger.ConnectTcp.Rounds.{round-Kept}

module _ (reader writer : Stream) where
  -- What a poll comes to in a copy that was in state `s`.
  pub record Delivers (s : Copy reader writer) (p : Copied × Copy reader writer) : Type 0 where
    pub good : Good reader writer p.1.c p.1.r
    pub same : total reader writer p.1 ≡ total reader writer s
    pub no_panic : p.0 ≢ panicked
    pub complete :
        {n : ℕ}
        → p.0 ≡ finished n
        → reader.incoming p.1.r ≡ [] × writer.written p.1.w ≡ total reader writer s

  ends_nil : {A : Type 0} (xs ys : List A) → xs ++ ys ≡ [] → ys ≡ []
  ends_nil [] ys e = e
  ends_nil (x ∷ xs) ys e = cc

  -- From a state whose indices lie in the buffer, however long it runs, and however the two
  -- streams answer, a copy never slices its buffer out of range and leaves such a state; what was
  -- written, what is in the buffer and what is still to be read make up the same bytes in the same
  -- order; and when it finishes, nothing is left to read and everything was written.
  pub poll_copy-Delivers :
      (fuel : ℕ) (s : Copy reader writer)
      → Good reader writer s.c s.r
      → Delivers s (poll_copy reader writer fuel s)
  unfolding poll_copy
  poll_copy-Delivers zero s g = record {
    good = g;
    same = refl;
    no_panic = λ e. cc;
    complete = λ e. cc;
  }
  poll_copy-Delivers (suc fuel) s g =
      let k = round-Kept reader writer s g in
      let t = (round reader writer s).1 in
      elim (Option-cases (round reader writer s).0) [
        | inr (o, e) ↦
            rw (poll_copy, e)
              (record {
                good = k.good;
                same = k.same;
                no_panic = λ q. k.no_panic (e ∙ ap some q);
                complete = λ q.
                    let nothing = k.complete (e ∙ ap some q) in
                    (
                      ends_nil (unsent reader writer t.c) (reader.incoming t.r) nothing,
                      sym (append-nil (writer.written t.w))
                          ∙ sym (ap (λ x. writer.written t.w ++ x) nothing)
                          ∙ k.same,
                    );
              })
        | inl e ↦
            let d = poll_copy-Delivers fuel t k.good in
            rw (poll_copy, e)
              (record {
                good = d.good;
                same = d.same ∙ k.same;
                no_panic = d.no_panic;
                complete = λ q. let (i, w) = d.complete q in (i, w ∙ k.same);
              })
      ]
