-- ===== src/ConnectTcp/Both/Delivered.antt =====
-- That `CopyBidirectional` of rd-std/src/context/connect_tcp.rs delivers in both directions.
use rabbit_digger.Base.{Bytes, ℕ, ◌≡◌, ◌≢◌, refl, sym, ◌∙◌, ◌⊎◌, inl, inr}
use rabbit_digger.Base.Io.{Stream}
use rabbit_digger.ConnectTcp.{Copied, waits, finished, fails, panicked, out_of_fuel}
use rabbit_digger.ConnectTcp.Both.{
  transfer, Polled, ready_ok, poll_panicked, both_answers, CopyBidirectional, second, after_first,
  poll,
}
use rabbit_digger.ConnectTcp.Both.Transfer.{
  StateGood, all_bytes, transfer-Transferred, StateGood-same, all_bytes-same,
}

module _ (stream_a stream_b : Stream) where
  -- The bytes that go from `a` to `b`, and those from `b` to `a`, wherever they are.
  abbrev pub to_b : CopyBidirectional stream_a stream_b → Bytes
  to_b s = all_bytes stream_a stream_b s.a_to_b s.a s.b

  abbrev pub to_a : CopyBidirectional stream_a stream_b → Bytes
  to_a s = all_bytes stream_b stream_a s.b_to_a s.b s.a

  pub record BothGood (s : CopyBidirectional stream_a stream_b) : Type 0 where
    pub good_ab : StateGood stream_a stream_b s.a_to_b s.a
    pub good_ba : StateGood stream_b stream_a s.b_to_a s.b

  pub record Carries (all_b all_a : Bytes) (p : Polled × CopyBidirectional stream_a stream_b)
      : Type 0 where
    pub good : BothGood p.1
    pub same_b : to_b p.1 ≡ all_b
    pub same_a : to_a p.1 ≡ all_a
    pub no_panic : p.0 ≢ poll_panicked
    pub complete :
        p.0 ≡ ready_ok → (stream_b.written p.1.b ≡ all_b) ⊎ (stream_a.written p.1.a ≡ all_a)

  no_panic-both : (o q : Copied) → o ≢ panicked → q ≢ panicked → both_answers o q ≢ poll_panicked
  unfolding both_answers
  no_panic-both panicked q h k = absurd (h refl)
  no_panic-both out_of_fuel q h k = λ e. cc
  no_panic-both (fails x) q h k = λ e. cc
  no_panic-both waits panicked h k = absurd (k refl)
  no_panic-both (finished n) panicked h k = absurd (k refl)
  no_panic-both waits waits h k = λ e. cc
  no_panic-both waits (finished n) h k = λ e. cc
  no_panic-both waits (fails x) h k = λ e. cc
  no_panic-both waits out_of_fuel h k = λ e. cc
  no_panic-both (finished n) waits h k = λ e. cc
  no_panic-both (finished n) (finished m) h k = λ e. cc
  no_panic-both (finished n) (fails x) h k = λ e. cc
  no_panic-both (finished n) out_of_fuel h k = λ e. cc

  ready-both :
      (o q : Copied)
      → both_answers o q ≡ ready_ok
      → ((n : ℕ) × (o ≡ finished n)) ⊎ ((n : ℕ) × (q ≡ finished n))
  unfolding both_answers
  ready-both (finished n) q e = inl (n, refl)
  ready-both waits (finished n) e = inr (n, refl)
  ready-both waits waits e = cc
  ready-both waits (fails x) e = cc
  ready-both waits panicked e = cc
  ready-both waits out_of_fuel e = cc
  ready-both panicked q e = cc
  ready-both out_of_fuel q e = cc
  ready-both (fails x) q e = cc

  second-Carries :
      (fuel : ℕ) (o : Copied) (s : CopyBidirectional stream_a stream_b)
      → BothGood s
      → o ≢ panicked
      → ((n : ℕ) → o ≡ finished n → stream_b.written s.b ≡ to_b s)
      → Carries (to_b s) (to_a s) (second stream_a stream_b fuel o s)
  unfolding second
  second-Carries fuel o s g h c =
      let q = transfer stream_b stream_a fuel s.b_to_a s.b s.a in
      let k = transfer-Transferred stream_b stream_a fuel s.b_to_a s.b s.a g.good_ba in
      record {
        good = record {
          good_ab = StateGood-same stream_a stream_b s.a_to_b s.a q.1.w k.same_incoming g.good_ab;
          good_ba = k.good;
        };
        same_b = all_bytes-same stream_a stream_b s.a_to_b k.same_incoming k.same_written;
        same_a = k.same;
        no_panic = no_panic-both o q.0 h k.no_panic;
        complete = λ r. elim (ready-both o q.0 r) [
          | inl (n, e) ↦ inl (k.same_written ∙ c n e)
          | inr (n, e) ↦ inr (k.complete e)
        ];
      }

  after_first-Carries :
      (fuel : ℕ) (o : Copied) (s : CopyBidirectional stream_a stream_b)
      → BothGood s
      → o ≢ panicked
      → ((n : ℕ) → o ≡ finished n → stream_b.written s.b ≡ to_b s)
      → Carries (to_b s) (to_a s) (after_first stream_a stream_b fuel o s)
  unfolding after_first
  after_first-Carries fuel (fails e) s g h c = record {
    good = g;
    same_b = refl;
    same_a = refl;
    no_panic = λ q. cc;
    complete = λ q. cc;
  }
  after_first-Carries fuel out_of_fuel s g h c = record {
    good = g;
    same_b = refl;
    same_a = refl;
    no_panic = λ q. cc;
    complete = λ q. cc;
  }
  after_first-Carries fuel panicked s g h c = absurd (h refl)
  after_first-Carries fuel waits s g h c = second-Carries fuel waits s g h c
  after_first-Carries fuel (finished n) s g h c = second-Carries fuel (finished n) s g h c

  -- From a state whose directions are in order, their indices inside their buffers, and however
  -- the two streams answer, a poll of the connection keeps, for both directions, the bytes in
  -- their order: what was written, what is in the buffer and what is still to be read. It does not
  -- panic, leaves such a state, and when it is ready without an error, all the bytes of one
  -- direction were written.
  pub poll-Carries :
      (fuel : ℕ) (s : CopyBidirectional stream_a stream_b)
      → BothGood s
      → Carries (to_b s) (to_a s) (poll stream_a stream_b fuel s)
  unfolding poll
  poll-Carries fuel s g =
      let q = transfer stream_a stream_b fuel s.a_to_b s.a s.b in
      let k = transfer-Transferred stream_a stream_b fuel s.a_to_b s.a s.b g.good_ab in
      let t : CopyBidirectional stream_a stream_b = record s {
        a = q.1.r;
        b = q.1.w;
        a_to_b = q.1.state;
      } in
      let l =
        after_first-Carries fuel q.0 t
          (record {
            good_ab = k.good;
            good_ba = StateGood-same stream_b stream_a s.b_to_a s.b q.1.w k.same_incoming g.good_ba;
          })
          k.no_panic (λ n e. k.complete e ∙ sym k.same) in
      let all_a = all_bytes-same stream_b stream_a s.b_to_a k.same_incoming k.same_written in
      record {
        good = l.good;
        same_b = l.same_b ∙ k.same;
        same_a = l.same_a ∙ all_a;
        no_panic = l.no_panic;
        complete = λ r. elim (l.complete r) [ inl e ↦ inl (e ∙ k.same) | inr e ↦ inr (e ∙ all_a) ];
      }
