-- ===== src/ConnectTcp/Ends.antt =====
-- That the loops of `poll_copy` in rd-std/src/context/connect_tcp.rs come to an end.
use rabbit_digger.Base.{
  ℕ, zero, suc, ◌+◌, ◌<◌, some, false, length, ◌≡◌, ◌≢◌, ap, ◌∙◌, inl, inr, arith, Option-cases,
}
use rabbit_digger.Base.Io.{Stream}
use rabbit_digger.ConnectTcp.{out_of_fuel, Copy, round, poll_copy}
use rabbit_digger.ConnectTcp.Invariant.{Good}
use rabbit_digger.ConnectTcp.Rounds.{round-Kept}
use rabbit_digger.ConnectTcp.Turns.{round-Turn}

module _ (reader writer : Stream) where
  started-in_fuel :
      (fuel : ℕ) (s : Copy reader writer)
      → Good reader writer s.c s.r
      → (s.c.pos ≡ s.c.cap) × (s.c.read_done ≡ false)
      → length (reader.incoming s.r) < fuel
      → (poll_copy reader writer fuel s).0 ≢ out_of_fuel
  unfolding poll_copy
  started-in_fuel zero s g (e, d) l = absurd (omega arith)
  started-in_fuel (suc fuel) s g (e, d) l =
      let k = round-Turn reader writer s g in
      elim (Option-cases (round reader writer s).0) [
        | inr (o, z) ↦ rw (poll_copy, z) (λ n. k.in_fuel (z ∙ ap some n))
        | inl z ↦
            let h = k.progress z e d in
            rw (poll_copy, z)
              (started-in_fuel fuel (round reader writer s).1 (round-Kept reader writer s g).good
                (k.empty z) (omega arith))
      ]

  -- With fuel for two rounds more than there are bytes to read, `poll_copy` comes to an end, from
  -- every state whose indices lie in a buffer that is not empty.
  pub poll_copy-in_fuel :
      (fuel : ℕ) (s : Copy reader writer)
      → Good reader writer s.c s.r
      → length (reader.incoming s.r) + 1 < fuel
      → (poll_copy reader writer fuel s).0 ≢ out_of_fuel
  unfolding poll_copy
  poll_copy-in_fuel zero s g l = absurd (omega arith)
  poll_copy-in_fuel (suc fuel) s g l =
      let k = round-Turn reader writer s g in
      elim (Option-cases (round reader writer s).0) [
        | inr (o, z) ↦ rw (poll_copy, z) (λ n. k.in_fuel (z ∙ ap some n))
        | inl z ↦
            let h = k.shrinks z in
            rw (poll_copy, z)
              (started-in_fuel fuel (round reader writer s).1 (round-Kept reader writer s g).good
                (k.empty z) (omega arith))
      ]
