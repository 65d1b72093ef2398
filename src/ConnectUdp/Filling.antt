-- ===== src/ConnectUdp/Filling.antt =====
-- Reading packets into the queue of rd-std/src/context/connect_udp.rs.
use rabbit_digger.Base.{
  Bytes, ℕ, zero, suc, ◌+◌, ◌≤◌, ◌<◌, List, [], ◌∷◌, ◌++◌, append_assoc, Bool, length, MayPanic,
  ◌≡◌, ◌≢◌, ap, ◌∙◌, ◌⊎◌, inl, inr, arith, length-append,
}
use rabbit_digger.Base.Io.{Poll-cases}
use rabbit_digger.ConnectUdp.{
  PacketBuffer, CopyBuffer, borrow_back, fill_last, last_size, Moved, panicked, out_of_fuel, Ends,
  Copy, filled_with, read_into, fill,
}
use rabbit_digger.ConnectUdp.Pool.{Borrowed, buffer, all_full, borrow_back-Borrowed}
use rabbit_digger.ConnectUdp.Queue.{
  Full, Open, Sized, fill_last-Full, length-fill_last, length-Full, length-Open,
}

module _ (ends : Ends) (m : ℕ) where
  abbrev pub Packets : Type 0
  Packets = List (Bytes × ends.X)

  abbrev pub Queued : List PacketBuffer → Packets → Type 0
  Queued q ps = Full ends.into q ps ⊎ Open ends.into q ps

  -- The queue holds, within its bound, the packets that were given and not yet sent.
  pub record Flows (s : Copy ends) (ps : Packets) : Type 0 where
    pub sized : Sized m s.c
    pub queued : Queued s.c.queue ps
    pub same : ends.given s.r ≡ ends.sent s.w ++ ps

  pub record Kept (p : Moved × Copy ends) : Type 0 where
    pub packets : Packets
    pub flows : Flows p.1 packets
    pub no_panic : p.0 ≢ panicked

  length-Queued : (q : List PacketBuffer) (ps : Packets) → Queued q ps → length ps ≤ length q
  length-Queued q ps (inl f) = omega (arith, length-Full ends.into q ps f)
  length-Queued q ps (inr o) = omega (arith, length-Open ends.into q ps o)

  pub Flows-bound : (s : Copy ends) (ps : Packets) → Flows s ps → length ps ≤ m
  Flows-bound s ps f =
      let within = f.sized.within in omega (arith, length-Queued s.c.queue ps f.queued)

  -- An inner loop with fuel enough.
  abbrev pub KeptIn : Moved × Copy ends → Type 0
  KeptIn p = Kept p × (p.0 ≢ out_of_fuel)

  filled_with-KeptIn :
      (go : Copy ends → Moved × Copy ends) (s : Copy ends) (c : CopyBuffer) (ps : Packets)
      → ((t : Copy ends) (qs : Packets) → length qs ≡ suc (length ps) → Flows t qs → KeptIn (go t))
      → Sized m c
      → Open ends.into c.queue ps
      → ends.given s.r ≡ ends.sent s.w ++ ps
      → KeptIn (
          filled_with ends go
            (ends.poll_read (last_size c.queue) s.r).0
            (record s { c = c; r = (ends.poll_read (last_size c.queue) s.r).1 }))
  unfolding filled_with
  filled_with-KeptIn go s c ps ih z o e =
      let n = last_size c.queue in
      let r' = (ends.poll_read n s.r).1 in
      elim (Poll-cases (ends.poll_read n s.r).0) [
        | inl q ↦ rw q (
          record {
            packets = ps;
            flows = record {
              sized = z;
              queued = inr o;
              same = ends.read_waits n s.r (λ a h. cc (q, h)) ∙ e;
            };
            no_panic = λ h. cc;
          },
          λ h. cc,
        )
        | inr (inl (x, q)) ↦ rw q (
          record {
            packets = ps;
            flows = record {
              sized = z;
              queued = inr o;
              same = ends.read_waits n s.r (λ a h. cc (q, h)) ∙ e;
            };
            no_panic = λ h. cc;
          },
          λ h. cc,
        )
        | inr (inr ((b, x), q)) ↦
            let (given, fits) = ends.read-given n s.r q in
            let more = length-append ps ((b, x) ∷ []) in
            let size = length-fill_last ends.into b (ends.into x) c.queue in
            let inhabited = z.inhabited in
            let within = z.within in
            rw q (
              ih (record s { c = record c { queue = fill_last b (ends.into x) c.queue }; r = r' })
                (ps ++ (b, x) ∷ []) (omega arith)
                (record {
                  sized = record {
                    bound = z.bound;
                    clean = z.clean;
                    inhabited = omega arith;
                    within = omega arith;
                  };
                  queued = inl (fill_last-Full ends.into b x c.queue ps fits o);
                  same =
                      given
                      ∙ ap (λ y. y ++ (b, x) ∷ []) e
                      ∙ append_assoc (ends.sent s.w) ps ((b, x) ∷ []);
                }))
      ]

  read_into-KeptIn :
      (go : Copy ends → Moved × Copy ends) (q : MayPanic (Bool × CopyBuffer)) (s : Copy ends)
      (ps : Packets)
      → ((t : Copy ends) (qs : Packets) → length qs ≡ suc (length ps) → Flows t qs → KeptIn (go t))
      → Borrowed ends.into m ps q
      → ends.given s.r ≡ ends.sent s.w ++ ps
      → KeptIn (read_into ends go q s)
  unfolding read_into
  read_into-KeptIn go _ s ps ih (all_full c z f l) e = (
    record {
      packets = ps;
      flows = record { sized = z; queued = inl f; same = e };
      no_panic = λ h. cc;
    },
    λ h. cc,
  )
  read_into-KeptIn go _ s ps ih (buffer c z o) e = filled_with-KeptIn go s c ps ih z o e

  pub fill-KeptIn :
      (fuel : ℕ) (s : Copy ends) (ps : Packets)
      → m < fuel + length ps
      → Flows s ps
      → KeptIn (fill ends fuel s)
  unfolding fill
  fill-KeptIn zero s ps l f = absurd (omega (arith, Flows-bound s ps f))
  fill-KeptIn (suc fuel) s ps l f =
      read_into-KeptIn (fill ends fuel) (borrow_back s.c) s ps
        (λ t qs h g. fill-KeptIn fuel t qs (omega arith) g)
        (borrow_back-Borrowed ends.into m s.c ps f.sized f.queued) f.same
