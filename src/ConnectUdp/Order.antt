-- ===== src/ConnectUdp/Order.antt =====
-- That the copying of rd-std/src/context/connect_udp.rs is a bounded queue: packets leave in the order
-- in which they came.
use mathlib.Core.Path.{subst}
use rabbit_digger.Address.{Address}
use rabbit_digger.Base.{
  Bytes, ℕ, zero, suc, ◌≤◌, ◌<◌, List, [], ◌∷◌, ◌++◌, append_assoc, none, some, Bool, ◌||◌, length,
  take, at_range, returns, ◌>>=◌, ◌≡◌, refl, sym, ap, ◌∙◌, inl, inr, arith, Bool-cases,
}
use rabbit_digger.Base.Io.{Poll-cases}
use rabbit_digger.ConnectUdp.{
  PacketBuffer, borrow, borrow_filled, pop_from, pop_front, Moved, goes_on, fails, waits, panicked,
  out_of_fuel, Ends, Copy, fill, written, write_from, drain_front, drain, registered_or, after_fill,
  poll_copy,
}
use rabbit_digger.ConnectUdp.Pool.{pop_from-Sized}
use rabbit_digger.ConnectUdp.Queue.{no_packets, packet, at_back, before}
use rabbit_digger.ConnectUdp.Filling.{
  Packets, Queued, Flows, Kept, Flows-bound, KeptIn, fill-KeptIn,
}

at_range_start : (b : Bytes) (len : ℕ) → len ≤ length b → at_range b 0 len ≡ returns (take len b)
at_range_start b len h = ground arith

module _ (ends : Ends) (m : ℕ) where
  borrow-packet :
      (p : PacketBuffer) (len : ℕ) (a : Address)
      → p.filled ≡ some (len, a)
      → len ≤ length p.buf
      → borrow p ≡ returns (some (take len p.buf, a))
  unfolding borrow borrow_filled
  borrow-packet p len a e h =
      let range : at_range p.buf 0 len ≡ returns (take len p.buf) = at_range_start p.buf len h in
      ap (borrow_filled p.buf) e ∙ ap (λ q. q >>= (λ b. returns (some (b, a)))) range

  borrow-none : (p : PacketBuffer) → p.filled ≡ none → borrow p ≡ returns none
  unfolding borrow borrow_filled
  borrow-none p e = ap (borrow_filled p.buf) e

  -- A packet at the front of the queue is written, and goes when it was sent.
  write-KeptIn :
      (go : Copy ends → Moved × Copy ends) (s : Copy ends) (p : PacketBuffer)
      (q : List PacketBuffer) (b : Bytes) (x : ends.X) (ps : Packets ends m)
      → ((t : Copy ends) → Flows ends m t ps → KeptIn ends m (go t))
      → s.c.queue ≡ p ∷ q
      → Queued ends m q ps
      → Flows ends m s ((b, x) ∷ ps)
      → KeptIn ends m (write_from ends go (returns (some (b, ends.into x))) s)
  unfolding write_from written pop_front pop_from
  write-KeptIn go s p q b x ps ih e rest f =
      let w' = (ends.poll_write b x s.w).1 in
      rw (write_from, ends.target-into x)
        (elim (Poll-cases (ends.poll_write b x s.w).0) [
          | inl z ↦ rw z (
            record {
              packets = (b, x) ∷ ps;
              flows = record {
                sized = f.sized;
                queued = f.queued;
                same =
                    f.same
                    ∙ ap (λ y. y ++ (b, x) ∷ ps)
                        (sym (ends.write_waits b x s.w (λ i h. cc (z, h))));
              };
              no_panic = λ h. cc;
            },
            λ h. cc,
          )
          | inr (inl (err, z)) ↦ rw z (
            record {
              packets = (b, x) ∷ ps;
              flows = record {
                sized = f.sized;
                queued = f.queued;
                same =
                    f.same
                    ∙ ap (λ y. y ++ (b, x) ∷ ps)
                        (sym (ends.write_waits b x s.w (λ i h. cc (z, h))));
              };
              no_panic = λ h. cc;
            },
            λ h. cc,
          )
          | inr (inr (n, z)) ↦ rw z (
              ih (record s { c = pop_front s.c; w = w' })
                (subst (λ qs. Flows ends m (record s { c = pop_from qs s.c; w = w' }) ps) (sym e)
                  (record {
                    sized = pop_from-Sized ends.into m p q s.c e f.sized;
                    queued = rest;
                    same =
                        f.same
                        ∙ sym (append_assoc (ends.sent s.w) ((b, x) ∷ []) ps)
                        ∙ ap (λ y. y ++ ps) (sym (ends.write-sent b x s.w z));
                  })))
        ])

  drain_front-KeptIn :
      (go : Copy ends → Moved × Copy ends) (q : List PacketBuffer) (s : Copy ends)
      (ps : Packets ends m)
      → ((t : Copy ends) (qs : Packets ends m)
          → length ps ≡ suc (length qs)
          → Flows ends m t qs
          → KeptIn ends m (go t))
      → s.c.queue ≡ q
      → Queued ends m q ps
      → Flows ends m s ps
      → KeptIn ends m (drain_front ends go q s)
  unfolding drain_front write_from
  drain_front-KeptIn go _ s _ ih e (inl no_packets) f =
      (record { packets = []; flows = f; no_panic = λ h. cc }, λ h. cc)
  drain_front-KeptIn go _ s _ ih e (inl (packet p len x q ps filled h rest)) f =
      rw (borrow-packet p len (ends.into x) filled h)
        (write-KeptIn go s p q (take len p.buf) x ps (λ t g. ih t ps refl g) e (inl rest) f)
  drain_front-KeptIn go _ s _ ih e (inr (at_back p empty)) f =
      rw (borrow-none p empty) (record { packets = []; flows = f; no_panic = λ h. cc }, λ h. cc)
  drain_front-KeptIn go _ s _ ih e (inr (before p len x q ps filled h rest)) f =
      rw (borrow-packet p len (ends.into x) filled h)
        (write-KeptIn go s p q (take len p.buf) x ps (λ t g. ih t ps refl g) e (inr rest) f)

  pub drain-KeptIn :
      (fuel : ℕ) (s : Copy ends) (ps : Packets ends m)
      → length ps < fuel
      → Flows ends m s ps
      → KeptIn ends m (drain ends fuel s)
  unfolding drain
  drain-KeptIn zero s ps l f = absurd (omega arith)
  drain-KeptIn (suc fuel) s ps l f =
      drain_front-KeptIn (drain ends fuel) s.c.queue s ps
        (λ t qs h g. drain-KeptIn fuel t qs (omega arith) g) refl f.queued f

  registered_or-Kept :
      (b : Bool) (go : Copy ends → Moved × Copy ends) (p : Moved × Copy ends)
      → ((t : Copy ends) (ps : Packets ends m) → Flows ends m t ps → Kept ends m (go t))
      → Kept ends m p
      → Kept ends m (registered_or ends b go p)
  unfolding registered_or
  registered_or-Kept b go (goes_on b', s) ih k = elim (Bool-cases (b || b')) [
    | inl w ↦ rw w (record { packets = k.packets; flows = k.flows; no_panic = λ h. cc })
    | inr again ↦ rw again (ih s k.packets k.flows)
  ]
  registered_or-Kept b go (fails e, s) ih k = k
  registered_or-Kept b go (waits, s) ih k = k
  registered_or-Kept b go (panicked, s) ih k = k
  registered_or-Kept b go (out_of_fuel, s) ih k = k

  after_fill-Kept :
      (fuel : ℕ) (go : Copy ends → Moved × Copy ends) (p : Moved × Copy ends)
      → m < fuel
      → ((t : Copy ends) (ps : Packets ends m) → Flows ends m t ps → Kept ends m (go t))
      → Kept ends m p
      → Kept ends m (after_fill ends fuel go p)
  unfolding after_fill
  after_fill-Kept fuel go (goes_on b, s) l ih k =
      let bound = Flows-bound ends m s k.packets k.flows in
      registered_or-Kept b go (drain ends fuel s) ih
        (drain-KeptIn fuel s k.packets (omega arith) k.flows).0
  after_fill-Kept fuel go (fails e, s) l ih k = k
  after_fill-Kept fuel go (waits, s) l ih k = k
  after_fill-Kept fuel go (panicked, s) l ih k = k
  after_fill-Kept fuel go (out_of_fuel, s) l ih k = k

  -- From a state whose queue holds, within its bound `m`, the packets that were given and not yet
  -- sent, however long it runs, and however the two ends answer, the copying leaves such a state:
  -- what was sent are the packets that came in, in their order, up to those that are in the queue.
  -- It does not panic: no buffer is sliced out of range, the size to grow to is never below that
  -- of the queue, and no address is of the wrong kind.
  pub poll_copy-Kept :
      (fuel : ℕ) (s : Copy ends) (ps : Packets ends m)
      → Flows ends m s ps
      → Kept ends m (poll_copy ends fuel s)
  unfolding poll_copy
  poll_copy-Kept zero s ps f = record { packets = ps; flows = f; no_panic = λ h. cc }
  poll_copy-Kept (suc fuel) s ps f =
      let bound = f.sized.bound in
      after_fill-Kept (suc s.c.max_buffer_size) (poll_copy ends fuel)
        (fill ends (suc s.c.max_buffer_size) s) (omega arith) (poll_copy-Kept fuel)
        (fill-KeptIn ends m (suc s.c.max_buffer_size) s ps (omega arith) f).0
