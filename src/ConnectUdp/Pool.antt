-- ===== src/ConnectUdp/Pool.antt =====
-- `borrow_back` and `pop_front` of rd-std/src/context/connect_udp.rs keep the pool and the queue within
-- their bound.
use mathlib.Core.Path.{subst}
use rabbit_digger.Address.{Address}
use rabbit_digger.Base.{
  Bytes, ℕ, ◌+◌, ◌-◌, ◌*◌, min, List, [], ◌∷◌, ◌++◌, Bool, true, false, ltb, length, MayPanic,
  returns, ◌≡◌, refl, sym, ap, ◌∙◌, ◌⊎◌, inl, inr, arith, length-append,
}
use rabbit_digger.ConnectUdp.{
  PacketBuffer, new_packets, CopyBuffer, pop_from, grow_to, grow_from, grow, push_from, borrow_if,
  borrow_back,
}
use rabbit_digger.ConnectUdp.Queue.{
  Full, Open, Clean, Sized, wants-Full, wants-Open, push-Open, length-Full, new_packets-Clean,
  length-new_packets,
}

-- What `grow` does, and that it adds a buffer unless the queue has all of them.
record Grown (m : ℕ) (c c' : CopyBuffer) : Type 0 where
  sized : Sized m c'
  same : c'.queue ≡ c.queue
  full : c'.pool ≡ [] → length c.queue ≡ m

grow_from-Grown :
    (m : ℕ) (pool : List PacketBuffer) (queue : List PacketBuffer) (max : ℕ)
    → Sized m (record { pool = pool; queue = queue; max_buffer_size = max })
    → (c' : CopyBuffer) × (grow_from pool
          (record { pool = pool; queue = queue; max_buffer_size = max })
        ≡ returns c')
      × Grown m (record { pool = pool; queue = queue; max_buffer_size = max }) c'
unfolding grow_from grow_to Clean
grow_from-Grown m (p ∷ ps) queue max s =
    (_, refl, record { sized = s; same = refl; full = λ e. cc })
grow_from-Grown m [] queue max s =
    let goal = min max (length queue * 2) in
    let some_left = s.inhabited in
    let bound = s.bound in
    let within = s.within in
    let enough : ltb goal (length queue) ≡ false = ground arith in
    let added = new_packets (goal - length queue) in
    let size : length (added ++ []) ≡ goal - length queue =
      length-append added []
      ∙ ap (λ n. n + 0) (length-new_packets (goal - length queue))
      ∙ omega arith in
    (
      record { pool = added ++ []; queue = queue; max_buffer_size = max },
      rw enough refl,
      record {
        sized = record {
          bound = bound;
          clean = new_packets-Clean (goal - length queue) [] tt;
          inhabited = omega arith;
          within = omega arith;
        };
        same = refl;
        full = λ e. let none_added = sym size ∙ ap length e in omega arith;
      },
    )

module _ {X : Type 0} (into : X → Address) where
  -- A buffer at the back to be filled, or the queue is full.
  pub data Borrowed (m : ℕ) (ps : List (Bytes × X)) : MayPanic (Bool × CopyBuffer) → Type 0 where
    buffer : (c : CopyBuffer) → Sized m c → Open into c.queue ps → Borrowed m ps (returns (true, c))
    all_full :
        (c : CopyBuffer)
        → Sized m c
        → Full into c.queue ps
        → length ps ≡ m
        → Borrowed m ps (returns (false, c))

  push_from-Borrowed :
      (m : ℕ) (ps : List (Bytes × X)) (pool : List PacketBuffer) (queue : List PacketBuffer)
      (max : ℕ)
      → Sized m (record { pool = pool; queue = queue; max_buffer_size = max })
      → Full into queue ps
      → (pool ≡ [] → length queue ≡ m)
      → Borrowed m ps
          (returns (push_from pool (record { pool = pool; queue = queue; max_buffer_size = max })))
  unfolding push_from Clean
  push_from-Borrowed m ps [] queue max s f h =
      all_full (record { pool = []; queue = queue; max_buffer_size = max }) s f
        (sym (length-Full into queue ps f) ∙ h refl)
  push_from-Borrowed m ps (p ∷ pool) queue max s f h =
      let size = length-append queue (p ∷ []) in
      let within = s.within in
      buffer (record { pool = pool; queue = queue ++ p ∷ []; max_buffer_size = max })
        (record {
          bound = s.bound;
          clean = s.clean.1;
          inhabited = omega arith;
          within = omega arith;
        })
        (push-Open into p queue ps s.clean.0 f)

  pub borrow_back-Borrowed :
      (m : ℕ) (c : CopyBuffer) (ps : List (Bytes × X))
      → Sized m c
      → Full into c.queue ps ⊎ Open into c.queue ps
      → Borrowed m ps (borrow_back c)
  unfolding borrow_back borrow_if grow
  borrow_back-Borrowed m c ps s (inr o) = rw (wants-Open into c.queue ps o) (buffer c s o)
  borrow_back-Borrowed m c ps s (inl f) =
      let (c', e, g) = grow_from-Grown m c.pool c.queue c.max_buffer_size s in
      rw (wants-Full into c.queue ps f, e)
        (push_from-Borrowed m ps c'.pool c'.queue c'.max_buffer_size g.sized
          (subst (λ q. Full into q ps) (sym g.same) f) (λ h. ap length g.same ∙ g.full h))

  -- The first packet of the queue goes, and its buffer back to the pool.
  pub pop_from-Sized :
      (m : ℕ) (p : PacketBuffer) (q : List PacketBuffer) (c : CopyBuffer)
      → c.queue ≡ p ∷ q
      → Sized m c
      → Sized m (pop_from (p ∷ q) c)
  unfolding pop_from Clean
  pop_from-Sized m p q c e s =
      let size = ap length e in
      let within = s.within in
      record {
        bound = s.bound;
        clean = (refl, s.clean);
        inhabited = omega arith;
        within = omega arith;
      }
