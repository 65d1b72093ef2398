-- ===== src/ConnectUdp.antt =====
-- The copying between a UDP channel and a UDP socket, rd-std/src/context/connect_udp.rs: a bounded
-- queue of packets for each direction, whose buffers come from a pool.
pub mod Queue
pub mod Pool
pub mod Filling
pub mod Order
mod Tests
use rabbit_digger.Address.{Address}
use rabbit_digger.Base.{
  Bytes, ℕ, zero, suc, ◌+◌, ◌-◌, ◌*◌, min, List, [], ◌∷◌, ◌++◌, Option, none, some, Bool, true,
  false, ◌||◌, ltb, if◌then◌else◌, length, MayPanic, returns, panics, ◌>>=◌, at_range, ◌≡◌, ◌≢◌,
  ◌≤◌,
}
use rabbit_digger.Base.Io.{IoError, Poll, pending, done, failed}
use rabbit_digger.ConnectTcp.{zeros, overwrite}

pub record PacketBuffer : Type 0 where
  pub buf : Bytes
  pub filled : Option (ℕ × Address)

-- `UDP_BUFFER_SIZE`.
abbrev pub udp_buffer_size : ℕ
udp_buffer_size = 2048

unfoldable pub new_packet : PacketBuffer
new_packet = record { buf = zeros udp_buffer_size; filled = none }

-- `vec![PacketBuffer::new(); n]`.
unfoldable pub new_packets : ℕ → List PacketBuffer
new_packets zero = []
new_packets (suc n) = new_packet ∷ new_packets n

unfoldable pub borrow_filled : Bytes → Option (ℕ × Address) → MayPanic (Option (Bytes × Address))
borrow_filled buf none = returns none
borrow_filled buf (some (len, addr)) = at_range buf 0 len >>= λ data_. returns (some (data_, addr))

-- `PacketBuffer::borrow`.
unfoldable pub borrow : PacketBuffer → MayPanic (Option (Bytes × Address))
borrow p = borrow_filled p.buf p.filled

-- The pool is a stack, whose top, the end of the vector, is the head of the list.
pub record CopyBuffer : Type 0 where
  pub pool : List PacketBuffer
  pub queue : List PacketBuffer
  pub max_buffer_size : ℕ

unfoldable pub new : ℕ → ℕ → CopyBuffer
new size max = record { pool = new_packets size; queue = []; max_buffer_size = max }

unfoldable pub pop_from : List PacketBuffer → CopyBuffer → CopyBuffer
pop_from [] c = c
pop_from (p ∷ q) c = record c { queue = q; pool = record p { filled = none } ∷ c.pool }

unfoldable pub pop_front : CopyBuffer → CopyBuffer
pop_front c = pop_from c.queue c

-- `goal - self.queue.len()` panics below 0.
unfoldable pub grow_to : ℕ → CopyBuffer → MayPanic CopyBuffer
grow_to goal c =
    if ltb goal (length c.queue)
    then panics
    else returns (record c { pool = new_packets (goal - length c.queue) ++ c.pool })

unfoldable pub grow_from : List PacketBuffer → CopyBuffer → MayPanic CopyBuffer
grow_from [] c = grow_to (min c.max_buffer_size (length c.queue * 2)) c
grow_from (p ∷ ps) c = returns c

unfoldable pub grow : CopyBuffer → MayPanic CopyBuffer
grow c = grow_from c.pool c

-- `self.queue.push_back(self.pool.pop()?)`: whether there is a buffer at the back, and the buffer.
unfoldable pub push_from : List PacketBuffer → CopyBuffer → Bool × CopyBuffer
push_from [] c = (false, c)
push_from (p ∷ ps) c = (true, record c { pool = ps; queue = c.queue ++ p ∷ [] })

unfoldable pub is_filled : Option (ℕ × Address) → Bool
is_filled none = false
is_filled (some f) = true

-- `match self.queue.back().map(|i| i.filled.is_some())`: whether a buffer is wanted.
unfoldable pub wants_buffer : List PacketBuffer → Bool
wants_buffer [] = true
wants_buffer (p ∷ []) = is_filled p.filled
wants_buffer (p ∷ q ∷ qs) = wants_buffer (q ∷ qs)

unfoldable pub borrow_if : Bool → CopyBuffer → MayPanic (Bool × CopyBuffer)
borrow_if false c = returns (true, c)
borrow_if true c = grow c >>= λ c'. returns (push_from c'.pool c')

-- `borrow_back`: if there is one, the buffer is the last of the queue.
unfoldable pub borrow_back : CopyBuffer → MayPanic (Bool × CopyBuffer)
borrow_back c = borrow_if (wants_buffer c.queue) c

-- `packet.filled = Some(…)` at the back, with the bytes read into the buffer.
unfoldable pub fill_last : Bytes → Address → List PacketBuffer → List PacketBuffer
fill_last b addr [] = []
fill_last b addr (p ∷ []) = record { buf = overwrite b p.buf; filled = some (length b, addr) } ∷ []
fill_last b addr (p ∷ q ∷ qs) = p ∷ fill_last b addr (q ∷ qs)

-- The buffer at the back, where a read puts its bytes.
unfoldable pub last_size : List PacketBuffer → ℕ
last_size [] = 0
last_size (p ∷ []) = length p.buf
last_size (p ∷ q ∷ qs) = last_size (q ∷ qs)

-- How a part of the loop ends: by going on, where a poll may have waited, or with the poll.
pub data Moved : Type 0 where
  goes_on : Bool → Moved
  fails : IoError → Moved
  waits panicked out_of_fuel : Moved

-- Where the packets come from, and where they go: the channel and the socket, or the other way
-- round. `given` are the packets that it gave, and `sent` those that it took: a poll that is done moves
-- one packet, which fits the buffer, and any other moves none.
pub record Ends : Type 1 where
  pub X : Type 0
  pub into : X → Address
  pub target : Address → MayPanic X
  pub R : Type 0
  pub poll_read : ℕ → R → Poll (Bytes × X) × R
  pub W : Type 0
  pub poll_write : Bytes → X → W → Poll ℕ × W
  pub given : R → List (Bytes × X)
  pub sent : W → List (Bytes × X)
  pub target-into : (x : X) → target (into x) ≡ returns x
  pub read-given :
      (n : ℕ) (r : R) {b : Bytes} {x : X}
      → (poll_read n r).0 ≡ done (b, x)
      → (given (poll_read n r).1 ≡ given r ++ (b, x) ∷ []) × (length b ≤ n)
  pub read_waits :
      (n : ℕ) (r : R)
      → ((a : Bytes × X) → (poll_read n r).0 ≢ done a)
      → given (poll_read n r).1 ≡ given r
  pub write-sent :
      (b : Bytes) (x : X) (w : W) {n : ℕ}
      → (poll_write b x w).0 ≡ done n
      → sent (poll_write b x w).1 ≡ sent w ++ (b, x) ∷ []
  pub write_waits :
      (b : Bytes) (x : X) (w : W)
      → ((n : ℕ) → (poll_write b x w).0 ≢ done n)
      → sent (poll_write b x w).1 ≡ sent w

module _ (ends : Ends) where
  pub record Copy : Type 0 where
    pub c : CopyBuffer
    pub r : ends.R
    pub w : ends.W

  unfoldable pub filled_with : (Copy → Moved × Copy) → Poll (Bytes × ends.X) → Copy → Moved × Copy
  filled_with go pending s = (goes_on true, s)
  filled_with go (failed e) s = (fails e, s)
  filled_with go (done (b, x)) s =
      go (record s { c = record s.c { queue = fill_last b (ends.into x) s.c.queue } })

  unfoldable pub read_into :
      (Copy → Moved × Copy) → MayPanic (Bool × CopyBuffer) → Copy → Moved × Copy
  read_into go panics s = (panicked, s)
  read_into go (returns (false, c)) s = (goes_on false, record s { c = c })
  read_into go (returns (true, c)) s =
      let (p, r) = ends.poll_read (last_size c.queue) s.r in
      filled_with go p (record s { c = c; r = r })

  -- The first inner loop: read packets while there are buffers.
  unfoldable pub fill : ℕ → Copy → Moved × Copy
  fill zero s = (out_of_fuel, s)
  fill (suc fuel) s = read_into (fill fuel) (borrow_back s.c) s

  unfoldable pub written : (Copy → Moved × Copy) → Poll ℕ → Copy → Moved × Copy
  written go pending s = (goes_on true, s)
  written go (failed e) s = (fails e, s)
  written go (done n) s = go (record s { c = pop_front s.c })

  unfoldable pub write_from :
      (Copy → Moved × Copy) → MayPanic (Option (Bytes × Address)) → Copy → Moved × Copy
  write_from go panics s = (panicked, s)
  write_from go (returns none) s = (goes_on false, s)
  write_from go (returns (some (b, addr))) s = elim (ends.target addr) [
    | panics ↦ (panicked, s)
    | returns x ↦ let (p, w) = ends.poll_write b x s.w in written go p (record s { w = w })
  ]

  unfoldable pub drain_front : (Copy → Moved × Copy) → List PacketBuffer → Copy → Moved × Copy
  drain_front go [] s = (goes_on false, s)
  drain_front go (p ∷ q) s = write_from go (borrow p) s

  -- The second inner loop: write the packets of the queue.
  unfoldable pub drain : ℕ → Copy → Moved × Copy
  drain zero s = (out_of_fuel, s)
  drain (suc fuel) s = drain_front (drain fuel) s.c.queue s

  unfoldable pub registered_or : Bool → (Copy → Moved × Copy) → Moved × Copy → Moved × Copy
  registered_or b go (goes_on b', s) = if b || b' then (waits, s) else go s
  registered_or b go (fails e, s) = (fails e, s)
  registered_or b go (waits, s) = (waits, s)
  registered_or b go (panicked, s) = (panicked, s)
  registered_or b go (out_of_fuel, s) = (out_of_fuel, s)

  unfoldable pub after_fill : ℕ → (Copy → Moved × Copy) → Moved × Copy → Moved × Copy
  after_fill fuel go (goes_on b, s) = registered_or b go (drain fuel s)
  after_fill fuel go (fails e, s) = (fails e, s)
  after_fill fuel go (waits, s) = (waits, s)
  after_fill fuel go (panicked, s) = (panicked, s)
  after_fill fuel go (out_of_fuel, s) = (out_of_fuel, s)

  -- `poll_send_to` and `poll_recv_from`, on fuel for the outer loop. The queue has at most
  -- `max_buffer_size` packets, so the fuel of the inner loops is enough.
  unfoldable pub poll_copy : ℕ → Copy → Moved × Copy
  poll_copy zero s = (out_of_fuel, s)
  poll_copy (suc fuel) s =
      let enough = suc s.c.max_buffer_size in after_fill enough (poll_copy fuel) (fill enough s)
