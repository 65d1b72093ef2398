-- ===== src/ConnectTcp.antt =====
-- The copying between two TCP streams, rd-std/src/context/connect_tcp.rs. The streams are parameters.
-- A loop that the source leaves without bound runs on fuel.
pub mod Invariant
pub mod Reading
pub mod Writing
pub mod Rounds
pub mod Wrote
pub mod Turns
pub mod Delivered
pub mod Ends
pub mod Stable
pub mod Both
mod Tests
use rabbit_digger.Base.{
  Bytes, ℕ, zero, suc, ◌+◌, ◌-◌, List, [], ◌∷◌, ◌++◌, Option, none, some, Bool, true, false, ◌&&◌,
  not, ◌==◌, ltb, if◌then◌else◌, length, drop, MayPanic, returns, panics, at_range,
}
use rabbit_digger.Base.Io.{IoError, write_zero, Poll, pending, done, failed, Stream}
use rabbit_digger.ConnectionManager.{add64}

pub record CopyBuffer : Type 0 where
  pub read_done : Bool
  pub need_flush : Bool
  pub pos : ℕ
  pub cap : ℕ
  pub amt : ℕ
  pub buf : Bytes

abbrev pub zeros : ℕ → Bytes
zeros zero = []
zeros (suc n) = 0 ∷ zeros n

unfoldable pub new : ℕ → CopyBuffer
new size = record {
  read_done = false;
  need_flush = false;
  pos = 0;
  cap = 0;
  amt = 0;
  buf = zeros size;
}

-- What a poll comes to: a wait, the number of bytes copied, an error; or a panic of the code, and
-- the end of the fuel of the model.
pub data Copied : Type 0 where
  waits : Copied
  finished : ℕ → Copied
  fails : IoError → Copied
  panicked out_of_fuel : Copied

-- The bytes that a reader puts at the front of a buffer.
unfoldable pub overwrite : Bytes → Bytes → Bytes
overwrite b buf = b ++ drop (length b) buf

module _ (reader writer : Stream) where
  -- The copy buffer with its two streams.
  pub record Copy : Type 0 where
    pub c : CopyBuffer
    pub r : reader.T
    pub w : writer.T

  -- How a part of the loop ends: with the outcome of the poll, or by going on.
  abbrev pub Part : Type 0
  Part = Option Copied × Copy

  -- A pending reader: flush what was written, and wait.
  unfoldable pub flush_answer : Poll Unit → Copy → Part
  flush_answer pending s = (some waits, s)
  flush_answer (failed e) s = (some (fails e), s)
  flush_answer (done u) s = (some waits, record s { c = record s.c { need_flush = false } })

  unfoldable pub flush_if : Bool → Copy → Part
  flush_if false s = (some waits, s)
  flush_if true s = let (f, w) = writer.poll_flush s.w in flush_answer f (record s { w = w })

  -- Bytes were read: none at the end of the stream.
  unfoldable pub take_in : Bytes → Copy → Part
  take_in [] s = (none, record s { c = record s.c { read_done = true } })
  take_in (b ∷ bs) s = (
    none,
    record s {
      c = record s.c { pos = 0; cap = length (b ∷ bs); buf = overwrite (b ∷ bs) s.c.buf };
    },
  )

  unfoldable pub read_answer : Poll Bytes → Copy → Part
  read_answer (done b) s = take_in b s
  read_answer (failed e) s = (some (fails e), s)
  read_answer pending s = flush_if s.c.need_flush s

  -- The first part of the loop: read if the buffer is empty.
  unfoldable pub read_if : Bool → Copy → Part
  read_if false s = (none, s)
  read_if true s =
      let (p, r) = reader.poll_read (length s.c.buf) s.r in read_answer p (record s { r = r })

  unfoldable pub read_in : Copy → Part
  read_in s = read_if ((s.c.pos == s.c.cap) && not s.c.read_done) s

  -- `i` bytes were written.
  unfoldable pub advance : ℕ → Copy → Copy
  advance i s = record s {
    c = record s.c { pos = s.c.pos + i; amt = add64 s.c.amt i; need_flush = true };
  }

  -- `i` bytes were written: none is an error, else the loop `go` goes on.
  unfoldable pub write_next : (Copy → Part) → ℕ → Copy → Part
  write_next go zero s = (some (fails write_zero), s)
  write_next go (suc i) s = go (advance (suc i) s)

  -- The second part, a loop of its own: write what the buffer holds.
  unfoldable pub write_out : ℕ → Copy → Part
  write_out zero s = (some out_of_fuel, s)
  write_out (suc fuel) s = elim (ltb s.c.pos s.c.cap) [
    | false ↦ (none, s)
    | true ↦ elim (at_range s.c.buf s.c.pos s.c.cap) [
      | panics ↦ (some panicked, s)
      | returns slice ↦ elim (writer.poll_write slice s.w).0 [
        | pending ↦ (some waits, record s { w = (writer.poll_write slice s.w).1 })
        | failed e ↦ (some (fails e), record s { w = (writer.poll_write slice s.w).1 })
        | done i ↦ write_next (write_out fuel) i (record s { w = (writer.poll_write slice s.w).1 })
      ]
    ]
  ]

  unfoldable pub finish_answer : Poll Unit → Copy → Part
  finish_answer pending s = (some waits, s)
  finish_answer (failed e) s = (some (fails e), s)
  finish_answer (done u) s = (some (finished s.c.amt), s)

  -- The last part: at the end of the stream, flush and finish.
  unfoldable pub finish_if : Bool → Copy → Part
  finish_if false s = (none, s)
  finish_if true s = let (f, w) = writer.poll_flush s.w in finish_answer f (record s { w = w })

  unfoldable pub finish : Copy → Part
  finish s = finish_if ((s.c.pos == s.c.cap) && s.c.read_done) s

  -- `?` and `return`: the next part runs if the last one goes on.
  unfoldable pub and_then : Part → (Copy → Part) → Part
  and_then (some o, s) f = (some o, s)
  and_then (none, s) f = f s

  -- Once through the loop. A write takes at least one byte, so the fuel of the second part is enough.
  unfoldable pub round : Copy → Part
  round s = and_then (and_then (read_in s) (λ t. write_out (suc (t.c.cap - t.c.pos)) t)) finish

  -- `poll_copy`.
  unfoldable pub poll_copy : ℕ → Copy → Copied × Copy
  poll_copy zero s = (out_of_fuel, s)
  poll_copy (suc fuel) s = elim (round s).0 [
    | some o ↦ (o, (round s).1)
    | none ↦ poll_copy fuel (round s).1
  ]
