-- ===== src/Peekable.antt =====
-- `PeekableTcpStream` of rd-std/src/util/peekable_tcpstream.rs: a stream whose first bytes can be
-- looked at before they are read.
pub mod Order
mod Tests
use rabbit_digger.Base.{
  Bytes, ℕ, suc, ◌+◌, ◌-◌, ◌<◌, List, [], ◌∷◌, ◌++◌, Option, none, some, Bool, true, false,
  if◌then◌else◌, ltb, length, take, drop, ◌≡◌, MayPanic, returns, ◌>>=◌, at_range, min,
}

-- The inner stream. `incoming` is what is still to come out of it: what a read hands out comes off
-- its front, and a read that is pending or fails hands out nothing.
pub record Source : Type 1 where
  pub Tcp : Type 0
  pub read_some : ℕ → Tcp → Option Bytes × Tcp
  pub read_exact : ℕ → Tcp → Option Bytes × Tcp
  pub incoming : Tcp → Bytes
  pub read_some-incoming :
      (n : ℕ) (t : Tcp) {b : Bytes}
      → (read_some n t).0 ≡ some b
      → incoming t ≡ b ++ incoming (read_some n t).1
  pub read_some_none :
      (n : ℕ) (t : Tcp) → (read_some n t).0 ≡ none → incoming (read_some n t).1 ≡ incoming t
  pub read_exact-incoming :
      (n : ℕ) (t : Tcp) {b : Bytes}
      → (read_exact n t).0 ≡ some b
      → (length b ≡ n) × (incoming t ≡ b ++ incoming (read_exact n t).1)

module _ (source : Source) where
  open source use {Tcp, read_some, read_exact}

  pub record PeekableTcpStream : Type 0 where
    pub tcp : Tcp
    pub buf : Bytes

  unfoldable pub new : Tcp → PeekableTcpStream
  new t = record { tcp = t; buf = [] }

  -- `poll_read` with the first slice of the buffer.
  unfoldable pub read_first : Bytes → ℕ → PeekableTcpStream → Option Bytes × PeekableTcpStream
  read_first [] remaining p = let (r, t) = read_some remaining p.tcp in (r, record p { tcp = t })
  read_first (b ∷ first) remaining p =
      let read = min (length (b ∷ first)) remaining in
      (some (take read (b ∷ first)), record p { buf = drop read p.buf })

  -- `poll_read` into a buffer with so many bytes left. The ring buffer wraps around after `wrap` more
  -- bytes than one, which is where `as_slices` cuts it.
  unfoldable pub poll_read : ℕ → ℕ → PeekableTcpStream → Option Bytes × PeekableTcpStream
  poll_read wrap remaining p = read_first (take (suc wrap) p.buf) remaining p

  -- `fill_buf`: whether it succeeded.
  unfoldable pub fill_buf : ℕ → PeekableTcpStream → Bool × PeekableTcpStream
  fill_buf size p =
      if ltb (length p.buf) size
      then (let (r, t) = read_exact (size - length p.buf) p.tcp in
          elim r [
            | some b ↦ (true, record { tcp = t; buf = p.buf ++ b })
            | none ↦ (false, record p { tcp = t })
          ])
      else (true, p)

  -- What `peek_exact` does after `fill_buf`.
  unfoldable pub peek_filled :
      ℕ → Bool → PeekableTcpStream → MayPanic (Option Bytes × PeekableTcpStream)
  peek_filled size false p = returns (none, p)
  peek_filled size true p = at_range p.buf 0 size >>= λ b. returns (some b, p)

  -- `peek_exact` into a buffer of `size` bytes: none is an error.
  unfoldable pub peek_exact : ℕ → PeekableTcpStream → MayPanic (Option Bytes × PeekableTcpStream)
  peek_exact size p = let (good, p') = fill_buf size p in peek_filled size good p'

  unfoldable pub into_inner : PeekableTcpStream → Tcp × Bytes
  into_inner p = (p.tcp, p.buf)
