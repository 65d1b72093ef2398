-- ===== src/ConnectTcp/Both.antt =====
-- `TransferState`, `transfer_one_direction` and `CopyBidirectional` of
-- rd-std/src/context/connect_tcp.rs: both directions between two streams.
pub mod Transfer
pub mod Delivered
use rabbit_digger.Base.{ℕ}
use rabbit_digger.Base.Io.{IoError, Poll, pending, done, failed, Stream}
use rabbit_digger.ConnectTcp.{
  CopyBuffer, Copied, waits, finished, fails, panicked, out_of_fuel, Copy, new, poll_copy,
}

pub data TransferState : Type 0 where
  running : CopyBuffer → TransferState
  shutting_down ended : ℕ → TransferState

module _ (reader writer : Stream) where
  pub record Direction : Type 0 where
    pub state : TransferState
    pub r : reader.T
    pub w : writer.T

  unfoldable pub shutdown_answer : Poll Unit → ℕ → Direction → Copied × Direction
  shutdown_answer pending n d = (waits, d)
  shutdown_answer (failed e) n d = (fails e, d)
  shutdown_answer (done u) n d = (finished n, record d { state = ended n })

  unfoldable pub shut_down : ℕ → reader.T → writer.T → Copied × Direction
  shut_down n r w =
      let (p, w') = writer.poll_shutdown w in
      shutdown_answer p n (record { state = shutting_down n; r = r; w = w' })

  unfoldable pub after_copy : Copied × Copy reader writer → Copied × Direction
  after_copy (finished n, s) = shut_down n s.r s.w
  after_copy (waits, s) = (waits, record { state = running s.c; r = s.r; w = s.w })
  after_copy (fails e, s) = (fails e, record { state = running s.c; r = s.r; w = s.w })
  after_copy (panicked, s) = (panicked, record { state = running s.c; r = s.r; w = s.w })
  after_copy (out_of_fuel, s) = (out_of_fuel, record { state = running s.c; r = s.r; w = s.w })

  -- `transfer_one_direction`; its loop goes through the states in order.
  unfoldable pub transfer : ℕ → TransferState → reader.T → writer.T → Copied × Direction
  transfer fuel (running c) r w =
      after_copy (poll_copy reader writer fuel (record { c = c; r = r; w = w }))
  transfer fuel (shutting_down n) r w = shut_down n r w
  transfer fuel (ended n) r w = (finished n, record { state = ended n; r = r; w = w })

-- `Poll<io::Result<()>>` of the whole.
pub data Polled : Type 0 where
  still_pending ready_ok poll_panicked poll_out_of_fuel : Polled
  ready_err : IoError → Polled

-- `(a_to_b, b_to_a)` at the end of the poll.
unfoldable pub both_answers : Copied → Copied → Polled
both_answers waits waits = still_pending
both_answers waits (finished n) = ready_ok
both_answers (finished n) waits = ready_ok
both_answers (finished n) (finished m) = ready_ok
both_answers panicked q = poll_panicked
both_answers out_of_fuel q = poll_out_of_fuel
both_answers (fails e) q = ready_err e
both_answers waits panicked = poll_panicked
both_answers (finished n) panicked = poll_panicked
both_answers waits out_of_fuel = poll_out_of_fuel
both_answers (finished n) out_of_fuel = poll_out_of_fuel
both_answers waits (fails e) = ready_err e
both_answers (finished n) (fails e) = ready_err e

module _ (stream_a stream_b : Stream) where
  pub record CopyBidirectional : Type 0 where
    pub a : stream_a.T
    pub b : stream_b.T
    pub a_to_b : TransferState
    pub b_to_a : TransferState

  -- `connect_tcp` begins with two empty buffers of 8192 bytes.
  unfoldable pub start : stream_a.T → stream_b.T → CopyBidirectional
  start a b = record { a = a; b = b; a_to_b = running (new 8192); b_to_a = running (new 8192) }

  unfoldable pub second : ℕ → Copied → CopyBidirectional → Polled × CopyBidirectional
  second fuel o s =
      let (q, d) = transfer stream_b stream_a fuel s.b_to_a s.b s.a in
      (both_answers o q, record s { a = d.w; b = d.r; b_to_a = d.state })

  -- The first direction is done; an error of it is returned at once.
  unfoldable pub after_first : ℕ → Copied → CopyBidirectional → Polled × CopyBidirectional
  after_first fuel (fails e) s = (ready_err e, s)
  after_first fuel panicked s = (poll_panicked, s)
  after_first fuel out_of_fuel s = (poll_out_of_fuel, s)
  after_first fuel waits s = second fuel waits s
  after_first fuel (finished n) s = second fuel (finished n) s

  -- `poll`.
  unfoldable pub poll : ℕ → CopyBidirectional → Polled × CopyBidirectional
  poll fuel s =
      let (p, d) = transfer stream_a stream_b fuel s.a_to_b s.a s.b in
      after_first fuel p (record s { a = d.r; b = d.w; a_to_b = d.state })
