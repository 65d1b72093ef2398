-- ===== src/UdpConnector.antt =====
-- `UdpConnector` of rd-std/src/util/udp_connector.rs: a socket that binds when the first packet is sent.
-- Sockets and futures are parameters.
pub mod Life
pub mod Tests
use rabbit_digger.Address.{Address, SocketAddr}
use rabbit_digger.Base.{Bytes, ℕ, zero, suc, ◌+◌, Option, none, some, MayPanic, returns, panics}
use rabbit_digger.Base.Io.{IoError, Poll, pending, done, failed}
use rabbit_digger.Net.{NetResult, ok, err, not_found, to_io_err}

-- A UDP socket, and the future of one. A future is ready with a result once; it answers `none` before.
pub record UdpIo : Type 1 where
  pub Udp : Type 0
  pub poll_recv_from : Udp → Poll (Bytes × SocketAddr) × Udp
  pub poll_send_to : Bytes → Address → Udp → Poll ℕ × Udp
  pub local_addr : Udp → NetResult SocketAddr
  pub Fut : Type 0
  pub poll_fut : Fut → Option (NetResult Udp) × Fut

module _ (io : UdpIo) where
  abbrev pub Connector : Type 0
  Connector = Bytes → Address → io.Fut

  -- `State`. `binding none` holds a future that was ready, which panics when it is polled again.
  pub data State : Type 0 where
    idle : Option Connector → State
    binding : Option io.Fut → State
    binded : io.Udp → State

  -- `UdpConnector`, with the permits of its semaphore.
  pub record UdpConnector : Type 0 where
    pub permits : ℕ
    pub state : State

  unfoldable pub new : Connector → UdpConnector
  new connector = record { permits = 0; state = idle (some connector) }

  unfoldable pub address_in : State → NetResult SocketAddr
  address_in (binded udp) = io.local_addr udp
  address_in (idle c) = err not_found
  address_in (binding f) = err not_found

  unfoldable pub local_addr : UdpConnector → NetResult SocketAddr
  local_addr u = address_in u.state

  -- `poll_recv_from`, with the budget that the runtime gives to a poll of the task: each acquire that
  -- gets a permit takes one from it. `none`: the budget is used up; then the acquire answers `Pending`,
  -- nothing has changed, and the task is woken at once, to poll again. A permit is given back as soon
  -- as it is acquired, since the code drops it. That is so, too, of an acquire that was queued by an
  -- earlier poll, so the queue is left out.
  unfoldable pub poll_recv_from : ℕ → ℕ → State → Option (Poll (Bytes × SocketAddr) × UdpConnector)
  poll_recv_from fuel p (binded udp) =
      some (
        (io.poll_recv_from udp).0,
        record { permits = p; state = binded (io.poll_recv_from udp).1 },
      )
  poll_recv_from fuel zero (idle c) = some (pending, record { permits = 0; state = idle c })
  poll_recv_from fuel zero (binding f) = some (pending, record { permits = 0; state = binding f })
  poll_recv_from zero (suc p) (idle c) = none
  poll_recv_from (suc fuel) (suc p) (idle c) = poll_recv_from fuel (suc p) (idle c)
  poll_recv_from zero (suc p) (binding f) = none
  poll_recv_from (suc fuel) (suc p) (binding f) = poll_recv_from fuel (suc p) (binding f)

  unfoldable pub send_binded : Bytes → Address → ℕ → io.Udp → Poll ℕ × UdpConnector
  send_binded buf target p udp =
      let (r, udp') = io.poll_send_to buf target udp in
      (r, record { permits = p; state = binded udp' })

  -- The future was polled: a permit is added once it is ready, whatever its result is.
  unfoldable pub bound :
      Bytes → Address → ℕ → Option (NetResult io.Udp) × io.Fut → Poll ℕ × UdpConnector
  bound buf target p (none, f) = (pending, record { permits = p; state = binding (some f) })
  bound buf target p (some (ok udp), f) = send_binded buf target (p + 1) udp
  bound buf target p (some (err e), f) =
      (failed (to_io_err e), record { permits = p + 1; state = binding none })

  unfoldable pub send_binding :
      Bytes → Address → ℕ → Option io.Fut → MayPanic (Poll ℕ × UdpConnector)
  send_binding buf target p none = panics
  send_binding buf target p (some f) = returns (bound buf target p (io.poll_fut f))

  -- `poll_send_to`; its loop goes through the states in order.
  unfoldable pub send_in : Bytes → Address → ℕ → State → MayPanic (Poll ℕ × UdpConnector)
  send_in buf target p (binded udp) = returns (send_binded buf target p udp)
  send_in buf target p (binding f) = send_binding buf target p f
  send_in buf target p (idle (some connector)) =
      send_binding buf target p (some (connector buf target))
  send_in buf target p (idle none) = panics

  unfoldable pub poll_send_to : Bytes → Address → UdpConnector → MayPanic (Poll ℕ × UdpConnector)
  poll_send_to buf target u = send_in buf target u.permits u.state
