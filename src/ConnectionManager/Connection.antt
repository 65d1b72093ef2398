-- ===== src/ConnectionManager/Connection.antt =====
-- The side of the connections in src/rabbit_digger/connection_manager.rs: what a TCP or UDP
-- connection counts between two reports, and when it reports.
use mathlib.Core.List.{lookup}
use rabbit_digger.Address.{Address, Address-discrete}
use rabbit_digger.Base.{
  MayPanic, panics, returns, ℕ, List, [], ◌∷◌, ◌++◌, none, some, map, Bool, ltb, if◌then◌else◌,
}
use rabbit_digger.Base.Assoc.{insert}
use rabbit_digger.ConnectionManager.{
  Protocol, tcp, udp, add64, EventType, new_tcp, new_udp, set_stopper, close_connection, write,
  read, send_to, recv_from,
}

-- The counters of `Tcp`.
pub record Tcp : Type 0 where
  pub read_size : ℕ
  pub write_size : ℕ

-- The counters of `Udp`, by the address of the other side.
pub record Udp : Type 0 where
  pub received : List (Address × ℕ)
  pub sent : List (Address × ℕ)

-- The types that implement `ConnType`.
pub data ConnType : Type 0 where
  tcp_conn : Tcp → ConnType
  udp_conn : Udp → ConnType

-- `.entry(addr).and_modify(|e| *e += size).or_insert(size)`.
unfoldable pub count_at : Address → ℕ → List (Address × ℕ) → List (Address × ℕ)
count_at addr size m = elim (lookup Address-discrete addr m) [
  | some e ↦ insert Address-discrete addr (add64 e size) m
  | none ↦ insert Address-discrete addr size m
]

-- `Connection::read` and `Connection::recv_from`: the address matters for UDP alone.
unfoldable pub count_in : ConnType → Address → ℕ → ConnType
count_in (tcp_conn t) addr size = tcp_conn (record t { read_size = add64 t.read_size size })
count_in (udp_conn u) addr size = udp_conn (record u { received = count_at addr size u.received })

-- `Connection::write` and `Connection::send_to`.
unfoldable pub count_out : ConnType → Address → ℕ → ConnType
count_out (tcp_conn t) addr size = tcp_conn (record t { write_size = add64 t.write_size size })
count_out (udp_conn u) addr size = udp_conn (record u { sent = count_at addr size u.sent })

-- `T::default()` of either type.
unfoldable pub default_conn : Protocol → ConnType
default_conn tcp = tcp_conn (record { read_size = 0; write_size = 0 })
default_conn udp = udp_conn (record { received = []; sent = [] })

-- What a poll leaves and reports, and whether it fails with "Aborted by user", or panics.
pub record Polled (V : Type 0) : Type 0 where
  pub conn : ConnType
  pub batches : List (List (EventType V))
  pub aborted : MayPanic Bool

module _ {V : Type 0} where
  unfoldable pub event_type : ConnType → Address → V → EventType V
  event_type (tcp_conn t) addr ctx = new_tcp addr ctx
  event_type (udp_conn u) addr ctx = new_udp addr ctx

  -- `get_events` of `Tcp`: a counter is reported and reset if it is positive.
  unfoldable pub tcp_events : Tcp → List (EventType V) × Tcp
  tcp_events t =
      let reads = if ltb 0 t.read_size then read t.read_size ∷ [] else [] in
      let writes = if ltb 0 t.write_size then write t.write_size ∷ [] else [] in
      (
        reads ++ writes,
        record {
          read_size = if ltb 0 t.read_size then 0 else t.read_size;
          write_size = if ltb 0 t.write_size then 0 else t.write_size;
        },
      )

  -- `get_events` of `Udp`: both maps are drained.
  unfoldable pub udp_events : Udp → List (EventType V) × Udp
  udp_events u = (
    map (λ e. recv_from e.0 e.1) u.received ++ map (λ e. send_to e.0 e.1) u.sent,
    record { received = []; sent = [] },
  )

  unfoldable pub get_events : ConnType → List (EventType V) × ConnType
  get_events (tcp_conn t) = let (events, t') = tcp_events t in (events, tcp_conn t')
  get_events (udp_conn u) = let (events, u') = udp_events u in (events, udp_conn u')

  -- `send`: a batch with no event is not sent.
  unfoldable pub sends : List (EventType V) → List (List (EventType V))
  sends [] = []
  sends (e ∷ es) = (e ∷ es) ∷ []

  -- `Connection::new`: what is sent first.
  unfoldable pub open_batches : ConnType → Address → V → ℕ → List (List (EventType V))
  open_batches c addr ctx stopper = sends (event_type c addr ctx ∷ set_stopper stopper ∷ [])

  -- `Connection::poll`: a report at a heartbeat, then the error if the connection was stopped. The
  -- receiver of the stop channel panics if an earlier poll has seen the stop.
  unfoldable pub poll : Bool → Bool → Bool → ConnType → Polled V
  poll seen heartbeat stopped c =
      let (events, c') = get_events c in
      let aborted = if seen then panics else returns stopped in
      if heartbeat
      then record { conn = c'; batches = sends events; aborted = aborted }
      else record { conn = c; batches = []; aborted = aborted }

  -- `Drop`: a last report, and the closing event.
  unfoldable pub drop_batches : ConnType → List (List (EventType V))
  drop_batches c = let (events, c') = get_events c in sends events ++ sends (close_connection ∷ [])
