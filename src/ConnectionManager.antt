-- ===== src/ConnectionManager.antt =====
-- `ConnectionState` of src/rabbit_digger/connection_manager.rs, with the events of
-- src/rabbit_digger/event.rs: the table of connections and the byte counters that the manager's
-- task keeps. A uuid, a stop channel and a byte count are numbers, and a time is its nanoseconds
-- since the epoch; `V` stands for a context that is serialised as a JSON value.
pub mod Connection
pub mod Stop
pub mod Charged
pub mod Pending
pub mod System
pub mod Balanced
pub mod BalancedUpdate
pub mod Opened
pub mod Accounting
mod Tests
use mathlib.Core.List.{lookup}
use rabbit_digger.Address.{Address}
use rabbit_digger.Base.{
  ℕ, ◌+◌, ◌/◌, ◌%◌, ◌^◌, List, [], ◌∷◌, Option, none, some, foldl, length, ℕ_discrete,
}
use rabbit_digger.Base.Assoc.{insert, remove}

-- 2 ^ 64.
abbrev pub u64_mod : ℕ
u64_mod = 18446744073709551616

-- `fetch_add` of an `AtomicU64`, and `+=` on a `u64`, wrap around.
abbrev pub add64 : ℕ → ℕ → ℕ
add64 a b = (a + b) % u64_mod

-- `Protocol`.
pub data Protocol : Type 0 where
  tcp udp : Protocol

pub data EventType (V : Type 0) : Type 0 where
  new_tcp : Address → V → EventType V
  new_udp : Address → V → EventType V
  set_stopper : ℕ → EventType V
  close_connection : EventType V
  write : ℕ → EventType V
  read : ℕ → EventType V
  send_to : Address → ℕ → EventType V
  recv_from : Address → ℕ → EventType V

pub record Event (V : Type 0) : Type 0 where
  pub uuid : ℕ
  pub events : List (EventType V)
  pub time : ℕ

pub record ConnectionInfo (V : Type 0) : Type 0 where
  pub protocol : Protocol
  pub addr : Address
  pub start_time : ℕ
  pub ctx : V
  pub upload : ℕ
  pub download : ℕ
  pub stop_sender : Option ℕ

pub record ConnectionState (V : Type 0) : Type 0 where
  pub connections : List (ℕ × ConnectionInfo V)
  pub total_upload : ℕ
  pub total_download : ℕ

-- Whole seconds of a time that is not before the epoch.
unfoldable pub ts : ℕ → ℕ
ts time = time / 1000000000

module _ {V : Type 0} where
  -- `ConnectionState::new`.
  abbrev pub empty_state : ConnectionState V
  empty_state = record { connections = []; total_upload = 0; total_download = 0 }

  abbrev pub find : ℕ → ConnectionState V → Option (ConnectionInfo V)
  find uuid s = lookup ℕ_discrete uuid s.connections

  abbrev pub put : ℕ → ConnectionInfo V → ConnectionState V → ConnectionState V
  put uuid info s = record s { connections = insert ℕ_discrete uuid info s.connections }

  unfoldable pub new_info : Protocol → Address → V → ℕ → ConnectionInfo V
  new_info protocol addr ctx time = record {
    protocol = protocol;
    addr = addr;
    start_time = ts time;
    ctx = ctx;
    upload = 0;
    download = 0;
    stop_sender = none;
  }

  -- `conn.download.fetch_add(n)` with the total, for a connection that is in the table.
  unfoldable pub add_download : ℕ → ℕ → ConnectionState V → ConnectionState V
  add_download uuid n s = elim (find uuid s) [
    | none ↦ s
    | some conn ↦ record (put uuid (record conn { download = add64 conn.download n }) s) {
      total_download = add64 s.total_download n;
    }
  ]

  unfoldable pub add_upload : ℕ → ℕ → ConnectionState V → ConnectionState V
  add_upload uuid n s = elim (find uuid s) [
    | none ↦ s
    | some conn ↦ record (put uuid (record conn { upload = add64 conn.upload n }) s) {
      total_upload = add64 s.total_upload n;
    }
  ]

  unfoldable pub keep_stopper : ℕ → ℕ → ConnectionState V → ConnectionState V
  keep_stopper uuid sender s = elim (find uuid s) [
    | none ↦ s
    | some conn ↦ put uuid (record conn { stop_sender = some sender }) s
  ]

  -- The body of the loop of `input_event`.
  unfoldable pub apply_event : ℕ → ℕ → ConnectionState V → EventType V → ConnectionState V
  apply_event uuid time s (new_tcp addr ctx) = put uuid (new_info tcp addr ctx time) s
  apply_event uuid time s (new_udp addr ctx) = put uuid (new_info udp addr ctx time) s
  apply_event uuid time s (set_stopper sender) = keep_stopper uuid sender s
  apply_event uuid time s (read download) = add_download uuid download s
  apply_event uuid time s (write upload) = add_upload uuid upload s
  apply_event uuid time s (recv_from from download) = add_download uuid download s
  apply_event uuid time s (send_to target upload) = add_upload uuid upload s
  apply_event uuid time s close_connection = record s {
    connections = remove ℕ_discrete uuid s.connections;
  }

  unfoldable pub input_event : ConnectionState V → Event V → ConnectionState V
  input_event s event = foldl (apply_event event.uuid event.time) s event.events

  -- `recv_event`: the events of the channel, in order.
  unfoldable pub recv_event : ConnectionState V → List (Event V) → ConnectionState V
  recv_event = foldl input_event

  unfoldable pub connection_count : ConnectionState V → ℕ
  connection_count s = length s.connections
