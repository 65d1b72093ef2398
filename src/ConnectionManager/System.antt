-- ===== src/ConnectionManager/System.antt =====
-- The manager with its connections, as the tasks of src/rabbit_digger/connection_manager.rs run:
-- connections send events into one channel, and the manager's task takes them out in order. Any
-- number of connections take steps in any order.
use mathlib.Core.List.{lookup}
use rabbit_digger.Address.{Address}
use rabbit_digger.Base.{ℕ, ◌+◌, List, [], ◌∷◌, ◌++◌, Option, none, some, ◌≡◌, map, Bool, ℕ_discrete}
use rabbit_digger.Base.Assoc.{insert, remove}
use rabbit_digger.ConnectionManager.{
  EventType, Event, ConnectionState, Protocol, input_event, recv_event, empty_state,
}
use rabbit_digger.ConnectionManager.Connection.{
  ConnType, count_in, count_out, default_conn, open_batches, poll, drop_batches,
}

-- A connection with the bytes that it has moved since it was opened, which the code never adds up.
pub record Live : Type 0 where
  pub conn : ConnType
  pub moved_down : ℕ
  pub moved_up : ℕ

pub record System (V : Type 0) : Type 0 where
  pub state : ConnectionState V
  pub channel : List (Event V)
  pub live : List (ℕ × Live)
  -- all the bytes that connections have moved since the start
  pub all_down : ℕ
  pub all_up : ℕ

module _ {V : Type 0} where
  abbrev pub initial : System V
  initial = record { state = empty_state; channel = []; live = []; all_down = 0; all_up = 0 }

  abbrev pub stamp : ℕ → ℕ → List (EventType V) → Event V
  stamp uuid time events = record { uuid = uuid; events = events; time = time }

  -- The batches go to the end of the channel.
  abbrev pub post : ℕ → ℕ → List (List (EventType V)) → System V → System V
  post uuid time batches s = record s { channel = s.channel ++ map (stamp uuid time) batches }

  abbrev pub live_at : ℕ → System V → Option Live
  live_at uuid s = lookup ℕ_discrete uuid s.live

  abbrev pub set_live : ℕ → Live → System V → System V
  set_live uuid l s = record s { live = insert ℕ_discrete uuid l s.live }

  -- `new_connection`; the sender of the stop channel goes by the number `stopper`.
  unfoldable pub open_step : ℕ → Protocol → Address → V → ℕ → ℕ → System V → System V
  open_step uuid p addr ctx stopper time s =
      post uuid time (open_batches (default_conn p) addr ctx stopper)
        (set_live uuid (record { conn = default_conn p; moved_down = 0; moved_up = 0 }) s)

  unfoldable pub in_step : ℕ → Live → Address → ℕ → System V → System V
  in_step uuid l addr size s =
      record (set_live uuid
        (record l { conn = count_in l.conn addr size; moved_down = l.moved_down + size }) s) {
          all_down = s.all_down + size;
        }

  unfoldable pub out_step : ℕ → Live → Address → ℕ → System V → System V
  out_step uuid l addr size s =
      record (set_live uuid
        (record l { conn = count_out l.conn addr size; moved_up = l.moved_up + size }) s) {
          all_up = s.all_up + size;
        }

  -- A poll, which panics if an earlier one has `seen` the stop; what it sent before stays sent, and the
  -- connection is left to be dropped.
  unfoldable pub poll_step : ℕ → Live → Bool → Bool → Bool → ℕ → System V → System V
  poll_step uuid l seen heartbeat stopped time s =
      let p = poll seen heartbeat stopped l.conn in
      post uuid time p.batches (set_live uuid (record l { conn = p.conn }) s)

  unfoldable pub drop_step : ℕ → Live → ℕ → System V → System V
  drop_step uuid l time s =
      post uuid time (drop_batches l.conn) (record s { live = remove ℕ_discrete uuid s.live })

-- One step of some task. A uuid is new when no open connection has it.
pub data Step {V : Type 0} : System V → System V → Type 0 where
  opens :
      (s : System V) (uuid : ℕ) (p : Protocol) (addr : Address) (ctx : V) (stopper time : ℕ)
      → live_at uuid s ≡ none
      → Step s (open_step uuid p addr ctx stopper time s)
  receives :
      (s : System V) (uuid : ℕ) (l : Live) (addr : Address) (size : ℕ)
      → live_at uuid s ≡ some l
      → Step s (in_step uuid l addr size s)
  transmits :
      (s : System V) (uuid : ℕ) (l : Live) (addr : Address) (size : ℕ)
      → live_at uuid s ≡ some l
      → Step s (out_step uuid l addr size s)
  polls :
      (s : System V) (uuid : ℕ) (l : Live) (seen heartbeat stopped : Bool) (time : ℕ)
      → live_at uuid s ≡ some l
      → Step s (poll_step uuid l seen heartbeat stopped time s)
  drops :
      (s : System V) (uuid : ℕ) (l : Live) (time : ℕ)
      → live_at uuid s ≡ some l
      → Step s (drop_step uuid l time s)
  delivers :
      (s : System V) (e : Event V) (rest : List (Event V))
      → s.channel ≡ e ∷ rest
      → Step s (record s { state = input_event s.state e; channel = rest })

pub data Reach {V : Type 0} : System V → Type 0 where
  start : Reach initial
  next : {s t : System V} → Reach s → Step s t → Reach t

module _ {V : Type 0} where
  -- The table once the manager has taken everything out of the channel.
  abbrev pub drained : System V → ConnectionState V
  drained s = recv_event s.state s.channel
