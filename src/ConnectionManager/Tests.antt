-- ===== src/ConnectionManager/Tests.antt =====
-- Runs of the connection manager, and the theorems about it at concrete states.
use mathlib.Core.List.{lookup}
use rabbit_digger.Address.{Address, domain}
use rabbit_digger.Base.{[], ◌∷◌, ◌≡◌, refl, arith, true, false, if◌then◌else◌, length, ℕ_discrete}
use rabbit_digger.Base.Assoc.{insert, remove}
use rabbit_digger.ConnectionManager.{
  tcp, read, ts, new_info, add_download, add_upload, keep_stopper, apply_event, input_event,
  recv_event, connection_count,
}
use rabbit_digger.ConnectionManager.Accounting.{Reach-Balanced}
use rabbit_digger.ConnectionManager.Balanced.{Balanced}
use rabbit_digger.ConnectionManager.Connection.{
  count_at, count_in, count_out, default_conn, event_type, tcp_events, udp_events, get_events,
  sends, open_batches, poll, drop_batches,
}
use rabbit_digger.ConnectionManager.Stop.{
  signal, sent_ok, stop_connection, stop_each, stop_connections, stop_connection_once,
  stop_connections_all, stoppers, those_alive,
}
use rabbit_digger.ConnectionManager.System.{
  Live, System, initial, open_step, in_step, poll_step, drop_step, Reach, start, next, opens,
  receives, polls, drained,
}

program : Unit {0}
unfolding lookup ℕ_discrete insert remove ts new_info add_download add_upload keep_stopper
    apply_event input_event recv_event connection_count count_at count_in count_out default_conn
    event_type tcp_events udp_events get_events sends open_batches poll drop_batches open_step
    in_step poll_step drop_step signal sent_ok stop_connection stop_each stop_connections
program = tt

abbrev host : Address
host = domain (b'h' ∷ []) 80

abbrev opened : System (Unit {0})
opened = open_step 7 tcp host tt 1 0 initial

abbrev fresh_tcp : Live
fresh_tcp = record { conn = default_conn tcp; moved_down = 0; moved_up = 0 }

abbrev received : System (Unit {0})
received = in_step 7 fresh_tcp host 5 opened

abbrev holding : Live
holding = record { conn = count_in (default_conn tcp) host 5; moved_down = 5; moved_up = 0 }

abbrev reported : System (Unit {0})
reported = poll_step 7 holding false true false 0 received

-- after the report the table shows five bytes once the channel is drained
runs :
    ((drained reported).total_download ≡ 5)
    × (connection_count (drained reported) ≡ 1)
    × ((drained received).total_download ≡ 0)
    × (connection_count (drained (drop_step 7 holding 0 received)) ≡ 0)
    × ((drained (drop_step 7 holding 0 received)).total_download ≡ 5)
    × ((stop_connection (λ c. true) 7 (drained reported)).0.signals ≡ 1 ∷ [])
unfolding program
runs = (refl, refl, refl, refl, refl, refl)

-- bytes of a connection that is not in the table are lost
unknown : (apply_event {V = Unit {0}} 3 0 (drained reported) (read 9)).total_download ≡ 5
unfolding program
unknown = refl

reported-Reach : Reach reported
unfolding program
reported-Reach =
    next
      (next (next start (opens initial 7 tcp host tt 1 0 refl))
        (receives opened 7 fresh_tcp host 5 refl))
      (polls received 7 holding false true false 0 refl)

Reach-Balanced_example : Balanced reported
Reach-Balanced_example = Reach-Balanced reported-Reach

stop_connection_once_example :
    let s = drained reported in
    let (first, stopped) = stop_connection (λ c. true) 7 s in
    let (second, again) = stop_connection (λ c. true) 7 first.state in
    (length first.signals ≡ (if stopped then 1 else 0))
    × (second.signals ≡ [])
    × (again ≡ false)
    × ((stop_connection (λ c. true) 8 first.state).0.signals
        ≡ (stop_connection (λ c. true) 8 s).0.signals)
    × ((stop_connection (λ c. true) 8 first.state).1 ≡ (stop_connection (λ c. true) 8 s).1)
stop_connection_once_example = stop_connection_once (λ c. true) 7 8 (drained reported) (omega arith)

stop_connections_all_example :
    let s = drained reported in
    let (first, stopped) = stop_connections (λ c. true) s in
    let (second, again) = stop_connections (λ c. true) first.state in
    (first.signals ≡ those_alive (λ c. true) (stoppers s.connections))
    × (length first.signals ≡ stopped)
    × (first.state.total_upload ≡ s.total_upload)
    × (first.state.total_download ≡ s.total_download)
    × (second.signals ≡ [])
    × (again ≡ 0)
    × ((stop_connection (λ c. true) 7 first.state).0.signals ≡ [])
    × ((stop_connection (λ c. true) 7 first.state).1 ≡ false)
stop_connections_all_example = stop_connections_all (λ c. true) 7 (drained reported)
