-- ===== src/Running/Tests.antt =====
-- Runs of the running nets and servers, and the theorems about them at concrete ones.
use mathlib.Core.List.{lookup}
use rabbit_digger.Address.{Address, domain, SocketAddr, socket_v4}
use rabbit_digger.Base.{
  Bytes, ℕ, List, [], ◌∷◌, ◌++◌, none, some, true, false, ◌≡◌, refl, ℕ_discrete, returns, panics,
}
use rabbit_digger.CompactVecString.Represents.{Represents, from_iter-Represents}
use rabbit_digger.ConnectionManager.{tcp, udp}
use rabbit_digger.Base.Assoc.{insert}
use rabbit_digger.ConnectionManager.Connection.{default_conn, poll, get_events, tcp_events}
use rabbit_digger.Context.{Context, Field}
use rabbit_digger.Context.Tests.{Value, socket, domain_port, as_socket, as_domain, of_client}
use rabbit_digger.Net.{
  Net, Sockets, ok, tcp_connect as connect, tcp_bind as bind, udp_bind as bind_udp,
  lookup_host as find_host,
}
use rabbit_digger.Running.Alive.{Reach-Sound}
use rabbit_digger.Running.Sound.{Sound}
use rabbit_digger.Running.Chain.{chain, chain_lem}
use rabbit_digger.Running.Nets.{RunningServerNet}
use rabbit_digger.Running.Server.{
  Server, spawn, new, stop, join, set_task, abort, after_join, spawn_task, running, stop_in, Task,
  nothing, Reach, start, then_step, begin_start, do_spawn, do_write, others_stop, write_state,
  other_stop, abort_at, return, panicked,
}
use rabbit_digger.Running.Traffic.{
  Call, read_call, write_call, recv_call, send_call, run, Accounted, run-Accounted,
}
use rabbit_digger.Running.Wrap.{pending, done, failed, aborted_by_user, poll_read, unless_aborted}

abbrev calls : List Call
calls =
    read_call false false false (done (1 ∷ 2 ∷ 3 ∷ [])) (9 ∷ [])
    ∷ write_call (done 7)
    ∷ read_call false true false pending []
    ∷ recv_call false false false (done (socket_v4 1 2, 5 ∷ 6 ∷ [])) []
    ∷ send_call (done 2) (5 ∷ 6 ∷ []) (domain [] 0)
    ∷ read_call false true true (done (4 ∷ [])) []
    ∷ read_call true false false (done (4 ∷ [])) []
    ∷ []

run-Accounted_example : Accounted {V = Value} (default_conn udp) (run calls (default_conn udp))
run-Accounted_example = run-Accounted Value calls (default_conn udp) (refl, (refl, tt))

-- A stopped read fails, and another one panics.
stopped_reads :
    ((poll_read {V = Value} false false true (done (4 ∷ [])) [] (default_conn tcp)).result
      ≡ returns (failed aborted_by_user))
    × ((poll_read {V = Value} true false true (done (4 ∷ [])) [] (default_conn tcp)).result
        ≡ panics)
unfolding poll_read unless_aborted poll get_events tcp_events
stopped_reads = (refl, refl)

-- Streams and sockets that are numbers.
abbrev numbers : Sockets
numbers = record { TcpStream = ℕ; TcpListener = ℕ; UdpSocket = ℕ }

-- A net that connects, and does nothing else.
abbrev direct : Net Value numbers
direct = record {
  provide_tcp_connect = some (λ ctx addr. (ok 5, ctx));
  provide_tcp_bind = none;
  provide_udp_bind = none;
  provide_lookup_host = none;
}

abbrev target : Address
target = domain (b'a' ∷ []) 80

abbrev two_names : List Bytes
two_names = (b'x' ∷ []) ∷ (b'y' ∷ []) ∷ []

chain_lem_example :
    (inner : Context Value) × Represents inner.net_list (((b'a' ∷ []) ∷ []) ++ two_names)
    × (inner.entries ≡ of_client.entries)
    × (connect (chain two_names direct) of_client target ≡ connect direct inner target)
    × (bind (chain two_names direct) of_client target ≡ bind direct inner target)
    × (bind_udp (chain two_names direct) of_client target ≡ bind_udp direct inner target)
    × (find_host (chain two_names direct) target ≡ find_host direct target)
chain_lem_example =
    chain_lem two_names direct of_client target (from_iter-Represents ((b'a' ∷ []) ∷ []))

abbrev domains : Field Value (Bytes × ℕ)
domains = record { to_json = λ d. some (domain_port d.0 d.1); from_json = as_domain }

abbrev socket_addrs : Field Value SocketAddr
socket_addrs = record { to_json = λ s. some (socket s); from_json = as_socket }

abbrev server_net : RunningServerNet Value numbers
server_net = record { server_name = b's' ∷ []; server_net = direct }

program : Unit {0}
unfolding stop stop_in after_join spawn_task new write_state other_stop abort_at abort lookup insert
    ℕ_discrete join
program = tt

abbrev spawned : Server
spawned = spawn_task (stop spawn new)

-- A server that was started once, and then told by another caller to stop.
abbrev stopped : Server
stopped = other_stop (write_state 0 spawned)

stopped-Reach : Reach stopped
unfolding program
stopped-Reach =
    then_step (write_state 0 spawned) stopped
      (then_step spawned (write_state 0 spawned)
        (then_step (stop spawn new) spawned
          (then_step new (stop spawn new) start (begin_start new refl))
          (do_spawn (stop spawn new) refl))
        (do_write spawned 0 refl))
      (others_stop (write_state 0 spawned))

-- The task was told to abort; a task that panics leaves the join waiting.
server_runs :
    (stopped.tasks ≡ (0, record { ended = none; aborted = true; closed = true }) ∷ [])
    × (join return (
          set_task 0
            (record { ended = some panicked; aborted = false; closed = false })
            (write_state 0 spawned))
        ≡ none)
unfolding program
server_runs = (refl, refl)

Reach-Sound_example : Sound stopped
Reach-Sound_example = Reach-Sound stopped stopped-Reach

abbrev busy : Server
busy = record {
  state = running 0;
  tasks = (0, record { ended = none; aborted = false; closed = false }) ∷ [];
  next = 1;
  doing = nothing;
}

abbrev first_task : Task
first_task = record { ended = none; aborted = false; closed = false }
