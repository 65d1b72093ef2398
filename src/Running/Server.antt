-- ===== src/Running/Server.antt =====
-- `RunningServer` of src/rabbit_digger/running.rs: a server that is started, stopped and joined. One
-- caller starts it, one start at a time; others stop it, join it and take its result at any time,
-- while its tasks run on their own.
use rabbit_digger.Base.{
  ℕ, ◌+◌, List, [], Option, none, some, Bool, true, false, if◌then◌else◌, ◌≡◌, ◌≢◌, ℕ_discrete,
}
use mathlib.Core.List.{lookup}
use rabbit_digger.Base.Assoc.{insert}

-- How a task ends: what `server.start` returned, or `JoinError` after an abort or a panic.
pub data Ended : Type 0 where
  finished_ok : Ended
  start_failed : ℕ → Ended
  cancelled panicked : Ended

-- A task that runs the server, with its semaphore: how it ended, whether it was told to abort, and
-- whether the semaphore is closed.
pub record Task : Type 0 where
  pub ended : Option Ended
  pub aborted : Bool
  pub closed : Bool

-- `State`: the handle of a task and its semaphore go by the task's number.
pub data State : Type 0 where
  idle : State
  running : ℕ → State
  finished : Ended → State

-- What an operation does once the join that it waits for is over.
pub data Then : Type 0 where
  return spawn : Then

-- What the caller that starts the server is at: nothing, a join, the rest of `start`, or the write of
-- the state once the task was spawned.
pub data Doing : Type 0 where
  nothing : Doing
  joining : Then → Doing
  spawning : Doing
  writing : ℕ → Doing

pub record Server : Type 0 where
  pub state : State
  pub tasks : List (ℕ × Task)
  pub next : ℕ
  pub doing : Doing

-- `RunningServer::new`.
unfoldable pub new : Server
new = record { state = idle; tasks = []; next = 0; doing = nothing }

abbrev pub task_at : ℕ → Server → Option Task
task_at n s = lookup ℕ_discrete n s.tasks

abbrev pub set_task : ℕ → Task → Server → Server
set_task n t s = record s { tasks = insert ℕ_discrete n t s.tasks }

unfoldable pub after_join : Then → Doing
after_join return = nothing
after_join spawn = spawning

-- `handle.abort()` and `semaphore.close()`.
unfoldable pub abort : Task → Task
abort t = record t { aborted = true; closed = true }

unfoldable pub abort_at : ℕ → Server → Server
abort_at n s = elim (task_at n s) [ some t ↦ set_task n (abort t) s | none ↦ s ]

-- `stop` in a state, up to its join; `start` stops first.
unfoldable pub stop_in : State → Then → Server → Server
stop_in (running n) k s = record (abort_at n s) { doing = joining k }
stop_in _ k s = record s { doing = after_join k }

unfoldable pub stop : Then → Server → Server
stop k s = stop_in s.state k s

-- The end of `join`: none while it waits, for the semaphore or for the task.
unfoldable pub join : Then → Server → Option Server
join k s = elim s.state [
  | running n ↦ elim (task_at n s) [
    | none ↦ none
    | some t ↦
        if t.closed
        then elim t.ended [
          | none ↦ none
          | some r ↦ some (record s { state = finished r; doing = after_join k })
        ]
        else none
  ]
  | idle ↦ some (record s { doing = after_join k })
  | finished r ↦ some (record s { doing = after_join k })
]

-- The rest of `start`: the task runs before the state is written.
unfoldable pub spawn_task : Server → Server
spawn_task s =
    record (set_task s.next (record { ended = none; aborted = false; closed = false }) s) {
      next = s.next + 1;
      doing = writing s.next;
    }

-- `*self.state.write().await = State::Running { … }`: the handle in the state before is dropped.
unfoldable pub write_state : ℕ → Server → Server
write_state n s = record s { state = running n; doing = nothing }

unfoldable pub take_result : Server → Option Ended × Server
take_result s = elim s.state [
  | finished r ↦ (some r, record s { state = idle })
  | idle ↦ (none, s)
  | running n ↦ (none, s)
]

-- A stop and the end of a join by another caller. Its join may have waited for the semaphore of an
-- earlier task; it holds the lock on the state while it waits for the task that is there.
unfoldable pub other_stop : Server → Server
other_stop s = record (stop return s) { doing = s.doing }

unfoldable pub other_join : Ended → Server → Server
other_join r s = record s { state = finished r }

-- The task is over: `server_start` has returned and the semaphore is closed, or it was aborted, or it
-- panicked.
unfoldable pub end_task : Ended → Task → Task
end_task finished_ok t = record t { ended = some finished_ok; closed = true }
end_task (start_failed e) t = record t { ended = some (start_failed e); closed = true }
end_task cancelled t = record t { ended = some cancelled }
end_task panicked t = record t { ended = some panicked }

-- One step: the caller begins an operation, goes on with it, or gives it up while it joins; another
-- caller stops, joins or takes the result; or a task ends. Only a task that was told to abort ends as
-- cancelled.
pub data Step : Server → Server → Type 0 where
  begin_start : (s : Server) → s.doing ≡ nothing → Step s (stop spawn s)
  begin_stop : (s : Server) → s.doing ≡ nothing → Step s (stop return s)
  begin_join : (s : Server) → s.doing ≡ nothing → Step s (record s { doing = joining return })
  do_join : (s s' : Server) (k : Then) → s.doing ≡ joining k → join k s ≡ some s' → Step s s'
  do_spawn : (s : Server) → s.doing ≡ spawning → Step s (spawn_task s)
  do_write : (s : Server) (n : ℕ) → s.doing ≡ writing n → Step s (write_state n s)
  give_up : (s : Server) (k : Then) → s.doing ≡ joining k → Step s (record s { doing = nothing })
  do_take : (s : Server) → Step s (take_result s).1
  others_stop : (s : Server) → Step s (other_stop s)
  others_join :
      (s : Server) (n : ℕ) (t : Task) (r : Ended)
      → s.state ≡ running n
      → task_at n s ≡ some t
      → t.ended ≡ some r
      → Step s (other_join r s)
  task_returns :
      (s : Server) (n : ℕ) (t : Task) (r : Ended)
      → task_at n s ≡ some t
      → t.ended ≡ none
      → r ≢ cancelled
      → Step s (set_task n (end_task r t) s)
  task_cancelled :
      (s : Server) (n : ℕ) (t : Task)
      → task_at n s ≡ some t
      → t.ended ≡ none
      → t.aborted ≡ true
      → Step s (set_task n (end_task cancelled t) s)

pub data Reach : Server → Type 0 where
  start : Reach new
  then_step : (s s' : Server) → Reach s → Step s s' → Reach s'
