-- ===== src/Running/Alive.antt =====
-- The tasks of a server in src/rabbit_digger/running.rs: none is left behind.
use mathlib.Core.List.{lookup}
use rabbit_digger.Base.{ℕ, some, some-inj, ◌≡◌, refl, Option-cases, Bool-cases, inl, inr}
use rabbit_digger.Running.Server.{
  Ended, cancelled, panicked, finished_ok, start_failed, Task, running, Then, return, spawn,
  joining, other_join, Server, new, task_at, after_join, join, end_task, Step, begin_start,
  begin_stop, begin_join, do_join, do_spawn, do_take, do_write, give_up, others_stop, others_join,
  nothing, task_returns, task_cancelled, Reach, start, then_step,
}
use rabbit_digger.Running.Sound.{
  Sound, joining-Sound, joined-Sound, stop-Sound, other_stop-Sound, finish-Sound, spawn_task-Sound,
  write_state-Sound, take_result-Sound, doing-Sound, set_task-Sound, after_join-ne-writing,
  State-cases,
}

joined_at-Sound :
    (k : Then) (s s' : Server) (n : ℕ) (t : Task)
    → s.state ≡ running n
    → task_at n s ≡ some t
    → join k s ≡ some s'
    → Sound s
    → Sound s'
unfolding join
joined_at-Sound k s s' n t e here done sound = elim (Bool-cases t.closed) [
  | inr open_ ↦ let stuck = rw (join, e, here, open_) at done in cc stuck
  | inl closed ↦ elim (Option-cases t.ended) [
    | inl going ↦ let stuck = rw (join, e, here, closed, going) at done in cc stuck
    | inr (r, over) ↦
        rw (← some-inj (rw (join, e, here, closed, over) at done))
          (finish-Sound n t r (after_join k) s e here over (after_join-ne-writing k) sound)
  ]
]

join-Sound :
    (k : Then) (s s' : Server) → s.doing ≡ joining k → join k s ≡ some s' → Sound s → Sound s'
unfolding join
join-Sound k s s' d done sound = elim (State-cases s.state) [
  | inl e ↦ rw (← some-inj (rw (join, e) at done)) (joined-Sound k s (λ n w. cc) (λ n q. cc) sound)
  | inr (inl (r, e)) ↦
      rw (← some-inj (rw (join, e) at done)) (joined-Sound k s (λ n w. cc) (λ n q. cc) sound)
  | inr (inr (n, e)) ↦
      let (t, here) = sound.current n (inl e) in joined_at-Sound k s s' n t e here done sound
]

pub end_task-ended : (r : Ended) (t : Task) → (end_task r t).ended ≡ some r
unfolding end_task
end_task-ended finished_ok t = refl
end_task-ended (start_failed e) t = refl
end_task-ended cancelled t = refl
end_task-ended panicked t = refl

other_join-Sound :
    (n : ℕ) (t : Task) (r : Ended) (s : Server)
    → s.state ≡ running n
    → task_at n s ≡ some t
    → t.ended ≡ some r
    → Sound s
    → Sound (other_join r s)
unfolding other_join
other_join-Sound n t r s e here over sound =
    finish-Sound n t r s.doing s e here over (λ m w. sound.alone m w n e) sound

Step-Sound : (s s' : Server) → Step s s' → Sound s → Sound s'
Step-Sound s _ (begin_start _ d) sound = stop-Sound spawn s d sound
Step-Sound s _ (begin_stop _ d) sound = stop-Sound return s d sound
Step-Sound s _ (begin_join _ d) sound = joining-Sound return s (λ n w. cc) sound
Step-Sound s s' (do_join _ _ k d done) sound = join-Sound k s s' d done sound
Step-Sound s _ (do_spawn _ d) sound = spawn_task-Sound s d sound
Step-Sound s _ (do_write _ n d) sound = write_state-Sound n s d sound
Step-Sound s _ (give_up _ k d) sound = doing-Sound nothing s (λ n w. cc) (λ n w. cc) (λ h. cc) sound
Step-Sound s _ (do_take _) sound = take_result-Sound s sound
Step-Sound s _ (others_stop _) sound = other_stop-Sound s sound
Step-Sound s _ (others_join _ n t r e here over) sound = other_join-Sound n t r s e here over sound
Step-Sound s _ (task_returns _ n t r here open_ ne) sound =
    set_task-Sound n t (end_task r t) s here (λ h. open_) sound
Step-Sound s _ (task_cancelled _ n t here open_ told) sound =
    set_task-Sound n t (end_task cancelled t) s here (λ h. open_) sound

-- However one start at a time, given up at most while it joins, and stops, joins and takes by any
-- number of callers overlap, and however tasks end, a task that has not ended is the one that the
-- server holds in `State::Running`, or the one that the start has spawned and is about to write
-- there; and from its spawn to that write no other task is in that state.
pub Reach-Sound : (s : Server) → Reach s → Sound s
unfolding new lookup
Reach-Sound _ start = record {
  alive = λ m t e. cc e;
  current = λ n h. elim h [ inl q ↦ cc q | inr w ↦ cc w ];
  ready = λ d n. cc;
  alone = λ m w. cc;
}
Reach-Sound s' (then_step s _ r step) = Step-Sound s s' step (Reach-Sound s r)
