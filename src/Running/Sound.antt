-- ===== src/Running/Sound.antt =====
-- What it takes for the server of src/rabbit_digger/running.rs to hold its tasks, and that its
-- operations keep it.
use mathlib.Core.Path.{subst}
use rabbit_digger.Base.{
  ℕ, none, some, some-inj, false, ◌≡◌, ◌≢◌, refl, sym, ◌∙◌, ap, ℕ_discrete, Option-cases, ◌⊎◌, inl,
  inr,
}
use rabbit_digger.Base.Assoc.{lookup-insert_self, lookup-insert_ne}
use rabbit_digger.Running.Server.{
  Ended, Task, State, idle, running, finished, Then, return, spawn, Doing, joining, spawning,
  writing, write_state, other_stop, Server, task_at, set_task, after_join, abort, abort_at, stop_in,
  stop, spawn_task, take_result, nothing,
}

-- The task that the server holds, or that the start has just spawned and is to write down.
abbrev pub Held : Server → ℕ → Type 0
Held s m = (s.state ≡ running m) ⊎ (s.doing ≡ writing m)

-- A task that has not ended is held, and the task that is held is there; a start spawns and writes
-- its task down only while no other is in `State::Running`.
pub record Sound (s : Server) : Type 0 where
  pub alive : (m : ℕ) (t : Task) → task_at m s ≡ some t → t.ended ≡ none → Held s m
  pub current : (n : ℕ) → Held s n → (t : Task) × (task_at n s ≡ some t)
  pub ready : s.doing ≡ spawning → (n : ℕ) → s.state ≢ running n
  pub alone : (m : ℕ) → s.doing ≡ writing m → (n : ℕ) → s.state ≢ running n

-- Replacing a task, by one that is held unless it has ended, loses nothing.
set_task-alive :
    (n : ℕ) (t : Task) (s : Server)
    → (t.ended ≡ none → Held s n)
    → ((m : ℕ) (u : Task) → task_at m s ≡ some u → u.ended ≡ none → Held s m)
    → (m : ℕ) (u : Task) → task_at m (set_task n t s) ≡ some u
    → u.ended ≡ none
    → Held s m
set_task-alive n t s here others m u e open_ = elim (ℕ_discrete m n) [
  | yes p ↦
      rw p
        (here (rw (some-inj (sym (lookup-insert_self ℕ_discrete n t s.tasks) ∙ rw p at e)) open_))
  | no p ↦ others m u (sym (lookup-insert_ne ℕ_discrete n m t s.tasks p) ∙ e) open_
]

set_task-current :
    (n : ℕ) (t : Task) (s : Server) (m : ℕ)
    → (u : Task) × (task_at m s ≡ some u)
    → (u : Task) × (task_at m (set_task n t s) ≡ some u)
set_task-current n t s m (u, e) = elim (ℕ_discrete m n) [
  | yes p ↦ (t, rw p (lookup-insert_self ℕ_discrete n t s.tasks))
  | no p ↦ (u, lookup-insert_ne ℕ_discrete n m t s.tasks p ∙ e)
]

-- A task ends, or is told to abort.
pub set_task-Sound :
    (n : ℕ) (t u : Task) (s : Server)
    → task_at n s ≡ some t
    → (u.ended ≡ none → t.ended ≡ none)
    → Sound s
    → Sound (set_task n u s)
set_task-Sound n t u s here kept sound = record {
  alive = set_task-alive n u s (λ h. sound.alive n t here (kept h)) sound.alive;
  current = λ m e. set_task-current n u s m (sound.current m e);
  ready = sound.ready;
  alone = sound.alone;
}

-- The caller goes on to something else, when it has no task to write down.
pub doing-Sound :
    (d : Doing) (s : Server)
    → ((n : ℕ) → s.doing ≢ writing n)
    → ((n : ℕ) → d ≢ writing n)
    → (d ≡ spawning → (n : ℕ) → s.state ≢ running n)
    → Sound s
    → Sound (record s { doing = d })
doing-Sound d s before after ready sound = record {
  alive =
      λ m t e open_. elim (sound.alive m t e open_) [ inl q ↦ inl q | inr w ↦ absurd (before m w) ];
  current = λ n h. elim h [ inl q ↦ sound.current n (inl q) | inr w ↦ absurd (after n w) ];
  ready = ready;
  alone = λ m w. absurd (after m w);
}

abort_at-Sound : (n : ℕ) (s : Server) → Sound s → Sound (abort_at n s)
unfolding abort_at abort
abort_at-Sound n s sound = elim (Option-cases (task_at n s)) [
  | inl absent ↦ rw (abort_at, absent) sound
  | inr (t, here) ↦ rw (abort_at, here) (set_task-Sound n t (abort t) s here (λ h. h) sound)
]

abort_at-doing : (n : ℕ) (s : Server) → (abort_at n s).doing ≡ s.doing
unfolding abort_at
abort_at-doing n s = elim (Option-cases (task_at n s)) [
  | inl absent ↦ rw (abort_at, absent) refl
  | inr (t, here) ↦ rw (abort_at, here) refl
]

pub after_join-ne-writing : (k : Then) (n : ℕ) → after_join k ≢ writing n
unfolding after_join
after_join-ne-writing return n e = cc e
after_join-ne-writing spawn n e = cc e

pub State-cases :
    (s : State) → (s ≡ idle) ⊎ (((r : Ended) × (s ≡ finished r)) ⊎ ((n : ℕ) × (s ≡ running n)))
State-cases idle = inl refl
State-cases (finished r) = inr (inl (r, refl))
State-cases (running n) = inr (inr (n, refl))

pub joining-Sound :
    (k : Then) (s : Server)
    → ((n : ℕ) → s.doing ≢ writing n)
    → Sound s
    → Sound (record s { doing = joining k })
joining-Sound k s before sound = doing-Sound (joining k) s before (λ n e. cc) (λ h. cc) sound

pub joined-Sound :
    (k : Then) (s : Server)
    → ((n : ℕ) → s.doing ≢ writing n)
    → ((n : ℕ) → s.state ≢ running n)
    → Sound s
    → Sound (record s { doing = after_join k })
joined-Sound k s before stopped sound =
    doing-Sound (after_join k) s before (after_join-ne-writing k) (λ h. stopped) sound

stop_in-Sound :
    (st : State) (k : Then) (s : Server)
    → s.state ≡ st
    → ((n : ℕ) → s.doing ≢ writing n)
    → Sound s
    → Sound (stop_in st k s)
unfolding stop_in
stop_in-Sound idle k s e before sound = joined-Sound k s before (λ n q. cc) sound
stop_in-Sound (finished r) k s e before sound = joined-Sound k s before (λ n q. cc) sound
stop_in-Sound (running n) k s e before sound =
    joining-Sound k (abort_at n s) (rw (abort_at-doing n s) before) (abort_at-Sound n s sound)

pub stop-Sound : (k : Then) (s : Server) → s.doing ≡ nothing → Sound s → Sound (stop k s)
unfolding stop
stop-Sound k s d sound = stop_in-Sound s.state k s refl (λ n w. cc) sound

other_stop_in-Sound :
    (st : State) (s : Server) → Sound s → Sound (record (stop_in st return s) { doing = s.doing })
unfolding stop_in
other_stop_in-Sound idle s sound = sound
other_stop_in-Sound (finished r) s sound = sound
other_stop_in-Sound (running n) s sound =
    subst (λ d. Sound (record (abort_at n s) { doing = d })) (abort_at-doing n s)
      (abort_at-Sound n s sound)

pub other_stop-Sound : (s : Server) → Sound s → Sound (other_stop s)
unfolding other_stop stop
other_stop-Sound s sound = other_stop_in-Sound s.state s sound

running-inj : {m n : ℕ} → running m ≡ running n → m ≡ n
running-inj e = cc e

not_both :
    (n : ℕ) (t u : Task) {r : Ended} (s : Server)
    → task_at n s ≡ some t
    → task_at n s ≡ some u
    → t.ended ≡ some r
    → u.ended ≡ none
    → ⊥
not_both n t u s e f over open_ =
    let same = some-inj (sym e ∙ f) in let o = rw (← same) at open_ in cc (sym over ∙ o)

-- A join puts the end of the task into the state.
pub finish-Sound :
    (n : ℕ) (t : Task) (r : Ended) (d : Doing) (s : Server)
    → s.state ≡ running n
    → task_at n s ≡ some t
    → t.ended ≡ some r
    → ((m : ℕ) → d ≢ writing m)
    → Sound s
    → Sound (record s { state = finished r; doing = d })
finish-Sound n t r d s e here over after sound = record {
  alive = λ m u found open_. elim (sound.alive m u found open_) [
    | inl q ↦ absurd (not_both n t u s here (rw (running-inj (sym e ∙ q)) found) over open_)
    | inr w ↦ absurd (sound.alone m w n e)
  ];
  current = λ m h. elim h [ inl q ↦ cc q | inr w ↦ absurd (after m w) ];
  ready = λ x m q. cc;
  alone = λ m w. absurd (after m w);
}

abbrev new_task : Task
new_task = record { ended = none; aborted = false; closed = false }

writing-inj : {m n : ℕ} → writing m ≡ writing n → m ≡ n
writing-inj e = cc e

pub spawn_task-Sound : (s : Server) → s.doing ≡ spawning → Sound s → Sound (spawn_task s)
unfolding spawn_task
spawn_task-Sound s d sound = record {
  alive = λ m t found open_. elim (ℕ_discrete m s.next) [
    | yes p ↦ inr (ap writing (sym p))
    | no p ↦
        let before = sym (lookup-insert_ne ℕ_discrete s.next m new_task s.tasks p) ∙ found in
        elim (sound.alive m t before open_) [
          | inl q ↦ absurd (sound.ready d m q)
          | inr w ↦ cc (sym d ∙ w)
        ]
  ];
  current = λ n h. elim h [
    | inl q ↦ absurd (sound.ready d n q)
    | inr w ↦
        (new_task, rw (← writing-inj w) (lookup-insert_self ℕ_discrete s.next new_task s.tasks))
  ];
  ready = λ h n q. cc;
  alone = λ m w n q. sound.ready d n q;
}

pub write_state-Sound :
    (n : ℕ) (s : Server) → s.doing ≡ writing n → Sound s → Sound (write_state n s)
unfolding write_state
write_state-Sound n s d sound = record {
  alive = λ m t found open_. elim (sound.alive m t found open_) [
    | inl q ↦ absurd (sound.alone n d m q)
    | inr w ↦ inl (ap running (writing-inj (sym d ∙ w)))
  ];
  current = λ m h. elim h [ inl q ↦ rw (← running-inj q) (sound.current n (inr d)) | inr w ↦ cc w ];
  ready = λ h m q. cc;
  alone = λ m w. cc;
}

idle_none : {r : Ended} (m : ℕ) → finished r ≢ running m
idle_none m q = cc q

pub take_result-Sound : (s : Server) → Sound s → Sound (take_result s).1
unfolding take_result
take_result-Sound s sound = elim (State-cases s.state) [
  | inl e ↦ rw (take_result, e) sound
  | inr (inl (r, e)) ↦
      rw (take_result, e)
        (record {
          alive = λ m u f o. elim (sound.alive m u f o) [
            | inl q ↦ absurd (idle_none m (sym e ∙ q))
            | inr w ↦ inr w
          ];
          current = λ m h. elim h [ inl q ↦ cc q | inr w ↦ sound.current m (inr w) ];
          ready = λ d m q. cc;
          alone = λ m w n q. cc;
        })
  | inr (inr (n, e)) ↦ rw (take_result, e) sound
]
