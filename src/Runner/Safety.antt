-- ===== src/Runner/Safety.antt =====
-- What holds in every state of a runner with one client.
use coremio.Prelude.{
  ◌≡◌, ◌≢◌, refl, ap, ◌∙◌, Bool, Option, none, ℕ, zero, suc, ◌≤◌, some, inl, inr, arith,
}
use coremio.Runner.{
  Status, idle, launching, running, completed, interrupted, undefined, Result, thread_interrupted,
  Worker, absent, starting, marking, calling, storing, publishing, broadcasting, finished, Owner,
  at_rest, run_check, run_mark, run_prepare, run_create, join_read, join_wait, join_reset,
  joined_none, stop_read, stop_mark, System, final_status, worker_step, owner_step, wait_step,
  get_result, Reachable,
}
use coremio.Runner.Places.{Alone, Agrees, Consistent, no_room, Worker-cases}
use coremio.Runner.Invariant.{Reachable-Consistent}

-- In every reachable state of a runner with one client, the client has not joined where there
-- is no thread, and it creates a thread only where there is none.
pub joined_none_lem :
    (s : System)
    → Reachable s
    → (s.owner ≢ joined_none) × (s.owner ≡ run_create → s.worker ≡ absent)
joined_none_lem s r = (λ e. no_join s.worker (rw e at h), λ e. none_there s.worker (rw e at h))
  where
    h : Consistent s
    h = Reachable-Consistent s r

    no_join : (w : Worker) → Agrees w joined_none s.status s.result → ⊥
    no_join w k = elim (Worker-cases w) [
      | inl e ↦ rw e at k
      | inr e ↦ no_room w joined_none s.status s.result e (λ b. b) k
    ]

    none_there : (w : Worker) → Agrees w run_create s.status s.result → w ≡ absent
    none_there w k = elim (Worker-cases w) [
      | inl e ↦ e
      | inr e ↦ absurd (no_room w run_create s.status s.result e (λ b. b) k)
    ]

-- steps of the thread alone
abbrev pub thread_steps : ℕ → Result → System → Option System
thread_steps zero returned s = some s
thread_steps (suc n) returned s = elim (worker_step returned s) [
  | none ↦ none
  | some s' ↦ thread_steps n returned s'
]

-- after this many steps of the thread, the client's next step is to take over the thread's end
abbrev pub Joins : Bool → Bool → Result → System → ℕ → Type 0
Joins in_run created returned s n =
    (n ≤ 6)
    × ((s' : System) × (thread_steps n returned s ≡ some s')
        × ((s'' : System) × (owner_step created s' ≡ some s'')
            × (s''.owner ≡ join_reset in_run)
            × (s''.worker ≡ absent)))

-- In every reachable state of a runner with one client in which the client waits for the thread, six steps of
-- the thread or fewer end it, whatever its callback returns, and then the client goes on behind the wait.
pub owner_step-Joins :
    (s : System) (in_run created : Bool) (returned : Result)
    → Reachable s
    → s.owner ≡ join_wait in_run
    → (n : ℕ) × Joins in_run created returned s n
unfolding owner_step wait_step worker_step
owner_step-Joins s b c q r e =
    by_worker_state s.worker s.owner s.status s.result s.interrupt_required e
      (Reachable-Consistent s r)
  where
    by_worker_state :
        (w : Worker) (o : Owner) (st : Status) (r : Result) (i : Bool)
        → o ≡ join_wait b
        → Agrees w o st r
        → (n : ℕ) × Joins b c q
            (record { status = st; result = r; interrupt_required = i; worker = w; owner = o })
            n
    by_worker_state finished o st r i e h =
        rw e (0, (omega arith, (_, refl, (_, refl, refl, refl))))
    by_worker_state absent o st r i e h = absurd (rw e at h)
    by_worker_state starting o st r i e h =
        rw (e, h.0) (6, (omega arith, (_, refl, (_, refl, refl, refl))))
    by_worker_state marking o st r i e h = rw e (5, (omega arith, (_, refl, (_, refl, refl, refl))))
    by_worker_state calling o st r i e h = rw e (4, (omega arith, (_, refl, (_, refl, refl, refl))))
    by_worker_state (storing p) o st r i e h =
        rw e (3, (omega arith, (_, refl, (_, refl, refl, refl))))
    by_worker_state (publishing p) o st r i e h =
        rw e (2, (omega arith, (_, refl, (_, refl, refl, refl))))
    by_worker_state broadcasting o st r i e h =
        rw e (1, (omega arith, (_, refl, (_, refl, refl, refl))))

-- In no reachable state of a runner with one client does asking for the result give that of an
-- interrupted run.
pub get_result-not_interrupted : (s : System) → Reachable s → get_result s ≢ thread_interrupted
unfolding get_result final_status
get_result-not_interrupted s r =
    by_status s.status s.worker s.owner s.result s.interrupt_required (Reachable-Consistent s r)
  where
    not_idle_now : completed ≢ idle
    not_idle_now = ground arith

    not_launching : completed ≢ launching
    not_launching = ground arith

    not_running : completed ≢ running
    not_running = ground arith

    alone_over : (o : Owner) (r : Result) → Alone o completed r → completed ≡ final_status r
    alone_over at_rest r h = absurd (not_idle_now h)
    alone_over run_check r h = absurd (not_idle_now h)
    alone_over run_mark r h = absurd (not_idle_now h)
    alone_over run_prepare r h = absurd (not_launching h)
    alone_over run_create r h = absurd (not_launching h)
    alone_over (join_read b) r h = absurd (not_idle_now h)
    alone_over (join_wait b) r h = absurd h
    alone_over (join_reset b) r h = h
    alone_over joined_none r h = absurd h
    alone_over stop_read r h = absurd (not_idle_now h)
    alone_over stop_mark r h = absurd (not_idle_now h)

    over :
        (w : Worker) (o : Owner) (r : Result) → Agrees w o completed r → completed ≡ final_status r
    over absent o r h = alone_over o r h
    over starting o r h = absurd (not_launching h.0)
    over marking o r h = absurd (not_launching h.0)
    over calling o r h = absurd (not_running h.0)
    over (storing q) o r h = absurd (not_running h.0)
    over (publishing q) o r h = absurd (not_running h.0)
    over broadcasting o r h = h.0
    over finished o r h = h.0

    not_interrupted : completed ≢ interrupted
    not_interrupted = ground arith

    by_status :
        (st : Status) (w : Worker) (o : Owner) (r : Result) (i : Bool)
        → Agrees w o st r
        → get_result
            (record { status = st; result = r; interrupt_required = i; worker = w; owner = o })
          ≢ thread_interrupted
    by_status completed w o r i h e = not_interrupted (over w o r h ∙ ap final_status e)
    by_status idle w o r i h e = ground arith
    by_status launching w o r i h e = ground arith
    by_status running w o r i h e = ground arith
    by_status interrupted w o r i h e = ground arith
    by_status undefined w o r i h e = ground arith
