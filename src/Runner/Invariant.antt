-- ===== src/Runner/Invariant.antt =====
-- Each step of a runner with one client keeps the client, the thread and the status consistent.
use mathlib.Core.Path.{subst}
use coremio.Prelude.{◌≡◌, ◌≢◌, refl, Bool, true, false, Option, none, some, inl, inr, arith}
use coremio.Runner.{
  Status, idle, Result, Worker, absent, starting, marking, calling, storing, publishing,
  broadcasting, finished, Owner, at_rest, run_check, run_mark, run_prepare, run_create, join_read,
  join_wait, join_reset, joined_none, stop_read, stop_mark, System, worker_step, owner_step,
  wait_step, stop, Step, by_worker, by_owner, calls_run, calls_join, calls_stop, Reachable,
  initialized, stepped, is_over, can_join,
}
use coremio.Runner.Places.{
  Beside, Alone, Agrees, Consistent, Kept, worker_step-Consistent, is_some, beside, no_room,
  not_idle, Beside-over, Beside-stop, Beside-can_join, Alone-after_join, Worker-cases,
}

wait_step-Consistent :
    (w : Worker) (st : Status) (r : Result) (i b : Bool)
    → Agrees w (join_wait b) st r
    → Kept (
        wait_step b (record {
          status = st;
          result = r;
          interrupt_required = i;
          worker = w;
          owner = join_wait b;
        }))
unfolding wait_step
wait_step-Consistent finished st r i b h = h.0
wait_step-Consistent absent st r i b h = h
wait_step-Consistent starting st r i b h = tt
wait_step-Consistent marking st r i b h = tt
wait_step-Consistent calling st r i b h = tt
wait_step-Consistent (storing q) st r i b h = tt
wait_step-Consistent (publishing q) st r i b h = tt
wait_step-Consistent broadcasting st r i b h = tt

Alone-Consistent :
    (c : Bool) (o : Owner) (st : Status) (r : Result) (i : Bool)
    → Alone o st r
    → Kept (
        owner_step c
          (record { status = st; result = r; interrupt_required = i; worker = absent; owner = o }))
unfolding owner_step wait_step stop
Alone-Consistent c at_rest st r i h = tt
Alone-Consistent c run_check st r i h = rw h refl
Alone-Consistent c run_mark st r i h = rw h refl
Alone-Consistent c run_prepare st r i h = h
Alone-Consistent true run_create st r i h = (h, tt)
Alone-Consistent false run_create st r i h = refl
Alone-Consistent c (join_read b) st r i h = rw h (Alone-after_join b r)
Alone-Consistent c (join_wait b) st r i h = absurd h
Alone-Consistent c (join_reset b) st r i h = Alone-after_join b r
Alone-Consistent c joined_none st r i h = tt
Alone-Consistent c stop_read st r i h = rw (h, stop) refl
Alone-Consistent c stop_mark st r i h = h

beside-Consistent :
    (c : Bool) (o : Owner) (w : Worker) (st : Status) (r : Result) (i : Bool)
    → is_some w ≡ true
    → Agrees w o st r
    → Kept (
        owner_step c
          (record { status = st; result = r; interrupt_required = i; worker = w; owner = o }))
unfolding owner_step
beside-Consistent c at_rest w st r i e h = tt
beside-Consistent c run_check w st r i e h =
    beside w run_check _ st r e (Beside-over (is_over st)) h
beside-Consistent c run_mark w st r i e h =
    rw (not_idle w run_mark st r e h) (beside w run_mark at_rest st r e tt h)
beside-Consistent c run_prepare w st r i e h = absurd (no_room w run_prepare st r e (λ b. b) h)
beside-Consistent c run_create w st r i e h = absurd (no_room w run_create st r e (λ b. b) h)
beside-Consistent c (join_read b) w st r i e h =
    beside w (join_read b) _ st r e (Beside-can_join (can_join st) b) h
beside-Consistent c (join_wait b) w st r i e h = wait_step-Consistent w st r i b h
beside-Consistent c (join_reset b) w st r i e h =
    absurd (no_room w (join_reset b) st r e (λ b. b) h)
beside-Consistent c joined_none w st r i e h = tt
beside-Consistent c stop_read w st r i e h = beside w stop_read _ st r e (Beside-stop st) h
beside-Consistent c stop_mark w st r i e h = beside w stop_mark at_rest st r e tt h

owner_step-Consistent : (c : Bool) (s : System) → Consistent s → Kept (owner_step c s)
owner_step-Consistent c s h = elim (Worker-cases s.worker) [
  | inl e ↦ absent_of s.worker e h
  | inr e ↦ beside-Consistent c s.owner s.worker s.status s.result s.interrupt_required e h
]
  where
    absent_of :
        (w : Worker)
        → w ≡ absent
        → Agrees w s.owner s.status s.result
        → Kept (owner_step c (record s { worker = w }))
    absent_of w e k =
        rw e (Alone-Consistent c s.owner s.status s.result s.interrupt_required (rw e at k))

-- a call from rest goes where a client may stand
call-Consistent :
    (s : System) (o : Owner)
    → s.owner ≡ at_rest
    → Beside o
    → ((st : Status) (r : Result) → st ≡ idle → Alone o st r)
    → Consistent s
    → Consistent (record s { owner = o })
call-Consistent s o e b a h = elim (Worker-cases s.worker) [
  | inl f ↦ rw f (a s.status s.result (rw (f, e) at h))
  | inr f ↦ beside s.worker s.owner o s.status s.result f b h
]

Kept-some : (x : Option System) (s : System) → x ≡ some s → Kept x → Consistent s
Kept-some none s e k = absurd (none≢some e)
  where
    none≢some : none ≢ some s
    none≢some = ground arith
Kept-some (some t) s e k = let same : t ≡ s = cc in subst (λ u. Consistent u) same k

pub Step-Consistent : (s s' : System) → Step s s' → Consistent s → Consistent s'
Step-Consistent _ _ (by_worker q s s' e) h =
    Kept-some (worker_step q s) s' e
      (worker_step-Consistent q s.worker s.owner s.status s.result s.interrupt_required h)
Step-Consistent _ _ (by_owner c s s' e) h =
    Kept-some (owner_step c s) s' e (owner_step-Consistent c s h)
Step-Consistent _ _ (calls_run s e) h = call-Consistent s run_check e tt (λ st r i. i) h
Step-Consistent _ _ (calls_join s e) h = call-Consistent s (join_read false) e tt (λ st r i. i) h
Step-Consistent _ _ (calls_stop s e) h = call-Consistent s stop_read e tt (λ st r i. i) h

pub Reachable-Consistent : (s : System) → Reachable s → Consistent s
Reachable-Consistent _ initialized = refl
Reachable-Consistent _ (stepped t s r e) = Step-Consistent t s e (Reachable-Consistent t r)
