-- ===== src/Runner/Places.antt =====
-- Where the client and the thread may stand, and with what status.
use coremio.Prelude.{
  ◌≡◌, ◌≢◌, refl, sym, ap, Bool, true, false, Option, none, some, if◌then◌else◌, ◌⊎◌, inl, inr,
  arith,
}
use coremio.Runner.{
  Status, idle, launching, running, completed, interrupted, undefined, stop, Result,
  thread_interrupted, other, Worker, absent, starting, marking, calling, storing, publishing,
  broadcasting, finished, Owner, run_mark, run_prepare, run_create, join_read, join_wait,
  join_reset, joined_none, System, final_status, worker_step, is_idle, after_join,
}

-- where the client may stand while there is a thread
abbrev pub Beside : Owner → Type 0
Beside run_prepare = ⊥
Beside run_create = ⊥
Beside (join_reset in_run) = ⊥
Beside joined_none = ⊥
Beside _ = Unit

-- where it may stand, and the status, while there is none
abbrev pub Alone : Owner → Status → Result → Type 0
Alone run_prepare st r = st ≡ launching
Alone run_create st r = st ≡ launching
Alone (join_wait in_run) st r = ⊥
Alone joined_none st r = ⊥
Alone (join_reset in_run) st r = st ≡ final_status r
Alone _ st r = st ≡ idle

abbrev pub Agrees : Worker → Owner → Status → Result → Type 0
Agrees absent o st r = Alone o st r
Agrees starting o st r = (st ≡ launching) × Beside o
Agrees marking o st r = (st ≡ launching) × Beside o
Agrees calling o st r = (st ≡ running) × Beside o
Agrees (storing q) o st r = (st ≡ running) × Beside o
Agrees (publishing q) o st r = (st ≡ running) × (r ≡ q) × Beside o
Agrees broadcasting o st r = (st ≡ final_status r) × Beside o
Agrees finished o st r = (st ≡ final_status r) × Beside o

abbrev pub Consistent : System → Type 0
Consistent s = Agrees s.worker s.owner s.status s.result

abbrev pub Kept : Option System → Type 0
Kept none = Unit
Kept (some s) = Consistent s

pub worker_step-Consistent :
    (q : Result) (w : Worker) (o : Owner) (st : Status) (r : Result) (i : Bool)
    → Agrees w o st r
    → Kept (
        worker_step q
          (record { status = st; result = r; interrupt_required = i; worker = w; owner = o }))
unfolding worker_step
worker_step-Consistent q absent o st r i h = tt
worker_step-Consistent q starting o st r i h = rw h.0 (refl, h.1)
worker_step-Consistent q marking o st r i h = (refl, h.1)
worker_step-Consistent q calling o st r i h = h
worker_step-Consistent q (storing p) o st r i h = (h.0, refl, h.1)
worker_step-Consistent q (publishing p) o st r i h = (ap final_status (sym h.1), h.2)
worker_step-Consistent q broadcasting o st r i h = h
worker_step-Consistent q finished o st r i h = tt

unfoldable pub is_some : Worker → Bool
is_some absent = false
is_some _ = true

-- the client may move from one place beside a thread to another
pub beside :
    (w : Worker) (o o' : Owner) (st : Status) (r : Result)
    → is_some w ≡ true
    → Beside o'
    → Agrees w o st r
    → Agrees w o' st r
unfolding is_some
beside absent o o' st r e b h = absurd (false≢true e)
  where
    false≢true : false ≢ true
    false≢true = ground arith
beside starting o o' st r e b h = (h.0, b)
beside marking o o' st r e b h = (h.0, b)
beside calling o o' st r e b h = (h.0, b)
beside (storing q) o o' st r e b h = (h.0, b)
beside (publishing q) o o' st r e b h = (h.0, h.1, b)
beside broadcasting o o' st r e b h = (h.0, b)
beside finished o o' st r e b h = (h.0, b)

-- beside no thread is a contradiction
pub no_room :
    (w : Worker) (o : Owner) (st : Status) (r : Result)
    → is_some w ≡ true
    → (Beside o → ⊥)
    → Agrees w o st r
    → ⊥
unfolding is_some
no_room absent o st r e b h = absurd (false≢true e)
  where
    false≢true : false ≢ true
    false≢true = ground arith
no_room starting o st r e b h = b h.1
no_room marking o st r e b h = b h.1
no_room calling o st r e b h = b h.1
no_room (storing q) o st r e b h = b h.1
no_room (publishing q) o st r e b h = b h.2
no_room broadcasting o st r e b h = b h.1
no_room finished o st r e b h = b h.1

pub is_idle-final_status : (r : Result) → is_idle (final_status r) ≡ false
unfolding final_status
is_idle-final_status thread_interrupted = refl
is_idle-final_status (other n) = refl
is_idle-final_status _ = refl

pub not_idle :
    (w : Worker) (o : Owner) (st : Status) (r : Result)
    → is_some w ≡ true
    → Agrees w o st r
    → is_idle st ≡ false
unfolding is_some
not_idle absent o st r e h = absurd (false≢true e)
  where
    false≢true : false ≢ true
    false≢true = ground arith
not_idle starting o st r e h = rw h.0 refl
not_idle marking o st r e h = rw h.0 refl
not_idle calling o st r e h = rw h.0 refl
not_idle (storing q) o st r e h = rw h.0 refl
not_idle (publishing q) o st r e h = rw h.0 refl
not_idle broadcasting o st r e h = rw h.0 (is_idle-final_status r)
not_idle finished o st r e h = rw h.0 (is_idle-final_status r)

pub Beside-after_join : (b : Bool) → Beside (after_join b)
Beside-after_join true = tt
Beside-after_join false = tt

pub Beside-over : (c : Bool) → Beside (if c then join_read true else run_mark)
Beside-over true = tt
Beside-over false = tt

pub Beside-can_join : (c b : Bool) → Beside (if c then join_wait b else after_join b)
Beside-can_join true b = tt
Beside-can_join false b = Beside-after_join b

pub Beside-stop : (st : Status) → Beside (stop st).0
unfolding stop
Beside-stop running = tt
Beside-stop launching = tt
Beside-stop idle = tt
Beside-stop completed = tt
Beside-stop interrupted = tt
Beside-stop undefined = tt

pub Alone-after_join : (b : Bool) (r : Result) → Alone (after_join b) idle r
Alone-after_join true r = refl
Alone-after_join false r = refl

pub Worker-cases : (w : Worker) → (w ≡ absent) ⊎ (is_some w ≡ true)
unfolding is_some
Worker-cases absent = inl refl
Worker-cases starting = inr refl
Worker-cases marking = inr refl
Worker-cases calling = inr refl
Worker-cases (storing q) = inr refl
Worker-cases (publishing q) = inr refl
Worker-cases broadcasting = inr refl
Worker-cases finished = inr refl
