-- ===== src/Runner.antt =====
-- The runner of a thread: src/runner.c, include/coremio/runner.h. Each step is what one lock, or one call of
-- the thread library, makes atomic. The system has the thread of the runner and one client, its owner, which
-- calls `f_runner_run`, `f_runner_join` and `f_runner_stop`, one after the other.
pub mod Places
pub mod Invariant
pub mod Safety
mod Examples
use coremio.Prelude.{ℕ, ◌≡◌, Bool, true, false, Option, none, some, if◌then◌else◌}

-- `e_runner_statuses`
pub data Status : Type 0 where
  idle launching running completed interrupted undefined : Status

-- the values of `coremio_result` that the runner names, and those of the callbacks
pub data Result : Type 0 where
  noice not_initialized already_initialized again thread_failure thread_interrupted : Result
  other : ℕ → Result

-- where the thread stands in `p_runner_run_callback`; `absent` is no thread that can be joined, `storing` and
-- `publishing` hold the result of the callback
pub data Worker : Type 0 where
  absent starting marking calling : Worker
  storing publishing : Result → Worker
  broadcasting finished : Worker

-- where the client stands in `f_runner_run`, `f_runner_join` and `f_runner_stop`; the flag says whether the join is a part of
-- `f_runner_run`, and `joined_none` is a join of no thread
pub data Owner : Type 0 where
  at_rest run_check run_mark run_prepare run_create : Owner
  join_read join_wait join_reset : Bool → Owner
  joined_none stop_read stop_mark : Owner

pub record System : Type 0 where
  pub status : Status
  pub result : Result
  pub interrupt_required : Bool
  pub worker : Worker
  pub owner : Owner

-- after `f_runner_initialize`
abbrev pub initial : System
initial = record {
  status = idle;
  result = noice;
  interrupt_required = false;
  worker = absent;
  owner = at_rest;
}

unfoldable pub final_status : Result → Status
final_status thread_interrupted = interrupted
final_status _ = completed

-- `status == e_runner_status_launching`
abbrev pub is_launching : Status → Bool
is_launching launching = true
is_launching _ = false

-- `p_runner_run_callback`; `returned` is what the callback returns, and `none` a thread that cannot go on
unfoldable pub worker_step : Result → System → Option System
unfolding final_status
worker_step returned s = elim s.worker [
  | absent ↦ none
  | starting ↦ some (record s { worker = if is_launching s.status then marking else broadcasting })
  | marking ↦ some (record s { worker = calling; status = running })
  | calling ↦ some (record s { worker = storing returned })
  | storing r ↦ some (record s { worker = publishing r; result = r })
  | publishing r ↦ some (record s { worker = broadcasting; status = final_status r })
  | broadcasting ↦ some (record s { worker = finished })
  | finished ↦ none
]

-- the end of `f_runner_join`
abbrev pub after_join : Bool → Owner
after_join true = run_mark
after_join false = at_rest

-- whether `f_runner_run` joins first
abbrev pub is_over : Status → Bool
is_over completed = true
is_over interrupted = true
is_over _ = false

-- whether `f_runner_join` joins
abbrev pub can_join : Status → Bool
can_join idle = false
can_join undefined = false
can_join _ = true

abbrev pub is_idle : Status → Bool
is_idle idle = true
is_idle _ = false

-- `pthread_join`, which waits for the end of the thread
unfoldable pub wait_step : Bool → System → Option System
wait_step in_run s = elim s.worker [
  | finished ↦ some (record s { worker = absent; owner = join_reset in_run })
  | absent ↦ some (record s { owner = joined_none })
  | _ ↦ none
]

-- `f_runner_stop` with the status that it has read: where it goes on, and what it returns
unfoldable pub stop : Status → Owner × Result
stop running = (stop_mark, noice)
stop launching = (at_rest, again)
stop _ = (at_rest, not_initialized)

-- the next step of the call the client is in; the flag says whether `pthread_create` succeeds, and `none` is a
-- client that waits or is in no call
unfoldable pub owner_step : Bool → System → Option System
unfolding wait_step stop
owner_step created s = elim s.owner [
  | at_rest ↦ none
  | run_check ↦ some (record s { owner = if is_over s.status then join_read true else run_mark })
  | run_mark ↦ some (
      if is_idle s.status
      then record s { status = launching; owner = run_prepare }
      else record s { owner = at_rest })
  | run_prepare ↦ some (record s { interrupt_required = false; owner = run_create })
  | run_create ↦ some (
      if created
      then record s { worker = starting; owner = at_rest }
      else record s { status = idle; owner = at_rest })
  | join_read in_run ↦
      some (record s { owner = if can_join s.status then join_wait in_run else after_join in_run })
  | join_wait in_run ↦ wait_step in_run s
  | join_reset in_run ↦ some (record s { status = idle; owner = after_join in_run })
  | joined_none ↦ none
  | stop_read ↦ some (record s { owner = (stop s.status).0 })
  | stop_mark ↦ some (record s { interrupt_required = true; owner = at_rest })
]

-- `f_runner_get_result`
unfoldable pub get_result : System → Result
get_result s = elim s.status [ completed ↦ s.result | _ ↦ not_initialized ]

pub data Step : System → System → Type 0 where
  by_worker : (returned : Result) (s s' : System) → worker_step returned s ≡ some s' → Step s s'
  by_owner : (created : Bool) (s s' : System) → owner_step created s ≡ some s' → Step s s'
  calls_run : (s : System) → s.owner ≡ at_rest → Step s (record s { owner = run_check })
  calls_join : (s : System) → s.owner ≡ at_rest → Step s (record s { owner = join_read false })
  calls_stop : (s : System) → s.owner ≡ at_rest → Step s (record s { owner = stop_read })

pub data Reachable : System → Type 0 where
  initialized : Reachable initial
  stepped : (s s' : System) → Reachable s → Step s s' → Reachable s'
