-- ===== src/Runner/Examples.antt =====
-- A client that runs a thread and joins it: tests of src/runner.c, and instances of the theorems on it.
use coremio.Prelude.{ℕ, ◌≡◌, ◌≢◌, refl, true, false}
use coremio.Runner.{
  launching, noice, thread_interrupted, absent, starting, run_check, run_mark, run_prepare,
  run_create, join_read, join_wait, joined_none, System, initial, owner_step, get_result, by_owner,
  calls_run, calls_join, Reachable, initialized, stepped,
}
use coremio.Runner.Safety.{joined_none_lem, Joins, owner_step-Joins, get_result-not_interrupted}

abbrev checks : System
checks = record initial { owner = run_check }

abbrev marks : System
marks = record initial { owner = run_mark }

abbrev prepares : System
prepares = record initial { owner = run_prepare; status = launching }

abbrev creates : System
creates = record initial { owner = run_create; status = launching }

abbrev runs : System
runs = record initial { worker = starting; status = launching }

abbrev reads : System
reads = record runs { owner = join_read false }

abbrev waits : System
waits = record runs { owner = join_wait false }

creates-Reachable : Reachable creates
unfolding owner_step
creates-Reachable =
    stepped prepares creates
      (stepped marks prepares
        (stepped checks marks (stepped initial checks initialized (calls_run initial refl))
          (by_owner true checks marks refl))
        (by_owner true marks prepares refl))
      (by_owner true prepares creates refl)

waits-Reachable : Reachable waits
unfolding owner_step
waits-Reachable =
    stepped reads waits
      (stepped runs reads (stepped creates runs creates-Reachable (by_owner true creates runs refl))
        (calls_join runs refl))
      (by_owner true reads waits refl)

joined_none_lem_example :
    (creates.owner ≢ joined_none) × (creates.owner ≡ run_create → creates.worker ≡ absent)
joined_none_lem_example = joined_none_lem creates creates-Reachable

owner_step-Joins_example : (n : ℕ) × Joins false true noice waits n
owner_step-Joins_example = owner_step-Joins waits false true noice waits-Reachable refl

get_result-not_interrupted_example : get_result waits ≢ thread_interrupted
get_result-not_interrupted_example = get_result-not_interrupted waits waits-Reachable
