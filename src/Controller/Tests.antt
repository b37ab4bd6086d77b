-- ===== src/Controller/Tests.antt =====
-- The controllers at concrete specs and histories.
use Prim.Native.Nat.{min, max}
use sarena.Prelude.{
  Option, ◌*◌, ◌-◌, ◌^◌, ◌≡◌, refl, true, none, some, List, [], ◌∷◌, String, string_eq, arith,
}
use sarena.Prelude.Map.{get}
use sarena.Controller.Backoff.{Duration, exponential}
use sarena.Controller.Spec.{Spec, failed, continue, ok, err}
use sarena.Controller.Status.{new_status}
use sarena.Controller.Runner.{
  Runner, Round, timer, spec_changed, stopped, run, for_delay, next_wait, Events, sender_dropped,
}
use sarena.Controller.Runner.History.{Counts, results, InStep, run-Counts, next_wait-exponential}
use sarena.Controller.Manager.{Manager, build, update, remove_controller}
use sarena.Controller.Manager.Updated.{Updated, update-Updated}
use sarena.Controller.Manager.Ids.{update-IsValid, IsValid, Removed, remove_controller-Removed}

-- The jitter, the job and the stop hook are of one value here.
abbrev TestSpec : Type 0
TestSpec = Spec (Unit {0}) (Unit {0}) (Unit {0})

abbrev TestManager : Type 0
TestManager = Manager (Unit {0}) (Unit {0}) (Unit {0})

abbrev retrying : TestSpec
retrying = record {
  job = tt;
  on_stop = none;
  interval = some 60;
  backoff = exponential 1 300 tt;
  stop_timeout = 30;
}

abbrev start : Runner (Unit {0})
start = record { status = new_status "sync" 1 retrying; consecutive_errors = 0 }

start-InStep : InStep start
unfolding new_status
start-InStep = refl

abbrev history : List (Round TestSpec)
history =
    record { now = 1; result = err (failed "no route"); elapsed = 2; wake = timer }
    ∷ record {
      now = 5;
      result = err (failed "no route");
      elapsed = 2;
      wake = spec_changed retrying;
    }
    ∷ record { now = 9; result = ok continue; elapsed = 1; wake = stopped }
    ∷ []

abbrev shown : Duration → String
shown d = "1s"

abbrev whole : Option (Unit {0}) → Unit {0} → Duration → Duration
whole jitter sample d = d

run-Counts_example : Counts start (run shown history retrying start).0 (results history)
run-Counts_example = run-Counts shown history retrying start start-InStep

next_wait-exponential_example :
    next_wait whole tt retrying (err (failed "no route")) start
    ≡ for_delay (min (1 * 2 ^ (max (min start.status.consecutive_failures (2 ^ 32 - 1)) 1 - 1)) 300)
next_wait-exponential_example =
    next_wait-exponential whole tt retrying 1 300 tt (failed "no route") start refl (omega arith)
      start-InStep

abbrev all_ready : Events TestSpec
all_ready = record { cancelled = true; change = sender_dropped; timer_elapsed = true }

abbrev empty : TestManager
empty = build (some 100) [] 1

empty-IsValid : IsValid empty
unfolding build get
empty-IsValid = record {
  given = λ name e h. absurd (ground arith);
  unique = λ n k e f h g same. absurd (ground arith);
}

update-Updated_example : Updated "sync" retrying empty (update "sync" retrying empty)
update-Updated_example = update-Updated "sync" retrying empty

update-IsValid_example : IsValid (update "sync" retrying empty)
update-IsValid_example = update-IsValid "sync" retrying empty empty-IsValid

remove_controller-Removed_example : Removed "sync" empty (remove_controller "sync" empty)
remove_controller-Removed_example = remove_controller-Removed "sync" empty
