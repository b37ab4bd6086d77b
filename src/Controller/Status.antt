-- ===== src/Controller/Status.antt =====
-- sarena-data-plane/src/controller/status.rs: the status of a controller. `now` is what
-- `SystemTime::now` gives; a count is a `u64`, which no run of the code can overflow.
use Prim.Native.String.{◌++◌}
use sarena.Prelude.{ℕ, ◌+◌, Option, none, some, String}
use sarena.Controller.Backoff.{Duration, Backoff}
use sarena.Controller.Spec.{
  Spec, RunError, failed, panicked, timed_out, RunResult, ok, err, error_text,
}

pub record ControllerStatus (F : Type 0) : Type 0 where
  pub name : String
  pub id : ℕ
  pub interval : Option Duration
  pub backoff : Backoff F
  pub success_count : ℕ
  pub failure_count : ℕ
  pub consecutive_failures : ℕ
  pub last_success : Option ℕ
  pub last_failure : Option ℕ
  pub last_error : Option String
  pub last_duration : Option Duration

module _ {F Job Stop : Type 0} where
  unfoldable pub new_status : String → ℕ → Spec F Job Stop → ControllerStatus F
  new_status name id spec = record {
    name = name;
    id = id;
    interval = spec.interval;
    backoff = spec.backoff;
    success_count = 0;
    failure_count = 0;
    consecutive_failures = 0;
    last_success = none;
    last_failure = none;
    last_error = none;
    last_duration = none;
  }

  unfoldable pub configure : Spec F Job Stop → ControllerStatus F → ControllerStatus F
  configure spec s = record s { interval = spec.interval; backoff = spec.backoff }

abbrev pub stop_text : (Duration → String) → RunError → String
stop_text shown (timed_out limit) = "stop timed out after " ++ shown limit
stop_text shown (failed text) = text
stop_text shown (panicked text) = "panicked: " ++ text

module _ {F : Type 0} (shown : Duration → String) where
  unfoldable pub record_run : ℕ → RunResult → Duration → ControllerStatus F → ControllerStatus F
  record_run now (ok flow) duration s = record s {
    last_duration = some duration;
    success_count = s.success_count + 1;
    consecutive_failures = 0;
    last_success = some now;
    last_error = none;
  }
  record_run now (err e) duration s = record s {
    last_duration = some duration;
    failure_count = s.failure_count + 1;
    consecutive_failures = s.consecutive_failures + 1;
    last_failure = some now;
    last_error = some (error_text shown e);
  }

  pub record_stop_error : ℕ → RunError → ControllerStatus F → ControllerStatus F
  record_stop_error now error s = record s {
    failure_count = s.failure_count + 1;
    last_failure = some now;
    last_error = some (stop_text shown error);
  }
