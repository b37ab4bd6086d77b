-- ===== src/Controller/Spec.antt =====
-- sarena-data-plane/src/controller/spec.rs, job.rs and guard.rs: the configuration of a controller,
-- what a run asks for next, and why one fails.
-- The closures of a spec are values of the types `Job` and `Stop`; a `BoxError` is its text.
use sarena.Prelude.{Option, none, some, String}
use Prim.Native.String.{◌++◌}
use sarena.Controller.Backoff.{Duration, Backoff}

pub data Flow : Type 0 where
  continue done : Flow

pub data RunError : Type 0 where
  failed : String → RunError
  panicked : String → RunError
  timed_out : Duration → RunError

pub data RunResult : Type 0 where
  ok : Flow → RunResult
  err : RunError → RunResult

-- `shown` is the `Debug` text of a `Duration`.
pub error_text : (Duration → String) → RunError → String
error_text shown (failed text) = text
error_text shown (panicked text) = "panicked: " ++ text
error_text shown (timed_out limit) = "timed out after " ++ shown limit

pub record Spec (F Job Stop : Type 0) : Type 0 where
  pub job : Job
  pub on_stop : Option Stop
  pub interval : Option Duration
  pub backoff : Backoff F
  pub stop_timeout : Duration

-- `Spec::new` and its builder methods; `default_jitter` is `0.5`.
module _ {F Job Stop : Type 0} where
  pub new : F → Job → Spec F Job Stop
  new default_jitter job = record {
    job = job;
    on_stop = none;
    interval = none;
    backoff = Backoff.exponential 1000000000 300000000000 default_jitter;
    stop_timeout = 30000000000;
  }

  pub with_interval : Duration → Spec F Job Stop → Spec F Job Stop
  with_interval interval spec = record spec { interval = some interval }

  pub with_backoff : Backoff F → Spec F Job Stop → Spec F Job Stop
  with_backoff backoff spec = record spec { backoff = backoff }

  pub with_on_stop : Stop → Spec F Job Stop → Spec F Job Stop
  with_on_stop on_stop spec = record spec { on_stop = some on_stop }

  pub with_stop_timeout : Duration → Spec F Job Stop → Spec F Job Stop
  with_stop_timeout timeout spec = record spec { stop_timeout = timeout }
