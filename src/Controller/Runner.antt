-- ===== src/Controller/Runner.antt =====
-- sarena-data-plane/src/controller/runner.rs: the loop of a controller's task.
-- What a wait can end by is seen at once, as `Events`; the loop runs on the list of its rounds.
pub mod History
use sarena.Prelude.{
  ℕ, zero, suc, ◌+◌, ◌^◌, ◌-◌, Bool, true, false, Option, none, some, List, [], ◌∷◌, String,
  if◌then◌else◌,
}
use Prim.Native.Nat.{min}
use sarena.Controller.Backoff.{Duration, Backoff, jittered}
use sarena.Controller.Spec.{Spec, Flow, continue, done, RunError, RunResult, ok, err}
use sarena.Controller.Status.{ControllerStatus, record_run, record_stop_error}

pub data Wait : Type 0 where
  for_delay : Duration → Wait
  until_update : Wait

unfoldable pub from_delay : Option Duration → Wait
from_delay none = until_update
from_delay (some d) = for_delay d

pub data Wake (S : Type 0) : Type 0 where
  timer : Wake S
  spec_changed : S → Wake S
  stopped : Wake S

-- What is ready when a wait is polled: the cancellation, a new spec or a dropped sender, and the
-- time that has passed.
pub data SpecChange (S : Type 0) : Type 0 where
  no_change : SpecChange S
  changed : S → SpecChange S
  sender_dropped : SpecChange S

pub record Events (S : Type 0) : Type 0 where
  pub cancelled : Bool
  pub change : SpecChange S
  pub timer_elapsed : Bool

abbrev pub after_timer : {S : Type 0} → Wait → Bool → Option (Wake S)
after_timer (for_delay d) true = some timer
after_timer (for_delay d) false = none
after_timer until_update elapsed = none

-- One poll of the `select!`, whose branches are biased in their order; `none` keeps waiting.
unfoldable pub wait : {S : Type 0} → Wait → Events S → Option (Wake S)
wait w e = if e.cancelled then some stopped else (elim e.change [
  | changed spec ↦ some (spec_changed spec)
  | sender_dropped ↦ some stopped
  | no_change ↦ after_timer w e.timer_elapsed
])

pub record Runner (F : Type 0) : Type 0 where
  pub status : ControllerStatus F
  pub consecutive_errors : ℕ

-- `saturating_add(1)` on a `u32`.
abbrev pub saturating_suc : ℕ → ℕ
saturating_suc n = min (n + 1) (2 ^ 32 - 1)

module _ {F : Type 0} (shown : Duration → String) where
  unfoldable pub record_result : ℕ → RunResult → Duration → Runner F → Runner F
  record_result now (ok flow) elapsed r = record {
    status = record_run shown now (ok flow) elapsed r.status;
    consecutive_errors = 0;
  }
  record_result now (err e) elapsed r = record {
    status = record_run shown now (err e) elapsed r.status;
    consecutive_errors = saturating_suc r.consecutive_errors;
  }

abbrev pub or_else : Option Duration → Option Duration → Option Duration
or_else none other = other
or_else (some d) other = some d

-- `sample` is what `rand::random` gives.
unfoldable pub next_wait :
    {F Job Stop : Type 0}
    → (Option F → F → Duration → Duration)
    → F
    → Spec F Job Stop
    → RunResult
    → Runner F
    → Wait
unfolding from_delay
next_wait shorten sample spec (ok continue) r = from_delay spec.interval
next_wait shorten sample spec (ok done) r = until_update
next_wait shorten sample spec (err e) r =
    from_delay (or_else (jittered shorten spec.backoff r.consecutive_errors sample) spec.interval)

-- A round: the result of the job with its times, and what ends the wait after it.
pub record Round (S : Type 0) : Type 0 where
  pub now : ℕ
  pub result : RunResult
  pub elapsed : Duration
  pub wake : Wake S

module _ {F Job Stop : Type 0} (shown : Duration → String) where
  -- The rounds until the controller is stopped, or until the list ends. The answer holds the spec
  -- of the stop hook, if the loop was left.
  unfoldable pub run :
      List (Round (Spec F Job Stop))
      → Spec F Job Stop
      → Runner F
      → Runner F × Option (Spec F Job Stop)
  unfolding record_result
  run [] spec r = (r, none)
  run (round ∷ rounds) spec r =
      let s = record_result shown round.now round.result round.elapsed r in
      elim round.wake [
        | timer ↦ run rounds spec s
        | spec_changed new ↦ run rounds new s
        | stopped ↦ (s, some spec)
      ]

  -- The end of the stop hook: none if it succeeded.
  pub run_stop_hook : ℕ → Spec F Job Stop → Option RunError → Runner F → Runner F
  run_stop_hook now spec outcome r = elim spec.on_stop [
    | none ↦ r
    | some hook ↦ elim outcome [
      | none ↦ r
      | some e ↦ record r { status = record_stop_error shown now e r.status }
    ]
  ]
