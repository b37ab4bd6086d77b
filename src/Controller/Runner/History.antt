-- ===== src/Controller/Runner/History.antt =====
-- The counts of a controller against its history of results, and when it runs again.
use Prim.Native.Nat.{min, max}
use sarena.Prelude.{
  Option, ℕ, ◌+◌, ◌*◌, ◌-◌, ◌^◌, ◌≤◌, ◌≡◌, refl, ◌↔◌, ◌⊎◌, inl, inr, Bool, true, false, some, List,
  [], ◌∷◌, String, arith,
}
use sarena.Controller.Backoff.{Duration, duration_max, exponential, jittered-exponential}
use sarena.Controller.Spec.{Spec, RunError, RunResult, ok, err}
use sarena.Controller.Status.{record_run}
use sarena.Controller.Runner.{
  Runner, record_result, Round, Wake, timer, spec_changed, stopped, run, Wait, for_delay,
  until_update, from_delay, next_wait, Events, SpecChange, no_change, changed, sender_dropped, wait,
}

abbrev pub successes : List RunResult → ℕ
successes [] = 0
successes (ok flow ∷ results) = successes results + 1
successes (err e ∷ results) = successes results

abbrev pub failures : List RunResult → ℕ
failures [] = 0
failures (ok flow ∷ results) = failures results
failures (err e ∷ results) = failures results + 1

-- The errors since the last success, or `before` more of them if there was none.
abbrev pub trailing : ℕ → List RunResult → ℕ
trailing before [] = before
trailing before (ok flow ∷ results) = trailing 0 results
trailing before (err e ∷ results) = trailing (before + 1) results

-- The results of the rounds up to the one that stops the controller.
abbrev pub results : {S : Type 0} → List (Round S) → List RunResult
results [] = []
results (round ∷ rounds) = elim round.wake [
  | timer ↦ round.result ∷ results rounds
  | spec_changed new ↦ round.result ∷ results rounds
  | stopped ↦ round.result ∷ []
]

-- The runner's count of errors is the status's, as far as a `u32` goes.
abbrev pub InStep : {F : Type 0} → Runner F → Type 0
InStep r = r.consecutive_errors ≡ min r.status.consecutive_failures (2 ^ 32 - 1)

-- What a history adds to the counts.
pub record Counts {F : Type 0} (before after : Runner F) (history : List RunResult) : Type 0 where
  pub success : after.status.success_count ≡ before.status.success_count + successes history
  pub failure : after.status.failure_count ≡ before.status.failure_count + failures history
  pub consecutive :
      after.status.consecutive_failures ≡ trailing before.status.consecutive_failures history
  pub in_step : InStep after

module _ {F : Type 0} (shown : Duration → String) where
  record_result-InStep :
      (now : ℕ) (result : RunResult) (elapsed : Duration) (r : Runner F)
      → InStep r
      → InStep (record_result shown now result elapsed r)
  unfolding record_result record_run
  record_result-InStep now (ok flow) elapsed r h = omega arith
  record_result-InStep now (err e) elapsed r h = omega (arith, h)

  one_more :
      (now : ℕ) (result : RunResult) (elapsed : Duration) (r after : Runner F)
      (history : List RunResult)
      → Counts (record_result shown now result elapsed r) after history
      → Counts r after (result ∷ history)
  unfolding record_result record_run
  one_more now (ok flow) elapsed r after history c = record {
    success = omega (arith, c.success);
    failure = c.failure;
    consecutive = c.consecutive;
    in_step = c.in_step;
  }
  one_more now (err e) elapsed r after history c = record {
    success = c.success;
    failure = omega (arith, c.failure);
    consecutive = c.consecutive;
    in_step = c.in_step;
  }

  no_more : (r : Runner F) → InStep r → Counts r r []
  no_more r h = record {
    success = omega arith;
    failure = omega arith;
    consecutive = refl;
    in_step = h;
  }

Wake-cases :
    {S : Type 0} (w : Wake S) → (w ≡ timer) ⊎ (((s : S) × (w ≡ spec_changed s)) ⊎ (w ≡ stopped))
Wake-cases timer = inl refl
Wake-cases (spec_changed s) = inr (inl (s, refl))
Wake-cases stopped = inr (inr refl)

-- After any rounds, the counts of successes and failures have grown by those of the runs up to
-- the stop, the consecutive failures are those since the last success, and the runner's own count
-- is the same number, capped at the largest `u32`.
pub run-Counts :
    {F Job Stop : Type 0} (shown : Duration → String) (rounds : List (Round (Spec F Job Stop)))
    (spec : Spec F Job Stop) (r : Runner F)
    → InStep r
    → Counts r (run shown rounds spec r).0 (results rounds)
unfolding run
run-Counts shown [] spec r h = no_more shown r h
run-Counts shown (round ∷ rounds) spec r h =
    let s = record_result shown round.now round.result round.elapsed r in
    let k = record_result-InStep shown round.now round.result round.elapsed r h in
    let more = one_more shown round.now round.result round.elapsed r in
    elim (Wake-cases round.wake) [
      | inl e ↦
          rw (e, run)
            (more (run shown rounds spec s).0 (results rounds) (run-Counts shown rounds spec s k))
      | inr (inl (new, e)) ↦
          rw (e, run)
            (more (run shown rounds new s).0 (results rounds) (run-Counts shown rounds new s k))
      | inr (inr e) ↦ rw (e, run) (more s [] (no_more shown s k))
    ]

-- After a failed run under exponential backoff, the wait is the shortened delay, and the delay is
-- the base doubled for each consecutive failure but the first, capped at the maximum.
pub next_wait-exponential :
    {F Job Stop : Type 0} (shorten : Option F → F → Duration → Duration) (sample : F)
    (spec : Spec F Job Stop) (base max_delay : Duration) (jitter : F) (e : RunError) (r : Runner F)
    → spec.backoff ≡ exponential base max_delay jitter
    → max_delay ≤ duration_max
    → InStep r
    → next_wait shorten sample spec (err e) r
      ≡ for_delay (
          shorten (some jitter) sample (
            min
              (base * 2 ^ (max (min r.status.consecutive_failures (2 ^ 32 - 1)) 1 - 1))
              max_delay))
unfolding next_wait from_delay
next_wait-exponential shorten sample spec base max_delay jitter e r h k s = rw h (
    rw s (
      rw
        (jittered-exponential shorten base max_delay jitter
          (min r.status.consecutive_failures (2 ^ 32 - 1)) sample k)
        refl))

-- The stop wins: a wait ends by stopping exactly if the controller is cancelled or its manager
-- dropped the sender, whatever else is ready.
pub wait-stopped :
    {S : Type 0} (w : Wait) (e : Events S)
    → (wait w e ≡ some stopped) ↔ ((e.cancelled ≡ true) ⊎ (e.change ≡ sender_dropped))
unfolding wait
wait-stopped {S = S} w e = stops w e.cancelled e.change e.timer_elapsed
  where
    stops :
        (w : Wait) (c : Bool) (news : SpecChange S) (t : Bool)
        → (wait w (record { cancelled = c; change = news; timer_elapsed = t }) ≡ some stopped)
          ↔ ((c ≡ true) ⊎ (news ≡ sender_dropped))
    stops w true news t = (λ h. inl refl, λ h. refl)
    stops w false (changed spec) t = (λ h. absurd (ground arith), λ h. absurd (ground arith))
    stops w false sender_dropped t = (λ h. inr refl, λ h. refl)
    stops (for_delay d) false no_change true =
        (λ h. absurd (ground arith), λ h. absurd (ground arith))
    stops (for_delay d) false no_change false =
        (λ h. absurd (ground arith), λ h. absurd (ground arith))
    stops until_update false no_change t = (λ h. absurd (ground arith), λ h. absurd (ground arith))
