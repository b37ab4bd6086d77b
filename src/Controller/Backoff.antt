-- ===== src/Controller/Backoff.antt =====
-- sarena-data-plane/src/controller/backoff.rs. A `Duration` is its number of nanoseconds. The
-- jitter is a floating-point number of a type `F`; what `jittered` does with it is an argument.
use sarena.Prelude.{
  ℕ, zero, suc, ◌-◌, ◌*◌, ◌^◌, ◌≤◌, ◌≡◌, ap, ◌∙◌, Option, none, some, leb, ◌==◌, if◌then◌else◌,
  arith,
}
use Prim.Native.Nat.{min, max}
use native.Mathlib.Nat.{pow-suc}

abbrev pub Duration : Type 0
Duration = ℕ

-- `Duration::MAX`, of 2 ^ 64 - 1 seconds and 999999999 nanoseconds.
abbrev pub duration_max : Duration
duration_max = 2 ^ 64 * 1000000000 - 1

pub data Backoff (F : Type 0) : Type 0 where
  no_backoff : Backoff F
  linear : Duration → Duration → Backoff F
  exponential : Duration → Duration → F → Backoff F

-- `saturating_mul` by a `u32`.
abbrev pub saturating_mul : Duration → ℕ → Duration
saturating_mul d n = min (d * n) duration_max

-- `for _ in 1..n`, with `n - 1` rounds.
unfoldable pub doubled : ℕ → Duration → Duration → Duration
doubled zero delay max_delay = delay
doubled (suc rounds) delay max_delay =
    let next = doubled rounds (min (saturating_mul delay 2) max_delay) max_delay in
    if leb max_delay delay then delay else next

module _ {F : Type 0} where
  unfoldable pub delay : Backoff F → ℕ → Option Duration
  unfolding doubled
  delay no_backoff consecutive_errors = none
  delay (linear base max_delay) consecutive_errors =
      some (min (saturating_mul base (max consecutive_errors 1)) max_delay)
  delay (exponential base max_delay jitter) consecutive_errors =
      if min base max_delay == 0
      then some (min base max_delay)
      else some (doubled (max consecutive_errors 1 - 1) (min base max_delay) max_delay)

  -- `shorten` is `delay.mul_f64(1.0 - unit(jitter) * unit(r))`, with a jitter of `0.0` if there is
  -- none.
  unfoldable pub jittered :
      (Option F → F → Duration → Duration) → Backoff F → ℕ → F → Option Duration
  unfolding delay
  jittered shorten no_backoff consecutive_errors r = none
  jittered shorten (linear base max_delay) consecutive_errors r =
      elim (delay (linear base max_delay) consecutive_errors) [
        | none ↦ none
        | some d ↦ some (shorten none r d)
      ]
  jittered shorten (exponential base max_delay jitter) consecutive_errors r =
      elim (delay (exponential base max_delay jitter) consecutive_errors) [
        | none ↦ none
        | some d ↦ some (shorten (some jitter) r d)
      ]

double_first : (d k : ℕ) → d * 2 ^ suc k ≡ d * 2 * 2 ^ k
double_first d k = grind (arith, pow-suc 2 k)

grows : (d k : ℕ) → d ≤ d * 2 ^ k
grows d zero = omega arith
grows d (suc k) = omega (arith, grows (d * 2) k, double_first d k)

min-saturating_mul :
    (d m : ℕ) → m ≤ duration_max → min (saturating_mul (min d m) 2) m ≡ min (d * 2) m
min-saturating_mul d m h = omega arith

doubled_lem :
    (rounds delay max_delay : ℕ)
    → max_delay ≤ duration_max
    → doubled rounds (min delay max_delay) max_delay ≡ min (delay * 2 ^ rounds) max_delay
unfolding doubled
doubled_lem zero delay max_delay h = omega arith
doubled_lem (suc rounds) delay max_delay h =
    let rest : doubled rounds (min (saturating_mul (min delay max_delay) 2) max_delay) max_delay
        ≡ min (delay * 2 * 2 ^ rounds) max_delay =
      ap (λ d. doubled rounds d max_delay) (min-saturating_mul delay max_delay h)
      ∙ doubled_lem rounds (delay * 2) max_delay h in
    ground (arith, rest, double_first delay rounds, grows delay (suc rounds))

-- The exponential delay after `n` errors in a row is the base doubled for each error but the
-- first, capped: `min(base * 2 ^ (n - 1), max)`, where no errors count as one.
pub delay-exponential :
    {F : Type 0} (base max_delay : Duration) (jitter : F) (n : ℕ)
    → max_delay ≤ duration_max
    → delay (exponential base max_delay jitter) n ≡ some (min (base * 2 ^ (max n 1 - 1)) max_delay)
unfolding delay
delay-exponential base max_delay jitter n h =
    ground (arith, doubled_lem (max n 1 - 1) base max_delay h)

-- The linear delay is the base times the errors, capped.
pub delay-linear :
    (F : Type 0) (base max_delay : Duration) (n : ℕ)
    → max_delay ≤ duration_max
    → delay {F = F} (linear base max_delay) n ≡ some (min (base * max n 1) max_delay)
unfolding delay
delay-linear F base max_delay n h = ground arith

-- The same after the jitter shortened it.
pub jittered-exponential :
    {F : Type 0} (shorten : Option F → F → Duration → Duration) (base max_delay : Duration)
    (jitter : F) (n : ℕ) (sample : F)
    → max_delay ≤ duration_max
    → jittered shorten (exponential base max_delay jitter) n sample
      ≡ some (shorten (some jitter) sample (min (base * 2 ^ (max n 1 - 1)) max_delay))
unfolding jittered
jittered-exponential shorten base max_delay jitter n sample h =
    ground (arith, delay-exponential base max_delay jitter n h)
