-- ===== src/TestWire/Runner.antt =====
-- `sub_test` of sarena-test-runner/src/ebpf_test_runner.rs from the result map on: what the test
-- program left is trimmed, parsed and judged.
use sarena.Prelude.{replicate, ℕ, zero, suc, List, [], ◌∷◌, ◌==◌, if◌then◌else◌}
use sarena.TestWire.{test_result_map_size, TestStatus, fail}
use sarena.TestWire.Reader.{
  ParseError, Outcome, ok, err, panic, out_of_fuel, TestResult, parse_test,
}

-- The map as the runner clears it before a test.
unfoldable pub cleared : List ℕ
cleared = replicate test_result_map_size 0

-- `rposition(|&b| b != 0)`, plus one; zero where every byte is zero.
unfoldable pub written : List ℕ → ℕ
written [] = 0
written (b ∷ raw) = elim (written raw) [ zero ↦ if b == 0 then 0 else 1 | suc n ↦ suc (suc n) ]

unfoldable pub take : ℕ → List ℕ → List ℕ
take zero raw = []
take (suc n) [] = []
take (suc n) (b ∷ raw) = b ∷ take n raw

unfoldable pub trim : List ℕ → List ℕ
unfolding written take
trim raw = take (written raw) raw

-- How `sub_test` ends: its result, or a panic.
pub data Verdict : Type 0 where
  passed no_result panicked stuck : Verdict
  refused : ParseError → Verdict

unfoldable pub judge : TestStatus → Verdict
judge fail = panicked
judge status = passed

module _ {Text : Type 0} (lossy : List ℕ → Text) where
  abbrev verdict_of : Outcome (TestResult Text) → Verdict
  verdict_of (ok r) = judge r.status
  verdict_of (err e) = refused e
  verdict_of panic = panicked
  verdict_of out_of_fuel = stuck

  abbrev read_raw : List ℕ → Verdict
  read_raw [] = no_result
  read_raw (b ∷ raw) = verdict_of (parse_test lossy (b ∷ raw))

  unfoldable pub sub_test : List ℕ → Verdict
  unfolding trim judge parse_test
  sub_test raw = read_raw (trim raw)
