-- ===== src/TestWire/Tests.antt =====
-- Test data for the wire format, runs of the writer and the reader, and instances of the theorems.
use sarena.Prelude.{ℕ, ◌≡◌, ◌↔◌, ◌^◌, refl, List, [], ◌∷◌, arith}
use sarena.TestWire.{fail, pass}
use sarena.TestWire.Writer.{Act, log_line_of, set_status, assert_program}
use sarena.TestWire.Writes.{encode_test, status_after}
use sarena.TestWire.Reader.{ok, err, truncated_value, orphan_log_field, parse_test}
use sarena.TestWire.Reads.{IsDone, HasEmptyVersion, parse_test_ends}
use sarena.TestWire.Runner.{cleared, trim, sub_test, panicked}
use sarena.TestWire.RoundTrip.{parse_test-assert_program}

abbrev same : List ℕ → List ℕ
same bytes = bytes

-- One log with a small argument, whose last bytes on the wire are zeros, and a failure.
abbrev acts : List Act
acts = log_line_of 7 (b'x' ∷ []) (5 ∷ 2 ^ 40 ∷ []) ∷ set_status fail ∷ []

encoded :
    encode_test (b'a' ∷ []) (b'f' ∷ []) (set_status fail ∷ [])
    ≡ 1 ∷ 1 ∷ 1 ∷ 16 ∷ 1 ∷ 97 ∷ 17 ∷ 1 ∷ 102 ∷ 19 ∷ 1 ∷ 102 ∷ []
unfolding encode_test
encoded = refl

-- A frame that is cut inside its last record is refused at the place of the value.
cut_short : parse_test same (1 ∷ 1 ∷ 1 ∷ 33 ∷ 8 ∷ 5 ∷ []) ≡ err (truncated_value 5 8)
unfolding parse_test
cut_short = refl

orphan : parse_test same (1 ∷ 1 ∷ 1 ∷ 34 ∷ 4 ∷ 5 ∷ 0 ∷ 0 ∷ 0 ∷ []) ≡ err (orphan_log_field 3)
unfolding parse_test
orphan = refl

judged : sub_test same (1 ∷ 1 ∷ 1 ∷ 19 ∷ 1 ∷ 102 ∷ 0 ∷ 0 ∷ []) ≡ panicked
unfolding sub_test
judged = refl

parse_test-assert_program_example :
    ((assert_program (b'a' ∷ []) (b'f' ∷ []) acts cleared).1 ≡ status_after acts pass)
    × (parse_test same (trim (assert_program (b'a' ∷ []) (b'f' ∷ []) acts cleared).0)
        ≡ ok (record {
          name = b'a' ∷ [];
          file = b'f' ∷ [];
          status = fail;
          logs = record { fmt = b'x' ∷ []; line = 7; args = 5 ∷ 2 ^ 40 ∷ [] } ∷ [];
        }))
unfolding encode_test
parse_test-assert_program_example =
    parse_test-assert_program same (b'a' ∷ []) (b'f' ∷ []) acts (omega arith) (omega arith)
      (omega arith) (omega arith)

parse_test_ends_example :
    IsDone (parse_test same (1 ∷ 0 ∷ 7 ∷ [])) ↔ (¬ HasEmptyVersion (1 ∷ 0 ∷ 7 ∷ []))
parse_test_ends_example = parse_test_ends same (1 ∷ 0 ∷ 7 ∷ [])
