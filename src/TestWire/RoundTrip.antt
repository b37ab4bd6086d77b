-- ===== src/TestWire/RoundTrip.antt =====
-- From a test's body to the result that the runner reads.
use mathlib.Core.List.{append_assoc, append-nil}
use sarena.Prelude.{ℕ, ◌≡◌, refl, ap, sym, ◌∙◌, ◌≤◌, List, [], ◌∷◌, ◌++◌, length, All}
use sarena.TestWire.{
  version, test_name, test_file, test_status, pass, status_code, wire_version, test_result_map_size,
}
use sarena.TestWire.Writer.{Act, assert_program}
use sarena.TestWire.Codec.{encode}
use sarena.TestWire.Writes.{encode_acts, encode_head, encode_test, status_after, logs_of, IsShort}
use sarena.TestWire.Reader.{ok, TestResult, check_version, parse_test, read_records, empty_result}
use sarena.TestWire.Reads.{read_all}
use sarena.TestWire.Runner.{trim, cleared}
use sarena.TestWire.Ending.{assert_program_lem, trim-encode_test}
use sarena.TestWire.Goes.{Goes, Goes-append, Goes-head, Goes-status, Goes-acts}

module _ {Text : Type 0} (lossy : List ℕ → Text) where
  parse_test-version :
      (rest : List ℕ)
      → parse_test lossy (encode version (wire_version ∷ []) ++ rest)
        ≡ read_all lossy 3 rest (empty_result lossy)
  unfolding parse_test check_version encode
  parse_test-version rest = refl

  Goes-test :
      (name file : List ℕ) (acts : List Act) (r : TestResult Text)
      → All IsShort acts
      → Goes lossy
          ((encode test_name name ++ encode test_file file)
            ++ (encode_acts acts ++ encode test_status (status_code (status_after acts pass) ∷ [])))
          r
          (record {
            name = lossy name;
            file = lossy file;
            status = status_after acts pass;
            logs = r.logs ++ logs_of lossy acts;
          })
  Goes-test name file acts r short =
      let r1 : TestResult Text = record r { name = lossy name; file = lossy file } in
      let r2 : TestResult Text = record r1 { logs = r.logs ++ logs_of lossy acts } in
      Goes-append lossy _ _ r r1 _ (Goes-head lossy name file r) (
        Goes-append lossy _ _ r1 r2 _ (Goes-acts lossy acts r1 short)
          (Goes-status lossy (status_after acts pass) r2))

  parse_test-encode_test :
      (name file : List ℕ) (acts : List Act)
      → All IsShort acts
      → parse_test lossy (encode_test name file acts)
        ≡ ok (record {
          name = lossy name;
          file = lossy file;
          status = status_after acts pass;
          logs = logs_of lossy acts;
        })
  unfolding encode_test encode_head read_records
  parse_test-encode_test name file acts short =
      let tail =
        (encode test_name name ++ encode test_file file)
        ++ (encode_acts acts ++ encode test_status (status_code (status_after acts pass) ∷ [])) in
      let e : encode_test name file acts ≡ encode version (wire_version ∷ []) ++ tail =
        simp append_assoc in
      let goes = Goes-test name file acts (empty_result lossy) short 3 [] in
      ap (parse_test lossy) e
      ∙ parse_test-version tail
      ∙ ap (λ l. read_all lossy 3 l (empty_result lossy)) (sym (append-nil tail))
      ∙ goes.1

  -- What a test reports is what the runner reads: a test whose name, file and formats take at most
  -- 255 bytes, whose lines and arguments fit their types and whose records fit the map returns the
  -- status that its body left, and from the trimmed map the parser gets the name, the file, that
  -- status and the logs of the body with their lines and arguments, in order.
  pub parse_test-assert_program :
      (name file : List ℕ) (acts : List Act)
      → length name ≤ 255
      → length file ≤ 255
      → All IsShort acts
      → length (encode_test name file acts) ≤ test_result_map_size
      → ((assert_program name file acts cleared).1 ≡ status_after acts pass)
        × (parse_test lossy (trim (assert_program name file acts cleared).0)
            ≡ ok (record {
              name = lossy name;
              file = lossy file;
              status = status_after acts pass;
              logs = logs_of lossy acts;
            }))
  parse_test-assert_program name file acts short_name short_file short fits =
      let e = assert_program_lem name file acts short_name short_file short fits in
      rw e (
        refl,
        ap (parse_test lossy) (trim-encode_test name file acts _)
            ∙ parse_test-encode_test name file acts short,
      )
