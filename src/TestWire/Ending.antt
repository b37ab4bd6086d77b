-- ===== src/TestWire/Ending.antt =====
-- The buffer that a test leaves, and what is left of it when its last zeros are trimmed.
use mathlib.Core.List.{append_assoc}
use sarena.Prelude.{
  ℕ, zero, suc, ◌≡◌, ◌≢◌, refl, ap, sym, ◌∙◌, ◌+◌, ◌-◌, ◌≤◌, Bool, true, false, List, [], ◌∷◌, ◌++◌,
  arith, length, replicate, length-append, All,
}
use sarena.TestWire.{
  version, test_name, test_file, test_status, tag_code, TestStatus, pass, fail, skip,
  framework_error, status_code, wire_version, test_result_map_size,
}
use sarena.TestWire.Writer.{
  then_write, write_bytes, new_writer, TestSuite, new_suite, Act, run_body, assert_program,
  finish_suite,
}
use sarena.TestWire.Codec.{
  encode, length-encode, Holds, Writes, write_u8-Writes, write_bytes-Writes,
}
use sarena.TestWire.Writes.{
  encode_acts, encode_head, encode_test, status_after, IsShort, then_write-Writes, run_body-Holds,
}
use sarena.TestWire.Runner.{written, take, trim, cleared}

written-zeros : (n : ℕ) → written (replicate n 0) ≡ 0
unfolding written
written-zeros zero = refl
written-zeros (suc n) = rw (written-zeros n)

written-last :
    (bytes : List ℕ) (b n : ℕ)
    → b ≢ 0
    → written ((bytes ++ b ∷ []) ++ replicate n 0) ≡ suc (length bytes)
unfolding written
written-last [] b n h = rw (written-zeros n, written) (ground arith)
written-last (x ∷ bytes) b n h = rw (written-last bytes b n h, written)

take-append : (xs ys : List ℕ) → take (length xs) (xs ++ ys) ≡ xs
unfolding take
take-append [] ys = refl
take-append (x ∷ xs) ys = ap (λ l. x ∷ l) (take-append xs ys)

-- A last byte that is not zero stops the trimming.
trim-last :
    (bytes : List ℕ) (b n : ℕ) → b ≢ 0 → trim ((bytes ++ b ∷ []) ++ replicate n 0) ≡ bytes ++ b ∷ []
unfolding trim
trim-last bytes b n h =
    let size : suc (length bytes) ≡ length (bytes ++ b ∷ []) =
      omega (arith, length-append bytes (b ∷ [])) in
    rw (written-last bytes b n h, size) (take-append (bytes ++ b ∷ []) (replicate n 0))

status_code_pos : (s : TestStatus) → status_code s ≢ 0
status_code_pos pass = λ e. absurd (omega arith)
status_code_pos fail = λ e. absurd (omega arith)
status_code_pos skip = λ e. absurd (omega arith)
status_code_pos framework_error = λ e. absurd (omega arith)

-- A test ends with its status, which is not zero.
pub trim-encode_test :
    (name file : List ℕ) (acts : List Act) (n : ℕ)
    → trim (encode_test name file acts ++ replicate n 0) ≡ encode_test name file acts
unfolding encode_test encode
trim-encode_test name file acts n =
    let s = status_code (status_after acts pass) in
    let before = (encode_head name file ++ encode_acts acts) ++ tag_code test_status ∷ 1 ∷ [] in
    let e : before ++ s ∷ [] ≡ encode_test name file acts =
      append_assoc (encode_head name file ++ encode_acts acts) (tag_code test_status ∷ 1 ∷ [])
        (s ∷ []) in
    ap (λ l. trim (l ++ replicate n 0)) (sym e)
    ∙ trim-last before s n (status_code_pos (status_after acts pass))
    ∙ e

-- The buffer after a test all of whose records fit, and the status that its program returns.
module _ (name file : List ℕ) (acts : List Act) (short_name : length name ≤ 255)
    (short_file : length file ≤ 255) (short : All IsShort acts)
    (fits : length (encode_test name file acts) ≤ test_result_map_size) where
  head_size : length (encode_head name file) ≡ 7 + length name + length file
  unfolding encode_head encode
  head_size = omega (
    arith,
    length-append (encode version (wire_version ∷ []) ++ encode test_name name)
        (encode test_file file),
    length-append (encode version (wire_version ∷ [])) (encode test_name name),
  )

  body_fits : length (encode_head name file) + length (encode_acts acts) + 3 ≤ test_result_map_size
  unfolding encode_test encode
  body_fits = omega (
    arith,
    length-append (encode_head name file ++ encode_acts acts)
        (encode test_status (status_code (status_after acts pass) ∷ [])),
    length-append (encode_head name file) (encode_acts acts),
    fits,
  )

  empty-Holds : Holds [] (record { buf = cleared; pos = 0 })
  unfolding cleared
  empty-Holds = record { at = refl; buf = refl; fits = omega arith }

  head-Writes : Writes (encode_head name file) (
      then_write
        (write_bytes test_file file)
        (then_write (write_bytes test_name name) (new_writer cleared)))
  unfolding encode_head new_writer
  head-Writes =
      let one = encode version (wire_version ∷ []) in
      let two = one ++ encode test_name name in
      let size : length one ≡ 3 = length-encode version (wire_version ∷ []) in
      let size' = length-append one (encode test_name name) in
      then_write-Writes two (two ++ encode test_file file) (write_bytes test_file file) _
        (then_write-Writes one two (write_bytes test_name name) _
          (write_u8-Writes [] (record { buf = cleared; pos = 0 }) empty-Holds version wire_version
            (omega arith))
          (λ w h.
            write_bytes-Writes one w h test_name name short_name
              (omega (arith, head_size, body_fits))))
        (λ w h.
          write_bytes-Writes two w h test_file file short_file
            (omega (arith, head_size, body_fits, length-encode test_name name)))

  abbrev ending : List ℕ × TestStatus
  ending = (
    encode_test name file acts
        ++ replicate (test_result_map_size - length (encode_test name file acts)) 0,
    status_after acts pass,
  )

  finish_suite_lem :
      (s : TestSuite) (done : Bool)
      → s.status ≡ pass
      → Writes (encode_head name file) (s.writer, done)
      → finish_suite (s, done) acts ≡ ending
  unfolding encode_test
  finish_suite_lem s false begun w = cc w.made
  finish_suite_lem s true begun w =
      let before = encode_head name file ++ encode_acts acts in
      let (holds, status) =
        run_body-Holds acts (encode_head name file) s w.holds short (omega (arith, body_fits)) in
      let last =
        write_u8-Writes before (run_body acts s).writer holds test_status
          (status_code (run_body acts s).status)
          (omega (arith, body_fits, length-append (encode_head name file) (encode_acts acts))) in
      let status' : (run_body acts s).status ≡ status_after acts pass =
        status ∙ ap (status_after acts) begun in
      rw last.made (
        ap (λ b. (b, (run_body acts s).status)) last.holds.buf
        ∙ ap
            (λ st.
              let bytes = before ++ encode test_status (status_code st ∷ []) in
              (bytes ++ replicate (test_result_map_size - length bytes) 0, st))
            status')

  pub assert_program_lem : assert_program name file acts cleared ≡ ending
  unfolding assert_program new_suite
  assert_program_lem =
      let (w, done) =
        then_write (write_bytes test_file file)
          (then_write (write_bytes test_name name) (new_writer cleared)) in
      finish_suite_lem (record { writer = w; status = pass }) done refl head-Writes
