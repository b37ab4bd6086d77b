-- ===== src/TestWire/Writer.antt =====
-- sarena-shared-test/src/tlv_writer.rs, the suite of sarena-ebpf-test-framework/src/suite.rs that
-- writes with it, and the program that sarena-test-macros/src/assert.rs puts around a test.
-- A method of the writer gives the writer and whether it answered `Some`.
use sarena.Prelude.{ℕ, ◌+◌, Bool, true, false, List, [], ◌∷◌, leb, ltb, if◌then◌else◌, length, set}
use sarena.TestWire.{
  Tag, version, test_name, test_file, test_status, log_fmt, log_arg, log_line, tag_code, TestStatus,
  pass, framework_error, status_code, to_le_bytes, wire_version, test_result_map_size,
}

pub record TlvWriter : Type 0 where
  pub buf : List ℕ
  pub pos : ℕ

-- `buf[pos] = b` for the bytes in order, and the move of `pos` past them.
unfoldable pub put : List ℕ → TlvWriter → TlvWriter
put [] w = w
put (b ∷ bs) w = put bs (record { buf = set w.buf w.pos b; pos = w.pos + 1 })

unfoldable pub need : ℕ → TlvWriter → Bool
need n w = leb (w.pos + n) test_result_map_size

unfoldable pub write_u8 : Tag → ℕ → TlvWriter → TlvWriter × Bool
unfolding need
write_u8 tag val w = if need 3 w then (put (tag_code tag ∷ 1 ∷ val ∷ []) w, true) else (w, false)

unfoldable pub write_u16 : Tag → ℕ → TlvWriter → TlvWriter × Bool
unfolding need
write_u16 tag val w =
    if need 4 w then (put (tag_code tag ∷ 2 ∷ to_le_bytes 2 val) w, true) else (w, false)

unfoldable pub write_u32 : Tag → ℕ → TlvWriter → TlvWriter × Bool
unfolding need
write_u32 tag val w =
    if need 6 w then (put (tag_code tag ∷ 4 ∷ to_le_bytes 4 val) w, true) else (w, false)

unfoldable pub write_u64 : Tag → ℕ → TlvWriter → TlvWriter × Bool
unfolding need
write_u64 tag val w =
    if need 10 w then (put (tag_code tag ∷ 8 ∷ to_le_bytes 8 val) w, true) else (w, false)

unfoldable pub write_bytes : Tag → List ℕ → TlvWriter → TlvWriter × Bool
unfolding need
write_bytes tag bytes w =
    if ltb 255 (length bytes)
    then (w, false)
    else if need (2 + length bytes) w
    then (put (tag_code tag ∷ length bytes ∷ bytes) w, true)
    else (w, false)

-- `?` after a write: the rest is done when the write was.
abbrev pub then_write : (TlvWriter → TlvWriter × Bool) → TlvWriter × Bool → TlvWriter × Bool
then_write f (w, true) = f w
then_write f (w, false) = (w, false)

-- `TlvWriter::new`.
unfoldable pub new_writer : List ℕ → TlvWriter × Bool
unfolding write_u8
new_writer buf = write_u8 version wire_version (record { buf = buf; pos = 0 })

pub record TestSuite : Type 0 where
  pub writer : TlvWriter
  pub status : TestStatus

-- `TestSuite::new` on the result map's buffer.
unfoldable pub new_suite : List ℕ → List ℕ → List ℕ → TestSuite × Bool
unfolding new_writer write_bytes
new_suite buf name file =
    let (writer, done) =
      then_write (write_bytes test_file file)
        (then_write (write_bytes test_name name) (new_writer buf)) in
    (record { writer = writer; status = pass }, done)

unfoldable pub write_args : List ℕ → TlvWriter → TlvWriter × Bool
unfolding write_u64
write_args [] w = (w, true)
write_args (a ∷ args) w = then_write (write_args args) (write_u64 log_arg a w)

unfoldable pub write_log_inner : ℕ → List ℕ → List ℕ → TlvWriter → TlvWriter × Bool
unfolding write_bytes write_u32 write_args
write_log_inner line fmt args w =
    then_write (write_args args) (then_write (write_u32 log_line line) (write_bytes log_fmt fmt w))

-- `log`; `log0` to `log3` are its calls with no to three arguments.
unfoldable pub log : ℕ → List ℕ → List ℕ → TestSuite → TestSuite
unfolding write_log_inner
log line fmt args s =
    let (writer, done) = write_log_inner line fmt args s.writer in
    record { writer = writer; status = if done then s.status else framework_error }

-- What the body of a test does to its suite.
pub data Act : Type 0 where
  log_line_of : ℕ → List ℕ → List ℕ → Act
  set_status : TestStatus → Act

unfoldable pub perform : Act → TestSuite → TestSuite
unfolding log
perform (log_line_of line fmt args) s = log line fmt args s
perform (set_status status) s = record s { status = status }

unfoldable pub run_body : List Act → TestSuite → TestSuite
unfolding perform
run_body [] s = s
run_body (a ∷ acts) s = run_body acts (perform a s)

abbrev pub finish_suite : TestSuite × Bool → List Act → List ℕ × TestStatus
finish_suite (s, false) acts = (s.writer.buf, framework_error)
finish_suite (s, true) acts =
    let ended = run_body acts s in
    let (w, done) = write_u8 test_status (status_code ended.status) ended.writer in
    (w.buf, if done then ended.status else framework_error)

-- The program around a test: the buffer that it leaves and the status that it returns.
unfoldable pub assert_program : List ℕ → List ℕ → List Act → List ℕ → List ℕ × TestStatus
unfolding new_suite run_body write_u8
assert_program name file acts buf = finish_suite (new_suite buf name file) acts
