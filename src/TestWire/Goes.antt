-- ===== src/TestWire/Goes.antt =====
-- What the reader makes of the records of a test, at any place in the bytes.
use mathlib.Core.List.{append_assoc, append-nil}
use sarena.Prelude.{ℕ, ◌≡◌, refl, ◌∙◌, ◌+◌, ◌^◌, ◌<◌, some, List, [], ◌∷◌, ◌++◌, length, All}
use sarena.TestWire.{
  Tag, test_name, test_file, test_status, log_fmt, log_arg, log_line, TestStatus, pass, fail, skip,
  framework_error, status_code, status_from_u8, to_le_bytes,
}
use sarena.TestWire.Writer.{Act, log_line_of, set_status}
use sarena.TestWire.Codec.{encode}
use sarena.TestWire.Writes.{
  length-to_le_bytes, from_le_bytes-to_le_bytes, encode_args, encode_log, encode_acts, logs_of,
  IsShort,
}
use sarena.TestWire.Reader.{ok, LogEntry, TestResult, change_last, read_record}
use sarena.TestWire.Reads.{read_all, read_all-encode}

change_last-append :
    {Text : Type 0} (f : LogEntry Text → LogEntry Text) (logs : List (LogEntry Text))
    (e : LogEntry Text)
    → change_last f (logs ++ e ∷ []) ≡ some (logs ++ f e ∷ [])
unfolding change_last
change_last-append f [] e = refl
change_last-append f (x ∷ []) e = refl
change_last-append f (x ∷ y ∷ logs) e = rw (change_last-append f (y ∷ logs) e)

status_from_u8-status_code : (s : TestStatus) → status_from_u8 (status_code s) ≡ s
unfolding status_from_u8
status_from_u8-status_code pass = refl
status_from_u8-status_code fail = refl
status_from_u8-status_code skip = refl
status_from_u8-status_code framework_error = refl

module _ {Text : Type 0} (lossy : List ℕ → Text) where
  -- Reading `bytes` at any place takes the result from `r` to `r'`.
  abbrev pub Goes : List ℕ → TestResult Text → TestResult Text → Type 0
  Goes bytes r r' =
      (cur : ℕ) (rest : List ℕ)
      → (cur' : ℕ) × (read_all lossy cur (bytes ++ rest) r ≡ read_all lossy cur' rest r')

  Goes-nil : (r : TestResult Text) → Goes [] r r
  Goes-nil r = λ cur rest. (cur, refl)

  pub Goes-append :
      (xs ys : List ℕ) (r r' r'' : TestResult Text)
      → Goes xs r r'
      → Goes ys r' r''
      → Goes (xs ++ ys) r r''
  Goes-append xs ys r r' r'' g h = λ cur rest.
      let one = g cur (ys ++ rest) in
      let two = h one.0 rest in (two.0, rw append_assoc (one.1 ∙ two.1))

  Goes-encode :
      (tag : Tag) (value : List ℕ) (r r' : TestResult Text)
      → ((cur : ℕ) → read_record lossy (some tag) value cur r ≡ ok r')
      → Goes (encode tag value) r r'
  Goes-encode tag value r r' h =
      λ cur rest. (cur + 2 + length value, read_all-encode lossy cur tag value rest r r' (h cur))

  -- The result so far, with `logs` in front of the log that is being read.
  abbrev reading : TestResult Text → List (LogEntry Text) → LogEntry Text → TestResult Text
  reading r logs e = record r { logs = logs ++ e ∷ [] }

  read_log_arg :
      (a : ℕ) (r : TestResult Text) (logs : List (LogEntry Text)) (e : LogEntry Text) (cur : ℕ)
      → a < 2 ^ 64
      → read_record lossy (some log_arg) (to_le_bytes 8 a) cur (reading r logs e)
        ≡ ok (reading r logs (record e { args = e.args ++ a ∷ [] }))
  unfolding read_record
  read_log_arg a r logs e cur h =
      rw (length-to_le_bytes 8 a, change_last-append, from_le_bytes-to_le_bytes 8 a h) refl

  read_log_line :
      (line : ℕ) (r : TestResult Text) (logs : List (LogEntry Text)) (e : LogEntry Text) (cur : ℕ)
      → line < 2 ^ 32
      → read_record lossy (some log_line) (to_le_bytes 4 line) cur (reading r logs e)
        ≡ ok (reading r logs (record e { line = line }))
  unfolding read_record
  read_log_line line r logs e cur h =
      rw (length-to_le_bytes 4 line, change_last-append, from_le_bytes-to_le_bytes 4 line h) refl

  Goes-args :
      (args : List ℕ) (r : TestResult Text) (logs : List (LogEntry Text)) (e : LogEntry Text)
      → All (λ a. a < 2 ^ 64) args
      → Goes
          (encode_args args)
          (reading r logs e)
          (reading r logs (record e { args = e.args ++ args }))
  unfolding encode_args
  Goes-args [] r logs e h = rw append-nil (Goes-nil (reading r logs e))
  Goes-args (a ∷ args) r logs e h =
      let one =
        Goes-encode log_arg (to_le_bytes 8 a) _ _ (λ cur. read_log_arg a r logs e cur h.0) in
      let more = Goes-args args r logs (record e { args = e.args ++ a ∷ [] }) h.1 in
      rw append_assoc at
        (Goes-append (encode log_arg (to_le_bytes 8 a)) (encode_args args) _ _ _ one more)

  Goes-log :
      (line : ℕ) (fmt args : List ℕ) (r : TestResult Text)
      → IsShort (log_line_of line fmt args)
      → Goes
          (encode_log line fmt args)
          r
          (reading r r.logs (record { fmt = lossy fmt; line = line; args = args }))
  unfolding encode_log read_record
  Goes-log line fmt args r h =
      let started : LogEntry Text = record { fmt = lossy fmt; line = 0; args = [] } in
      Goes-append (encode log_fmt fmt) _ r (reading r r.logs started) _
        (Goes-encode log_fmt fmt r (reading r r.logs started) (λ cur. refl))
        (Goes-append (encode log_line (to_le_bytes 4 line)) (encode_args args) _
          (reading r r.logs (record started { line = line })) _
          (Goes-encode log_line (to_le_bytes 4 line) _ _
            (λ cur. read_log_line line r r.logs started cur h.0))
          (Goes-args args r r.logs (record started { line = line }) h.2))

  pub Goes-acts :
      (acts : List Act) (r : TestResult Text)
      → All IsShort acts
      → Goes (encode_acts acts) r (record r { logs = r.logs ++ logs_of lossy acts })
  unfolding encode_acts
  Goes-acts [] r h = rw append-nil (Goes-nil r)
  Goes-acts (set_status status ∷ acts) r h = Goes-acts acts r h.1
  Goes-acts (log_line_of line fmt args ∷ acts) r h =
      let e : LogEntry Text = record { fmt = lossy fmt; line = line; args = args } in
      rw append_assoc at (
        Goes-append (encode_log line fmt args) (encode_acts acts) _ _ _
          (Goes-log line fmt args r h.0) (Goes-acts acts (reading r r.logs e) h.1))

  -- The head of a test is its version, name and file.
  pub Goes-head :
      (name file : List ℕ) (r : TestResult Text)
      → Goes
          (encode test_name name ++ encode test_file file)
          r
          (record r { name = lossy name; file = lossy file })
  unfolding read_record
  Goes-head name file r =
      Goes-append (encode test_name name) (encode test_file file) r (record r { name = lossy name })
        _ (Goes-encode test_name name r _ (λ cur. refl))
        (Goes-encode test_file file _ _ (λ cur. refl))

  pub Goes-status :
      (s : TestStatus) (r : TestResult Text)
      → Goes (encode test_status (status_code s ∷ [])) r (record r { status = s })
  unfolding read_record
  Goes-status s r =
      Goes-encode test_status (status_code s ∷ []) r _ (λ cur. rw (status_from_u8-status_code s))
