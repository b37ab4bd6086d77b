-- ===== src/TestWire/Writes.antt =====
-- What a whole test writes: its records on the wire, and the buffer after its body.
use mathlib.Core.List.{append_assoc, append-nil}
use native.Mathlib.Nat.{pow-suc}
use sarena.Prelude.{
  ℕ, zero, suc, ◌≡◌, refl, ap, ◌+◌, ◌*◌, ◌/◌, ◌^◌, ◌≤◌, ◌<◌, Bool, true, false, List, [], ◌∷◌, ◌++◌,
  arith, length, length-append, All,
}
use sarena.TestWire.{
  version, test_name, test_file, test_status, log_fmt, log_arg, log_line, TestStatus, pass,
  status_code, to_le_bytes, from_le_bytes, wire_version, test_result_map_size,
}
use sarena.TestWire.Writer.{
  TlvWriter, write_u32, write_u64, write_bytes, then_write, TestSuite, write_args, write_log_inner,
  log, Act, log_line_of, set_status, perform, run_body,
}
use sarena.TestWire.Codec.{
  encode, length-encode, Holds, Writes, write_u32-Writes, write_u64-Writes, write_bytes-Writes,
}
use sarena.TestWire.Reader.{LogEntry}

pub length-to_le_bytes : (n v : ℕ) → length (to_le_bytes n v) ≡ n
unfolding to_le_bytes
length-to_le_bytes zero v = refl
length-to_le_bytes (suc n) v = ap suc (length-to_le_bytes n (v / 256))

pub from_le_bytes-to_le_bytes : (n v : ℕ) → v < 256 ^ n → from_le_bytes (to_le_bytes n v) ≡ v
unfolding to_le_bytes from_le_bytes
from_le_bytes-to_le_bytes zero v h = omega arith
from_le_bytes-to_le_bytes (suc n) v h =
    let e : 256 ^ suc n ≡ 256 * 256 ^ n = omega (arith, pow-suc 256 n) in
    omega (arith, from_le_bytes-to_le_bytes n (v / 256) (omega arith))

-- The wire form of the arguments and the logs of a body.
unfoldable pub encode_args : List ℕ → List ℕ
unfolding encode to_le_bytes
encode_args [] = []
encode_args (a ∷ args) = encode log_arg (to_le_bytes 8 a) ++ encode_args args

unfoldable pub encode_log : ℕ → List ℕ → List ℕ → List ℕ
unfolding encode encode_args to_le_bytes
encode_log line fmt args =
    encode log_fmt fmt ++ (encode log_line (to_le_bytes 4 line) ++ encode_args args)

unfoldable pub encode_acts : List Act → List ℕ
unfolding encode_log
encode_acts [] = []
encode_acts (log_line_of line fmt args ∷ acts) = encode_log line fmt args ++ encode_acts acts
encode_acts (set_status status ∷ acts) = encode_acts acts

-- The status that a body leaves, and the logs that it writes.
abbrev pub status_after : List Act → TestStatus → TestStatus
status_after [] s = s
status_after (log_line_of line fmt args ∷ acts) s = status_after acts s
status_after (set_status status ∷ acts) s = status_after acts status

abbrev pub logs_of : {Text : Type 0} → (List ℕ → Text) → List Act → List (LogEntry Text)
logs_of lossy [] = []
logs_of lossy (log_line_of line fmt args ∷ acts) =
    record { fmt = lossy fmt; line = line; args = args } ∷ logs_of lossy acts
logs_of lossy (set_status status ∷ acts) = logs_of lossy acts

-- The values of an act fit their types, and its format fits the length byte.
abbrev pub IsShort : Act → Type 0
IsShort (log_line_of line fmt args) =
    (line < 2 ^ 32) × (length fmt ≤ 255) × All (λ a. a < 2 ^ 64) args
IsShort (set_status status) = Unit {0}

-- All that a test writes, its status last.
unfoldable pub encode_head : List ℕ → List ℕ → List ℕ
unfolding encode
encode_head name file =
    (encode version (wire_version ∷ []) ++ encode test_name name) ++ encode test_file file

unfoldable pub encode_test : List ℕ → List ℕ → List Act → List ℕ
unfolding encode encode_head encode_acts
encode_test name file acts =
    (encode_head name file ++ encode_acts acts)
    ++ encode test_status (status_code (status_after acts pass) ∷ [])

pub then_write-Writes :
    (bytes bytes' : List ℕ) (f : TlvWriter → TlvWriter × Bool) (m : TlvWriter × Bool)
    → Writes bytes m
    → ((w : TlvWriter) → Holds bytes w → Writes bytes' (f w))
    → Writes bytes' (then_write f m)
then_write-Writes bytes bytes' f (w, true) h k = k w h.holds
then_write-Writes bytes bytes' f (w, false) h k = cc h.made

write_args-Writes :
    (args bytes : List ℕ) (w : TlvWriter)
    → Holds bytes w
    → length bytes + length (encode_args args) ≤ test_result_map_size
    → Writes (bytes ++ encode_args args) (write_args args w)
unfolding write_args encode_args
write_args-Writes [] bytes w h le = rw append-nil (record { made = refl; holds = h })
write_args-Writes (a ∷ args) bytes w h le =
    let first = encode log_arg (to_le_bytes 8 a) in
    let size : length first ≡ 10 = omega (arith, length-encode, length-to_le_bytes) in
    let total = length-append first (encode_args args) in
    let answer =
      then_write-Writes (bytes ++ first) ((bytes ++ first) ++ encode_args args) (write_args args)
        (write_u64 log_arg a w) (write_u64-Writes bytes w h log_arg a (omega arith))
        λ w' h'.
          write_args-Writes args (bytes ++ first) w' h'
            (omega (arith, length-append bytes first)) in
    rw append_assoc at answer

write_log_inner-Writes :
    (line : ℕ) (fmt args bytes : List ℕ) (w : TlvWriter)
    → Holds bytes w
    → length fmt ≤ 255
    → length bytes + length (encode_log line fmt args) ≤ test_result_map_size
    → Writes (bytes ++ encode_log line fmt args) (write_log_inner line fmt args w)
unfolding write_log_inner encode_log
write_log_inner-Writes line fmt args bytes w h short le =
    let one = encode log_fmt fmt in
    let two = encode log_line (to_le_bytes 4 line) in
    let size : length two ≡ 6 = omega (arith, length-encode, length-to_le_bytes) in
    let size' : length one ≡ 2 + length fmt = length-encode log_fmt fmt in
    let total = length-append one (two ++ encode_args args) in
    let total' = length-append two (encode_args args) in
    let answer =
      then_write-Writes ((bytes ++ one) ++ two) (((bytes ++ one) ++ two) ++ encode_args args)
        (write_args args) _
        (then_write-Writes (bytes ++ one) ((bytes ++ one) ++ two) (write_u32 log_line line)
          (write_bytes log_fmt fmt w) (write_bytes-Writes bytes w h log_fmt fmt short (omega arith))
          λ w' h'.
            write_u32-Writes (bytes ++ one) w' h' log_line line
              (omega (arith, length-append bytes one)))
        λ w' h'.
          write_args-Writes args ((bytes ++ one) ++ two) w' h'
            (omega (arith, length-append (bytes ++ one) two, length-append bytes one)) in
    simp append_assoc at answer

log-made :
    (line : ℕ) (fmt args : List ℕ) (s : TestSuite)
    → (write_log_inner line fmt args s.writer).1 ≡ true
    → log line fmt args s
      ≡ record { writer = (write_log_inner line fmt args s.writer).0; status = s.status }
unfolding log
log-made line fmt args s h = rw h

pub run_body-Holds :
    (acts : List Act) (bytes : List ℕ) (s : TestSuite)
    → Holds bytes s.writer
    → All IsShort acts
    → length bytes + length (encode_acts acts) ≤ test_result_map_size
    → Holds (bytes ++ encode_acts acts) (run_body acts s).writer
      × ((run_body acts s).status ≡ status_after acts s.status)
unfolding run_body encode_acts perform
run_body-Holds [] bytes s h short le = (rw append-nil h, refl)
run_body-Holds (set_status status ∷ acts) bytes s h short le =
    run_body-Holds acts bytes (record s { status = status }) h short.1 le
run_body-Holds (log_line_of line fmt args ∷ acts) bytes s h short le =
    let here = encode_log line fmt args in
    let total = length-append here (encode_acts acts) in
    let w = write_log_inner-Writes line fmt args bytes s.writer h short.0.1 (omega arith) in
    let answer =
      run_body-Holds acts (bytes ++ here)
        (record { writer = (write_log_inner line fmt args s.writer).0; status = s.status }) w.holds
        short.1 (omega (arith, length-append bytes here)) in
    rw (log-made line fmt args s w.made, run_body, perform) (rw append_assoc at answer)
