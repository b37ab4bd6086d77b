-- ===== src/TestWire/Reader.antt =====
-- sarena-shared-test/src/tlv_reader.rs. The position `cur` goes with the bytes from there on, so
-- `data.len() - cur` is their number.
use sarena.Prelude.{
  ℕ, zero, suc, ◌+◌, Option, none, some, List, [], ◌∷◌, ◌++◌, ◌==◌, not, if◌then◌else◌, length,
}
use sarena.TestWire.{
  Tag, version, test_name, test_file, test_status, log_fmt, log_arg, log_line, tag_code,
  tag_from_u8, TestStatus, framework_error, status_from_u8, from_le_bytes, wire_version,
}

pub data ParseError : Type 0 where
  missing_version_tag : ParseError
  incompatible_version : ℕ → ParseError
  truncated_header : ℕ → ParseError
  truncated_value : ℕ → ℕ → ParseError
  bad_tag_length : ℕ → ℕ → ℕ → ParseError
  orphan_log_field : ℕ → ParseError

-- `Result<A, ParseError>`, a panic, and the end of the fuel, which is no value of the code.
pub data Outcome {ℓ} (A : Type ℓ) : Type ℓ where
  ok : A → Outcome A
  err : ParseError → Outcome A
  panic : Outcome A
  out_of_fuel : Outcome A

infixl 5 ◌>>=◌
abbrev pub ◌>>=◌ {ℓ κ} : {A : Type ℓ} {B : Type κ} → Outcome A → (A → Outcome B) → Outcome B
ok a >>= f = f a
err e >>= f = err e
panic >>= f = panic
out_of_fuel >>= f = out_of_fuel

-- The slice `rest[..n]` and what follows it; `none` where there are fewer bytes.
unfoldable pub split_at : ℕ → List ℕ → Option (List ℕ × List ℕ)
split_at zero rest = some ([], rest)
split_at (suc n) [] = none
split_at (suc n) (b ∷ rest) = elim (split_at n rest) [
  | none ↦ none
  | some (value, after) ↦ some (b ∷ value, after)
]

pub record Tlv : Type 0 where
  pub tag : ℕ
  pub value : List ℕ
  pub cur : ℕ
  pub rest : List ℕ

unfoldable pub next_tlv : ℕ → List ℕ → Outcome Tlv
unfolding split_at
next_tlv cur [] = err (truncated_header cur)
next_tlv cur (tag ∷ []) = err (truncated_header cur)
next_tlv cur (tag ∷ len ∷ rest) = elim (split_at len rest) [
  | none ↦ err (truncated_value (cur + 2) len)
  | some (value, after) ↦
      ok (record { tag = tag; value = value; cur = cur + 2 + len; rest = after })
]

module _ (Text : Type 0) where
  pub record LogEntry : Type 0 where
    pub fmt : Text
    pub line : ℕ
    pub args : List ℕ

  pub record TestResult : Type 0 where
    pub name : Text
    pub file : Text
    pub status : TestStatus
    pub logs : List (LogEntry)

-- The change of `logs.last_mut()`.
module _ {Text : Type 0} where
  unfoldable pub change_last :
      (LogEntry Text → LogEntry Text) → List (LogEntry Text) → Option (List (LogEntry Text))
  change_last f [] = none
  change_last f (e ∷ []) = some (f e ∷ [])
  change_last f (e ∷ e' ∷ logs) = elim (change_last f (e' ∷ logs)) [
    | none ↦ none
    | some logs' ↦ some (e ∷ logs')
  ]

  abbrev pub with_logs :
      ℕ → TestResult Text → Option (List (LogEntry Text)) → Outcome (TestResult Text)
  with_logs offset r none = err (orphan_log_field offset)
  with_logs offset r (some logs) = ok (record r { logs = logs })

-- `lossy` is `String::from_utf8_lossy`.
module _ {Text : Type 0} (lossy : List ℕ → Text) where
  -- One round of the loop: the record of `tag` at `offset`.
  unfoldable pub read_record : Option Tag → List ℕ → ℕ → TestResult Text → Outcome (TestResult Text)
  unfolding change_last status_from_u8 from_le_bytes
  read_record none value offset r = ok r
  read_record (some version) value offset r = ok r
  read_record (some test_name) value offset r = ok (record r { name = lossy value })
  read_record (some test_file) value offset r = ok (record r { file = lossy value })
  read_record (some test_status) [] offset r = err (bad_tag_length (tag_code test_status) 1 0)
  read_record (some test_status) (v ∷ vs) offset r =
      if not (length (v ∷ vs) == 1)
      then err (bad_tag_length (tag_code test_status) 1 (length (v ∷ vs)))
      else ok (record r { status = status_from_u8 v })
  read_record (some log_fmt) value offset r =
      ok (record r { logs = r.logs ++ record { fmt = lossy value; line = 0; args = [] } ∷ [] })
  read_record (some log_line) value offset r =
      if not (length value == 4)
      then err (bad_tag_length (tag_code log_line) 4 (length value))
      else with_logs offset r (change_last (λ e. record e { line = from_le_bytes value }) r.logs)
  read_record (some log_arg) value offset r =
      if not (length value == 8)
      then err (bad_tag_length (tag_code log_arg) 8 (length value))
      else with_logs offset r
          (change_last (λ e. record e { args = e.args ++ from_le_bytes value ∷ [] }) r.logs)

  -- The loop, one round of fuel for each record.
  unfoldable pub read_records : ℕ → ℕ → List ℕ → TestResult Text → Outcome (TestResult Text)
  unfolding next_tlv read_record tag_from_u8
  read_records fuel cur [] r = ok r
  read_records zero cur (b ∷ rest) r = out_of_fuel
  read_records (suc fuel) cur (b ∷ rest) r = do
    t ← next_tlv cur (b ∷ rest)
    r' ← read_record (tag_from_u8 t.tag) t.value cur r
    read_records fuel t.cur t.rest r'

  -- `value != [WIRE_VERSION]`, and the panic of `value[0]` on an empty value.
  unfoldable pub check_version : Tlv → Outcome (Unit {0})
  check_version t =
      if not (t.tag == tag_code version) then err missing_version_tag else elim t.value [
        | [] ↦ panic
        | v ∷ vs ↦ elim vs [
          | [] ↦ if v == wire_version then ok tt else err (incompatible_version v)
          | _ ∷ _ ↦ err (incompatible_version v)
        ]
      ]

  abbrev pub empty_result : TestResult Text
  empty_result = record { name = lossy []; file = lossy []; status = framework_error; logs = [] }

  -- A record takes two bytes at least, so there are fewer rounds than bytes.
  unfoldable pub parse_test : List ℕ → Outcome (TestResult Text)
  unfolding next_tlv check_version read_records
  parse_test bytes = do
    t ← next_tlv 0 bytes
    u ← check_version t
    read_records (length t.rest) t.cur t.rest empty_result
