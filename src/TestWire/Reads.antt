-- ===== src/TestWire/Reads.antt =====
-- The reader: its fuel is enough, and what it does with a record that was encoded.
use sarena.Prelude.{
  ℕ, zero, suc, ◌≡◌, ◌≢◌, refl, ap, ◌∙◌, ◌+◌, ◌≤◌, ◌↔◌, Option, none, some, List, [], ◌∷◌, ◌++◌,
  arith, Option-cases, inl, inr, length, length-append,
}
use sarena.TestWire.{
  Tag, version, test_name, test_file, test_status, log_fmt, log_arg, log_line, tag_code,
  tag_from_u8, from_le_bytes,
}
use sarena.TestWire.Codec.{encode}
use sarena.TestWire.Reader.{
  Outcome, ok, err, panic, out_of_fuel, ◌>>=◌, split_at, next_tlv, Tlv, TestResult, LogEntry,
  change_last, with_logs, empty_result, read_record, read_records, check_version, parse_test,
}

-- The parser ended with a result or an error: it did not panic, and its fuel was enough.
abbrev pub IsDone {ℓ} : {A : Type ℓ} → Outcome A → Type 0
IsDone (ok a) = Unit {0}
IsDone (err e) = Unit {0}
IsDone panic = ⊥
IsDone out_of_fuel = ⊥

module _ {ℓ κ} {A : Type ℓ} {B : Type κ} where
  >>=-congr :
      (m : Outcome A) (f g : A → Outcome B)
      → ((a : A) → m ≡ ok a → f a ≡ g a)
      → (m >>= f) ≡ (m >>= g)
  >>=-congr (ok a) f g h = h a refl
  >>=-congr (err e) f g h = refl
  >>=-congr panic f g h = refl
  >>=-congr out_of_fuel f g h = refl

  >>=-IsDone :
      (m : Outcome A) (f : A → Outcome B)
      → IsDone m
      → ((a : A) → m ≡ ok a → IsDone (f a))
      → IsDone (m >>= f)
  >>=-IsDone (ok a) f d h = h a refl
  >>=-IsDone (err e) f d h = tt
  >>=-IsDone panic f d h = d
  >>=-IsDone out_of_fuel f d h = d

split_at-shrinks :
    (n : ℕ) (rest value after : List ℕ)
    → split_at n rest ≡ some (value, after)
    → length after ≤ length rest
unfolding split_at
split_at-shrinks zero rest value after h = ground arith
split_at-shrinks (suc n) [] value after h = cc
split_at-shrinks (suc n) (b ∷ rest) value after h = elim (Option-cases (split_at n rest)) [
  | inl e ↦ ground (arith, e)
  | inr (p, e) ↦ ground (arith, split_at-shrinks n rest p.0 p.1 e)
]

split_at-length :
    (n : ℕ) (rest value after : List ℕ) → split_at n rest ≡ some (value, after) → length value ≡ n
unfolding split_at
split_at-length zero rest value after h = ground arith
split_at-length (suc n) [] value after h = cc
split_at-length (suc n) (b ∷ rest) value after h = elim (Option-cases (split_at n rest)) [
  | inl e ↦ ground (arith, e)
  | inr (p, e) ↦ ground (arith, split_at-length n rest p.0 p.1 e)
]

split_at-append :
    (value rest : List ℕ) → split_at (length value) (value ++ rest) ≡ some (value, rest)
unfolding split_at
split_at-append [] rest = refl
split_at-append (b ∷ value) rest = rw (split_at-append value rest)

next_tlv-shrinks :
    (cur : ℕ) (bytes : List ℕ) (t : Tlv)
    → next_tlv cur bytes ≡ ok t
    → length t.rest + 2 ≤ length bytes
unfolding next_tlv
next_tlv-shrinks cur [] t h = cc
next_tlv-shrinks cur (tag ∷ []) t h = cc
next_tlv-shrinks cur (tag ∷ len ∷ rest) t h = elim (Option-cases (split_at len rest)) [
  | inl e ↦ ground (arith, e)
  | inr (p, e) ↦ ground (arith, split_at-shrinks len rest p.0 p.1 e)
]

-- A record without a value has the length byte zero.
next_tlv-no_value :
    (cur : ℕ) (bytes : List ℕ) (t : Tlv)
    → next_tlv cur bytes ≡ ok t
    → t.value ≡ []
    → (rest : List ℕ) × (bytes ≡ t.tag ∷ 0 ∷ rest)
unfolding next_tlv
next_tlv-no_value cur [] t h e = cc
next_tlv-no_value cur (tag ∷ []) t h e = cc
next_tlv-no_value cur (tag ∷ len ∷ rest) t h e = elim (Option-cases (split_at len rest)) [
  | inl f ↦ absurd (ground (arith, f))
  | inr (p, f) ↦ (rest, ground (arith, f, split_at-length len rest p.0 p.1 f))
]

next_tlv-IsDone : (cur : ℕ) (bytes : List ℕ) → IsDone (next_tlv cur bytes)
unfolding next_tlv
next_tlv-IsDone cur [] = tt
next_tlv-IsDone cur (tag ∷ []) = tt
next_tlv-IsDone cur (tag ∷ len ∷ rest) = ground arith

next_tlv-encode :
    (cur : ℕ) (tag : Tag) (value rest : List ℕ)
    → next_tlv cur (encode tag value ++ rest)
      ≡ ok (record { tag = tag_code tag; value = value; cur = cur + 2 + length value; rest = rest })
unfolding next_tlv encode
next_tlv-encode cur tag value rest = rw (split_at-append value rest, next_tlv)

tag_from_u8-tag_code : (tag : Tag) → tag_from_u8 (tag_code tag) ≡ some tag
unfolding tag_from_u8
tag_from_u8-tag_code version = refl
tag_from_u8-tag_code test_name = refl
tag_from_u8-tag_code test_file = refl
tag_from_u8-tag_code test_status = refl
tag_from_u8-tag_code log_fmt = refl
tag_from_u8-tag_code log_arg = refl
tag_from_u8-tag_code log_line = refl

-- The first record of a message with an empty version.
abbrev pub HasEmptyVersion : List ℕ → Type 0
HasEmptyVersion bytes = (rest : List ℕ) × (bytes ≡ tag_code version ∷ 0 ∷ rest)

module _ {Text : Type 0} (lossy : List ℕ → Text) where
  with_logs-IsDone :
      (offset : ℕ) (r : TestResult Text) (o : Option (List (LogEntry Text)))
      → IsDone (with_logs offset r o)
  with_logs-IsDone offset r none = tt
  with_logs-IsDone offset r (some logs) = tt

  read_record-IsDone :
      (tag : Option Tag) (value : List ℕ) (offset : ℕ) (r : TestResult Text)
      → IsDone (read_record lossy tag value offset r)
  unfolding read_record
  read_record-IsDone none value offset r = tt
  read_record-IsDone (some version) value offset r = tt
  read_record-IsDone (some test_name) value offset r = tt
  read_record-IsDone (some test_file) value offset r = tt
  read_record-IsDone (some test_status) [] offset r = tt
  read_record-IsDone (some test_status) (v ∷ vs) offset r = ground arith
  read_record-IsDone (some log_fmt) value offset r = tt
  read_record-IsDone (some log_line) value offset r =
      let logs = change_last (λ e. record e { line = from_le_bytes value }) r.logs in
      ground (arith, with_logs-IsDone offset r logs)
  read_record-IsDone (some log_arg) value offset r =
      let logs = change_last (λ e. record e { args = e.args ++ from_le_bytes value ∷ [] }) r.logs in
      ground (arith, with_logs-IsDone offset r logs)

  -- With a round of fuel for each byte the loop does not run out, and more fuel changes nothing.
  read_records-IsDone :
      (fuel cur : ℕ) (bytes : List ℕ) (r : TestResult Text)
      → length bytes ≤ fuel
      → IsDone (read_records lossy fuel cur bytes r)
  unfolding read_records
  read_records-IsDone fuel cur [] r h = tt
  read_records-IsDone zero cur (b ∷ bytes) r h = absurd (omega arith)
  read_records-IsDone (suc fuel) cur (b ∷ bytes) r h =
      >>=-IsDone (next_tlv cur (b ∷ bytes)) _ (next_tlv-IsDone cur (b ∷ bytes)) λ t e.
        >>=-IsDone (read_record lossy (tag_from_u8 t.tag) t.value cur r) _
          (read_record-IsDone (tag_from_u8 t.tag) t.value cur r)
          λ r' e'.
            read_records-IsDone fuel t.cur t.rest r'
              (omega (arith, next_tlv-shrinks cur (b ∷ bytes) t e))

  read_records-fuel :
      (f g cur : ℕ) (bytes : List ℕ) (r : TestResult Text)
      → length bytes ≤ f
      → length bytes ≤ g
      → read_records lossy f cur bytes r ≡ read_records lossy g cur bytes r
  unfolding read_records
  read_records-fuel f g cur [] r hf hg = refl
  read_records-fuel zero g cur (b ∷ bytes) r hf hg = absurd (omega arith)
  read_records-fuel (suc f) zero cur (b ∷ bytes) r hf hg = absurd (omega arith)
  read_records-fuel (suc f) (suc g) cur (b ∷ bytes) r hf hg =
      >>=-congr (next_tlv cur (b ∷ bytes)) _ _ λ t e.
        >>=-congr (read_record lossy (tag_from_u8 t.tag) t.value cur r) _ _ λ r' e'.
          read_records-fuel f g t.cur t.rest r'
            (omega (arith, next_tlv-shrinks cur (b ∷ bytes) t e))
            (omega (arith, next_tlv-shrinks cur (b ∷ bytes) t e))

  -- The loop with the fuel that `parse_test` gives it.
  abbrev pub read_all : ℕ → List ℕ → TestResult Text → Outcome (TestResult Text)
  read_all cur bytes r = read_records lossy (length bytes) cur bytes r

  -- A record that was encoded is read, and the loop goes on behind it.
  pub read_all-encode :
      (cur : ℕ) (tag : Tag) (value rest : List ℕ) (r r' : TestResult Text)
      → read_record lossy (some tag) value cur r ≡ ok r'
      → read_all cur (encode tag value ++ rest) r ≡ read_all (cur + 2 + length value) rest r'
  unfolding read_records encode
  read_all-encode cur tag value rest r r' h =
      rw (next_tlv-encode cur tag value rest, tag_from_u8-tag_code tag, h)
        (read_records-fuel (suc (length (value ++ rest))) (length rest) (cur + 2 + length value)
          rest r' (omega (arith, length-append value rest)) (omega arith))

  check_version-IsDone :
      (t : Tlv) → (t.tag ≡ tag_code version → t.value ≢ []) → IsDone (check_version lossy t)
  unfolding check_version
  check_version-IsDone t h = grind arith

  from_version :
      (t : Tlv)
      → (t.tag ≡ tag_code version → t.value ≢ [])
      → IsDone (check_version lossy t >>= λ u. read_all t.cur t.rest (empty_result lossy))
  from_version t h =
      >>=-IsDone (check_version lossy t) _ (check_version-IsDone t h)
        λ u e. read_records-IsDone (length t.rest) t.cur t.rest (empty_result lossy) (omega arith)

  -- The parser ends with a result or an error on every input but those whose first record is a
  -- version of no bytes, where it panics.
  pub parse_test_ends :
      (bytes : List ℕ) → IsDone (parse_test lossy bytes) ↔ (¬ HasEmptyVersion bytes)
  unfolding parse_test check_version
  parse_test_ends bytes = (
    (λ d (rest, e). rw e at d),
    (λ full. >>=-IsDone (next_tlv 0 bytes) _ (next_tlv-IsDone 0 bytes) λ t e.
        from_version t λ first no_value.
          let (rest, f) = next_tlv-no_value 0 bytes t e no_value in
          full (rest, f ∙ ap (λ k. k ∷ 0 ∷ rest) first)),
  )
