-- ===== src/Endpoint/Directory/Names.antt =====
-- A directory's name says whose it is and of which kind, and nothing else is taken for one.
use mathlib.Core.List.{append-nil}
use native.Mathlib.Nat.{pow-suc}
use sarena.Prelude.{
  ℕ, zero, suc, ◌≡◌, ◌≢◌, ◌↔◌, refl, ap, sym, ◌∙◌, ◌+◌, ◌-◌, ◌*◌, ◌/◌, ◌%◌, ◌≤◌, ◌<◌, ◌^◌, true,
  false, Option, none, some, [], ◌∷◌, ◌++◌, ltb, ◌==◌, arith, Bool-cases, Option-cases, inl, inr,
  All, length, length-append, ltb→lt,
}
use sarena.Endpoint.IdAllocator.{EndpointId, min_id, max_id}
use sarena.Endpoint.Directory.{
  FileName, same_bytes, digits, id_text, scan_digits, parse_id, DirKind, current, next, backup,
  next_failed, suffix_of, directory_path, strip_suffix, split_name, parse_dir_name, checked_id,
  next_suffix, next_failed_suffix, backup_suffix,
}

pub same_bytes_iff : (xs ys : FileName) → (same_bytes xs ys ≡ true) ↔ (xs ≡ ys)
unfolding same_bytes
same_bytes_iff [] [] = (λ h. refl, λ h. refl)
same_bytes_iff [] (y ∷ ys) = (λ h. cc, λ h. cc)
same_bytes_iff (x ∷ xs) [] = (λ h. cc, λ h. cc)
same_bytes_iff (x ∷ xs) (y ∷ ys) =
    let ih = same_bytes_iff xs ys in (λ h. ground (arith, ih.0), λ h. ground (arith, ih.1))

-- The last byte of a name.
last : FileName → ℕ
last [] = 0
last (c ∷ []) = c
last (c ∷ d ∷ name) = last (d ∷ name)

last-append : (xs : FileName) (y : ℕ) (ys : FileName) → last (xs ++ y ∷ ys) ≡ last (y ∷ ys)
unfolding last
last-append [] y ys = refl
last-append (x ∷ []) y ys = refl
last-append (x ∷ x' ∷ xs) y ys = last-append (x' ∷ xs) y ys

strip_suffix-some :
    (suffix name base : FileName) → strip_suffix suffix name ≡ some base → name ≡ base ++ suffix
unfolding strip_suffix
strip_suffix-some suffix [] base h = ground (arith, (same_bytes_iff [] suffix).0)
strip_suffix-some suffix (c ∷ name) base h = elim (Bool-cases (same_bytes (c ∷ name) suffix)) [
  | inl e ↦ ground (arith, e, (same_bytes_iff (c ∷ name) suffix).0 e)
  | inr e ↦ elim (Option-cases (strip_suffix suffix name)) [
    | inl f ↦ ground (arith, e, f)
    | inr (rest, f) ↦ ground (arith, e, f, strip_suffix-some suffix name rest f)
  ]
]

strip_suffix-append : (suffix base : FileName) → strip_suffix suffix (base ++ suffix) ≡ some base
unfolding strip_suffix
strip_suffix-append [] [] = refl
strip_suffix-append (s ∷ suffix) [] = rw ((same_bytes_iff (s ∷ suffix) (s ∷ suffix)).1 refl) refl
strip_suffix-append suffix (c ∷ base) =
    elim (Bool-cases (same_bytes (c ∷ (base ++ suffix)) suffix)) [
      | inl e ↦
          let same = (same_bytes_iff (c ∷ (base ++ suffix)) suffix).0 e in
          absurd (omega (arith, ap length same, length-append base suffix))
      | inr e ↦ rw (e, strip_suffix-append suffix base) refl
    ]

-- A name with another last byte does not have the suffix.
strip_suffix-none :
    (s : ℕ) (suffix name : FileName)
    → last name ≢ last (s ∷ suffix)
    → strip_suffix (s ∷ suffix) name ≡ none
strip_suffix-none s suffix name h = elim (Option-cases (strip_suffix (s ∷ suffix) name)) [
  | inl e ↦ e
  | inr (base, e) ↦
      absurd (h (ap last (strip_suffix-some (s ∷ suffix) name base e) ∙ last-append base s suffix))
]

abbrev IsDigit : ℕ → Type 0
IsDigit c = (b'0' ≤ c) × (c ≤ b'9')

All-append : (xs ys : FileName) → All IsDigit xs → All IsDigit ys → All IsDigit (xs ++ ys)
All-append [] ys h k = k
All-append (x ∷ xs) ys h k = (h.0, All-append xs ys h.1 k)

digits-IsDigit : (fuel n : ℕ) → All IsDigit (digits fuel n)
unfolding digits
digits-IsDigit zero n = tt
digits-IsDigit (suc fuel) n = elim (Bool-cases (ltb n 10)) [
  | inl e ↦ rw e ((omega (arith, ltb→lt n 10 e), omega (arith, ltb→lt n 10 e)), tt)
  | inr e ↦ rw e (
      All-append (digits fuel (n / 10)) (_ ∷ []) (digits-IsDigit fuel (n / 10))
        ((omega arith, omega arith), tt))
]

last-digits :
    (fuel n : ℕ) → (b'0' ≤ last (digits (suc fuel) n)) × (last (digits (suc fuel) n) ≤ b'9')
unfolding digits last
last-digits fuel n = elim (Bool-cases (ltb n 10)) [
  | inl e ↦ rw e (omega (arith, ltb→lt n 10 e), omega (arith, ltb→lt n 10 e))
  | inr e ↦ rw (e, last-append (digits fuel (n / 10)) (b'0' + n % 10) []) (omega arith, omega arith)
]

scan_digits-append :
    (a : ℕ) (xs : FileName) (m d : ℕ)
    → scan_digits a xs ≡ some m
    → d < 10
    → m * 10 + d ≤ 65535
    → scan_digits a (xs ++ (b'0' + d) ∷ []) ≡ some (m * 10 + d)
unfolding scan_digits
scan_digits-append a [] m d h lt le = ground arith
scan_digits-append a (x ∷ xs) m d h lt le =
    ground (arith, scan_digits-append (a * 10 + (x - b'0')) xs m d)

scan_digits-digits :
    (fuel n : ℕ) → n < 10 ^ fuel → n ≤ 65535 → scan_digits 0 (digits fuel n) ≡ some n
unfolding scan_digits digits
scan_digits-digits zero n lt le = ground arith
scan_digits-digits (suc fuel) n lt le = elim (Bool-cases (ltb n 10)) [
  | inl e ↦ rw e (ground (arith, ltb→lt n 10 e))
  | inr e ↦
      let p : 10 ^ suc fuel ≡ 10 ^ fuel * 10 = pow-suc 10 fuel in
      let s =
        scan_digits-append 0 (digits fuel (n / 10)) (n / 10) (n % 10)
          (scan_digits-digits fuel (n / 10) (omega arith) (omega arith)) (omega arith)
          (omega arith) in
      let same : n / 10 * 10 + n % 10 ≡ n = omega arith in rw e (s ∙ ap (λ k. some k) same)
]

parse_id-digits : (xs : FileName) → xs ≢ [] → All IsDigit xs → parse_id xs ≡ scan_digits 0 xs
unfolding parse_id
parse_id-digits [] h all = absurd (h refl)
parse_id-digits (c ∷ []) h all = refl
parse_id-digits (c ∷ d ∷ xs) h all =
    let other : (c == b'+') ≡ false = ground (arith, all.0) in rw other refl

id_text-ne-nil : (id : EndpointId) → id_text id ≢ []
unfolding id_text digits
id_text-ne-nil id = elim (Bool-cases (ltb id 10)) [
  | inl e ↦ rw e (λ f. cc)
  | inr e ↦ rw e (append-ne-nil (digits 4 (id / 10)) (b'0' + id % 10))
]
  where
    append-ne-nil : (xs : FileName) (x : ℕ) → xs ++ x ∷ [] ≢ []
    append-ne-nil [] x = λ f. cc
    append-ne-nil (y ∷ ys) x = λ f. cc

last-id_text : (id : EndpointId) → (b'0' ≤ last (id_text id)) × (last (id_text id) ≤ b'9')
unfolding id_text
last-id_text id = last-digits 4 id

parse_id-id_text : (id : EndpointId) → id ≤ 65535 → parse_id (id_text id) ≡ some id
unfolding id_text
parse_id-id_text id le =
    parse_id-digits (id_text id) (id_text-ne-nil id) (digits-IsDigit 5 id)
    ∙ scan_digits-digits 5 id (omega arith) le

split_name_sound : (name : FileName) → name ≡ (split_name name).0 ++ suffix_of (split_name name).1
unfolding split_name
split_name_sound name = elim (Option-cases (strip_suffix next_failed_suffix name)) [
  | inr (base, e) ↦ rw e (strip_suffix-some next_failed_suffix name base e)
  | inl e ↦ elim (Option-cases (strip_suffix next_suffix name)) [
    | inr (base, f) ↦ rw (e, f) (strip_suffix-some next_suffix name base f)
    | inl f ↦ elim (Option-cases (strip_suffix backup_suffix name)) [
      | inr (base, g) ↦ rw (e, f, g) (strip_suffix-some backup_suffix name base g)
      | inl g ↦ rw (e, f, g) (sym (append-nil name))
    ]
  ]
]

split_name-append :
    (text : FileName) (kind : DirKind)
    → (b'0' ≤ last text) × (last text ≤ b'9')
    → split_name (text ++ suffix_of kind) ≡ (text, kind)
unfolding split_name last
split_name-append text next_failed h = rw (strip_suffix-append next_failed_suffix text)
split_name-append text next h =
    let ends : last (text ++ next_suffix) ≡ b't' = last-append text b'_' _ in
    let a : strip_suffix next_failed_suffix (text ++ next_suffix) ≡ none =
      strip_suffix-none b'_' _ (text ++ next_suffix) (λ e. absurd (omega (arith, ends, e))) in
    rw (a, strip_suffix-append next_suffix text)
split_name-append text backup h =
    let ends : last (text ++ backup_suffix) ≡ b'e' = last-append text b'_' _ in
    let a : strip_suffix next_failed_suffix (text ++ backup_suffix) ≡ none =
      strip_suffix-none b'_' _ (text ++ backup_suffix) (λ e. absurd (omega (arith, ends, e))) in
    let b : strip_suffix next_suffix (text ++ backup_suffix) ≡ none =
      strip_suffix-none b'_' _ (text ++ backup_suffix) (λ e. absurd (omega (arith, ends, e))) in
    rw (a, b, strip_suffix-append backup_suffix text)
split_name-append text current h =
    let a : strip_suffix next_failed_suffix text ≡ none =
      strip_suffix-none b'_' _ text (λ e. absurd (omega (arith, e))) in
    let b : strip_suffix next_suffix text ≡ none =
      strip_suffix-none b'_' _ text (λ e. absurd (omega (arith, e))) in
    let c : strip_suffix backup_suffix text ≡ none =
      strip_suffix-none b'_' _ text (λ e. absurd (omega (arith, e))) in
    rw (append-nil text, a, b, c)

checked_id-some :
    (parts : FileName × DirKind) (o : Option EndpointId) (id : EndpointId) (kind : DirKind)
    → checked_id parts o ≡ some (id, kind)
    → (parts.0 ≡ id_text id) × (parts.1 ≡ kind) × (min_id ≤ id) × (id ≤ max_id)
checked_id-some (base, k) none id kind h = cc
checked_id-some (base, k) (some found) id kind h =
    elim (Bool-cases (same_bytes (id_text found) base)) [
      | inl e ↦ ground (arith, h, e, (same_bytes_iff (id_text found) base).0 e)
      | inr e ↦ ground (arith, h, e)
    ]

-- The name of a directory is parsed to its endpoint and kind, and no other name is: a name is taken
-- for that of the `kind` directory of endpoint `id` exactly when it is that name and `id` is within
-- the range of the allocator.
pub parse_dir_name_iff :
    (name : FileName) (id : EndpointId) (kind : DirKind)
    → (parse_dir_name name ≡ some (id, kind))
      ↔ ((name ≡ directory_path id kind) × (min_id ≤ id) × (id ≤ max_id))
unfolding parse_dir_name directory_path
parse_dir_name_iff name id kind = (
  (λ h.
      let (base, is_kind, low, high) =
        checked_id-some (split_name name) (parse_id (split_name name).0) id kind h in
      (
        split_name_sound name
            ∙ ap (λ b. b ++ suffix_of (split_name name).1) base
            ∙ ap (λ k. id_text id ++ suffix_of k) is_kind,
        low,
        high,
      )),
  (λ (e, low, high).
      let parts = split_name-append (id_text id) kind (last-id_text id) in
      let parsed = parse_id-id_text id (omega arith) in
      rw (e, parts, parsed, (same_bytes_iff (id_text id) (id_text id)).1 refl) (ground arith)),
)

-- An endpoint's directories of different kinds have different names.
pub directory_path-kind :
    (id : EndpointId) (k k' : DirKind) → directory_path id k ≡ directory_path id k' → k ≡ k'
unfolding directory_path
directory_path-kind id k k' e =
    ap (λ p. p.1)
      (sym (split_name-append (id_text id) k (last-id_text id))
        ∙ ap split_name e
        ∙ split_name-append (id_text id) k' (last-id_text id))
