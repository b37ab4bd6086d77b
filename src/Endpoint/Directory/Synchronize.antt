-- ===== src/Endpoint/Directory/Synchronize.antt =====
-- What `synchronize_directories` leaves, whichever calls the operating system refuses. A crash is
-- the case in which it refuses every call from one on.
use sarena.Prelude.{
  ℕ, ◌≡◌, ◌≢◌, refl, ap, sym, ◌∙◌, ◌⊎◌, inl, inr, Bool, true, false, none, arith, ◌=?◌, =?_refl,
  eq_of_=?, if◌then◌else◌, Bool-cases, Option-cases,
}
use sarena.Prelude.Map.{Map, get, get-insert, get-remove}
use sarena.Endpoint.Error.{DataPlaneError, io, Res, ok, err}
use sarena.Endpoint.IdAllocator.{EndpointId}
use sarena.Endpoint.Directory.{FileName, DirKind, current, next, backup, directory_path}
use sarena.Endpoint.Directory.Names.{directory_path-kind}
use sarena.Endpoint.Directory.Files.{
  name_eq, FileSystem, Directory, Environment, IoResult, done, not_found, failed, remove_dir_all,
  remove_dir_if_exists, rename, settle, commit_next, move_current, is_free, synchronize_directories,
  damage,
}

-- The effect of a rename, and of a removal, by its answer.
abbrev pub Renamed : FileName → FileName → FileSystem → FileSystem × IoResult → Type 0
Renamed from to fs (fs', done) =
    (j : FileName)
    → get j fs'.dirs
      ≡ (if to =? j then get from fs.dirs else if from =? j then none else get j fs.dirs)
Renamed from to fs (fs', not_found) = (fs'.dirs ≡ fs.dirs) × (get from fs.dirs ≡ none)
Renamed from to fs (fs', failed e) = fs'.dirs ≡ fs.dirs

abbrev pub Removed : FileName → FileSystem → FileSystem × IoResult → Type 0
Removed name fs (fs', done) =
    (j : FileName) → get j fs'.dirs ≡ (if name =? j then none else get j fs.dirs)
Removed name fs (fs', not_found) = ⊥
Removed name fs (fs', failed e) =
    (j : FileName) → (name =? j) ≡ false → get j fs'.dirs ≡ get j fs.dirs

absent_anyway :
    (name : FileName) (fs : FileSystem)
    → get name fs.dirs ≡ none
    → (j : FileName) → get j fs.dirs ≡ (if name =? j then none else get j fs.dirs)
absent_anyway name fs f j = elim (Bool-cases (name =? j)) [
  | inl e ↦ rw e (rw (eq_of_=? name j e) at f)
  | inr e ↦ rw e refl
]

module _ (env : Environment) where
  pub rename-Renamed :
      (from to : FileName) (fs : FileSystem) → Renamed from to fs (rename env from to fs)
  unfolding rename
  rename-Renamed from to fs = elim (Option-cases (env.fault fs.calls)) [
    | inr (s, e) ↦ rw (e, rename) refl
    | inl e ↦ elim (Option-cases (get from fs.dirs)) [
      | inl f ↦ rw (e, f, rename) (refl, f)
      | inr (d, f) ↦ elim (Bool-cases (is_free env (get to fs.dirs))) [
        | inl g ↦ rw (e, f, g, rename) (λ j. rw (get-insert, get-remove, f) refl)
        | inr g ↦ rw (e, f, g, rename) refl
      ]
    ]
  ]

  get-damage :
      (name : FileName) (n : ℕ) (dirs : Map FileName Directory) (j : FileName)
      → (name =? j) ≡ false
      → get j (damage env name n dirs) ≡ get j dirs
  get-damage name n dirs j other = elim (Option-cases (get name dirs)) [
    | inl f ↦ rw (f, damage) refl
    | inr (d, f) ↦ rw (f, damage) (rw (get-insert, other) refl)
  ]

  pub remove_dir_if_exists-Removed :
      (name : FileName) (fs : FileSystem) → Removed name fs (remove_dir_if_exists env name fs)
  unfolding remove_dir_if_exists
  remove_dir_if_exists-Removed name fs = elim (Option-cases (env.fault fs.calls)) [
    | inr (s, e) ↦
        rw (e, remove_dir_if_exists, remove_dir_all)
          (λ j other. get-damage name fs.calls fs.dirs j other)
    | inl e ↦ elim (Option-cases (get name fs.dirs)) [
      | inl f ↦ rw (e, f, remove_dir_if_exists, remove_dir_all) (absent_anyway name fs f)
      | inr (d, f) ↦
          rw (e, f, remove_dir_if_exists, remove_dir_all) (λ j. get-remove name j fs.dirs)
    ]
  ]

-- What a synchronisation does to the directories of an endpoint, by its answer. On success the next
-- directory has become the current one. On an error the next directory is as it was, and what was
-- the current directory is still there, or it is the backup directory and there is no current one. All other directories are as they were.
pub record Untouched (id : EndpointId) (fs fs' : FileSystem) : Type 0 where
  pub other :
      (j : FileName)
      → (directory_path id current =? j) ≡ false
      → (directory_path id next =? j) ≡ false
      → (directory_path id backup =? j) ≡ false
      → get j fs'.dirs ≡ get j fs.dirs

abbrev pub Synchronized : EndpointId → FileSystem → FileSystem × Res (Unit {0}) → Type 0
Synchronized id fs (fs', ok u) =
    (get (directory_path id current) fs'.dirs ≡ get (directory_path id next) fs.dirs)
    × (get (directory_path id next) fs'.dirs ≡ none)
    × Untouched id fs fs'
Synchronized id fs (fs', err e) =
    (get (directory_path id next) fs'.dirs ≡ get (directory_path id next) fs.dirs)
    × ((get (directory_path id current) fs'.dirs ≡ get (directory_path id current) fs.dirs)
        ⊎ ((get (directory_path id current) fs'.dirs ≡ none)
            × (get (directory_path id backup) fs'.dirs ≡ get (directory_path id current) fs.dirs)))
    × Untouched id fs fs'

module _ (env : Environment) (id : EndpointId) where
  abbrev cur : FileName
  cur = directory_path id current

  abbrev nxt : FileName
  nxt = directory_path id next

  abbrev bak : FileName
  bak = directory_path id backup

  pub distinct : (k k' : DirKind) → k ≢ k' → (directory_path id k =? directory_path id k') ≡ false
  distinct k k' h = elim (Bool-cases (directory_path id k =? directory_path id k')) [
    | inl e ↦ absurd (h (directory_path-kind id k k' (eq_of_=? _ _ e)))
    | inr e ↦ e
  ]

  -- Before the next directory is moved: the current directory was moved to the backup, or there was
  -- none.
  abbrev Before : Bool → FileSystem → FileSystem → Type 0
  Before true fs fs' =
      (j : FileName)
      → get j fs'.dirs
        ≡ (if bak =? j then get cur fs.dirs else if cur =? j then none else get j fs.dirs)
  Before false fs fs' =
      (get cur fs.dirs ≡ none)
      × ((j : FileName) → (bak =? j) ≡ false → get j fs'.dirs ≡ get j fs.dirs)

  cur_nxt : (cur =? nxt) ≡ false
  cur_nxt = distinct current next (λ e. cc)

  nxt_cur : (nxt =? cur) ≡ false
  nxt_cur = distinct next current (λ e. cc)

  bak_cur : (bak =? cur) ≡ false
  bak_cur = distinct backup current (λ e. cc)

  bak-nxt : (bak =? nxt) ≡ false
  bak-nxt = distinct backup next (λ e. cc)

  cur_bak : (cur =? bak) ≡ false
  cur_bak = distinct current backup (λ e. cc)

  pub others_stay :
      (name : FileName) (fs : FileSystem) (r : FileSystem × IoResult)
      → Removed name fs r
      → (j : FileName) → (name =? j) ≡ false
      → get j r.0.dirs ≡ get j fs.dirs
  others_stay name fs (fs', done) m j other = ground (arith, m j, other)
  others_stay name fs (fs', not_found) m j other = absurd m
  others_stay name fs (fs', failed e) m j other = m j other

  -- The backup is moved back, or stays where it is.
  rolled_back :
      (fs before after : FileSystem) (e : DataPlaneError) (r : FileSystem × IoResult)
      → Before true fs before
      → after.dirs ≡ before.dirs
      → Renamed bak cur after r
      → Synchronized id fs (r.0, err e)
  rolled_back fs before after e (end, done) b same m = (
    ground (arith, m nxt, b nxt, ap (λ d. get nxt d) same, cur_nxt, bak-nxt),
    inl (ground (arith, m cur, b bak, ap (λ d. get bak d) same, =?_refl cur, =?_refl bak)),
    record { other = λ j c n k. ground (arith, m j, b j, ap (λ d. get j d) same, c, k) },
  )
  rolled_back fs before after e (end, not_found) b same m = (
    ground (arith, b nxt, ap (λ d. get nxt d) (m.0 ∙ same), cur_nxt, bak-nxt),
    inr (
      ground (arith, b cur, ap (λ d. get cur d) (m.0 ∙ same), =?_refl cur, bak_cur),
      ground (arith, b bak, ap (λ d. get bak d) (m.0 ∙ same), =?_refl bak),
    ),
    record { other = λ j c n k. ground (arith, b j, ap (λ d. get j d) (m.0 ∙ same), c, k) },
  )
  rolled_back fs before after e (end, failed x) b same m = (
    ground (arith, b nxt, ap (λ d. get nxt d) (m ∙ same), cur_nxt, bak-nxt),
    inr (
      ground (arith, b cur, ap (λ d. get cur d) (m ∙ same), =?_refl cur, bak_cur),
      ground (arith, b bak, ap (λ d. get bak d) (m ∙ same), =?_refl bak),
    ),
    record { other = λ j c n k. ground (arith, b j, ap (λ d. get j d) (m ∙ same), c, k) },
  )

  -- There was no current directory, and there is none.
  left_alone :
      (fs before after : FileSystem) (e : DataPlaneError)
      → Before false fs before
      → after.dirs ≡ before.dirs
      → Synchronized id fs (after, err e)
  left_alone fs before after e b same = (
    ap (λ d. get nxt d) same ∙ b.1 nxt bak-nxt,
    inl (ap (λ d. get cur d) same ∙ b.1 cur bak_cur),
    record { other = λ j c n k. ap (λ d. get j d) same ∙ b.1 j k },
  )

  settle-Synchronized :
      (had : Bool) (fs before : FileSystem) (r : FileSystem × IoResult)
      → Before had fs before
      → Renamed nxt cur before r
      → Synchronized id fs (settle env id had r)
  settle-Synchronized true fs before (after, done) b m =
      let stay =
        others_stay bak after (remove_dir_if_exists env bak after)
          (remove_dir_if_exists-Removed env bak after) in
      (
        ground (arith, stay cur bak_cur, m cur, b nxt, =?_refl cur, bak-nxt, cur_nxt),
        ground (arith, stay nxt bak-nxt, m nxt, cur_nxt, =?_refl nxt),
        record { other = λ j c n k. ground (arith, stay j k, m j, b j, c, n, k) },
      )
  settle-Synchronized false fs before (after, done) b m =
      let stay =
        others_stay bak after (remove_dir_if_exists env bak after)
          (remove_dir_if_exists-Removed env bak after) in
      (
        ground (arith, stay cur bak_cur, m cur, b.1 nxt bak-nxt, =?_refl cur),
        ground (arith, stay nxt bak-nxt, m nxt, cur_nxt, =?_refl nxt),
        record { other = λ j c n k. ground (arith, stay j k, m j, b.1 j k, c, n) },
      )
  settle-Synchronized true fs before (after, not_found) b m =
      rolled_back fs before after (io "entity not found") (rename env bak cur after) b m.0
        (rename-Renamed env bak cur after)
  settle-Synchronized false fs before (after, not_found) b m =
      left_alone fs before after (io "entity not found") b m.0
  settle-Synchronized true fs before (after, failed e) b m =
      rolled_back fs before after (io e) (rename env bak cur after) b m
        (rename-Renamed env bak cur after)
  settle-Synchronized false fs before (after, failed e) b m = left_alone fs before after (io e) b m

  commit_next-Synchronized :
      (fs cleaned : FileSystem) (r : FileSystem × IoResult)
      → ((j : FileName) → (bak =? j) ≡ false → get j cleaned.dirs ≡ get j fs.dirs)
      → Renamed cur bak cleaned r
      → Synchronized id fs (commit_next env id r)
  commit_next-Synchronized fs cleaned (before, done) same m =
      settle-Synchronized true fs before (rename env nxt cur before)
        (λ j. elim (Bool-cases (bak =? j)) [
          | inl e ↦ ground (arith, m j, e, same cur bak_cur)
          | inr e ↦ ground (arith, m j, e, same j e)
        ])
        (rename-Renamed env nxt cur before)
  commit_next-Synchronized fs cleaned (before, not_found) same m =
      settle-Synchronized false fs before (rename env nxt cur before)
        (sym (same cur bak_cur) ∙ m.1, λ j k. ap (λ d. get j d) m.0 ∙ same j k)
        (rename-Renamed env nxt cur before)
  commit_next-Synchronized fs cleaned (before, failed e) same m = (
    ap (λ d. get nxt d) m ∙ same nxt bak-nxt,
    inl (ap (λ d. get cur d) m ∙ same cur bak_cur),
    record { other = λ j c n k. ap (λ d. get j d) m ∙ same j k },
  )

  move_current-Synchronized :
      (fs : FileSystem) (r : FileSystem × IoResult)
      → Removed bak fs r
      → Synchronized id fs (move_current env id r)
  move_current-Synchronized fs (cleaned, done) m =
      commit_next-Synchronized fs cleaned (rename env cur bak cleaned)
        (λ j k. ground (arith, m j, k)) (rename-Renamed env cur bak cleaned)
  move_current-Synchronized fs (cleaned, not_found) m = absurd m
  move_current-Synchronized fs (cleaned, failed e) m =
      (m nxt bak-nxt, inl (m cur bak_cur), record { other = λ j c n k. m j k })

  pub synchronize_directories-Synchronized :
      (fs : FileSystem) → Synchronized id fs (synchronize_directories env id fs)
  unfolding synchronize_directories
  synchronize_directories-Synchronized fs =
      move_current-Synchronized fs (remove_dir_if_exists env bak fs)
        (remove_dir_if_exists-Removed env bak fs)
