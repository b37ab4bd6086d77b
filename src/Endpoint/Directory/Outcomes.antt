-- ===== src/Endpoint/Directory/Outcomes.antt =====
-- Which state a restart finds: the directories of an endpoint read in the order of the kinds, and
-- what that means after a synchronisation.
use mathlib.Core.Option
use sarena.Prelude.{
  ℕ, ◌≡◌, ◌≢◌, refl, ap, sym, ◌∙◌, ◌⊎◌, inl, inr, ◌+◌, ◌<◌, true, false, Option, none, some, List,
  [], ◌∷◌, arith, ◌==◌, ==_iff, nat_eq, Bool-cases, Option-cases, All,
}
use sarena.Prelude.Map.{get}
use sarena.Endpoint.Error.{DataPlaneError, Res, ok, err}
use sarena.Endpoint.IdAllocator.{EndpointId}
use sarena.Endpoint.Persist.{EndpointPersist}
use sarena.Endpoint.Directory.{
  FileName, DirKind, current, next, backup, next_failed, directory_path,
}
use sarena.Endpoint.Directory.Files.{
  name_eq, FileSystem, Environment, stored, read_state, synchronize_directories, config_of, counted,
}
use sarena.Endpoint.Directory.Synchronize.{Synchronized, synchronize_directories-Synchronized}
use sarena.Endpoint.Directory.Restore.{
  Candidate, rank, sort_by_key, check_id, read_endpoint_dir, choose, restore_endpoint,
}
use sarena.Endpoint.Directory.Order.{
  has, Sorted, rank-injective, has-sort_by_key, All-sort_by_key, sort_by_key-Sorted, has-below,
}

abbrev answer_of : Res EndpointPersist → Option EndpointPersist
answer_of (ok p) = some p
answer_of (err e) = none

-- The state in a directory of an endpoint, if it can be read and is that endpoint's.
abbrev pub usable : EndpointId → DirKind → FileSystem → Option EndpointPersist
usable id kind fs = answer_of (check_id id (stored (directory_path id kind) fs))

infixr 20 ◌<|>◌
abbrev ◌<|>◌ : Option EndpointPersist → Option EndpointPersist → Option EndpointPersist
none <|> other = other
some p <|> other = some p

-- The restore preference.
abbrev pub preferred : EndpointId → FileSystem → Option EndpointPersist
preferred id fs =
    usable id current fs <|> usable id next fs <|> usable id backup fs <|> usable id next_failed fs

-- The candidates are directories of the endpoint under their names, and all that there are.
pub record Lists (id : EndpointId) (fs : FileSystem) (cs : List Candidate) : Type 0 where
  pub named : All (λ c. c.1 ≡ directory_path id c.0) cs
  pub complete : (kind : DirKind) → get (directory_path id kind) fs.dirs ≢ none → has kind cs ≡ true

Res-cases {ℓ} :
    {A : Type ℓ} (r : Res A) → ((a : A) × (r ≡ ok a)) ⊎ ((e : DataPlaneError) × (r ≡ err e))
Res-cases (ok a) = inl (a, refl)
Res-cases (err e) = inr (e, refl)

module _ (id : EndpointId) (fs : FileSystem) where
  absent_unusable : (k : DirKind) → get (directory_path id k) fs.dirs ≡ none → usable id k fs ≡ none
  unfolding stored check_id
  absent_unusable k h = rw h refl

  -- What the loop over sorted candidates chose.
  abbrev Chosen : List Candidate → Option (ℕ × EndpointPersist) → Type 0
  Chosen cs none = (k : DirKind) → has k cs ≡ true → usable id k fs ≡ none
  Chosen cs (some (i, p)) =
      (k : DirKind) × (usable id k fs ≡ some p)
      × ((k' : DirKind) → rank k' < rank k → has k' cs ≡ true → usable id k' fs ≡ none)

  -- A candidate that cannot be used is passed over.
  passed_over :
      (c : Candidate) (cs : List Candidate) (o : Option (ℕ × EndpointPersist))
      → usable id c.0 fs ≡ none
      → Chosen cs o
      → Chosen (c ∷ cs) o
  passed_over c cs none u h = λ k m. elim (Bool-cases (rank c.0 == rank k)) [
    | inl e ↦ rw (rank-injective c.0 k ((==_iff (rank c.0) (rank k)).0 e)) at u
    | inr e ↦ h k (ground (arith, m, e))
  ]
  passed_over c cs (some (i, p)) u h = (
    h.0,
    h.1,
    λ k lt m. elim (Bool-cases (rank c.0 == rank k)) [
      | inl e ↦ rw (rank-injective c.0 k ((==_iff (rank c.0) (rank k)).0 e)) at u
      | inr e ↦ h.2 k lt (ground (arith, m, e))
    ],
  )

  taken_first :
      (i : ℕ) (p : EndpointPersist) (c : Candidate) (cs : List Candidate)
      → Sorted (c ∷ cs)
      → usable id c.0 fs ≡ some p
      → Chosen (c ∷ cs) (some (i, p))
  taken_first i p c cs s u = (
    c.0,
    u,
    λ k lt m.
        let no_equal : (rank c.0 == rank k) ≡ false = ground (arith, lt) in
        absurd (ground (arith, m, no_equal, has-below k (rank c.0) cs lt s.0)),
  )

module _ (env : Environment) (calm : (n : ℕ) → env.fault n ≡ none) (id : EndpointId) where
  read_endpoint_dir_lem :
      (name : FileName) (fs : FileSystem)
      → read_endpoint_dir env id name fs ≡ (counted env fs, check_id id (stored name fs))
  unfolding read_endpoint_dir
  read_endpoint_dir_lem name fs = rw (calm fs.calls, read_endpoint_dir, read_state) refl

  choose-Chosen :
      (i : ℕ) (cs : List Candidate) (fs : FileSystem)
      → Sorted cs
      → All (λ c. c.1 ≡ directory_path id c.0) cs
      → Chosen id fs cs (choose env id i cs fs).1
  unfolding choose stored
  choose-Chosen i [] fs s named = λ k m. cc
  choose-Chosen i (c ∷ cs) fs s named =
      let read = read_endpoint_dir_lem c.1 fs in
      let place : stored c.1 fs ≡ stored (directory_path id c.0) fs =
        ap (λ n. stored n fs) named.0 in
      elim (Res-cases (check_id id (stored c.1 fs))) [
        | inl (p, e) ↦
            let known : usable id c.0 fs ≡ some p =
              ap (λ r. answer_of (check_id id r)) (sym place) ∙ ap answer_of e in
            rw (read, e, choose) (taken_first id fs i p c cs s known)
        | inr (x, e) ↦
            let known : usable id c.0 fs ≡ none =
              ap (λ r. answer_of (check_id id r)) (sym place) ∙ ap answer_of e in
            rw (read, e, choose)
              (rw read (
                passed_over id fs c cs (choose env id (i + 1) cs (counted env fs)).1 known
                  (choose-Chosen (i + 1) cs (counted env fs) s.1 named.1)))
      ]

  unless_before :
      (fs : FileSystem) (cs : List Candidate) (k : DirKind)
      → Lists id fs cs
      → (has k (sort_by_key cs) ≡ true → usable id k fs ≡ none)
      → usable id k fs ≡ none
  unless_before fs cs k l h = elim (Bool-cases (has k cs)) [
    | inl e ↦ h (has-sort_by_key k cs ∙ e)
    | inr e ↦ elim (Option-cases (get (directory_path id k) fs.dirs)) [
      | inl f ↦ absent_unusable id fs k f
      | inr (d, f) ↦ absurd (ground (arith, e, l.complete k (λ g. ground (arith, f, g))))
    ]
  ]

  Chosen-preferred :
      (fs : FileSystem) (cs : List Candidate) (o : Option (ℕ × EndpointPersist))
      → Lists id fs cs
      → Chosen id fs (sort_by_key cs) o
      → Option.map (λ c. c.1) o ≡ preferred id fs
  Chosen-preferred fs cs none l h =
      let no : (k : DirKind) → usable id k fs ≡ none = λ k. unless_before fs cs k l (h k) in
      rw (no current, no next, no backup, no next_failed) refl
  Chosen-preferred fs cs (some (i, p)) l (current, u, h) = rw u refl
  Chosen-preferred fs cs (some (i, p)) l (next, u, h) =
      rw (unless_before fs cs current l (h current (omega arith)), u) refl
  Chosen-preferred fs cs (some (i, p)) l (backup, u, h) =
      rw
        (
          unless_before fs cs current l (h current (omega arith)),
          unless_before fs cs next l (h next (omega arith)),
          u,
        )
        refl
  Chosen-preferred fs cs (some (i, p)) l (next_failed, u, h) =
      rw
        (
          unless_before fs cs current l (h current (omega arith)),
          unless_before fs cs next l (h next (omega arith)),
          unless_before fs cs backup l (h backup (omega arith)),
          u,
        )
        refl

  restore_endpoint-choose :
      (cs : List Candidate) (fs : FileSystem)
      → (restore_endpoint env id cs fs).1
        ≡ Option.map (λ c. c.1) (choose env id 0 (sort_by_key cs) fs).1
  unfolding restore_endpoint Option.map
  restore_endpoint-choose cs fs = elim (Option-cases (choose env id 0 (sort_by_key cs) fs).1) [
    | inl e ↦ rw (e, restore_endpoint) refl
    | inr (c, e) ↦ rw (e, restore_endpoint) refl
  ]

  -- When no file call is refused, a restart takes the current directory of an endpoint if its state
  -- can be read and is the endpoint's, else the next one, else the backup, else the failed one, in
  -- whatever order the directories were listed.
  pub restore_endpoint-preferred :
      (cs : List Candidate) (fs : FileSystem)
      → Lists id fs cs
      → (restore_endpoint env id cs fs).1 ≡ preferred id fs
  restore_endpoint-preferred cs fs l =
      restore_endpoint-choose cs fs
      ∙ Chosen-preferred fs cs _ l (
          choose-Chosen 0 (sort_by_key cs) fs (sort_by_key-Sorted cs)
            (All-sort_by_key (λ c. c.1 ≡ directory_path id c.0) cs l.named))

-- What a restart finds after a synchronisation.
module _ (id : EndpointId) (fs fs' : FileSystem) (old new : EndpointPersist)
    (was_old : usable id current fs ≡ some old) (is_new : usable id next fs ≡ some new) where
  moved :
      (k k' : DirKind)
      → get (directory_path id k') fs'.dirs ≡ get (directory_path id k) fs.dirs
      → usable id k' fs' ≡ usable id k fs
  unfolding stored
  moved k k' e = ap (λ d. answer_of (check_id id (config_of d))) e

  preferred-Synchronized :
      (answer : Res (Unit {0}))
      → Synchronized id fs (fs', answer)
      → ((preferred id fs' ≡ some old) ⊎ (preferred id fs' ≡ some new))
        × (answer ≡ ok tt → preferred id fs' ≡ some new)
  preferred-Synchronized (ok u) (to_current, gone, rest) =
      let here = moved next current to_current ∙ is_new in (inr (rw here refl), λ a. rw here refl)
  preferred-Synchronized (err e) (next_stays, inl current_stays, rest) =
      (inl (rw (moved current current current_stays ∙ was_old) refl), λ a. cc)
  preferred-Synchronized (err e) (next_stays, inr (no_current, in_backup), rest) = (
    inr (rw (absent_unusable id fs' current no_current, moved next next next_stays ∙ is_new) refl),
    λ a. cc,
  )

-- A synchronisation is safe against refused calls and crashes: if the current and the next directory
-- of an endpoint held states of that endpoint, then whichever calls are refused, a restart that can
-- read the directories finds the old state or the new one, and it finds the new one if the
-- synchronisation answered `Ok`.
pub restore_endpoint-synchronize_directories :
    (env calm_env : Environment)
    → ((n : ℕ) → calm_env.fault n ≡ none)
    → (id : EndpointId) (fs : FileSystem) (old new : EndpointPersist)
    → usable id current fs ≡ some old
    → usable id next fs ≡ some new
    → (cs : List Candidate) → Lists id (synchronize_directories env id fs).0 cs
    → (((restore_endpoint calm_env id cs (synchronize_directories env id fs).0).1 ≡ some old)
        ⊎ ((restore_endpoint calm_env id cs (synchronize_directories env id fs).0).1 ≡ some new))
      × ((synchronize_directories env id fs).1 ≡ ok tt
          → (restore_endpoint calm_env id cs (synchronize_directories env id fs).0).1 ≡ some new)
restore_endpoint-synchronize_directories env calm_env calm id fs old new was_old is_new cs l =
    rw (restore_endpoint-preferred calm_env calm id cs _ l) (
      preferred-Synchronized id fs (synchronize_directories env id fs).0 old new was_old is_new
        (synchronize_directories env id fs).1 (synchronize_directories-Synchronized env id fs))
