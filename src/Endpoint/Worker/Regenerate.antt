-- ===== src/Endpoint/Worker/Regenerate.antt =====
-- What a regeneration leaves: the state, the published snapshot and the state directories.
use sarena.Prelude.{
  ◌≡◌, refl, ap, sym, ◌∙◌, ◌⊎◌, inl, inr, ◌+◌, true, false, some, arith, String, ◌=?◌, =?_refl,
  Option-cases,
}
use sarena.Prelude.Map.{get, get-insert}
use sarena.Endpoint.Error.{message, Res, ok, err}
use sarena.Endpoint.IdAllocator.{EndpointId}
use sarena.Endpoint.Persist.{EndpointPersist}
use sarena.Endpoint.Directory.{FileName, current, next, next_failed, directory_path}
use sarena.Endpoint.Directory.Files.{
  name_eq, FileSystem, Directory, Environment, IoResult, done, not_found, failed, create_dir_all,
  set_permissions, on_directory, then_call, write_state, remove_dir_if_exists, rename, stored,
  config_of, synchronize_directories,
}
use sarena.Endpoint.Directory.Synchronize.{
  Renamed, rename-Renamed, Removed, remove_dir_if_exists-Removed, others_stay, distinct,
  Synchronized, synchronize_directories-Synchronized,
}
use sarena.Endpoint.Worker.{
  ready, failed_with, EndpointWorker, publish, after_write, regenerate_bpf, conclude, succeeded,
  gave_up, settle_result, prepared, make_next, regenerate,
}

-- A call that changes no directory but one.
record Touches (name : FileName) (fs : FileSystem) (r : FileSystem × IoResult) : Type 0 where
  same : (j : FileName) → (name =? j) ≡ false → get j r.0.dirs ≡ get j fs.dirs

module _ (env : Environment) where
  on_directory-Touches :
      (f : Directory → Directory) (name : FileName) (fs : FileSystem)
      → Touches name fs (on_directory env f name fs)
  unfolding on_directory
  on_directory-Touches f name fs = elim (Option-cases (env.fault fs.calls)) [
    | inr (s, e) ↦ rw (e, on_directory) (record { same = λ j other. refl })
    | inl e ↦ elim (Option-cases (get name fs.dirs)) [
      | inl g ↦ rw (e, g, on_directory) (record { same = λ j other. refl })
      | inr (d, g) ↦
          rw (e, g, on_directory) (record { same = λ j other. rw (get-insert, other) refl })
    ]
  ]

  create_dir_all-Touches :
      (name : FileName) (fs : FileSystem) → Touches name fs (create_dir_all env name fs)
  unfolding create_dir_all
  create_dir_all-Touches name fs = elim (Option-cases (env.fault fs.calls)) [
    | inr (s, e) ↦ rw (e, create_dir_all) (record { same = λ j other. refl })
    | inl e ↦ elim (Option-cases (get name fs.dirs)) [
      | inl g ↦ rw (e, g, create_dir_all) (record { same = λ j other. rw (get-insert, other) refl })
      | inr (d, g) ↦ rw (e, g, create_dir_all) (record { same = λ j other. refl })
    ]
  ]

  then_call-Touches :
      (name : FileName) (fs : FileSystem) (f : FileSystem → FileSystem × IoResult)
      (r : FileSystem × IoResult)
      → Touches name fs r
      → ((fs' : FileSystem) → Touches name fs' (f fs'))
      → Touches name fs (then_call env f r)
  then_call-Touches name fs f (fs', done) t k = record {
    same = λ j other. (k fs').same j other ∙ t.same j other;
  }
  then_call-Touches name fs f (fs', not_found) t k = record { same = t.same }
  then_call-Touches name fs f (fs', failed e) t k = record { same = t.same }

  write_state-Touches :
      (persist : EndpointPersist) (name : FileName) (fs : FileSystem)
      → Touches name fs (write_state env persist name fs)
  unfolding write_state
  write_state-Touches persist name fs =
      let same = λ (d : Directory). d in
      then_call-Touches name fs (on_directory env same name) _
        (then_call-Touches name fs
          (on_directory env (λ d. record { config = some (ok persist); leftovers = false }) name) _
          (then_call-Touches name fs (on_directory env same name) _
            (then_call-Touches name fs (on_directory env same name) _
              (on_directory-Touches (λ d. record d { leftovers = true }) name fs)
              (on_directory-Touches same name))
            (on_directory-Touches same name))
          (on_directory-Touches (λ d. record { config = some (ok persist); leftovers = false })
            name))
        (on_directory-Touches same name)

  make_next-Touches :
      (id : EndpointId) (fs : FileSystem)
      → Touches (directory_path id next) fs (make_next env id fs)
  unfolding make_next
  make_next-Touches id fs =
      let name = directory_path id next in
      then_call-Touches name fs (set_permissions env name) _
        (then_call-Touches name fs (create_dir_all env name) (remove_dir_if_exists env name fs)
          (record {
            same =
                others_stay env id name fs (remove_dir_if_exists env name fs)
                  (remove_dir_if_exists-Removed env name fs);
          })
          (create_dir_all-Touches name))
        (on_directory-Touches (λ d. d) name)

  then_call-done :
      (f : FileSystem → FileSystem × IoResult) (r : FileSystem × IoResult)
      → (then_call env f r).1 ≡ done
      → then_call env f r ≡ f r.0
  then_call-done f (fs, done) h = refl
  then_call-done f (fs, not_found) h = cc
  then_call-done f (fs, failed e) h = cc

  then_call-first :
      (f : FileSystem → FileSystem × IoResult) (r : FileSystem × IoResult)
      → (then_call env f r).1 ≡ done
      → r.1 ≡ done
  then_call-first f (fs, done) h = refl
  then_call-first f (fs, not_found) h = cc
  then_call-first f (fs, failed e) h = cc

  on_directory-done :
      (f : Directory → Directory) (name : FileName) (fs : FileSystem)
      → (on_directory env f name fs).1 ≡ done
      → (d : Directory) × (get name fs.dirs ≡ some d)
        × (get name (on_directory env f name fs).0.dirs ≡ some (f d))
  unfolding on_directory
  on_directory-done f name fs h = elim (Option-cases (env.fault fs.calls)) [
    | inr (s, e) ↦ absurd (ground (arith, h, e))
    | inl e ↦ elim (Option-cases (get name fs.dirs)) [
      | inl g ↦ absurd (ground (arith, h, e, g))
      | inr (d, g) ↦ (d, g, rw (e, g, on_directory) (rw (get-insert, =?_refl name) refl))
    ]
  ]

  abbrev with_config : EndpointPersist → Directory → Directory
  with_config persist d = record { config = some (ok persist); leftovers = false }

  abbrev unchanged : Directory → Directory
  unchanged d = d

  renamed_and_synced :
      (persist : EndpointPersist) (name : FileName) (r : FileSystem × IoResult)
      → (then_call env
          (on_directory env unchanged name)
          (then_call env (on_directory env (with_config persist) name) r)).1
        ≡ done
      → stored name
          (then_call env
            (on_directory env unchanged name)
            (then_call env (on_directory env (with_config persist) name) r)).0
        ≡ ok persist
  unfolding stored
  renamed_and_synced persist name (fs, not_found) h = cc
  renamed_and_synced persist name (fs, failed e) h = cc
  renamed_and_synced persist name (fs, done) h =
      let renamed = on_directory env (with_config persist) name fs in
      let sync = on_directory env unchanged name in
      let in_place =
        on_directory-done (with_config persist) name fs (then_call-first sync renamed h) in
      let whole = then_call-done sync renamed h in
      let synced = on_directory-done unchanged name renamed.0 (sym (ap (λ r. r.1) whole) ∙ h) in
      ap (λ r. config_of (get name r.0.dirs)) whole
      ∙ ap config_of (synced.2 ∙ sym synced.1 ∙ in_place.2)

  -- A state that was written is read back.
  write_state-stored :
      (persist : EndpointPersist) (name : FileName) (fs : FileSystem)
      → (write_state env persist name fs).1 ≡ done
      → stored name (write_state env persist name fs).0 ≡ ok persist
  unfolding write_state
  write_state-stored persist name fs h = renamed_and_synced persist name _ h

  after_write-dirs :
      (loaded : Res (Unit {0})) (r : FileSystem × IoResult) → (after_write env loaded r).0 ≡ r.0
  after_write-dirs loaded (fs, done) = refl
  after_write-dirs loaded (fs, not_found) = refl
  after_write-dirs loaded (fs, failed e) = refl

  after_write-ok :
      (loaded : Res (Unit {0})) (r : FileSystem × IoResult)
      → (after_write env loaded r).1 ≡ ok tt
      → (r.1 ≡ done) × (loaded ≡ ok tt)
  after_write-ok loaded (fs, done) h = (refl, h)
  after_write-ok loaded (fs, not_found) h = cc
  after_write-ok loaded (fs, failed e) h = cc

-- What a regeneration leaves, by its answer. On `Ok` the worker has published its state; either the
-- endpoint is ready, its generation one higher and its current directory holding its state, or it
-- has failed, its generation and its current directory as before. On an error nothing is published.
abbrev pub Regenerated : EndpointWorker → EndpointWorker × Res (Unit {0}) → Type 0
Regenerated w (w', err e) = w'.snapshot ≡ w.snapshot
Regenerated w (w', ok u) =
    (w'.snapshot ≡ w'.state)
    × (((w'.state ≡ record w.state { phase = ready; generation = w.state.generation + 1 })
          × (stored (directory_path w.state.persist.id current) w'.files ≡ ok w.state.persist))
        ⊎ ((why : String) × (w'.state ≡ record w.state { phase = failed_with why })
            × (get (directory_path w.state.persist.id current) w'.files.dirs
                ≡ get (directory_path w.state.persist.id current) w.files.dirs)))

module _ (env : Environment) (w : EndpointWorker) where
  abbrev cur : FileName
  cur = directory_path w.state.persist.id current

  abbrev nxt : FileName
  nxt = directory_path w.state.persist.id next

  abbrev fail : FileName
  fail = directory_path w.state.persist.id next_failed

  nxt_cur : (nxt =? cur) ≡ false
  nxt_cur = distinct env w.state.persist.id next current (λ e. cc)

  fail_cur : (fail =? cur) ≡ false
  fail_cur = distinct env w.state.persist.id next_failed current (λ e. cc)

  conclude-ready :
      (fs : FileSystem) (r : FileSystem × IoResult)
      → stored cur fs ≡ ok w.state.persist
      → Removed nxt fs r
      → Regenerated w
          (conclude env (record w.state { phase = ready; generation = w.state.generation + 1 }) w r)
  unfolding publish stored
  conclude-ready fs (after, done) h m =
      let stay = others_stay env w.state.persist.id nxt fs (after, done) m cur nxt_cur in
      (refl, inl (refl, ap config_of stay ∙ h))
  conclude-ready fs (after, not_found) h m = refl
  conclude-ready fs (after, failed e) h m = refl

  conclude-failed :
      (why : String) (fs : FileSystem) (r : FileSystem × IoResult)
      → get cur fs.dirs ≡ get cur w.files.dirs
      → Removed nxt fs r
      → Regenerated w (conclude env (record w.state { phase = failed_with why }) w r)
  unfolding publish
  conclude-failed why fs (after, done) h m =
      let stay = others_stay env w.state.persist.id nxt fs (after, done) m cur nxt_cur in
      (refl, inr (why, refl, stay ∙ h))
  conclude-failed why fs (after, not_found) h m = refl
  conclude-failed why fs (after, failed e) h m = refl

  succeeded-Regenerated :
      (fs : FileSystem) (r : FileSystem × Res (Unit {0}))
      → stored nxt fs ≡ ok w.state.persist
      → Synchronized w.state.persist.id fs r
      → Regenerated w (succeeded env w r)
  unfolding stored
  succeeded-Regenerated fs (after, ok u) h s =
      conclude-ready after (remove_dir_if_exists env nxt after) (ap config_of s.0 ∙ h)
        (remove_dir_if_exists-Removed env nxt after)
  succeeded-Regenerated fs (after, err e) h s = refl

  gave_up-Regenerated :
      (why : String) (r : FileSystem × IoResult)
      → get cur r.0.dirs ≡ get cur w.files.dirs
      → Regenerated w (gave_up env (record w.state { phase = failed_with why }) w r)
  gave_up-Regenerated why (fs, done) h =
      conclude-failed why fs (remove_dir_if_exists env nxt fs) h
        (remove_dir_if_exists-Removed env nxt fs)
  gave_up-Regenerated why (fs, not_found) h = refl
  gave_up-Regenerated why (fs, failed e) h = refl

  rename_keeps :
      (fs : FileSystem) (r : FileSystem × IoResult)
      → Renamed nxt fail fs r
      → get cur r.0.dirs ≡ get cur fs.dirs
  rename_keeps fs (after, done) m = ground (arith, m cur, nxt_cur, fail_cur)
  rename_keeps fs (after, not_found) m = ap (λ d. get cur d) m.0
  rename_keeps fs (after, failed e) m = ap (λ d. get cur d) m

  set_aside :
      (r : FileSystem × IoResult) (fs : FileSystem)
      → Removed fail fs r
      → get cur (then_call env (rename env nxt fail) r).0.dirs ≡ get cur fs.dirs
  set_aside (after, done) fs m =
      rename_keeps after (rename env nxt fail after) (rename-Renamed env nxt fail after)
      ∙ others_stay env w.state.persist.id fail fs (after, done) m cur fail_cur
  set_aside (after, not_found) fs m = absurd m
  set_aside (after, failed e) fs m = m cur fail_cur

  settle_result-Regenerated :
      (r : FileSystem × Res (Unit {0}))
      → get cur r.0.dirs ≡ get cur w.files.dirs
      → (r.1 ≡ ok tt → stored nxt r.0 ≡ ok w.state.persist)
      → Regenerated w (settle_result env w r)
  settle_result-Regenerated (fs, ok u) same written =
      succeeded-Regenerated fs (synchronize_directories env w.state.persist.id fs) (written refl)
        (synchronize_directories-Synchronized env w.state.persist.id fs)
  settle_result-Regenerated (fs, err e) same written =
      gave_up-Regenerated (message e)
        (then_call env (rename env nxt fail) (remove_dir_if_exists env fail fs))
        (set_aside (remove_dir_if_exists env fail fs) fs (remove_dir_if_exists-Removed env fail fs)
          ∙ same)

  prepared-Regenerated :
      (loaded : Res (Unit {0})) (r : FileSystem × IoResult)
      → get cur r.0.dirs ≡ get cur w.files.dirs
      → Regenerated w (prepared env loaded w r)
  unfolding regenerate_bpf
  prepared-Regenerated loaded (fs, done) same =
      let write = write_state env w.state.persist nxt fs in
      let dirs = after_write-dirs env loaded write in
      settle_result-Regenerated (after_write env loaded write)
        (ap (λ f. get cur f.dirs) dirs
          ∙ (write_state-Touches env w.state.persist nxt fs).same cur nxt_cur
          ∙ same)
        (λ h.
          ap (stored nxt) dirs
          ∙ write_state-stored env w.state.persist nxt fs (after_write-ok env loaded write h).0)
  prepared-Regenerated loaded (fs, not_found) same = refl
  prepared-Regenerated loaded (fs, failed e) same = refl

  -- Whatever the loader answers and whichever file calls are refused: a regeneration that answers
  -- `Ok` has published the worker's state, and either the endpoint is ready, its generation is one
  -- higher and its current directory holds its state, or the endpoint has failed and its generation
  -- and its current directory are as before; one that answers an error has published nothing.
  pub regenerate-Regenerated : (loaded : Res (Unit {0})) → Regenerated w (regenerate env loaded w)
  unfolding regenerate
  regenerate-Regenerated loaded =
      prepared-Regenerated loaded (make_next env w.state.persist.id w.files)
        ((make_next-Touches env w.state.persist.id w.files).same cur nxt_cur)
