-- ===== src/Endpoint/Directory/Files.antt =====
-- The calls of `std::fs` that sarena-data-plane/src/endpoint/directory.rs makes, and its functions
-- that change directories; `EndpointPersist::write_state` and `read_state` of endpoint/persist.rs.
-- The operating system may refuse any call: an environment says which. A rename is atomic; a
-- refused removal may leave any part of the directory. What `serde_json` writes it reads back.
use sarena.Prelude.{
  ℕ, ◌+◌, Bool, true, false, ◌&&◌, Option, none, some, String, Eq, if◌then◌else◌, not,
}
use sarena.Prelude.Map.{Map, get, insert, remove}
use sarena.Endpoint.Error.{io, Res, ok, err}
use sarena.Endpoint.IdAllocator.{EndpointId}
use sarena.Endpoint.Persist.{EndpointPersist}
use sarena.Endpoint.Directory.{
  FileName, same_bytes, current, next, backup, next_failed, directory_path,
}
use sarena.Endpoint.Directory.Names.{same_bytes_iff}

instance abbrev pub name_eq : Eq FileName
name_eq = record { beq = same_bytes; beq_iff = same_bytes_iff }

-- A state directory: what reading its state file gives, if it has one, and whether it holds other
-- files, such as the temporary one.
pub record Directory : Type 0 where
  pub config : Option (Res EndpointPersist)
  pub leftovers : Bool

abbrev pub empty_directory : Directory
empty_directory = record { config = none; leftovers = false }

abbrev is_empty : Directory → Bool
is_empty d = not d.leftovers && (elim d.config [ none ↦ true | some c ↦ false ])

-- The directories below the state directory, if that exists, and how many calls were made so far.
pub record FileSystem : Type 0 where
  pub present : Bool
  pub dirs : Map FileName Directory
  pub calls : ℕ

-- Which calls are refused, and what a refused removal leaves.
pub record Environment : Type 0 where
  pub fault : ℕ → Option String
  pub partly : ℕ → Directory → Directory

pub data IoResult : Type 0 where
  done not_found : IoResult
  failed : String → IoResult

-- `?` on an `std::io::Result`.
abbrev pub to_res : IoResult → Res (Unit {0})
to_res done = ok tt
to_res not_found = err (io "entity not found")
to_res (failed e) = err (io e)

abbrev pub config_of : Option Directory → Res EndpointPersist
config_of none = err (io "entity not found")
config_of (some d) = elim d.config [ none ↦ err (io "entity not found") | some c ↦ c ]

-- What is in the state file of a directory.
unfoldable pub stored : FileName → FileSystem → Res EndpointPersist
stored name fs = config_of (get name fs.dirs)

module _ (env : Environment) where
  abbrev pub counted : FileSystem → FileSystem
  counted fs = record fs { calls = fs.calls + 1 }

  abbrev pub damage : FileName → ℕ → Map FileName Directory → Map FileName Directory
  damage name n dirs = elim (get name dirs) [
    | none ↦ dirs
    | some d ↦ insert name (env.partly n d) dirs
  ]

  unfoldable pub remove_dir_all : FileName → FileSystem → FileSystem × IoResult
  remove_dir_all name fs = elim (env.fault fs.calls) [
    | some e ↦ (record (counted fs) { dirs = damage name fs.calls fs.dirs }, failed e)
    | none ↦ elim (get name fs.dirs) [
      | none ↦ (counted fs, not_found)
      | some d ↦ (record (counted fs) { dirs = remove name fs.dirs }, done)
    ]
  ]

  -- A directory may replace an empty one only.
  abbrev pub is_free : Option Directory → Bool
  is_free none = true
  is_free (some d) = is_empty d

  unfoldable pub rename : FileName → FileName → FileSystem → FileSystem × IoResult
  rename from to fs = elim (env.fault fs.calls) [
    | some e ↦ (counted fs, failed e)
    | none ↦ elim (get from fs.dirs) [
      | none ↦ (counted fs, not_found)
      | some d ↦
          if is_free (get to fs.dirs)
          then (record (counted fs) { dirs = insert to d (remove from fs.dirs) }, done)
          else (counted fs, failed "directory not empty")
    ]
  ]

  unfoldable pub create_dir_all : FileName → FileSystem → FileSystem × IoResult
  create_dir_all name fs = elim (env.fault fs.calls) [
    | some e ↦ (counted fs, failed e)
    | none ↦ elim (get name fs.dirs) [
      | some d ↦ (counted fs, done)
      | none ↦
          (record (counted fs) { present = true; dirs = insert name empty_directory fs.dirs }, done)
    ]
  ]

  -- A call on a directory that must be there and that changes it by `f`.
  unfoldable pub on_directory :
      (Directory → Directory) → FileName → FileSystem → FileSystem × IoResult
  on_directory f name fs = elim (env.fault fs.calls) [
    | some e ↦ (counted fs, failed e)
    | none ↦ elim (get name fs.dirs) [
      | none ↦ (counted fs, not_found)
      | some d ↦ (record (counted fs) { dirs = insert name (f d) fs.dirs }, done)
    ]
  ]

  abbrev pub set_permissions : FileName → FileSystem → FileSystem × IoResult
  set_permissions = on_directory (λ d. d)

  -- `?` between two calls.
  abbrev pub then_call :
      (FileSystem → FileSystem × IoResult) → FileSystem × IoResult → FileSystem × IoResult
  then_call f (fs, done) = f fs
  then_call f (fs, not_found) = (fs, not_found)
  then_call f (fs, failed e) = (fs, failed e)

  -- `EndpointPersist::write_state`: create the temporary file, write it, sync it, rename it over
  -- the state file, sync the directory.
  unfoldable pub write_state : EndpointPersist → FileName → FileSystem → FileSystem × IoResult
  unfolding on_directory
  write_state persist name fs = then_call (on_directory (λ d. d) name) (
      then_call (on_directory (λ d. record { config = some (ok persist); leftovers = false }) name)
        (then_call (on_directory (λ d. d) name) (
          then_call (on_directory (λ d. d) name)
            (on_directory (λ d. record d { leftovers = true }) name fs))))

  -- `EndpointPersist::read_state`.
  unfoldable pub read_state : FileName → FileSystem → FileSystem × Res EndpointPersist
  unfolding stored
  read_state name fs =
      (counted fs, elim (env.fault fs.calls) [ some e ↦ err (io e) | none ↦ stored name fs ])

  abbrev if_exists : FileSystem × IoResult → FileSystem × IoResult
  if_exists (fs, done) = (fs, done)
  if_exists (fs, not_found) = (fs, done)
  if_exists (fs, failed e) = (fs, failed e)

  unfoldable pub remove_dir_if_exists : FileName → FileSystem → FileSystem × IoResult
  unfolding remove_dir_all
  remove_dir_if_exists name fs = if_exists (remove_dir_all name fs)

  -- The errors of the removals are dropped.
  unfoldable pub remove_directories : EndpointId → FileSystem → FileSystem
  unfolding remove_dir_if_exists
  remove_directories id fs =
      let f1 = (remove_dir_if_exists (directory_path id current) fs).0 in
      let f2 = (remove_dir_if_exists (directory_path id next) f1).0 in
      let f3 = (remove_dir_if_exists (directory_path id next_failed) f2).0 in
      (remove_dir_if_exists (directory_path id backup) f3).0

  -- The error of the roll-back is logged only.
  abbrev roll_back : EndpointId → Bool → FileSystem → FileSystem
  roll_back id had_current fs =
      if had_current
      then (rename (directory_path id backup) (directory_path id current) fs).0
      else fs

  abbrev pub settle : EndpointId → Bool → FileSystem × IoResult → FileSystem × Res (Unit {0})
  settle id had_current (fs, done) = ((remove_dir_if_exists (directory_path id backup) fs).0, ok tt)
  settle id had_current (fs, not_found) = (roll_back id had_current fs, to_res not_found)
  settle id had_current (fs, failed e) = (roll_back id had_current fs, to_res (failed e))

  abbrev pub commit_next : EndpointId → FileSystem × IoResult → FileSystem × Res (Unit {0})
  commit_next id (fs, done) =
      settle id true (rename (directory_path id next) (directory_path id current) fs)
  commit_next id (fs, not_found) =
      settle id false (rename (directory_path id next) (directory_path id current) fs)
  commit_next id (fs, failed e) = (fs, err (io e))

  abbrev pub move_current : EndpointId → FileSystem × IoResult → FileSystem × Res (Unit {0})
  move_current id (fs, done) =
      commit_next id (rename (directory_path id current) (directory_path id backup) fs)
  move_current id (fs, not_found) = (fs, to_res not_found)
  move_current id (fs, failed e) = (fs, err (io e))

  unfoldable pub synchronize_directories : EndpointId → FileSystem → FileSystem × Res (Unit {0})
  unfolding remove_dir_if_exists rename
  synchronize_directories id fs =
      move_current id (remove_dir_if_exists (directory_path id backup) fs)
