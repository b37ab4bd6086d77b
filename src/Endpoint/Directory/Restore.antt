-- ===== src/Endpoint/Directory/Restore.antt =====
-- `read_endpoints` of sarena-data-plane/src/endpoint/directory.rs: for each endpoint the first of
-- its state directories that can be read, in the order of the kinds, and the others removed. The
-- order of the entries and of the map is that of the lists.
use Prim.Native.String.{◌++◌ as cat}
use mathlib.Core.List.{foldl}
use sarena.Prelude.{
  ℕ, ◌+◌, Option, none, some, List, [], ◌∷◌, ◌++◌, map, leb, ◌==◌, ◌=?◌, nat_eq, if◌then◌else◌, not,
}
use sarena.Prelude.Map.{Map, get, insert}
use sarena.Net.Text.{decimal}
use sarena.Endpoint.Error.{io, general_error, Res, ok, err}
use sarena.Endpoint.IdAllocator.{EndpointId}
use sarena.Endpoint.Persist.{EndpointPersist}
use sarena.Endpoint.Directory.{
  FileName, DirKind, current, next, backup, next_failed, parse_dir_name,
}
use sarena.Endpoint.Directory.Files.{
  FileSystem, Environment, read_state, remove_dir_if_exists, counted,
}

abbrev pub Candidate : Type 0
Candidate = DirKind × FileName

-- The derived order of the kinds.
abbrev pub rank : DirKind → ℕ
rank current = 0
rank next = 1
rank backup = 2
rank next_failed = 3

unfoldable pub insert_by_key : Candidate → List Candidate → List Candidate
insert_by_key c [] = c ∷ []
insert_by_key c (d ∷ cs) =
    let rest = insert_by_key c cs in if leb (rank c.0) (rank d.0) then c ∷ d ∷ cs else d ∷ rest

-- `sort_by_key`: a stable sort.
unfoldable pub sort_by_key : List Candidate → List Candidate
unfolding insert_by_key
sort_by_key [] = []
sort_by_key (c ∷ cs) = insert_by_key c (sort_by_key cs)

abbrev or_empty : Option (List Candidate) → List Candidate
or_empty none = []
or_empty (some cs) = cs

-- `dirs.entry(id).or_default().push(…)`, for a name that is that of a state directory.
unfoldable pub add_entry :
    Map EndpointId (List Candidate) → FileName → Map EndpointId (List Candidate)
add_entry dirs name = elim (parse_dir_name name) [
  | none ↦ dirs
  | some (id, kind) ↦ insert id (or_empty (get id dirs) ++ (kind, name) ∷ []) dirs
]

unfoldable pub check_id : EndpointId → Res EndpointPersist → Res EndpointPersist
check_id id (err e) = err e
check_id id (ok p) =
    if not (p.id =? id)
    then err (
        general_error
          (cat "state file has endpoint id " (cat (decimal p.id) (cat ", expected " (decimal id)))))
    else ok p

module _ (env : Environment) where
  unfoldable pub collect_endpoint_dirs :
      FileSystem → FileSystem × Res (Map EndpointId (List Candidate))
  unfolding add_entry
  collect_endpoint_dirs fs = elim (env.fault fs.calls) [
    | some e ↦ (counted env fs, err (io e))
    | none ↦ (
      counted env fs,
      ok (if fs.present then foldl add_entry [] (map (λ d. d.0) fs.dirs) else []),
    )
  ]

  unfoldable pub read_endpoint_dir :
      EndpointId → FileName → FileSystem → FileSystem × Res EndpointPersist
  unfolding read_state check_id
  read_endpoint_dir id name fs =
      let (fs', answer) = read_state env name fs in (fs', check_id id answer)

  -- The loop over the candidates up to the first that can be read: its index, counted from `i`.
  unfoldable pub choose :
      EndpointId → ℕ → List Candidate → FileSystem → FileSystem × Option (ℕ × EndpointPersist)
  choose id i [] fs = (fs, none)
  choose id i (c ∷ cs) fs =
      let (fs', answer) = read_endpoint_dir id c.1 fs in
      let more = choose id (i + 1) cs fs' in
      elim answer [ ok p ↦ (fs', some (i, p)) | err e ↦ more ]

  -- The removal of the candidates but the chosen one; its errors are logged only.
  unfoldable pub remove_superseded : ℕ → ℕ → List Candidate → FileSystem → FileSystem
  unfolding remove_dir_if_exists
  remove_superseded chosen i [] fs = fs
  remove_superseded chosen i (c ∷ cs) fs =
      remove_superseded chosen (i + 1) cs
        (if i == chosen then fs else (remove_dir_if_exists env c.1 fs).0)

  -- The body of the loop over the endpoints.
  unfoldable pub restore_endpoint :
      EndpointId → List Candidate → FileSystem → FileSystem × Option EndpointPersist
  unfolding sort_by_key choose remove_superseded
  restore_endpoint id candidates fs =
      let sorted = sort_by_key candidates in
      let (fs', chosen) = choose id 0 sorted fs in
      elim chosen [
        | none ↦ (fs', none)
        | some (index, p) ↦ (remove_superseded index 0 sorted fs', some p)
      ]

  abbrev keep_endpoint :
      EndpointId
      → Option EndpointPersist
      → Map EndpointId EndpointPersist
      → Map EndpointId EndpointPersist
  keep_endpoint id none endpoints = endpoints
  keep_endpoint id (some p) endpoints = insert id p endpoints

  unfoldable pub restore_endpoints :
      Map EndpointId (List Candidate)
      → FileSystem × Map EndpointId EndpointPersist
      → FileSystem × Map EndpointId EndpointPersist
  unfolding restore_endpoint
  restore_endpoints [] (fs, endpoints) = (fs, endpoints)
  restore_endpoints ((id, candidates) ∷ dirs) (fs, endpoints) =
      let (fs', chosen) = restore_endpoint id candidates fs in
      restore_endpoints dirs (fs', keep_endpoint id chosen endpoints)

  abbrev restore_collected :
      FileSystem × Res (Map EndpointId (List Candidate))
      → FileSystem × Res (Map EndpointId EndpointPersist)
  restore_collected (fs, err e) = (fs, err e)
  restore_collected (fs, ok dirs) =
      let (fs', endpoints) = restore_endpoints dirs (fs, []) in (fs', ok endpoints)

  unfoldable pub read_endpoints : FileSystem → FileSystem × Res (Map EndpointId EndpointPersist)
  unfolding collect_endpoint_dirs restore_endpoints
  read_endpoints fs = restore_collected (collect_endpoint_dirs fs)
