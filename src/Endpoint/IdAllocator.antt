-- ===== src/Endpoint/IdAllocator.antt =====
-- sarena-data-plane/src/endpoint/id_allocator.rs: the allocator of endpoint ids and its leases.
-- An `EndpointId` is its `u16`. `HashSet::iter().next()` may give any element: the position that
-- it gives is the argument `pick`.
pub mod Avail
pub mod Ops
pub mod Answers
pub mod Drain
mod Tests
use Prim.Native.String.{◌++◌}
use sarena.Prelude.{
  ℕ, zero, suc, ◌+◌, ◌%◌, Bool, true, false, not, ◌&&◌, Option, none, some, List, [], ◌∷◌, String,
  nat_eq, ltb, if◌then◌else◌, length, get_elem?,
}
use sarena.Prelude.Set.{member, insert, remove}
use sarena.Net.Text.{decimal}
use sarena.Endpoint.Error.{DataPlaneError, general_error, Res, ok, err}

abbrev pub EndpointId : Type 0
EndpointId = ℕ

abbrev pub min_id : EndpointId
min_id = 1

abbrev pub max_id : EndpointId
max_id = 4095

pub record IdCache : Type 0 where
  pub ids : List EndpointId
  pub leased : List EndpointId

-- `start..start + n`.
unfoldable pub id_range : ℕ → ℕ → List EndpointId
id_range start zero = []
id_range start (suc n) = start ∷ id_range (start + 1) n

pub new_cache : EndpointId → ℕ → IdCache
new_cache min count = record { ids = id_range min count; leased = [] }

pub allocate_id : ℕ → IdCache → IdCache × Option EndpointId
allocate_id pick c = elim (get_elem? c.ids (pick % length c.ids)) [
  | none ↦ (c, none)
  | some id ↦ (record c { ids = remove id c.ids }, some id)
]

pub insert_id : EndpointId → IdCache → IdCache × Bool
insert_id id c =
    if not (member id c.leased) && not (member id c.ids)
    then (record c { ids = insert id c.ids }, true)
    else (c, false)

pub remove_id : EndpointId → IdCache → IdCache × Bool
remove_id id c = (record c { ids = remove id c.ids; leased = remove id c.leased }, member id c.ids)

-- `IdAllocator` is an `IdCache` behind a mutex, held for each call.
pub record IdAllocator : Type 0 where
  pub cache : IdCache

pub new : IdAllocator
unfolding new_cache
new = record { cache = new_cache min_id 4095 }

pub allocate : ℕ → IdAllocator → IdAllocator × Option EndpointId
unfolding allocate_id
allocate pick a = let (c, id) = allocate_id pick a.cache in (record { cache = c }, id)

pub reuse : EndpointId → IdAllocator → IdAllocator × Res (Unit {0})
unfolding remove_id
reuse id a =
    if ltb id min_id
    then (
      a,
      err (general_error ("unable to reuse EndpointId: " ++ decimal id ++ " < " ++ decimal min_id)),
    )
    else if ltb max_id id
    then (a, ok tt)
    else (let (c, removed) = remove_id id a.cache in
        (
          record { cache = c },
          if not removed
              then err (general_error ("EndpointId " ++ decimal id ++ " is already in use"))
              else ok tt,
        ))

pub release : EndpointId → IdAllocator → IdAllocator × Res (Unit {0})
unfolding insert_id
release id a =
    let (c, inserted) = insert_id id a.cache in
    (
      record { cache = c },
      if not inserted
          then err (general_error ("unable to release EndpointId " ++ decimal id))
          else ok tt,
    )

-- `IdLease`: the id that its drop gives back, or none once it is committed.
pub record IdLease : Type 0 where
  pub id : Option EndpointId

unfoldable pub new_lease : EndpointId → IdLease
new_lease id = record { id = some id }

-- `none` is the panic of `expect`.
pub commit : IdLease → IdLease × Option EndpointId
commit l = (record { id = none }, l.id)

-- `Drop`: a failed release is logged only.
pub drop : IdLease → IdAllocator → IdAllocator
unfolding release
drop l a = elim l.id [ none ↦ a | some id ↦ (release id a).0 ]
