-- ===== src/Endpoint/Manager.antt =====
-- sarena-data-plane/src/endpoint/manager.rs: the endpoints of the node and the ways to look them up.
-- The inner state is behind one lock, held for the part of a call that a definition stands for. An
-- `Endpoint` is the handle of a worker: its id, what the worker last published, and whether it is
-- told to stop. What the loader and the worker answer are arguments.
pub mod Lookup
pub mod Keeps
mod Tests
use Prim.Native.String.{◌++◌}
use sarena.Prelude.{
  ℕ, Bool, true, false, not, Option, none, some, List, [], ◌∷◌, String, ◌=?◌, nat_eq, string_eq,
  if◌then◌else◌, find, map,
}
use sarena.Prelude.Map.{Map, get, insert, retain, remove, contains_key, values, is_some}
use sarena.Net.{IpAddr, v4, v6}
use sarena.Net.Text.{decimal}
use sarena.Endpoint.Error.{
  DataPlaneError, general_error, io, actor_gone, actor_cancelled, message, Res, ok, err,
}
use sarena.Endpoint.IdAllocator.{EndpointId, IdAllocator, IdLease, new_lease, commit}
use sarena.Endpoint.IdAllocator
use sarena.Endpoint.Persist.{
  EndpointPersist, EndpointSpec, k8s_ns_and_pod_name, EndpointIdentification, by_container_id,
  by_container_name, by_docker_endpoint, by_ipv4, by_ipv6, by_local, by_pod_name,
}

pub record Endpoint : Type 0 where
  pub id : EndpointId
  pub is_host : Bool
  pub persist : EndpointPersist
  pub stopped : Bool

-- `Endpoint::new`.
abbrev pub new_endpoint : EndpointPersist → Endpoint
new_endpoint persist = record {
  id = persist.id;
  is_host = false;
  persist = persist;
  stopped = false;
}

abbrev pub shutdown : Endpoint → Endpoint
shutdown ep = record ep { stopped = true }

pub record EndpointManagerInner : Type 0 where
  pub endpoints : Map EndpointId Endpoint
  pub container_name : Map String EndpointId
  pub container_id : Map String EndpointId
  pub docker_endpoint : Map String EndpointId
  pub ipv4 : Map ℕ EndpointId
  pub ipv6 : Map ℕ EndpointId
  pub pod_name : Map String EndpointId

pub new_inner : EndpointManagerInner
new_inner = record {
  endpoints = [];
  container_name = [];
  container_id = [];
  docker_endpoint = [];
  ipv4 = [];
  ipv6 = [];
  pod_name = [];
}

pub insert_endpoint : Endpoint → EndpointManagerInner → EndpointManagerInner
insert_endpoint ep m = record m { endpoints = insert ep.id ep m.endpoints }

pub remove_id : EndpointId → EndpointManagerInner → EndpointManagerInner × Option Endpoint
remove_id id m = (record m { endpoints = remove id m.endpoints }, get id m.endpoints)

pub clear_all : EndpointManagerInner → EndpointManagerInner
clear_all m = record m { endpoints = []; container_name = [] }

-- `if let Some(key) = key { map.insert(key, id) }`.
abbrev pub refer_strings :
    Option String → EndpointId → Map String EndpointId → Map String EndpointId
refer_strings none id m = m
refer_strings (some key) id m = insert key id m

abbrev pub refer_numbers : Option ℕ → EndpointId → Map ℕ EndpointId → Map ℕ EndpointId
refer_numbers none id m = m
refer_numbers (some key) id m = insert key id m

abbrev pub without_id : EndpointId → Map String EndpointId → Map String EndpointId
without_id id m = retain (λ aux_id. not (aux_id =? id)) m

-- The docker endpoint is entered under the container id, as the code does.
pub update_references : EndpointId → EndpointPersist → EndpointManagerInner → EndpointManagerInner
update_references id endpoint m =
    let spec = endpoint.spec in
    record m {
      container_name = refer_strings spec.container_name id (without_id id m.container_name);
      container_id = refer_strings spec.container_id id m.container_id;
      docker_endpoint = refer_strings spec.container_id id m.docker_endpoint;
      ipv4 = refer_numbers spec.ipv4 id m.ipv4;
      ipv6 = refer_numbers spec.ipv6 id m.ipv6;
      pod_name = refer_strings (k8s_ns_and_pod_name spec) id m.pod_name;
    }

pub remove_references : EndpointId → EndpointManagerInner → EndpointManagerInner
remove_references id m = record m { container_name = without_id id m.container_name }

pub lookup_container_name : String → EndpointManagerInner → Option EndpointId
lookup_container_name name m = get name m.container_name

pub lookup_container_id : String → EndpointManagerInner → Option EndpointId
lookup_container_id id m = get id m.container_id

pub lookup_docker_endpoint : String → EndpointManagerInner → Option EndpointId
lookup_docker_endpoint id m = get id m.docker_endpoint

pub lookup_ipv4 : ℕ → EndpointManagerInner → Option EndpointId
lookup_ipv4 ipv4 m = get ipv4 m.ipv4

pub lookup_ipv6 : ℕ → EndpointManagerInner → Option EndpointId
lookup_ipv6 ipv6 m = get ipv6 m.ipv6

pub lookup_pod_name : String → EndpointManagerInner → Option EndpointId
lookup_pod_name name m = get name m.pod_name

pub lookup : EndpointIdentification → EndpointManagerInner → Option EndpointId
unfolding lookup_container_id lookup_container_name lookup_docker_endpoint lookup_ipv4 lookup_ipv6
    lookup_pod_name
lookup (by_container_id id) m = lookup_container_id id m
lookup (by_container_name name) m = lookup_container_name name m
lookup (by_docker_endpoint endpoint) m = lookup_docker_endpoint endpoint m
lookup (by_ipv4 ipv4) m = lookup_ipv4 ipv4 m
lookup (by_ipv6 ipv6) m = lookup_ipv6 ipv6 m
lookup (by_local endpoint_id) m = some endpoint_id
lookup (by_pod_name name) m = lookup_pod_name name m

pub lookup_ip : IpAddr → EndpointManagerInner → Option EndpointId
unfolding lookup_ipv4 lookup_ipv6
lookup_ip (v4 ipv4) m = lookup_ipv4 ipv4 m
lookup_ip (v6 ipv6) m = lookup_ipv6 ipv6 m

pub record EndpointManager : Type 0 where
  pub inner : EndpointManagerInner
  pub id_allocator : IdAllocator

pub new : EndpointManager
unfolding new_inner
new = record { inner = new_inner; id_allocator = IdAllocator.new }

pub add_endpoint : EndpointPersist → EndpointManager → EndpointManager × Res Endpoint
unfolding insert_endpoint update_references
add_endpoint persist m =
    let endpoint = new_endpoint persist in
    if contains_key persist.id m.inner.endpoints
    then (m, err (general_error ("endpoint " ++ decimal persist.id ++ " already exists")))
    else (
      record m { inner = update_references persist.id persist (insert_endpoint endpoint m.inner) },
      ok endpoint,
    )

-- `drained.and(removed)`.
abbrev pub both : Res (Unit {0}) → Res (Unit {0}) → Res (Unit {0})
both (ok u) removed = removed
both (err e) removed = err e

-- The answer of the shutdown of the endpoint that was removed: `drained` is what waiting for its
-- worker gives, `removed` what the loader answers; the loader is not asked for the host endpoint.
abbrev pub shutdown_result : Option Endpoint → Res (Unit {0}) → Res (Unit {0}) → Res (Unit {0})
shutdown_result none drained removed = ok tt
shutdown_result (some ep) drained removed = both drained (if ep.is_host then ok tt else removed)

-- A failure to release the id is logged only.
pub delete_endpoint :
    Res (Unit {0})
    → Res (Unit {0})
    → EndpointId
    → EndpointManager
    → EndpointManager × Res (Unit {0})
unfolding remove_references remove_id
delete_endpoint drained removed id m =
    let (inner, ep) = remove_id id (remove_references id m.inner) in
    (
      record { inner = inner; id_allocator = (IdAllocator.release id m.id_allocator).0 },
      shutdown_result ep drained removed,
    )

pub endpoints : EndpointManager → List Endpoint
endpoints m = values m.inner.endpoints

-- The manager after the call, and the handles that were told to stop.
pub remove_all : EndpointManager → EndpointManager × List Endpoint
unfolding clear_all
remove_all m = (record m { inner = clear_all m.inner }, map shutdown (values m.inner.endpoints))

pub endpoint : EndpointId → EndpointManager → Option Endpoint
endpoint id m = get id m.inner.endpoints

pub endpoint_exists : EndpointId → EndpointManager → Bool
endpoint_exists id m = contains_key id m.inner.endpoints

abbrev id_of : Option Endpoint → Option EndpointId
id_of none = none
id_of (some ep) = some ep.id

pub host_endpoint_id : EndpointManager → Option EndpointId
host_endpoint_id m = id_of (find (λ ep. ep.is_host) (values m.inner.endpoints))

pub host_endpoint_exists : EndpointManager → Bool
unfolding host_endpoint_id
host_endpoint_exists m = is_some (host_endpoint_id m)

-- `pick` is the position of the id that the allocator's hash set yields.
pub allocate_new_id : ℕ → EndpointManager → EndpointManager × Res IdLease
allocate_new_id pick m =
    let (a, given) = IdAllocator.allocate pick m.id_allocator in
    (
      record m { id_allocator = a },
      elim given [
        | none ↦ err (general_error "no more EndpointId's available")
        | some id ↦ ok (new_lease id)
      ],
    )

pub allocate_reuse_id : EndpointId → EndpointManager → EndpointManager × Res IdLease
allocate_reuse_id current_id m =
    let (a, answer) = IdAllocator.reuse current_id m.id_allocator in
    (
      record m { id_allocator = a },
      elim answer [
        | err e ↦ err (general_error ("unable to reuse EndpointId: " ++ message e))
        | ok u ↦ ok (new_lease current_id)
      ],
    )

-- The loop of `restore_old_endpoints` over the endpoints that were read; each lease is committed.
pub restore :
    List (EndpointId × EndpointPersist) → EndpointManager → EndpointManager × List EndpointPersist
unfolding allocate_reuse_id
restore [] m = (m, [])
restore ((id, endpoint) ∷ possible) m =
    let (m1, lease) = allocate_reuse_id id m in
    let (m2, restored) = restore possible m1 in
    (m2, elim lease [ err e ↦ restored | ok l ↦ endpoint ∷ restored ])
