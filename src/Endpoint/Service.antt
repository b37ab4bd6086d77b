-- ===== src/Endpoint/Service.antt =====
-- sarena-services/src/endpoint/service.rs: a request makes an endpoint of the manager, which its
-- worker regenerates. A call is one caller's run. The addresses of a request are parsed by the
-- standard library and the `ipnet` crate, whose answers are arguments.
pub mod Request
pub mod Create
mod Tests
use Prim.Native.String.{◌++◌}
use sarena.Prelude.{ℕ, Option, none, some, List, String, nat_eq, if◌then◌else◌}
use sarena.Prelude.Map.{Map, insert, is_some}
use sarena.Net.{IpAddr, v4, v6}
use sarena.Net.Text.{ip_to_string}
use sarena.Net.Mac.{parse_mac}
use sarena.Endpoint.Error.{DataPlaneError, Res, ok, err}
use sarena.Endpoint.IdAllocator.{EndpointId, IdLease}
use sarena.Endpoint.IdAllocator
use sarena.Endpoint.Persist.{EndpointPersist, EndpointSpec}
use sarena.Endpoint.Manager.{
  Endpoint, EndpointManager, lookup_container_id, lookup_ipv4, lookup_ipv6, add_endpoint,
  allocate_new_id,
}
use sarena.Endpoint.Directory.Files.{FileSystem, Environment}
use sarena.Endpoint.Worker.{EndpointState, EndpointWorker, initial_state, regenerate}

-- Of sarena-api/types/v1/src/endpoint.rs; a MAC address is the bytes of its text.
pub record Addressing : Type 0 where
  pub ip : String
  pub pool : Option String

pub record EndpointCreateRequest : Type 0 where
  pub container_id : String
  pub container_mac : List ℕ
  pub container_iface_name : String
  pub host_mac : List ℕ
  pub host_iface_name : String
  pub host_iface_index : ℕ
  pub k8s_namespace : String
  pub k8s_pod_name : String
  pub k8s_uid : String
  pub ipv4 : Option Addressing
  pub ipv6 : Option Addressing

pub data EndpointError : Type 0 where
  generic_error : String → EndpointError
  data_plane_error : DataPlaneError → EndpointError

pub data ServiceRes (A : Type 0) : Type 0 where
  done : A → ServiceRes A
  failed : EndpointError → ServiceRes A

-- `?`.
infixl 5 ◌>>=◌
abbrev pub ◌>>=◌ : {A B : Type 0} → ServiceRes A → (A → ServiceRes B) → ServiceRes B
◌>>=◌ (done a) f = f a
◌>>=◌ (failed e) f = failed e

-- `parse::<IpNet>()` with its `addr`, `parse::<IpAddr>()`, and the text of its error.
pub record AddressParsers : Type 0 where
  pub net_addr : String → Option IpAddr
  pub ip_addr : String → Option IpAddr
  pub ip_error : String → String

-- The endpoints, what their workers published, and the state directories.
pub record EndpointService : Type 0 where
  pub manager : EndpointManager
  pub states : Map EndpointId EndpointState
  pub files : FileSystem

abbrev pub as_ipv4 : IpAddr → ServiceRes (Option ℕ)
as_ipv4 (v4 ip) = done (some ip)
as_ipv4 (v6 ip) = failed (generic_error "error parsing ipv4 address")

abbrev pub as_ipv6 : IpAddr → ServiceRes (Option ℕ)
as_ipv6 (v4 ip) = failed (generic_error "error parsing ipv6 address")
as_ipv6 (v6 ip) = done (some ip)

module _ (P : AddressParsers) where
  abbrev pub parse_ip : String → ServiceRes IpAddr
  parse_ip ip = elim (P.net_addr ip) [
    | some a ↦ done a
    | none ↦ elim (P.ip_addr ip) [
      | some a ↦ done a
      | none ↦ failed (generic_error ("error parsing ip address " ++ ip ++ ": " ++ P.ip_error ip))
    ]
  ]

  unfoldable pub parse_ipv4 : Option Addressing → ServiceRes (Option ℕ)
  parse_ipv4 none = done none
  parse_ipv4 (some addr) = parse_ip addr.ip >>= as_ipv4

  unfoldable pub parse_ipv6 : Option Addressing → ServiceRes (Option ℕ)
  parse_ipv6 none = done none
  parse_ipv6 (some addr) = parse_ip addr.ip >>= as_ipv6

abbrev pub refuse_used : Option EndpointId → String → ServiceRes (Unit {0})
refuse_used none text = done tt
refuse_used (some id) text = failed (generic_error text)

abbrev pub check_ipv4 : Option ℕ → EndpointManager → ServiceRes (Unit {0})
check_ipv4 none m = done tt
check_ipv4 (some ip) m =
    refuse_used (lookup_ipv4 ip m.inner) ("Ipv4 " ++ ip_to_string (v4 ip) ++ " is already in use")

abbrev pub check_ipv6 : Option ℕ → EndpointManager → ServiceRes (Unit {0})
check_ipv6 none m = done tt
check_ipv6 (some ip) m =
    refuse_used (lookup_ipv6 ip m.inner) ("Ipv6 " ++ ip_to_string (v6 ip) ++ " is already in use")

-- The checks of `create` that come first, with the addresses that they parse.
unfoldable pub check_request :
    AddressParsers → EndpointCreateRequest → EndpointManager → ServiceRes (Option ℕ × Option ℕ)
unfolding parse_ipv4 parse_ipv6
check_request P request m = do
  u1 ←
      refuse_used (lookup_container_id request.container_id m.inner)
        ("endpoint for container " ++ request.container_id ++ " already exists")
  ipv4 ← parse_ipv4 P request.ipv4
  ipv6 ← parse_ipv6 P request.ipv6
  u2 ← check_ipv4 ipv4 m
  u3 ← check_ipv6 ipv6 m
  done (ipv4, ipv6)

abbrev pub persist_of :
    EndpointCreateRequest → Option ℕ → Option ℕ → List ℕ → List ℕ → EndpointId → EndpointPersist
persist_of request ipv4 ipv6 host_mac container_mac id = record {
  id = id;
  spec = record {
    container_name = none;
    container_id = some request.container_id;
    docker_network_id = none;
    docker_endpoint = none;
    host_iface_name = request.host_iface_name;
    host_iface_index = request.host_iface_index;
    container_mac = container_mac;
    host_mac = host_mac;
    ipv4 = ipv4;
    ipv6 = ipv6;
    k8s_ns = some request.k8s_namespace;
    k8s_pod_name = some request.k8s_pod_name;
  };
}

abbrev pub Answer : Type 0
Answer = Option (EndpointService × ServiceRes (Unit {0}))

abbrev pub to_service_res : Res (Unit {0}) → ServiceRes (Unit {0})
to_service_res (ok u) = done tt
to_service_res (err e) = failed (data_plane_error e)

-- `env` says which file calls are refused, `loaded` what the loader answers; `pick` is the position of
-- the id that the allocator's hash set yields. `none` is a panic.
module _ (env : Environment) (loaded : Res (Unit {0})) (pick : ℕ) where
  abbrev pub worker_of : EndpointPersist → EndpointService → EndpointWorker
  worker_of persist s = record {
    state = initial_state persist;
    snapshot = initial_state persist;
    files = s.files;
  }

  abbrev pub regenerated :
      EndpointPersist → EndpointService → EndpointWorker × Res (Unit {0}) → Answer
  regenerated persist s (w, answer) = some (
    record s { states = insert persist.id w.snapshot s.states; files = w.files },
    to_service_res answer,
  )

  -- When adding fails, the drop of the lease gives the id back; when not, it is committed.
  abbrev pub added :
      EndpointPersist → IdLease → EndpointService → EndpointManager × Res Endpoint → Answer
  added persist lease s (m, err e) = some (
    record s { manager = record m { id_allocator = IdAllocator.drop lease m.id_allocator } },
    failed (data_plane_error e),
  )
  added persist lease s (m, ok ep) =
      let s' : EndpointService = record s { manager = m } in
      regenerated persist s' (regenerate env loaded (worker_of persist s'))

  abbrev pub with_lease :
      (EndpointId → EndpointPersist) → EndpointService → EndpointManager × Res IdLease → Answer
  with_lease persist s (m, err e) = some (record s { manager = m }, failed (data_plane_error e))
  with_lease persist s (m, ok lease) = elim lease.id [
    | none ↦ none
    | some id ↦ added (persist id) lease s (add_endpoint (persist id) m)
  ]

  abbrev pub with_macs :
      EndpointCreateRequest
      → EndpointService
      → Option ℕ × Option ℕ
      → Option (List ℕ)
      → Option (List ℕ)
      → Answer
  with_macs request s ips none container_mac = none
  with_macs request s ips (some host_mac) none = none
  with_macs request s (ipv4, ipv6) (some host_mac) (some container_mac) =
      with_lease (persist_of request ipv4 ipv6 host_mac container_mac) s
        (allocate_new_id pick s.manager)

  abbrev pub checked :
      EndpointCreateRequest → EndpointService → ServiceRes (Option ℕ × Option ℕ) → Answer
  checked request s (failed e) = some (s, failed e)
  checked request s (done ips) =
      with_macs request s ips (parse_mac request.host_mac) (parse_mac request.container_mac)

  unfoldable pub create : AddressParsers → EndpointCreateRequest → EndpointService → Answer
  unfolding check_request regenerate
  create P request s = checked request s (check_request P request s.manager)

-- `delete` answers `Ok` and does nothing else.
unfoldable pub delete : String → EndpointService → EndpointService × ServiceRes (Unit {0})
delete attachment_id s = (s, done tt)
