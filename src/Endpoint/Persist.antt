-- ===== src/Endpoint/Persist.antt =====
-- sarena-data-plane/src/endpoint/persist.rs: what is stored of an endpoint; and the identification
-- of endpoints of endpoint/id.rs.
-- An `Ipv4Addr` or `Ipv6Addr` is its number, a `MacAddress` the list of its six bytes.
use Prim.Native.String.{◌++◌}
use sarena.Prelude.{ℕ, Option, none, some, List, [], ◌∷◌, String}
use sarena.Net.{IpAddr, v4, v6}
use sarena.Endpoint.IdAllocator.{EndpointId}

pub record EndpointSpec : Type 0 where
  pub container_name : Option String
  pub container_id : Option String
  pub docker_network_id : Option String
  pub docker_endpoint : Option String
  pub host_iface_name : String
  pub host_iface_index : ℕ
  pub container_mac : List ℕ
  pub host_mac : List ℕ
  pub ipv4 : Option ℕ
  pub ipv6 : Option ℕ
  pub k8s_ns : Option String
  pub k8s_pod_name : Option String

pub record EndpointPersist : Type 0 where
  pub id : EndpointId
  pub spec : EndpointSpec

abbrev pub join_names : Option String → Option String → Option String
join_names none name = none
join_names (some ns) none = none
join_names (some ns) (some name) = some (ns ++ "/" ++ name)

abbrev pub k8s_ns_and_pod_name : EndpointSpec → Option String
k8s_ns_and_pod_name spec = join_names spec.k8s_ns spec.k8s_pod_name

abbrev ip_list : (ℕ → IpAddr) → Option ℕ → List IpAddr → List IpAddr
ip_list f none rest = rest
ip_list f (some a) rest = f a ∷ rest

pub ips : EndpointSpec → List IpAddr
ips spec = ip_list v4 spec.ipv4 (ip_list v6 spec.ipv6 [])

pub data EndpointIdentification : Type 0 where
  by_container_id : String → EndpointIdentification
  by_container_name : String → EndpointIdentification
  by_docker_endpoint : String → EndpointIdentification
  by_ipv4 : ℕ → EndpointIdentification
  by_ipv6 : ℕ → EndpointIdentification
  by_local : EndpointId → EndpointIdentification
  by_pod_name : String → EndpointIdentification
