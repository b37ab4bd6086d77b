-- ===== src/Endpoint/Manager/Tests.antt =====
-- The manager's calls at concrete endpoints.
use sarena.Prelude.{◌≡◌, ◌≢◌, refl, false, none, some, [], nat_eq, string_eq, arith}
use sarena.Prelude.Map.{get, contains_key}
use sarena.Endpoint.Error.{ok}
use sarena.Endpoint.IdAllocator.Avail.{new-IsValid}
use sarena.Endpoint.Persist.{EndpointPersist}
use sarena.Endpoint.Manager.{
  new, new_inner, new_endpoint, endpoint_exists, add_endpoint, delete_endpoint,
}
use sarena.Endpoint.Manager.Lookup.{IsFound, add_endpoint-IsFound, Deleted, delete_endpoint-Deleted}

abbrev pod : EndpointPersist
pod = record {
  id = 7;
  spec = record {
    container_name = some "web";
    container_id = some "c1";
    docker_network_id = none;
    docker_endpoint = some "d1";
    host_iface_name = "lxc7";
    host_iface_index = 12;
    container_mac = [];
    host_mac = [];
    ipv4 = some 0x0a000002;
    ipv6 = none;
    k8s_ns = some "default";
    k8s_pod_name = some "web-0";
  };
}

starts_empty : endpoint_exists 7 new ≡ false
unfolding endpoint_exists new new_inner get contains_key
starts_empty = refl

add_endpoint-IsFound_example :
    ((add_endpoint pod new).1 ≡ ok (new_endpoint pod)) × IsFound (add_endpoint pod new).0 pod
add_endpoint-IsFound_example = add_endpoint-IsFound pod new starts_empty

other_key : pod.spec.container_id ≢ some "d1"
other_key h = ground (arith, string_eq.beq_iff "c1" "d1")

delete_endpoint-Deleted_example : Deleted new (delete_endpoint (ok tt) (ok tt) 7 new).0 7
unfolding new
delete_endpoint-Deleted_example = delete_endpoint-Deleted (ok tt) (ok tt) 7 new new-IsValid
