-- ===== src/Endpoint/Service/Tests.antt =====
-- A request, and an instance of the theorem.
use sarena.Prelude.{none, some, [], ◌∷◌, ◌=?◌, string_eq, if◌then◌else◌}
use sarena.Net.{v4}
use sarena.Endpoint.Error.{ok}
use sarena.Endpoint.Manager.{new}
use sarena.Endpoint.Directory.Samples.{calm_env, two_states}
use sarena.Endpoint.Service.{EndpointCreateRequest, AddressParsers, EndpointService, create}
use sarena.Endpoint.Service.Create.{Created, create-Created}

-- Parsers that know one address.
abbrev one_address : AddressParsers
one_address = record {
  net_addr = λ text. none;
  ip_addr = λ text. if text =? "10.0.0.2" then some (v4 0x0a000002) else none;
  ip_error = λ text. "invalid IP address syntax";
}

-- "2:0:0:0:0:1" and "2:0:0:0:0:2".
abbrev request : EndpointCreateRequest
request = record {
  container_id = "c1";
  container_mac = b'2' ∷ b':' ∷ b'0' ∷ b':' ∷ b'0' ∷ b':' ∷ b'0' ∷ b':' ∷ b'0' ∷ b':' ∷ b'1' ∷ [];
  container_iface_name = "eth0";
  host_mac = b'2' ∷ b':' ∷ b'0' ∷ b':' ∷ b'0' ∷ b':' ∷ b'0' ∷ b':' ∷ b'0' ∷ b':' ∷ b'2' ∷ [];
  host_iface_name = "lxc7";
  host_iface_index = 12;
  k8s_namespace = "default";
  k8s_pod_name = "web-0";
  k8s_uid = "u1";
  ipv4 = some (record { ip = "10.0.0.2"; pool = none });
  ipv6 = none;
}

abbrev empty_service : EndpointService
empty_service = record { manager = new; states = []; files = two_states }

create-Created_example :
    Created calm_env
      (ok tt)
      one_address
      0
      request
      empty_service
      (create calm_env (ok tt) 0 one_address request empty_service)
create-Created_example = create-Created calm_env (ok tt) 0 one_address request empty_service
