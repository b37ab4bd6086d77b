-- ===== src/Endpoint/Directory/Samples.antt =====
-- Test data: an endpoint with a current and a next directory.
use sarena.Prelude.{ℕ, true, false, none, some, [], ◌∷◌}
use sarena.Endpoint.Error.{ok}
use sarena.Endpoint.Persist.{EndpointPersist}
use sarena.Endpoint.Directory.{FileName}
use sarena.Endpoint.Directory.Files.{FileSystem, Directory, Environment}

-- Endpoint 7, told apart by the index of its interface.
abbrev pub marked : ℕ → EndpointPersist
marked index = record {
  id = 7;
  spec = record {
    container_name = none;
    container_id = none;
    docker_network_id = none;
    docker_endpoint = none;
    host_iface_name = "lxc7";
    host_iface_index = index;
    container_mac = [];
    host_mac = [];
    ipv4 = none;
    ipv6 = none;
    k8s_ns = none;
    k8s_pod_name = none;
  };
}

abbrev pub holding : EndpointPersist → Directory
holding p = record { config = some (ok p); leftovers = false }

abbrev pub calm_env : Environment
calm_env = record { fault = λ n. none; partly = λ n d. d }

-- The names 7 and 7_next.
abbrev pub seven : FileName
seven = b'7' ∷ []

abbrev pub seven_next : FileName
seven_next = b'7' ∷ b'_' ∷ b'n' ∷ b'e' ∷ b'x' ∷ b't' ∷ []

abbrev pub two_states : FileSystem
two_states = record {
  present = true;
  dirs = (seven, holding (marked 1)) ∷ (seven_next, holding (marked 2)) ∷ [];
  calls = 0;
}
