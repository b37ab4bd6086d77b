-- ===== src/Loader/Tests.antt =====
-- A run of `reconcile`, and instances of the theorems.
use sarena.Prelude.{◌≡◌, ◌++◌, true, none, some, List, [], ◌∷◌}
use sarena.Net.{v4}
use sarena.Endpoint.Persist.{EndpointPersist}
use sarena.Endpoint.Error.{ok}
use sarena.Loader.{LoaderEndpoint, container_endpoint, host_endpoint, PinPath}
use sarena.Loader.Backend.{EndpointInfo}
use sarena.Loader.Mock.{MockBackend, new_mock, mock_backend}
use sarena.Loader.Actor.{
  Command, add_command, list_command, shutdown_command, unit_reply, Loader, new_loader, serve,
}
use sarena.Loader.Actor.{Reply}
use sarena.Loader.Steps.{torn_down, Steps, serve_shutdown}

abbrev root : PinPath
root = "run" ∷ "sarena" ∷ []

abbrev pod : EndpointPersist
pod = record {
  id = 7;
  spec = record {
    container_name = none;
    container_id = none;
    docker_network_id = none;
    docker_endpoint = none;
    host_iface_name = "lxc7";
    host_iface_index = 3;
    container_mac = 2 ∷ 0 ∷ 0 ∷ 0 ∷ 0 ∷ 1 ∷ [];
    host_mac = 2 ∷ 0 ∷ 0 ∷ 0 ∷ 0 ∷ 2 ∷ [];
    ipv4 = some 167772161;
    ipv6 = none;
    k8s_ns = none;
    k8s_pod_name = none;
  };
}

abbrev gone_info : EndpointInfo
gone_info = record { endpoint_id = 9; if_index = 4; container_mac = []; host_mac = [] }

-- A backend that still has the entry and the pins of an endpoint that is gone.
abbrev stale_mock : MockBackend
stale_mock = record new_mock {
  links =
      ("run" ∷ "sarena" ∷ "links" ∷ "container" ∷ "lxc9" ∷ "from_container" ∷ [])
      ∷ ("run" ∷ "sarena" ∷ "links" ∷ "container" ∷ "lxc9" ∷ "to_container" ∷ [])
      ∷ [];
  endpoint_infos = (v4 167772162, gone_info) ∷ [];
}

abbrev desired : List LoaderEndpoint
desired = container_endpoint pod ∷ host_endpoint "eth0" ∷ []

abbrev started : Loader mock_backend
started = new_loader mock_backend new_mock root

abbrev queued : List Command
queued = add_command (host_endpoint "eth0") ∷ list_command ∷ []

serve_shutdown_example :
    (l' : Loader mock_backend) × (replies : List Reply) × Steps mock_backend queued started replies
      l'
    × (serve mock_backend (queued ++ shutdown_command ∷ list_command ∷ []) started
        ≡ (torn_down mock_backend l', replies ++ unit_reply (ok tt) ∷ [], list_command ∷ [], true))
serve_shutdown_example =
    serve_shutdown mock_backend queued (list_command ∷ []) started ((λ h. cc), ((λ h. cc), tt))
