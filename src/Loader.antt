-- ===== src/Loader.antt =====
-- The loader of BPF programs, sarena-data-plane/src/loader: what there is to load for each kind of
-- endpoint (manifest.rs, loader_endpoint.rs) and where it is pinned (pin.rs). A path is the list of
-- its components; the name of a link is one component.
pub mod Backend
pub mod Calls
pub mod Actor
pub mod Mock
pub mod Steps
pub mod Effects
pub mod Attached
pub mod Infos
pub mod Pins
pub mod Stale
pub mod Reconcile
mod Tests
use Prim.Native.String.{◌++◌ as cat}
use sarena.Prelude.{
  ℕ, ◌≡◌, ◌↔◌, refl, ap, sym, ◌∙◌, Bool, true, false, Option, none, some, List, [], ◌∷◌, ◌++◌,
  String, ◌==◌, ==_iff, Eq, ◌=?◌, string_eq, if◌then◌else◌, arith,
}
use sarena.Endpoint.Persist.{EndpointPersist}

pub data Hook : Type 0 where
  tcx_ingress tcx_egress : Hook

pub record HookSpec : Type 0 where
  pub hook : Hook
  pub program_name : String
  pub required : Bool

pub data GlobalMap : Type 0 where
  lxc_map metrics_map : GlobalMap

pub data EndpointMap : Type 0 where
  calls_map endpoint_config_map : EndpointMap

-- `wire_name`.
abbrev pub global_wire_name : GlobalMap → String
global_wire_name lxc_map = "lxc_map"
global_wire_name metrics_map = "metrics_map"

abbrev pub endpoint_wire_name : EndpointMap → String
endpoint_wire_name calls_map = "calls_map"
endpoint_wire_name endpoint_config_map = "endpoint_config"

pub data LoaderEndpointKind : Type 0 where
  container host net_dev overlay wireguard : LoaderEndpointKind

abbrev pub kind_str : LoaderEndpointKind → String
kind_str container = "container"
kind_str host = "host"
kind_str net_dev = "netdev"
kind_str overlay = "overlay"
kind_str wireguard = "wireguard"

unfoldable pub from_kind_str : String → Option LoaderEndpointKind
from_kind_str s =
    if s =? "container"
    then some container
    else if s =? "host"
    then some host
    else if s =? "netdev"
    then some net_dev
    else if s =? "overlay"
    then some overlay
    else if s =? "wireguard"
    then some wireguard
    else none

abbrev required_hook : Hook → String → HookSpec
required_hook hook program_name = record {
  hook = hook;
  program_name = program_name;
  required = true;
}

abbrev pub hooks : LoaderEndpointKind → List HookSpec
hooks container =
    required_hook tcx_ingress "from_container" ∷ required_hook tcx_egress "to_container" ∷ []
hooks host = required_hook tcx_egress "from_host" ∷ required_hook tcx_ingress "to_host" ∷ []
hooks net_dev = required_hook tcx_ingress "from_netdev" ∷ required_hook tcx_egress "to_netdev" ∷ []
hooks overlay =
    required_hook tcx_ingress "from_overlay" ∷ required_hook tcx_egress "to_overlay" ∷ []
hooks wireguard =
    required_hook tcx_ingress "from_wireguard" ∷ required_hook tcx_egress "to_wireguard" ∷ []

abbrev pub per_endpoint_map_names : LoaderEndpointKind → List EndpointMap
per_endpoint_map_names container = calls_map ∷ endpoint_config_map ∷ []
per_endpoint_map_names host = calls_map ∷ endpoint_config_map ∷ []
per_endpoint_map_names net_dev = calls_map ∷ []
per_endpoint_map_names overlay = calls_map ∷ []
per_endpoint_map_names wireguard = calls_map ∷ []

abbrev pub global_maps : List GlobalMap
global_maps = lxc_map ∷ metrics_map ∷ []

-- `kind` and `link` of the source are `endpoint_kind` and `endpoint_link`.
pub data LoaderEndpoint : Type 0 where
  container_endpoint : EndpointPersist → LoaderEndpoint
  host_endpoint net_dev_endpoint overlay_endpoint wireguard_endpoint : String → LoaderEndpoint

abbrev pub endpoint_kind : LoaderEndpoint → LoaderEndpointKind
endpoint_kind (container_endpoint p) = container
endpoint_kind (host_endpoint link) = host
endpoint_kind (net_dev_endpoint link) = net_dev
endpoint_kind (overlay_endpoint link) = overlay
endpoint_kind (wireguard_endpoint link) = wireguard

abbrev pub endpoint_link : LoaderEndpoint → String
endpoint_link (container_endpoint p) = p.spec.host_iface_name
endpoint_link (host_endpoint link) = link
endpoint_link (net_dev_endpoint link) = link
endpoint_link (overlay_endpoint link) = link
endpoint_link (wireguard_endpoint link) = link

abbrev pub PinPath : Type 0
PinPath = List String

abbrev pub join : PinPath → String → PinPath
join path name = path ++ name ∷ []

-- `PinRoot` is the path of its root.
abbrev pub links_dir : PinPath → PinPath
links_dir root = join root "links"

abbrev pub globals_dir : PinPath → PinPath
globals_dir root = join root "globals"

abbrev pub pin_subpath : LoaderEndpointKind → String → PinPath
pin_subpath kind link = kind_str kind ∷ link ∷ []

abbrev pub endpoint_link_dir : PinPath → LoaderEndpointKind → String → PinPath
endpoint_link_dir root kind link = links_dir root ++ pin_subpath kind link

abbrev pub per_endpoint_map_dir : PinPath → EndpointMap → String → PinPath
per_endpoint_map_dir root m link =
    join (globals_dir root) (cat (endpoint_wire_name m) (cat "_" link))

abbrev pub global_map_dir : PinPath → GlobalMap → PinPath
global_map_dir root m = join (globals_dir root) (global_wire_name m)

abbrev with_link : Option LoaderEndpointKind → String → Option (LoaderEndpointKind × String)
with_link none link = none
with_link (some kind) link = some (kind, link)

unfoldable pub parse_pin_subpath : PinPath → Option (LoaderEndpointKind × String)
unfolding from_kind_str
parse_pin_subpath [] = none
parse_pin_subpath (k ∷ []) = none
parse_pin_subpath (k ∷ link ∷ more) = with_link (from_kind_str k) link

abbrev kind_code : LoaderEndpointKind → ℕ
kind_code container = 0
kind_code host = 1
kind_code net_dev = 2
kind_code overlay = 3
kind_code wireguard = 4

kind_of_code : ℕ → LoaderEndpointKind
kind_of_code n =
    if n == 0
    then container
    else if n == 1
    then host
    else if n == 2
    then net_dev
    else if n == 3
    then overlay
    else wireguard

kind_of_code-kind_code : (k : LoaderEndpointKind) → kind_of_code (kind_code k) ≡ k
unfolding kind_of_code
kind_of_code-kind_code container = refl
kind_of_code-kind_code host = refl
kind_of_code-kind_code net_dev = refl
kind_of_code-kind_code overlay = refl
kind_of_code-kind_code wireguard = refl

abbrev pub kind_beq : LoaderEndpointKind → LoaderEndpointKind → Bool
kind_beq a b = kind_code a == kind_code b

pub kind_beq_iff : (a b : LoaderEndpointKind) → (kind_beq a b ≡ true) ↔ (a ≡ b)
kind_beq_iff a b = (
  (λ h.
      sym (kind_of_code-kind_code a)
      ∙ ap kind_of_code ((==_iff (kind_code a) (kind_code b)).0 h)
      ∙ kind_of_code-kind_code b),
  (λ e. (==_iff (kind_code a) (kind_code b)).1 (ap kind_code e)),
)

instance abbrev pub kind_eq : Eq LoaderEndpointKind
kind_eq = record { beq = kind_beq; beq_iff = kind_beq_iff }
