-- ===== src/Loader/Calls.antt =====
-- sarena-data-plane/src/loader/data_plane_loader.rs: the loader over any backend.
use mathlib.Core.List.{foldl}
use sarena.Prelude.{
  Bool, not, Option, none, some, List, [], ◌∷◌, ◌++◌, map, String, ◌=?◌, string_eq, pair_eq,
  if◌then◌else◌, keep, find, all,
}
use sarena.Prelude.Map.{Map, get, insert}
use sarena.Prelude.Set.{member}
use sarena.Prelude.Set
use sarena.Net.{IpAddr, ip_eq}
use sarena.Endpoint.Error.{DataPlaneError, partial, message, Res, ok, err}
use sarena.Endpoint.Persist.{EndpointPersist, ips}
use sarena.Loader.{
  HookSpec, EndpointMap, LoaderEndpointKind, kind_eq, hooks, per_endpoint_map_names, global_maps,
  global_wire_name, endpoint_wire_name, LoaderEndpoint, container_endpoint, host_endpoint,
  net_dev_endpoint, overlay_endpoint, wireguard_endpoint, endpoint_kind, endpoint_link, PinPath,
  links_dir, endpoint_link_dir, per_endpoint_map_dir, global_map_dir, parse_pin_subpath,
}
use sarena.Loader.Backend.{BpfBackend, Method, ◌>>=◌, pure, EndpointInfo}

abbrev pub Key : Type 0
Key = LoaderEndpointKind × String

abbrev pub Failure : Type 0
Failure = LoaderEndpointKind × String × DataPlaneError

abbrev pub key_of : LoaderEndpoint → Key
key_of endpoint = (endpoint_kind endpoint, endpoint_link endpoint)

-- `match_pin`.
unfoldable pub match_pin : LoaderEndpointKind → String → Option HookSpec
match_pin kind filename = find (λ hook_spec. hook_spec.program_name =? filename) (hooks kind)

-- A relative path in its parent and its file name; an empty path has neither.
unfoldable pub parent_and_name : PinPath → Option (PinPath × String)
parent_and_name [] = none
parent_and_name (c ∷ []) = some ([], c)
parent_and_name (c ∷ d ∷ path) = elim (parent_and_name (d ∷ path)) [
  | none ↦ none
  | some (parent, name) ↦ some (c ∷ parent, name)
]

abbrev pub programs_of : Option (List String) → List String
programs_of none = []
programs_of (some names) = names

abbrev pub note_program : Map Key (List String) → Key → Option HookSpec → Map Key (List String)
note_program matched key none = matched
note_program matched key (some hook_spec) =
    insert key (Set.insert hook_spec.program_name (programs_of (get key matched))) matched

abbrev pub note_name : Map Key (List String) → String → Option Key → Map Key (List String)
note_name matched filename none = matched
note_name matched filename (some key) = note_program matched key (match_pin key.0 filename)

-- The body of the loop over the pins.
unfoldable pub note_pin : Map Key (List String) → PinPath → Map Key (List String)
unfolding parent_and_name match_pin
note_pin matched rel = elim (parent_and_name rel) [
  | none ↦ matched
  | some (parent, filename) ↦ note_name matched filename (parse_pin_subpath parent)
]

-- Every required hook of the kind was matched.
unfoldable pub is_complete : Key × List String → Bool
is_complete ((kind, link), matched_programs) =
    all (λ hook_spec. member hook_spec.program_name matched_programs)
      (keep (λ hook_spec. hook_spec.required) (hooks kind))

-- The addresses of the containers among the endpoints.
unfoldable pub wanted_ips : List LoaderEndpoint → List IpAddr
wanted_ips [] = []
wanted_ips (container_endpoint persist ∷ desired) = ips persist.spec ++ wanted_ips desired
wanted_ips (host_endpoint link ∷ desired) = wanted_ips desired
wanted_ips (net_dev_endpoint link ∷ desired) = wanted_ips desired
wanted_ips (overlay_endpoint link ∷ desired) = wanted_ips desired
wanted_ips (wireguard_endpoint link ∷ desired) = wanted_ips desired

-- The addresses in the map that no desired container owns.
abbrev pub stale_ips : List IpAddr → Map IpAddr EndpointInfo → List IpAddr
stale_ips wanted infos = keep (λ ip. not (member ip wanted)) (map (λ i. i.0) infos)

module _ (B : BpfBackend) (root : PinPath) where
  unfoldable pub global_map_pins : Map String PinPath
  global_map_pins =
      foldl (λ pins m. insert (global_wire_name m) (global_map_dir root m) pins) [] global_maps

  -- The global maps and those of the endpoint.
  unfoldable pub instance_maps : LoaderEndpointKind → String → Map String PinPath
  unfolding global_map_pins
  instance_maps kind link =
      foldl (λ maps m. insert (endpoint_wire_name m) (per_endpoint_map_dir root m link) maps)
        global_map_pins (per_endpoint_map_names kind)

  unfoldable pub write_container_maps : EndpointPersist → B.LinkType → Method B.Backend (Unit {0})
  write_container_maps endpoint link = do
    u ← B.set_endpoint_config (B.ifname link) (record {
      endpoint_id = endpoint.id;
      host_mac = endpoint.spec.host_mac;
      ipv4 = endpoint.spec.ipv4;
      ipv6 = endpoint.spec.ipv6;
    })
    B.upsert_endpoint_info endpoint (record {
      endpoint_id = endpoint.id;
      if_index = B.ifindex link;
      container_mac = endpoint.spec.container_mac;
      host_mac = endpoint.spec.host_mac;
    })

  abbrev pub write_maps : LoaderEndpoint → B.LinkType → Method B.Backend (Unit {0})
  write_maps (container_endpoint persist) resolved = write_container_maps persist resolved
  write_maps (host_endpoint link) resolved = pure tt
  write_maps (net_dev_endpoint link) resolved = pure tt
  write_maps (overlay_endpoint link) resolved = pure tt
  write_maps (wireguard_endpoint link) resolved = pure tt

  -- The failure that an answer adds: that of a required hook. An optional one is logged only.
  abbrev pub note_failure :
      HookSpec → Res (Unit {0}) → List (String × String) → List (String × String)
  note_failure hook_spec (ok u) failures = failures
  note_failure hook_spec (err e) failures =
      if hook_spec.required then (hook_spec.program_name, message e) ∷ failures else failures

  -- The loop over the hooks.
  unfoldable pub attach_hooks :
      B.Instance
      → B.LinkType
      → PinPath
      → List HookSpec
      → B.Backend
      → B.Backend × List (String × String)
  attach_hooks inst resolved dir [] s = (s, [])
  attach_hooks inst resolved dir (hook_spec ∷ specs) s =
      let (s', answer) =
        B.ensure_attached inst hook_spec.program_name hook_spec.hook resolved dir s in
      let (s'', failures) = attach_hooks inst resolved dir specs s' in
      (s'', note_failure hook_spec answer failures)

  abbrev pub check_failures : B.Backend × List (String × String) → B.Backend × Res (Unit {0})
  check_failures (s, []) = (s, ok tt)
  check_failures (s, f ∷ failures) = (s, err (partial (f ∷ failures)))

  unfoldable pub add_loader_endpoint : LoaderEndpoint → Method B.Backend (Unit {0})
  unfolding instance_maps write_container_maps attach_hooks
  add_loader_endpoint endpoint =
      let kind = endpoint_kind endpoint in
      let link = endpoint_link endpoint in
      do
        resolved ← B.resolve_link link
        inst ← B.load_instance link (instance_maps kind link)
        u ← write_maps endpoint resolved
        λ s.
            check_failures
              (attach_hooks inst resolved (endpoint_link_dir root kind link) (hooks kind) s)

  unfoldable pub unpin_maps : String → List EndpointMap → Method B.Backend (Unit {0})
  unpin_maps link [] = pure tt
  unpin_maps link (m ∷ maps) = do
    u ← B.unpin_map (per_endpoint_map_dir root m link)
    unpin_maps link maps

  unfoldable pub detach_loader_endpoint : LoaderEndpointKind → String → Method B.Backend (Unit {0})
  unfolding unpin_maps
  detach_loader_endpoint kind link s =
      (do
        u ← B.remove_pin_dir (endpoint_link_dir root kind link)
        unpin_maps link (per_endpoint_map_names kind))
        (B.stop_logging link s)

  unfoldable pub remove_infos : List IpAddr → Method B.Backend (Unit {0})
  remove_infos [] = pure tt
  remove_infos (ip ∷ rest) = do u ← B.remove_endpoint_info ip; remove_infos rest

  abbrev ips_of : LoaderEndpoint → List IpAddr
  ips_of (container_endpoint persist) = ips persist.spec
  ips_of (host_endpoint link) = []
  ips_of (net_dev_endpoint link) = []
  ips_of (overlay_endpoint link) = []
  ips_of (wireguard_endpoint link) = []

  unfoldable pub remove_loader_endpoint : LoaderEndpoint → Method B.Backend (Unit {0})
  unfolding remove_infos detach_loader_endpoint
  remove_loader_endpoint endpoint = do
    u ← remove_infos (ips_of endpoint)
    detach_loader_endpoint (endpoint_kind endpoint) (endpoint_link endpoint)

  abbrev complete_keys : Res (List PinPath) → Res (List Key)
  complete_keys (err e) = err e
  complete_keys (ok pins) = ok (map (λ m. m.0) (keep is_complete (foldl note_pin [] pins)))

  unfoldable pub list_loader_endpoints : B.Backend → Res (List Key)
  unfolding note_pin is_complete
  list_loader_endpoints s = complete_keys (B.list_pins (links_dir root) s)

  abbrev pub note_error : Key → Res (Unit {0}) → List Failure → List Failure
  note_error key (ok u) errors = errors
  note_error key (err e) errors = (key.0, key.1, e) ∷ errors

  -- The loops of `reconcile`, with the errors of each in order.
  unfoldable pub add_desired : List LoaderEndpoint → B.Backend → B.Backend × List Failure
  unfolding add_loader_endpoint
  add_desired [] s = (s, [])
  add_desired (endpoint ∷ desired) s =
      let (s', answer) = add_loader_endpoint endpoint s in
      let (s'', errors) = add_desired desired s' in
      (s'', note_error (key_of endpoint) answer errors)

  unfoldable pub detach_stale : List Key → List Key → B.Backend → B.Backend × List Failure
  unfolding detach_loader_endpoint
  detach_stale wanted [] s = (s, [])
  detach_stale wanted (key ∷ existing) s =
      let (s', answer) = detach_loader_endpoint key.0 key.1 s in
      let (s'', errors) = detach_stale wanted existing s' in
      let skipped = detach_stale wanted existing s in
      if member key wanted then skipped else (s'', note_error key answer errors)

  abbrev pub remove_stale :
      List IpAddr → List Failure → Res (Map IpAddr EndpointInfo) → Method B.Backend (List Failure)
  remove_stale wanted errors (err e) s = (s, err e)
  remove_stale wanted errors (ok infos) s =
      (do u ← remove_infos (stale_ips wanted infos); pure errors) s

  abbrev pub reconcile_listed :
      List LoaderEndpoint → List Failure → Res (List Key) → Method B.Backend (List Failure)
  reconcile_listed desired errors (err e) s = (s, err e)
  reconcile_listed desired errors (ok existing) s =
      let (s', more) = detach_stale (map key_of desired) existing s in
      remove_stale (wanted_ips desired) (errors ++ more) (B.list_endpoint_infos s') s'

  unfoldable pub reconcile : List LoaderEndpoint → Method B.Backend (List Failure)
  unfolding add_desired list_loader_endpoints detach_stale wanted_ips remove_infos
  reconcile desired s =
      let (s', errors) = add_desired desired s in
      reconcile_listed desired errors (list_loader_endpoints s') s'
