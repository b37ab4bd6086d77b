-- ===== src/Loader/Attached.antt =====
-- What the loader's calls leave in the mock backend when no failure is injected.
use sarena.Prelude.{
  ◌≡◌, refl, not, List, [], ◌∷◌, String, if◌then◌else◌, keep, pair_eq, string_eq, Bool-cases, inl,
  inr,
}
use sarena.Prelude.Map.{Map, remove}
use sarena.Prelude.Set.{member}
use sarena.Prelude.Set
use sarena.Net.{IpAddr, ip_eq}
use sarena.Endpoint.Persist.{EndpointPersist, ips}
use sarena.Loader.{
  HookSpec, EndpointMap, hooks, per_endpoint_map_names, LoaderEndpoint, container_endpoint,
  host_endpoint, net_dev_endpoint, overlay_endpoint, wireguard_endpoint, endpoint_kind,
  endpoint_link, PinPath, join, endpoint_link_dir, per_endpoint_map_dir, kind_eq,
}
use sarena.Loader.Backend.{◌>>=◌, EndpointConfig, EndpointInfo}
use sarena.Loader.Calls.{
  Key, write_container_maps, write_maps, attach_hooks, check_failures, add_loader_endpoint,
  unpin_maps, detach_loader_endpoint, remove_infos, add_desired, detach_stale, instance_maps,
}
use sarena.Loader.Mock.{
  noted, stop_logging_call, MockBackend, mock_backend, starts_with, insert_infos, path_eq,
  mock_resolve_link, mock_load_instance, mock_unpin_map, mock_remove_pin_dir,
  mock_set_endpoint_config, mock_upsert_endpoint_info, mock_remove_endpoint_info,
}
use sarena.Loader.Effects.{
  Leaves, Does, >>=-Does, resolve_link-Does, load_instance-Does, set_endpoint_config-Does,
  unpin_map-Does, upsert_endpoint_info-Does, remove_endpoint_info-Does, ensure_attached-Does,
  remove_pin_dir-Does,
}

abbrev pub zero_info : EndpointPersist → EndpointInfo
zero_info p = record {
  endpoint_id = p.id;
  if_index = 0;
  container_mac = p.spec.container_mac;
  host_mac = p.spec.host_mac;
}

abbrev config_of : EndpointPersist → EndpointConfig
config_of p = record {
  endpoint_id = p.id;
  host_mac = p.spec.host_mac;
  ipv4 = p.spec.ipv4;
  ipv6 = p.spec.ipv6;
}

-- The pins after attaching the hooks in a directory.
abbrev pub pin_all : PinPath → List HookSpec → List PinPath → List PinPath
pin_all dir [] links = links
pin_all dir (h ∷ specs) links = pin_all dir specs (Set.insert (join dir h.program_name) links)

-- The entries after adding an endpoint.
abbrev pub added_infos : LoaderEndpoint → Map IpAddr EndpointInfo → Map IpAddr EndpointInfo
added_infos (container_endpoint p) infos = insert_infos (ips p.spec) (zero_info p) infos
added_infos (host_endpoint link) infos = infos
added_infos (net_dev_endpoint link) infos = infos
added_infos (overlay_endpoint link) infos = infos
added_infos (wireguard_endpoint link) infos = infos

-- The entries after removals.
abbrev pub removed_infos : List IpAddr → Map IpAddr EndpointInfo → Map IpAddr EndpointInfo
removed_infos [] infos = infos
removed_infos (ip ∷ more) infos = removed_infos more (remove ip infos)

-- The entries after the loop over the desired endpoints.
abbrev pub all_infos : List LoaderEndpoint → Map IpAddr EndpointInfo → Map IpAddr EndpointInfo
all_infos [] infos = infos
all_infos (e ∷ desired) infos = all_infos desired (added_infos e infos)

module _ (root : PinPath) where
  abbrev pub added_links : LoaderEndpoint → List PinPath → List PinPath
  added_links e links =
      pin_all (endpoint_link_dir root (endpoint_kind e) (endpoint_link e)) (hooks (endpoint_kind e))
        links

  write_maps-Does :
      (e : LoaderEndpoint) (link : String) (infos : Map IpAddr EndpointInfo) (links : List PinPath)
      (s : MockBackend)
      → Leaves infos links s
      → Does tt (added_infos e infos) links (write_maps mock_backend root e link s)
  unfolding write_container_maps
  write_maps-Does (container_endpoint p) link infos links s h =
      >>=-Does (mock_set_endpoint_config link (config_of p))
        (λ u. mock_upsert_endpoint_info p (zero_info p)) tt tt infos _ links links s
        (set_endpoint_config-Does infos links s h link (config_of p))
        (λ s' l. upsert_endpoint_info-Does infos links s' l p (zero_info p))
  write_maps-Does (host_endpoint l) link infos links s h = record { answers = refl; leaves = h }
  write_maps-Does (net_dev_endpoint l) link infos links s h = record { answers = refl; leaves = h }
  write_maps-Does (overlay_endpoint l) link infos links s h = record { answers = refl; leaves = h }
  write_maps-Does (wireguard_endpoint l) link infos links s h = record {
    answers = refl;
    leaves = h;
  }

  attach_hooks_lem :
      (link : String) (dir : PinPath) (specs : List HookSpec) (infos : Map IpAddr EndpointInfo)
      (links : List PinPath) (s : MockBackend)
      → Leaves infos links s
      → Leaves infos
          (pin_all dir specs links)
          (attach_hooks mock_backend root tt link dir specs s).0
        × ((attach_hooks mock_backend root tt link dir specs s).1 ≡ [])
  unfolding attach_hooks
  attach_hooks_lem link dir [] infos links s h = (h, refl)
  attach_hooks_lem link dir (spec ∷ specs) infos links s h =
      let d = ensure_attached-Does infos links s h spec.program_name spec.hook link dir in
      let (rest, none_failed) =
        attach_hooks_lem link dir specs infos (Set.insert (join dir spec.program_name) links) _
          d.leaves in
      (rest, rw (d.answers, none_failed) refl)

  attached :
      (link : String) (dir : PinPath) (specs : List HookSpec) (infos : Map IpAddr EndpointInfo)
      (links : List PinPath) (r : MockBackend × List (String × String))
      → Leaves infos (pin_all dir specs links) r.0 × (r.1 ≡ [])
      → Does tt infos (pin_all dir specs links) (check_failures mock_backend root r)
  attached link dir specs infos links (s, []) h = record { answers = refl; leaves = h.0 }
  attached link dir specs infos links (s, f ∷ failures) h = absurd (cc h.1)

  pub add_loader_endpoint-Does :
      (e : LoaderEndpoint) (infos : Map IpAddr EndpointInfo) (links : List PinPath)
      (s : MockBackend)
      → Leaves infos links s
      → Does tt
          (added_infos e infos)
          (added_links e links)
          (add_loader_endpoint mock_backend root e s)
  unfolding add_loader_endpoint
  add_loader_endpoint-Does e infos links s h =
      let kind = endpoint_kind e in
      let link = endpoint_link e in
      let dir = endpoint_link_dir root kind link in
      let maps = instance_maps mock_backend root kind link in
      let attach = λ (u : Unit {0}) (s' : MockBackend).
        check_failures mock_backend root
          (attach_hooks mock_backend root tt link dir (hooks kind) s') in
      let write =
        λ (u : Unit {0}) (s' : MockBackend). (write_maps mock_backend root e link >>= attach) s' in
      >>=-Does (mock_resolve_link link)
        (λ resolved. mock_load_instance maps >>= λ inst.
          write_maps mock_backend root e resolved >>= λ u s'.
          check_failures mock_backend root
            (attach_hooks mock_backend root inst resolved dir (hooks kind) s'))
        link tt infos (added_infos e infos) links (added_links e links) s
        (resolve_link-Does infos links s h link)
        λ s1 h1.
          >>=-Does (mock_load_instance maps) write tt tt infos (added_infos e infos) links
            (added_links e links) s1 (load_instance-Does infos links s1 h1 maps)
            λ s2 h2.
              >>=-Does (write_maps mock_backend root e link) attach tt tt (added_infos e infos)
                (added_infos e infos) links (added_links e links) s2
                (write_maps-Does e link infos links s2 h2)
                λ s3 h3.
                  attached link dir (hooks kind) (added_infos e infos) links
                    (attach_hooks mock_backend root tt link dir (hooks kind) s3)
                    (attach_hooks_lem link dir (hooks kind) (added_infos e infos) links s3 h3)

  unpin_maps-Does :
      (link : String) (maps : List EndpointMap) (infos : Map IpAddr EndpointInfo)
      (links : List PinPath) (s : MockBackend)
      → Leaves infos links s
      → Does tt infos links (unpin_maps mock_backend root link maps s)
  unfolding unpin_maps
  unpin_maps-Does link [] infos links s h = record { answers = refl; leaves = h }
  unpin_maps-Does link (m ∷ maps) infos links s h =
      let path = per_endpoint_map_dir root m link in
      >>=-Does (mock_unpin_map path) (λ u. unpin_maps mock_backend root link maps) tt tt infos infos
        links links s (unpin_map-Does infos links s h path)
        (λ s' h'. unpin_maps-Does link maps infos links s' h')

  -- The pins after detaching an endpoint.
  abbrev pub without_pins : Key → List PinPath → List PinPath
  without_pins key links =
      keep (λ p. not (starts_with p (endpoint_link_dir root key.0 key.1))) links

  pub detach_loader_endpoint-Does :
      (key : Key) (infos : Map IpAddr EndpointInfo) (links : List PinPath) (s : MockBackend)
      → Leaves infos links s
      → Does tt infos
          (without_pins key links)
          (detach_loader_endpoint mock_backend root key.0 key.1 s)
  unfolding detach_loader_endpoint
  detach_loader_endpoint-Does key infos links s h =
      let dir = endpoint_link_dir root key.0 key.1 in
      let s' = noted (stop_logging_call key.1) s in
      let h' : Leaves infos links s' = record {
        quiet = h.quiet;
        infos_are = h.infos_are;
        links_are = h.links_are;
      } in
      >>=-Does (mock_remove_pin_dir dir)
        (λ u. unpin_maps mock_backend root key.1 (per_endpoint_map_names key.0)) tt tt infos infos
        (without_pins key links) (without_pins key links) s'
        (remove_pin_dir-Does infos links s' h' dir)
        (λ s'' h''.
          unpin_maps-Does key.1 (per_endpoint_map_names key.0) infos (without_pins key links) s''
            h'')

  pub remove_infos-Does :
      (ips : List IpAddr) (infos : Map IpAddr EndpointInfo) (links : List PinPath) (s : MockBackend)
      → Leaves infos links s
      → Does tt (removed_infos ips infos) links (remove_infos mock_backend root ips s)
  unfolding remove_infos
  remove_infos-Does [] infos links s h = record { answers = refl; leaves = h }
  remove_infos-Does (ip ∷ more) infos links s h =
      >>=-Does (mock_remove_endpoint_info ip) (λ u. remove_infos mock_backend root more) tt tt
        (remove ip infos) (removed_infos more (remove ip infos)) links links s
        (remove_endpoint_info-Does infos links s h ip)
        (λ s' h'. remove_infos-Does more (remove ip infos) links s' h')

  abbrev pub all_links : List LoaderEndpoint → List PinPath → List PinPath
  all_links [] links = links
  all_links (e ∷ desired) links = all_links desired (added_links e links)

  pub add_desired_lem :
      (desired : List LoaderEndpoint) (infos : Map IpAddr EndpointInfo) (links : List PinPath)
      (s : MockBackend)
      → Leaves infos links s
      → Leaves
          (all_infos desired infos)
          (all_links desired links)
          (add_desired mock_backend root desired s).0
        × ((add_desired mock_backend root desired s).1 ≡ [])
  unfolding add_desired
  add_desired_lem [] infos links s h = (h, refl)
  add_desired_lem (e ∷ desired) infos links s h =
      let d = add_loader_endpoint-Does e infos links s h in
      let (rest, no_errors) =
        add_desired_lem desired (added_infos e infos) (added_links e links) _ d.leaves in
      (rest, rw (d.answers, no_errors) refl)

  -- The pins after detaching what is not wanted.
  abbrev pub kept_links : List Key → List Key → List PinPath → List PinPath
  kept_links wanted [] links = links
  kept_links wanted (key ∷ existing) links =
      kept_links wanted existing (if member key wanted then links else without_pins key links)

  pub detach_stale_lem :
      (wanted existing : List Key) (infos : Map IpAddr EndpointInfo) (links : List PinPath)
      (s : MockBackend)
      → Leaves infos links s
      → Leaves infos
          (kept_links wanted existing links)
          (detach_stale mock_backend root wanted existing s).0
        × ((detach_stale mock_backend root wanted existing s).1 ≡ [])
  unfolding detach_stale
  detach_stale_lem wanted [] infos links s h = (h, refl)
  detach_stale_lem wanted (key ∷ existing) infos links s h = elim (Bool-cases (member key wanted)) [
    | inl e ↦ rw e (detach_stale_lem wanted existing infos links s h)
    | inr e ↦
        let d = detach_loader_endpoint-Does key infos links s h in
        let (rest, no_errors) =
          detach_stale_lem wanted existing infos (without_pins key links) _ d.leaves in
        rw e (rest, rw (d.answers, no_errors) refl)
  ]
