-- ===== src/Loader/Mock.antt =====
-- sarena-data-plane/src/loader/mock_backend.rs: a backend that keeps its maps, pins and entries in
-- memory, notes the calls, and fails the call with a chosen number. A `MockLink` is its name.
use sarena.Prelude.{
  ℕ, ◌≡◌, ◌↔◌, refl, ◌+◌, Bool, true, false, ◌&&◌, not, Option, none, some, List, [], ◌∷◌, ◌++◌,
  map, String, ◌==◌, Eq, ◌=?◌, string_eq, pair_eq, if◌then◌else◌, keep, arith,
}
use sarena.Prelude.Map.{Map, insert, remove, is_some}
use sarena.Prelude.Set
use sarena.Net.{IpAddr, ip_eq}
use sarena.Endpoint.Error.{injected, Res, ok, err}
use sarena.Endpoint.IdAllocator.{EndpointId}
use sarena.Endpoint.Persist.{EndpointPersist, ips}
use sarena.Loader.{Hook, PinPath, join}
use sarena.Loader.Backend.{BpfBackend, Method, EndpointConfig, EndpointInfo, ◌>>=◌}

abbrev pub path_beq : PinPath → PinPath → Bool
path_beq [] [] = true
path_beq [] (y ∷ ys) = false
path_beq (x ∷ xs) [] = false
path_beq (x ∷ xs) (y ∷ ys) = x =? y && path_beq xs ys

pub path_beq_iff : (xs ys : PinPath) → (path_beq xs ys ≡ true) ↔ (xs ≡ ys)
path_beq_iff [] [] = (λ h. refl, λ h. refl)
path_beq_iff [] (y ∷ ys) = (λ h. cc, λ h. cc)
path_beq_iff (x ∷ xs) [] = (λ h. cc, λ h. cc)
path_beq_iff (x ∷ xs) (y ∷ ys) =
    let ih = path_beq_iff xs ys in
    (
      λ h. ground (arith, ih.0, string_eq.beq_iff x y),
      λ h. ground (arith, ih.1, string_eq.beq_iff x y),
    )

instance abbrev pub path_eq : Eq PinPath
path_eq = record { beq = path_beq; beq_iff = path_beq_iff }

-- `path.starts_with(prefix)`, by components, and `strip_prefix`.
unfoldable pub strip_prefix : PinPath → PinPath → Option PinPath
strip_prefix [] path = some path
strip_prefix (c ∷ prefix) [] = none
strip_prefix (c ∷ prefix) (d ∷ path) =
    let rest = strip_prefix prefix path in if c =? d then rest else none

abbrev pub starts_with : PinPath → PinPath → Bool
starts_with path prefix = is_some (strip_prefix prefix path)

pub data Call : Type 0 where
  resolve_link_call : String → Call
  load_global_maps_call load_instance_call : List (String × PinPath) → Call
  ensure_attached_call : String → Hook → String → Call
  unpin_map_call remove_pin_dir_call : PinPath → Call
  set_endpoint_config_call : String → Call
  upsert_endpoint_info_call : EndpointId → Call
  remove_endpoint_info_call : IpAddr → Call
  stop_logging_call : String → Call
  stop_all_logging_call : Call

pub record MockBackend : Type 0 where
  pub calls : List Call
  pub maps : Map String PinPath
  pub links : List PinPath
  pub endpoint_infos : Map IpAddr EndpointInfo
  pub call_count : ℕ
  pub fail_at : Option (ℕ × String)

-- `MockBackend::new`.
abbrev pub new_mock : MockBackend
new_mock = record {
  calls = [];
  maps = [];
  links = [];
  endpoint_infos = [];
  call_count = 0;
  fail_at = none;
}

-- A failure is injected once.
unfoldable pub tick : Method MockBackend (Unit {0})
tick s =
    let counted : MockBackend = record s { call_count = s.call_count + 1 } in
    elim s.fail_at [
      | none ↦ (counted, ok tt)
      | some (n, msg) ↦
          if s.call_count == n
          then (record counted { fail_at = none }, err (injected msg))
          else (counted, ok tt)
    ]

abbrev pub noted : Call → MockBackend → MockBackend
noted call s = record s { calls = s.calls ++ call ∷ [] }

-- A method after its tick: its call is noted and `f` changes the state.
abbrev pub method : {A : Type 0} → Call → (MockBackend → MockBackend) → A → Method MockBackend A
method call f a = tick >>= λ u s. (f (noted call s), ok a)

-- `maps.insert` for each of the maps.
unfoldable pub insert_maps : Map String PinPath → Map String PinPath → Map String PinPath
insert_maps [] maps = maps
insert_maps ((name, path) ∷ more) maps = insert_maps more (insert name path maps)

unfoldable pub insert_infos :
    List IpAddr → EndpointInfo → Map IpAddr EndpointInfo → Map IpAddr EndpointInfo
insert_infos [] info infos = infos
insert_infos (ip ∷ more) info infos = insert_infos more info (insert ip info infos)

unfoldable pub pins_below : PinPath → List PinPath → List PinPath
unfolding strip_prefix
pins_below prefix [] = []
pins_below prefix (path ∷ paths) =
    let rest = pins_below prefix paths in
    elim (strip_prefix prefix path) [ none ↦ rest | some rel ↦ rel ∷ rest ]

unfoldable pub mock_ensure_attached :
    String → Hook → String → PinPath → Method MockBackend (Unit {0})
mock_ensure_attached program hook ifname dir =
    method (ensure_attached_call program hook ifname)
      (λ s. record s { links = Set.insert (join dir program) s.links }) tt

unfoldable pub mock_remove_pin_dir : PinPath → Method MockBackend (Unit {0})
unfolding strip_prefix
mock_remove_pin_dir dir =
    method (remove_pin_dir_call dir)
      (λ s. record s {
        maps = keep (λ m. not (starts_with m.1 dir)) s.maps;
        links = keep (λ p. not (starts_with p dir)) s.links;
      })
      tt

unfoldable pub mock_unpin_map : PinPath → Method MockBackend (Unit {0})
mock_unpin_map path =
    method (unpin_map_call path) (λ s. record s { maps = keep (λ m. not (m.1 =? path)) s.maps }) tt

unfoldable pub mock_upsert_endpoint_info :
    EndpointPersist → EndpointInfo → Method MockBackend (Unit {0})
unfolding insert_infos
mock_upsert_endpoint_info endpoint info =
    method (upsert_endpoint_info_call endpoint.id)
      (λ s. record s { endpoint_infos = insert_infos (ips endpoint.spec) info s.endpoint_infos }) tt

unfoldable pub mock_remove_endpoint_info : IpAddr → Method MockBackend (Unit {0})
mock_remove_endpoint_info ip =
    method (remove_endpoint_info_call ip)
      (λ s. record s { endpoint_infos = remove ip s.endpoint_infos }) tt

unfoldable pub mock_load_instance : Map String PinPath → Method MockBackend (Unit {0})
unfolding insert_maps
mock_load_instance maps =
    method (load_instance_call maps) (λ s. record s { maps = insert_maps maps s.maps }) tt

unfoldable pub mock_load_global_maps : Map String PinPath → Method MockBackend (Unit {0})
unfolding insert_maps
mock_load_global_maps maps =
    method (load_global_maps_call maps) (λ s. record s { maps = insert_maps maps s.maps }) tt

unfoldable pub mock_resolve_link : String → Method MockBackend String
mock_resolve_link link = method (resolve_link_call link) (λ s. s) link

unfoldable pub mock_set_endpoint_config : String → EndpointConfig → Method MockBackend (Unit {0})
mock_set_endpoint_config link config = method (set_endpoint_config_call link) (λ s. s) tt

unfoldable pub mock_list_pins : PinPath → MockBackend → Res (List PinPath)
unfolding pins_below
mock_list_pins prefix s =
    ok (pins_below prefix (map (λ m. m.1) s.maps) ++ pins_below prefix s.links)

-- The index of a link is that of `MockLink::default`.
abbrev pub mock_backend : BpfBackend
mock_backend = record {
  Backend = MockBackend;
  Instance = Unit {0};
  LinkType = String;
  ifname = λ link. link;
  ifindex = λ link. 0;
  resolve_link = mock_resolve_link;
  load_global_maps = mock_load_global_maps;
  load_instance = λ link maps. mock_load_instance maps;
  ensure_attached = λ inst program hook link dir. mock_ensure_attached program hook link dir;
  unpin_map = mock_unpin_map;
  remove_pin_dir = mock_remove_pin_dir;
  list_pins = mock_list_pins;
  set_endpoint_config = mock_set_endpoint_config;
  upsert_endpoint_info = mock_upsert_endpoint_info;
  remove_endpoint_info = mock_remove_endpoint_info;
  list_endpoint_infos = λ s. ok s.endpoint_infos;
  stop_logging = λ link s. noted (stop_logging_call link) s;
  stop_all_logging = λ s. noted stop_all_logging_call s;
}
