-- ===== src/Loader/Effects.antt =====
-- What each call leaves in the mock backend when no failure is injected.
use sarena.Prelude.{ℕ, ◌≡◌, refl, ap, not, Option, none, some, List, String, keep, ◌=?◌}
use sarena.Prelude.Map.{Map, remove}
use sarena.Prelude.Set.{member}
use sarena.Prelude.Set
use sarena.Net.{IpAddr, ip_eq}
use sarena.Endpoint.Error.{Res, ok, err}
use sarena.Endpoint.Persist.{EndpointPersist, ips}
use sarena.Loader.{Hook, PinPath, join, kind_eq}
use sarena.Loader.Backend.{Method, ◌>>=◌, EndpointConfig, EndpointInfo}
use sarena.Loader.Mock.{
  Call, method, noted, insert_maps, load_instance_call, resolve_link_call, set_endpoint_config_call,
  unpin_map_call, upsert_endpoint_info_call, remove_endpoint_info_call, ensure_attached_call,
  remove_pin_dir_call, MockBackend, starts_with, insert_infos, path_eq, tick, mock_resolve_link,
  mock_load_instance, mock_ensure_attached, mock_unpin_map, mock_remove_pin_dir,
  mock_set_endpoint_config, mock_upsert_endpoint_info, mock_remove_endpoint_info,
}

-- The state after a call: no failure is pending, and these are its entries and pins.
pub record Leaves (infos : Map IpAddr EndpointInfo) (links : List PinPath) (s : MockBackend)
    : Type 0 where
  pub quiet : s.fail_at ≡ none
  pub infos_are : s.endpoint_infos ≡ infos
  pub links_are : s.links ≡ links

-- A call that answers `Ok`.
pub record Does {A : Type 0} (a : A) (infos : Map IpAddr EndpointInfo) (links : List PinPath)
    (r : MockBackend × Res A) : Type 0 where
  pub answers : r.1 ≡ ok a
  pub leaves : Leaves infos links r.0

module _ {A B : Type 0} where
  pub >>=-Does :
      (m : Method MockBackend A) (f : A → Method MockBackend B) (a : A) (b : B)
      (i i' : Map IpAddr EndpointInfo) (l l' : List PinPath) (s : MockBackend)
      → Does a i l (m s)
      → ((s' : MockBackend) → Leaves i l s' → Does b i' l' (f a s'))
      → Does b i' l' ((m >>= f) s)
  >>=-Does m f a b i i' l l' s d k = by_answer (m s) d
    where
      by_answer :
          (r : MockBackend × Res A)
          → Does a i l r
          → Does b i' l'
              (elim r.1 as (λ _. MockBackend × Res B) [ err e ↦ (r.0, err e) | ok x ↦ f x r.0 ])
      by_answer (s', ok x) h = let e : x ≡ a = cc h.answers in rw e (k s' h.leaves)
      by_answer (s', err e) h = absurd (cc h.answers)

module _ (infos : Map IpAddr EndpointInfo) (links : List PinPath) (s : MockBackend)
    (h : Leaves infos links s) where
  tick-Does : Does tt infos links (tick s)
  unfolding tick
  tick-Does = by_fault s.fail_at h.quiet
    where
      by_fault :
          (o : Option (ℕ × String))
          → o ≡ none
          → Does tt infos links (tick (record s { fail_at = o }))
      by_fault none e = record {
        answers = refl;
        leaves = record { quiet = refl; infos_are = h.infos_are; links_are = h.links_are };
      }
      by_fault (some f) e = absurd (cc e)

  method-Does :
      {A : Type 0} (call : Call) (f : MockBackend → MockBackend) (a : A)
      (infos' : Map IpAddr EndpointInfo) (links' : List PinPath)
      → ((s' : MockBackend) → Leaves infos links s' → Leaves infos' links' (f s'))
      → Does a infos' links' (method call f a s)
  method-Does call f a infos' links' k =
      >>=-Does tick (λ u s'. (f (noted call s'), ok a)) tt a infos infos' links links' s tick-Does
        λ s' l. record {
          answers = refl;
          leaves =
              k (noted call s')
                (record { quiet = l.quiet; infos_are = l.infos_are; links_are = l.links_are });
        }

  pub resolve_link-Does : (link : String) → Does link infos links (mock_resolve_link link s)
  unfolding mock_resolve_link
  resolve_link-Does link =
      method-Does (resolve_link_call link) (λ s'. s') link infos links (λ s' l. l)

  pub load_instance-Does :
      (maps : Map String PinPath) → Does tt infos links (mock_load_instance maps s)
  unfolding mock_load_instance
  load_instance-Does maps =
      method-Does (load_instance_call maps) (λ s'. record s' { maps = insert_maps maps s'.maps }) tt
        infos links
        λ s' l. record { quiet = l.quiet; infos_are = l.infos_are; links_are = l.links_are }

  pub set_endpoint_config-Does :
      (link : String) (config : EndpointConfig)
      → Does tt infos links (mock_set_endpoint_config link config s)
  unfolding mock_set_endpoint_config
  set_endpoint_config-Does link config =
      method-Does (set_endpoint_config_call link) (λ s'. s') tt infos links (λ s' l. l)

  pub unpin_map-Does : (path : PinPath) → Does tt infos links (mock_unpin_map path s)
  unfolding mock_unpin_map
  unpin_map-Does path =
      method-Does (unpin_map_call path)
        (λ s'. record s' { maps = keep (λ m. not (m.1 =? path)) s'.maps }) tt infos links
        λ s' l. record { quiet = l.quiet; infos_are = l.infos_are; links_are = l.links_are }

  pub upsert_endpoint_info-Does :
      (p : EndpointPersist) (info : EndpointInfo)
      → Does tt (insert_infos (ips p.spec) info infos) links (mock_upsert_endpoint_info p info s)
  unfolding mock_upsert_endpoint_info
  upsert_endpoint_info-Does p info =
      method-Does (upsert_endpoint_info_call p.id)
        (λ s'. record s' { endpoint_infos = insert_infos (ips p.spec) info s'.endpoint_infos }) tt
        (insert_infos (ips p.spec) info infos) links
        λ s' l. record {
          quiet = l.quiet;
          infos_are = ap (insert_infos (ips p.spec) info) l.infos_are;
          links_are = l.links_are;
        }

  pub remove_endpoint_info-Does :
      (ip : IpAddr) → Does tt (remove ip infos) links (mock_remove_endpoint_info ip s)
  unfolding mock_remove_endpoint_info
  remove_endpoint_info-Does ip =
      method-Does (remove_endpoint_info_call ip)
        (λ s'. record s' { endpoint_infos = remove ip s'.endpoint_infos }) tt (remove ip infos)
        links
        λ s' l. record {
          quiet = l.quiet;
          infos_are = ap (remove ip) l.infos_are;
          links_are = l.links_are;
        }

  pub ensure_attached-Does :
      (program : String) (hook : Hook) (link : String) (dir : PinPath)
      → Does tt infos
          (Set.insert (join dir program) links)
          (mock_ensure_attached program hook link dir s)
  unfolding mock_ensure_attached
  ensure_attached-Does program hook link dir =
      method-Does (ensure_attached_call program hook link)
        (λ s'. record s' { links = Set.insert (join dir program) s'.links }) tt infos
        (Set.insert (join dir program) links)
        λ s' l. record {
          quiet = l.quiet;
          infos_are = l.infos_are;
          links_are = ap (Set.insert (join dir program)) l.links_are;
        }

  pub remove_pin_dir-Does :
      (dir : PinPath)
      → Does tt infos (keep (λ p. not (starts_with p dir)) links) (mock_remove_pin_dir dir s)
  unfolding mock_remove_pin_dir
  remove_pin_dir-Does dir =
      method-Does (remove_pin_dir_call dir)
        (λ s'. record s' {
          maps = keep (λ m. not (starts_with m.1 dir)) s'.maps;
          links = keep (λ p. not (starts_with p dir)) s'.links;
        })
        tt infos (keep (λ p. not (starts_with p dir)) links)
        λ s' l. record {
          quiet = l.quiet;
          infos_are = l.infos_are;
          links_are = ap (keep (λ p. not (starts_with p dir))) l.links_are;
        }
