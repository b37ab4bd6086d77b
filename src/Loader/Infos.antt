-- ===== src/Loader/Infos.antt =====
-- Which addresses the loader's steps leave in the map of the endpoint infos.
use sarena.Prelude.{◌≡◌, refl, Bool, not, ◌&&◌, ◌||◌, List, [], ◌∷◌, ◌++◌, map, keep, Eq, arith}
use sarena.Prelude.Map.{Map, get, insert, remove, is_some, get-insert, get-remove}
use sarena.Prelude.Set.{member}
use sarena.Net.{IpAddr, ip_eq}
use sarena.Endpoint.Persist.{ips}
use sarena.Loader.{
  LoaderEndpoint, container_endpoint, host_endpoint, net_dev_endpoint, overlay_endpoint,
  wireguard_endpoint,
}
use sarena.Loader.Backend.{EndpointInfo}
use sarena.Loader.Calls.{wanted_ips, stale_ips}
use sarena.Loader.Mock.{insert_infos}
use sarena.Loader.Attached.{added_infos, all_infos, removed_infos, zero_info}

pub member-keep {ℓ} :
    {A : Type ℓ} ⦃e : Eq A⦄ (q : A → Bool) (a : A) (xs : List A)
    → member a (keep q xs) ≡ (q a && member a xs)
unfolding member
member-keep q a [] = ground arith
member-keep ⦃e⦄ q a (x ∷ xs) = ground (arith, e.beq_iff x a, member-keep q a xs)

pub member-append {ℓ} :
    {A : Type ℓ} ⦃e : Eq A⦄ (a : A) (xs ys : List A)
    → member a (xs ++ ys) ≡ (member a xs || member a ys)
unfolding member
member-append a [] ys = refl
member-append a (x ∷ xs) ys = ground (arith, member-append a xs ys)

is_some-get :
    (ip : IpAddr) (m : Map IpAddr EndpointInfo) → member ip (map (λ i. i.0) m) ≡ is_some (get ip m)
unfolding member get
is_some-get ip [] = refl
is_some-get ip ((j, v) ∷ m) = ground (arith, is_some-get ip m)

get-insert_infos :
    (ip : IpAddr) (xs : List IpAddr) (info : EndpointInfo) (m : Map IpAddr EndpointInfo)
    → is_some (get ip (insert_infos xs info m)) ≡ (member ip xs || is_some (get ip m))
unfolding member insert_infos
get-insert_infos ip [] info m = refl
get-insert_infos ip (x ∷ xs) info m =
    ground (arith, get-insert_infos ip xs info (insert x info m), get-insert x ip info m)

get-all_infos :
    (ip : IpAddr) (desired : List LoaderEndpoint) (m : Map IpAddr EndpointInfo)
    → is_some (get ip (all_infos desired m))
      ≡ (member ip (wanted_ips desired) || is_some (get ip m))
unfolding member wanted_ips
get-all_infos ip [] m = refl
get-all_infos ip (container_endpoint p ∷ desired) m = ground (
  arith,
  get-all_infos ip desired (added_infos (container_endpoint p) m),
  get-insert_infos ip (ips p.spec) (zero_info p) m,
  member-append ip (ips p.spec) (wanted_ips desired),
)
get-all_infos ip (host_endpoint l ∷ desired) m = get-all_infos ip desired m
get-all_infos ip (net_dev_endpoint l ∷ desired) m = get-all_infos ip desired m
get-all_infos ip (overlay_endpoint l ∷ desired) m = get-all_infos ip desired m
get-all_infos ip (wireguard_endpoint l ∷ desired) m = get-all_infos ip desired m

get-removed_infos :
    (ip : IpAddr) (xs : List IpAddr) (m : Map IpAddr EndpointInfo)
    → is_some (get ip (removed_infos xs m)) ≡ (not (member ip xs) && is_some (get ip m))
unfolding member
get-removed_infos ip [] m = refl
get-removed_infos ip (x ∷ xs) m =
    ground (arith, get-removed_infos ip xs (remove x m), get-remove x ip m)

-- The addresses that remain are those of the desired containers.
pub get-reconciled :
    (ip : IpAddr) (desired : List LoaderEndpoint) (m : Map IpAddr EndpointInfo)
    → is_some (
        get ip (
          removed_infos
            (stale_ips (wanted_ips desired) (all_infos desired m))
            (all_infos desired m)))
      ≡ member ip (wanted_ips desired)
get-reconciled ip desired m =
    let all = all_infos desired m in
    let wanted = wanted_ips desired in
    ground (
      arith,
      get-removed_infos ip (stale_ips wanted all) all,
      member-keep (λ i. not (member i wanted)) ip (map (λ i. i.0) all),
      is_some-get ip all,
      get-all_infos ip desired m,
    )
