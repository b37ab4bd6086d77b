-- ===== src/Loader/Reconcile.antt =====
-- What `reconcile` does on the mock backend when no failure is injected.
use sarena.Prelude.{◌≡◌, true, false, List, [], map, All, string_eq, pair_eq}
use sarena.Prelude.Map.{Map, get, is_some}
use sarena.Prelude.Set.{member}
use sarena.Net.{IpAddr, ip_eq}
use sarena.Endpoint.Error.{Res, ok}
use sarena.Loader.{LoaderEndpoint, kind_eq, PinPath, endpoint_link_dir}
use sarena.Loader.Calls.{Key, Failure, key_of, wanted_ips}
use sarena.Loader.Mock.{MockBackend, path_eq, starts_with}
use sarena.Loader.Pins.{IsAttached}
use sarena.Loader.Stale.{IsPinned}

-- Nothing failed, the entries are those of the desired containers' addresses, every desired endpoint
-- is attached, and none that was attached before and is not desired has a pin left.
pub record Reconciled (root : PinPath) (desired : List LoaderEndpoint) (links : List PinPath)
    (r : MockBackend × Res (List Failure)) : Type 0 where
  pub answers : r.1 ≡ ok []
  pub entries : (ip : IpAddr) → is_some (get ip r.0.endpoint_infos) ≡ member ip (wanted_ips desired)
  pub attached : All (IsAttached root r.0.links) desired
  pub detached :
      (key : Key)
      → IsPinned root links key
      → member key (map key_of desired) ≡ false
      → (p : PinPath) → starts_with p (endpoint_link_dir root key.0 key.1) ≡ true
      → member p r.0.links ≡ false
