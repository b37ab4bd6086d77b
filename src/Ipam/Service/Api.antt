-- ===== src/Ipam/Service/Api.antt =====
-- sarena-services/src/ipam/service.rs: `allocate_next` and the methods of the `IpamService` trait.
use Prim.Native.String.{◌++◌}
use mathlib.Core.Option
use sarena.Prelude.{
  ℕ, Bool, true, false, ◌&&◌, Option, none, some, [], ◌∷◌, String, ◌=?◌, string_eq, if◌then◌else◌,
}
use sarena.Prelude.Map.{Map, insert, is_some}
use sarena.Net.{IpAddr, Family, ipv4, ipv6}
use sarena.Net.Text.{ip_to_string}
use sarena.Ipam.Error.{Res, ok, err, pool_default}
use sarena.Ipam.HostScope.{HostScopeAllocator}
use sarena.Ipam.HostScope
use sarena.Ipam.Service.{
  AllocationResult, State, DefaultIpamService, unwrap_or, get_ip_owner, release_ip, allocate_ip,
  allocate_next_family,
}

abbrev pub Results : Type 0
Results = Option AllocationResult × Option AllocationResult

abbrev pub wants : Family → Option Family → Bool
wants f none = true
wants ipv4 (some ipv4) = true
wants ipv6 (some ipv6) = true
wants ipv4 (some ipv6) = false
wants ipv6 (some ipv4) = false

-- The IPv4 half, after the IPv6 half; its failure gives the IPv6 address back.
unfoldable pub then_ipv4 :
    (ℕ → ℕ)
    → Bool
    → State
    → Option AllocationResult
    → String
    → String
    → Option (State × Res Results)
then_ipv4 draws false s ipv6_result owner pool = some (s, ok (none, ipv6_result))
then_ipv4 draws true s ipv6_result owner pool =
    elim (allocate_next_family draws ipv4 s owner pool) [
      | none ↦ none
      | some (s', ok result) ↦ some (s', ok (some result, ipv6_result))
      | some (s', err e) ↦ elim ipv6_result [
        | none ↦ some (s', err e)
        | some r ↦ some ((release_ip s' r.ip r.ip_pool_name).0, err e)
      ]
    ]

-- `draws6` and `draws4` are the samples that the two allocators draw.
unfoldable pub allocate_next :
    (ℕ → ℕ) → (ℕ → ℕ) → State → Option Family → String → String → Option (State × Res Results)
unfolding then_ipv4
allocate_next draws6 draws4 s family owner pool =
    let use_ipv6 = wants ipv6 family && is_some s.ipv6_allocator in
    let use_ipv4 = wants ipv4 family && is_some s.ipv4_allocator in
    if use_ipv6
    then (elim (allocate_next_family draws6 ipv6 s owner pool) [
      | none ↦ none
      | some (s', err e) ↦ some (s', err e)
      | some (s', ok result) ↦ then_ipv4 draws4 use_ipv4 s' (some result) owner pool
    ])
    else then_ipv4 draws4 use_ipv4 s none owner pool

pub record ContainerAddressing : Type 0 where
  pub ip : String
  pub pool : Option String

pub record HostAddressing : Type 0 where
  pub ipv4 : Option String
  pub ipv6 : Option String

pub record IpamAllocateResponse : Type 0 where
  pub host_addressing : HostAddressing
  pub ipv4 : Option ContainerAddressing
  pub ipv6 : Option ContainerAddressing

abbrev pub parse_family : Option String → Option Family
parse_family none = none
parse_family (some text) =
    if text =? "ipv4" then some ipv4 else if text =? "ipv6" then some ipv6 else none

abbrev pub addressing : AllocationResult → ContainerAddressing
addressing r = record { ip = ip_to_string r.ip; pool = some r.ip_pool_name }

abbrev response : IpAddr → Results → IpamAllocateResponse
response gateway_ip results = record {
  host_addressing = record { ipv4 = some (ip_to_string gateway_ip); ipv6 = none };
  ipv4 = Option.map addressing results.0;
  ipv6 = Option.map addressing results.1;
}

-- The methods of the trait, which replace what the caller leaves out.
pub service_allocate :
    (ℕ → ℕ)
    → (ℕ → ℕ)
    → DefaultIpamService
    → Option String
    → Option String
    → Option String
    → Option (DefaultIpamService × Res IpamAllocateResponse)
service_allocate draws6 draws4 svc family owner pool =
    elim (allocate_next draws6 draws4 svc.state (parse_family family) (unwrap_or "" owner)
      (unwrap_or pool_default pool)) [
        | none ↦ none
        | some (s, err e) ↦ some (record svc { state = s }, err e)
        | some (s, ok results) ↦
            some (record svc { state = s }, ok (response svc.gateway_ip results))
      ]

pub service_allocate_ip :
    DefaultIpamService
    → IpAddr
    → Option String
    → Option String
    → DefaultIpamService × Res (Unit {0})
service_allocate_ip svc ip owner pool =
    let (s, answer) = allocate_ip svc.state ip (unwrap_or "" owner) (unwrap_or pool_default pool) in
    (record svc { state = s }, elim answer [ ok r ↦ ok tt | err e ↦ err e ])

pub service_release :
    DefaultIpamService → IpAddr → Option String → DefaultIpamService × Res (Unit {0})
service_release svc ip pool =
    let (s, answer) = release_ip svc.state ip (unwrap_or pool_default pool) in
    (record svc { state = s }, answer)

-- The addresses of one pool, with their owners, into the map that `dump` returns.
dump_pool : State → String → Map String String → Map String String → Map String String
dump_pool s pool [] out = out
dump_pool s pool ((ip, unused) ∷ rest) out =
    let prefix = if pool =? pool_default then "" else pool ++ "/" in
    dump_pool s pool rest (insert (prefix ++ ip) (get_ip_owner s ip pool) out)

dump_pools : State → Map String (Map String String) → Map String String → Map String String
unfolding dump_pool
dump_pools s [] out = out
dump_pools s ((pool, alloc) ∷ rest) out = dump_pools s rest (dump_pool s pool alloc out)

-- One allocator's entries and status line; `none` is the panic of `HostScope.dump`.
pub dump_family :
    Bool → State → String → Option HostScopeAllocator → Option (Map String String × String)
unfolding dump_pools
dump_family overflow_checks s label none = some ([], "")
dump_family overflow_checks s label (some a) = elim (HostScope.dump overflow_checks a) [
  | none ↦ none
  | some (pools, status) ↦ some (dump_pools s pools [], label ++ status)
]

pub service_dump :
    Bool → DefaultIpamService → Option (Map String String × Map String String × String)
unfolding dump_family
service_dump overflow_checks svc =
    elim (dump_family overflow_checks svc.state "IPv4: " svc.state.ipv4_allocator) [
      | none ↦ none
      | some (allocv4, st4) ↦
          elim (dump_family overflow_checks svc.state "IPv6: " svc.state.ipv6_allocator) [
            | none ↦ none
            | some (allocv6, st6) ↦
                let status = st4 ++ ", " ++ st6 in
                some (allocv4, allocv6, if status =? "" then "Not running" else status)
          ]
    ]
