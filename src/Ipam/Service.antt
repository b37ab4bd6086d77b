-- ===== src/Ipam/Service.antt =====
-- sarena-services/src/ipam/service.rs: `DefaultIpamService` and its state.
-- Each method runs under the write lock, or under several in turn; the model is one caller's run.
-- The samples that `rand` draws in the allocators are the stream `draws`.
pub mod Owner
pub mod Api
pub mod Outcome
pub mod Loop
pub mod Other
pub mod Rollback
pub mod Specific
mod Tests
mod RollbackTests
use Prim.Native.String.{◌++◌}
use sarena.Prelude.{
  ℕ, zero, suc, ◌+◌, Bool, true, false, ◌&&◌, Option, none, some, List, [], ◌∷◌, String, ◌=?◌,
  string_eq, if◌then◌else◌,
}
use mathlib.Core.Option
use sarena.Prelude.Map.{Map, get, insert, remove, contains_key, is_some}
use sarena.Net.{IpAddr, v4, v6, Family, ipv4, ipv6, family_of}
use sarena.Net.Text.{ip_to_string}
use sarena.Net.Cidr.{IpNet}
use sarena.Ipam.Error.{
  IpamError, ipv4_disabled, ipv6_disabled, excluded_error, pool_required_for_allocate,
  pool_required_for_release, pool_determination_unavailable, Res, ok, err, pool_default,
}
use sarena.Ipam.HostScope.{HostScopeAllocator}
use sarena.Ipam.HostScope

pub record AllocationResult : Type 0 where
  pub ip : IpAddr
  pub ip_pool_name : String

pub record State : Type 0 where
  pub ipv4_allocator : Option HostScopeAllocator
  pub ipv6_allocator : Option HostScopeAllocator
  pub owner : Map String (Map String String)
  pub excluded_ips : Map String String

pub record DefaultIpamService : Type 0 where
  pub state : State
  pub gateway_ip : IpAddr

abbrev pub unwrap_or {ℓ} : {A : Type ℓ} → A → Option A → A
unwrap_or d none = d
unwrap_or d (some a) = a

-- `register_ip_owner`.
pub register_ip_owner : State → IpAddr → String → String → State
register_ip_owner s ip owner pool =
    let entry = unwrap_or [] (get pool s.owner) in
    record s { owner = insert pool (insert (ip_to_string ip) owner entry) s.owner }

pub get_ip_owner : State → String → String → String
get_ip_owner s ip pool = elim (get pool s.owner) [ none ↦ "" | some p ↦ unwrap_or "" (get ip p) ]

abbrev is_empty {ℓ} : {A : Type ℓ} → List A → Bool
is_empty [] = true
is_empty (x ∷ xs) = false

pub release_ip_owner : State → IpAddr → String → State × String
release_ip_owner s ip pool = elim (get pool s.owner) [
  | none ↦ (s, "")
  | some m ↦
      let owner = unwrap_or "" (get (ip_to_string ip) m) in
      let left = remove (ip_to_string ip) m in
      (
        record s {
          owner = if is_empty left then remove pool s.owner else insert pool left s.owner;
        },
        owner,
      )
]

-- The allocator of a family, and the error that the code gives where there is none.
abbrev pub allocator : Family → State → Option HostScopeAllocator
allocator ipv4 s = s.ipv4_allocator
allocator ipv6 s = s.ipv6_allocator

abbrev pub disabled : Family → IpamError
disabled ipv4 = ipv4_disabled
disabled ipv6 = ipv6_disabled

-- The allocator is shared with the state, so what it becomes is seen there.
abbrev pub put_allocator : Family → HostScopeAllocator → State → State
put_allocator ipv4 a s = record s { ipv4_allocator = some a }
put_allocator ipv6 a s = record s { ipv6_allocator = some a }

pub release_ip_locked : State → IpAddr → String → State × Res (Unit {0})
release_ip_locked s ip pool = elim (allocator (family_of ip) s) [
  | none ↦ (s, err (disabled (family_of ip)))
  | some a ↦
      let released = put_allocator (family_of ip) (HostScope.release a ip) s in
      ((release_ip_owner released ip pool).0, ok tt)
]

pub release_ip : State → IpAddr → String → State × Res (Unit {0})
unfolding release_ip_locked
release_ip s ip pool =
    if pool =? ""
    then (s, err (pool_required_for_release (ip_to_string ip)))
    else release_ip_locked s ip pool

-- The key of an exclusion: `format!("{pool}:{ip}")`.
abbrev pub exclusion_key : String → IpAddr → String
exclusion_key pool ip = pool ++ ":" ++ ip_to_string ip

pub exclude_ip : State → IpAddr → String → String → State
exclude_ip s ip owner pool = record s {
  excluded_ips = insert (exclusion_key pool ip) owner s.excluded_ips;
}

abbrev pub from_default : IpAddr → AllocationResult
from_default ip = record { ip = ip; ip_pool_name = pool_default }

-- What follows the answer of the allocator in `allocate_ip`.
settle_ip : State → String → String → Res IpAddr → State × Res AllocationResult
settle_ip s owner pool (err e) = (s, err e)
settle_ip s owner pool (ok ip) = (register_ip_owner s ip owner pool, ok (from_default ip))

pub allocate_ip : State → IpAddr → String → String → State × Res AllocationResult
unfolding settle_ip
allocate_ip s ip owner pool =
    if pool =? ""
    then (s, err (pool_required_for_allocate (ip_to_string ip) owner))
    else (elim (get (exclusion_key pool ip) s.excluded_ips) [
      | some owned_by ↦ (s, err (excluded_error (ip_to_string ip) owned_by))
      | none ↦ elim (allocator (family_of ip) s) [
        | none ↦ (s, err (disabled (family_of ip)))
        | some a ↦
            let (a', answer) = HostScope.allocate a ip in
            settle_ip (put_allocator (family_of ip) a' s) owner pool answer
      ]
    ])

-- The loop of `allocate_next_family`; `none` means that the fuel ran out. Every round holds one
-- more address, so a round for each address and one more are enough (`Loop`).
pub allocate_next_loop :
    ℕ → (ℕ → ℕ) → ℕ → Family → State → String → String → Option (State × Res AllocationResult)
allocate_next_loop zero draws i family s owner pool = none
allocate_next_loop (suc fuel) draws i family s owner pool = elim (allocator family s) [
  | none ↦ some (s, err (disabled family))
  | some a ↦ elim (HostScope.allocate_next a (draws i)).1 [
    | err e ↦ some (put_allocator family (HostScope.allocate_next a (draws i)).0 s, err e)
    | ok ip ↦
        let held = put_allocator family (HostScope.allocate_next a (draws i)).0 s in
        let again =
          allocate_next_loop fuel draws (i + 1) family
            (register_ip_owner held ip (owner ++ " (excluded)") pool) owner pool in
        if contains_key (exclusion_key pool ip) held.excluded_ips
        then again
        else some (register_ip_owner held ip owner pool, ok (from_default ip))
  ]
]

-- One round more than the allocator has addresses.
abbrev pub rounds : Family → State → ℕ
rounds family s = elim (allocator family s) [ none ↦ 1 | some a ↦ a.alloc.max + 1 ]

pub allocate_next_family :
    (ℕ → ℕ) → Family → State → String → String → Option (State × Res AllocationResult)
allocate_next_family draws family s owner pool =
    if pool =? ""
    then some (s, err (pool_determination_unavailable owner))
    else allocate_next_loop (rounds family s) draws 0 family s owner pool

pub new : IpAddr → Option IpNet → Option IpNet → DefaultIpamService
new gateway_ip ipv4_net ipv6_net = record {
  gateway_ip = gateway_ip;
  state = record {
    ipv4_allocator = Option.map HostScope.new ipv4_net;
    ipv6_allocator = Option.map HostScope.new ipv6_net;
    owner = [];
    excluded_ips = [];
  };
}
