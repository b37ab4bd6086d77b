-- ===== src/Ipam/Service/Tests.antt =====
-- The unit tests of service.rs, and each theorem at a concrete service.
use mathlib.Core.Path.{subst}
use sarena.Prelude.{◌≡◌, refl, none, some, arith, string_eq}
use sarena.Net.{IpAddr, v4, ipv4, ip_eq}
use sarena.Net.Cidr.{IpNet, v4_net, v4_net-IsIpNet}
use sarena.Ipam.Error.{Res, pool_default}
use sarena.Ipam.HostScope.{HostScopeAllocator}
use sarena.Ipam.HostScope
use sarena.Ipam.HostScope.Range.{IsReady, new-IsReady}
use sarena.Ipam.Service.{
  AllocationResult, State, new, allocator, exclude_ip, allocate_ip, allocate_next_family,
}
use sarena.Ipam.Service.Outcome.{Settles}
use sarena.Ipam.Service.Loop.{allocate_next_family-Settles}
use sarena.Ipam.Service.Specific.{Answers, allocate_ip-Answers}

abbrev net_29 : IpNet
net_29 = v4_net 0x0a000000 29 "10.0.0.0/29"

abbrev gateway : IpAddr
gateway = v4 0x0a000005

abbrev first_usable : IpAddr
first_usable = v4 0x0a000001

abbrev base : State
base = (new gateway (some net_29) none).state

-- The first usable address is excluded from the default pool.
abbrev reserved : State
reserved = exclude_ip base first_usable "gateway" pool_default

abbrev fresh : HostScopeAllocator
fresh = HostScope.new net_29

fresh-IsReady : IsReady fresh
fresh-IsReady =
    new-IsReady net_29 (v4_net-IsIpNet 0x0a000000 29 "10.0.0.0/29" (omega arith) (omega arith))

reserved-allocator : allocator ipv4 reserved ≡ some fresh
unfolding exclude_ip new
reserved-allocator = refl

allocate_next_family-Settles_example :
    (out : State × Res AllocationResult) × (allocate_next_family
        (λ i. 0)
        ipv4
        reserved
        "pod-a"
        pool_default
      ≡ some out)
    × Settles ipv4 fresh reserved "pod-a" pool_default out
allocate_next_family-Settles_example =
    allocate_next_family-Settles (λ i. 0) ipv4 reserved "pod-a" pool_default fresh refl
      reserved-allocator fresh-IsReady (λ k h. h)

ready_of : (a : HostScopeAllocator) → allocator ipv4 reserved ≡ some a → IsReady a
ready_of a h = subst IsReady (cc (reserved-allocator, h)) fresh-IsReady

allocate_ip-Answers_example :
    Answers reserved first_usable "pod-a" pool_default
      (allocate_ip reserved first_usable "pod-a" pool_default)
allocate_ip-Answers_example =
    allocate_ip-Answers reserved first_usable "pod-a" pool_default ready_of
