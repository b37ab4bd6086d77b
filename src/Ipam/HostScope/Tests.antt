-- ===== src/Ipam/HostScope/Tests.antt =====
-- The unit tests of host_scope.rs, and each theorem at a concrete network.
use sarena.Prelude.{true, false, ◌^◌, ◌-◌, ◌+◌, ◌<◌, ◌↔◌, ◌≡◌, refl, none, some, arith, string_eq}
use sarena.Net.{IpAddr, v4, ip_eq, family_of, number}
use sarena.Net.Cidr.{IpNet, IsIpNet, v4_net, v4_net-IsIpNet, v6_net}
use sarena.Ipam.Bitmap.Valid.{max-new}
use sarena.Ipam.HostScope.{
  HostScopeAllocator, size, new, contains, allocate, allocate_next, release, count_ips_in_cidr,
  dump,
}
use sarena.Ipam.HostScope.Range.{IsReady, new-IsReady, contains_iff}
use sarena.Ipam.HostScope.Ops.{
  AllowsAllocate, AllowsAllocateNext, AllowsRelease, allocate-AllowsAllocate,
  allocate_next-AllowsAllocateNext, release-AllowsRelease,
}
use sarena.Ipam.HostScope.Held.{allocate-IsReady}
use sarena.Ipam.HostScope.Dump.{Dumped, dump-Dumped}

abbrev net_29 : IpNet
net_29 = v4_net 0x0a000000 29 "10.0.0.0/29"

abbrev net_31 : IpNet
net_31 = v4_net 0x0a000000 31 "10.0.0.0/31"

net_29-IsIpNet : IsIpNet net_29
net_29-IsIpNet = v4_net-IsIpNet 0x0a000000 29 "10.0.0.0/29" (omega arith) (omega arith)

slash_31_keeps_both_addresses : (new net_31).max ≡ 2
unfolding new size
slash_31_keeps_both_addresses = refl

slash_29_excludes_network_and_broadcast :
    (contains (new net_29) (v4 0x0a000000) ≡ none)
    × (contains (new net_29) (v4 0x0a000001) ≡ some 0)
    × (contains (new net_29) (v4 0x0a000006) ≡ some 5)
    × (contains (new net_29) (v4 0x0a000007) ≡ none)
unfolding contains new size
slash_29_excludes_network_and_broadcast = (refl, refl, refl, refl)

abbrev ready : HostScopeAllocator
ready = new net_29

ready-IsReady : IsReady ready
ready-IsReady = new-IsReady net_29 net_29-IsIpNet

abbrev fifth : IpAddr
fifth = v4 0x0a000005

allocate-AllowsAllocate_example :
    AllowsAllocate ready fifth (allocate ready fifth).1 (allocate ready fifth).0
allocate-AllowsAllocate_example = allocate-AllowsAllocate ready-IsReady fifth

allocate_next-AllowsAllocateNext_example :
    AllowsAllocateNext ready (allocate_next ready 3).1 (allocate_next ready 3).0
unfolding new size
allocate_next-AllowsAllocateNext_example =
    allocate_next-AllowsAllocateNext ready-IsReady 3 (λ h. draw)
  where
    draw : 3 < ready.alloc.max
    draw = omega (arith, max-new 6)

release-AllowsRelease_example : AllowsRelease ready fifth (release ready fifth)
release-AllowsRelease_example = release-AllowsRelease ready-IsReady fifth

-- `::/0`: a build that checks for overflow panics, another one prints 2 ^ 128 - 1.
abbrev everything : IpNet
everything = v6_net 0 0 "::/0"

capacity_of_everything :
    (count_ips_in_cidr true everything ≡ none)
    × (count_ips_in_cidr false everything ≡ some (2 ^ 128 - 1))
unfolding count_ips_in_cidr
capacity_of_everything = (refl, refl)

-- With one address held.
abbrev holding_fifth : HostScopeAllocator
holding_fifth = (allocate ready fifth).0

dump-Dumped_example : Dumped true holding_fifth (dump true holding_fifth)
dump-Dumped_example = dump-Dumped true (allocate-IsReady fifth ready-IsReady)

contains_iff_example :
    (contains ready fifth ≡ some 4)
    ↔ ((family_of fifth ≡ ready.net.family) × (number fifth ≡ ready.base + 4) × (4 < ready.max))
contains_iff_example = contains_iff fifth 4 ready-IsReady
