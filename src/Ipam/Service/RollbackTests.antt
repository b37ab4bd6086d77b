-- ===== src/Ipam/Service/RollbackTests.antt =====
-- Release, ownership and the rollback of service.rs at concrete services.
use sarena.Prelude.{
  ◌≡◌, ◌≢◌, refl, false, if◌then◌else◌, ◌=?◌, Option, none, some, String, arith, string_eq,
}
use sarena.Net.{IpAddr, v4, v6, ipv4, ipv6, ip_eq}
use sarena.Net.Text.{ip_to_string}
use sarena.Net.Cidr.{IpNet, v4_net, v6_net, v6_net-IsIpNet}
use sarena.Ipam.Error.{range_full, Res, ok, err, pool_default}
use sarena.Ipam.HostScope.{HostScopeAllocator, has}
use sarena.Ipam.HostScope
use sarena.Ipam.Bitmap
use sarena.Prelude.Map.{get, insert, contains_key}
use sarena.Ipam.HostScope.Range.{IsReady, new-IsReady}
use sarena.Ipam.HostScope.Ops.{AllowsRelease}
use sarena.Ipam.Service.{
  AllocationResult, State, new, allocator, get_ip_owner, release_ip, exclude_ip,
  allocate_next_family, allocate_next_loop, exclusion_key, register_ip_owner, from_default,
}
use sarena.Ipam.Service.Api.{allocate_next}
use sarena.Ipam.Service.Rollback.{release_ip_lem, allocate_next_rolls_back}
use sarena.Ipam.Service.Specific.{allocate_next_family_distinct}

abbrev single : IpNet
single = v4_net 0x0a000005 32 "10.0.0.5/32"

abbrev four : IpNet
four = v6_net 0xfd000000000000000000000000000000 126 "fd00::/126"

-- The only IPv4 address is reserved.
abbrev dual : State
dual = exclude_ip (new (v4 1) (some single) (some four)).state (v4 0x0a000005) "gateway" "blue"

abbrev first_half : Option (State × Res AllocationResult)
first_half = allocate_next_family (λ i. 0) ipv6 dual "pod-a" "blue"

-- The first half's state, with the address fd00::1 held and registered.
abbrev halfway : State
halfway = elim first_half [ none ↦ dual | some out ↦ out.0 ]

abbrev four_allocator : HostScopeAllocator
four_allocator = HostScope.new four

four-IsReady : IsReady four_allocator
four-IsReady =
    new-IsReady four (
      v6_net-IsIpNet 0xfd000000000000000000000000000000 126 "fd00::/126" (omega arith)
        (omega arith))

abbrev single_allocator : HostScopeAllocator
single_allocator = HostScope.new single

abbrev granted_ip : IpAddr
granted_ip = v6 0xfd000000000000000000000000000001

abbrev second_half : Option (State × Res AllocationResult)
second_half = allocate_next_family (λ i. 0) ipv4 halfway "pod-a" "blue"

abbrev after : State
after = elim second_half [ none ↦ dual | some out ↦ out.0 ]

first_half_grants : first_half ≡ some (halfway, ok (from_default granted_ip))
unfolding allocate_next_family allocate_next_loop exclude_ip new exclusion_key register_ip_owner
    HostScope.new HostScope.allocate_next HostScope.size HostScope.offset_to_ip Bitmap.new
    Bitmap.allocate_next Bitmap.allocate_bit Bitmap.get_bit Bitmap.set_bit get insert contains_key
    ip_to_string
first_half_grants = refl

second_half_fails : second_half ≡ some (after, err range_full)
unfolding allocate_next_family allocate_next_loop exclude_ip new exclusion_key register_ip_owner
    HostScope.new HostScope.allocate_next HostScope.size HostScope.offset_to_ip Bitmap.new
    Bitmap.allocate_next Bitmap.allocate_bit Bitmap.get_bit Bitmap.set_bit get insert contains_key
    ip_to_string
second_half_fails = refl

dual-ipv6 : dual.ipv6_allocator ≡ some four_allocator
unfolding exclude_ip new
dual-ipv6 = refl

dual-ipv4 : dual.ipv4_allocator ≡ some single_allocator
unfolding exclude_ip new
dual-ipv4 = refl

allocate_next_rolls_back_example :
    (t : State) × (b : HostScopeAllocator) × (allocate_next
        (λ i. 0)
        (λ i. 0)
        dual
        none
        "pod-a"
        "blue"
      ≡ some (t, err range_full))
    × (t.ipv6_allocator ≡ some b)
    × (has b granted_ip ≡ false)
    × ((text p : String)
        → get_ip_owner t text p ≡ (
            if pool_default =? p
            then (if ip_to_string granted_ip =? text then "" else get_ip_owner after text p)
            else get_ip_owner after text p))
unfolding HostScope.new
allocate_next_rolls_back_example =
    allocate_next_rolls_back (λ i. 0) (λ i. 0) dual halfway after "pod-a" "blue" four_allocator
      single_allocator (from_default granted_ip) range_full dual-ipv6 dual-ipv4 four-IsReady refl
      refl (λ k h. h) first_half_grants second_half_fails

release_ip_lem_example :
    ((release_ip dual granted_ip "blue").1 ≡ ok tt)
    × (allocator ipv6 (release_ip dual granted_ip "blue").0
        ≡ some (HostScope.release four_allocator granted_ip))
    × AllowsRelease four_allocator granted_ip (HostScope.release four_allocator granted_ip)
    × ((text p : String)
        → get_ip_owner (release_ip dual granted_ip "blue").0 text p ≡ (
            if "blue" =? p
            then (if ip_to_string granted_ip =? text then "" else get_ip_owner dual text p)
            else get_ip_owner dual text p))
release_ip_lem_example =
    release_ip_lem dual granted_ip "blue" four_allocator refl dual-ipv6 four-IsReady

-- A second call takes the other address.
abbrev next_grant : Option (State × Res AllocationResult)
next_grant = allocate_next_family (λ i. 0) ipv6 halfway "pod-b" "blue"

abbrev next_state : State
next_state = elim next_grant [ none ↦ dual | some out ↦ out.0 ]

abbrev next_ip : IpAddr
next_ip = v6 0xfd000000000000000000000000000002

next_grants : next_grant ≡ some (next_state, ok (from_default next_ip))
unfolding allocate_next_family allocate_next_loop exclude_ip new exclusion_key register_ip_owner
    HostScope.new HostScope.allocate_next HostScope.size HostScope.offset_to_ip Bitmap.new
    Bitmap.allocate_next Bitmap.allocate_bit Bitmap.get_bit Bitmap.set_bit get insert contains_key
    ip_to_string
next_grants = refl

allocate_next_family_distinct_example : granted_ip ≢ next_ip
allocate_next_family_distinct_example =
    allocate_next_family_distinct (λ i. 0) (λ i. 0) ipv6 dual halfway next_state "pod-a" "pod-b"
      "blue" "blue" four_allocator (from_default granted_ip) (from_default next_ip) refl refl
      dual-ipv6 four-IsReady (λ k h. h) (λ k h. h) first_half_grants next_grants
