-- ===== src/Ipam/HostScope/Range.antt =====
-- Which addresses an allocator manages, and that offsets number them one to one.
use sarena.Prelude.{
  ℕ, ◌+◌, ◌-◌, ◌^◌, ◌≤◌, ◌<◌, ◌≡◌, sym, ◌∙◌, ◌↔◌, ◌&&◌, ◌||◌, some, ◌==◌, leb, if◌then◌else◌, arith,
}
use sarena.Prelude.Bits.{two-pow-le}
use sarena.Net.{IpAddr, v4, v6, Family, ipv4, ipv6, family_of, number, width}
use sarena.Net.Cidr.{IpNet, IsIpNet, block, first}
use sarena.Ipam.Bitmap.Valid.{IsValid, new-IsValid, max-new}
use sarena.Ipam.HostScope.{HostScopeAllocator, size, new, contains, offset_to_ip}

-- The invariant: the offsets number a range of addresses inside the network.
pub record IsReady (a : HostScopeAllocator) : Type 0 where
  pub net_ok : IsIpNet a.net
  pub alloc_ok : IsValid a.alloc
  pub alloc_max : a.alloc.max ≡ a.max
  pub base_in : first a.net ≤ a.base
  pub top_in : a.base + a.max ≤ first a.net + block a.net
  pub max_fits : a.max ≤ 2 ^ 32

abbrev size_for : Family → ℕ → ℕ
size_for f host_bits =
    let bits = width f in
    if bits == 32 && leb 31 host_bits || bits == 128 && leb 127 host_bits
    then 0
    else if bits == 128 && leb 16 host_bits
    then 2 ^ 16
    else 2 ^ host_bits

size_for-le : (f : Family) (k : ℕ) → (size_for f k ≤ 2 ^ k) × (size_for f k ≤ 2 ^ 30)
size_for-le ipv4 k = ground (arith, two-pow-le k 30)
size_for-le ipv6 k = ground (arith, two-pow-le 16 k, two-pow-le k 16)

-- `size` never exceeds the block of the network, nor 2 ^ 30.
size-le : (n : IpNet) → IsIpNet n → (size n ≤ block n) × (size n ≤ 2 ^ 30)
unfolding size
size-le n v = simp v.max_prefix (size_for-le n.family (width n.family - n.prefix_len))

-- A new allocator is ready.
pub new-IsReady : (n : IpNet) → IsIpNet n → IsReady (new n)
unfolding new
new-IsReady n v = record {
  net_ok = v;
  alloc_ok = new-IsValid _;
  alloc_max = max-new _;
  base_in = ground arith;
  top_in = ground (arith, size-le n v);
  max_fits = ground (arith, size-le n v);
}

-- What `contains` accepts: an address of the network at an offset from the base below `max`.
pub contains_iff :
    {a : HostScopeAllocator} (ip : IpAddr) (o : ℕ)
    → IsReady a
    → (contains a ip ≡ some o)
      ↔ ((family_of ip ≡ a.net.family) × (number ip ≡ a.base + o) × (o < a.max))
unfolding contains
contains_iff {a} ip o v =
    (λ h. ground (arith, v.net_ok.contains_iff ip), λ h. ground (arith, v.net_ok.contains_iff ip))

offset_to_ip_parts :
    (base o : ℕ) (net : IpNet)
    → base + o < 2 ^ width net.family
    → (family_of (offset_to_ip base o net) ≡ net.family)
      × (number (offset_to_ip base o net) ≡ base + o)
unfolding offset_to_ip
offset_to_ip_parts base o net h = ground arith

ip_ext : (a b : IpAddr) → family_of a ≡ family_of b → number a ≡ number b → a ≡ b
ip_ext (v4 a) (v4 b) f e = cc
ip_ext (v6 a) (v6 b) f e = cc
ip_ext (v4 a) (v6 b) f e = cc
ip_ext (v6 a) (v4 b) f e = cc

in_width :
    {a : HostScopeAllocator} (o : ℕ) → IsReady a → o < a.max → a.base + o < 2 ^ width a.net.family
in_width o v h = omega (arith, v.top_in, v.net_ok.block_fits)

-- The address at an offset below `max` is managed, and its offset is that offset.
pub contains-offset_to_ip :
    {a : HostScopeAllocator} (o : ℕ)
    → IsReady a
    → o < a.max
    → contains a (offset_to_ip a.base o a.net) ≡ some o
contains-offset_to_ip {a} o v h =
    (contains_iff (offset_to_ip a.base o a.net) o v).1
      (ground (arith, offset_to_ip_parts a.base o a.net (in_width o v h)))

-- The offset of an address leads back to it.
pub offset_to_ip-contains :
    {a : HostScopeAllocator} (ip : IpAddr) (o : ℕ)
    → IsReady a
    → contains a ip ≡ some o
    → offset_to_ip a.base o a.net ≡ ip
offset_to_ip-contains {a} ip o v h =
    let at = (contains_iff ip o v).0 h in
    let parts = offset_to_ip_parts a.base o a.net (in_width o v (at.2)) in
    ip_ext _ ip (parts.0 ∙ sym (at.0)) (parts.1 ∙ sym (at.1))
