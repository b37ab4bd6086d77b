-- ===== src/Ipam/HostScope.antt =====
-- sarena-services/src/ipam/host_scope.rs: the addresses of one network, over the bitmap.
pub mod Range
pub mod Held
pub mod Ops
pub mod Dump
mod Tests
use Prim.Native.String.{◌++◌}
use sarena.Prelude.{
  ℕ, zero, suc, ◌+◌, ◌-◌, ◌%◌, ◌^◌, Bool, true, false, not, ◌&&◌, ◌||◌, Option, none, some, List,
  [], ◌∷◌, map, String, ◌==◌, ltb, leb, if◌then◌else◌, length, string_eq,
}
use sarena.Prelude.Map.{Map, insert}
use sarena.Net.{IpAddr, v4, v6, Family, ipv4, ipv6, number}
use sarena.Net.Text.{ip_to_string, decimal}
use sarena.Net.Cidr.{IpNet}
use sarena.Ipam.Error.{
  IpamError, not_in_range, already_allocated, range_full, Res, ok, err, pool_default, ◌>>=◌,
}
use sarena.Ipam.Bitmap.{AllocationBitmap}
use sarena.Ipam.Bitmap

pub record HostScopeAllocator : Type 0 where
  pub net : IpNet
  pub base : ℕ
  pub max : ℕ
  pub alloc : AllocationBitmap

-- The number of addresses that the allocator considers; at 31 host bits of IPv4 and 127 of IPv6
-- it considers none, and an IPv6 range is cut to 65536.
unfoldable pub size : IpNet → ℕ
size n =
    let bits = n.max_prefix_len in
    let host_bits = bits - n.prefix_len in
    if bits == 32 && leb 31 host_bits || bits == 128 && leb 127 host_bits
    then 0
    else if bits == 128 && leb 16 host_bits
    then 2 ^ 16
    else 2 ^ host_bits

unfoldable pub new : IpNet → HostScopeAllocator
new cidr =
    let size = size cidr in
    let max = if ltb 2 size then size - 2 else size in
    record {
      net = cidr;
      base = if ltb 2 size then number cidr.network + 1 else number cidr.network;
      max = max;
      alloc = Bitmap.new max;
    }

-- `checked_sub`.
abbrev pub checked_sub : ℕ → ℕ → Option ℕ
checked_sub a b = if ltb a b then none else some (a - b)

-- `usize::try_from` on a 64-bit machine.
abbrev pub usize_try_from : ℕ → Option ℕ
usize_try_from a = if ltb a (2 ^ 64) then some a else none

infixl 5 ◌>>=?◌
abbrev ◌>>=?◌ : Option ℕ → (ℕ → Option ℕ) → Option ℕ
none >>=? f = none
some a >>=? f = f a

-- The offset of an address, if the allocator manages it.
pub contains : HostScopeAllocator → IpAddr → Option ℕ
contains a ip =
    if not (a.net.contains ip)
    then none
    else (checked_sub (number ip) a.base >>=? usize_try_from >>=? λ offset.
        if ltb offset a.max then some offset else none)

-- `value as u32` keeps the low 32 bits.
unfoldable pub offset_to_ip : ℕ → ℕ → IpNet → IpAddr
offset_to_ip base offset net = elim net.family [
  | ipv4 ↦ v4 ((base + offset) % 2 ^ 32)
  | ipv6 ↦ v6 (base + offset)
]

pub allocate : HostScopeAllocator → IpAddr → HostScopeAllocator × Res IpAddr
allocate a ip = elim (contains a ip) [
  | none ↦ (a, err (not_in_range a.net.to_string))
  | some offset ↦
      let (alloc, granted) = Bitmap.allocate a.alloc offset in
      (record a { alloc = alloc }, if not granted then err already_allocated else ok ip)
]

-- `sample` is the draw of `rand::random_range` in the bitmap.
unfoldable pub allocate_next : HostScopeAllocator → ℕ → HostScopeAllocator × Res IpAddr
allocate_next a sample =
    let (alloc, offset) = Bitmap.allocate_next a.alloc sample in
    (
      record a { alloc = alloc },
      elim offset [ none ↦ err range_full | some o ↦ ok (offset_to_ip a.base o a.net) ],
    )

pub release : HostScopeAllocator → IpAddr → HostScopeAllocator
release a ip = elim (contains a ip) [
  | none ↦ a
  | some offset ↦ record a { alloc = Bitmap.release a.alloc offset }
]

-- The addresses that the callback of `for_each` is called with, in order.
pub for_each : HostScopeAllocator → List IpAddr
for_each a = map (λ o. offset_to_ip a.base o a.net) (Bitmap.for_each a.alloc)

pub has : HostScopeAllocator → IpAddr → Bool
has a ip = elim (contains a ip) [ some o ↦ Bitmap.has a.alloc o | none ↦ false ]

pub free : HostScopeAllocator → ℕ
free a = Bitmap.free a.alloc

pub used : HostScopeAllocator → ℕ
unfolding free
used a = a.max - free a

-- `1u128 << 128` panics, which is `none`, in a build that checks for overflow; in another one the
-- shift takes its distance modulo 128 and the subtraction wraps.
pub count_ips_in_cidr : Bool → IpNet → Option ℕ
count_ips_in_cidr overflow_checks n =
    let host_bits = n.max_prefix_len - n.prefix_len in
    if host_bits == 0
    then some 0
    else if ltb host_bits 128
    then some (2 ^ host_bits - 2)
    else if overflow_checks
    then none
    else some ((2 ^ (host_bits % 128) + 2 ^ 128 - 2) % 2 ^ 128)

-- The texts of the allocated addresses as the keys of a map.
pub dump_entries : List IpAddr → Map String String → Map String String
dump_entries [] m = m
dump_entries (ip ∷ ips) m = dump_entries ips (insert (ip_to_string ip) "" m)

pub dump : Bool → HostScopeAllocator → Option (Map String (Map String String) × String)
dump overflow_checks a =
    let alloc = dump_entries (for_each a) [] in
    elim (count_ips_in_cidr overflow_checks a.net) [
      | none ↦ none
      | some max_ips ↦ some (
        insert pool_default alloc [],
        decimal (length alloc) ++ "/" ++ decimal max_ips ++ " allocated from " ++ a.net.to_string,
      )
    ]
