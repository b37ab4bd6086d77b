-- ===== src/Ipam/Service/Outcome.antt =====
-- What the loop of `allocate_next_family` can end by, and its rounds.
use Prim.Native.String.{◌++◌}
use sarena.Prelude.{ℕ, suc, ◌+◌, ◌≡◌, refl, ◌⊎◌, inl, inr, true, false, some, String, string_eq}
use sarena.Prelude.Map.{contains_key}
use sarena.Net.{IpAddr, Family, ipv4, ipv6, ip_eq}
use sarena.Net.Text.{ip_to_string}
use sarena.Ipam.Error.{IpamError, range_full, Res, ok, err, pool_default}
use sarena.Ipam.HostScope.{HostScopeAllocator, contains, has}
use sarena.Ipam.HostScope
use sarena.Ipam.HostScope.Range.{IsReady}
use sarena.Ipam.Service.{
  AllocationResult, State, allocator, put_allocator, register_ip_owner, get_ip_owner, exclusion_key,
  from_default, allocate_next_loop,
}

-- A grant of the loop.
pub record Granted (family : Family) (before : HostScopeAllocator) (s : State) (owner pool : String)
    (s' : State) (r : AllocationResult) : Type 0 where
  pub after : HostScopeAllocator
  pub is_after : allocator family s' ≡ some after
  pub ready : IsReady after
  pub managed : (o : ℕ) × (contains before r.ip ≡ some o)
  pub same_range : (j : IpAddr) → contains after j ≡ contains before j
  pub same_max : after.alloc.max ≡ before.alloc.max
  pub was_free : has before r.ip ≡ false
  pub now_held : has after r.ip ≡ true
  pub kept : (j : IpAddr) → has before j ≡ true → has after j ≡ true
  pub allowed : contains_key (exclusion_key pool r.ip) s.excluded_ips ≡ false
  pub owned : get_ip_owner s' (ip_to_string r.ip) pool ≡ owner
  pub pool_name : r.ip_pool_name ≡ pool_default

-- A refusal of the loop.
pub record Exhausted (family : Family) (before : HostScopeAllocator) (s' : State) (e : IpamError)
    : Type 0 where
  pub after : HostScopeAllocator
  pub is_after : allocator family s' ≡ some after
  pub ready : IsReady after
  pub reason : e ≡ range_full
  pub all_held : (ip : IpAddr) (o : ℕ) → contains before ip ≡ some o → has after ip ≡ true
  pub kept : (j : IpAddr) → has before j ≡ true → has after j ≡ true

abbrev pub Settles :
    Family → HostScopeAllocator → State → String → String → State × Res AllocationResult → Type 0
Settles family a s owner pool (s', ok r) = Granted family a s owner pool s' r
Settles family a s owner pool (s', err e) = Exhausted family a s' e

pub allocator-put :
    (f : Family) (a : HostScopeAllocator) (s : State) → allocator f (put_allocator f a s) ≡ some a
allocator-put ipv4 a s = refl
allocator-put ipv6 a s = refl

pub allocator-register :
    (f : Family) (s : State) (ip : IpAddr) (owner pool : String)
    → allocator f (register_ip_owner s ip owner pool) ≡ allocator f s
unfolding register_ip_owner
allocator-register ipv4 s ip owner pool = refl
allocator-register ipv6 s ip owner pool = refl

pub excluded-put :
    (f : Family) (a : HostScopeAllocator) (s : State)
    → (put_allocator f a s).excluded_ips ≡ s.excluded_ips
excluded-put ipv4 a s = refl
excluded-put ipv6 a s = refl

pub excluded-register :
    (s : State) (ip : IpAddr) (owner pool : String)
    → (register_ip_owner s ip owner pool).excluded_ips ≡ s.excluded_ips
unfolding register_ip_owner
excluded-register s ip owner pool = refl

-- One round of the loop, by what the allocator answers.
module _ (fuel : ℕ) (draws : ℕ → ℕ) (i : ℕ) (family : Family) (s : State) (owner pool : String)
    (a : HostScopeAllocator) (here : allocator family s ≡ some a) where
  abbrev drawn : HostScopeAllocator
  drawn = (HostScope.allocate_next a (draws i)).0

  abbrev pub held : State
  held = put_allocator family drawn s

  abbrev pub skipped : IpAddr → State
  skipped ip = register_ip_owner held ip (owner ++ " (excluded)") pool

  pub round_full :
      (e : IpamError)
      → (HostScope.allocate_next a (draws i)).1 ≡ err e
      → allocate_next_loop (suc fuel) draws i family s owner pool ≡ some (held, err e)
  unfolding allocate_next_loop
  round_full e h = rw (here, allocate_next_loop) (rw (h, allocate_next_loop))

  pub round_granted :
      (ip : IpAddr)
      → (HostScope.allocate_next a (draws i)).1 ≡ ok ip
      → contains_key (exclusion_key pool ip) held.excluded_ips ≡ false
      → allocate_next_loop (suc fuel) draws i family s owner pool
        ≡ some (register_ip_owner held ip owner pool, ok (from_default ip))
  unfolding allocate_next_loop
  round_granted ip h x = rw (here, allocate_next_loop) (rw (h, allocate_next_loop) (rw x))

  pub round_skipped :
      (ip : IpAddr)
      → (HostScope.allocate_next a (draws i)).1 ≡ ok ip
      → contains_key (exclusion_key pool ip) held.excluded_ips ≡ true
      → allocate_next_loop (suc fuel) draws i family s owner pool
        ≡ allocate_next_loop fuel draws (i + 1) family (skipped ip) owner pool
  unfolding allocate_next_loop
  round_skipped ip h x = rw (here, allocate_next_loop) (rw (h, allocate_next_loop) (rw x))

pub Result-cases :
    (r : Res IpAddr) → ((e : IpamError) × (r ≡ err e)) ⊎ ((ip : IpAddr) × (r ≡ ok ip))
Result-cases (err e) = inl (e, refl)
Result-cases (ok ip) = inr (ip, refl)
