-- ===== src/Ipam/Service/Other.antt =====
-- The loop for one family leaves the allocator of the other alone.
use Prim.Native.String.{◌++◌}
use mathlib.Core.Path.{subst}
use sarena.Prelude.{
  ℕ, zero, suc, ◌+◌, ◌≡◌, refl, ◌∙◌, inl, inr, Option, none, some, String, ◌=?◌, string_eq,
  Bool-cases, Option-cases,
}
use sarena.Prelude.Map.{contains_key}
use sarena.Net.{IpAddr, Family, ipv4, ipv6}
use sarena.Ipam.Error.{Res}
use sarena.Ipam.HostScope.{HostScopeAllocator}
use sarena.Ipam.HostScope
use sarena.Ipam.Service.Outcome.{Result-cases}
use sarena.Ipam.Service.{
  AllocationResult, State, allocator, put_allocator, register_ip_owner, exclusion_key,
  allocate_next_loop, rounds, allocate_next_family,
}

abbrev pub other : Family → Family
other ipv4 = ipv6
other ipv6 = ipv4

other-put :
    (f : Family) (a : HostScopeAllocator) (s : State)
    → allocator (other f) (put_allocator f a s) ≡ allocator (other f) s
other-put ipv4 a s = refl
other-put ipv6 a s = refl

other-register :
    (f : Family) (s : State) (ip : IpAddr) (owner pool : String)
    → allocator f (register_ip_owner s ip owner pool) ≡ allocator f s
unfolding register_ip_owner
other-register ipv4 s ip owner pool = refl
other-register ipv6 s ip owner pool = refl

-- The other family's allocator in a result.
abbrev Keeps : Family → State → Option (State × Res AllocationResult) → Type 0
Keeps family s none = Unit {0}
Keeps family s (some out) = allocator (other family) out.0 ≡ allocator (other family) s

Keeps-trans :
    (family : Family) (s t : State) (r : Option (State × Res AllocationResult))
    → allocator (other family) t ≡ allocator (other family) s
    → Keeps family t r
    → Keeps family s r
Keeps-trans family s t none e k = tt
Keeps-trans family s t (some out) e k = k ∙ e

pub loop-Keeps :
    (fuel : ℕ) (draws : ℕ → ℕ) (i : ℕ) (family : Family) (s : State) (owner pool : String)
    → Keeps family s (allocate_next_loop fuel draws i family s owner pool)
unfolding allocate_next_loop
loop-Keeps zero draws i family s owner pool = tt
loop-Keeps (suc fuel) draws i family s owner pool = elim (Option-cases (allocator family s)) [
  | inl e ↦ rw (e, allocate_next_loop) refl
  | inr (a, e) ↦
      let b = (HostScope.allocate_next a (draws i)).0 in
      let held = put_allocator family b s in
      rw (e, allocate_next_loop)
        (elim (Result-cases (HostScope.allocate_next a (draws i)).1) [
          | inl (x, h) ↦ rw (h, allocate_next_loop) (other-put family b s)
          | inr (ip, h) ↦
              rw (h, allocate_next_loop)
                (elim (Bool-cases (contains_key (exclusion_key pool ip) held.excluded_ips)) [
                  | inr x ↦
                      rw x (other-register (other family) held ip owner pool ∙ other-put family b s)
                  | inl x ↦
                      let t = register_ip_owner held ip (owner ++ " (excluded)") pool in
                      rw x (
                        Keeps-trans family s t
                          (allocate_next_loop fuel draws (i + 1) family t owner pool)
                          (other-register (other family) held ip (owner ++ " (excluded)") pool
                            ∙ other-put family b s)
                          (loop-Keeps fuel draws (i + 1) family t owner pool))
                ])
        ])
]

-- Whatever `allocate_next_family` returns, the other family's allocator is as it was.
pub allocate_next_family-other :
    (draws : ℕ → ℕ) (family : Family) (s : State) (owner pool : String)
    (out : State × Res AllocationResult)
    → allocate_next_family draws family s owner pool ≡ some out
    → allocator (other family) out.0 ≡ allocator (other family) s
unfolding allocate_next_family
allocate_next_family-other draws family s owner pool out h = elim (Bool-cases (pool =? "")) [
  | inl e ↦ cc (rw e at h)
  | inr e ↦
      subst (Keeps family s) (rw e at h) (loop-Keeps (rounds family s) draws 0 family s owner pool)
]
