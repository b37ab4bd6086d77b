-- ===== src/Ipam/Service/Rollback.antt =====
-- `allocate_next` over both families, and `release_ip`.
use mathlib.Core.Path.{subst}
use sarena.Prelude.{
  ℕ, ◌<◌, ◌≡◌, refl, sym, ap, ◌∙◌, inl, inr, true, false, none, some, String, ◌=?◌, =?_refl,
  string_eq, if◌then◌else◌, arith,
}
use sarena.Prelude.Map.{is_some}
use sarena.Net.{IpAddr, Family, ipv4, ipv6, family_of, ip_eq}
use sarena.Net.Text.{ip_to_string}
use sarena.Ipam.Error.{IpamError, Res, ok, err, pool_default}
use sarena.Ipam.HostScope.{HostScopeAllocator, has, contains}
use sarena.Ipam.HostScope
use sarena.Ipam.HostScope.Range.{IsReady, contains_iff}
use sarena.Ipam.HostScope.Ops.{AllowsRelease, release-AllowsRelease}
use sarena.Ipam.Service.{
  AllocationResult, State, allocator, put_allocator, get_ip_owner, release_ip_owner, release_ip,
  release_ip_locked, allocate_next_family,
}
use sarena.Ipam.Service.Outcome.{Granted, Settles}
use sarena.Ipam.Service.Loop.{allocate_next_family-Settles}
use sarena.Ipam.Service.Other.{allocate_next_family-other}
use sarena.Ipam.Service.Owner.{release_ip_owner_lem}
use sarena.Ipam.Service.Api.{allocate_next, then_ipv4}

allocator-put_eq :
    (f : Family) (a : HostScopeAllocator) (s : State) → allocator f (put_allocator f a s) ≡ some a
allocator-put_eq ipv4 a s = refl
allocator-put_eq ipv6 a s = refl

-- `release_ip` on every branch.
allocator-release_ip_owner :
    (f : Family) (s : State) (ip : IpAddr) (pool : String)
    → allocator f (release_ip_owner s ip pool).0 ≡ allocator f s
unfolding release_ip_owner
allocator-release_ip_owner ipv4 s ip pool = ground arith
allocator-release_ip_owner ipv6 s ip pool = ground arith

owner-put :
    (f : Family) (a : HostScopeAllocator) (s : State) → (put_allocator f a s).owner ≡ s.owner
owner-put ipv4 a s = refl
owner-put ipv6 a s = refl

get_ip_owner-owner :
    (s t : State) (ip pool : String)
    → s.owner ≡ t.owner
    → get_ip_owner s ip pool ≡ get_ip_owner t ip pool
unfolding get_ip_owner
get_ip_owner-owner s t ip pool e = rw e

-- Releasing an address in a named pool, with the allocator of its family ready, succeeds: the
-- allocator does what its own specification of `release` says, and the address loses its owner in
-- that pool, while no other owner changes.
pub release_ip_lem :
    (s : State) (ip : IpAddr) (pool : String) (a : HostScopeAllocator)
    → (pool =? "") ≡ false
    → allocator (family_of ip) s ≡ some a
    → IsReady a
    → let t = (release_ip s ip pool).0 in
      ((release_ip s ip pool).1 ≡ ok tt)
      × (allocator (family_of ip) t ≡ some (HostScope.release a ip))
      × AllowsRelease a ip (HostScope.release a ip)
      × ((text p : String)
          → get_ip_owner t text p ≡ (
              if pool =? p
              then (if ip_to_string ip =? text then "" else get_ip_owner s text p)
              else get_ip_owner s text p))
unfolding release_ip
release_ip_lem s ip pool a named here v =
    rw (named, here, release_ip_locked)
      (
        refl,
        allocator-release_ip_owner (family_of ip) released ip pool
            ∙ allocator-put_eq (family_of ip) (HostScope.release a ip) s,
        release-AllowsRelease v ip,
        λ text p.
            (release_ip_owner_lem released ip pool).1 text p
            ∙ rw (
                get_ip_owner-owner released s text p
                  (owner-put (family_of ip) (HostScope.release a ip) s)),
      )
  where
    released : State
    released = put_allocator (family_of ip) (HostScope.release a ip) s

released-free :
    (a : HostScopeAllocator) (ip : IpAddr)
    → AllowsRelease a ip (HostScope.release a ip)
    → ((o : ℕ) × (contains a ip ≡ some o))
    → has (HostScope.release a ip) ip ≡ false
released-free a ip (inl x) m = x.1 ip ∙ rw (=?_refl ip)
released-free a ip (inr x) m = cc (x.0, m.1)

both_halves :
    (draws6 draws4 : ℕ → ℕ) (s s6 s4 : State) (owner pool : String) (r : AllocationResult)
    (e : IpamError)
    → is_some s.ipv6_allocator ≡ true
    → is_some s.ipv4_allocator ≡ true
    → allocate_next_family draws6 ipv6 s owner pool ≡ some (s6, ok r)
    → allocate_next_family draws4 ipv4 s6 owner pool ≡ some (s4, err e)
    → allocate_next draws6 draws4 s none owner pool
      ≡ some ((release_ip s4 r.ip r.ip_pool_name).0, err e)
unfolding allocate_next then_ipv4
both_halves draws6 draws4 s s6 s4 owner pool r e h6 h4 first second =
    rw (h6, first) (rw h4 (rw (second, then_ipv4)))

pub settled :
    (draws : ℕ → ℕ) (family : Family) (s : State) (owner pool : String) (a : HostScopeAllocator)
    (out : State × Res AllocationResult)
    → (pool =? "") ≡ false
    → allocator family s ≡ some a
    → IsReady a
    → ((k : ℕ) → 0 < a.alloc.max → draws k < a.alloc.max)
    → allocate_next_family draws family s owner pool ≡ some out
    → Settles family a s owner pool out
settled draws family s owner pool a out named here v d h =
    let full = allocate_next_family-Settles draws family s owner pool a named here v d in
    subst (Settles family a s owner pool) (cc (full.1, h)) full.2

-- When both families are configured and wanted, and the IPv6 half grants an address but the IPv4
-- half fails, `allocate_next` fails with the IPv4 error and the IPv6 address is free again. Its
-- owner is dropped from the default pool, whatever pool it was registered in: the owners in every
-- other pool are those that the IPv4 half left.
pub allocate_next_rolls_back :
    (draws6 draws4 : ℕ → ℕ) (s s6 s4 : State) (owner pool : String) (a6 a4 : HostScopeAllocator)
    (r : AllocationResult) (e : IpamError)
    → s.ipv6_allocator ≡ some a6
    → s.ipv4_allocator ≡ some a4
    → IsReady a6
    → a6.net.family ≡ ipv6
    → (pool =? "") ≡ false
    → ((k : ℕ) → 0 < a6.alloc.max → draws6 k < a6.alloc.max)
    → allocate_next_family draws6 ipv6 s owner pool ≡ some (s6, ok r)
    → allocate_next_family draws4 ipv4 s6 owner pool ≡ some (s4, err e)
    → (t : State) × (b : HostScopeAllocator) × (allocate_next draws6 draws4 s none owner pool
        ≡ some (t, err e))
      × (t.ipv6_allocator ≡ some b)
      × (has b r.ip ≡ false)
      × ((text p : String)
          → get_ip_owner t text p ≡ (
              if pool_default =? p
              then (if ip_to_string r.ip =? text then "" else get_ip_owner s4 text p)
              else get_ip_owner s4 text p))
allocate_next_rolls_back draws6 draws4 s s6 s4 owner pool a6 a4 r e h6 h4 v f named d first second =
    let released = release_ip_lem s4 r.ip r.ip_pool_name g.after (rw g.pool_name) here g.ready in
    (
      (release_ip s4 r.ip r.ip_pool_name).0,
      HostScope.release g.after r.ip,
      both_halves draws6 draws4 s s6 s4 owner pool r e (ap is_some h6) (ap is_some h4) first second,
      ap (λ (x : Family). allocator x (release_ip s4 r.ip r.ip_pool_name).0) (sym is_v6)
          ∙ released.1,
      released-free g.after r.ip released.2 (g.managed.0, g.same_range r.ip ∙ g.managed.1),
      λ text p. released.3 text p ∙ rw g.pool_name,
    )
  where
    g : Granted ipv6 a6 s owner pool s6 r
    g = settled draws6 ipv6 s owner pool a6 (s6, ok r) named h6 v d first

    is_v6 : family_of r.ip ≡ ipv6
    is_v6 = ((contains_iff r.ip g.managed.0 v).0 g.managed.1).0 ∙ f

    here : allocator (family_of r.ip) s4 ≡ some g.after
    here =
        ap (λ (x : Family). allocator x s4) is_v6
        ∙ allocate_next_family-other draws4 ipv4 s6 owner pool (s4, err e) second
        ∙ g.is_after
