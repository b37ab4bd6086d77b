-- ===== src/Ipam/Service/Specific.antt =====
-- `allocate_ip` on every branch, and that grants never overlap.
use sarena.Prelude.{
  ℕ, ◌<◌, ◌≡◌, refl, ap, ◌∙◌, ◌≢◌, ◌⊎◌, inl, inr, true, false, none, some, String, ◌=?◌, =?_refl,
  string_eq, arith, Bool-cases, Option-cases,
}
use sarena.Prelude.Map.{get}
use sarena.Net.{IpAddr, Family, family_of, ip_eq}
use sarena.Net.Text.{ip_to_string}
use sarena.Ipam.Error.{
  IpamError, pool_required_for_allocate, excluded_error, not_in_range, already_allocated, Res, ok,
  err,
}
use sarena.Ipam.HostScope.{HostScopeAllocator, contains, has}
use sarena.Ipam.HostScope
use sarena.Ipam.HostScope.Range.{IsReady}
use sarena.Ipam.HostScope.Held.{Differs, Unchanged}
use sarena.Ipam.HostScope.Ops.{AllowsAllocate, allocate-AllowsAllocate}
use sarena.Ipam.Service.{
  AllocationResult, State, allocator, put_allocator, disabled, get_ip_owner, exclusion_key,
  from_default, allocate_ip, settle_ip, allocate_next_family,
}
use sarena.Ipam.Service.Owner.{get_ip_owner-register_ip_owner}
use sarena.Ipam.Service.Outcome.{Granted, allocator-put, allocator-register}
use sarena.Ipam.Service.Rollback.{settled}

-- What a grant of `allocate_ip` means.
pub record Assigned (s : State) (ip : IpAddr) (owner pool : String) (s' : State)
    (r : AllocationResult) : Type 0 where
  pub before : HostScopeAllocator
  pub after : HostScopeAllocator
  pub is_before : allocator (family_of ip) s ≡ some before
  pub is_after : allocator (family_of ip) s' ≡ some after
  pub managed : (o : ℕ) × (contains before ip ≡ some o)
  pub was_free : has before ip ≡ false
  pub changed : Differs before after ip true
  pub allowed : get (exclusion_key pool ip) s.excluded_ips ≡ none
  pub owned : get_ip_owner s' (ip_to_string ip) pool ≡ owner
  pub result : r ≡ from_default ip

-- Why `allocate_ip` refuses.
pub data Refused (s : State) (ip : IpAddr) (owner pool : String) (s' : State)
    : IpamError → Type 0 where
  no_pool :
      (pool =? "") ≡ true
      → s' ≡ s
      → Refused s ip owner pool s' (pool_required_for_allocate (ip_to_string ip) owner)
  excluded :
      (by : String)
      → get (exclusion_key pool ip) s.excluded_ips ≡ some by
      → s' ≡ s
      → Refused s ip owner pool s' (excluded_error (ip_to_string ip) by)
  no_family :
      allocator (family_of ip) s ≡ none
      → s' ≡ s
      → Refused s ip owner pool s' (disabled (family_of ip))
  by_allocator :
      (a b : HostScopeAllocator) (e : IpamError)
      → allocator (family_of ip) s ≡ some a
      → s' ≡ put_allocator (family_of ip) b s
      → ((e ≡ not_in_range a.net.to_string) × (contains a ip ≡ none)
          ⊎ (e ≡ already_allocated) × (has a ip ≡ true))
      → Unchanged a b
      → Refused s ip owner pool s' e

abbrev pub Answers : State → IpAddr → String → String → State × Res AllocationResult → Type 0
Answers s ip owner pool (s', ok r) = Assigned s ip owner pool s' r
Answers s ip owner pool (s', err e) = Refused s ip owner pool s' e

module _ (s : State) (ip : IpAddr) (owner pool : String) where
  answered :
      (a : HostScopeAllocator) (r : Res IpAddr)
      → get (exclusion_key pool ip) s.excluded_ips ≡ none
      → allocator (family_of ip) s ≡ some a
      → AllowsAllocate a ip r (HostScope.allocate a ip).0
      → Answers s ip owner pool
          (settle_ip (put_allocator (family_of ip) (HostScope.allocate a ip).0 s) owner pool r)
  unfolding settle_ip
  answered a (err e) x here spec =
      by_allocator a (HostScope.allocate a ip).0 e here refl spec.0 spec.1
  answered a (ok got) x here spec =
      let b = (HostScope.allocate a ip).0 in
      let held = put_allocator (family_of ip) b s in
      rw (spec.0) (record {
        before = a;
        after = b;
        is_before = here;
        is_after =
            allocator-register (family_of ip) held ip owner pool ∙ allocator-put (family_of ip) b s;
        managed = spec.1;
        was_free = spec.2;
        changed = spec.3;
        allowed = x;
        owned =
            get_ip_owner-register_ip_owner held ip owner pool (ip_to_string ip) pool
            ∙ rw (=?_refl pool, =?_refl (ip_to_string ip));
        result = refl;
      })

  -- With the allocator of the address's family ready where there is one, `allocate_ip` grants the
  -- address that was asked for, if it is managed, free and not excluded in the pool, and registers
  -- its owner there; it refuses only for the reason that its error names, and then no address
  -- changes.
  pub allocate_ip-Answers :
      ((a : HostScopeAllocator) → allocator (family_of ip) s ≡ some a → IsReady a)
      → Answers s ip owner pool (allocate_ip s ip owner pool)
  unfolding allocate_ip
  allocate_ip-Answers v = elim (Bool-cases (pool =? "")) [
    | inl e ↦ rw e (no_pool e refl)
    | inr e ↦ rw e (elim (Option-cases (get (exclusion_key pool ip) s.excluded_ips)) [
      | inr (by, x) ↦ rw (x, allocate_ip) (excluded by x refl)
      | inl x ↦
          rw (x, allocate_ip)
            (elim (Option-cases (allocator (family_of ip) s)) [
              | inl n ↦ rw (n, allocate_ip) (no_family n refl)
              | inr (a, here) ↦
                  rw (here, allocate_ip)
                    (answered a (HostScope.allocate a ip).1 x here
                      (allocate-AllowsAllocate (v a here) ip))
            ])
    ])
  ]

-- Two grants in a row, from one allocator that is ready, are of different addresses.
pub allocate_next_family_distinct :
    (draws draws' : ℕ → ℕ) (family : Family) (s s' s'' : State) (owner owner' pool pool' : String)
    (a : HostScopeAllocator) (r r' : AllocationResult)
    → (pool =? "") ≡ false
    → (pool' =? "") ≡ false
    → allocator family s ≡ some a
    → IsReady a
    → ((k : ℕ) → 0 < a.alloc.max → draws k < a.alloc.max)
    → ((k : ℕ) → 0 < a.alloc.max → draws' k < a.alloc.max)
    → allocate_next_family draws family s owner pool ≡ some (s', ok r)
    → allocate_next_family draws' family s' owner' pool' ≡ some (s'', ok r')
    → r.ip ≢ r'.ip
allocate_next_family_distinct draws draws' family s s' s'' owner owner' pool pool' a r r' n n' here
      v d d' h h' e =
    let g : Granted family a s owner pool s' r =
      settled draws family s owner pool a (s', ok r) n here v d h in
    let g' : Granted family g.after s' owner' pool' s'' r' =
      settled draws' family s' owner' pool' g.after (s'', ok r') n' g.is_after g.ready
        (λ k p. omega (arith, g.same_max, d' k (omega (arith, g.same_max)))) h' in
    cc (g.now_held, g'.was_free, ap (has g.after) e)
