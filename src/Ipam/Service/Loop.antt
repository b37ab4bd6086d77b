-- ===== src/Ipam/Service/Loop.antt =====
-- The loop of `allocate_next_family`: it ends, and what it grants.
use Prim.Native.String.{◌++◌}
use mathlib.Core.Path.{subst}
use sarena.Prelude.{
  ℕ, zero, suc, ◌+◌, ◌<◌, ◌≡◌, refl, sym, ap, ◌∙◌, inl, inr, true, false, some, String, ◌=?◌,
  =?_refl, string_eq, arith, Bool-cases,
}
use sarena.Prelude.Map.{contains_key}
use sarena.Net.{IpAddr, Family, ip_eq}
use sarena.Net.Text.{ip_to_string}
use sarena.Ipam.Error.{IpamError, Res, ok, err}
use sarena.Ipam.Bitmap.Valid.{count-le-max}
use sarena.Ipam.HostScope.{HostScopeAllocator, contains, has}
use sarena.Ipam.HostScope
use sarena.Ipam.HostScope.Range.{IsReady}
use sarena.Ipam.HostScope.Held.{allocate_next-IsReady}
use sarena.Ipam.HostScope.Ops.{
  AllowsAllocateNext, allocate_next-AllowsAllocateNext, contains-allocate_next,
  max-allocate_next_alloc, count-allocate_next_alloc,
}
use sarena.Ipam.Service.{
  AllocationResult, State, allocator, put_allocator, register_ip_owner, exclusion_key, from_default,
  allocate_next_loop, rounds, allocate_next_family,
}
use sarena.Ipam.Service.Owner.{get_ip_owner-register_ip_owner}
use sarena.Ipam.Service.Outcome.{
  Granted, Exhausted, Settles, allocator-put, allocator-register, excluded-put, excluded-register,
  round_full, round_granted, round_skipped, skipped, Result-cases,
}

-- A round that skips an excluded address passes on what the rest of the loop settles.
module _ (family : Family) (s t : State) (owner pool : String) (a b : HostScopeAllocator)
    (m : b.alloc.max ≡ a.alloc.max) (x : t.excluded_ips ≡ s.excluded_ips)
    (c : (j : IpAddr) → contains b j ≡ contains a j)
    (k : (j : IpAddr) → has a j ≡ true → has b j ≡ true) where
  free_before : (j : IpAddr) → has b j ≡ false → has a j ≡ false
  free_before j h = elim (Bool-cases (has a j)) [ inl e ↦ cc (k j e) | inr e ↦ e ]

  Settles-skip :
      (out : State × Res AllocationResult)
      → Settles family b t owner pool out
      → Settles family a s owner pool out
  Settles-skip (s', ok r) g = record {
    after = g.after;
    is_after = g.is_after;
    ready = g.ready;
    managed = (g.managed.0, sym (c r.ip) ∙ g.managed.1);
    same_max = g.same_max ∙ m;
    same_range = λ j. g.same_range j ∙ c j;
    was_free = free_before r.ip g.was_free;
    now_held = g.now_held;
    kept = λ j h. g.kept j (k j h);
    allowed = ap (contains_key (exclusion_key pool r.ip)) (sym x) ∙ g.allowed;
    owned = g.owned;
    pool_name = g.pool_name;
  }
  Settles-skip (s', err e) g = record {
    after = g.after;
    is_after = g.is_after;
    ready = g.ready;
    reason = g.reason;
    all_held = λ ip o h. g.all_held ip o (c ip ∙ h);
    kept = λ j h. g.kept j (k j h);
  }

module _ (draws : ℕ → ℕ) (i : ℕ) (family : Family) (s : State) (owner pool : String)
    (a : HostScopeAllocator) (v : IsReady a) (d : 0 < a.alloc.max → draws i < a.alloc.max) where
  abbrev after_draw : HostScopeAllocator
  after_draw = (HostScope.allocate_next a (draws i)).0

  abbrev state_after : State
  state_after = put_allocator family after_draw s

  answer_lem :
      (r : Res IpAddr)
      → (HostScope.allocate_next a (draws i)).1 ≡ r
      → AllowsAllocateNext a r after_draw
  answer_lem r h =
      subst (λ x. AllowsAllocateNext a x after_draw) h
        (allocate_next-AllowsAllocateNext v (draws i) d)

  full-Exhausted :
      (e : IpamError)
      → (HostScope.allocate_next a (draws i)).1 ≡ err e
      → Exhausted family a state_after e
  full-Exhausted e h = record {
    after = after_draw;
    is_after = allocator-put family after_draw s;
    ready = allocate_next-IsReady (draws i) v;
    reason = (answer_lem (err e) h).0;
    all_held = λ ip o k. (answer_lem (err e) h).2 ip ∙ (answer_lem (err e) h).1 ip o k;
    kept = λ j k. (answer_lem (err e) h).2 j ∙ k;
  }

  draw_keeps :
      (ip : IpAddr)
      → (HostScope.allocate_next a (draws i)).1 ≡ ok ip
      → (j : IpAddr) → has a j ≡ true
      → has after_draw j ≡ true
  draw_keeps ip h j k = ground (arith, (answer_lem (ok ip) h).2 j)

  Granted-answer :
      (ip : IpAddr)
      → (HostScope.allocate_next a (draws i)).1 ≡ ok ip
      → contains_key (exclusion_key pool ip) state_after.excluded_ips ≡ false
      → Granted family a s owner pool
          (register_ip_owner state_after ip owner pool)
          (from_default ip)
  Granted-answer ip h x = record {
    after = after_draw;
    is_after =
        allocator-register family state_after ip owner pool ∙ allocator-put family after_draw s;
    ready = allocate_next-IsReady (draws i) v;
    managed = (answer_lem (ok ip) h).0;
    same_max = max-allocate_next_alloc a (draws i);
    same_range = contains-allocate_next a (draws i);
    was_free = (answer_lem (ok ip) h).1;
    now_held = (answer_lem (ok ip) h).2 ip ∙ rw (=?_refl ip);
    kept = draw_keeps ip h;
    allowed =
        ap (contains_key (exclusion_key pool ip)) (sym (excluded-put family after_draw s)) ∙ x;
    owned =
        get_ip_owner-register_ip_owner state_after ip owner pool (ip_to_string ip) pool
        ∙ rw (=?_refl pool, =?_refl (ip_to_string ip));
    pool_name = refl;
  }

-- The loop, with fuel for the addresses that are still free and one round more, returns, and
-- settles as above.
loop-Settles :
    (fuel : ℕ) (draws : ℕ → ℕ) (i : ℕ) (family : Family) (s : State) (owner pool : String)
    (a : HostScopeAllocator)
    → allocator family s ≡ some a
    → IsReady a
    → ((k : ℕ) → 0 < a.alloc.max → draws k < a.alloc.max)
    → a.alloc.max < fuel + a.alloc.count
    → (out : State × Res AllocationResult) × (allocate_next_loop fuel draws i family s owner pool
        ≡ some out)
      × Settles family a s owner pool out
loop-Settles zero draws i family s owner pool a here v d f =
    absurd (omega (arith, count-le-max v.alloc_ok))
loop-Settles (suc fuel) draws i family s owner pool a here v d f =
    elim (Result-cases (HostScope.allocate_next a (draws i)).1) [
      | inl (e, h) ↦ (
        (state₁, err e),
        round_full fuel draws i family s owner pool a here e h,
        full-Exhausted draws i family s owner pool a v (d i) e h,
      )
      | inr (ip, h) ↦ elim (Bool-cases (contains_key (exclusion_key pool ip) state₁.excluded_ips)) [
        | inr x ↦ (
          (register_ip_owner state₁ ip owner pool, ok (from_default ip)),
          round_granted fuel draws i family s owner pool a here ip h x,
          Granted-answer draws i family s owner pool a v (d i) ip h x,
        )
        | inl x ↦
            let next = skipped fuel draws i family s owner pool a here ip in
            let rest =
              loop-Settles fuel draws (i + 1) family next owner pool drawn₁
                (allocator-register family state₁ ip (owner ++ " (excluded)") pool
                  ∙ allocator-put family drawn₁ s)
                (allocate_next-IsReady (draws i) v) (λ k p. draws_below k p)
                (omega (
                  arith,
                  max-allocate_next_alloc a (draws i),
                  count-allocate_next_alloc a (draws i) ip h,
                )) in
            (
              rest.0,
              round_skipped fuel draws i family s owner pool a here ip h x ∙ rest.1,
              Settles-skip family s next owner pool a drawn₁ (max-allocate_next_alloc a (draws i))
                  (excluded-register state₁ ip (owner ++ " (excluded)") pool
                    ∙ excluded-put family drawn₁ s)
                  (contains-allocate_next a (draws i))
                  (draw_keeps draws i family s owner pool a v (d i) ip h) rest.0 rest.2,
            )
      ]
    ]
  where
    drawn₁ : HostScopeAllocator
    drawn₁ = (HostScope.allocate_next a (draws i)).0

    state₁ : State
    state₁ = put_allocator family drawn₁ s

    draws_below : (k : ℕ) → 0 < drawn₁.alloc.max → draws k < drawn₁.alloc.max
    draws_below k p = omega (
      arith,
      max-allocate_next_alloc a (draws i),
      d k (omega (arith, max-allocate_next_alloc a (draws i))),
    )

rounds-eq :
    (family : Family) (s : State) (a : HostScopeAllocator)
    → allocator family s ≡ some a
    → rounds family s ≡ a.alloc.max + 1
rounds-eq family s a here = rw (here, rounds)

-- For a pool that is named and a family whose allocator is ready, with draws below the number of
-- its addresses, `allocate_next_family` returns. It either grants a managed address that was free
-- and is not excluded, which it then holds for the owner in that pool under the name of the default
-- pool, or fails with `range_full`, every managed address being held; and no address that was held
-- is given up.
pub allocate_next_family-Settles :
    (draws : ℕ → ℕ) (family : Family) (s : State) (owner pool : String) (a : HostScopeAllocator)
    → (pool =? "") ≡ false
    → allocator family s ≡ some a
    → IsReady a
    → ((k : ℕ) → 0 < a.alloc.max → draws k < a.alloc.max)
    → (out : State × Res AllocationResult) × (allocate_next_family draws family s owner pool
        ≡ some out)
      × Settles family a s owner pool out
unfolding allocate_next_family
allocate_next_family-Settles draws family s owner pool a named here v d =
    rw (named, rounds-eq family s a here)
      (loop-Settles (a.alloc.max + 1) draws 0 family s owner pool a here v d (omega arith))
