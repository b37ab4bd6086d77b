-- ===== src/Ipam/HostScope/Ops.antt =====
-- The allocator against its specification: a set of held addresses inside the managed range.
use sarena.Prelude.{
  ℕ, ◌+◌, ◌<◌, ◌≡◌, refl, ◌∙◌, ◌⊎◌, inl, inr, Bool, true, false, not, Option, none, some,
  if◌then◌else◌, arith, Option-cases,
}
use sarena.Net.{IpAddr, ip_eq}
use sarena.Ipam.Error.{not_in_range, already_allocated, range_full, Res, ok, err}
use sarena.Ipam.Bitmap.{AllocationBitmap, get_bit}
use sarena.Ipam.Bitmap
use sarena.Ipam.Bitmap.Valid.{
  allocate-IsValid, release-IsValid, allocate_next-IsValid, max-allocate, max-release,
  max-allocate_next, count-allocate_next,
}
use sarena.Ipam.Bitmap.Refine.{
  Allows, allocates, allocates_next, granted, next, view, Same, allocate-Allows, release-Allows,
  allocate_next-Allows,
}
use sarena.Ipam.HostScope.{
  HostScopeAllocator, contains, offset_to_ip, allocate, allocate_next, release, has,
}
use sarena.Ipam.HostScope.Range.{IsReady, contains_iff, contains-offset_to_ip}
use sarena.Ipam.HostScope.Held.{
  contains-alloc, IsReady-alloc, has-some, has-none, Differs, Unchanged, has-Differs,
}

-- The specification of each operation, on every outcome.
abbrev pub AllowsAllocate : HostScopeAllocator → IpAddr → Res IpAddr → HostScopeAllocator → Type 0
AllowsAllocate a ip (ok got) b =
    (got ≡ ip) × ((o : ℕ) × (contains a ip ≡ some o)) × (has a ip ≡ false) × Differs a b ip true
AllowsAllocate a ip (err e) b =
    ((e ≡ not_in_range a.net.to_string) × (contains a ip ≡ none)
      ⊎ (e ≡ already_allocated) × (has a ip ≡ true))
    × Unchanged a b

abbrev pub AllowsAllocateNext : HostScopeAllocator → Res IpAddr → HostScopeAllocator → Type 0
AllowsAllocateNext a (ok ip) b =
    ((o : ℕ) × (contains a ip ≡ some o)) × (has a ip ≡ false) × Differs a b ip true
AllowsAllocateNext a (err e) b =
    (e ≡ range_full)
    × ((ip : IpAddr) (o : ℕ) → contains a ip ≡ some o → has a ip ≡ true)
    × Unchanged a b

abbrev pub AllowsRelease : HostScopeAllocator → IpAddr → HostScopeAllocator → Type 0
AllowsRelease a ip b =
    ((o : ℕ) × (contains a ip ≡ some o)) × Differs a b ip false
    ⊎ (contains a ip ≡ none) × Unchanged a b

module _ (a : HostScopeAllocator) (ip : IpAddr) where
  allocate-none : contains a ip ≡ none → allocate a ip ≡ (a, err (not_in_range a.net.to_string))
  unfolding allocate
  allocate-none e = rw (e, allocate)

  allocate-some :
      (o : ℕ)
      → contains a ip ≡ some o
      → allocate a ip ≡ (
        record a { alloc = (Bitmap.allocate a.alloc o).0 },
        if not (Bitmap.allocate a.alloc o).1 then err already_allocated else ok ip,
      )
  unfolding allocate
  allocate-some o e = rw (e, allocate)

  release-none : contains a ip ≡ none → release a ip ≡ a
  unfolding release
  release-none e = rw (e, release)

  release-some :
      (o : ℕ)
      → contains a ip ≡ some o
      → release a ip ≡ record a { alloc = Bitmap.release a.alloc o }
  unfolding release
  release-some o e = rw (e, release)

module _ {a : HostScopeAllocator} (v : IsReady a) where
  below_alloc : (ip : IpAddr) (o : ℕ) → contains a ip ≡ some o → o < a.alloc.max
  below_alloc ip o e = omega (arith, v.alloc_max, ((contains_iff ip o v).0 e).2)

  Same-Unchanged :
      (b : AllocationBitmap)
      → IsReady (record a { alloc = b })
      → Same (view a.alloc) (view b)
      → Unchanged a (record a { alloc = b })
  Same-Unchanged b w s j = elim (Option-cases (contains a j)) [
    | inl n ↦ rw (has-none (record a { alloc = b }) j (contains-alloc a b j ∙ n), has-none a j n)
    | inr (k, f) ↦ rw (has-some j k w (contains-alloc a b j ∙ f), has-some j k v f) (s.1 k)
  ]

  granted_case :
      (ip : IpAddr) (o : ℕ) (g : Bool) (b : AllocationBitmap)
      → IsReady (record a { alloc = b })
      → contains a ip ≡ some o
      → Allows (view a.alloc) (allocates o) (granted g) (view b)
      → AllowsAllocate a ip
          (if not g then err already_allocated else ok ip)
          (record a { alloc = b })
  granted_case ip o true b w e s =
      (refl, (o, e), has-some ip o v e ∙ s.1, has-Differs b ip o true v w e s.2)
  granted_case ip o false b w e s = (
    inr (
      refl,
      elim s.0 [
        | inl above ↦ absurd (omega (arith, below_alloc ip o e))
        | inr held ↦ has-some ip o v e ∙ held
      ],
    ),
    Same-Unchanged b w s.1,
  )

  next_case :
      (sample : ℕ) (r : Option ℕ) (b : AllocationBitmap)
      → IsReady (record a { alloc = b })
      → Allows (view a.alloc) (allocates_next sample) (next r) (view b)
      → AllowsAllocateNext a
          (elim r [ none ↦ err range_full | some o ↦ ok (offset_to_ip a.base o a.net) ])
          (record a { alloc = b })
  next_case sample none b w s =
      (refl, λ ip o e. has-some ip o v e ∙ s.0 o (below_alloc ip o e), Same-Unchanged b w s.1)
  next_case sample (some o) b w s =
      let below : o < a.max = omega (arith, s.0, v.alloc_max) in
      let e = contains-offset_to_ip o v below in
      (
        (o, e),
        has-some (offset_to_ip a.base o a.net) o v e ∙ s.1,
        has-Differs b (offset_to_ip a.base o a.net) o true v w e s.2,
      )

  -- On an allocator whose range is ready, `allocate` answers and changes what its specification
  -- says: it grants a managed address that is free, and refuses with the error of the reason; no
  -- other address changes.
  pub allocate-AllowsAllocate :
      (ip : IpAddr) → AllowsAllocate a ip (allocate a ip).1 (allocate a ip).0
  allocate-AllowsAllocate ip = elim (Option-cases (contains a ip)) [
    | inl e ↦ rw (allocate-none a ip e) (inl (refl, e), λ j. refl)
    | inr (o, e) ↦
        let b = (Bitmap.allocate a.alloc o).0 in
        let w = IsReady-alloc b v (allocate-IsValid o v.alloc_ok) (max-allocate a.alloc o) in
        rw (allocate-some a ip o e)
          (granted_case ip o (Bitmap.allocate a.alloc o).1 b w e (allocate-Allows o v.alloc_ok))
  ]

  -- With a sample that `random_range` can draw, `allocate_next` grants a managed address that was
  -- free and holds it, and fails with `range_full` only when every managed address is held; no
  -- other address changes.
  pub allocate_next-AllowsAllocateNext :
      (sample : ℕ)
      → (0 < a.alloc.max → sample < a.alloc.max)
      → AllowsAllocateNext a (allocate_next a sample).1 (allocate_next a sample).0
  unfolding allocate_next
  allocate_next-AllowsAllocateNext sample h =
      let b = (Bitmap.allocate_next a.alloc sample).0 in
      let w =
        IsReady-alloc b v (allocate_next-IsValid sample v.alloc_ok)
          (max-allocate_next a.alloc sample) in
      next_case sample (Bitmap.allocate_next a.alloc sample).1 b w
        (allocate_next-Allows sample v.alloc_ok h)

  -- `release` frees a managed address and nothing else, and does nothing for any other address.
  pub release-AllowsRelease : (ip : IpAddr) → AllowsRelease a ip (release a ip)
  release-AllowsRelease ip = elim (Option-cases (contains a ip)) [
    | inl e ↦ rw (release-none a ip e) (inr (e, λ j. refl))
    | inr (o, e) ↦
        let b = Bitmap.release a.alloc o in
        let w = IsReady-alloc b v (release-IsValid o v.alloc_ok) (max-release a.alloc o) in
        rw (release-some a ip o e) (elim (release-Allows o v.alloc_ok) [
          | inl s ↦ inl ((o, e), has-Differs b ip o false v w e s.1)
          | inr s ↦ absurd (omega (arith, s.0, below_alloc ip o e))
        ])
  ]

module _ (a : HostScopeAllocator) (sample : ℕ) where
  pub contains-allocate_next :
      (ip : IpAddr) → contains (allocate_next a sample).0 ip ≡ contains a ip
  unfolding allocate_next contains
  contains-allocate_next ip = refl

  pub max-allocate_next_alloc : (allocate_next a sample).0.alloc.max ≡ a.alloc.max
  unfolding allocate_next
  max-allocate_next_alloc = max-allocate_next a.alloc sample

  pub family-allocate_next : (allocate_next a sample).0.net.family ≡ a.net.family
  unfolding allocate_next
  family-allocate_next = refl

  pub count-allocate_next_alloc :
      (ip : IpAddr)
      → (allocate_next a sample).1 ≡ ok ip
      → (allocate_next a sample).0.alloc.count ≡ a.alloc.count + 1
  unfolding allocate_next
  count-allocate_next_alloc ip h = elim (Option-cases (Bitmap.allocate_next a.alloc sample).1) [
    | inl e ↦ cc (rw (e, allocate_next) at h)
    | inr (o, e) ↦ count-allocate_next a.alloc sample o e
  ]
