-- ===== src/Endpoint/IdAllocator/Answers.antt =====
-- What each call of id_allocator.rs answers, and what the allocator is then.
use sarena.Prelude.{
  ℕ, ◌≤◌, ◌<◌, ◌≡◌, refl, ◌⊎◌, inl, inr, true, false, Option, none, some, [], nat_eq, arith, ap,
  Bool-cases,
}
use mathlib.Core.Path.{subst}
use native.Mathlib.Decide.{dec_lt}
use sarena.Endpoint.Error.{Res, ok, err}
use sarena.Endpoint.IdAllocator.{EndpointId, min_id, max_id, IdAllocator, allocate, reuse, release}
use sarena.Endpoint.IdAllocator.Avail.{avail, Differs, Unchanged, IsValid}
use sarena.Endpoint.IdAllocator.Ops.{
  allocate_cases, allocate-AllowsAllocate, reuse-AllowsReuse, release-AllowsRelease,
  allocate-IsValid, reuse-IsValid, release-IsValid,
}

abbrev pub Allocated : IdAllocator → IdAllocator × Option EndpointId → Type 0
Allocated a (b, some id) = IsValid b × (avail a id ≡ true) × Differs a b id false
Allocated a (b, none) = (b ≡ a) × (a.cache.ids ≡ [])

abbrev pub Reused : EndpointId → IdAllocator → IdAllocator × Res (Unit {0}) → Type 0
Reused id a (b, ok _) =
    ((max_id < id) × (b ≡ a))
    ⊎ ((min_id ≤ id) × (id ≤ max_id) × IsValid b × (avail a id ≡ true) × Differs a b id false)
Reused id a (b, err _) =
    IsValid b × Unchanged a b × ((id < min_id) ⊎ ((id ≤ max_id) × (avail a id ≡ false)))

abbrev pub Released : EndpointId → IdAllocator → IdAllocator × Res (Unit {0}) → Type 0
Released id a (b, ok _) = IsValid b × (avail a id ≡ false) × Differs a b id true
Released id a (b, err _) = (b ≡ a) × (avail a id ≡ true)

allocate_answers :
    (pick : ℕ) (a : IdAllocator) (r : IdAllocator × Option EndpointId)
    → allocate pick a ≡ r
    → IsValid a
    → Allocated a r
allocate_answers pick a (b, some id) h v =
    let s = (allocate-AllowsAllocate pick a v).given id (ap (λ r. r.1) h) in
    (
      subst IsValid (ap (λ r. r.0) h) (allocate-IsValid pick a v),
      s.0,
      λ j. ground (arith, s.1 j, h),
    )
allocate_answers pick a (b, none) h v = elim (allocate_cases pick a) [
  | inl (e, g) ↦ (ground (arith, g, h), e)
  | inr (id, m, g) ↦ absurd (ground (arith, g, h))
]

-- On a valid allocator, `allocate` gives a free id, which is then the only one that is no longer
-- free, and the allocator stays valid; or it gives none, nothing changes and no id is free.
pub allocate-Allocated : (pick : ℕ) (a : IdAllocator) → IsValid a → Allocated a (allocate pick a)
allocate-Allocated pick a v = allocate_answers pick a (allocate pick a) refl v

reuse_answers :
    (id : EndpointId) (a : IdAllocator) (r : IdAllocator × Res (Unit {0}))
    → reuse id a ≡ r
    → IsValid a
    → Reused id a r
reuse_answers id a (b, ok tt) h v =
    let s = reuse-AllowsReuse id a v in
    elim (dec_lt max_id id) [
      | yes hi ↦ inl (hi, ground (arith, s.high hi, h))
      | no in_range ↦ elim (dec_lt id min_id) [
        | yes lo ↦ absurd ((s.low lo).1 (ap (λ r. r.1) h))
        | no above ↦ elim (Bool-cases (avail a id)) [
          | inl m ↦ inr (
            omega (arith, above),
            omega (arith, in_range),
            subst IsValid (ap (λ r. r.0) h) (reuse-IsValid id a v),
            m,
            λ j.
                ground (arith, (s.given (omega (arith, above)) (omega (arith, in_range)) m).1 j, h),
          )
          | inr m ↦
              absurd
                ((s.in_use (omega (arith, above)) (omega (arith, in_range)) m).0 (ap (λ r. r.1) h))
        ]
      ]
    ]
reuse_answers id a (b, err e) h v =
    let s = reuse-AllowsReuse id a v in
    let w = subst IsValid (ap (λ r. r.0) h) (reuse-IsValid id a v) in
    elim (dec_lt max_id id) [
      | yes hi ↦ absurd (ground (arith, s.high hi, h))
      | no in_range ↦ elim (dec_lt id min_id) [
        | yes lo ↦ (w, λ j. ground (arith, (s.low lo).0, h), inl lo)
        | no above ↦ elim (Bool-cases (avail a id)) [
          | inl m ↦
              absurd
                (ground (arith, (s.given (omega (arith, above)) (omega (arith, in_range)) m).0, h))
          | inr m ↦ (
            w,
            λ j.
                ground
                  (arith, (s.in_use (omega (arith, above)) (omega (arith, in_range)) m).1 j, h),
            inr (omega (arith, in_range), m),
          )
        ]
      ]
    ]

-- On a valid allocator, `reuse` succeeds on a free id in bounds, which alone is then taken, and on
-- every id above the largest one, for which nothing changes; it fails on an id below the smallest
-- one and on an id that is taken, and then no id changes. The allocator stays valid.
pub reuse-Reused : (id : EndpointId) (a : IdAllocator) → IsValid a → Reused id a (reuse id a)
reuse-Reused id a v = reuse_answers id a (reuse id a) refl v

release_answers :
    (id : EndpointId) (a : IdAllocator) (r : IdAllocator × Res (Unit {0}))
    → release id a ≡ r
    → IsValid a
    → Released id a r
release_answers id a (b, ok tt) h v =
    let s = release-AllowsRelease id a v in
    elim (Bool-cases (avail a id)) [
      | inl m ↦ absurd ((s.free m).0 (ap (λ r. r.1) h))
      | inr m ↦ (
        subst IsValid (ap (λ r. r.0) h) (release-IsValid id a v),
        m,
        λ j. ground (arith, (s.given m).1 j, h),
      )
    ]
release_answers id a (b, err e) h v =
    let s = release-AllowsRelease id a v in
    elim (Bool-cases (avail a id)) [
      | inl m ↦ (ground (arith, (s.free m).1, h), m)
      | inr m ↦ absurd (ground (arith, (s.given m).0, h))
    ]

-- On a valid allocator, `release` adds an id that is not free, and no other, and fails, changing
-- nothing, on one that is free. The allocator stays valid.
pub release-Released :
    (id : EndpointId) (a : IdAllocator) → IsValid a → Released id a (release id a)
release-Released id a v = release_answers id a (release id a) refl v
