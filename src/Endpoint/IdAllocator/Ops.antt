-- ===== src/Endpoint/IdAllocator/Ops.antt =====
-- The calls of id_allocator.rs against the set of ids that are still free.
use sarena.Prelude.{
  ℕ, ◌%◌, ◌<◌, ◌≡◌, ◌≢◌, refl, ap, ◌⊎◌, inl, inr, true, false, not, ◌&&◌, none, some, List, [], ◌∷◌,
  nat_eq, ltb, arith, length, Bool-cases,
}
use sarena.Prelude.Set.{
  member, insert, remove, member-insert, member-remove, member-get_elem?, get_elem?-some,
  remove-IsDistinct, insert-IsDistinct, length-remove,
}
use sarena.Endpoint.Error.{ok}
use sarena.Endpoint.IdAllocator.{EndpointId, min_id, max_id, IdAllocator, allocate, reuse, release}
use sarena.Endpoint.IdAllocator.Avail.{
  avail, Unchanged, IsValid, AllowsReuse, AllowsRelease, AllowsAllocate,
}

pub reuse-AllowsReuse : (id : EndpointId) (a : IdAllocator) → IsValid a → AllowsReuse id a
unfolding reuse
reuse-AllowsReuse id a v = record {
  low = λ h. ground arith;
  high = λ h. ground arith;
  given = λ h1 h2 m. (ground arith, λ j. ground (arith, member-remove id j a.cache.ids));
  in_use = λ h1 h2 m. (ground arith, λ j. ground (arith, member-remove id j a.cache.ids));
}

not-leased : (id : EndpointId) (a : IdAllocator) → IsValid a → member id a.cache.leased ≡ false
unfolding member
not-leased id a v = ap (member id) v.unleased

pub release-AllowsRelease : (id : EndpointId) (a : IdAllocator) → IsValid a → AllowsRelease id a
unfolding release
release-AllowsRelease id a v = record {
  given = λ m. (
    ground (arith, not-leased id a v),
    λ j. ground (arith, not-leased id a v, member-insert id j a.cache.ids),
  );
  free = λ m. (ground (arith, not-leased id a v), ground (arith, not-leased id a v));
}

-- The allocator once `id` is taken out.
abbrev pub without : IdAllocator → EndpointId → IdAllocator
without a id = record { cache = record a.cache { ids = remove id a.cache.ids } }

List-cases : (xs : List EndpointId) → (xs ≡ []) ⊎ (0 < length xs)
List-cases [] = inl refl
List-cases (x ∷ xs) = inr (omega arith)

pub allocate_cases :
    (pick : ℕ) (a : IdAllocator)
    → ((a.cache.ids ≡ []) × (allocate pick a ≡ (a, none)))
      ⊎ ((id : EndpointId) × (avail a id ≡ true) × (allocate pick a ≡ (without a id, some id)))
unfolding allocate
allocate_cases pick a = elim (List-cases a.cache.ids) [
  | inl e ↦ inl (e, ground arith)
  | inr l ↦
      let g = get_elem?-some a.cache.ids (pick % length a.cache.ids) (omega arith) in
      inr
        (g.0, member-get_elem? (pick % length a.cache.ids) a.cache.ids g.0 g.1, ground (arith, g.1))
]

pub allocate-AllowsAllocate : (pick : ℕ) (a : IdAllocator) → IsValid a → AllowsAllocate pick a
allocate-AllowsAllocate pick a v = elim (allocate_cases pick a) [
  | inl (e, h) ↦ record {
    given = λ id q. ground (arith, h);
    exhausted = (λ _. e, λ _. ap (λ r. r.1) h);
    counted = ground (arith, h);
  }
  | inr (id, m, h) ↦ record {
    given = λ j q. (ground (arith, h), λ i. ground (arith, h, member-remove id i a.cache.ids));
    exhausted =
        (λ q. ground (arith, h), λ q. ground (arith, length-remove id a.cache.ids v.distinct m));
    counted = ground (arith, h, length-remove id a.cache.ids v.distinct m);
  }
]

pub allocate-IsValid : (pick : ℕ) (a : IdAllocator) → IsValid a → IsValid (allocate pick a).0
allocate-IsValid pick a v = elim (allocate_cases pick a) [
  | inl (e, h) ↦ rw h v
  | inr (id, m, h) ↦
      rw h
        (record { distinct = remove-IsDistinct id a.cache.ids v.distinct; unleased = v.unleased })
]

remove-leased : (id : EndpointId) (a : IdAllocator) → IsValid a → remove id a.cache.leased ≡ []
unfolding remove
remove-leased id a v = ap (remove id) v.unleased

reuse_cases :
    (id : EndpointId) (a : IdAllocator)
    → ((reuse id a).0 ≡ a)
      ⊎ ((reuse id a).0 ≡ record {
        cache = record { ids = remove id a.cache.ids; leased = remove id a.cache.leased };
      })
unfolding reuse
reuse_cases id a = elim (Bool-cases (ltb id min_id)) [
  | inl e ↦ inl (ground arith)
  | inr e ↦ elim (Bool-cases (ltb max_id id)) [
    | inl f ↦ inl (ground arith)
    | inr f ↦ inr (ground arith)
  ]
]

pub reuse-IsValid : (id : EndpointId) (a : IdAllocator) → IsValid a → IsValid (reuse id a).0
reuse-IsValid id a v = elim (reuse_cases id a) [
  | inl e ↦ rw e v
  | inr e ↦ rw e (record {
    distinct = remove-IsDistinct id a.cache.ids v.distinct;
    unleased = remove-leased id a v;
  })
]

release_cases :
    (id : EndpointId) (a : IdAllocator)
    → ((release id a).0 ≡ a)
      ⊎ ((release id a).0 ≡ record { cache = record a.cache { ids = insert id a.cache.ids } })
unfolding release
release_cases id a =
    elim (Bool-cases (not (member id a.cache.leased) && not (member id a.cache.ids))) [
      | inl e ↦ inr (ground arith)
      | inr e ↦ inl (ground arith)
    ]

pub release-IsValid : (id : EndpointId) (a : IdAllocator) → IsValid a → IsValid (release id a).0
release-IsValid id a v = elim (release_cases id a) [
  | inl e ↦ rw e v
  | inr e ↦
      rw e
        (record { distinct = insert-IsDistinct id a.cache.ids v.distinct; unleased = v.unleased })
]

-- An id that `allocate` gave can be released once: the allocator then has what it had before, and
-- a second release is refused.
pub allocate-release :
    (pick : ℕ) (a : IdAllocator) (id : EndpointId)
    → IsValid a
    → (allocate pick a).1 ≡ some id
    → let b = (release id (allocate pick a).0).0 in
      ((release id (allocate pick a).0).1 ≡ ok tt) × Unchanged a b × ((release id b).1 ≢ ok tt)
allocate-release pick a id v h =
    let w = allocate-IsValid pick a v in
    let s = (allocate-AllowsAllocate pick a v).given id h in
    let r = (release-AllowsRelease id (allocate pick a).0 w).given (ground (arith, s.1 id)) in
    (
      r.0,
      λ j. ground (arith, s.0, s.1 j, r.1 j),
      ((release-AllowsRelease id (release id (allocate pick a).0).0
            (release-IsValid id (allocate pick a).0 w)).free
          (ground (arith, r.1 id))).0,
    )
