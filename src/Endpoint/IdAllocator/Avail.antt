-- ===== src/Endpoint/IdAllocator/Avail.antt =====
-- The allocator as the set of ids that it can still give.
use sarena.Prelude.{
  ℕ, zero, suc, ◌+◌, ◌≤◌, ◌<◌, ◌-◌, ◌↔◌, ◌≡◌, ◌≢◌, refl, Bool, true, false, ◌&&◌, none, some, [],
  nat_eq, ◌==◌, ltb, leb, if◌then◌else◌, arith, length,
}
use sarena.Prelude.Set.{member, IsDistinct}
use sarena.Endpoint.Error.{ok}
use sarena.Endpoint.IdAllocator.{
  EndpointId, min_id, max_id, id_range, IdAllocator, new, allocate, reuse, release,
}

abbrev pub avail : IdAllocator → EndpointId → Bool
avail a id = member id a.cache.ids

-- `b` has what `a` has, but for `id`.
abbrev pub Differs : IdAllocator → IdAllocator → EndpointId → Bool → Type 0
Differs a b id x = (j : EndpointId) → avail b j ≡ (if id == j then x else avail a j)

abbrev pub Unchanged : IdAllocator → IdAllocator → Type 0
Unchanged a b = (j : EndpointId) → avail b j ≡ avail a j

-- No id stands twice, and nothing is recorded as leased.
pub record IsValid (a : IdAllocator) : Type 0 where
  pub distinct : IsDistinct a.cache.ids
  pub unleased : a.cache.leased ≡ []

member-id_range : (x start n : ℕ) → member x (id_range start n) ≡ (leb start x && ltb x (start + n))
unfolding member id_range
member-id_range x start zero = ground arith
member-id_range x start (suc n) = ground (arith, member-id_range x (start + 1) n)

pub length-id_range : (start n : ℕ) → length (id_range start n) ≡ n
unfolding id_range
length-id_range start zero = refl
length-id_range start (suc n) = ground (arith, length-id_range (start + 1) n)

id_range-IsDistinct : (start n : ℕ) → IsDistinct (id_range start n)
unfolding id_range
id_range-IsDistinct start zero = tt
id_range-IsDistinct start (suc n) =
    (ground (arith, member-id_range start (start + 1) n), id_range-IsDistinct (start + 1) n)

pub new-IsValid : IsValid new
unfolding new
new-IsValid = record { distinct = id_range-IsDistinct 1 4095; unleased = refl }

pub avail-new : (id : EndpointId) → avail new id ≡ (leb min_id id && leb id max_id)
unfolding new
avail-new id = ground (arith, member-id_range id 1 4095)

-- What `reuse` does, by the id and by whether it is free.
pub record AllowsReuse (id : EndpointId) (a : IdAllocator) : Type 0 where
  pub low : id < min_id → ((reuse id a).0 ≡ a) × ((reuse id a).1 ≢ ok tt)
  pub high : max_id < id → reuse id a ≡ (a, ok tt)
  pub given :
      min_id ≤ id
      → id ≤ max_id
      → avail a id ≡ true
      → ((reuse id a).1 ≡ ok tt) × Differs a (reuse id a).0 id false
  pub in_use :
      min_id ≤ id
      → id ≤ max_id
      → avail a id ≡ false
      → ((reuse id a).1 ≢ ok tt) × Unchanged a (reuse id a).0

-- What `release` does, by whether the id is free.
pub record AllowsRelease (id : EndpointId) (a : IdAllocator) : Type 0 where
  pub given : avail a id ≡ false → ((release id a).1 ≡ ok tt) × Differs a (release id a).0 id true
  pub free : avail a id ≡ true → ((release id a).1 ≢ ok tt) × ((release id a).0 ≡ a)

-- What `allocate` does, by its answer.
pub record AllowsAllocate (pick : ℕ) (a : IdAllocator) : Type 0 where
  pub given :
      (id : EndpointId)
      → (allocate pick a).1 ≡ some id
      → (avail a id ≡ true) × Differs a (allocate pick a).0 id false
  pub exhausted : (allocate pick a).1 ≡ none ↔ a.cache.ids ≡ []
  pub counted : length (allocate pick a).0.cache.ids ≡ length a.cache.ids - 1
