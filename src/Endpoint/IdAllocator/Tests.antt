-- ===== src/Endpoint/IdAllocator/Tests.antt =====
-- The unit tests of id_allocator.rs, and each theorem at a concrete allocator.
use sarena.Prelude.{◌≡◌, ◌≢◌, refl, ◌&&◌, [], ◌∷◌, some, nat_eq, leb, length, arith}
use sarena.Prelude.Set.{member, remove, IsDistinct}
use sarena.Endpoint.Error.{ok}
use sarena.Endpoint.IdAllocator.{
  EndpointId, min_id, max_id, IdAllocator, new, allocate, reuse, remove_id, new_lease, commit, drop,
}
use sarena.Endpoint.IdAllocator.Avail.{Unchanged, IsValid}
use sarena.Endpoint.IdAllocator.Drain.{drain, drain-new, drop_lem}

-- Three free ids.
abbrev three : IdAllocator
three = record { cache = record { ids = 1 ∷ 2 ∷ 3 ∷ []; leased = [] } }

three-IsValid : IsValid three
unfolding member
three-IsValid = record { distinct = (refl, (refl, (refl, tt))); unleased = refl }

three_gives_second : (allocate 4 three).1 ≡ some 2
unfolding allocate
three_gives_second = refl

reuse_taken_fails_twice : (reuse 2 (reuse 2 three).0).1 ≢ ok tt
unfolding reuse remove_id member remove
reuse_taken_fails_twice h = ground arith

drop_lem_example :
    Unchanged three (drop (new_lease 2) (allocate 4 three).0)
    × (drop (commit (new_lease 2)).0 (allocate 4 three).0 ≡ (allocate 4 three).0)
drop_lem_example = drop_lem 4 three 2 three-IsValid three_gives_second

drain-new_example :
    IsDistinct (drain (λ n. n) 4095 new).1
    × (length (drain (λ n. n) 4095 new).1 ≡ 4095)
    × ((j : EndpointId) → member j (drain (λ n. n) 4095 new).1 ≡ (leb min_id j && leb j max_id))
    × ((drain (λ n. n) 4095 new).0.cache.ids ≡ [])
drain-new_example = drain-new (λ n. n)
