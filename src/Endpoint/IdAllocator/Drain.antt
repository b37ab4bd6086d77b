-- ===== src/Endpoint/IdAllocator/Drain.antt =====
-- What a run of `allocate` calls gives, and the leases that hold what it gave.
use sarena.Prelude.{
  ℕ, zero, suc, ◌+◌, ◌≤◌, ◌<◌, ◌≡◌, refl, ap, inl, inr, true, false, not, ◌&&◌, Option, none, some,
  List, [], ◌∷◌, nat_eq, leb, arith, length,
}
use sarena.Prelude.Set.{member, remove-IsDistinct, IsDistinct, member-remove, length-remove}
use sarena.Endpoint.Error.{ok}
use sarena.Endpoint.IdAllocator.{
  EndpointId, min_id, max_id, IdAllocator, new, allocate, reuse, new_lease, commit, drop,
}
use sarena.Endpoint.IdAllocator.Avail.{
  avail, Unchanged, IsValid, new-IsValid, avail-new, length-id_range,
}
use sarena.Endpoint.IdAllocator.Ops.{
  allocate_cases, without, reuse-AllowsReuse, release-AllowsRelease, allocate-release,
}

-- `n` calls of `allocate` in a row: the ids they give, where a call gives one.
unfoldable pub drain : (ℕ → ℕ) → ℕ → IdAllocator → IdAllocator × List EndpointId
drain pick zero a = (a, [])
drain pick (suc n) a =
    let (b, given) = allocate (pick n) a in
    let (c, ids) = drain pick n b in (c, elim given [ none ↦ ids | some id ↦ id ∷ ids ])

-- What the calls gave: no id twice, each one free before, and none free after.
pub record Drained (a : IdAllocator) (n : ℕ) (r : IdAllocator × List EndpointId) : Type 0 where
  pub distinct : IsDistinct r.1
  pub was_free : (j : EndpointId) → member j r.1 ≡ true → avail a j ≡ true
  pub left : (j : EndpointId) → avail r.0 j ≡ (avail a j && not (member j r.1))
  pub many : n ≤ length a.cache.ids → length r.1 ≡ n
  pub count : length r.1 + length r.0.cache.ids ≡ length a.cache.ids
  pub few : length a.cache.ids ≤ n → length r.1 ≡ length a.cache.ids

drain_step :
    (pick : ℕ → ℕ) (n : ℕ) (a b : IdAllocator) (given : Option EndpointId)
    → allocate (pick n) a ≡ (b, given)
    → drain pick (suc n) a ≡ (
      (drain pick n b).0,
      elim given [ none ↦ (drain pick n b).1 | some id ↦ id ∷ (drain pick n b).1 ],
    )
unfolding drain
drain_step pick n a b given h =
    ap
      (λ r. (
        (drain pick n r.0).0,
        elim r.1 [ none ↦ (drain pick n r.0).1 | some id ↦ id ∷ (drain pick n r.0).1 ],
      ))
      h

drain-Drained : (pick : ℕ → ℕ) (n : ℕ) (a : IdAllocator) → IsValid a → Drained a n (drain pick n a)
unfolding drain member
drain-Drained pick zero a v = record {
  distinct = tt;
  was_free = λ j h. ground arith;
  left = λ j. ground arith;
  many = λ h. ground arith;
  count = ground arith;
  few = λ h. ground arith;
}
drain-Drained pick (suc n) a v = elim (allocate_cases (pick n) a) [
  | inl (e, h) ↦
      let r = drain-Drained pick n a v in
      rw (drain_step pick n a a none h) (record {
        distinct = r.distinct;
        was_free = r.was_free;
        left = r.left;
        many = λ q. ground (arith, e);
        count = r.count;
        few = λ q. ground (arith, e, r.few);
      })
  | inr (id, m, h) ↦
      let w : IsValid (without a id) = record {
        distinct = remove-IsDistinct id a.cache.ids v.distinct;
        unleased = v.unleased;
      } in
      let r = drain-Drained pick n (without a id) w in
      let c = length-remove id a.cache.ids v.distinct m in
      rw (drain_step pick n a (without a id) (some id) h) (record {
        distinct = (ground (arith, member-remove id id a.cache.ids, r.was_free id), r.distinct);
        was_free = λ j q. ground (arith, r.was_free j, member-remove id j a.cache.ids);
        left = λ j. ground (arith, r.left j, member-remove id j a.cache.ids);
        many = λ q. ground (arith, r.many, c);
        count = ground (arith, r.count, c);
        few = λ q. ground (arith, r.few, c);
      })
]

avail-empty : (a : IdAllocator) (j : EndpointId) → a.cache.ids ≡ [] → avail a j ≡ false
unfolding member
avail-empty a j e = ap (member j) e

length-new : length new.cache.ids ≡ 4095
unfolding new
length-new = length-id_range 1 4095

-- A new allocator gives each of the ids 1 to 4095 once, in 4095 calls, whatever ids the hash set
-- yields first: the ids are distinct, they are exactly those between the bounds, and then none is
-- free.
pub drain-new :
    (pick : ℕ → ℕ)
    → let r = drain pick 4095 new in
      IsDistinct r.1
      × (length r.1 ≡ 4095)
      × ((j : EndpointId) → member j r.1 ≡ (leb min_id j && leb j max_id))
      × (r.0.cache.ids ≡ [])
drain-new pick =
    let d = drain-Drained pick 4095 new new-IsValid in
    let many = d.many (omega (arith, length-new)) in
    let empty : (drain pick 4095 new).0.cache.ids ≡ [] =
      ground (arith, d.count, many, length-new) in
    (
      d.distinct,
      many,
      λ j.
          ground (
            arith,
            d.left j,
            d.was_free j,
            avail-new j,
            avail-empty (drain pick 4095 new).0 j empty,
          ),
      empty,
    )

-- The drop of a lease gives its id back, unless the lease was committed: then the allocator stays
-- as it is.
pub drop_lem :
    (pick : ℕ) (a : IdAllocator) (id : EndpointId)
    → IsValid a
    → (allocate pick a).1 ≡ some id
    → let b = (allocate pick a).0 in
      Unchanged a (drop (new_lease id) b) × (drop (commit (new_lease id)).0 b ≡ b)
unfolding drop commit new_lease
drop_lem pick a id v h = ((allocate-release pick a id v h).1, refl)

-- `reuse` accepts an id above the largest one without reserving it. Unless such an id is free
-- already, the drop of its lease then makes it one that `allocate` can give.
pub reuse-out_of_range :
    (a : IdAllocator) (id : EndpointId)
    → IsValid a
    → max_id < id
    → avail a id ≡ false
    → ((reuse id a).1 ≡ ok tt) × (avail (drop (new_lease id) (reuse id a).0) id ≡ true)
unfolding drop new_lease
reuse-out_of_range a id v h f =
    let e = (reuse-AllowsReuse id a v).high h in
    let r = (release-AllowsRelease id a v).given f in
    (ap (λ x. x.1) e, rw e (ground (arith, r.1 id)))
