-- ===== src/Endpoint/Manager/Keeps.antt =====
-- What the calls of the manager that add an endpoint keep of its tables.
use sarena.Prelude.{
  ap, ℕ, ◌≡◌, refl, inl, inr, true, none, some, String, nat_eq, string_eq, arith, Bool-cases,
  Option,
}
use sarena.Prelude.Map.{Map, get, contains_key, get-insert}
use sarena.Endpoint.Error.{DataPlaneError, general_error, Res, ok, err}
use sarena.Endpoint.IdAllocator.{EndpointId, IdLease, new_lease}
use sarena.Endpoint.IdAllocator
use sarena.Endpoint.Persist.{EndpointPersist}
use sarena.Endpoint.Manager.{
  EndpointManager, EndpointManagerInner, refer_strings, refer_numbers, lookup_container_id,
  lookup_ipv4, lookup_ipv6, add_endpoint, allocate_new_id, endpoint_exists,
}

-- What the tables of container ids and addresses refer to, they still refer to.
pub record KeepsReferences (m m' : EndpointManagerInner) : Type 0 where
  pub container_ids :
      (c : String) (j : EndpointId)
      → lookup_container_id c m ≡ some j
      → lookup_container_id c m' ≡ some j
  pub ipv4s : (ip : ℕ) (j : EndpointId) → lookup_ipv4 ip m ≡ some j → lookup_ipv4 ip m' ≡ some j
  pub ipv6s : (ip : ℕ) (j : EndpointId) → lookup_ipv6 ip m ≡ some j → lookup_ipv6 ip m' ≡ some j

pub keeps_all : (m : EndpointManagerInner) → KeepsReferences m m
keeps_all m = record { container_ids = λ c j h. h; ipv4s = λ ip j h. h; ipv6s = λ ip j h. h }

-- The names under which an endpoint is entered that are not in the tables yet.
pub record IsNew (p : EndpointPersist) (m : EndpointManagerInner) : Type 0 where
  pub container : (c : String) → p.spec.container_id ≡ some c → lookup_container_id c m ≡ none
  pub ipv4 : (ip : ℕ) → p.spec.ipv4 ≡ some ip → lookup_ipv4 ip m ≡ none
  pub ipv6 : (ip : ℕ) → p.spec.ipv6 ≡ some ip → lookup_ipv6 ip m ≡ none

refer_strings-keeps :
    (key : Option String) (id j : EndpointId) (m : Map String EndpointId) (c : String)
    → ((k : String) → key ≡ some k → get k m ≡ none)
    → get c m ≡ some j
    → get c (refer_strings key id m) ≡ some j
refer_strings-keeps none id j m c fresh h = h
refer_strings-keeps (some k) id j m c fresh h =
    ground (arith, get-insert k c id m, string_eq.beq_iff k c, fresh k refl, h)

refer_numbers-keeps :
    (key : Option ℕ) (id j : EndpointId) (m : Map ℕ EndpointId) (c : ℕ)
    → ((k : ℕ) → key ≡ some k → get k m ≡ none)
    → get c m ≡ some j
    → get c (refer_numbers key id m) ≡ some j
refer_numbers-keeps none id j m c fresh h = h
refer_numbers-keeps (some k) id j m c fresh h =
    ground (arith, get-insert k c id m, nat_eq.beq_iff k c, fresh k refl, h)

pub add_endpoint-KeepsReferences :
    (p : EndpointPersist) (m : EndpointManager)
    → IsNew p m.inner
    → KeepsReferences m.inner (add_endpoint p m).0.inner
unfolding add_endpoint lookup_container_id lookup_ipv4 lookup_ipv6
add_endpoint-KeepsReferences p m n = elim (Bool-cases (contains_key p.id m.inner.endpoints)) [
  | inl e ↦ rw e (keeps_all m.inner)
  | inr e ↦ rw e (record {
    container_ids = λ c j h.
        refer_strings-keeps p.spec.container_id p.id j m.inner.container_id c n.container h;
    ipv4s = λ ip j h. refer_numbers-keeps p.spec.ipv4 p.id j m.inner.ipv4 ip n.ipv4 h;
    ipv6s = λ ip j h. refer_numbers-keeps p.spec.ipv6 p.id j m.inner.ipv6 ip n.ipv6 h;
  })
]

pub allocate_new_id-inner :
    (pick : ℕ) (m : EndpointManager) → (allocate_new_id pick m).0.inner ≡ m.inner
unfolding allocate_new_id
allocate_new_id-inner pick m = refl

-- A lease is given exactly if the allocator gives an id, and it holds that id.
abbrev pub Leases : Option EndpointId → Res IdLease → Type 0
Leases given (err e) = given ≡ none
Leases given (ok lease) = (id : EndpointId) × (given ≡ some id) × (lease.id ≡ some id)

pub allocate_new_id-Leases :
    (pick : ℕ) (m : EndpointManager)
    → Leases (IdAllocator.allocate pick m.id_allocator).1 (allocate_new_id pick m).1
unfolding allocate_new_id new_lease
allocate_new_id-Leases pick m = by_given (IdAllocator.allocate pick m.id_allocator).1
  where
    by_given :
        (o : Option EndpointId)
        → Leases o (elim o as (λ _. Res IdLease) [
          | none ↦ err (general_error "no more EndpointId's available")
          | some id ↦ ok (new_lease id)
        ])
    by_given none = refl
    by_given (some id) = (id, refl, refl)

pub endpoint_exists-inner :
    (id : EndpointId) (m n : EndpointManager)
    → m.inner ≡ n.inner
    → endpoint_exists id m ≡ endpoint_exists id n
unfolding endpoint_exists
endpoint_exists-inner id m n same = ap (λ i. contains_key id i.endpoints) same

-- An id that the manager has is refused.
pub add_endpoint-exists :
    (p : EndpointPersist) (m : EndpointManager)
    → endpoint_exists p.id m ≡ true
    → ((add_endpoint p m).0 ≡ m) × ((e : DataPlaneError) × ((add_endpoint p m).1 ≡ err e))
unfolding add_endpoint endpoint_exists
add_endpoint-exists p m h = rw h (refl, (_, refl))
