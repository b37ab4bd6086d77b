-- ===== src/Endpoint/Manager/Lookup.antt =====
-- What the lookups of the manager answer after its calls.
use mathlib.Core.Path.{subst}
use sarena.Prelude.{
  if◌then◌else◌, ℕ, ◌≡◌, ◌≢◌, refl, ap, ◌∙◌, sym, inl, inr, true, false, not, Option, none, some,
  String, ◌=?◌, nat_eq, string_eq, arith, Bool-cases,
}
use sarena.Prelude.Map.{
  Map, get, contains_key, get-insert, get-insert_self, get-remove, retain-passes,
}
use sarena.Endpoint.Error.{Res, ok, err}
use sarena.Endpoint.IdAllocator.{EndpointId, IdAllocator}
use sarena.Endpoint.IdAllocator
use sarena.Endpoint.IdAllocator.Avail.{avail, IsValid}
use sarena.Endpoint.IdAllocator.Answers.{Released, release-Released}
use sarena.Endpoint.Persist.{EndpointPersist, k8s_ns_and_pod_name}
use sarena.Endpoint.Manager.{
  EndpointManager, new_endpoint, refer_strings, refer_numbers, without_id, lookup_container_name,
  lookup_container_id, lookup_docker_endpoint, lookup_ipv4, lookup_ipv6, lookup_pod_name, endpoint,
  endpoint_exists, add_endpoint, delete_endpoint,
}

-- What a lookup by an optional name finds, and what it should find.
abbrev pub found {ℓ} : {K : Type ℓ} → (K → Option EndpointId) → Option K → Option EndpointId
found f none = none
found f (some key) = f key

abbrev pub expected {ℓ} : {K : Type ℓ} → Option K → EndpointId → Option EndpointId
expected none id = none
expected (some key) id = some id

found-refer_strings :
    (key : Option String) (id : EndpointId) (m : Map String EndpointId)
    → found (λ k. get k (refer_strings key id m)) key ≡ expected key id
found-refer_strings none id m = refl
found-refer_strings (some key) id m = get-insert_self key id m

found-refer_numbers :
    (key : Option ℕ) (id : EndpointId) (m : Map ℕ EndpointId)
    → found (λ k. get k (refer_numbers key id m)) key ≡ expected key id
found-refer_numbers none id m = refl
found-refer_numbers (some key) id m = get-insert_self key id m

-- An endpoint is found by each of its names and addresses.
pub record IsFound (m : EndpointManager) (p : EndpointPersist) : Type 0 where
  pub by_id : endpoint p.id m ≡ some (new_endpoint p)
  pub by_container_name :
      found (λ k. lookup_container_name k m.inner) p.spec.container_name
      ≡ expected p.spec.container_name p.id
  pub by_container_id :
      found (λ k. lookup_container_id k m.inner) p.spec.container_id
      ≡ expected p.spec.container_id p.id
  -- The table of docker endpoints knows it by its container id.
  pub by_docker_endpoint :
      found (λ k. lookup_docker_endpoint k m.inner) p.spec.container_id
      ≡ expected p.spec.container_id p.id
  pub by_ipv4 : found (λ k. lookup_ipv4 k m.inner) p.spec.ipv4 ≡ expected p.spec.ipv4 p.id
  pub by_ipv6 : found (λ k. lookup_ipv6 k m.inner) p.spec.ipv6 ≡ expected p.spec.ipv6 p.id
  pub by_pod_name :
      found (λ k. lookup_pod_name k m.inner) (k8s_ns_and_pod_name p.spec)
      ≡ expected (k8s_ns_and_pod_name p.spec) p.id

-- Adding an endpoint whose id the manager does not have succeeds, and the endpoint is then found
-- by its id, its container name and id, its addresses and its pod name; the docker endpoint table
-- finds it by its container id.
pub add_endpoint-IsFound :
    (p : EndpointPersist) (m : EndpointManager)
    → endpoint_exists p.id m ≡ false
    → ((add_endpoint p m).1 ≡ ok (new_endpoint p)) × IsFound (add_endpoint p m).0 p
unfolding add_endpoint endpoint endpoint_exists lookup_container_name lookup_container_id
    lookup_docker_endpoint lookup_ipv4 lookup_ipv6 lookup_pod_name
add_endpoint-IsFound p m h = rw h (
  refl,
  record {
    by_id = get-insert_self p.id (new_endpoint p) m.inner.endpoints;
    by_container_name =
        found-refer_strings p.spec.container_name p.id (without_id p.id m.inner.container_name);
    by_container_id = found-refer_strings p.spec.container_id p.id m.inner.container_id;
    by_docker_endpoint = found-refer_strings p.spec.container_id p.id m.inner.docker_endpoint;
    by_ipv4 = found-refer_numbers p.spec.ipv4 p.id m.inner.ipv4;
    by_ipv6 = found-refer_numbers p.spec.ipv6 p.id m.inner.ipv6;
    by_pod_name = found-refer_strings (k8s_ns_and_pod_name p.spec) p.id m.inner.pod_name;
  },
)

other_string :
    (key : Option String) (id : EndpointId) (m : Map String EndpointId) (name : String)
    → key ≢ some name
    → get name (refer_strings key id m) ≡ get name m
other_string none id m name h = refl
other_string (some key) id m name h =
    ground (
      arith,
      get-insert key name id m,
      string_eq.beq_iff key name,
      λ (e : key ≡ name). h (ap some e),
    )

-- A name that the docker endpoint table does not know stays unknown to it when an endpoint is
-- added, unless it is the container id: the docker endpoint of the endpoint itself is not entered.
pub lookup_docker_endpoint-add_endpoint :
    (p : EndpointPersist) (m : EndpointManager) (name : String)
    → (p.spec.container_id ≢ some name)
    → lookup_docker_endpoint name (add_endpoint p m).0.inner ≡ lookup_docker_endpoint name m.inner
unfolding add_endpoint lookup_docker_endpoint
lookup_docker_endpoint-add_endpoint p m name h =
    elim (Bool-cases (contains_key p.id m.inner.endpoints)) [
      | inl e ↦ rw e refl
      | inr e ↦ rw e (other_string p.spec.container_id p.id m.inner.docker_endpoint name h)
    ]

Released-answer :
    (id : EndpointId) (a : IdAllocator) (r : IdAllocator × Res (Unit {0}))
    → IsValid a
    → Released id a r
    → IsValid r.0 × (avail r.0 id ≡ true)
Released-answer id a (b, ok u) v (w, n, d) = (w, ground (arith, d id))
Released-answer id a (b, err e) v (same, f) =
    (subst IsValid (sym same) v, ap (λ c. avail c id) same ∙ f)

-- After `release`, whatever it answers, the id is free.
released :
    (id : EndpointId) (a : IdAllocator)
    → IsValid a
    → IsValid (IdAllocator.release id a).0 × (avail (IdAllocator.release id a).0 id ≡ true)
released id a v = Released-answer id a (IdAllocator.release id a) v (release-Released id a v)

-- What `delete_endpoint` leaves.
pub record Deleted (m t : EndpointManager) (id : EndpointId) : Type 0 where
  pub endpoints : (j : EndpointId) → endpoint j t ≡ (if id =? j then none else endpoint j m)
  pub no_name : (name : String) → lookup_container_name name t.inner ≢ some id
  -- The other tables keep their entries for the id.
  pub container_ids : (k : String) → lookup_container_id k t.inner ≡ lookup_container_id k m.inner
  pub pod_names : (k : String) → lookup_pod_name k t.inner ≡ lookup_pod_name k m.inner
  pub ipv4s : (k : ℕ) → lookup_ipv4 k t.inner ≡ lookup_ipv4 k m.inner
  pub ipv6s : (k : ℕ) → lookup_ipv6 k t.inner ≡ lookup_ipv6 k m.inner
  pub id_is_free : avail t.id_allocator id ≡ true
  pub allocator_ok : IsValid t.id_allocator

-- `delete_endpoint`, whatever the worker and the loader answer, removes the endpoint and no other,
-- leaves no container name for it, and frees its id; the lookups by container id, pod name and
-- address still answer the id of the endpoint that is gone.
pub delete_endpoint-Deleted :
    (drained removed : Res (Unit {0})) (id : EndpointId) (m : EndpointManager)
    → IsValid m.id_allocator
    → Deleted m (delete_endpoint drained removed id m).0 id
unfolding delete_endpoint endpoint lookup_container_name lookup_container_id lookup_docker_endpoint
    lookup_ipv4 lookup_ipv6 lookup_pod_name
delete_endpoint-Deleted drained removed id m v = record {
  endpoints = λ j. get-remove id j m.inner.endpoints;
  no_name = λ name n.
      absurd (ground (arith, retain-passes (λ x. not (x =? id)) name id m.inner.container_name n));
  container_ids = λ k. refl;
  pod_names = λ k. refl;
  ipv4s = λ k. refl;
  ipv6s = λ k. refl;
  id_is_free = (released id m.id_allocator v).1;
  allocator_ok = (released id m.id_allocator v).0;
}
