-- ===== src/Endpoint/Service/Create.antt =====
-- What `create` does with a request.
use mathlib.Core.Path.{subst}
use sarena.Prelude.{
  ℕ, ◌≡◌, ◌⊎◌, refl, ap, sym, ◌∙◌, inl, inr, none, some, List, Bool-cases, Option, nat_eq,
}
use sarena.Prelude.Map.{get, get-insert_self}
use sarena.Net.Mac.{parse_mac}
use sarena.Endpoint.Error.{DataPlaneError, Res, ok, err}
use sarena.Endpoint.IdAllocator.{EndpointId, IdLease}
use sarena.Endpoint.IdAllocator
use sarena.Endpoint.Persist.{EndpointPersist, EndpointSpec}
use sarena.Endpoint.Manager.{
  Endpoint, EndpointManager, new_endpoint, add_endpoint, allocate_new_id, endpoint_exists,
}
use sarena.Endpoint.Manager.Lookup.{IsFound, add_endpoint-IsFound}
use sarena.Endpoint.Manager.Keeps.{
  KeepsReferences, keeps_all, IsNew, add_endpoint-KeepsReferences, allocate_new_id-inner, Leases,
  allocate_new_id-Leases, endpoint_exists-inner, add_endpoint-exists,
}
use sarena.Endpoint.Directory.Files.{Environment}
use sarena.Endpoint.Worker.{EndpointWorker, initial_state, regenerate}
use sarena.Net.{v4, v6}
use sarena.Endpoint.Service.Request.{Asks, Refused, no_id, id_used, Passes, check_request-Passes}
use sarena.Endpoint.Service.{
  EndpointCreateRequest, EndpointError, data_plane_error, ServiceRes, done, failed, AddressParsers,
  EndpointService, check_request, persist_of, Answer, to_service_res, worker_of, regenerated, added,
  with_lease, with_macs, checked, create,
}

-- What the caller is told of a regeneration.
abbrev pub IsReply : Res (Unit {0}) → ServiceRes (Unit {0}) → Type 0
IsReply (ok u) r = r ≡ done tt
IsReply (err e) r = r ≡ failed (data_plane_error e)

-- The data of the endpoint that a request asks for.
pub record Requested (P : AddressParsers) (request : EndpointCreateRequest) (spec : EndpointSpec)
    : Type 0 where
  pub container_id_is : spec.container_id ≡ some request.container_id
  pub asks_ipv4 : Asks P v4 request.ipv4 spec.ipv4
  pub asks_ipv6 : Asks P v6 request.ipv6 spec.ipv6
  pub host_mac_is : parse_mac request.host_mac ≡ some spec.host_mac
  pub container_mac_is : parse_mac request.container_mac ≡ some spec.container_mac
  pub host_iface_name_is : spec.host_iface_name ≡ request.host_iface_name
  pub host_iface_index_is : spec.host_iface_index ≡ request.host_iface_index
  pub k8s_ns_is : spec.k8s_ns ≡ some request.k8s_namespace
  pub k8s_pod_name_is : spec.k8s_pod_name ≡ some request.k8s_pod_name

-- A new worker for an endpoint regenerated it, which gave the files, the state and the reply.
pub record Regenerated (env : Environment) (loaded : Res (Unit {0})) (p : EndpointPersist)
    (s s' : EndpointService) (r : ServiceRes (Unit {0})) : Type 0 where
  pub worker : EndpointWorker
  pub answer : Res (Unit {0})
  pub regenerates :
      regenerate env loaded
        (record { state = initial_state p; snapshot = initial_state p; files = s.files })
      ≡ (worker, answer)
  pub files_are : s'.files ≡ worker.files
  pub state_is : get p.id s'.states ≡ some worker.snapshot
  pub reply_is : IsReply answer r

-- The endpoint that a request made: it was new, it is found by its names, and it was regenerated.
pub record Entered (env : Environment) (loaded : Res (Unit {0})) (P : AddressParsers) (pick : ℕ)
    (request : EndpointCreateRequest) (s s' : EndpointService) (r : ServiceRes (Unit {0}))
    : Type 0 where
  pub p : EndpointPersist
  pub id_is : (IdAllocator.allocate pick s.manager.id_allocator).1 ≡ some p.id
  pub requested : Requested P request p.spec
  pub was_new : IsNew p s.manager.inner
  pub is_found : IsFound s'.manager p
  pub regenerated_it : Regenerated env loaded p s s' r

-- An error with its reason that leaves the tables, or an endpoint that was entered.
abbrev pub Created :
    Environment
    → Res (Unit {0})
    → AddressParsers
    → ℕ
    → EndpointCreateRequest
    → EndpointService
    → Answer
    → Type 0
Created env loaded P pick request s none =
    (parse_mac request.host_mac ≡ none) ⊎ (parse_mac request.container_mac ≡ none)
Created env loaded P pick request s (some (s', r)) =
    KeepsReferences s.manager.inner s'.manager.inner
    × (((e : EndpointError) × ((r ≡ failed e)
            × ((s'.manager.inner ≡ s.manager.inner) × Refused P pick request s.manager)))
        ⊎ Entered env loaded P pick request s s' r)

to_service_res-IsReply : (answer : Res (Unit {0})) → IsReply answer (to_service_res answer)
to_service_res-IsReply (ok u) = refl
to_service_res-IsReply (err e) = refl

module _ (env : Environment) (loaded : Res (Unit {0})) (pick : ℕ) (P : AddressParsers)
    (request : EndpointCreateRequest) (s : EndpointService) where
  regenerated-Created :
      (p : EndpointPersist) (m : EndpointManager) (r : EndpointWorker × Res (Unit {0}))
      → regenerate env loaded
          (record { state = initial_state p; snapshot = initial_state p; files = s.files })
        ≡ r
      → KeepsReferences s.manager.inner m.inner
      → (IdAllocator.allocate pick s.manager.id_allocator).1 ≡ some p.id
      → Requested P request p.spec
      → IsNew p s.manager.inner
      → IsFound m p
      → Created env loaded P pick request s
          (regenerated env loaded pick p (record s { manager = m }) r)
  regenerated-Created p m (w, answer) e keeps given requested was_new is_found = (
    keeps,
    inr (record {
      p = p;
      id_is = given;
      requested = requested;
      was_new = was_new;
      is_found = is_found;
      regenerated_it = record {
        worker = w;
        answer = answer;
        regenerates = e;
        files_are = refl;
        state_is = get-insert_self p.id w.snapshot s.states;
        reply_is = to_service_res-IsReply answer;
      };
    }),
  )

  refused_lem :
      (e : EndpointError) (m : EndpointManager)
      → m.inner ≡ s.manager.inner
      → Refused P pick request s.manager
      → Created env loaded P pick request s (some (record s { manager = m }, failed e))
  refused_lem e m same why = (rw same (keeps_all s.manager.inner), inl (e, (refl, (same, why))))

  module _ (ipv4 ipv6 : Option ℕ) (host_mac container_mac : List ℕ)
      (host_mac_is : parse_mac request.host_mac ≡ some host_mac)
      (container_mac_is : parse_mac request.container_mac ≡ some container_mac)
      (passes : Passes P pick request s.manager (done (ipv4, ipv6))) where
    abbrev persist : EndpointId → EndpointPersist
    persist id = persist_of request ipv4 ipv6 host_mac container_mac id

    is-Requested : (id : EndpointId) → Requested P request (persist id).spec
    is-Requested id = record {
      container_id_is = refl;
      asks_ipv4 = passes.0;
      asks_ipv6 = passes.1;
      host_mac_is = host_mac_is;
      container_mac_is = container_mac_is;
      host_iface_name_is = refl;
      host_iface_index_is = refl;
      k8s_ns_is = refl;
      k8s_pod_name_is = refl;
    }

    was-IsNew : (id : EndpointId) → IsNew (persist id) s.manager.inner
    was-IsNew id = record {
      container = λ c e. let same : request.container_id ≡ c = cc e in rw same at passes.2;
      ipv4 = passes.3;
      ipv6 = passes.4;
    }

    added-ok :
        (id : EndpointId) (lease : IdLease) (r : EndpointManager × Res Endpoint)
        → (IdAllocator.allocate pick s.manager.id_allocator).1 ≡ some id
        → KeepsReferences s.manager.inner r.0.inner
        → (r.1 ≡ ok (new_endpoint (persist id))) × IsFound r.0 (persist id)
        → Created env loaded P pick request s (added env loaded pick (persist id) lease s r)
    added-ok id lease (m', err e) given keeps found = absurd (cc found.0)
    added-ok id lease (m', ok ep) given keeps found =
        regenerated-Created (persist id) m'
          (regenerate env loaded
            (worker_of env loaded pick (persist id) (record s { manager = m' })))
          refl keeps given (is-Requested id) (was-IsNew id) found.1

    added-err :
        (id : EndpointId) (lease : IdLease) (r : EndpointManager × Res Endpoint)
        → r.0.inner ≡ s.manager.inner
        → ((e : DataPlaneError) × (r.1 ≡ err e))
        → Refused P pick request s.manager
        → Created env loaded P pick request s (added env loaded pick (persist id) lease s r)
    added-err id lease (m', err e) same refused why =
        refused_lem (data_plane_error e)
          (record m' { id_allocator = IdAllocator.drop lease m'.id_allocator }) same why
    added-err id lease (m', ok ep) same refused why = absurd (cc refused.1)

    with_lease-Created :
        (r : EndpointManager × Res IdLease)
        → r.0.inner ≡ s.manager.inner
        → Leases (IdAllocator.allocate pick s.manager.id_allocator).1 r.1
        → Created env loaded P pick request s (with_lease env loaded pick persist s r)
    with_lease-Created (m, err e) same none_left =
        refused_lem (data_plane_error e) m same (no_id none_left)
    with_lease-Created (m, ok lease) same (id, given, e) =
        rw e (elim (Bool-cases (endpoint_exists id m)) [
          | inl exists ↦
              let (unchanged, refused) = add_endpoint-exists (persist id) m exists in
              added-err id lease (add_endpoint (persist id) m) (ap (λ x. x.inner) unchanged ∙ same)
                refused
                (id_used id given (sym (endpoint_exists-inner id m s.manager same) ∙ exists))
          | inr free ↦
              added-ok id lease (add_endpoint (persist id) m) given
                (subst
                  (λ i.
                    IsNew (persist id) i → KeepsReferences i (add_endpoint (persist id) m).0.inner)
                  same (add_endpoint-KeepsReferences (persist id) m) (was-IsNew id))
                (add_endpoint-IsFound (persist id) m free)
        ])

  with_macs-Created :
      (ipv4 ipv6 : Option ℕ) (host_mac container_mac : Option (List ℕ))
      → parse_mac request.host_mac ≡ host_mac
      → parse_mac request.container_mac ≡ container_mac
      → Passes P pick request s.manager (done (ipv4, ipv6))
      → Created env loaded P pick request s
          (with_macs env loaded pick request s (ipv4, ipv6) host_mac container_mac)
  with_macs-Created ipv4 ipv6 none container_mac h c passes = inl h
  with_macs-Created ipv4 ipv6 (some host_mac) none h c passes = inr c
  with_macs-Created ipv4 ipv6 (some host_mac) (some container_mac) h c passes =
      with_lease-Created ipv4 ipv6 host_mac container_mac h c passes
        (allocate_new_id pick s.manager) (allocate_new_id-inner pick s.manager)
        (allocate_new_id-Leases pick s.manager)

  checked-Created :
      (r : ServiceRes (Option ℕ × Option ℕ))
      → Passes P pick request s.manager r
      → Created env loaded P pick request s (checked env loaded pick request s r)
  checked-Created (failed e) why = refused_lem e s.manager refl why
  checked-Created (done (ipv4, ipv6)) passes =
      with_macs-Created ipv4 ipv6 (parse_mac request.host_mac) (parse_mac request.container_mac)
        refl refl passes

  -- For any parsers of addresses, loader answer and refused file calls: a request panics only when
  -- one of its MAC addresses cannot be parsed; else no container id and no address loses the endpoint
  -- that it refers to, and either the answer is an error and the tables are unchanged, or an endpoint
  -- was entered, whether or not its regeneration failed. The error has a reason: the container id is
  -- in use, an address has no parse in its family or is in use, no id is left, or the id that was
  -- given has an endpoint. The endpoint that was entered has the id that the allocator gave and the
  -- request's data, with the addresses that the parsers read in it; its container id and addresses
  -- were unused, and it is found by its id, its container id, its addresses and its pod name. A new
  -- worker regenerated it: the state that is published for its id and the files are those which that
  -- worker left, and the answer is that of its regeneration.
  pub create-Created : Created env loaded P pick request s (create env loaded pick P request s)
  unfolding create
  create-Created =
      checked-Created (check_request P request s.manager)
        (check_request-Passes P pick request s.manager)
