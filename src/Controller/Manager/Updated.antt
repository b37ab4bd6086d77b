-- ===== src/Controller/Manager/Updated.antt =====
-- What `update` leaves of the manager: the interval that a spec is given, the entry of the name, the
-- ids, and the other names.
use sarena.Prelude.{
  ◌+◌, ◌≤◌, ◌<◌, ◌≡◌, ◌⊎◌, refl, inl, inr, Option, none, some, ◌∷◌, String, ◌=?◌, string_eq,
  if◌then◌else◌, arith, Option-cases,
}
use sarena.Prelude.Map.{get, get-insert, get-insert_self}
use sarena.Controller.Backoff.{Duration}
use sarena.Controller.Spec.{Spec}
use sarena.Controller.Status.{new_status, configure}
use sarena.Controller.Manager.{Entry, Manager, nonzero, capped, normalize, update}

-- The interval that a controller runs at: none if none was asked for or the one asked for is zero,
-- else the one asked for, but at most the cap.
abbrev pub Limited : Option Duration → Option Duration → Option Duration → Type 0
Limited cap none r = r ≡ none
Limited none (some d) r = ((d ≡ 0) × (r ≡ none)) ⊎ ((0 < d) × (r ≡ some d))
Limited (some c) (some d) r =
    ((d ≡ 0) × (r ≡ none))
    ⊎ (((0 < d) × (d ≤ c) × (r ≡ some d)) ⊎ ((0 < d) × (c < d) × (r ≡ some c)))

capped-Limited :
    (cap interval : Option Duration) → Limited cap interval (capped (nonzero interval) cap)
capped-Limited cap none = refl
capped-Limited none (some d) = ground arith
capped-Limited (some c) (some d) = ground arith

module _ {F Job Stop : Type 0} where
  -- The spec that was given, with its interval limited.
  pub record IsNormal (cap : Option Duration) (given spec : Spec F Job Stop) : Type 0 where
    pub interval : Limited cap given.interval spec.interval
    pub job : spec.job ≡ given.job
    pub on_stop : spec.on_stop ≡ given.on_stop
    pub backoff : spec.backoff ≡ given.backoff
    pub stop_timeout : spec.stop_timeout ≡ given.stop_timeout

  normalize-IsNormal :
      (cap : Option Duration) (spec : Spec F Job Stop) → IsNormal cap spec (normalize cap spec)
  unfolding normalize
  normalize-IsNormal cap spec = record {
    interval = capped-Limited cap spec.interval;
    job = refl;
    on_stop = refl;
    backoff = refl;
    stop_timeout = refl;
  }

  -- A new controller has the next id and counts from zero; a known one keeps its id and its counts.
  -- Both show the interval and the backoff of the spec.
  abbrev pub Registered :
      String
      → Option (Entry F Job Stop)
      → Entry F Job Stop
      → Manager F Job Stop
      → Manager F Job Stop
      → Type 0
  Registered name none e m m' =
      (e.id ≡ m.next_id)
      × (m'.next_id ≡ m.next_id + 1)
      × (m'.registry ≡ m.next_id ∷ m.registry)
      × (e.status ≡ record {
        name = name;
        id = m.next_id;
        interval = e.spec.interval;
        backoff = e.spec.backoff;
        success_count = 0;
        failure_count = 0;
        consecutive_failures = 0;
        last_success = none;
        last_failure = none;
        last_error = none;
        last_duration = none;
      })
  Registered name (some old) e m m' =
      (e.id ≡ old.id)
      × (m'.next_id ≡ m.next_id)
      × (m'.registry ≡ m.registry)
      × (e.status ≡ record old.status { interval = e.spec.interval; backoff = e.spec.backoff })

  pub record Updated (name : String) (given : Spec F Job Stop) (m m' : Manager F Job Stop)
      : Type 0 where
    pub entry : Entry F Job Stop
    pub is_there : get name m'.entries ≡ some entry
    pub is_normal : IsNormal m.max_interval given entry.spec
    pub is_registered : Registered name (get name m.entries) entry m m'
    pub others :
        (other : String)
        → get other m'.entries ≡ (if name =? other then some entry else get other m.entries)
    pub cap_kept : m'.max_interval ≡ m.max_interval
    pub cancelled_kept : m'.cancelled ≡ m.cancelled

  -- After `update` the controller of that name runs the spec that was given, with an interval of
  -- zero taken as none and one above the manager's cap lowered to it. A new name gets the next id,
  -- which is entered in the registry, and a fresh status; a known one keeps its id and its counts,
  -- and its status shows the new interval and backoff. Every other name keeps its controller, and
  -- nothing is cancelled.
  pub update-Updated :
      (name : String) (spec : Spec F Job Stop) (m : Manager F Job Stop)
      → Updated name spec m (update name spec m)
  unfolding update new_status configure
  update-Updated name spec m =
      let normal = normalize m.max_interval spec in
      elim (Option-cases (get name m.entries)) [
        | inl h ↦
            let x : Entry F Job Stop = record {
              id = m.next_id;
              spec = normal;
              status = new_status name m.next_id normal;
            } in
            rw (h, update)
              (record {
                entry = x;
                is_there = get-insert_self name x m.entries;
                is_normal = normalize-IsNormal m.max_interval spec;
                is_registered = rw h (refl, refl, refl, refl);
                others = λ other. get-insert name other x m.entries;
                cap_kept = refl;
                cancelled_kept = refl;
              })
        | inr (old, h) ↦
            let x : Entry F Job Stop = record old {
              spec = normal;
              status = configure normal old.status;
            } in
            rw (h, update)
              (record {
                entry = x;
                is_there = get-insert_self name x m.entries;
                is_normal = normalize-IsNormal m.max_interval spec;
                is_registered = rw h (refl, refl, refl, refl);
                others = λ other. get-insert name other x m.entries;
                cap_kept = refl;
                cancelled_kept = refl;
              })
      ]
