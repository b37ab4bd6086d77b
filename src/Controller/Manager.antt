-- ===== src/Controller/Manager.antt =====
-- sarena-data-plane/src/controller/manager.rs and registry.rs: the named controllers.
-- The state of the manager, of the registry that it shares, and of the process-wide `NEXT_ID`. A
-- task is what its entry says of it: the spec that it last received and its status. `cancelled`
-- lists the ids whose cancellation token was fired.
pub mod Ids
pub mod Updated
use sarena.Prelude.{
  ℕ, zero, suc, ◌+◌, Bool, true, false, Option, none, some, List, [], ◌∷◌, String, nat_eq,
  string_eq, ltb, ◌==◌, if◌then◌else◌, map,
}
use sarena.Prelude.Map.{Map, get, insert, remove, contains_key, values}
use sarena.Controller.Backoff.{Duration}
use sarena.Controller.Spec.{Spec}
use sarena.Controller.Status.{ControllerStatus, new_status, configure}

pub record Entry (F Job Stop : Type 0) : Type 0 where
  pub id : ℕ
  pub spec : Spec F Job Stop
  pub status : ControllerStatus F

pub record Manager (F Job Stop : Type 0) : Type 0 where
  pub entries : Map String (Entry F Job Stop)
  pub max_interval : Option Duration
  pub registry : List ℕ
  pub next_id : ℕ
  pub cancelled : List ℕ

-- `normalize`: a zero interval is none, and one above the cap is the cap.
abbrev pub nonzero : Option Duration → Option Duration
nonzero none = none
nonzero (some d) = if d == 0 then none else some d

abbrev pub capped : Option Duration → Option Duration → Option Duration
capped none cap = none
capped (some d) none = some d
capped (some d) (some cap) = if ltb cap d then some cap else some d

unfoldable pub drop_id : ℕ → List ℕ → List ℕ
drop_id id [] = []
drop_id id (i ∷ ids) = let rest = drop_id id ids in if i == id then rest else i ∷ rest

module _ {F Job Stop : Type 0} where
  unfoldable pub normalize : Option Duration → Spec F Job Stop → Spec F Job Stop
  normalize max_interval spec = record spec {
    interval = capped (nonzero spec.interval) max_interval;
  }

  -- `ManagerBuilder::build`, with a registry and the state of `NEXT_ID`.
  unfoldable pub build : Option Duration → List ℕ → ℕ → Manager F Job Stop
  build max_interval registry next_id = record {
    entries = [];
    max_interval = max_interval;
    registry = registry;
    next_id = next_id;
    cancelled = [];
  }

  unfoldable pub update : String → Spec F Job Stop → Manager F Job Stop → Manager F Job Stop
  unfolding normalize
  update name spec m =
      let spec = normalize m.max_interval spec in
      elim (get name m.entries) [
        | some entry ↦ record m {
          entries =
              insert name (record entry { spec = spec; status = configure spec entry.status })
                m.entries;
        }
        | none ↦ record m {
          entries =
              insert name
                (record { id = m.next_id; spec = spec; status = new_status name m.next_id spec })
                m.entries;
          registry = m.next_id ∷ m.registry;
          next_id = m.next_id + 1;
        }
      ]

  abbrev pub stop_entry : Entry F Job Stop → Manager F Job Stop → Manager F Job Stop
  stop_entry entry m = record m {
    registry = drop_id entry.id m.registry;
    cancelled = entry.id ∷ m.cancelled;
  }

  -- The id stands for the termination that the call returns; none for an unknown name.
  unfoldable pub remove_controller : String → Manager F Job Stop → Manager F Job Stop × Option ℕ
  remove_controller name m = elim (get name m.entries) [
    | none ↦ (m, none)
    | some entry ↦ (stop_entry entry (record m { entries = remove name m.entries }), some entry.id)
  ]

  unfoldable pub stop_entries : List (Entry F Job Stop) → Manager F Job Stop → Manager F Job Stop
  stop_entries [] m = m
  stop_entries (entry ∷ rest) m = stop_entries rest (stop_entry entry m)

  unfoldable pub remove_all : Manager F Job Stop → Manager F Job Stop
  unfolding stop_entries
  remove_all m = stop_entries (values m.entries) (record m { entries = [] })

  pub contains : String → Manager F Job Stop → Bool
  contains name m = contains_key name m.entries
