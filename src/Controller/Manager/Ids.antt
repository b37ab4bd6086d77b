-- ===== src/Controller/Manager/Ids.antt =====
-- The ids of the controllers, and the interval that a spec is given.
use sarena.Prelude.{
  if◌then◌else◌, ℕ, ◌+◌, ◌≤◌, ◌<◌, ◌≡◌, refl, ap, ◌∙◌, sym, inl, inr, true, false, Option, none,
  some, ◌∷◌, String, ◌=?◌, nat_eq, string_eq, arith, Option-cases, Bool-cases, eq_of_=?,
}
use sarena.Prelude.Map.{Map, get, insert, get-insert, get-remove}
use sarena.Controller.Spec.{Spec}
use sarena.Controller.Status.{new_status, configure}
use sarena.Controller.Manager.{Entry, Manager, normalize, update, remove_controller}

-- Every entry has an id that was given out, and no two names have the same one.
pub record HasIds {F Job Stop : Type 0} (entries : Map String (Entry F Job Stop)) (next_id : ℕ)
    : Type 0 where
  pub given : (name : String) (e : Entry F Job Stop) → get name entries ≡ some e → e.id < next_id
  pub unique :
      (n k : String) (e f : Entry F Job Stop)
      → get n entries ≡ some e
      → get k entries ≡ some f
      → e.id ≡ f.id
      → n ≡ k

abbrev pub id_or : {F Job Stop : Type 0} → ℕ → Option (Entry F Job Stop) → ℕ
id_or next_id none = next_id
id_or next_id (some entry) = entry.id

module _ {F Job Stop : Type 0} where
  abbrev pub IsValid : Manager F Job Stop → Type 0
  IsValid m = HasIds m.entries m.next_id

  from_new :
      (entries : Map String (Entry F Job Stop)) (name n : String) (x e : Entry F Job Stop)
      → (name =? n) ≡ true
      → get n (insert name x entries) ≡ some e
      → x ≡ e
  from_new entries name n x e s h = ground (arith, h, s, get-insert name n x entries)

  from_old :
      (entries : Map String (Entry F Job Stop)) (name n : String) (x e : Entry F Job Stop)
      → (name =? n) ≡ false
      → get n (insert name x entries) ≡ some e
      → get n entries ≡ some e
  from_old entries name n x e s h = sym (get-insert name n x entries ∙ rw s refl) ∙ h

  abbrev pub id_for : String → Manager F Job Stop → ℕ
  id_for name m = id_or m.next_id (get name m.entries)

  inserted :
      (entries : Map String (Entry F Job Stop)) (next_id next' : ℕ) (name : String)
      (x : Entry F Job Stop)
      → HasIds entries next_id
      → next_id ≤ next'
      → x.id < next'
      → ((k : String) (f : Entry F Job Stop) → get k entries ≡ some f → x.id ≡ f.id → name ≡ k)
      → HasIds (insert name x entries) next'
  inserted entries next_id next' name x v le lt own = record {
    given = λ n e h. elim (Bool-cases (name =? n)) [
      | inl s ↦ ground (arith, h, s, get-insert name n x entries)
      | inr s ↦ let old = v.given n e (from_old entries name n x e s h) in omega (arith, old)
    ];
    unique = λ n k e f h g same. elim (Bool-cases (name =? n)) [
      | inl s ↦ elim (Bool-cases (name =? k)) [
        | inl t ↦ sym (eq_of_=? name n s) ∙ eq_of_=? name k t
        | inr t ↦
            sym (eq_of_=? name n s)
            ∙ own k f (from_old entries name k x f t g)
                (ap (λ (y : Entry F Job Stop). y.id) (from_new entries name n x e s h) ∙ same)
      ]
      | inr s ↦ elim (Bool-cases (name =? k)) [
        | inl t ↦
            sym (
              own n e (from_old entries name n x e s h)
                (ap (λ (y : Entry F Job Stop). y.id) (from_new entries name k x f t g) ∙ sym same))
            ∙ eq_of_=? name k t
        | inr t ↦
            v.unique n k e f (from_old entries name n x e s h) (from_old entries name k x f t g)
              same
      ]
    ];
  }

  -- If every controller has an id that was given out and no two have the same one, this is so after
  -- `update`.
  pub update-IsValid :
      (name : String) (spec : Spec F Job Stop) (m : Manager F Job Stop)
      → IsValid m
      → IsValid (update name spec m)
  unfolding update
  update-IsValid name spec m v = elim (Option-cases (get name m.entries)) [
    | inl e ↦
        rw (e, update)
          (inserted m.entries m.next_id (m.next_id + 1) name
            (record {
              id = m.next_id;
              spec = normalize m.max_interval spec;
              status = new_status name m.next_id (normalize m.max_interval spec);
            })
            v (omega arith) (omega arith) (λ k f h same. absurd (omega (arith, v.given k f h))))
    | inr (entry, e) ↦
        rw (e, update)
          (inserted m.entries m.next_id m.next_id name
            (record entry {
              spec = normalize m.max_interval spec;
              status = configure (normalize m.max_interval spec) entry.status;
            })
            v (omega arith) (v.given name entry e) (λ k f h same. v.unique name k entry f e h same))
  ]

  -- What `remove` answers and leaves.
  abbrev pub Removed : String → Manager F Job Stop → Manager F Job Stop × Option ℕ → Type 0
  Removed name m (t, none) = (get name m.entries ≡ none) × (t ≡ m)
  Removed name m (t, some id) =
      (e : Entry F Job Stop) × (get name m.entries ≡ some e)
      × (id ≡ e.id)
      × (t.cancelled ≡ id ∷ m.cancelled)
      × ((other : String)
          → get other t.entries ≡ (if name =? other then none else get other m.entries))

  -- `remove` on a known name takes that controller out, and no other, cancels it and answers its
  -- id; on an unknown name it answers none and changes nothing.
  pub remove_controller-Removed :
      (name : String) (m : Manager F Job Stop) → Removed name m (remove_controller name m)
  unfolding remove_controller
  remove_controller-Removed name m = elim (Option-cases (get name m.entries)) [
    | inl h ↦ rw (h, remove_controller) (h, refl)
    | inr (e, h) ↦
        rw (h, remove_controller) (e, h, refl, refl, λ other. get-remove name other m.entries)
  ]
