-- ===== src/SoftDataplane/Tables/Routes.antt =====
-- The route table as a map from a destination and a next hop to a route.
use sarena.Prelude.{
  ◌≡◌, refl, ap, inl, inr, true, false, not, Option, none, some, List, [], ◌∷◌, Eq, ◌=?◌, eq_of_=?,
  if◌then◌else◌, keep, find, arith, Bool-cases, Option-cases,
}
use sarena.Prelude.Map.{Map, get, get-insert, get-remove}
use sarena.SoftDataplane.Models.{NextHop, Route, hop_eq}
use sarena.SoftDataplane.Tables.{State, upsert_route, or_default, add_route, remove_route, is_empty}

module _ {Net : Type 0} where
  abbrev pub via : NextHop → List (Route Net) → Option (Route Net)
  via hop group = find (λ r. r.next_hop =? hop) group

  via-upsert_route :
      (hop : NextHop) (route : Route Net) (group : List (Route Net))
      → via hop (upsert_route route group)
        ≡ (if route.next_hop =? hop then some route else via hop group)
  unfolding upsert_route
  via-upsert_route hop route [] = ground arith
  via-upsert_route hop route (r ∷ group) = ground (
    arith,
    via-upsert_route hop route group,
    hop_eq.beq_iff r.next_hop route.next_hop,
    hop_eq.beq_iff r.next_hop hop,
    hop_eq.beq_iff route.next_hop hop,
  )

  via-keep :
      (hop gone : NextHop) (group : List (Route Net))
      → via hop (keep (λ r. not (r.next_hop =? gone)) group)
        ≡ (if gone =? hop then none else via hop group)
  via-keep hop gone [] = ground arith
  via-keep hop gone (r ∷ group) = ground (
    arith,
    via-keep hop gone group,
    hop_eq.beq_iff r.next_hop gone,
    hop_eq.beq_iff r.next_hop hop,
    hop_eq.beq_iff gone hop,
  )

  empty_via :
      (hop : NextHop) (group : List (Route Net)) → is_empty group ≡ true → via hop group ≡ none
  empty_via hop [] h = refl
  empty_via hop (r ∷ group) h = absurd (ground arith)

module _ {Net : Type 0} ⦃e : Eq Net⦄ where
  abbrev pub route_to : Net → NextHop → State Net → Option (Route Net)
  route_to destination hop s = via hop (or_default (get destination s.routes))

  get-same : (k j : Net) (m : Map Net (List (Route Net))) → (k =? j) ≡ true → get k m ≡ get j m
  get-same k j m h = ap (λ n. get n m) (eq_of_=? k j h)

  -- `add_route` is an upsert by destination and next hop: the route is then the one of its
  -- destination and next hop, and the route of every other pair stays.
  pub route_to-add_route :
      (route : Route Net) (destination : Net) (hop : NextHop) (s : State Net)
      → route_to destination hop (add_route route s) ≡ (
          if route.destination =? destination
          then (if route.next_hop =? hop then some route else route_to destination hop s)
          else route_to destination hop s)
  unfolding add_route
  route_to-add_route route destination hop s = ground (
    arith,
    e.beq_iff route.destination destination,
    get-insert route.destination destination
        (upsert_route route (or_default (get route.destination s.routes))) s.routes,
    via-upsert_route hop route (or_default (get route.destination s.routes)),
  )

  -- `remove_route` removes the route of its destination and next hop, and no other.
  pub route_to-remove_route :
      (gone_destination destination : Net) (gone hop : NextHop) (s : State Net)
      → route_to destination hop (remove_route gone_destination gone s) ≡ (
          if gone_destination =? destination
          then (if gone =? hop then none else route_to destination hop s)
          else route_to destination hop s)
  unfolding remove_route
  route_to-remove_route gone_destination destination gone hop s =
      elim (Option-cases (get gone_destination s.routes)) [
        | inl h ↦ ground (arith, h, get-same gone_destination destination s.routes)
        | inr (group, h) ↦
            let kept = keep (λ r. not (r.next_hop =? gone)) group in
            ground (
              arith,
              h,
              get-same gone_destination destination s.routes,
              get-insert gone_destination destination kept s.routes,
              get-remove gone_destination destination s.routes,
              via-keep hop gone group,
              empty_via hop kept,
            )
      ]

  -- No destination of the table is without routes.
  abbrev pub IsFull : State Net → Type 0
  IsFull s = (n : Net) (g : List (Route Net)) → get n s.routes ≡ some g → is_empty g ≡ false

  upsert-nonempty :
      (route : Route Net) (g : List (Route Net)) → is_empty (upsert_route route g) ≡ false
  unfolding upsert_route
  upsert-nonempty route [] = refl
  upsert-nonempty route (r ∷ g) = ground arith

  -- `add_route` leaves no destination without routes.
  pub add_route-IsFull : (route : Route Net) (s : State Net) → IsFull s → IsFull (add_route route s)
  unfolding add_route
  add_route-IsFull route s v n g h = ground (
    arith,
    v n g,
    get-insert route.destination n
        (upsert_route route (or_default (get route.destination s.routes))) s.routes,
    upsert-nonempty route (or_default (get route.destination s.routes)),
  )

  -- `remove_route` leaves no destination without routes: the last route of a destination takes the
  -- destination with it.
  pub remove_route-IsFull :
      (destination : Net) (gone : NextHop) (s : State Net)
      → IsFull s
      → IsFull (remove_route destination gone s)
  unfolding remove_route
  remove_route-IsFull destination gone s v n g h = elim (Option-cases (get destination s.routes)) [
    | inl e ↦ v n g (ground (arith, h, e))
    | inr (group, e) ↦
        let kept = keep (λ r. not (r.next_hop =? gone)) group in
        elim (Bool-cases (is_empty kept)) [
          | inl k ↦ ground (arith, h, e, k, v n g, get-remove destination n s.routes)
          | inr k ↦ ground (arith, h, e, k, v n g, get-insert destination n kept s.routes)
        ]
  ]
