-- ===== src/SoftDataplane/Routing/Choice.antt =====
-- Which route of a destination a flow takes, and which destination is the best.
use sarena.Prelude.{
  ℕ, zero, suc, ◌+◌, ◌-◌, ◌%◌, ◌≤◌, ◌<◌, ◌≡◌, refl, inl, inr, Option, none, some, List, [], ◌∷◌,
  ltb, arith, get_elem?, Bool-cases,
}
use sarena.SoftDataplane.Models.{Route, FlowTuple}
use sarena.SoftDataplane.Routing.{weight_of, total_weight, pick_route, select_route}

-- The weights of the first `k` routes.
unfoldable pub weight_before : {Net : Type 0} → ℕ → List (Route Net) → ℕ
weight_before zero routes = 0
weight_before (suc k) [] = 0
weight_before (suc k) (r ∷ routes) = weight_of r + weight_before k routes

module _ {Net : Type 0} where
  -- The route at `k` is the one whose share of the weights holds `target`.
  abbrev pub Owns : ℕ → List (Route Net) → Route Net → Type 0
  Owns target routes r =
      (k : ℕ) × (get_elem? routes k ≡ some r)
      × (weight_before k routes ≤ target)
      × (target < weight_before k routes + weight_of r)

  pick_route-Owns :
      (target : ℕ) (last : Option (Route Net)) (routes : List (Route Net))
      → target < total_weight routes
      → (r : Route Net) × (pick_route target last routes ≡ some r) × Owns target routes r
  unfolding pick_route total_weight weight_before
  pick_route-Owns target last [] h = absurd (omega arith)
  pick_route-Owns target last (r ∷ routes) h = elim (Bool-cases (ltb target (weight_of r))) [
    | inl e ↦ (r, ground arith, (0, refl, omega arith, ground arith))
    | inr e ↦
        let (q, found, (k, at, lo, hi)) =
          pick_route-Owns (target - weight_of r) (some r) routes (ground arith) in
        (q, ground (arith, found), (suc k, at, ground (arith, lo), ground (arith, hi)))
  ]

  total_weight_pos : (r : Route Net) (routes : List (Route Net)) → 0 < total_weight (r ∷ routes)
  unfolding total_weight
  total_weight_pos r routes = omega arith

  -- A destination with routes always has one for a flow: the one whose share of the total weight
  -- (a weight of 0 counts as 1) holds the flow's hash modulo the total.
  pub select_route-Owns :
      (hash : FlowTuple → ℕ) (first : Route Net) (others : List (Route Net)) (flow : FlowTuple)
      → (r : Route Net) × (select_route hash (first ∷ others) flow ≡ some r)
        × Owns (hash flow % total_weight (first ∷ others)) (first ∷ others) r
  unfolding select_route
  select_route-Owns hash first others flow =
      let pos = total_weight_pos first others in
      pick_route-Owns (hash flow % total_weight (first ∷ others)) none (first ∷ others)
        (omega (arith, pos))
