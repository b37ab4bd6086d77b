-- ===== src/SoftDataplane/Routing.antt =====
-- The choice of a route and of a backend in soft_dataplane.rs.
-- The networks of the `ipnet` crate are a type with its methods; `hash` is `DefaultHasher`, a
-- `u64` for each flow.
pub mod Choice
pub mod Longest
use Prim.Native.Nat.{max}
use sarena.Prelude.{
  ℕ, ◌+◌, ◌-◌, ◌%◌, Bool, true, ◌&&◌, Option, none, some, List, [], ◌∷◌, nat_eq, pair_eq, ltb,
  if◌then◌else◌, length, get_elem?,
}
use sarena.Prelude.Map.{Map}
use sarena.Net.{IpAddr, ip_eq}
use sarena.SoftDataplane.Bytes.{◌>>=◌}
use sarena.SoftDataplane.Models.{Route, ServiceBackend, FlowTuple, flow_eq, frontend_eq}

abbrev pub weight_of : {Net : Type 0} → Route Net → ℕ
weight_of r = max r.weight 1

-- A `u32` sum: 2 ^ 24 routes of a destination would be needed to overflow it.
unfoldable pub total_weight : {Net : Type 0} → List (Route Net) → ℕ
total_weight [] = 0
total_weight (r ∷ routes) = weight_of r + total_weight routes

-- The loop over the routes; past the last one it would answer the last.
unfoldable pub pick_route :
    {Net : Type 0} → ℕ → Option (Route Net) → List (Route Net) → Option (Route Net)
pick_route target last [] = last
pick_route target last (r ∷ routes) =
    let rest = pick_route (target - weight_of r) (some r) routes in
    if ltb target (weight_of r) then some r else rest

unfoldable pub select_route :
    {Net : Type 0} → (FlowTuple → ℕ) → List (Route Net) → FlowTuple → Option (Route Net)
unfolding pick_route total_weight
select_route hash [] flow = none
select_route hash (r ∷ routes) flow =
    pick_route (hash flow % total_weight (r ∷ routes)) none (r ∷ routes)

unfoldable pub select_backend :
    (FlowTuple → ℕ) → List ServiceBackend → FlowTuple → Option ServiceBackend
select_backend hash [] flow = none
select_backend hash (b ∷ backends) flow =
    get_elem? (b ∷ backends) (hash flow % length (b ∷ backends))

-- `best.is_none_or(|(b, _)| len > b)`.
abbrev pub is_better {ℓ} : {A : Type ℓ} → Option (ℕ × A) → ℕ → Bool
is_better none len = true
is_better (some b) len = ltb b.0 len

module _ {Net : Type 0} (contains : Net → IpAddr → Bool) (prefix_len : Net → ℕ) where
  -- The loop over the table, with the best group so far.
  unfoldable pub best_group :
      IpAddr
      → Option (ℕ × List (Route Net))
      → Map Net (List (Route Net))
      → Option (ℕ × List (Route Net))
  best_group dst best [] = best
  best_group dst best ((net, group) ∷ routes) =
      let next =
        if contains net dst && is_better best (prefix_len net)
        then some (prefix_len net, group)
        else best in
      best_group dst next routes

  unfoldable pub lookup_route :
      (FlowTuple → ℕ) → Map Net (List (Route Net)) → IpAddr → FlowTuple → Option (Route Net)
  unfolding best_group
  lookup_route hash routes dst flow =
      best_group dst none routes >>= λ best. select_route hash best.1 flow
