-- ===== src/SoftDataplane/Routing/Longest.antt =====
-- The loop of `lookup_route` finds the longest prefix.
use mathlib.Core.Option.{some-injective}
use sarena.Prelude.{
  ℕ, zero, suc, ◌≤◌, ◌<◌, ◌≡◌, refl, sym, ap, ◌∙◌, ◌⊎◌, inl, inr, Bool, true, ◌&&◌, Option, none,
  some, List, [], ◌∷◌, if◌then◌else◌, arith, get_elem?, length, Bool-cases, Option-cases,
}
use sarena.Prelude.Map.{Map}
use sarena.Net.{IpAddr}
use sarena.SoftDataplane.Models.{Route, FlowTuple}
use sarena.SoftDataplane.Routing.{is_better, best_group, lookup_route, select_route}
use sarena.SoftDataplane.Routing.Choice.{select_route-Owns}

module _ {Net : Type 0} (contains : Net → IpAddr → Bool) (prefix_len : Net → ℕ) (dst : IpAddr) where
  -- A group of the table whose network holds `dst`.
  abbrev pub Candidate : Map Net (List (Route Net)) → Net → List (Route Net) → Type 0
  Candidate m net group = (i : ℕ) × (get_elem? m i ≡ some (net, group)) × (contains net dst ≡ true)

  abbrev Group : Type 0
  Group = ℕ × List (Route Net)

  grows :
      (b : Option Group) (r : Group) (m : Map Net (List (Route Net)))
      → b ≡ some r
      → (q : Group) × (best_group contains prefix_len dst b m ≡ some q) × (r.0 ≤ q.0)
  unfolding best_group
  grows b r [] h = (r, h, omega arith)
  grows b r ((net, group) ∷ m) h =
      elim (Bool-cases (contains net dst && is_better b (prefix_len net))) [
        | inl e ↦
            let (q, f, l) = grows (some (prefix_len net, group)) (prefix_len net, group) m refl in
            (q, ground (arith, f), ground (arith, l, h))
        | inr e ↦ let (q, f, l) = grows b r m h in (q, ground (arith, f), l)
      ]

  longest :
      (b : Option Group) (m : Map Net (List (Route Net))) (net : Net) (group : List (Route Net))
      → Candidate m net group
      → (q : Group) × (best_group contains prefix_len dst b m ≡ some q) × (prefix_len net ≤ q.0)
  unfolding best_group
  longest b [] net group (i, at, c) = absurd (cc at)
  longest b ((n, g) ∷ m) net group (zero, at, c) =
      let same : n ≡ net = ap (λ r. r.0) (some-injective (n, g) (net, group) at) in
      let here : contains n dst ≡ true = ap (λ x. contains x dst) same ∙ c in
      elim (Bool-cases (contains n dst && is_better b (prefix_len n))) [
        | inl e ↦
            let (q, f, l) = grows (some (prefix_len n, g)) (prefix_len n, g) m refl in
            (q, ground (arith, f), omega (arith, l, ap prefix_len same))
        | inr e ↦ elim (Option-cases b) [
          | inl k ↦ absurd (ground (arith, e, k, here))
          | inr (r, k) ↦
              let (q, f, l) = grows b r m k in
              (q, ground (arith, f), ground (arith, e, k, here, l, ap prefix_len same))
        ]
      ]
  longest b ((n, g) ∷ m) net group (suc i, at, c) =
      let (q, f, l) =
        longest (if contains n dst && is_better b (prefix_len n) then some (prefix_len n, g) else b)
          m net group (i, at, c) in
      (q, f, l)

  from_table :
      (b : Option Group) (m : Map Net (List (Route Net))) (q : Group)
      → best_group contains prefix_len dst b m ≡ some q
      → (b ≡ some q) ⊎ ((net : Net) × Candidate m net q.1 × (q.0 ≡ prefix_len net))
  unfolding best_group
  from_table b [] q h = inl h
  from_table b ((n, g) ∷ m) q h = elim (Bool-cases (contains n dst && is_better b (prefix_len n))) [
    | inl e ↦ elim (from_table (some (prefix_len n, g)) m q (ground (arith, h))) [
      | inl k ↦ inr (
        n,
        (0, ap (λ r. some (n, r.1)) (some-injective (prefix_len n, g) q k), ground arith),
        sym (ap (λ r. r.0) (some-injective (prefix_len n, g) q k)),
      )
      | inr (net, (i, at, c), l) ↦ inr (net, (suc i, at, c), l)
    ]
    | inr e ↦ elim (from_table b m q (ground (arith, h))) [
      | inl k ↦ inl k
      | inr (net, (i, at, c), l) ↦ inr (net, (suc i, at, c), l)
    ]
  ]

  -- A route that `lookup_route` finds is the one that the flow's hash selects in the group of a
  -- network that holds the destination, and no network of the table that holds it has a longer
  -- prefix, whatever the order of the table is.
  pub lookup_route_longest :
      (hash : FlowTuple → ℕ) (m : Map Net (List (Route Net))) (flow : FlowTuple) (r : Route Net)
      → lookup_route contains prefix_len hash m dst flow ≡ some r
      → (net : Net) × (group : List (Route Net)) × Candidate m net group
        × (select_route hash group flow ≡ some r)
        × ((other : Net) (routes : List (Route Net))
            → Candidate m other routes
            → prefix_len other ≤ prefix_len net)
  unfolding lookup_route
  lookup_route_longest hash m flow r h =
      elim (Option-cases (best_group contains prefix_len dst none m)) [
        | inl e ↦ absurd (ground (arith, e, h))
        | inr (q, e) ↦ elim (from_table none m q e) [
          | inl k ↦ absurd (ground (arith, k))
          | inr (net, c, l) ↦ (
            net,
            q.1,
            c,
            ground (arith, e, h),
            λ other routes d.
                let (p, f, bound) = longest none m other routes d in
                omega (arith, bound, l, ap (λ (x : Group). x.0) (some-injective p q (sym f ∙ e))),
          )
        ]
      ]

  -- If a network of the table holds the destination, and no destination of the table is without
  -- routes, `lookup_route` finds a route.
  pub lookup_route_total :
      (hash : FlowTuple → ℕ) (m : Map Net (List (Route Net))) (flow : FlowTuple) (net : Net)
      (group : List (Route Net))
      → Candidate m net group
      → ((i : ℕ) (n : Net) (g : List (Route Net)) → get_elem? m i ≡ some (n, g) → 0 < length g)
      → (r : Route Net) × (lookup_route contains prefix_len hash m dst flow ≡ some r)
  unfolding lookup_route
  lookup_route_total hash m flow net group c full =
      let (q, f, l) = longest none m net group c in
      elim (from_table none m q f) [
        | inl k ↦ absurd (ground (arith, k))
        | inr (n, (i, at, d), e) ↦
            let (r, s) = selects q.1 (full i n q.1 at) in (r, ground (arith, f, s))
      ]
    where
      selects :
          (g : List (Route Net))
          → 0 < length g
          → (r : Route Net) × (select_route hash g flow ≡ some r)
      selects [] h = absurd (omega arith)
      selects (first ∷ others) h =
          let (r, s, o) = select_route-Owns hash first others flow in (r, s)
