-- ===== src/SoftDataplane/Tests.antt =====
-- The data plane at concrete frames and tables, and each theorem at one of them.
use sarena.Prelude.{
  ℕ, zero, suc, ◌%◌, ◌≤◌, ◌<◌, ◌≡◌, refl, Bool, some, List, [], ◌∷◌, nat_eq, pair_eq, ◌=?◌,
  if◌then◌else◌, length, get_elem?, arith,
}
use sarena.Prelude.Map.{Map}
use sarena.Net.{IpAddr, v4, ip_eq}
use sarena.Net.Cidr.{in_block}
use sarena.SoftDataplane.Packet.{udp, internet_checksum, sum_words}
use sarena.SoftDataplane.Packet.Checksum.{filled, internet_checksum-filled}
use sarena.SoftDataplane.Models.{
  to_local, to_remote, Route, FlowTuple, hop_eq, flow_eq, frontend_eq,
}
use sarena.SoftDataplane.Tables.{State, empty_state, add_route}
use sarena.SoftDataplane.Tables.Routes.{route_to, route_to-add_route}
use sarena.SoftDataplane.Routing.{total_weight, select_route, lookup_route, pick_route, best_group}
use sarena.SoftDataplane.Routing.Choice.{Owns, select_route-Owns}
use sarena.SoftDataplane.Routing.Longest.{Candidate, lookup_route_longest}

-- A network as its first address and its prefix length.
abbrev pub Net : Type 0
Net = ℕ × ℕ

abbrev pub net_contains : Net → IpAddr → Bool
net_contains n ip = in_block n.0 n.1 ip

abbrev pub net_prefix : Net → ℕ
net_prefix n = n.1

abbrev pub seven : FlowTuple → ℕ
seven flow = 7

abbrev wide : Net
wide = (0x0a000000, 8)

abbrev narrow : Net
narrow = (0x0a000000, 24)

abbrev light : Route Net
light = record { destination = narrow; next_hop = to_local 1; weight = 1 }

abbrev heavy : Route Net
heavy = record { destination = narrow; next_hop = to_local 2; weight = 3 }

abbrev far : Route Net
far = record { destination = wide; next_hop = to_remote 4; weight = 0 }

abbrev table : Map Net (List (Route Net))
table = (wide, far ∷ []) ∷ (narrow, light ∷ heavy ∷ []) ∷ []

abbrev client_flow : FlowTuple
client_flow = record {
  src = v4 0x0a000001;
  src_port = 1234;
  dst = v4 0x0a000009;
  dst_port = 80;
  protocol = udp;
}

select_route-Owns_example :
    (r : Route Net) × (select_route seven (light ∷ heavy ∷ []) client_flow ≡ some r)
    × Owns (seven client_flow % total_weight (light ∷ heavy ∷ [])) (light ∷ heavy ∷ []) r
select_route-Owns_example = select_route-Owns seven light (heavy ∷ []) client_flow

finds_heavy :
    lookup_route net_contains net_prefix seven table (v4 0x0a000009) client_flow ≡ some heavy
unfolding lookup_route best_group select_route pick_route total_weight
finds_heavy = refl

lookup_route_longest_example :
    (net : Net) × (group : List (Route Net)) × Candidate net_contains net_prefix
      (v4 0x0a000009)
      table
      net
      group
    × (select_route seven group client_flow ≡ some heavy)
    × ((other : Net) (routes : List (Route Net))
        → Candidate net_contains net_prefix (v4 0x0a000009) table other routes
        → net_prefix other ≤ net_prefix net)
lookup_route_longest_example =
    lookup_route_longest net_contains net_prefix (v4 0x0a000009) seven table client_flow heavy
      finds_heavy

table_full :
    (i : ℕ) (n : Net) (g : List (Route Net)) → get_elem? table i ≡ some (n, g) → 0 < length g
table_full zero n g h = ground arith
table_full (suc zero) n g h = ground arith
table_full (suc (suc i)) n g h = absurd (ground arith)

abbrev routed : State Net
routed = add_route light empty_state

route_to-add_route_example : route_to narrow (to_local 1) (add_route heavy routed) ≡ (
    if narrow =? narrow
    then (if to_local 2 =? to_local 1 then some heavy else route_to narrow (to_local 1) routed)
    else route_to narrow (to_local 1) routed)
route_to-add_route_example = route_to-add_route heavy narrow (to_local 1) routed

internet_checksum-filled_example :
    internet_checksum
      (filled (69 ∷ 0 ∷ []) (internet_checksum (filled (69 ∷ 0 ∷ []) 0 (1 ∷ 2 ∷ []))) (1 ∷ 2 ∷ []))
    ≡ 0
unfolding sum_words
internet_checksum-filled_example =
    internet_checksum-filled (69 ∷ 0 ∷ []) (1 ∷ 2 ∷ []) refl (omega arith)
