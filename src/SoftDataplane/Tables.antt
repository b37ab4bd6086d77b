-- ===== src/SoftDataplane/Tables.antt =====
-- The tables of `SoftDataplane`: `State`, and every call of the table traits.
pub mod Routes
use sarena.Prelude.{
  Bool, true, false, not, ◌||◌, Option, none, some, List, [], ◌∷◌, Eq, ◌=?◌, nat_eq, pair_eq, map,
  if◌then◌else◌, keep, ◌++◌,
}
use sarena.Prelude.Map.{Map, get, insert, remove, values}
use sarena.Prelude.Set.{member}
use sarena.Net.{IpAddr, ip_eq}
use sarena.SoftDataplane.Models.{
  NodeId, InterfaceId, EndpointId, IdentityId, PolicyId, Node, Interface, Endpoint, NextHop, Route,
  Identity, Policy, Tunnel, ServiceFrontend, Service, FlowTuple, ConntrackEntry, flow_eq,
  frontend_eq, hop_eq,
}

pub record State (Net : Type 0) : Type 0 where
  pub nodes : Map NodeId Node
  pub interfaces : Map InterfaceId (Interface Net)
  pub endpoints : Map EndpointId Endpoint
  pub routes : Map Net (List (Route Net))
  pub identities : Map IdentityId Identity
  pub tunnels : Map (NodeId × NodeId) Tunnel
  pub services : Map ServiceFrontend Service
  pub policies : Map PolicyId Policy
  pub conntrack : Map FlowTuple ConntrackEntry
  pub conntrack_reply_index : Map FlowTuple FlowTuple

abbrev pub empty_state : {Net : Type 0} → State Net
empty_state = record {
  nodes = [];
  interfaces = [];
  endpoints = [];
  routes = [];
  identities = [];
  tunnels = [];
  services = [];
  policies = [];
  conntrack = [];
  conntrack_reply_index = [];
}

-- The whole tail of the list is replaced once: `iter_mut().find(..)`, or `push` if none is found.
unfoldable pub upsert_route : {Net : Type 0} → Route Net → List (Route Net) → List (Route Net)
upsert_route route [] = route ∷ []
upsert_route route (r ∷ group) =
    let rest = upsert_route route group in
    if r.next_hop =? route.next_hop then route ∷ group else r ∷ rest

abbrev pub or_default {ℓ} : {A : Type ℓ} → Option (List A) → List A
or_default none = []
or_default (some xs) = xs

unfoldable pub concat {ℓ} : {A : Type ℓ} → List (List A) → List A
concat [] = []
concat (xs ∷ xss) = xs ++ concat xss

abbrev pub is_empty {ℓ} : {A : Type ℓ} → List A → Bool
is_empty [] = true
is_empty (x ∷ xs) = false

-- What `flush_conntrack` collects for an endpoint with these addresses.
abbrev pub is_stale : List IpAddr → ConntrackEntry → Bool
is_stale addrs e = member e.original.src addrs || member e.reply.src addrs

module _ {Net : Type 0} where
  pub add_node : Node → State Net → State Net
  add_node node s = record s { nodes = insert node.id node s.nodes }

  pub remove_node : NodeId → State Net → State Net
  remove_node id s = record s { nodes = remove id s.nodes }

  pub list_nodes : State Net → List Node
  list_nodes s = values s.nodes

  pub add_interface : Interface Net → State Net → State Net
  add_interface interface s = record s { interfaces = insert interface.id interface s.interfaces }

  pub remove_interface : InterfaceId → State Net → State Net
  remove_interface id s = record s { interfaces = remove id s.interfaces }

  pub list_interfaces : State Net → List (Interface Net)
  list_interfaces s = values s.interfaces

  pub add_endpoint : Endpoint → State Net → State Net
  add_endpoint endpoint s = record s { endpoints = insert endpoint.id endpoint s.endpoints }

  pub remove_endpoint : EndpointId → State Net → State Net
  remove_endpoint id s = record s { endpoints = remove id s.endpoints }

  pub list_endpoints : State Net → List Endpoint
  list_endpoints s = values s.endpoints

  pub add_identity : Identity → State Net → State Net
  add_identity identity s = record s { identities = insert identity.id identity s.identities }

  pub remove_identity : IdentityId → State Net → State Net
  remove_identity id s = record s { identities = remove id s.identities }

  pub list_identities : State Net → List Identity
  list_identities s = values s.identities

  pub add_tunnel : Tunnel → State Net → State Net
  add_tunnel tunnel s = record s {
    tunnels = insert (tunnel.local_node, tunnel.remote_node) tunnel s.tunnels;
  }

  pub remove_tunnel : NodeId → NodeId → State Net → State Net
  remove_tunnel local_node remote_node s = record s {
    tunnels = remove (local_node, remote_node) s.tunnels;
  }

  pub list_tunnels : State Net → List Tunnel
  list_tunnels s = values s.tunnels

  unfoldable pub add_service : Service → State Net → State Net
  add_service service s = record s { services = insert service.frontend service s.services }

  pub remove_service : ServiceFrontend → State Net → State Net
  remove_service frontend s = record s { services = remove frontend s.services }

  pub list_services : State Net → List Service
  list_services s = values s.services

  pub add_policy : Policy → State Net → State Net
  add_policy policy s = record s { policies = insert policy.id policy s.policies }

  pub remove_policy : PolicyId → State Net → State Net
  remove_policy id s = record s { policies = remove id s.policies }

  pub list_policies : State Net → List Policy
  list_policies s = values s.policies

  pub lookup_conntrack : FlowTuple → State Net → Option ConntrackEntry
  lookup_conntrack tuple s = get tuple s.conntrack

  pub dump_conntrack : State Net → List ConntrackEntry
  dump_conntrack s = values s.conntrack

  -- The loop over the stale keys.
  unfoldable pub flush_keys : List FlowTuple → State Net → State Net
  flush_keys [] s = s
  flush_keys (key ∷ stale) s = elim (get key s.conntrack) [
    | none ↦ flush_keys stale s
    | some entry ↦ flush_keys stale (record s {
      conntrack = remove key s.conntrack;
      conntrack_reply_index = remove entry.reply s.conntrack_reply_index;
    })
  ]

  unfoldable pub flush_conntrack : EndpointId → State Net → State Net
  unfolding flush_keys
  flush_conntrack endpoint s = elim (get endpoint s.endpoints) [
    | none ↦ s
    | some ep ↦
        flush_keys (map (λ e. e.original) (keep (is_stale ep.addresses) (values s.conntrack))) s
  ]

module _ {Net : Type 0} ⦃e : Eq Net⦄ where
  unfoldable pub add_route : Route Net → State Net → State Net
  unfolding upsert_route
  add_route route s = record s {
    routes =
        insert route.destination (upsert_route route (or_default (get route.destination s.routes)))
          s.routes;
  }

  unfoldable pub remove_route : Net → NextHop → State Net → State Net
  remove_route destination next_hop s = elim (get destination s.routes) [
    | none ↦ s
    | some group ↦
        let kept = keep (λ r. not (r.next_hop =? next_hop)) group in
        record s {
          routes =
              if is_empty kept
              then remove destination s.routes
              else insert destination kept s.routes;
        }
  ]

  pub dump_routes : State Net → List (Route Net)
  dump_routes s = concat (values s.routes)
