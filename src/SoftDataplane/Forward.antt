-- ===== src/SoftDataplane/Forward.antt =====
-- What `SoftDataplane` decides for a frame: route selection, NAT and forwarding.
-- The networks of the `ipnet` crate are a type with its methods; `hash` is `DefaultHasher`, a
-- `u64` for each flow; `now` is what `SystemTime::now` gives. `none` is a panic.
pub mod Nat
use sarena.Prelude.{
  ℕ, ◌+◌, ◌/◌, ◌%◌, Bool, true, false, Option, none, some, List, [], ◌∷◌, ◌++◌, nat_eq, pair_eq,
  if◌then◌else◌,
}
use sarena.Prelude.Map.{get, insert}
use sarena.Net.{IpAddr, v4, v6, ip_eq}
use sarena.SoftDataplane.Bytes.{◌>>=◌, put_at}
use sarena.SoftDataplane.Packet.{
  Ipv4Info, parse_ipv4, parse_ports, IpProto, icmp, tcp, udp, ip_proto_from_byte, rewrite_ipv4,
  eth_hdr_len,
}
use sarena.SoftDataplane.Models.{
  NodeId, InterfaceId, Interface, NextHop, to_local, to_remote, gateway, blackhole, TunnelKind,
  vxlan, ServiceFrontend, ServiceBackend, source, destination, masquerade, fresh, established,
  closing, closed, FlowTuple, ConntrackEntry, flow_eq, frontend_eq,
}
use sarena.SoftDataplane.Tables.{State}
use sarena.SoftDataplane.Routing.{select_backend, lookup_route}

pub data Decision : Type 0 where
  deliver : InterfaceId → List ℕ → Decision
  encapsulate : IpAddr → ℕ → List ℕ → Decision
  drop : Decision

-- `vni` is a `u32`; its highest byte has no place in the header.
unfoldable pub build_vxlan_header : ℕ → List ℕ
build_vxlan_header vni =
    8 ∷ 0 ∷ 0 ∷ 0 ∷ (vni / 65536 % 256) ∷ (vni / 256 % 256) ∷ (vni % 256) ∷ 0 ∷ []

abbrev pub port_or : ℕ → Option ℕ → ℕ
port_or d none = d
port_or d (some p) = p

-- The tuple of the answers of the backend.
abbrev pub reply_of : ℕ → ℕ → FlowTuple → FlowTuple
reply_of address port wire = record {
  src = v4 address;
  src_port = port;
  dst = wire.src;
  dst_port = wire.src_port;
  protocol = wire.protocol;
}

abbrev pub has_ports : IpProto → Bool
has_ports icmp = false
has_ports tcp = true
has_ports udp = true

abbrev pub unwrap_ports : Option (ℕ × ℕ) → ℕ × ℕ
unwrap_ports none = (0, 0)
unwrap_ports (some ports) = ports

abbrev pub frontend_of : FlowTuple → ServiceFrontend
frontend_of wire = record { address = wire.dst; port = wire.dst_port; protocol = wire.protocol }

abbrev pub refreshed : ℕ → ConntrackEntry → ConntrackEntry
refreshed now entry = record entry {
  last_seen = now;
  state = elim entry.state [
    | fresh ↦ established
    | established ↦ established
    | closing ↦ closing
    | closed ↦ closed
  ];
}

-- The tuple of a frame, as `decide` and `forward` compute it.
unfoldable pub flow_of : List ℕ → Ipv4Info → IpProto → FlowTuple
flow_of frame ip protocol =
    let ports =
      if has_ports protocol
      then unwrap_ports (parse_ports frame (eth_hdr_len + ip.ihl))
      else (0, 0) in
    record {
      src = v4 ip.src;
      src_port = ports.0;
      dst = v4 ip.dst;
      dst_port = ports.1;
      protocol = protocol;
    }

abbrev pub or_icmp : Option IpProto → IpProto
or_icmp none = icmp
or_icmp (some p) = p

-- The copy of a MAC of six bytes to the start of the frame, which is longer.
abbrev pub with_mac : Option (List ℕ) → List ℕ → Option (List ℕ)
with_mac none frame = some frame
with_mac (some mac) frame = put_at 0 mac frame

abbrev pub mac_of : {Net : Type 0} → Option (Interface Net) → Option (List ℕ)
mac_of none = none
mac_of (some iface) = iface.mac

abbrev pub vni_of : TunnelKind → ℕ
vni_of (vxlan vni) = vni

module _ {Net : Type 0} (contains : Net → IpAddr → Bool) (prefix_len : Net → ℕ)
    (hash : FlowTuple → ℕ) (local_node : NodeId) where
  unfoldable pub dispatch : State Net → List ℕ → NextHop → Option Decision
  dispatch s frame (to_local iface) =
      with_mac (mac_of (get iface s.interfaces)) frame >>= λ out. some (deliver iface out)
  dispatch s frame (to_remote node) = elim (get (local_node, node) s.tunnels) [
    | none ↦ some drop
    | some tunnel ↦ some (encapsulate tunnel.remote_address (vni_of tunnel.kind) frame)
  ]
  dispatch s frame (gateway address) = some drop
  dispatch s frame blackhole = some drop

  unfoldable pub forward : State Net → List ℕ → Option Decision
  unfolding dispatch
  forward s frame = elim (parse_ipv4 frame) [
    | none ↦ some drop
    | some ip ↦
        elim (lookup_route contains prefix_len hash s.routes (v4 ip.dst)
          (flow_of frame ip (or_icmp (ip_proto_from_byte ip.protocol)))) [
            | none ↦ some drop
            | some route ↦ dispatch s frame route.next_hop
          ]
  ]

  -- The frame with the frontend as its source, forwarded; an IPv6 frontend changes nothing.
  unfoldable pub from_frontend : State Net → List ℕ → Ipv4Info → IpAddr → ℕ → Option Decision
  unfolding forward
  from_frontend s frame ip (v4 address) port =
      rewrite_ipv4 frame ip.ihl (some address) none (some port) none >>= λ out. forward s out
  from_frontend s frame ip (v6 address) port = forward s frame

  -- Return traffic of the flow `original`: its source becomes the frontend.
  unfoldable pub return_traffic :
      ℕ → State Net → List ℕ → Ipv4Info → FlowTuple → State Net × Option Decision
  unfolding from_frontend forward
  return_traffic now s frame ip original = elim (get original s.conntrack) [
    | none ↦ (s, forward s frame)
    | some entry ↦
        let t = record s { conntrack = insert original (refreshed now entry) s.conntrack } in
        (t, from_frontend t frame ip entry.original.dst entry.original.dst_port)
  ]

  -- New traffic to a frontend, for the backend that was chosen.
  unfoldable pub to_backend :
      ℕ → State Net → List ℕ → Ipv4Info → FlowTuple → ServiceBackend → State Net × Option Decision
  unfolding forward
  to_backend now s frame ip wire backend = elim backend.nat [
    | destination (v4 address) port ↦
        let backend_port = port_or backend.port port in
        let reply = reply_of address backend_port wire in
        let t = record s {
          conntrack =
              insert wire
                (record { original = wire; reply = reply; state = fresh; last_seen = now })
                s.conntrack;
          conntrack_reply_index = insert reply wire s.conntrack_reply_index;
        } in
        (
          t,
          rewrite_ipv4 frame ip.ihl none (some address) none (some backend_port) >>= λ out.
              forward t out,
        )
    | destination (v6 address) port ↦ (s, some drop)
    | source address ↦ (s, some drop)
    | masquerade ↦ (s, some drop)
  ]

  unfoldable pub decide : ℕ → State Net → List ℕ → State Net × Option Decision
  unfolding return_traffic to_backend forward
  decide now s frame = elim (parse_ipv4 frame) [
    | none ↦ (s, some drop)
    | some ip ↦ elim (ip_proto_from_byte ip.protocol) [
      | none ↦ (s, some drop)
      | some protocol ↦
          let wire = flow_of frame ip protocol in
          elim (get wire s.conntrack_reply_index) [
            | some original ↦ return_traffic now s frame ip original
            | none ↦ elim (get (frontend_of wire) s.services) [
              | none ↦ (s, forward s frame)
              | some service ↦ elim (select_backend hash service.backends wire) [
                | none ↦ (s, some drop)
                | some backend ↦ to_backend now s frame ip wire backend
              ]
            ]
          ]
    ]
  ]

-- What `handle_frame` sends: a frame to an attached interface, or a datagram to a peer's port.
pub data Sent : Type 0 where
  to_interface : InterfaceId → List ℕ → Sent
  to_peer : IpAddr → ℕ → List ℕ → Sent

-- `attached` tells which interfaces have I/O, `has_socket` whether the VXLAN socket is open; an
-- error of a send is ignored.
unfoldable pub send : (InterfaceId → Bool) → Bool → ℕ → Decision → Option Sent
send attached has_socket vxlan_port (deliver interface frame) =
    if attached interface then some (to_interface interface frame) else none
send attached has_socket vxlan_port (encapsulate remote_addr vni frame) =
    if has_socket
    then some (to_peer remote_addr vxlan_port (build_vxlan_header vni ++ frame))
    else none
send attached has_socket vxlan_port drop = none
