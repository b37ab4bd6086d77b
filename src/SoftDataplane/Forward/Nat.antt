-- ===== src/SoftDataplane/Forward/Nat.antt =====
-- A flow to a service frontend, and the answers of its backend.
use sarena.Prelude.{ℕ, ◌≡◌, refl, ap, Bool, Option, none, some, List}
use sarena.Prelude.Map.{get, insert, get-insert_self}
use sarena.Net.{IpAddr, v4}
use sarena.SoftDataplane.Bytes.{◌>>=◌}
use sarena.SoftDataplane.Packet.{Ipv4Info, parse_ipv4, IpProto, ip_proto_from_byte, rewrite_ipv4}
use sarena.SoftDataplane.Models.{
  NodeId, ServiceBackend, Service, destination, ConnectionState, fresh, established, FlowTuple,
  ConntrackEntry, flow_eq, frontend_eq,
}
use sarena.SoftDataplane.Tables.{State}
use sarena.SoftDataplane.Routing.{select_backend}
use sarena.SoftDataplane.Forward.{
  flow_of, reply_of, port_or, frontend_of, forward, from_frontend, return_traffic, to_backend,
  decide,
}

abbrev pub tracked : ℕ → FlowTuple → FlowTuple → ConnectionState → ConntrackEntry
tracked now wire reply state = record {
  original = wire;
  reply = reply;
  state = state;
  last_seen = now;
}

module _ {Net : Type 0} (contains : Net → IpAddr → Bool) (prefix_len : Net → ℕ)
    (hash : FlowTuple → ℕ) (local_node : NodeId) where
  new_flow :
      (now : ℕ) (s : State Net) (frame : List ℕ) (ip : Ipv4Info) (protocol : IpProto)
      (service : Service) (backend : ServiceBackend)
      → parse_ipv4 frame ≡ some ip
      → ip_proto_from_byte ip.protocol ≡ some protocol
      → get (flow_of frame ip protocol) s.conntrack_reply_index ≡ none
      → get (frontend_of (flow_of frame ip protocol)) s.services ≡ some service
      → select_backend hash service.backends (flow_of frame ip protocol) ≡ some backend
      → decide contains prefix_len hash local_node now s frame
        ≡ to_backend contains prefix_len hash local_node now s frame ip
            (flow_of frame ip protocol)
            backend
  unfolding decide
  new_flow now s frame ip protocol service backend h1 h2 h3 h4 h5 =
      rw (h1, decide) (rw (h2, decide) (rw (h3, decide) (rw (h4, decide) (rw (h5, decide)))))

  known_flow :
      (now : ℕ) (s : State Net) (frame : List ℕ) (ip : Ipv4Info) (protocol : IpProto)
      (original : FlowTuple)
      → parse_ipv4 frame ≡ some ip
      → ip_proto_from_byte ip.protocol ≡ some protocol
      → get (flow_of frame ip protocol) s.conntrack_reply_index ≡ some original
      → decide contains prefix_len hash local_node now s frame
        ≡ return_traffic contains prefix_len hash local_node now s frame ip original
  unfolding decide
  known_flow now s frame ip protocol original h1 h2 h3 =
      rw (h1, decide) (rw (h2, decide) (rw (h3, decide)))

  -- The state that `to_backend` leaves.
  to_backend_state :
      (now : ℕ) (s : State Net) (frame : List ℕ) (ip : Ipv4Info) (wire : FlowTuple)
      (backend : ServiceBackend) (address : ℕ) (port : Option ℕ)
      → backend.nat ≡ destination (v4 address) port
      → let t = (to_backend contains prefix_len hash local_node now s frame ip wire backend).0 in
        let reply = reply_of address (port_or backend.port port) wire in
        (t.conntrack ≡ insert wire (tracked now wire reply fresh) s.conntrack)
        × (t.conntrack_reply_index ≡ insert reply wire s.conntrack_reply_index)
  unfolding to_backend
  to_backend_state now s frame ip wire backend address port h = rw (h, to_backend) (refl, refl)

  abbrev pub seen : ℕ → State Net → FlowTuple → FlowTuple → State Net
  seen now s wire reply = record s {
    conntrack = insert wire (tracked now wire reply established) s.conntrack;
  }

  returns :
      (now : ℕ) (s : State Net) (frame : List ℕ) (ip : Ipv4Info) (wire reply : FlowTuple)
      (then_seen address : ℕ)
      → wire.dst ≡ v4 address
      → get wire s.conntrack ≡ some (tracked then_seen wire reply fresh)
      → let out = return_traffic contains prefix_len hash local_node now s frame ip wire in
        (out.1 ≡ (
          rewrite_ipv4 frame ip.ihl (some address) none (some wire.dst_port) none >>= λ f.
          forward contains prefix_len hash local_node out.0 f))
        × (get wire out.0.conntrack ≡ some (tracked now wire reply established))
  unfolding return_traffic from_frontend
  returns now s frame ip wire reply then_seen address k h =
      rw (h, return_traffic)
        (
          ap
              (λ d.
                from_frontend contains prefix_len hash local_node (seen now s wire reply) frame ip d
                  wire.dst_port)
              k,
          get-insert_self wire (tracked now wire reply established) s.conntrack,
        )

  -- A frame of a flow that is not yet known, to a frontend whose chosen backend is an IPv4
  -- destination, opens the flow; a frame that answers it (its tuple is the backend's address and
  -- port to the client's) is then rewritten to come from the address and port of the frontend that
  -- the client called, and forwarded, and the flow counts as established.
  pub decide_answers_from_frontend :
      (now later : ℕ) (s : State Net) (frame back : List ℕ) (ip ip' : Ipv4Info) (protocol : IpProto)
      (service : Service) (backend : ServiceBackend) (address : ℕ) (port : Option ℕ)
      → parse_ipv4 frame ≡ some ip
      → ip_proto_from_byte ip.protocol ≡ some protocol
      → get (flow_of frame ip protocol) s.conntrack_reply_index ≡ none
      → get (frontend_of (flow_of frame ip protocol)) s.services ≡ some service
      → select_backend hash service.backends (flow_of frame ip protocol) ≡ some backend
      → backend.nat ≡ destination (v4 address) port
      → parse_ipv4 back ≡ some ip'
      → ip_proto_from_byte ip'.protocol ≡ some protocol
      → flow_of back ip' protocol
        ≡ reply_of address (port_or backend.port port) (flow_of frame ip protocol)
      → let wire = flow_of frame ip protocol in
        let t = (decide contains prefix_len hash local_node now s frame).0 in
        let out = decide contains prefix_len hash local_node later t back in
        (out.1 ≡ (
          rewrite_ipv4 back ip'.ihl (some ip.dst) none (some wire.dst_port) none >>= λ f.
          forward contains prefix_len hash local_node out.0 f))
        × (get wire out.0.conntrack
            ≡ some (
                tracked later wire (reply_of address (port_or backend.port port) wire) established))
  unfolding flow_of
  decide_answers_from_frontend now later s frame back ip ip' protocol service backend address port
        h1 h2 h3 h4 h5 h6 h7 h8 h9 =
      let wire = flow_of frame ip protocol in
      let reply = reply_of address (port_or backend.port port) wire in
      let t = (to_backend contains prefix_len hash local_node now s frame ip wire backend).0 in
      let (tracks, indexes) = to_backend_state now s frame ip wire backend address port h6 in
      let hit : get (flow_of back ip' protocol) t.conntrack_reply_index ≡ some wire =
        rw h9 (rw indexes (get-insert_self reply wire s.conntrack_reply_index)) in
      let entry : get wire t.conntrack ≡ some (tracked now wire reply fresh) =
        rw tracks (get-insert_self wire (tracked now wire reply fresh) s.conntrack) in
      rw (ap (λ r. r.0) (new_flow now s frame ip protocol service backend h1 h2 h3 h4 h5)) (
        rw (known_flow later t back ip' protocol wire h7 h8 hit)
          (returns later t back ip' wire reply now ip.dst refl entry))
