-- ===== src/SoftDataplane/Models.antt =====
-- sarena-data-plane/src/models.rs: the data of the data plane.
-- Ids are their numbers. The networks of the `ipnet` crate are a type `Net`, and a `SystemTime` is
-- a number. A `MacAddress` is the list of its six bytes.
use sarena.Prelude.{
  ℕ, ◌≡◌, refl, ap, ◌↔◌, Bool, true, false, Option, List, String, Eq, ◌=?◌, nat_eq, pair_eq, ◌==◌,
  ==_iff, arith,
}
use sarena.Prelude.Map.{Map}
use sarena.Net.{IpAddr, ip_eq}
use sarena.SoftDataplane.Packet.{IpProto, icmp, tcp, udp}

abbrev pub NodeId : Type 0
NodeId = ℕ

abbrev pub InterfaceId : Type 0
InterfaceId = ℕ

abbrev pub EndpointId : Type 0
EndpointId = ℕ

abbrev pub IdentityId : Type 0
IdentityId = ℕ

abbrev pub PolicyId : Type 0
PolicyId = ℕ

pub record Node : Type 0 where
  pub id : NodeId
  pub addresses : List IpAddr

pub data InterfaceKind : Type 0 where
  physical veth bridge loopback tunnel virtual : InterfaceKind

pub record Interface (Net : Type 0) : Type 0 where
  pub id : InterfaceId
  pub node : NodeId
  pub kind : InterfaceKind
  pub addresses : List Net
  pub mac : Option (List ℕ)
  pub mtu : Option ℕ

pub data EndpointLocation : Type 0 where
  local : InterfaceId → EndpointLocation
  remote : EndpointLocation

pub record Endpoint : Type 0 where
  pub id : EndpointId
  pub node : NodeId
  pub addresses : List IpAddr
  pub identity : IdentityId
  pub location : EndpointLocation

pub data NextHop : Type 0 where
  to_local : InterfaceId → NextHop
  to_remote : NodeId → NextHop
  gateway : IpAddr → NextHop
  blackhole : NextHop

pub record Route (Net : Type 0) : Type 0 where
  pub destination : Net
  pub next_hop : NextHop
  pub weight : ℕ

pub record Identity : Type 0 where
  pub id : IdentityId
  pub labels : Map String String

pub data IdentitySelector : Type 0 where
  identity : IdentityId → IdentitySelector
  any_identity : IdentitySelector

pub data Direction : Type 0 where
  ingress egress : Direction

pub record PortRule : Type 0 where
  pub protocol : IpProto
  pub port : Option ℕ

pub data Action : Type 0 where
  allow deny : Action

pub record Policy : Type 0 where
  pub id : PolicyId
  pub subject : IdentitySelector
  pub direction : Direction
  pub peer : IdentitySelector
  pub ports : List PortRule
  pub action : Action

pub data TunnelKind : Type 0 where
  vxlan : ℕ → TunnelKind

pub record Tunnel : Type 0 where
  pub local_node : NodeId
  pub remote_node : NodeId
  pub kind : TunnelKind
  pub local_address : IpAddr
  pub remote_address : IpAddr
  pub mtu : Option ℕ

pub record ServiceFrontend : Type 0 where
  pub address : IpAddr
  pub port : ℕ
  pub protocol : IpProto

pub data Nat : Type 0 where
  source : IpAddr → Nat
  destination : IpAddr → Option ℕ → Nat
  masquerade : Nat

pub record ServiceBackend : Type 0 where
  pub endpoint : EndpointId
  pub port : ℕ
  pub nat : Nat

pub record Service : Type 0 where
  pub frontend : ServiceFrontend
  pub backends : List ServiceBackend

pub data ConnectionState : Type 0 where
  fresh established closing closed : ConnectionState

pub record FlowTuple : Type 0 where
  pub src : IpAddr
  pub src_port : ℕ
  pub dst : IpAddr
  pub dst_port : ℕ
  pub protocol : IpProto

pub record ConntrackEntry : Type 0 where
  pub original : FlowTuple
  pub reply : FlowTuple
  pub state : ConnectionState
  pub last_seen : ℕ

-- `derive(PartialEq, Eq)` through an injective image.
abbrev pub eq_by {ℓ κ} :
    {A : Type ℓ} {B : Type κ} ⦃e : Eq B⦄ (f : A → B) → ((a b : A) → f a ≡ f b → a ≡ b) → Eq A
eq_by ⦃e⦄ f inj = record {
  beq = λ a b. f a =? f b;
  beq_iff =
      λ a b. (λ h. inj a b ((e.beq_iff (f a) (f b)).0 h), λ h. (e.beq_iff (f a) (f b)).1 (ap f h));
}

abbrev pub proto_number : IpProto → ℕ
proto_number icmp = 1
proto_number tcp = 6
proto_number udp = 17

pub proto_number_injective : (a b : IpProto) → proto_number a ≡ proto_number b → a ≡ b
proto_number_injective icmp icmp h = refl
proto_number_injective tcp tcp h = refl
proto_number_injective udp udp h = refl
proto_number_injective icmp tcp h = absurd (omega arith)
proto_number_injective icmp udp h = absurd (omega arith)
proto_number_injective tcp icmp h = absurd (omega arith)
proto_number_injective tcp udp h = absurd (omega arith)
proto_number_injective udp icmp h = absurd (omega arith)
proto_number_injective udp tcp h = absurd (omega arith)

instance abbrev pub proto_eq : Eq IpProto
proto_eq = eq_by proto_number proto_number_injective

abbrev pub flow_parts : FlowTuple → IpAddr × (ℕ × (IpAddr × (ℕ × IpProto)))
flow_parts t = (t.src, (t.src_port, (t.dst, (t.dst_port, t.protocol))))

pub flow_parts_injective : (a b : FlowTuple) → flow_parts a ≡ flow_parts b → a ≡ b
flow_parts_injective a b h =
    ap
      (λ p. record {
        src = p.0;
        src_port = p.1.0;
        dst = p.1.1.0;
        dst_port = p.1.1.1.0;
        protocol = p.1.1.1.1;
      })
      h

instance abbrev pub flow_eq : Eq FlowTuple
flow_eq = eq_by flow_parts flow_parts_injective

abbrev pub frontend_parts : ServiceFrontend → IpAddr × (ℕ × IpProto)
frontend_parts f = (f.address, (f.port, f.protocol))

pub frontend_parts_injective : (a b : ServiceFrontend) → frontend_parts a ≡ frontend_parts b → a ≡ b
frontend_parts_injective a b h =
    ap (λ p. record { address = p.0; port = p.1.0; protocol = p.1.1 }) h

instance abbrev pub frontend_eq : Eq ServiceFrontend
frontend_eq = eq_by frontend_parts frontend_parts_injective

abbrev pub hop_beq : NextHop → NextHop → Bool
hop_beq (to_local a) (to_local b) = a == b
hop_beq (to_remote a) (to_remote b) = a == b
hop_beq (gateway a) (gateway b) = a =? b
hop_beq blackhole blackhole = true
hop_beq _ _ = false

pub hop_beq_iff : (a b : NextHop) → (hop_beq a b ≡ true) ↔ (a ≡ b)
hop_beq_iff (to_local a) (to_local b) =
    (λ h. ground (arith, ==_iff a b), λ h. ground (arith, ==_iff a b))
hop_beq_iff (to_remote a) (to_remote b) =
    (λ h. ground (arith, ==_iff a b), λ h. ground (arith, ==_iff a b))
hop_beq_iff (gateway a) (gateway b) =
    (λ h. ap gateway ((ip_eq.beq_iff a b).0 h), λ h. (ip_eq.beq_iff a b).1 (cc h))
hop_beq_iff blackhole blackhole = (λ h. refl, λ h. refl)
hop_beq_iff _ _ = (λ h. cc, λ h. cc)

instance abbrev pub hop_eq : Eq NextHop
hop_eq = record { beq = hop_beq; beq_iff = hop_beq_iff }
