-- ===== src/SoftDataplane/NatTests.antt =====
-- NAT and checksums of the data plane at concrete frames.
use sarena.Prelude.{
  ℕ, ◌+◌, ◌<◌, ◌≡◌, refl, ◌↔◌, ◌⊎◌, none, some, List, [], ◌∷◌, ◌++◌, replicate, nat_eq, pair_eq,
  length, arith,
}
use sarena.Prelude.Map.{get, insert}
use sarena.Net.{v4, ip_eq}
use sarena.SoftDataplane.Bytes.{put_at, overwrite, slice, taken, ◌>>=◌, be_bytes16, octets}
use sarena.SoftDataplane.Packet.{
  Ipv4Info, parse_ipv4, parse_ports, udp, ip_proto_from_byte, recompute_l4_checksum, rewrite_ipv4,
  ip_checksum, put_ports, l4_checksum, pseudo_header, internet_checksum, sum_words, fold_carry,
}
use sarena.SoftDataplane.Packet.Rewrite.{parse_ipv4-rewrite_ipv4}
use sarena.SoftDataplane.Packet.Panics.{recompute_l4_checksum_panics}
use sarena.SoftDataplane.Models.{
  ServiceBackend, Service, destination, established, FlowTuple, flow_eq, frontend_eq,
}
use sarena.SoftDataplane.Tables.{State, empty_state, add_service}
use sarena.SoftDataplane.Routing.{select_backend}
use sarena.SoftDataplane.Forward.{flow_of, reply_of, decide, forward}
use sarena.SoftDataplane.Forward.Nat.{tracked, decide_answers_from_frontend}
use sarena.SoftDataplane.Tests.{Net, net_contains, net_prefix, seven}

-- A frame with an IPv4 header of 20 bytes, and the start of its segment.
abbrev ip_frame : ℕ → ℕ → ℕ → ℕ → List ℕ → List ℕ
ip_frame total_len protocol src dst segment =
    replicate 12 0
    ++ (8 ∷ 0 ∷ 69 ∷ 0 ∷ be_bytes16 total_len)
    ++ (0 ∷ 0 ∷ 0 ∷ 0 ∷ 64 ∷ protocol ∷ 0 ∷ 0 ∷ octets src)
    ++ octets dst
    ++ segment

abbrev udp_frame : ℕ → ℕ → ℕ → ℕ → List ℕ
udp_frame src src_port dst dst_port =
    ip_frame 28 17 src dst (be_bytes16 src_port ++ be_bytes16 dst_port ++ (0 ∷ 8 ∷ 0 ∷ 0 ∷ []))

abbrev backend : ServiceBackend
backend = record { endpoint = 1; port = 8080; nat = destination (v4 0x0a000002) none }

abbrev web : Service
web = record {
  frontend = record { address = v4 0x0a000009; port = 80; protocol = udp };
  backends = backend ∷ [];
}

abbrev serving : State Net
serving = add_service web empty_state

abbrev call : List ℕ
call = udp_frame 0x0a000001 1234 0x0a000009 80

abbrev answer : List ℕ
answer = udp_frame 0x0a000002 8080 0x0a000001 1234

abbrev info : ℕ → ℕ → Ipv4Info
info src dst = record { ihl = 20; protocol = 17; src = src; dst = dst }

call_parses : parse_ipv4 call ≡ some (info 0x0a000001 0x0a000009)
unfolding parse_ipv4
call_parses = refl

answer_parses : parse_ipv4 answer ≡ some (info 0x0a000002 0x0a000001)
unfolding parse_ipv4
answer_parses = refl

is_udp : ip_proto_from_byte 17 ≡ some udp
unfolding ip_proto_from_byte
is_udp = refl

abbrev wire : FlowTuple
wire = flow_of call (info 0x0a000001 0x0a000009) udp

decide_answers_from_frontend_example :
    ((decide net_contains net_prefix seven 1 6
        (decide net_contains net_prefix seven 1 5 serving call).0
        answer).1
      ≡ (rewrite_ipv4 answer 20 (some 0x0a000009) none (some wire.dst_port) none >>= λ f.
          forward net_contains net_prefix seven 1
            (decide net_contains net_prefix seven 1 6
              (decide net_contains net_prefix seven 1 5 serving call).0
              answer).0
            f))
    × (get wire
          (decide net_contains net_prefix seven 1 6
            (decide net_contains net_prefix seven 1 5 serving call).0
            answer).0.conntrack
        ≡ some (tracked 6 wire (reply_of 0x0a000002 8080 wire) established))
unfolding get insert add_service select_backend flow_of parse_ports
decide_answers_from_frontend_example =
    decide_answers_from_frontend net_contains net_prefix seven 1 5 6 serving call answer
      (info 0x0a000001 0x0a000009) (info 0x0a000002 0x0a000001) udp web backend 0x0a000002 none
      call_parses is_udp refl refl refl refl answer_parses is_udp refl

-- A TCP segment of four bytes.
abbrev short_tcp : List ℕ
short_tcp = ip_frame 24 6 0x0a000001 0x0a000009 (0 ∷ 1 ∷ 0 ∷ 2 ∷ [])

recompute_l4_checksum_panics_example : (recompute_l4_checksum short_tcp 20 6 ≡ none) ↔ (
    (◌≡◌ {A = ℕ} 6 6) × (length short_tcp < 14 + 20 + 18)
    ⊎ (◌≡◌ {A = ℕ} 6 17) × (length short_tcp < 14 + 20 + 8))
recompute_l4_checksum_panics_example =
    recompute_l4_checksum_panics short_tcp 20 6 (omega arith) (omega arith) (omega arith)

-- The answer as the client sees it.
abbrev translated : List ℕ
translated = elim (rewrite_ipv4 answer 20 (some 0x0a000009) none (some 80) none) [
  | none ↦ []
  | some f ↦ f
]

answer_translates : rewrite_ipv4 answer 20 (some 0x0a000009) none (some 80) none ≡ some translated
unfolding rewrite_ipv4 ip_checksum put_ports recompute_l4_checksum l4_checksum pseudo_header put_at
    overwrite slice taken internet_checksum sum_words fold_carry
answer_translates = refl

parse_ipv4-rewrite_ipv4_example : parse_ipv4 translated ≡ some (info 0x0a000009 0x0a000001)
parse_ipv4-rewrite_ipv4_example =
    parse_ipv4-rewrite_ipv4 answer translated (info 0x0a000002 0x0a000001) (some 0x0a000009) none
      (some 80) none answer_parses (omega arith) (omega arith) tt answer_translates
