-- ===== src/SoftDataplane/Packet/Rewrite.antt =====
-- What `rewrite_ipv4` writes: the frame parses afterwards with the new addresses.
use sarena.Prelude.{
  ℕ, ◌+◌, ◌^◌, ◌≤◌, ◌<◌, ◌≡◌, refl, ap, ◌∙◌, List, Option, none, some, length, arith,
}
use sarena.SoftDataplane.Bytes.{byte_at, be32, octets}
use sarena.SoftDataplane.Packet.{
  Ipv4Info, parse_ipv4, rewrite_ipv4, put_opt, map_opt, ip_checksum, put_ports,
}
use sarena.SoftDataplane.Bytes.Writes.{bind_some}
use sarena.SoftDataplane.Packet.Keeps.{
  new_byte, put_opt-octets, then_keeps, put_ports-KeepsHeader, recompute-KeepsHeader,
  ip_checksum-Within,
}

-- The bytes of the header after a rewrite: the addresses, and what parsing reads besides.
record Header (src dst : Option ℕ) (f g : List ℕ) : Type 0 where
  same_length : length g ≡ length f
  other : (j : ℕ) → j < 24 → byte_at g j ≡ byte_at f j
  src_byte : (i : ℕ) → i < 4 → byte_at g (26 + i) ≡ new_byte src i (byte_at f (26 + i))
  dst_byte : (i : ℕ) → i < 4 → byte_at g (30 + i) ≡ new_byte dst i (byte_at f (30 + i))

rewrite_ipv4-Header :
    (frame out : List ℕ) (ihl : ℕ) (src dst src_port dst_port : Option ℕ)
    → 20 ≤ ihl
    → rewrite_ipv4 frame ihl src dst src_port dst_port ≡ some out
    → Header src dst frame out
unfolding rewrite_ipv4
rewrite_ipv4-Header frame out ihl src dst src_port dst_port o h =
    let (f1, p1, q1) = bind_some (put_opt 26 (map_opt octets src) frame) _ out h in
    let (f2, p2, q2) = bind_some (put_opt 30 (map_opt octets dst) f1) _ out q1 in
    let (f3, p3, q3) = bind_some (ip_checksum ihl f2) _ out q2 in
    let (f4, p4, q4) = bind_some (put_ports ihl src_port dst_port f3) _ out q3 in
    let (w1, b1) = put_opt-octets 26 src frame f1 p1 in
    let (w2, b2) = put_opt-octets 30 dst f1 f2 p2 in
    let w3 = ip_checksum-Within ihl f2 f3 p3 in
    let k =
      then_keeps f3 f4 out (put_ports-KeepsHeader ihl src_port dst_port f3 f4 o p4)
        (recompute-KeepsHeader ihl (byte_at f4 23) f4 out o q4) in
    record {
      same_length = k.same_length ∙ w3.same_length ∙ w2.same_length ∙ w1.same_length;
      other = λ j l.
          k.header j (omega arith)
          ∙ w3.below j l
          ∙ w2.below j (omega arith)
          ∙ w1.below j (omega arith);
      src_byte = λ i l.
          k.header (26 + i) (omega arith)
          ∙ w3.above (26 + i) (omega arith)
          ∙ w2.below (26 + i) (omega arith)
          ∙ b1 i l;
      dst_byte = λ i l.
          k.header (30 + i) (omega arith)
          ∙ w3.above (30 + i) (omega arith)
          ∙ b2 i l
          ∙ ap (new_byte dst i) (w1.above (30 + i) (omega arith));
    }

abbrev pub or_old : Option ℕ → ℕ → ℕ
or_old none old = old
or_old (some n) old = n

-- A written address is one of 32 bits.
abbrev pub IsAddress : Option ℕ → Type 0
IsAddress none = Unit {0}
IsAddress (some n) = n < 2 ^ 32

address_read :
    (new : Option ℕ) (a b c d : ℕ)
    → IsAddress new
    → be32 (new_byte new 0 a) (new_byte new 1 b) (new_byte new 2 c) (new_byte new 3 d)
      ≡ or_old new (be32 a b c d)
address_read none a b c d h = refl
address_read (some n) a b c d h = omega arith

read_eq :
    {a b c d a' b' c' d' : ℕ} → a ≡ a' → b ≡ b' → c ≡ c' → d ≡ d' → be32 a b c d ≡ be32 a' b' c' d'
read_eq p q r s = omega (arith, p, q, r, s)

-- A rewrite of a frame with a header of at least 20 bytes that does not panic leaves a frame that
-- parses with the same header length and protocol, with the new source and destination addresses
-- where they are given (they are of 32 bits) and the old ones where not.
pub parse_ipv4-rewrite_ipv4 :
    (frame out : List ℕ) (ip : Ipv4Info) (src dst src_port dst_port : Option ℕ)
    → parse_ipv4 frame ≡ some ip
    → 20 ≤ ip.ihl
    → IsAddress src
    → IsAddress dst
    → rewrite_ipv4 frame ip.ihl src dst src_port dst_port ≡ some out
    → parse_ipv4 out ≡ some (record ip { src = or_old src ip.src; dst = or_old dst ip.dst })
unfolding parse_ipv4
parse_ipv4-rewrite_ipv4 frame out ip src dst src_port dst_port h o s d r =
    let t = rewrite_ipv4-Header frame out ip.ihl src dst src_port dst_port o r in
    let src_eq : be32 (byte_at out 26) (byte_at out 27) (byte_at out 28) (byte_at out 29)
        ≡ or_old src
            (be32 (byte_at frame 26) (byte_at frame 27) (byte_at frame 28) (byte_at frame 29)) =
      read_eq (t.src_byte 0 (omega arith)) (t.src_byte 1 (omega arith)) (t.src_byte 2 (omega arith))
        (t.src_byte 3 (omega arith))
      ∙ address_read src (byte_at frame 26) (byte_at frame 27) (byte_at frame 28) (byte_at frame 29)
          s in
    let dst_eq : be32 (byte_at out 30) (byte_at out 31) (byte_at out 32) (byte_at out 33)
        ≡ or_old dst
            (be32 (byte_at frame 30) (byte_at frame 31) (byte_at frame 32) (byte_at frame 33)) =
      read_eq (t.dst_byte 0 (omega arith)) (t.dst_byte 1 (omega arith)) (t.dst_byte 2 (omega arith))
        (t.dst_byte 3 (omega arith))
      ∙ address_read dst (byte_at frame 30) (byte_at frame 31) (byte_at frame 32) (byte_at frame 33)
          d in
    ground (
      arith,
      h,
      t.same_length,
      t.other 12 (omega arith),
      t.other 13 (omega arith),
      t.other 14 (omega arith),
      t.other 23 (omega arith),
      src_eq,
      dst_eq,
    )
