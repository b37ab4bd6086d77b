-- ===== src/SoftDataplane/Packet/Keeps.antt =====
-- The parts of `rewrite_ipv4`: where each of them writes.
use sarena.Prelude.{
  ℕ, ◌+◌, ◌-◌, ◌≤◌, ◌<◌, ◌≡◌, ap, ◌∙◌, sym, inl, inr, ◌||◌, List, Option, none, some, ltb, ◌==◌,
  length, arith, Bool-cases,
}
use sarena.SoftDataplane.Bytes.{byte_at, be16, be_bytes16, octets, put_at, slice}
use sarena.SoftDataplane.Packet.{
  put_opt, map_opt, ip_checksum, put_ports, recompute_l4_checksum, l4_checksum, pseudo_header,
  zeros, tcp_finish, udp_finish,
}
use sarena.SoftDataplane.Bytes.Writes.{
  bind_some, Within, overwrite-inside, put_at_inv, put_at-Within,
}

-- The byte at `i` of an optional new address, or what is there.
abbrev pub new_byte : Option ℕ → ℕ → ℕ → ℕ
new_byte none i old = old
new_byte (some n) i old = byte_at (octets n) i

pub put_opt-octets :
    (offset : ℕ) (new : Option ℕ) (f g : List ℕ)
    → put_opt offset (map_opt octets new) f ≡ some g
    → Within offset (offset + 4) f g
      × ((i : ℕ) → i < 4 → byte_at g (offset + i) ≡ new_byte new i (byte_at f (offset + i)))
put_opt-octets offset none f g h =
    let e : f ≡ g = ground (arith, h) in
    (
      record {
        same_length = ap length (sym e);
        below = λ j l. ap (λ x. byte_at x j) (sym e);
        above = λ j l. ap (λ x. byte_at x j) (sym e);
      },
      λ i l. ap (λ x. byte_at x (offset + i)) (sym e),
    )
put_opt-octets offset (some n) f g h =
    let (e, fits) = put_at_inv offset (octets n) f g h in
    (
      put_at-Within offset (octets n) f g h,
      λ i l. ap (λ x. byte_at x (offset + i)) e ∙ overwrite-inside offset (octets n) f i fits l,
    )

-- `g` has the length of `f` and its first 34 bytes: the Ethernet header and 20 bytes of IPv4.
pub record KeepsHeader (f g : List ℕ) : Type 0 where
  pub same_length : length g ≡ length f
  pub header : (j : ℕ) → j < 34 → byte_at g j ≡ byte_at f j

keeps_all : (f g : List ℕ) → f ≡ g → KeepsHeader f g
keeps_all f g e = record {
  same_length = ap length (sym e);
  header = λ j l. ap (λ x. byte_at x j) (sym e);
}

pub then_keeps : (f g h : List ℕ) → KeepsHeader f g → KeepsHeader g h → KeepsHeader f h
then_keeps f g h a b = record {
  same_length = b.same_length ∙ a.same_length;
  header = λ j l. b.header j l ∙ a.header j l;
}

put_at-KeepsHeader :
    (offset : ℕ) (bytes f g : List ℕ)
    → 34 ≤ offset
    → put_at offset bytes f ≡ some g
    → KeepsHeader f g
put_at-KeepsHeader offset bytes f g o h =
    let w = put_at-Within offset bytes f g h in
    record { same_length = w.same_length; header = λ j l. w.below j (omega arith) }

pub put_opt-KeepsHeader :
    (offset : ℕ) (new : Option (List ℕ)) (f g : List ℕ)
    → 34 ≤ offset
    → put_opt offset new f ≡ some g
    → KeepsHeader f g
put_opt-KeepsHeader offset none f g o h = keeps_all f g (ground (arith, h))
put_opt-KeepsHeader offset (some bytes) f g o h = put_at-KeepsHeader offset bytes f g o h

pub put_ports-KeepsHeader :
    (ihl : ℕ) (src dst : Option ℕ) (f g : List ℕ)
    → 20 ≤ ihl
    → put_ports ihl src dst f ≡ some g
    → KeepsHeader f g
unfolding put_ports
put_ports-KeepsHeader ihl src dst f g o h =
    elim (Bool-cases (byte_at f 23 == 6 || byte_at f 23 == 17)) [
      | inl e ↦
          let (m, p, q) =
            bind_some (put_opt (14 + ihl) (map_opt be_bytes16 src) f)
              (λ x. put_opt (14 + ihl + 2) (map_opt be_bytes16 dst) x) g (rw e at h) in
          then_keeps f m g
            (put_opt-KeepsHeader (14 + ihl) (map_opt be_bytes16 src) f m (omega arith) p)
            (put_opt-KeepsHeader (14 + ihl + 2) (map_opt be_bytes16 dst) m g (omega arith) q)
      | inr e ↦ keeps_all f g (ground (arith, h, e))
    ]

l4_checksum-KeepsHeader :
    (finish : ℕ → ℕ) (field l4_off l4_len : ℕ) (pseudo f g : List ℕ)
    → 34 ≤ l4_off
    → l4_checksum finish field l4_off l4_len pseudo f ≡ some g
    → KeepsHeader f g
unfolding l4_checksum
l4_checksum-KeepsHeader finish field l4_off l4_len pseudo f g o h =
    let (c, p, q) = bind_some (put_at (l4_off + field) zeros f) _ g h in
    let (x, r, t) = bind_some (slice l4_off l4_len c) _ g q in
    then_keeps f c g (put_at-KeepsHeader (l4_off + field) zeros f c (omega arith) p)
      (put_at-KeepsHeader (l4_off + field) _ c g (omega arith) t)

pub recompute-KeepsHeader :
    (ihl protocol : ℕ) (f g : List ℕ)
    → 20 ≤ ihl
    → recompute_l4_checksum f ihl protocol ≡ some g
    → KeepsHeader f g
unfolding recompute_l4_checksum
recompute-KeepsHeader ihl protocol f g o h =
    let total_len = be16 (byte_at f 16) (byte_at f 17) in
    let l4_len = total_len - ihl in
    elim (Bool-cases (ltb total_len ihl || ltb (length f) (14 + ihl + l4_len))) [
      | inl e ↦ keeps_all f g (ground (arith, h, e))
      | inr e ↦
          let (pseudo, p, q) = bind_some (pseudo_header f protocol l4_len) _ g (rw e at h) in
          elim (Bool-cases (protocol == 6)) [
            | inl t ↦
                l4_checksum-KeepsHeader tcp_finish 16 (14 + ihl) l4_len pseudo f g (omega arith)
                  (rw t at q)
            | inr t ↦ elim (Bool-cases (protocol == 17)) [
              | inl u ↦
                  l4_checksum-KeepsHeader udp_finish 6 (14 + ihl) l4_len pseudo f g (omega arith)
                    (rw u at (rw t at q))
              | inr u ↦ keeps_all f g (ground (arith, q, t, u))
            ]
          ]
    ]

both_writes : (lo hi : ℕ) (f g h : List ℕ) → Within lo hi f g → Within lo hi g h → Within lo hi f h
both_writes lo hi f g h a b = record {
  same_length = b.same_length ∙ a.same_length;
  below = λ j l. b.below j l ∙ a.below j l;
  above = λ j l. b.above j l ∙ a.above j l;
}

pub ip_checksum-Within : (ihl : ℕ) (f g : List ℕ) → ip_checksum ihl f ≡ some g → Within 24 26 f g
unfolding ip_checksum
ip_checksum-Within ihl f g h =
    let (c, p, q) = bind_some (put_at 24 zeros f) _ g h in
    let (x, r, t) = bind_some (slice 14 ihl c) _ g q in
    both_writes 24 26 f c g (put_at-Within 24 zeros f c p) (put_at-Within 24 _ c g t)
