-- ===== src/SoftDataplane/Packet.antt =====
-- The parsing and rewriting of frames in soft_dataplane.rs.
-- `none` in a rewrite is a panic of the code: an index or a slice out of bounds.
pub mod Checksum
pub mod Panics
pub mod Keeps
pub mod Rewrite
use sarena.Prelude.{
  ℕ, zero, suc, ◌+◌, ◌-◌, ◌*◌, ◌/◌, ◌%◌, ◌^◌, ◌≡◌, refl, Bool, true, false, not, ◌||◌, List, [],
  ◌∷◌, ◌++◌, Option, none, some, ltb, leb, ◌==◌, if◌then◌else◌, length,
}
use sarena.SoftDataplane.Bytes.{◌>>=◌, byte_at, be16, be_bytes16, be32, octets, put_at, slice}

abbrev pub eth_hdr_len : ℕ
eth_hdr_len = 14

abbrev pub ethertype_ipv4 : ℕ
ethertype_ipv4 = 0x0800

pub record Ipv4Info : Type 0 where
  pub ihl : ℕ
  pub protocol : ℕ
  pub src : ℕ
  pub dst : ℕ

-- `ip[0] >> 4` and `ip[0] & 0x0F`, on a byte. The reads are in bounds once the length is checked.
unfoldable pub parse_ipv4 : List ℕ → Option Ipv4Info
parse_ipv4 frame =
    if ltb (length frame) (eth_hdr_len + 20)
    then none
    else if not (be16 (byte_at frame 12) (byte_at frame 13) == ethertype_ipv4)
    then none
    else if not (byte_at frame 14 / 16 == 4)
    then none
    else if ltb (length frame - eth_hdr_len) (byte_at frame 14 % 16 * 4)
    then none
    else some (record {
      ihl = byte_at frame 14 % 16 * 4;
      protocol = byte_at frame 23;
      src = be32 (byte_at frame 26) (byte_at frame 27) (byte_at frame 28) (byte_at frame 29);
      dst = be32 (byte_at frame 30) (byte_at frame 31) (byte_at frame 32) (byte_at frame 33);
    })

unfoldable pub parse_ports : List ℕ → ℕ → Option (ℕ × ℕ)
parse_ports frame l4_offset =
    if ltb (length frame) (l4_offset + 4)
    then none
    else some (
      be16 (byte_at frame l4_offset) (byte_at frame (l4_offset + 1)),
      be16 (byte_at frame (l4_offset + 2)) (byte_at frame (l4_offset + 3)),
    )

-- The protocols of `network_types::ip::IpProto` that the code uses.
pub data IpProto : Type 0 where
  icmp tcp udp : IpProto

unfoldable pub ip_proto_from_byte : ℕ → Option IpProto
ip_proto_from_byte byte =
    if byte == 1
    then some icmp
    else if byte == 6
    then some tcp
    else if byte == 17
    then some udp
    else none

-- The big-endian 16-bit words of a slice, a last odd byte padded with zero.
unfoldable pub sum_words : List ℕ → ℕ
sum_words [] = 0
sum_words (last ∷ []) = last * 256
sum_words (hi ∷ lo ∷ rest) = be16 hi lo + sum_words rest

-- `while sum >> 16 != 0`: three rounds fold any `u32` (`Checksum`).
unfoldable pub fold_carry : ℕ → ℕ → ℕ
fold_carry zero sum = sum
fold_carry (suc fuel) sum =
    let folded = fold_carry fuel (sum % 65536 + sum / 65536) in
    if sum / 65536 == 0 then sum else folded

-- The sum is a `u32`: a slice of at most 131072 bytes, as here, does not overflow it.
unfoldable pub internet_checksum : List ℕ → ℕ
internet_checksum bytes = 65535 - fold_carry 3 (sum_words bytes) % 65536

-- An optional field to write.
abbrev pub put_opt : ℕ → Option (List ℕ) → List ℕ → Option (List ℕ)
put_opt offset none frame = some frame
put_opt offset (some bytes) frame = put_at offset bytes frame

abbrev pub map_opt {ℓ κ} : {A : Type ℓ} {B : Type κ} → (A → B) → Option A → Option B
map_opt f none = none
map_opt f (some a) = some (f a)

abbrev pub zeros : List ℕ
zeros = 0 ∷ 0 ∷ []

-- The checksum field at `field` of the segment of `l4_len` bytes at `l4_off`.
unfoldable pub l4_checksum : (ℕ → ℕ) → ℕ → ℕ → ℕ → List ℕ → List ℕ → Option (List ℕ)
l4_checksum finish field l4_off l4_len pseudo frame = do
  cleared ← put_at (l4_off + field) zeros frame
  segment ← slice l4_off l4_len cleared
  put_at (l4_off + field) (be_bytes16 (finish (internet_checksum (pseudo ++ segment)))) cleared

-- UDP over IPv4: 0 means that there is no checksum.
abbrev pub udp_finish : ℕ → ℕ
udp_finish csum = if csum == 0 then 65535 else csum

abbrev pub tcp_finish : ℕ → ℕ
tcp_finish csum = csum

unfoldable pub pseudo_header : List ℕ → ℕ → ℕ → Option (List ℕ)
pseudo_header frame protocol l4_len = do
  src ← slice 26 4 frame
  dst ← slice 30 4 frame
  some (src ++ dst ++ (0 ∷ protocol ∷ be_bytes16 (l4_len % 65536)))

unfoldable pub recompute_l4_checksum : List ℕ → ℕ → ℕ → Option (List ℕ)
unfolding l4_checksum pseudo_header
recompute_l4_checksum frame ihl protocol =
    let total_len = be16 (byte_at frame 16) (byte_at frame 17) in
    let l4_off = eth_hdr_len + ihl in
    if ltb total_len ihl || ltb (length frame) (l4_off + (total_len - ihl))
    then some frame
    else (pseudo_header frame protocol (total_len - ihl) >>= λ pseudo.
        if protocol == 6
        then l4_checksum tcp_finish 16 l4_off (total_len - ihl) pseudo frame
        else if protocol == 17
        then l4_checksum udp_finish 6 l4_off (total_len - ihl) pseudo frame
        else some frame)

-- The header checksum over the `ihl` bytes from offset 14.
unfoldable pub ip_checksum : ℕ → List ℕ → Option (List ℕ)
ip_checksum ihl frame = do
  cleared ← put_at 24 zeros frame
  header ← slice eth_hdr_len ihl cleared
  put_at 24 (be_bytes16 (internet_checksum header)) cleared

unfoldable pub put_ports : ℕ → Option ℕ → Option ℕ → List ℕ → Option (List ℕ)
put_ports ihl new_src_port new_dst_port frame =
    if byte_at frame 23 == 6 || byte_at frame 23 == 17
    then (put_opt (eth_hdr_len + ihl) (map_opt be_bytes16 new_src_port) frame >>= λ f.
        put_opt (eth_hdr_len + ihl + 2) (map_opt be_bytes16 new_dst_port) f)
    else some frame

unfoldable pub rewrite_ipv4 :
    List ℕ → ℕ → Option ℕ → Option ℕ → Option ℕ → Option ℕ → Option (List ℕ)
unfolding ip_checksum put_ports recompute_l4_checksum
rewrite_ipv4 frame ihl new_src_addr new_dst_addr new_src_port new_dst_port = do
  f1 ← put_opt 26 (map_opt octets new_src_addr) frame
  f2 ← put_opt 30 (map_opt octets new_dst_addr) f1
  f3 ← ip_checksum ihl f2
  f4 ← put_ports ihl new_src_port new_dst_port f3
  recompute_l4_checksum f4 ihl (byte_at f4 23)
