-- ===== src/SoftDataplane/Packet/Panics.antt =====
-- When the rewriting of a frame panics.
use native.Mathlib.Decide.{ℕ_discrete}
use sarena.Prelude.{
  ℕ, ◌+◌, ◌-◌, ◌%◌, ◌≤◌, ◌<◌, ◌≡◌, ◌∙◌, sym, ◌↔◌, ◌⊎◌, inl, inr, List, ◌∷◌, ◌++◌, none, some, ltb,
  length, arith, Bool-cases,
}
use sarena.SoftDataplane.Bytes.{
  byte_at, be16, be_bytes16, put_at, slice, overwrite, length-overwrite, taken,
}
use sarena.SoftDataplane.Packet.{
  l4_checksum, pseudo_header, recompute_l4_checksum, eth_hdr_len, zeros, internet_checksum,
  tcp_finish, udp_finish,
}

put_at_fits :
    (offset : ℕ) (bytes frame : List ℕ)
    → offset + length bytes ≤ length frame
    → put_at offset bytes frame ≡ some (overwrite offset bytes frame)
unfolding put_at
put_at_fits offset bytes frame h = ground arith

put_at_panics :
    (offset : ℕ) (bytes frame : List ℕ)
    → length frame < offset + length bytes
    → put_at offset bytes frame ≡ none
unfolding put_at
put_at_panics offset bytes frame h = ground arith

slice_fits :
    (offset n : ℕ) (frame : List ℕ)
    → offset + n ≤ length frame
    → slice offset n frame ≡ some (taken offset n frame)
unfolding slice
slice_fits offset n frame h = ground arith

-- The checksum of a segment that lies in the frame panics exactly if its field does not.
l4_checksum_panics :
    (finish : ℕ → ℕ) (field l4_off l4_len : ℕ) (pseudo frame : List ℕ)
    → l4_off + l4_len ≤ length frame
    → (l4_checksum finish field l4_off l4_len pseudo frame ≡ none)
      ↔ (length frame < l4_off + field + 2)
unfolding l4_checksum
l4_checksum_panics finish field l4_off l4_len pseudo frame h =
    elim (Bool-cases (ltb (length frame) (l4_off + field + 2))) [
      | inl e ↦
          let p = put_at_panics (l4_off + field) zeros frame (ground arith) in
          (λ _. ground arith, λ _. ground (arith, p))
      | inr e ↦
          let cleared = overwrite (l4_off + field) zeros frame in
          let size = length-overwrite (l4_off + field) zeros frame in
          let p = put_at_fits (l4_off + field) zeros frame (ground arith) in
          let q = slice_fits l4_off l4_len cleared (omega (arith, size)) in
          let csum = finish (internet_checksum (pseudo ++ taken l4_off l4_len cleared)) in
          let r = put_at_fits (l4_off + field) (be_bytes16 csum) cleared (ground (arith, size)) in
          (λ n. absurd (ground (arith, p, q, r, n)), λ n. absurd (ground arith))
    ]

-- Once the total length of the header says that the segment lies in the frame, recomputing its
-- checksum panics exactly for a TCP segment whose frame ends before the checksum field (18 bytes
-- in) or a UDP datagram whose frame does (8 bytes in).
pub recompute_l4_checksum_panics :
    (frame : List ℕ) (ihl protocol : ℕ)
    → 34 ≤ length frame
    → ihl ≤ be16 (byte_at frame 16) (byte_at frame 17)
    → eth_hdr_len + ihl + (be16 (byte_at frame 16) (byte_at frame 17) - ihl) ≤ length frame
    → (recompute_l4_checksum frame ihl protocol ≡ none) ↔ (
        (protocol ≡ 6) × (length frame < eth_hdr_len + ihl + 18)
        ⊎ (protocol ≡ 17) × (length frame < eth_hdr_len + ihl + 8))
unfolding recompute_l4_checksum pseudo_header
recompute_l4_checksum_panics frame ihl protocol h lo hi =
    let l4_len = be16 (byte_at frame 16) (byte_at frame 17) - ihl in
    let l4_off = eth_hdr_len + ihl in
    let s = slice_fits 26 4 frame (omega arith) in
    let d = slice_fits 30 4 frame (omega arith) in
    let pseudo =
      taken 26 4 frame ++ taken 30 4 frame ++ (0 ∷ protocol ∷ be_bytes16 (l4_len % 65536)) in
    let t = l4_checksum_panics tcp_finish 16 l4_off l4_len pseudo frame hi in
    let u = l4_checksum_panics udp_finish 6 l4_off l4_len pseudo frame hi in
    elim (ℕ_discrete protocol 6) [
      | yes p ↦
          let e : recompute_l4_checksum frame ihl protocol
              ≡ l4_checksum tcp_finish 16 l4_off l4_len pseudo frame =
            ground (arith, s, d) in
          (
            λ n. inl (p, omega (arith, t.0 (sym e ∙ n))),
            λ n. elim n [
              | inl (x, l) ↦ e ∙ t.1 (omega (arith, l))
              | inr (x, l) ↦ absurd (omega (arith, p, x))
            ],
          )
      | no p ↦ elim (ℕ_discrete protocol 17) [
        | yes q ↦
            let e : recompute_l4_checksum frame ihl protocol
                ≡ l4_checksum udp_finish 6 l4_off l4_len pseudo frame =
              ground (arith, s, d) in
            (
              λ n. inr (q, omega (arith, u.0 (sym e ∙ n))),
              λ n. elim n [
                | inl (x, l) ↦ absurd (omega (arith, q, x))
                | inr (x, l) ↦ e ∙ u.1 (omega (arith, l))
              ],
            )
        | no q ↦
            let e : recompute_l4_checksum frame ihl protocol ≡ some frame = ground (arith, s, d) in
            (
              λ n. absurd (ground (arith, e, n)),
              λ n. elim n [ inl (x, l) ↦ absurd (p x) | inr (x, l) ↦ absurd (q x) ],
            )
      ]
    ]
