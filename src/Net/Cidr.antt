-- ===== src/Net/Cidr.antt =====
-- The `ipnet` crate: a network is seen through the answers of its methods. `IsIpNet` states what
-- the crate documents of them.
use sarena.Prelude.{
  ℕ, ◌+◌, ◌-◌, ◌^◌, ◌≤◌, ◌<◌, ◌≡◌, refl, ◌↔◌, Bool, true, false, ◌&&◌, String, ltb, leb, arith,
}
use sarena.Net.{IpAddr, v4, v6, Family, ipv4, ipv6, family_of, number, width}

pub record IpNet : Type 0 where
  pub family : Family
  pub prefix_len : ℕ
  pub max_prefix_len : ℕ
  pub network : IpAddr
  pub contains : IpAddr → Bool
  pub to_string : String

-- How many addresses share the prefix.
abbrev pub block : IpNet → ℕ
block n = 2 ^ (width n.family - n.prefix_len)

abbrev pub first : IpNet → ℕ
first n = number n.network

abbrev pub InNet : IpNet → IpAddr → Type 0
InNet n ip = (family_of ip ≡ n.family) × (first n ≤ number ip) × (number ip < first n + block n)

pub record IsIpNet (n : IpNet) : Type 0 where
  pub max_prefix : n.max_prefix_len ≡ width n.family
  pub prefix_le : n.prefix_len ≤ width n.family
  pub network_family : family_of n.network ≡ n.family
  pub block_fits : first n + block n ≤ 2 ^ width n.family
  pub contains_iff : (ip : IpAddr) → (n.contains ip ≡ true) ↔ InNet n ip

-- `10.0.0.0/8` and the like, to show that the laws can hold.
abbrev pub in_block : ℕ → ℕ → IpAddr → Bool
in_block start prefix (v4 a) = leb start a && ltb a (start + 2 ^ (32 - prefix))
in_block start prefix (v6 a) = false

abbrev pub v4_net : ℕ → ℕ → String → IpNet
v4_net start prefix text = record {
  family = ipv4;
  prefix_len = prefix;
  max_prefix_len = 32;
  network = v4 start;
  contains = in_block start prefix;
  to_string = text;
}

-- `fd00::/126` and the like.
abbrev pub in_block6 : ℕ → ℕ → IpAddr → Bool
in_block6 start prefix (v4 a) = false
in_block6 start prefix (v6 a) = leb start a && ltb a (start + 2 ^ (128 - prefix))

abbrev pub v6_net : ℕ → ℕ → String → IpNet
v6_net start prefix text = record {
  family = ipv6;
  prefix_len = prefix;
  max_prefix_len = 128;
  network = v6 start;
  contains = in_block6 start prefix;
  to_string = text;
}

in_block6_iff :
    (start prefix : ℕ) (text : String) (ip : IpAddr)
    → (in_block6 start prefix ip ≡ true) ↔ InNet (v6_net start prefix text) ip
in_block6_iff start prefix text (v4 a) = (λ h. cc, λ h. cc (h.0))
in_block6_iff start prefix text (v6 a) =
    (λ h. (refl, ground arith, ground arith), λ h. ground arith)

pub v6_net-IsIpNet :
    (start prefix : ℕ) (text : String)
    → prefix ≤ 128
    → start + 2 ^ (128 - prefix) ≤ 2 ^ 128
    → IsIpNet (v6_net start prefix text)
v6_net-IsIpNet start prefix text h k = record {
  max_prefix = refl;
  prefix_le = h;
  network_family = refl;
  block_fits = k;
  contains_iff = in_block6_iff start prefix text;
}

in_block_iff :
    (start prefix : ℕ) (text : String) (ip : IpAddr)
    → (in_block start prefix ip ≡ true) ↔ InNet (v4_net start prefix text) ip
in_block_iff start prefix text (v4 a) = (λ h. (refl, ground arith, ground arith), λ h. ground arith)
in_block_iff start prefix text (v6 a) = (λ h. cc, λ h. cc (h.0))

pub v4_net-IsIpNet :
    (start prefix : ℕ) (text : String)
    → prefix ≤ 32
    → start + 2 ^ (32 - prefix) ≤ 2 ^ 32
    → IsIpNet (v4_net start prefix text)
v4_net-IsIpNet start prefix text h k = record {
  max_prefix = refl;
  prefix_le = h;
  network_family = refl;
  block_fits = k;
  contains_iff = in_block_iff start prefix text;
}
