-- ===== src/Net.antt =====
-- Network addresses of the standard library and the interface of the `ipnet` crate.
pub mod Text
pub mod Cidr
pub mod Mac
use sarena.Prelude.{
  ℕ, ◌+◌, ◌-◌, ◌*◌, ◌/◌, ◌%◌, ◌^◌, ◌≤◌, ◌<◌, ◌≡◌, refl, ap, ◌↔◌, Bool, true, false, ◌&&◌, arith, Eq,
  ◌==◌, ==_iff,
}

-- `std::net::IpAddr`: an `Ipv4Addr` is its number below 2 ^ 32, an `Ipv6Addr` one below 2 ^ 128.
pub data IpAddr : Type 0 where
  v4 : ℕ → IpAddr
  v6 : ℕ → IpAddr

abbrev pub ip_beq : IpAddr → IpAddr → Bool
ip_beq (v4 a) (v4 b) = a == b
ip_beq (v6 a) (v6 b) = a == b
ip_beq (v4 a) (v6 b) = false
ip_beq (v6 a) (v4 b) = false

pub ip_beq_iff : (a b : IpAddr) → (ip_beq a b ≡ true) ↔ (a ≡ b)
ip_beq_iff (v4 a) (v4 b) = (λ h. ground (arith, ==_iff a b), λ h. ground (arith, ==_iff a b))
ip_beq_iff (v6 a) (v6 b) = (λ h. ground (arith, ==_iff a b), λ h. ground (arith, ==_iff a b))
ip_beq_iff (v4 a) (v6 b) = (λ h. cc, λ h. cc)
ip_beq_iff (v6 a) (v4 b) = (λ h. cc, λ h. cc)

instance abbrev pub ip_eq : Eq IpAddr
ip_eq = record { beq = ip_beq; beq_iff = ip_beq_iff }

pub data Family : Type 0 where
  ipv4 ipv6 : Family

abbrev pub family_of : IpAddr → Family
family_of (v4 a) = ipv4
family_of (v6 a) = ipv6

-- The bits of an address: `u128::from(u32::from(v4))` and `u128::from(v6)`.
abbrev pub number : IpAddr → ℕ
number (v4 a) = a
number (v6 a) = a

abbrev pub width : Family → ℕ
width ipv4 = 32
width ipv6 = 128
