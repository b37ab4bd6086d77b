-- ===== src/Ipam/Error.antt =====
-- sarena-services/src/ipam/mod.rs: the errors of address management and their result type.
use sarena.Prelude.{String}

abbrev pub pool_default : String
pool_default = "default"

pub data IpamError : Type 0 where
  ipv4_disabled : IpamError
  ipv6_disabled : IpamError
  excluded_error : String → String → IpamError
  pool_required_for_allocate : String → String → IpamError
  pool_required_for_release : String → IpamError
  range_full : IpamError
  already_allocated : IpamError
  mismatched_network : IpamError
  not_in_range : String → IpamError
  pool_determination_unavailable : String → IpamError

pub data Res {ℓ} (A : Type ℓ) : Type ℓ where
  ok : A → Res A
  err : IpamError → Res A

-- The `?` operator, which returns an error from the function.
infixl 5 ◌>>=◌
abbrev pub ◌>>=◌ {ℓ κ} : {A : Type ℓ} {B : Type κ} → Res A → (A → Res B) → Res B
ok a >>= f = f a
err e >>= f = err e
