-- ===== src/Ipam/Service/Owner.antt =====
-- The owners of addresses: registering, looking up and releasing.
use text.Mathlib.TextEquality.{eq_iff}
use sarena.Prelude.{
  ◌≡◌, refl, inl, inr, none, [], String, ◌=?◌, string_eq, if◌then◌else◌, arith, Option-cases,
}
use sarena.Prelude.Map.{get, insert, remove, get-insert, get-remove}
use sarena.Net.{IpAddr}
use sarena.Net.Text.{ip_to_string}
use sarena.Ipam.Service.{State, unwrap_or, register_ip_owner, get_ip_owner, release_ip_owner}

get-nil : (t : String) → get {K = String} {V = String} t [] ≡ none
unfolding get
get-nil t = refl

-- Registering an owner makes it the owner of that address in that pool, and changes no other.
pub get_ip_owner-register_ip_owner :
    (s : State) (ip : IpAddr) (owner pool t p : String)
    → get_ip_owner (register_ip_owner s ip owner pool) t p ≡ (
        if pool =? p
        then (if ip_to_string ip =? t then owner else get_ip_owner s t p)
        else get_ip_owner s t p)
unfolding get_ip_owner register_ip_owner
get_ip_owner-register_ip_owner s ip owner pool t p = ground (
  arith,
  get-insert pool p (insert (ip_to_string ip) owner (unwrap_or [] (get pool s.owner))) s.owner,
  get-insert (ip_to_string ip) t owner (unwrap_or [] (get pool s.owner)),
  get-nil t,
  eq_iff pool p,
)

-- Releasing an owner returns the owner it was, leaves the address without one, and changes no
-- other.
pub release_ip_owner_lem :
    (s : State) (ip : IpAddr) (pool : String)
    → ((release_ip_owner s ip pool).1 ≡ get_ip_owner s (ip_to_string ip) pool)
      × ((t p : String)
          → get_ip_owner (release_ip_owner s ip pool).0 t p ≡ (
              if pool =? p
              then (if ip_to_string ip =? t then "" else get_ip_owner s t p)
              else get_ip_owner s t p))
unfolding get_ip_owner release_ip_owner
release_ip_owner_lem s ip pool = elim (Option-cases (get pool s.owner)) [
  | inl e ↦ (ground arith, λ t p. ground (arith, eq_iff pool p))
  | inr (m, e) ↦ (
    ground arith,
    λ t p. ground (
      arith,
      eq_iff pool p,
      get-remove pool p s.owner,
      get-insert pool p (remove (ip_to_string ip) m) s.owner,
      get-remove (ip_to_string ip) t m,
      get-nil t,
    ),
  )
]
