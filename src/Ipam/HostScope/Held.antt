-- ===== src/Ipam/HostScope/Held.antt =====
-- The addresses that an allocator holds, and that its calls keep it ready.
use sarena.Prelude.{
  ℕ, ◌<◌, ◌≡◌, refl, sym, ap, ◌∙◌, inl, inr, Bool, false, none, some, if◌then◌else◌, arith,
  Bool-cases, Option-cases, ◌=?◌,
}
use native.Mathlib.Decide.{ℕ_discrete}
use sarena.Net.{IpAddr, ip_eq, ip_beq_iff}
use sarena.Ipam.Bitmap.{AllocationBitmap, get_bit}
use sarena.Ipam.Bitmap
use sarena.Ipam.Bitmap.Valid.{
  IsValid, allocate-IsValid, release-IsValid, allocate_next-IsValid, max-allocate, max-release,
  max-allocate_next, has-get_bit,
}
use sarena.Ipam.Bitmap.Refine.{view, Becomes}
use sarena.Ipam.HostScope.{
  HostScopeAllocator, contains, offset_to_ip, allocate, allocate_next, release, has,
}
use sarena.Ipam.HostScope.Range.{IsReady, contains_iff, offset_to_ip-contains}

-- An allocator with another bitmap manages the same addresses.
pub contains-alloc :
    (a : HostScopeAllocator) (b : AllocationBitmap) (ip : IpAddr)
    → contains (record a { alloc = b }) ip ≡ contains a ip
unfolding contains
contains-alloc a b ip = refl

pub IsReady-alloc :
    {a : HostScopeAllocator} (b : AllocationBitmap)
    → IsReady a
    → IsValid b
    → b.max ≡ a.alloc.max
    → IsReady (record a { alloc = b })
IsReady-alloc b v w e = record {
  net_ok = v.net_ok;
  alloc_ok = w;
  alloc_max = e ∙ v.alloc_max;
  base_in = v.base_in;
  top_in = v.top_in;
  max_fits = v.max_fits;
}

-- `allocate`, `allocate_next` and `release` keep the invariant.
pub allocate-IsReady :
    {a : HostScopeAllocator} (ip : IpAddr) → IsReady a → IsReady (allocate a ip).0
unfolding allocate
allocate-IsReady {a} ip v = elim (Option-cases (contains a ip)) [
  | inl e ↦ rw (e, allocate) v
  | inr (o, e) ↦
      rw (e, allocate)
        (IsReady-alloc (Bitmap.allocate a.alloc o).0 v (allocate-IsValid o v.alloc_ok)
          (max-allocate a.alloc o))
]

pub allocate_next-IsReady :
    {a : HostScopeAllocator} (sample : ℕ) → IsReady a → IsReady (allocate_next a sample).0
unfolding allocate_next
allocate_next-IsReady {a} sample v =
    IsReady-alloc (Bitmap.allocate_next a.alloc sample).0 v
      (allocate_next-IsValid sample v.alloc_ok) (max-allocate_next a.alloc sample)

pub release-IsReady : {a : HostScopeAllocator} (ip : IpAddr) → IsReady a → IsReady (release a ip)
unfolding release
release-IsReady {a} ip v = elim (Option-cases (contains a ip)) [
  | inl e ↦ rw (e, release) v
  | inr (o, e) ↦
      rw (e, release)
        (IsReady-alloc (Bitmap.release a.alloc o) v (release-IsValid o v.alloc_ok)
          (max-release a.alloc o))
]

pub has-some :
    {a : HostScopeAllocator} (ip : IpAddr) (o : ℕ)
    → IsReady a
    → contains a ip ≡ some o
    → has a ip ≡ get_bit a.alloc.words o
unfolding has
has-some {a} ip o v e = rw (e, has) (has-get_bit a.alloc o (omega (arith, v.alloc_max, below)))
  where
    below : o < a.max
    below = ((contains_iff ip o v).0 e).2

pub has-none : (a : HostScopeAllocator) (ip : IpAddr) → contains a ip ≡ none → has a ip ≡ false
unfolding has
has-none a ip e = rw (e, has)

-- `b` holds what `a` holds, but for `ip`.
abbrev pub Differs : HostScopeAllocator → HostScopeAllocator → IpAddr → Bool → Type 0
Differs a b ip x = (j : IpAddr) → has b j ≡ (if ip =? j then x else has a j)

abbrev pub Unchanged : HostScopeAllocator → HostScopeAllocator → Type 0
Unchanged a b = (j : IpAddr) → has b j ≡ has a j

-- A change of one offset is a change of its address.
pub has-Differs :
    {a : HostScopeAllocator} (b : AllocationBitmap) (ip : IpAddr) (o : ℕ) (x : Bool)
    → IsReady a
    → IsReady (record a { alloc = b })
    → contains a ip ≡ some o
    → Becomes (view a.alloc) (view b) o x
    → Differs a (record a { alloc = b }) ip x
has-Differs {a} b ip o x v w e d j = elim (Option-cases (contains a j)) [
  | inl n ↦
      rw (has-none (record a { alloc = b }) j (contains-alloc a b j ∙ n), has-none a j n)
        (elim (Bool-cases (ip =? j)) [
          | inl q ↦ cc (e, n, ap (contains a) ((ip_beq_iff ip j).0 q))
          | inr q ↦ rw q
        ])
  | inr (k, f) ↦
      rw (has-some j k w (contains-alloc a b j ∙ f), has-some j k v f, d.1 k)
        (elim (ℕ_discrete o k) [
          | yes q ↦
              let q' : ip ≡ j =
                sym (offset_to_ip-contains ip o v e)
                ∙ ap (λ (t : ℕ). offset_to_ip a.base t a.net) q
                ∙ offset_to_ip-contains j k v f in
              ground (arith, ip_beq_iff ip j)
          | no q ↦ elim (Bool-cases (ip =? j)) [
            | inl r ↦ absurd (q (cc (e, f, ap (contains a) ((ip_beq_iff ip j).0 r))))
            | inr r ↦ ground arith
          ]
        ])
]
