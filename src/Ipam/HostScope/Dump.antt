-- ===== src/Ipam/HostScope/Dump.antt =====
-- What `for_each` and `dump` report, and the capacity that `dump` prints.
use native.Mathlib.Decide.{ℕ_discrete}
use sarena.Prelude.{
  Option, ℕ, zero, suc, ◌+◌, ◌-◌, ◌≤◌, ◌<◌, ◌≡◌, refl, sym, ap, ◌∙◌, inl, inr, Bool, true, none,
  some, List, [], ◌∷◌, map, String, if◌then◌else◌, arith, any, Bool-cases, Option-cases,
  Bool-eq_of_iff, ◌=?◌, string_eq, =?_refl, ◌↔◌, ◌⊎◌,
}
use sarena.Prelude.Map.{Map, get, insert, get-insert, get-insert_self}
use sarena.Prelude.Bits.{two-pow-le}
use sarena.Net.{Family, IpAddr, ipv4, ipv6, width, ip_eq, ip_beq_iff}
use sarena.Net.Text.{ip_to_string}
use sarena.Net.Cidr.{IpNet, IsIpNet}
use sarena.Ipam.Error.{pool_default}
use sarena.Ipam.Bitmap.{get_bit}
use sarena.Ipam.Bitmap
use sarena.Ipam.Bitmap.Offsets.{offsets}
use sarena.Ipam.Bitmap.Visit.{for_each-offsets}
use sarena.Ipam.HostScope.{
  HostScopeAllocator, size, new, contains, offset_to_ip, for_each, has, count_ips_in_cidr, dump,
  dump_entries,
}
use sarena.Ipam.HostScope.Range.{
  IsReady, contains_iff, contains-offset_to_ip, offset_to_ip-contains,
}
use sarena.Ipam.HostScope.Held.{has-some, has-none}

module _ (p f : ℕ → Bool) where
  abbrev Hit : ℕ → ℕ → Type 0
  Hit s n = (o : ℕ) × (s ≤ o) × (o < s + n) × (p o ≡ true) × (f o ≡ true)

  widen : (s n : ℕ) → Hit (s + 1) n → Hit s (suc n)
  widen s n r = (r.0, omega (arith, r.1), omega (arith, r.2), r.3, r.4)

  any-offsets_sound : (s n : ℕ) → any f (offsets p s n) ≡ true → Hit s n
  any-offsets_sound s zero h = cc
  any-offsets_sound s (suc n) h = elim (Bool-cases (p s)) [
    | inr e ↦ widen s n (any-offsets_sound (s + 1) n (ground arith))
    | inl e ↦ elim (Bool-cases (f s)) [
      | inl g ↦ (s, omega arith, omega arith, e, g)
      | inr g ↦ widen s n (any-offsets_sound (s + 1) n (ground arith))
    ]
  ]

  any-offsets_complete :
      (s n o : ℕ) → s ≤ o → o < s + n → p o ≡ true → f o ≡ true → any f (offsets p s n) ≡ true
  any-offsets_complete s zero o a b c d = absurd (omega arith)
  any-offsets_complete s (suc n) o a b c d = elim (ℕ_discrete s o) [
    | yes e ↦ ground (arith, ap p e, ap f e)
    | no e ↦ ground (arith, any-offsets_complete (s + 1) n o (omega arith) (omega arith) c d)
  ]

any-map {ℓ κ} :
    {A : Type ℓ} {B : Type κ} (g : A → B) (f : B → Bool) (xs : List A)
    → any f (map g xs) ≡ any (λ x. f (g x)) xs
any-map g f [] = refl
any-map g f (x ∷ xs) = rw (any-map g f xs)

-- `for_each` visits an address exactly if the allocator holds it.
pub any-for_each :
    {a : HostScopeAllocator} (ip : IpAddr) → IsReady a → any (λ j. j =? ip) (for_each a) ≡ has a ip
unfolding for_each
any-for_each {a} ip v =
    rw
      (
        any-map (λ o. offset_to_ip a.base o a.net) (λ j. j =? ip) (Bitmap.for_each a.alloc),
        for_each-offsets a.alloc v.alloc_ok,
      )
      (Bool-eq_of_iff _ _ sound complete)
  where
    at : ℕ → Bool
    at o = offset_to_ip a.base o a.net =? ip

    sound : any at (offsets (get_bit a.alloc.words) 0 a.alloc.max) ≡ true → has a ip ≡ true
    sound h =
        let r = any-offsets_sound (get_bit a.alloc.words) at 0 a.alloc.max h in
        let e : offset_to_ip a.base r.0 a.net ≡ ip = (ip_beq_iff _ ip).0 r.4 in
        let below : r.0 < a.max = omega (arith, r.2, v.alloc_max) in
        has-some ip r.0 v (ap (contains a) (sym e) ∙ contains-offset_to_ip r.0 v below) ∙ r.3

    complete : has a ip ≡ true → any at (offsets (get_bit a.alloc.words) 0 a.alloc.max) ≡ true
    complete h = elim (Option-cases (contains a ip)) [
      | inl n ↦ cc (has-none a ip n)
      | inr (o, e) ↦
          any-offsets_complete (get_bit a.alloc.words) at 0 a.alloc.max o (omega arith)
            (omega (arith, v.alloc_max, ((contains_iff ip o v).0 e).2))
            (sym (has-some ip o v e) ∙ h) ((ip_beq_iff _ ip).1 (offset_to_ip-contains ip o v e))
    ]

get-dump_entries :
    (t : String) (ips : List IpAddr) (m : Map String String)
    → get t (dump_entries ips m)
      ≡ (if any (λ ip. ip_to_string ip =? t) ips then some "" else get t m)
unfolding dump_entries
get-dump_entries t [] m = refl
get-dump_entries t (ip ∷ ips) m =
    rw (get-dump_entries t ips (insert (ip_to_string ip) "" m), get-insert (ip_to_string ip) t "" m)
      (ground arith)

-- A list has an element that passes a test exactly if that element is visited.
any-visited :
    (f : IpAddr → Bool) (ips : List IpAddr)
    → any f ips ≡ true
    → (ip : IpAddr) × (any (λ j. j =? ip) ips ≡ true) × (f ip ≡ true)
any-visited f [] h = absurd (cc h)
any-visited f (ip ∷ ips) h = elim (Bool-cases (f ip)) [
  | inl e ↦ (ip, ground (arith, =?_refl ip), e)
  | inr e ↦ let r = any-visited f ips (ground (arith, h, e)) in (r.0, ground (arith, r.1), r.2)
]

visited-any :
    (f : IpAddr → Bool) (ips : List IpAddr) (ip : IpAddr)
    → any (λ j. j =? ip) ips ≡ true
    → f ip ≡ true
    → any f ips ≡ true
visited-any f [] ip h g = absurd (cc h)
visited-any f (j ∷ ips) ip h g = elim (Bool-cases (j =? ip)) [
  | inl e ↦ ground (arith, ap f ((ip_beq_iff j ip).0 e), g)
  | inr e ↦ ground (arith, visited-any f ips ip (ground (arith, h, e)) g)
]

-- Texts of held addresses, and how they stand in the map.
abbrev pub IsHeldText : HostScopeAllocator → String → Type 0
IsHeldText a t = (ip : IpAddr) × (has a ip ≡ true) × (ip_to_string ip ≡ t)

held_text :
    (a : HostScopeAllocator) (t : String)
    → IsReady a
    → (any (λ ip. ip_to_string ip =? t) (for_each a) ≡ true) ↔ IsHeldText a t
held_text a t v = (
  λ h.
      let (ip, visited, shown) = any-visited (λ ip. ip_to_string ip =? t) (for_each a) h in
      (ip, sym (any-for_each ip v) ∙ visited, (string_eq.beq_iff (ip_to_string ip) t).0 shown),
  λ (ip, held, shown).
      visited-any (λ j. ip_to_string j =? t) (for_each a) ip (any-for_each ip v ∙ held)
        ((string_eq.beq_iff (ip_to_string ip) t).1 shown),
)

-- The network whose capacity is computed by a shift by 128 bits.
abbrev pub IsEverything : IpNet → Type 0
IsEverything n = (n.family ≡ ipv6) × (n.prefix_len ≡ 0)

-- What `dump` gives: a panic, or the map and the status.
abbrev pub Dumped :
    Bool → HostScopeAllocator → Option (Map String (Map String String) × String) → Type 0
Dumped overflow_checks a none = (overflow_checks ≡ true) × IsEverything a.net
Dumped overflow_checks a (some (m, status)) =
    (overflow_checks ≡ true → ¬ IsEverything a.net)
    × (alloc : Map String String) × (get pool_default m ≡ some alloc)
    × ((t : String)
        → ((get t alloc ≡ some "") ⊎ (get t alloc ≡ none))
          × ((get t alloc ≡ some "") ↔ IsHeldText a t))

Family-cases : (f : Family) → (f ≡ ipv4) ⊎ (f ≡ ipv6)
Family-cases ipv4 = inl refl
Family-cases ipv6 = inr refl

count_ips_in_cidr-panics :
    (overflow_checks : Bool) (n : IpNet)
    → IsIpNet n
    → (count_ips_in_cidr overflow_checks n ≡ none) ↔ ((overflow_checks ≡ true) × IsEverything n)
unfolding count_ips_in_cidr
count_ips_in_cidr-panics overflow_checks n v = elim (Family-cases n.family) [
  | inl e ↦
      let m : n.max_prefix_len ≡ 32 = v.max_prefix ∙ ap width e in
      (λ h. absurd (ground (arith, m, h)), λ h. absurd (cc (e, h.1.0)))
  | inr e ↦
      let m : n.max_prefix_len ≡ 128 = v.max_prefix ∙ ap width e in
      (
        λ h. elim (Bool-cases overflow_checks) [
          | inl c ↦ (c, (e, ground (arith, m, h)))
          | inr c ↦ absurd (ground (arith, m, h, c))
        ],
        λ h. ground (arith, m, h.0, h.1.1),
      )
]

-- The entry of a text in the default pool.
entry_held :
    (a : HostScopeAllocator) (t : String)
    → IsReady a
    → ((get t (dump_entries (for_each a) []) ≡ some "")
        ⊎ (get t (dump_entries (for_each a) []) ≡ none))
      × ((get t (dump_entries (for_each a) []) ≡ some "") ↔ IsHeldText a t)
unfolding get
entry_held a t v =
    let entry = get-dump_entries t (for_each a) [] in
    elim (Bool-cases (any (λ ip. ip_to_string ip =? t) (for_each a))) [
      | inl e ↦
          let found : get t (dump_entries (for_each a) []) ≡ some "" = entry ∙ rw e refl in
          (inl found, (λ h. (held_text a t v).0 e, λ h. found))
      | inr e ↦
          let missing : get t (dump_entries (for_each a) []) ≡ none = entry ∙ rw e refl in
          (
            inr missing,
            (λ h. absurd (cc (h, missing)), λ h. absurd (cc (e, (held_text a t v).1 h))),
          )
    ]

-- An allocator that is ready is dumped, but for one of `::/0` in a build that checks for overflow,
-- where the capacity of the network cannot be computed and `dump` panics. The default pool lists,
-- with an empty owner, exactly the texts of the addresses that the allocator holds.
pub dump-Dumped :
    (overflow_checks : Bool) {a : HostScopeAllocator}
    → IsReady a
    → Dumped overflow_checks a (dump overflow_checks a)
unfolding dump
dump-Dumped overflow_checks {a} v = elim (Option-cases (count_ips_in_cidr overflow_checks a.net)) [
  | inl e ↦ rw (e, dump) ((count_ips_in_cidr-panics overflow_checks a.net v.net_ok).0 e)
  | inr (c, e) ↦
      let entries = dump_entries (for_each a) [] in
      rw (e, dump)
        (
          (λ checks all.
              cc (e, (count_ips_in_cidr-panics overflow_checks a.net v.net_ok).1 (checks, all))),
          entries,
          get-insert_self pool_default entries [],
          λ t. entry_held a t v,
        )
]

-- For an IPv4 network of prefix length 2 to 30, the capacity that `dump` prints is the number of
-- addresses that a new allocator manages.
pub count_ips_in_cidr-new :
    (n : IpNet)
    → IsIpNet n
    → n.family ≡ ipv4
    → 2 ≤ n.prefix_len
    → n.prefix_len ≤ 30
    → count_ips_in_cidr true n ≡ some (new n).max
unfolding count_ips_in_cidr new size
count_ips_in_cidr-new n v f lo hi = ground (
  arith,
  v.max_prefix,
  ap width f,
  two-pow-le 2 (32 - n.prefix_len),
  two-pow-le (32 - n.prefix_len) 30,
)
