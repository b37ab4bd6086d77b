-- ===== src/Ipam/Bitmap/Offsets.antt =====
-- Sets of offsets as Boolean functions: their elements in order, their number, and the search for
-- a free one.
use sarena.Prelude.{
  ℕ, zero, suc, ◌+◌, ◌-◌, ◌%◌, ◌≤◌, ◌<◌, ◌≡◌, refl, ap, ◌≢◌, inl, inr, Bool, true, false, not, List,
  [], ◌∷◌, ◌++◌, map, some, ◌==◌, if◌then◌else◌, arith, length, find, Bool-cases,
}
use sarena.Ipam.Bitmap.{range_from}
use native.Mathlib.Decide.{dec_le}
use native.Mathlib.Nat.{mod-eq_of_lt, mod-lt}

-- The offsets of `start..start + n` in the set, in order.
abbrev pub offsets : (ℕ → Bool) → ℕ → ℕ → List ℕ
offsets p start zero = []
offsets p start (suc n) =
    let rest = offsets p (start + 1) n in if p start then start ∷ rest else rest

-- How many of the offsets `start..start + n` are in the set.
abbrev pub ones : (ℕ → Bool) → ℕ → ℕ → ℕ
ones p start zero = 0
ones p start (suc n) = (if p start then 1 else 0) + ones p (start + 1) n

pub length-offsets : (p : ℕ → Bool) (s n : ℕ) → length (offsets p s n) ≡ ones p s n
length-offsets p s zero = refl
length-offsets p s (suc n) = ground (arith, length-offsets p (s + 1) n)

pub ones-le : (p : ℕ → Bool) (s n : ℕ) → ones p s n ≤ n
ones-le p s zero = omega arith
ones-le p s (suc n) = ground (arith, ones-le p (s + 1) n)

-- Sets that agree on the range have the same elements there.
pub offsets-ext :
    (p q : ℕ → Bool) (s n : ℕ)
    → ((j : ℕ) → s ≤ j → j < s + n → p j ≡ q j)
    → offsets p s n ≡ offsets q s n
offsets-ext p q s zero h = refl
offsets-ext p q s (suc n) h = ground (
  arith,
  h s (omega arith) (omega arith),
  offsets-ext p q (s + 1) n (λ j a b. h j (omega arith) (omega arith)),
)

pub ones-ext :
    (p q : ℕ → Bool) (s n : ℕ) → ((j : ℕ) → s ≤ j → j < s + n → p j ≡ q j) → ones p s n ≡ ones q s n
ones-ext p q s zero h = refl
ones-ext p q s (suc n) h = ground (
  arith,
  h s (omega arith) (omega arith),
  ones-ext p q (s + 1) n (λ j a b. h j (omega arith) (omega arith)),
)

pub offsets-none :
    (p : ℕ → Bool) (s n : ℕ) → ((j : ℕ) → s ≤ j → j < s + n → p j ≡ false) → offsets p s n ≡ []
offsets-none p s zero h = refl
offsets-none p s (suc n) h = ground (
  arith,
  h s (omega arith) (omega arith),
  offsets-none p (s + 1) n (λ j a b. h j (omega arith) (omega arith)),
)

pub offsets-append :
    (p : ℕ → Bool) (s m n : ℕ) → offsets p s (m + n) ≡ offsets p s m ++ offsets p (s + m) n
offsets-append p s zero n =
    let e : s + 0 ≡ s = omega arith in let f : 0 + n ≡ n = omega arith in rw (e, f)
offsets-append p s (suc m) n =
    let e : suc m + n ≡ suc (m + n) = omega arith in
    let f : s + suc m ≡ s + 1 + m = omega arith in
    rw (e, f) (ground (arith, offsets-append p (s + 1) m n))

-- Adding one offset of the range to a set makes it larger by one.
pub ones-add :
    (p q : ℕ → Bool) (s n o : ℕ)
    → s ≤ o
    → o < s + n
    → p o ≡ false
    → ((j : ℕ) → q j ≡ (if o == j then true else p j))
    → ones q s n ≡ ones p s n + 1
ones-add p q s zero o a b c h = absurd (omega arith)
ones-add p q s (suc n) o a b c h = elim (Bool-cases (o == s)) [
  | inl e ↦
      let e' : o ≡ s = ground arith in
      ground (arith, h s, ap p e', ones-ext q p (s + 1) n (λ j u v. ground (arith, h j)))
  | inr e ↦ ground (arith, h s, ones-add p q (s + 1) n o (ground arith) (omega arith) c h)
]

-- A set that does not fill the range misses one of its offsets.
pub ones_missing :
    (p : ℕ → Bool) (s n : ℕ) → ones p s n < n → (o : ℕ) × (s ≤ o) × (o < s + n) × (p o ≡ false)
ones_missing p s zero h = absurd (omega arith)
ones_missing p s (suc n) h = elim (Bool-cases (p s)) [
  | inl e ↦
      let r : (o : ℕ) × (s + 1 ≤ o) × (o < s + 1 + n) × (p o ≡ false) =
        ones_missing p (s + 1) n (ground arith) in
      (r.0, omega (arith, r.1), omega (arith, r.2), r.3)
  | inr e ↦ (s, omega arith, omega arith, e)
]

past_blocked : (s i : ℕ) → s ≤ i → s ≢ i → s + 1 ≤ i
past_blocked s i a n = omega arith

-- The search of `allocate_bit`: it starts at the sample and goes round the range.
module _ (p : ℕ → Bool) (max offset : ℕ) where
  -- What it finds is in the range and free.
  pub find_sound :
      (s n o : ℕ)
      → 0 < max
      → find (λ at. not (p at)) (map (λ i. (offset + i) % max) (range_from s n)) ≡ some o
      → (o < max) × (p o ≡ false)
  find_sound s zero o m h = cc
  find_sound s (suc n) o m h =
      ground (arith, find_sound (s + 1) n o m, mod-lt (offset + s) {m = max} m)

  abbrev pub Found : ℕ → ℕ → Type 0
  Found s n =
      (o : ℕ) × (find (λ at. not (p at)) (map (λ i. (offset + i) % max) (range_from s n)) ≡ some o)

  -- It finds something as soon as one of the offsets on its way is free.
  pub find_complete : (s n i : ℕ) → s ≤ i → i < s + n → p ((offset + i) % max) ≡ false → Found s n
  find_complete s zero i a b h = absurd (omega arith)
  find_complete s (suc n) i a b h = elim (Bool-cases (p ((offset + s) % max))) [
    | inr e ↦ ((offset + s) % max, ground arith)
    | inl e ↦
        let r : Found (s + 1) n =
          find_complete (s + 1) n i (past_blocked s i a (λ q. cc)) (omega arith) h in
        (r.0, ground (arith, r.1))
  ]

  -- Every offset is on the way.
  pub on_the_way : (o : ℕ) → offset < max → o < max → (i : ℕ) × (i < max) × ((offset + i) % max ≡ o)
  on_the_way o a b = elim (dec_le offset o) [
    | yes le ↦
        let e : offset + (o - offset) ≡ o = omega arith in
        (o - offset, omega arith, rw (e, mod-eq_of_lt b))
    | no gt ↦
        let e : offset + (max + o - offset) ≡ o + max = omega arith in
        (max + o - offset, omega arith, rw e (grind arith))
  ]
