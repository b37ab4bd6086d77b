-- ===== src/Ipam/Bitmap/Valid.antt =====
-- The representation invariant of `AllocationBitmap`, and that every operation keeps it.
use sarena.Prelude.{
  ℕ, zero, suc, ◌+◌, ◌-◌, ◌/◌, ◌%◌, ◌^◌, ◌≤◌, ◌<◌, ◌≡◌, refl, sym, ap, inl, inr, Bool, true, ◌∙◌,
  false, List, [], ◌∷◌, some, ◌==◌, leb, if◌then◌else◌, arith, All, get_or, set, replicate, length,
  length-set, length-replicate, get_or-replicate, Bool-cases, Option-cases, leb-false→lt,
}
use sarena.Prelude.Bits.{bit_or-lt, bit_and-le, two-pow_mono, digit-zero}
use native.Mathlib.Decide.{ℕ_discrete}
use sarena.Ipam.Bitmap.{
  AllocationBitmap, div_ceil, new, get_bit, set_bit, clear_bit, allocate_bit, allocate,
  allocate_next, release, has,
}
use sarena.Ipam.Bitmap.Word.{get_bit_digit, get_bit-set_bit, get_bit-clear_bit}
use sarena.Ipam.Bitmap.Offsets.{
  ones, ones-add, ones-le, ones_missing, find_sound, find_complete, on_the_way, Found,
}

abbrev pub IsWord : ℕ → Type 0
IsWord w = w < 2 ^ 64

pub record IsValid (b : AllocationBitmap) : Type 0 where
  pub sized : length b.words ≡ div_ceil b.max 64
  pub fits : All IsWord b.words
  pub clear_above : (o : ℕ) → b.max ≤ o → get_bit b.words o ≡ false
  pub counted : b.count ≡ ones (get_bit b.words) 0 b.max

-- No access of a valid bitmap is past its words.
pub in_bounds : {b : AllocationBitmap} (o : ℕ) → IsValid b → o < b.max → o / 64 < length b.words
in_bounds o v h = omega (arith, v.sized)

All-set : (xs : List ℕ) (i w : ℕ) → All IsWord xs → IsWord w → All IsWord (set xs i w)
All-set [] i w h k = tt
All-set (x ∷ xs) zero w h k = (k, h.1)
All-set (x ∷ xs) (suc i) w h k = (h.0, All-set xs i w h.1 k)

All-get_or : (xs : List ℕ) (i : ℕ) → All IsWord xs → get_or xs i 0 < 2 ^ 64
All-get_or [] i h = omega arith
All-get_or (x ∷ xs) zero h = h.0
All-get_or (x ∷ xs) (suc i) h = All-get_or xs i h.1

le_lt_trans : {a b c : ℕ} → a ≤ b → b < c → a < c
le_lt_trans p q = omega arith

All-replicate : (n : ℕ) → All IsWord (replicate n 0)
All-replicate zero = tt
All-replicate (suc n) = (omega arith, All-replicate n)

get_bit-new : (n o : ℕ) → get_bit (replicate n 0) o ≡ false
get_bit-new n o =
    rw (get_bit_digit (replicate n 0) o, get_or-replicate {A = ℕ} n (o / 64) 0, digit-zero (o % 64))

ones-none : (p : ℕ → Bool) (s n : ℕ) → ((j : ℕ) → p j ≡ false) → ones p s n ≡ 0
ones-none p s zero h = refl
ones-none p s (suc n) h = ground (arith, h s, ones-none p (s + 1) n h)

-- A new bitmap is valid, and nothing in it is allocated.
pub new-IsValid : (max : ℕ) → IsValid (new max)
unfolding new
new-IsValid max = record {
  sized = length-replicate (div_ceil max 64) 0;
  fits = All-replicate (div_ceil max 64);
  clear_above = λ o h. get_bit-new (div_ceil max 64) o;
  counted = sym (ones-none _ 0 max (get_bit-new (div_ceil max 64)));
}

pub max-new : (max : ℕ) → (new max).max ≡ max
unfolding new
max-new max = refl

-- The state after an offset is taken, and after one is given back.
abbrev pub taken : AllocationBitmap → ℕ → AllocationBitmap
taken b o = record b { state = record { words = set_bit b.words o; count = b.count + 1 } }

abbrev pub returned : AllocationBitmap → ℕ → AllocationBitmap
returned b o = record b { state = record { words = clear_bit b.words o; count = b.count - 1 } }

module _ {b : AllocationBitmap} (o : ℕ) (v : IsValid b) (below : o < b.max) where
  pub taken-IsValid : get_bit b.words o ≡ false → IsValid (taken b o)
  unfolding set_bit
  taken-IsValid unset = record {
    sized = length-set b.words (o / 64) _ ∙ v.sized;
    fits = All-set b.words (o / 64) _ v.fits (
        bit_or-lt 64 _ _ (All-get_or b.words (o / 64) v.fits)
          (two-pow_mono (o % 64) 64 (omega arith)));
    clear_above =
        λ j h. ground (arith, get_bit-set_bit b.words o j (in_bounds o v below), v.clear_above j h);
    counted = omega (
      arith,
      v.counted,
      ones-add (get_bit b.words) (get_bit (set_bit b.words o)) 0 b.max o (omega arith) (omega arith)
          unset (λ j. get_bit-set_bit b.words o j (in_bounds o v below)),
    );
  }

  pub returned-IsValid : get_bit b.words o ≡ true → IsValid (returned b o)
  unfolding clear_bit
  returned-IsValid was = record {
    sized = length-set b.words (o / 64) _ ∙ v.sized;
    fits = All-set b.words (o / 64) _ v.fits (
        le_lt_trans
          (bit_and-le 64 (get_or b.words (o / 64) 0) (2 ^ 64 - 1 - 2 ^ (o % 64))
            (All-get_or b.words (o / 64) v.fits))
          (All-get_or b.words (o / 64) v.fits));
    clear_above = λ j h.
        ground (arith, get_bit-clear_bit b.words o j (in_bounds o v below), v.clear_above j h);
    counted = omega (
      arith,
      v.counted,
      ones-add (get_bit (clear_bit b.words o)) (get_bit b.words) 0 b.max o (omega arith)
          (omega arith) (cleared o) (λ j. restored j),
    );
  }
    where
      cleared : (j : ℕ) → get_bit (clear_bit b.words o) o ≡ false
      cleared j = ground (arith, get_bit-clear_bit b.words o o (in_bounds o v below))

      restored :
          (j : ℕ) → get_bit b.words j ≡ (if o == j then true else get_bit (clear_bit b.words o) j)
      restored j = elim (ℕ_discrete o j) [
        | yes e ↦ ground (arith, ap (get_bit b.words) e)
        | no n ↦ ground (arith, get_bit-clear_bit b.words o j (in_bounds o v below))
      ]

-- What the search of `allocate_bit` finds is a free offset of the range.
pub allocate_bit_sound :
    (b : AllocationBitmap) (offset o : ℕ)
    → allocate_bit b.words b.max b.count offset ≡ some o
    → (o < b.max) × (get_bit b.words o ≡ false)
unfolding allocate_bit
allocate_bit_sound b offset o h =
    ground (arith, find_sound (get_bit b.words) b.max offset 0 b.max o)

-- It fails only when every offset is allocated.
pub allocate_bit_complete :
    (b : AllocationBitmap) (offset : ℕ)
    → IsValid b
    → offset < b.max
    → b.count < b.max
    → (o : ℕ) × (allocate_bit b.words b.max b.count offset ≡ some o)
unfolding allocate_bit
allocate_bit_complete b offset v h k =
    let gap = ones_missing (get_bit b.words) 0 b.max (omega (arith, v.counted)) in
    let way = on_the_way (get_bit b.words) b.max offset gap.0 h (omega (arith, gap.2)) in
    let found : Found (get_bit b.words) b.max offset 0 b.max =
      find_complete (get_bit b.words) b.max offset 0 b.max way.0 (omega arith)
        (omega (arith, way.1)) (rw (way.2) (gap.3)) in
    (found.0, ground (arith, found.1))

-- `allocate` keeps the invariant.
pub allocate-IsValid : {b : AllocationBitmap} (o : ℕ) → IsValid b → IsValid (allocate b o).0
unfolding allocate
allocate-IsValid {b} o v = elim (Bool-cases (leb b.max o)) [
  | inl e ↦ rw e v
  | inr e ↦ rw e (elim (Bool-cases (get_bit b.words o)) [
    | inl s ↦ rw s v
    | inr s ↦ rw s (taken-IsValid o v (leb-false→lt b.max o e) s)
  ])
]

-- `release` keeps the invariant.
pub release-IsValid : {b : AllocationBitmap} (o : ℕ) → IsValid b → IsValid (release b o)
unfolding release
release-IsValid {b} o v = elim (Bool-cases (leb b.max o)) [
  | inl e ↦ rw e v
  | inr e ↦ rw e (elim (Bool-cases (get_bit b.words o)) [
    | inl s ↦ rw s (returned-IsValid o v (leb-false→lt b.max o e) s)
    | inr s ↦ rw s v
  ])
]

-- `allocate_next` keeps the invariant, whatever the sample.
pub allocate_next-IsValid :
    {b : AllocationBitmap} (offset : ℕ) → IsValid b → IsValid (allocate_next b offset).0
unfolding allocate_next
allocate_next-IsValid {b} offset v =
    elim (Option-cases (allocate_bit b.words b.max b.count offset)) [
      | inl e ↦ rw (e, allocate_next) v
      | inr (o, e) ↦
          let found = allocate_bit_sound b offset o e in
          rw (e, allocate_next) (taken-IsValid o v found.0 found.1)
    ]

-- No operation changes the number of offsets.
pub max-allocate : (b : AllocationBitmap) (o : ℕ) → (allocate b o).0.max ≡ b.max
unfolding allocate
max-allocate b o = ground arith

pub max-release : (b : AllocationBitmap) (o : ℕ) → (release b o).max ≡ b.max
unfolding release
max-release b o = ground arith

pub max-allocate_next : (b : AllocationBitmap) (o : ℕ) → (allocate_next b o).0.max ≡ b.max
unfolding allocate_next
max-allocate_next b o = ground arith

pub has-get_bit : (b : AllocationBitmap) (o : ℕ) → o < b.max → has b o ≡ get_bit b.words o
unfolding has
has-get_bit b o h = ground arith

-- A grant raises the count by one, and the count of a valid bitmap is at most `max`.
pub count-allocate_next :
    (b : AllocationBitmap) (sample o : ℕ)
    → (allocate_next b sample).1 ≡ some o
    → (allocate_next b sample).0.count ≡ b.count + 1
unfolding allocate_next
count-allocate_next b sample o h = ground arith

pub count-le-max : {b : AllocationBitmap} → IsValid b → b.count ≤ b.max
count-le-max {b} v = omega (arith, v.counted, ones-le (get_bit b.words) 0 b.max)
