-- ===== src/Ipam/Bitmap/Refine.antt =====
-- The bitmap against its specification: a set of offsets below `max`, with no words in sight.
use sarena.Prelude.{
  ℕ, zero, suc, ◌+◌, ◌≤◌, ◌<◌, ◌≡◌, refl, ap, ◌⊎◌, inl, inr, Bool, true, false, List, [], ◌∷◌,
  Option, none, some, ◌==◌, leb, if◌then◌else◌, arith, Bool-cases, Option-cases, leb-false→lt,
  leb→le,
}
use native.Mathlib.Decide.{ℕ_discrete, dec_lt}
use sarena.Ipam.Bitmap.{AllocationBitmap, get_bit, allocate, allocate_next, allocate_bit, release}
use sarena.Ipam.Bitmap.Word.{get_bit-set_bit, get_bit-clear_bit}
use sarena.Ipam.Bitmap.Offsets.{ones, ones-le}
use sarena.Ipam.Bitmap.Valid.{
  IsValid, in_bounds, allocate-IsValid, release-IsValid, allocate_next-IsValid, allocate_bit_sound,
  allocate_bit_complete,
}

-- What a client sees of a bitmap.
pub record View : Type 0 where
  pub max : ℕ
  pub held : ℕ → Bool

abbrev pub view : AllocationBitmap → View
view b = record { max = b.max; held = get_bit b.words }

pub data Op : Type 0 where
  allocates : ℕ → Op
  allocates_next : ℕ → Op
  releases : ℕ → Op

pub data Reply : Type 0 where
  granted : Bool → Reply
  next : Option ℕ → Reply
  done : Reply

-- The operations, with the sample as an argument of `allocates_next`.
unfoldable pub perform : AllocationBitmap → Op → AllocationBitmap × Reply
perform b (allocates o) = let (b', r) = allocate b o in (b', granted r)
perform b (allocates_next offset) = let (b', r) = allocate_next b offset in (b', next r)
perform b (releases o) = (release b o, done)

-- `t` is `s` with the offset `o` in or out.
abbrev pub Becomes : View → View → ℕ → Bool → Type 0
Becomes s t o x = (t.max ≡ s.max) × ((j : ℕ) → t.held j ≡ (if o == j then x else s.held j))

abbrev pub Same : View → View → Type 0
Same s t = (t.max ≡ s.max) × ((j : ℕ) → t.held j ≡ s.held j)

-- The specification. A call is refused only for the reason that it names, and `allocates_next`
-- may choose any free offset, but fails only when all are held.
abbrev pub Allows : View → Op → Reply → View → Type 0
Allows s (allocates o) (granted true) t = (o < s.max) × (s.held o ≡ false) × Becomes s t o true
Allows s (allocates o) (granted false) t = ((s.max ≤ o) ⊎ (s.held o ≡ true)) × Same s t
Allows s (allocates_next offset) (next (some o)) t =
    (o < s.max) × (s.held o ≡ false) × Becomes s t o true
Allows s (allocates_next offset) (next none) t = ((j : ℕ) → j < s.max → s.held j ≡ true) × Same s t
Allows s (releases o) done t = (o < s.max) × Becomes s t o false ⊎ (s.max ≤ o) × Same s t
Allows s op r t = ⊥

ones_full : (p : ℕ → Bool) (s n : ℕ) → n ≤ ones p s n → (j : ℕ) → s ≤ j → j < s + n → p j ≡ true
ones_full p s zero h j a b = absurd (omega arith)
ones_full p s (suc n) h j a b = elim (ℕ_discrete s j) [
  | yes e ↦ ground (arith, ap p e, ones-le p (s + 1) n)
  | no e ↦ ones_full p (s + 1) n (ground (arith, ones-le p (s + 1) n)) j (omega arith) (omega arith)
]

pub allocate-Allows :
    {b : AllocationBitmap} (o : ℕ)
    → IsValid b
    → Allows (view b) (allocates o) (granted (allocate b o).1) (view (allocate b o).0)
unfolding allocate
allocate-Allows {b} o v = elim (Bool-cases (leb b.max o)) [
  | inl e ↦ rw e (inl (leb→le b.max o e), (refl, λ j. refl))
  | inr e ↦ rw e (elim (Bool-cases (get_bit b.words o)) [
    | inl s ↦ rw s (inr s, (refl, λ j. refl))
    | inr s ↦ rw s (
      leb-false→lt b.max o e,
      s,
      (refl, λ j. get_bit-set_bit b.words o j (in_bounds o v (leb-false→lt b.max o e))),
    )
  ])
]

pub release-Allows :
    {b : AllocationBitmap} (o : ℕ)
    → IsValid b
    → Allows (view b) (releases o) done (view (release b o))
unfolding release
release-Allows {b} o v = elim (Bool-cases (leb b.max o)) [
  | inl e ↦ rw e (inr (leb→le b.max o e, (refl, λ j. refl)))
  | inr e ↦ rw e (elim (Bool-cases (get_bit b.words o)) [
    | inl s ↦ rw s (
        inl (
          leb-false→lt b.max o e,
          (refl, λ j. get_bit-clear_bit b.words o j (in_bounds o v (leb-false→lt b.max o e))),
        ))
    | inr s ↦ rw s (inl (leb-false→lt b.max o e, (refl, λ j. unset s j)))
  ])
]
  where
    unset :
        get_bit b.words o ≡ false
        → (j : ℕ) → get_bit b.words j ≡ (if o == j then false else get_bit b.words j)
    unset s j = elim (ℕ_discrete o j) [
      | yes e ↦ ground (arith, ap (get_bit b.words) e)
      | no n ↦ ground arith
    ]

count-full :
    {b : AllocationBitmap} (offset : ℕ)
    → IsValid b
    → (0 < b.max → offset < b.max)
    → allocate_bit b.words b.max b.count offset ≡ none
    → b.max ≤ b.count
count-full {b} offset v h e = elim (dec_lt b.count b.max) [
  | yes lt ↦ let found = allocate_bit_complete b offset v (h (omega arith)) lt in cc (found.1)
  | no ge ↦ omega arith
]

pub allocate_next-Allows :
    {b : AllocationBitmap} (offset : ℕ)
    → IsValid b
    → (0 < b.max → offset < b.max)
    → Allows
        (view b)
        (allocates_next offset)
        (next (allocate_next b offset).1)
        (view (allocate_next b offset).0)
unfolding allocate_next
allocate_next-Allows {b} offset v h =
    elim (Option-cases (allocate_bit b.words b.max b.count offset)) [
      | inl e ↦
          rw (e, allocate_next)
            (
              λ j below.
                  ones_full (get_bit b.words) 0 b.max
                    (omega (arith, v.counted, count-full offset v h e)) j (omega arith)
                    (omega arith),
              (refl, λ j. refl),
            )
      | inr (o, e) ↦
          let found = allocate_bit_sound b offset o e in
          rw (e, allocate_next)
            (found.0, found.1, (refl, λ j. get_bit-set_bit b.words o j (in_bounds o v found.0)))
    ]

-- The samples of a call are those that `random_range(0..max)` can draw.
abbrev pub IsDrawn : ℕ → Op → Type 0
IsDrawn max (allocates o) = Unit
IsDrawn max (allocates_next offset) = 0 < max → offset < max
IsDrawn max (releases o) = Unit

pub perform-IsValid : {b : AllocationBitmap} (op : Op) → IsValid b → IsValid (perform b op).0
unfolding perform
perform-IsValid (allocates o) v = allocate-IsValid o v
perform-IsValid (allocates_next offset) v = allocate_next-IsValid offset v
perform-IsValid (releases o) v = release-IsValid o v

-- On a valid bitmap, with a sample that `random_range(0..max)` can draw, each operation does and
-- answers what the specification of the set of held offsets allows: an offset is granted exactly
-- if it is below `max` and free, only that offset changes, `allocate_next` fails only when all
-- are held, and `release` frees its offset alone.
pub perform-Allows :
    {b : AllocationBitmap} (op : Op)
    → IsValid b
    → IsDrawn b.max op
    → Allows (view b) op (perform b op).1 (view (perform b op).0)
unfolding perform
perform-Allows (allocates o) v d = allocate-Allows o v
perform-Allows (allocates_next offset) v d = allocate_next-Allows offset v d
perform-Allows (releases o) v d = release-Allows o v

unfoldable pub run : AllocationBitmap → List Op → AllocationBitmap
run b [] = b
run b (op ∷ ops) = run (perform b op).0 ops

-- Any history of calls keeps the invariant.
pub run-IsValid : {b : AllocationBitmap} (ops : List Op) → IsValid b → IsValid (run b ops)
unfolding run
run-IsValid [] v = v
run-IsValid {b} (op ∷ ops) v = run-IsValid {b = (perform b op).0} ops (perform-IsValid op v)
