-- ===== src/Prelude/Set.antt =====
-- `HashSet` as a list without repetitions: `insert` adds what is not there, `remove` drops it. The
-- order of the list stands for the set's iteration order.
use mathlib.Core.Path.{◌≡◌, refl}
use mathlib.Core.Bool.{Bool, true, false, ◌||◌}
use mathlib.Core.List.{List, [], ◌∷◌}
use mathlib.Core.Option.{some}
use native.Mathlib.Omega.{arith}
use Prim.Native.Nat.{ℕ, zero, suc, ◌+◌, ◌<◌}
use sarena.Prelude.Tests.{if◌then◌else◌}
use sarena.Prelude.Lists.{length, get_elem?}
use sarena.Prelude.Equality.{Eq, ◌=?◌}

module _ {ℓ} {A : Type ℓ} ⦃e : Eq A⦄ where
  unfoldable pub member : A → List A → Bool
  member a [] = false
  member a (x ∷ xs) = x =? a || member a xs

  -- The set after `HashSet::insert`; the call answers whether the value was new.
  unfoldable pub insert : A → List A → List A
  insert a xs = if member a xs then xs else a ∷ xs

  unfoldable pub remove : A → List A → List A
  remove a [] = []
  remove a (x ∷ xs) = let rest = remove a xs in if x =? a then rest else x ∷ rest

  pub member-insert :
      (a b : A) (xs : List A) → member b (insert a xs) ≡ (if a =? b then true else member b xs)
  unfolding insert member
  member-insert a b xs = ground (arith, e.beq_iff a b)

  pub member-remove :
      (a b : A) (xs : List A) → member b (remove a xs) ≡ (if a =? b then false else member b xs)
  unfolding remove member
  member-remove a b [] = ground arith
  member-remove a b (x ∷ xs) =
      ground (arith, e.beq_iff x a, e.beq_iff x b, e.beq_iff a b, member-remove a b xs)

  pub member-get_elem? :
      (i : ℕ) (xs : List A) (a : A) → get_elem? xs i ≡ some a → member a xs ≡ true
  unfolding member
  member-get_elem? i [] a h = cc
  member-get_elem? zero (x ∷ xs) a h = ground (arith, e.beq_iff x a)
  member-get_elem? (suc i) (x ∷ xs) a h = ground (arith, member-get_elem? i xs a h)

  -- No value stands twice.
  abbrev pub IsDistinct : List A → Type 0
  IsDistinct [] = Unit {0}
  IsDistinct (x ∷ xs) = (member x xs ≡ false) × IsDistinct xs

  pub remove-absent : (a : A) (xs : List A) → member a xs ≡ false → remove a xs ≡ xs
  unfolding remove member
  remove-absent a [] h = refl
  remove-absent a (x ∷ xs) h = ground (arith, remove-absent a xs)

  pub length-remove :
      (a : A) (xs : List A)
      → IsDistinct xs
      → member a xs ≡ true
      → length (remove a xs) + 1 ≡ length xs
  unfolding remove member
  length-remove a [] d h = cc
  length-remove a (x ∷ xs) d h =
      ground (arith, e.beq_iff x a, remove-absent a xs, length-remove a xs d.1)

  pub remove-IsDistinct : (a : A) (xs : List A) → IsDistinct xs → IsDistinct (remove a xs)
  unfolding remove
  remove-IsDistinct a [] d = tt
  remove-IsDistinct a (x ∷ xs) d =
      ground (arith, e.beq_iff a x, member-remove a x xs, remove-IsDistinct a xs d.1)

  pub insert-IsDistinct : (a : A) (xs : List A) → IsDistinct xs → IsDistinct (insert a xs)
  unfolding insert
  insert-IsDistinct a xs d = ground arith

pub get_elem?-some {ℓ} :
    {A : Type ℓ} (xs : List A) (i : ℕ) → i < length xs → (a : A) × (get_elem? xs i ≡ some a)
get_elem?-some [] i h = absurd (omega arith)
get_elem?-some (x ∷ xs) zero h = (x, refl)
get_elem?-some (x ∷ xs) (suc i) h = get_elem?-some xs i (omega arith)
