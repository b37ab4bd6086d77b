-- ===== src/Ipam/Bitmap/Word.antt =====
-- What `get_bit`, `set_bit` and `clear_bit` do to one another, over the words of the bitmap.
use Prim.Native.Nat.{bit_and, bit_or}
use sarena.Prelude.{
  ℕ, ◌-◌, ◌/◌, ◌%◌, ◌^◌, ◌<◌, ◌≡◌, true, false, List, ◌==◌, if◌then◌else◌, arith, get_or, set,
  length, get_or-set_self, get_or-set_ne,
}
use sarena.Prelude.Bits.{
  digit, digit_lem, digit-le_one, digit-bit_or, digit-bit_and, digit-pow, digit-not_pow,
  bit_and-one,
}
use native.Mathlib.Decide.{ℕ_discrete}
use sarena.Ipam.Bitmap.{get_bit, set_bit, clear_bit}

-- The digit of the words at an offset.
abbrev pub digit_at : List ℕ → ℕ → ℕ
digit_at words o = digit (get_or words (o / 64) 0) (o % 64)

pub get_bit_digit : (words : List ℕ) (o : ℕ) → get_bit words o ≡ (digit_at words o == 1)
unfolding get_bit
get_bit_digit words o = rw (
  bit_and-one (get_or words (o / 64) 0 / 2 ^ (o % 64)),
  ← digit_lem (get_or words (o / 64) 0) (o % 64),
)

digit-set :
    (words : List ℕ) (o j v : ℕ)
    → o / 64 < length words
    → digit_at (set words (o / 64) v) j
      ≡ (if o / 64 == j / 64 then digit v (j % 64) else digit_at words j)
digit-set words o j v h = elim (ℕ_discrete (o / 64) (j / 64)) [
  | yes e ↦ rw (← e, get_or-set_self words (o / 64) v 0 h) (ground arith)
  | no n ↦ rw (get_or-set_ne words (o / 64) (j / 64) v 0 n) (ground arith)
]

digit-bit_or_pow : (w k j : ℕ) → digit (bit_or w (2 ^ k)) j ≡ (if k == j then 1 else digit w j)
digit-bit_or_pow w k j = ground (arith, digit-bit_or w (2 ^ k) j, digit-pow k j, digit-le_one w j)

digit-bit_and_not_pow :
    (w k j : ℕ)
    → k < 64
    → j < 64
    → digit (bit_and w (2 ^ 64 - 1 - 2 ^ k)) j ≡ (if k == j then 0 else digit w j)
digit-bit_and_not_pow w k j p q =
    ground
      (arith, digit-bit_and w (2 ^ 64 - 1 - 2 ^ k) j, digit-not_pow 64 k j p q, digit-le_one w j)

-- Setting a bit sets that bit, and no other.
pub get_bit-set_bit :
    (words : List ℕ) (o j : ℕ)
    → o / 64 < length words
    → get_bit (set_bit words o) j ≡ (if o == j then true else get_bit words j)
unfolding set_bit
get_bit-set_bit words o j h =
    rw (get_bit_digit (set_bit words o) j, get_bit_digit words j)
      (ground (
        arith,
        digit-set words o j (bit_or (get_or words (o / 64) 0) (2 ^ (o % 64))) h,
        digit-bit_or_pow (get_or words (o / 64) 0) (o % 64) (j % 64),
      ))

-- Clearing a bit clears that bit, and no other.
pub get_bit-clear_bit :
    (words : List ℕ) (o j : ℕ)
    → o / 64 < length words
    → get_bit (clear_bit words o) j ≡ (if o == j then false else get_bit words j)
unfolding clear_bit
get_bit-clear_bit words o j h =
    rw (get_bit_digit (clear_bit words o) j, get_bit_digit words j)
      (ground (
        arith,
        digit-set words o j (bit_and (get_or words (o / 64) 0) (2 ^ 64 - 1 - 2 ^ (o % 64))) h,
        digit-bit_and_not_pow (get_or words (o / 64) 0) (o % 64) (j % 64) (omega arith)
            (omega arith),
      ))
