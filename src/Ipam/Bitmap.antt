-- ===== src/Ipam/Bitmap.antt =====
-- sarena-services/src/ipam/bitmap.rs: the bitmap of allocated offsets.
-- A `u64` word is a number below 2 ^ 64. Each operation holds the mutex for its whole body, so it
-- is one function from the state before to the state after. The offset that
-- `rand::random_range(0..max)` draws is an argument of `allocate_next`.
pub mod Word
pub mod Offsets
pub mod Valid
pub mod Visit
pub mod Refine
mod Tests
use Prim.Native.Nat.{bit_and, bit_or}
use sarena.Prelude.{
  ℕ, zero, suc, ◌+◌, ◌-◌, ◌*◌, ◌/◌, ◌%◌, ◌^◌, Bool, true, false, not, ◌&&◌, Option, none, some,
  List, [], ◌∷◌, ◌++◌, map, ◌==◌, ltb, leb, if◌then◌else◌, get_or, set, replicate, find,
}

pub record State : Type 0 where
  pub words : List ℕ
  pub count : ℕ

pub record AllocationBitmap : Type 0 where
  pub max : ℕ
  pub state : State
  pub open state use *

abbrev pub word_bits : ℕ
word_bits = 64

-- `usize::div_ceil`.
abbrev pub div_ceil : ℕ → ℕ → ℕ
div_ceil a b = (a + b - 1) / b

unfoldable pub new : ℕ → AllocationBitmap
new max = record { max = max; state = record { words = replicate (div_ceil max 64) 0; count = 0 } }

-- Indexing past the words would panic; `Valid.in_bounds` shows that no operation does.
unfoldable pub get_bit : List ℕ → ℕ → Bool
get_bit words offset = bit_and (get_or words (offset / 64) 0 / 2 ^ (offset % 64)) 1 == 1

unfoldable pub set_bit : List ℕ → ℕ → List ℕ
set_bit words offset =
    set words (offset / 64) (bit_or (get_or words (offset / 64) 0) (2 ^ (offset % 64)))

pub clear_bit : List ℕ → ℕ → List ℕ
clear_bit words offset =
    set words (offset / 64)
      (bit_and (get_or words (offset / 64) 0) (2 ^ 64 - 1 - 2 ^ (offset % 64)))

-- `start..start + n`.
abbrev pub range_from : ℕ → ℕ → List ℕ
range_from start zero = []
range_from start (suc n) = start ∷ range_from (start + 1) n

-- `offset` is the sample of `rand::random_range(0..max)`.
unfoldable pub allocate_bit : List ℕ → ℕ → ℕ → ℕ → Option ℕ
allocate_bit words max count offset =
    if leb max count
    then none
    else find (λ at. not (get_bit words at)) (map (λ i. (offset + i) % max) (range_from 0 max))

pub allocate : AllocationBitmap → ℕ → AllocationBitmap × Bool
allocate b offset =
    if leb b.max offset
    then (b, false)
    else if get_bit b.words offset
    then (b, false)
    else (record b { state = record { words = set_bit b.words offset; count = b.count + 1 } }, true)

unfoldable pub allocate_next : AllocationBitmap → ℕ → AllocationBitmap × Option ℕ
allocate_next b offset = elim (allocate_bit b.words b.max b.count offset) [
  | none ↦ (b, none)
  | some next ↦
      (record b { state = record { words = set_bit b.words next; count = b.count + 1 } }, some next)
]

-- `state.count -= 1` runs only with a bit set, so the count is above 0 there (`Valid`).
pub release : AllocationBitmap → ℕ → AllocationBitmap
release b offset =
    if leb b.max offset
    then b
    else if not (get_bit b.words offset)
    then b
    else record b { state = record { words = clear_bit b.words offset; count = b.count - 1 } }

-- `while word > 0`: 64 rounds are enough for a word of 64 bits (`Visit`).
pub scan_word : ℕ → ℕ → ℕ → ℕ → List ℕ
scan_word zero base bit word = []
scan_word (suc fuel) base bit word = elim (ltb 0 word) [
  | false ↦ []
  | true ↦
      let rest = scan_word fuel base (bit + 1) (word / 2) in
      if not (bit_and word 1 == 0) then (base + bit) ∷ rest else rest
]

pub scan_words : ℕ → List ℕ → List ℕ
scan_words word_idx [] = []
scan_words word_idx (word ∷ words) =
    scan_word 64 (word_idx * 64) 0 word ++ scan_words (word_idx + 1) words

-- The offsets that the callback of `for_each` is called with, in order.
pub for_each : AllocationBitmap → List ℕ
for_each b = scan_words 0 b.words

pub has : AllocationBitmap → ℕ → Bool
has b offset = ltb offset b.max && get_bit b.words offset

pub free : AllocationBitmap → ℕ
free b = b.max - b.count
