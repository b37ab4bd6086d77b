-- ===== src/Prelude/Bits.antt =====
-- Bits of a machine word at variables: `x >> k & 1`, `x | 1 << k` and `x & !(1 << k)`.
-- The libraries define the bit operations by a recursion on digits with fuel; `bit_or_step` and
-- `bit_and_step` say what they do to the lowest digit, and the rest is induction on the position.
use Prim.Native.Nat.{
  ℕ, zero, suc, ◌+◌, ◌-◌, ◌*◌, ◌/◌, ◌%◌, ◌^◌, ◌≤◌, ◌<◌, min, max, bit_and, bit_or,
}
use Prim.Native.Nat.{digits, bitwise, bit_and-bitwise, bit_or-bitwise}
use native.Mathlib.Nat.{le_refl, pow-suc, one-le-pow, div-div-eq-div-mul}
use mathlib.Core.Path.{◌≡◌, refl, sym}
use native.Mathlib.Omega.{arith}
use sarena.Prelude.Tests.{◌==◌, if◌then◌else◌}

-- Fuel above the first argument changes nothing; `n` bounds the fuel.
enough_fuel :
    (unit : ℕ → ℕ) (op : ℕ → ℕ → ℕ) (n fuel x y : ℕ)
    → fuel ≤ n
    → x ≤ fuel
    → digits unit op fuel x y ≡ bitwise unit op x y
enough_fuel unit op n zero zero y h k = refl
enough_fuel unit op n zero (suc x) y h k = absurd (omega arith)
enough_fuel unit op n (suc fuel) zero y h k = refl
enough_fuel unit op zero (suc fuel) (suc x) y h k = absurd (omega arith)
enough_fuel unit op (suc n) (suc fuel) (suc x) y h k =
    let shorter = enough_fuel unit op n fuel (suc x / 2) (y / 2) (omega arith) (omega arith) in
    let own = enough_fuel unit op n x (suc x / 2) (y / 2) (omega arith) (omega arith) in
    rw (shorter, own)

lowest_digit :
    (unit : ℕ → ℕ) (op : ℕ → ℕ → ℕ) (x y : ℕ)
    → bitwise unit op (suc x) y ≡ op (suc x % 2) (y % 2) + 2 * bitwise unit op (suc x / 2) (y / 2)
lowest_digit unit op x y =
    let rest = enough_fuel unit op x x (suc x / 2) (y / 2) (le_refl x) (omega arith) in
    omega (arith, rest)

pub bit_or_step : (x y : ℕ) → bit_or x y ≡ max (x % 2) (y % 2) + 2 * bit_or (x / 2) (y / 2)
bit_or_step zero y = simp bit_or-bitwise (omega arith)
bit_or_step (suc x) y = simp bit_or-bitwise (lowest_digit (λ d. d) max x y)

pub bit_and_step : (x y : ℕ) → bit_and x y ≡ min (x % 2) (y % 2) + 2 * bit_and (x / 2) (y / 2)
bit_and_step zero y = simp bit_and-bitwise (omega arith)
bit_and_step (suc x) y = simp bit_and-bitwise (lowest_digit (λ d. 0) min x y)

bit_and-zero_within : (n a : ℕ) → a ≤ n → bit_and a 0 ≡ 0
bit_and-zero_within n zero h = refl
bit_and-zero_within zero (suc a) h = absurd (omega arith)
bit_and-zero_within (suc n) (suc a) h =
    omega (arith, bit_and_step (suc a) 0, bit_and-zero_within n (suc a / 2) (omega arith))

-- `x & 1`.
pub bit_and-one : (a : ℕ) → bit_and a 1 ≡ a % 2
bit_and-one a = omega (arith, bit_and_step a 1, bit_and-zero_within (a / 2) (a / 2) (le_refl _))

-- The digit of `x` at position `k`.
abbrev pub digit : ℕ → ℕ → ℕ
digit x zero = x % 2
digit x (suc k) = digit (x / 2) k

pub digit-le_one : (x k : ℕ) → digit x k ≤ 1
digit-le_one x zero = omega arith
digit-le_one x (suc k) = digit-le_one (x / 2) k

pub digit-zero : (k : ℕ) → digit 0 k ≡ 0
digit-zero zero = refl
digit-zero (suc k) = digit-zero k

div-pow-suc : (x k : ℕ) → x / 2 ^ suc k ≡ x / 2 / 2 ^ k
div-pow-suc x k =
    let e : 2 ^ suc k ≡ 2 * 2 ^ k = omega (arith, pow-suc 2 k) in
    rw e (sym (div-div-eq-div-mul x 2 (2 ^ k)))

pub digit_lem : (x k : ℕ) → digit x k ≡ x / 2 ^ k % 2
digit_lem x zero = omega arith
digit_lem x (suc k) = rw (div-pow-suc x k) (digit_lem (x / 2) k)

pub digit-bit_or : (a b k : ℕ) → digit (bit_or a b) k ≡ max (digit a k) (digit b k)
digit-bit_or a b zero = omega (arith, bit_or_step a b)
digit-bit_or a b (suc k) =
    let e : bit_or a b / 2 ≡ bit_or (a / 2) (b / 2) = omega (arith, bit_or_step a b) in
    rw e (digit-bit_or (a / 2) (b / 2) k)

pub digit-bit_and : (a b k : ℕ) → digit (bit_and a b) k ≡ min (digit a k) (digit b k)
digit-bit_and a b zero = omega (arith, bit_and_step a b)
digit-bit_and a b (suc k) =
    let e : bit_and a b / 2 ≡ bit_and (a / 2) (b / 2) = omega (arith, bit_and_step a b) in
    rw e (digit-bit_and (a / 2) (b / 2) k)

two-pow-suc : (k : ℕ) → 2 ^ suc k ≡ 2 * 2 ^ k
two-pow-suc k = omega (arith, pow-suc 2 k)

pub two-pow_mono : (k n : ℕ) → k < n → 2 ^ k < 2 ^ n
two-pow_mono k zero h = absurd (omega arith)
two-pow_mono zero (suc n) h = omega (arith, two-pow-suc n, one-le-pow n 2)
two-pow_mono (suc k) (suc n) h =
    omega (arith, two-pow-suc n, two-pow-suc k, two-pow_mono k n (omega arith))

pub two-pow-le : (k n : ℕ) → k ≤ n → 2 ^ k ≤ 2 ^ n
two-pow-le zero n h = one-le-pow n 2 (omega arith)
two-pow-le (suc k) zero h = absurd (omega arith)
two-pow-le (suc k) (suc n) h =
    omega (arith, two-pow-suc n, two-pow-suc k, two-pow-le k n (omega arith))

pub digit-pow : (k j : ℕ) → digit (2 ^ k) j ≡ (if k == j then 1 else 0)
digit-pow zero zero = refl
digit-pow zero (suc j) = ground (arith, digit-zero j)
digit-pow (suc k) zero = ground (arith, two-pow-suc k)
digit-pow (suc k) (suc j) =
    let e : 2 ^ suc k / 2 ≡ 2 ^ k = omega (arith, two-pow-suc k) in
    rw e (ground (arith, digit-pow k j))

-- A word of `n` ones.
pub digit-ones : (n j : ℕ) → j < n → digit (2 ^ n - 1) j ≡ 1
digit-ones zero j h = absurd (omega arith)
digit-ones (suc n) zero h = omega (arith, two-pow-suc n, one-le-pow n 2)
digit-ones (suc n) (suc j) h =
    let e : (2 ^ suc n - 1) / 2 ≡ 2 ^ n - 1 = omega (arith, two-pow-suc n, one-le-pow n 2) in
    rw e (digit-ones n j (omega arith))

-- `!(1 << k)` in a word of `n` bits.
pub digit-not_pow :
    (n k j : ℕ) → k < n → j < n → digit (2 ^ n - 1 - 2 ^ k) j ≡ (if k == j then 0 else 1)
digit-not_pow zero k j p q = absurd (omega arith)
digit-not_pow (suc n) zero zero p q = omega (arith, two-pow-suc n, one-le-pow n 2)
digit-not_pow (suc n) zero (suc j) p q =
    let e : (2 ^ suc n - 1 - 2 ^ 0) / 2 ≡ 2 ^ n - 1 =
      omega (arith, two-pow-suc n, one-le-pow n 2) in
    rw e (ground (arith, digit-ones n j (omega arith)))
digit-not_pow (suc n) (suc k) zero p q =
    ground (arith, two-pow-suc n, two-pow-suc k, two-pow_mono k n (omega arith))
digit-not_pow (suc n) (suc k) (suc j) p q =
    let e : (2 ^ suc n - 1 - 2 ^ suc k) / 2 ≡ 2 ^ n - 1 - 2 ^ k =
      omega (arith, two-pow-suc n, two-pow-suc k, one-le-pow n 2) in
    rw e (ground (arith, digit-not_pow n k j))

bit_or-zero : (a b : ℕ) → a ≡ 0 → b ≡ 0 → bit_or a b ≡ 0
bit_or-zero a b p q = rw (p, q)

-- `x | 1 << k` stays in the word, and so does `x & m`.
pub bit_or-lt : (n a b : ℕ) → a < 2 ^ n → b < 2 ^ n → bit_or a b < 2 ^ n
bit_or-lt zero a b p q = omega (arith, bit_or_step a b, bit_or-zero a b (omega arith) (omega arith))
bit_or-lt (suc n) a b p q = omega (
  arith,
  two-pow-suc n,
  bit_or_step a b,
  bit_or-lt n (a / 2) (b / 2) (omega (arith, two-pow-suc n)) (omega (arith, two-pow-suc n)),
)

pub bit_and-le : (n a b : ℕ) → a < 2 ^ n → bit_and a b ≤ a
bit_and-le zero a b p = let e : a ≡ 0 = omega arith in rw e (omega (arith, bit_and-bitwise 0 b))
bit_and-le (suc n) a b p = omega (
  arith,
  two-pow-suc n,
  bit_and_step a b,
  bit_and-le n (a / 2) (b / 2) (omega (arith, two-pow-suc n)),
)
