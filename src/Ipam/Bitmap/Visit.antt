-- ===== src/Ipam/Bitmap/Visit.antt =====
-- `for_each`: the two nested loops over words and bits visit the allocated offsets in order.
use native.Mathlib.Nat.{pow-suc}
use mathlib.Core.List.{append-nil}
use sarena.Prelude.{
  ℕ, zero, suc, ◌+◌, ◌-◌, ◌*◌, ◌/◌, ◌%◌, ◌^◌, ◌≤◌, ◌<◌, ◌≡◌, refl, sym, ap, ◌∙◌, Bool, false, List,
  [], ◌∷◌, ◌==◌, arith, All, length,
}
use sarena.Prelude.Bits.{digit, digit-zero, bit_and-one}
use sarena.Ipam.Bitmap.{AllocationBitmap, get_bit, scan_word, scan_words, for_each}
use sarena.Ipam.Bitmap.Word.{get_bit_digit}
use sarena.Ipam.Bitmap.Offsets.{offsets, offsets-none, offsets-append, length-offsets}
use sarena.Ipam.Bitmap.Valid.{IsValid, IsWord}

-- A set whose members from `start` on are the digits of a word.
abbrev Digits : (ℕ → Bool) → ℕ → ℕ → ℕ → Type 0
Digits p start word n = (i : ℕ) → i < n → p (start + i) ≡ (digit word i == 1)

-- With `n` rounds for a word of `n` bits the inner loop visits every bit that is set.
scan_word-offsets :
    (p : ℕ → Bool) (n base bit word : ℕ)
    → word < 2 ^ n
    → Digits p (base + bit) word n
    → scan_word n base bit word ≡ offsets p (base + bit) n
unfolding scan_word
scan_word-offsets p zero base bit word h d = refl
scan_word-offsets p (suc n) base bit zero h d =
    sym (offsets-none p (base + bit) (suc n) (λ j a b. unset j a b))
  where
    unset : (j : ℕ) → base + bit ≤ j → j < base + bit + suc n → p j ≡ false
    unset j a b =
        let e : base + bit + (j - (base + bit)) ≡ j = omega arith in
        ground (arith, ap p e, d (j - (base + bit)) (omega arith), digit-zero (j - (base + bit)))
scan_word-offsets p (suc n) base bit (suc word) h d =
    let e : base + (bit + 1) ≡ base + bit + 1 = omega arith in
    let rest : scan_word n base (bit + 1) (suc word / 2) ≡ offsets p (base + bit + 1) n = rw (← e) (
      scan_word-offsets p n base (bit + 1) (suc word / 2) (omega (arith, pow-suc 2 n))
        (λ i k. shifted i k)) in
    let z : base + bit + 0 ≡ base + bit = omega arith in
    ground (arith, rest, bit_and-one (suc word), d 0 (omega arith), ap p z)
  where
    shifted : Digits p (base + (bit + 1)) (suc word / 2) n
    shifted i k =
        let e : base + (bit + 1) + i ≡ base + bit + suc i = omega arith in
        rw e (d (suc i) (omega arith))

-- The outer loop, from word `idx` on.
scan_words-offsets :
    (p : ℕ → Bool) (words : List ℕ) (idx : ℕ)
    → All IsWord words
    → ((o : ℕ) → o < length words * 64 → p (idx * 64 + o) ≡ get_bit words o)
    → scan_words idx words ≡ offsets p (idx * 64) (length words * 64)
unfolding scan_words
scan_words-offsets p [] idx h d = refl
scan_words-offsets p (w ∷ ws) idx h d =
    let e : suc (length ws) * 64 ≡ 64 + length ws * 64 = omega arith in
    let f : idx * 64 + 64 ≡ (idx + 1) * 64 = omega arith in
    let z : idx * 64 + 0 ≡ idx * 64 = omega arith in
    rw (e, offsets-append p (idx * 64) 64 (length ws * 64), f)
      (ground (
        arith,
        scan_words-offsets p ws (idx + 1) h.1 (λ o k. later o k),
        scan_word-offsets p 64 (idx * 64) 0 w h.0 (λ i k. here i k),
        ap (λ (s : ℕ). offsets p s 64) z,
      ))
  where
    here : Digits p (idx * 64 + 0) w 64
    here i k =
        let e : idx * 64 + 0 + i ≡ idx * 64 + i = omega arith in
        let q : i / 64 ≡ 0 = omega arith in
        let r : i % 64 ≡ i = omega arith in
        rw (e, d i (omega arith), get_bit_digit (w ∷ ws) i, q, r)

    later : (o : ℕ) → o < length ws * 64 → p ((idx + 1) * 64 + o) ≡ get_bit ws o
    later o k =
        let e : (idx + 1) * 64 + o ≡ idx * 64 + (64 + o) = omega arith in
        let q : (64 + o) / 64 ≡ suc (o / 64) = omega arith in
        let r : (64 + o) % 64 ≡ o % 64 = omega arith in
        rw (e, d (64 + o) (omega arith), get_bit_digit (w ∷ ws) (64 + o), get_bit_digit ws o, q, r)

-- `for_each` calls its callback with the allocated offsets, each once and in rising order.
pub for_each-offsets :
    (b : AllocationBitmap) → IsValid b → for_each b ≡ offsets (get_bit b.words) 0 b.max
unfolding for_each
for_each-offsets b v =
    let e : length b.words * 64 ≡ b.max + (length b.words * 64 - b.max) = omega (arith, v.sized) in
    scan_words-offsets (get_bit b.words) b.words 0 v.fits
      (λ o k. ap (get_bit b.words) (omega arith))
    ∙ ap (offsets (get_bit b.words) 0) e
    ∙ offsets-append (get_bit b.words) 0 b.max (length b.words * 64 - b.max)
    ∙ rw
        (offsets-none (get_bit b.words) (0 + b.max) (length b.words * 64 - b.max)
          (λ j a c. v.clear_above j (omega arith)))
        (append-nil (offsets (get_bit b.words) 0 b.max))

-- The number of offsets that `for_each` visits is the count, so `free` is what is left.
pub length-for_each : (b : AllocationBitmap) → IsValid b → length (for_each b) ≡ b.count
length-for_each b v =
    ap length (for_each-offsets b v) ∙ length-offsets (get_bit b.words) 0 b.max ∙ sym v.counted
