-- ===== src/SoftDataplane/Packet/Checksum.antt =====
-- The checksum of RFC 1071: the carry fold, and what a receiver computes over a filled field.
use sarena.Prelude.{
  ℕ, zero, suc, ◌+◌, ◌-◌, ◌/◌, ◌%◌, ◌^◌, ◌≤◌, ◌<◌, ◌≡◌, refl, ap, ◌∙◌, List, [], ◌∷◌, ◌++◌, Bool,
  true, false, arith,
}
use sarena.SoftDataplane.Packet.{sum_words, fold_carry, internet_checksum}

-- Three rounds end the loop for every `u32`.
fold_carry_lt : (sum : ℕ) → sum < 2 ^ 32 → fold_carry 3 sum < 65536
unfolding fold_carry
fold_carry_lt sum h = ground arith

fold_carry_mod : (n sum : ℕ) → fold_carry n sum % 65535 ≡ sum % 65535
unfolding fold_carry
fold_carry_mod zero sum = refl
fold_carry_mod (suc n) sum = ground (arith, fold_carry_mod n (sum % 65536 + sum / 65536))

fold_carry_pos : (n sum : ℕ) → 0 < sum → 0 < fold_carry n sum
unfolding fold_carry
fold_carry_pos zero sum h = h
fold_carry_pos (suc n) sum h = ground (arith, fold_carry_pos n (sum % 65536 + sum / 65536))

fold_carry_le : (n sum : ℕ) → fold_carry n sum ≤ sum
unfolding fold_carry
fold_carry_le zero sum = omega arith
fold_carry_le (suc n) sum = ground (arith, fold_carry_le n (sum % 65536 + sum / 65536))

full_field :
    (s f g : ℕ)
    → f < 65536
    → f % 65535 ≡ s % 65535
    → g < 65536
    → g % 65535 ≡ (s + (65535 - f)) % 65535
    → 0 < g
    → g ≡ 65535
full_field s f g a b c d e = omega arith

-- The sum with the complement added in folds to 65535, whose complement is 0.
complement :
    (s : ℕ)
    → s < 2 ^ 32 - 65536
    → 65535 - fold_carry 3 (s + (65535 - fold_carry 3 s % 65536)) % 65536 ≡ 0
complement s h =
    let f_lt = fold_carry_lt s (omega arith) in
    let small : fold_carry 3 s % 65536 ≡ fold_carry 3 s = omega arith in
    let t = s + (65535 - fold_carry 3 s) in
    let g_lt = fold_carry_lt t (omega arith) in
    let pos = fold_carry_pos 3 t (omega (arith, fold_carry_le 3 s)) in
    let full =
      full_field s (fold_carry 3 s) (fold_carry 3 t) f_lt (fold_carry_mod 3 s) g_lt
        (fold_carry_mod 3 t) pos in
    rw small (rw full refl)

-- An even number of bytes before the field keeps the field on a word of its own.
abbrev pub is_even : List ℕ → Bool
is_even [] = true
is_even (a ∷ []) = false
is_even (a ∷ b ∷ rest) = is_even rest

sum_words-append :
    (xs ys : List ℕ) → is_even xs ≡ true → sum_words (xs ++ ys) ≡ sum_words xs + sum_words ys
unfolding sum_words
sum_words-append [] ys h = omega arith
sum_words-append (a ∷ []) ys h = cc
sum_words-append (a ∷ b ∷ rest) ys h = omega (arith, sum_words-append rest ys h)

-- A header with a 16-bit field in it.
abbrev pub filled : List ℕ → ℕ → List ℕ → List ℕ
filled before field after = before ++ (field / 256) ∷ (field % 256) ∷ after

-- A receiver that sums a header whose checksum field was cleared, computed and filled in, the
-- field standing at an even offset, gets the checksum 0, whatever the other bytes are (no more of
-- them than a sum of 32 bits can take).
pub internet_checksum-filled :
    (before after : List ℕ)
    → is_even before ≡ true
    → sum_words (filled before 0 after) < 2 ^ 32 - 65536
    → internet_checksum (filled before (internet_checksum (filled before 0 after)) after) ≡ 0
unfolding internet_checksum sum_words
internet_checksum-filled before after e h =
    let c = 65535 - fold_carry 3 (sum_words (before ++ 0 ∷ 0 ∷ after)) % 65536 in
    let total : sum_words (before ++ (c / 256) ∷ (c % 256) ∷ after)
        ≡ sum_words (before ++ 0 ∷ 0 ∷ after) + c =
      omega (
        arith,
        sum_words-append before ((c / 256) ∷ (c % 256) ∷ after) e,
        sum_words-append before (0 ∷ 0 ∷ after) e,
      ) in
    ap (λ t. 65535 - fold_carry 3 t % 65536) total
    ∙ complement (sum_words (before ++ 0 ∷ 0 ∷ after)) h
