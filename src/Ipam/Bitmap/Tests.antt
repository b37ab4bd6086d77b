-- ===== src/Ipam/Bitmap/Tests.antt =====
-- The unit tests of bitmap.rs, and each theorem at a concrete bitmap.
use sarena.Prelude.{◌≡◌, refl, false, List, [], ◌∷◌, none, some, arith}
use sarena.Ipam.Bitmap.{
  AllocationBitmap, new, get_bit, set_bit, clear_bit, allocate_bit, allocate, allocate_next,
  release, scan_word, scan_words, for_each, has, free,
}
use sarena.Ipam.Bitmap.Offsets.{offsets}
use sarena.Ipam.Bitmap.Valid.{IsValid, new-IsValid}
use sarena.Ipam.Bitmap.Visit.{for_each-offsets}
use sarena.Ipam.Bitmap.Refine.{
  Op, allocates, allocates_next, perform, view, Allows, perform-Allows, run, run-IsValid,
}

-- Seventy offsets over two words, with 63, 64 and 69 held.
abbrev script : List Op
script = allocates 63 ∷ allocates 64 ∷ allocates 69 ∷ []

spans_multiple_words : for_each (run (new 70) script) ≡ 63 ∷ 64 ∷ 69 ∷ []
unfolding for_each run new perform allocate get_bit set_bit scan_words scan_word
spans_multiple_words = refl

allocate_next_goes_round : (allocate_next (allocate (new 4) 3).0 3).1 ≡ some 0
unfolding allocate_next allocate_bit new allocate get_bit set_bit
allocate_next_goes_round = refl

allocate_next_reports_full : (allocate_next (allocate (new 1) 0).0 0).1 ≡ none
unfolding allocate_next allocate_bit new allocate get_bit set_bit
allocate_next_reports_full = refl

release_frees_offset_for_reuse :
    (free (release (allocate (new 1) 0).0 0) ≡ 1)
    × (has (release (allocate (new 1) 0).0 0) 0 ≡ false)
unfolding free release has new allocate get_bit set_bit clear_bit
release_frees_offset_for_reuse = (refl, refl)

abbrev held : AllocationBitmap
held = run (new 70) script

held-IsValid : IsValid held
held-IsValid = run-IsValid script (new-IsValid 70)

perform-Allows_example :
    Allows
      (view held)
      (allocates_next 64)
      (perform held (allocates_next 64)).1
      (view (perform held (allocates_next 64)).0)
unfolding run new perform allocate get_bit set_bit
perform-Allows_example = perform-Allows (allocates_next 64) held-IsValid (λ h. omega arith)

for_each-offsets_example : for_each held ≡ offsets (get_bit held.words) 0 held.max
for_each-offsets_example = for_each-offsets held held-IsValid
