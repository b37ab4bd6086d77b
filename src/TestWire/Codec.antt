-- ===== src/TestWire/Codec.antt =====
-- What the writer's calls leave in a buffer of zeros: the records written, one after the other.
use mathlib.Core.List.{append_assoc, append-nil}
use sarena.Prelude.{
  ℕ, suc, ◌≡◌, refl, ap, ◌∙◌, ◌+◌, ◌-◌, ◌≤◌, ◌<◌, Bool, true, false, List, [], ◌∷◌, ◌++◌, arith,
  leb, ltb, length, set, replicate, length-append,
}
use sarena.TestWire.{Tag, tag_code, to_le_bytes, test_result_map_size}
use sarena.TestWire.Writer.{TlvWriter, put, write_u8, write_u32, write_u64, write_bytes}

-- A record on the wire.
unfoldable pub encode : Tag → List ℕ → List ℕ
encode tag value = tag_code tag ∷ length value ∷ value

pub length-encode : (tag : Tag) (value : List ℕ) → length (encode tag value) ≡ 2 + length value
unfolding encode
length-encode tag value = omega arith

-- The writer has written `bytes` and nothing else.
pub record Holds (bytes : List ℕ) (w : TlvWriter) : Type 0 where
  pub at : w.pos ≡ length bytes
  pub buf : w.buf ≡ bytes ++ replicate (test_result_map_size - length bytes) 0
  pub fits : length bytes ≤ test_result_map_size

set-append :
    (xs : List ℕ) (n b : ℕ)
    → set (xs ++ replicate (suc n) 0) (length xs) b ≡ (xs ++ b ∷ []) ++ replicate n 0
set-append [] n b = refl
set-append (x ∷ xs) n b = ap (λ l. x ∷ l) (set-append xs n b)

put_byte-Holds :
    (b : ℕ) (bytes : List ℕ) (w : TlvWriter)
    → Holds bytes w
    → length bytes < test_result_map_size
    → Holds (bytes ++ b ∷ []) (record { buf = set w.buf w.pos b; pos = w.pos + 1 })
put_byte-Holds b bytes w h lt =
    let left : test_result_map_size - length bytes ≡ suc (8191 - length bytes) = omega arith in
    let longer : length (bytes ++ b ∷ []) ≡ length bytes + 1 = length-append bytes (b ∷ []) in
    let right : 8191 - length bytes ≡ test_result_map_size - length (bytes ++ b ∷ []) =
      omega arith in
    record {
      at = omega (arith, h.at);
      buf =
          ap (λ p. set w.buf p b) h.at
          ∙ ap (λ l. set l (length bytes) b) (h.buf ∙ ap (λ n. bytes ++ replicate n 0) left)
          ∙ set-append bytes (8191 - length bytes) b
          ∙ ap (λ n. (bytes ++ b ∷ []) ++ replicate n 0) right;
      fits = omega arith;
    }

pub put-Holds :
    (bs bytes : List ℕ) (w : TlvWriter)
    → Holds bytes w
    → length bytes + length bs ≤ test_result_map_size
    → Holds (bytes ++ bs) (put bs w)
unfolding put
put-Holds [] bytes w h le = rw append-nil h
put-Holds (b ∷ bs) bytes w h le =
    let one = put_byte-Holds b bytes w h (omega arith) in
    let rest = put-Holds bs (bytes ++ b ∷ []) _ one (omega (arith, length-append bytes (b ∷ []))) in
    rw append_assoc at rest

-- The call of the writer `m` was made and left `bytes`.
pub record Writes (bytes : List ℕ) (m : TlvWriter × Bool) : Type 0 where
  pub made : m.1 ≡ true
  pub holds : Holds bytes m.0

-- Each write of the suite appends its record when there is room for it.
module _ (bytes : List ℕ) (w : TlvWriter) (h : Holds bytes w) where
  room :
      (n : ℕ)
      → length bytes + n ≤ test_result_map_size
      → leb (w.pos + n) test_result_map_size ≡ true
  room n le = ground (arith, h.at)

  written_record :
      (tag : Tag) (value : List ℕ)
      → length bytes + (2 + length value) ≤ test_result_map_size
      → Holds (bytes ++ encode tag value) (put (encode tag value) w)
  written_record tag value le =
      put-Holds (encode tag value) bytes w h (omega (arith, length-encode tag value))

  pub write_u8-Writes :
      (tag : Tag) (val : ℕ)
      → length bytes + 3 ≤ test_result_map_size
      → Writes (bytes ++ encode tag (val ∷ [])) (write_u8 tag val w)
  unfolding write_u8 encode
  write_u8-Writes tag val le =
      rw (room 3 le) (record { made = refl; holds = written_record tag (val ∷ []) le })

  pub write_u32-Writes :
      (tag : Tag) (val : ℕ)
      → length bytes + 6 ≤ test_result_map_size
      → Writes (bytes ++ encode tag (to_le_bytes 4 val)) (write_u32 tag val w)
  unfolding write_u32 encode to_le_bytes
  write_u32-Writes tag val le =
      rw (room 6 le) (record { made = refl; holds = written_record tag (to_le_bytes 4 val) le })

  pub write_u64-Writes :
      (tag : Tag) (val : ℕ)
      → length bytes + 10 ≤ test_result_map_size
      → Writes (bytes ++ encode tag (to_le_bytes 8 val)) (write_u64 tag val w)
  unfolding write_u64 encode to_le_bytes
  write_u64-Writes tag val le =
      rw (room 10 le) (record { made = refl; holds = written_record tag (to_le_bytes 8 val) le })

  pub write_bytes-Writes :
      (tag : Tag) (value : List ℕ)
      → length value ≤ 255
      → length bytes + (2 + length value) ≤ test_result_map_size
      → Writes (bytes ++ encode tag value) (write_bytes tag value w)
  unfolding write_bytes encode
  write_bytes-Writes tag value short le =
      let small : ltb 255 (length value) ≡ false = ground arith in
      rw (small, room (2 + length value) le)
        (record { made = refl; holds = written_record tag value le })
