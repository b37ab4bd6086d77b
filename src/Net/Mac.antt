-- ===== src/Net/Mac.antt =====
-- sarena-infra/src/mac_address.rs: a `MacAddress` is the list of its six bytes, a text that of its
-- bytes.
mod Tests
use sarena.Prelude.{
  ℕ, zero, suc, ◌≡◌, ◌≢◌, refl, ap, ◌∙◌, ◌+◌, ◌-◌, ◌*◌, ◌/◌, ◌%◌, ◌<◌, true, false, ◌&&◌, Option,
  none, some, List, [], ◌∷◌, ◌++◌, ltb, leb, ◌==◌, if◌then◌else◌, length, All, arith, Bool-cases,
  inl, inr,
}

-- `char::to_digit` for base 16.
unfoldable pub hex_digit : ℕ → Option ℕ
hex_digit c =
    if leb b'0' c && leb c b'9'
    then some (c - b'0')
    else if leb b'a' c && leb c b'f'
    then some (c - b'a' + 10)
    else if leb b'A' c && leb c b'F'
    then some (c - b'A' + 10)
    else none

-- A value above `u8::MAX` or a byte that is no digit is an error.
unfoldable pub scan_hex : ℕ → List ℕ → Option ℕ
unfolding hex_digit
scan_hex n [] = some n
scan_hex n (c ∷ text) = elim (hex_digit c) [
  | none ↦ none
  | some d ↦ let rest = scan_hex (n * 16 + d) text in if leb (n * 16 + d) 255 then rest else none
]

abbrev skip_plus : List ℕ → List ℕ
skip_plus [] = []
skip_plus (c ∷ []) = c ∷ []
skip_plus (c ∷ d ∷ text) = if c == b'+' then d ∷ text else c ∷ d ∷ text

-- `u8::from_str_radix(x, 16)`: one leading plus sign is allowed, an empty text is an error.
unfoldable pub parse_hex : List ℕ → Option ℕ
unfolding scan_hex
parse_hex [] = none
parse_hex (c ∷ text) = scan_hex 0 (skip_plus (c ∷ text))

abbrev add_to_first : ℕ → List (List ℕ) → List (List ℕ)
add_to_first c [] = (c ∷ []) ∷ []
add_to_first c (part ∷ parts) = (c ∷ part) ∷ parts

-- `s.split(':')`.
unfoldable pub split_colons : List ℕ → List (List ℕ)
split_colons [] = [] ∷ []
split_colons (c ∷ text) =
    let parts = split_colons text in if c == b':' then [] ∷ parts else add_to_first c parts

abbrev keep_some : Option ℕ → List ℕ → List ℕ
keep_some none bytes = bytes
keep_some (some b) bytes = b ∷ bytes

-- `filter_map`: a part that is no byte is dropped.
unfoldable pub parsed_parts : List (List ℕ) → List ℕ
unfolding parse_hex
parsed_parts [] = []
parsed_parts (part ∷ parts) = keep_some (parse_hex part) (parsed_parts parts)

-- `MacAddress::parse`.
unfoldable pub parse_mac : List ℕ → Option (List ℕ)
unfolding split_colons parsed_parts
parse_mac text =
    let parts = parsed_parts (split_colons text) in if length parts == 6 then some parts else none

unfoldable pub hex_char : ℕ → ℕ
hex_char d = if ltb d 10 then b'0' + d else b'a' + (d - 10)

-- `{:02x}` for each byte, with colons between them.
unfoldable pub show_mac : List ℕ → List ℕ
unfolding hex_char
show_mac [] = []
show_mac (b ∷ []) = hex_char (b / 16) ∷ hex_char (b % 16) ∷ []
show_mac (b ∷ c ∷ bytes) = hex_char (b / 16) ∷ hex_char (b % 16) ∷ b':' ∷ show_mac (c ∷ bytes)

hex_digit-hex_char : (d : ℕ) → d < 16 → hex_digit (hex_char d) ≡ some d
unfolding hex_digit hex_char
hex_digit-hex_char d h = ground arith

hex_char_plain : (d : ℕ) → d < 16 → ((hex_char d == b'+') ≡ false) × ((hex_char d == b':') ≡ false)
unfolding hex_char
hex_char_plain d h = (ground arith, ground arith)

scan_hex_pair : (b : ℕ) → b < 256 → scan_hex 0 (hex_char (b / 16) ∷ hex_char (b % 16) ∷ []) ≡ some b
unfolding scan_hex
scan_hex_pair b h =
    let high : hex_digit (hex_char (b / 16)) ≡ some (b / 16) =
      hex_digit-hex_char (b / 16) (omega arith) in
    let low : hex_digit (hex_char (b % 16)) ≡ some (b % 16) =
      hex_digit-hex_char (b % 16) (omega arith) in
    let sum : b / 16 * 16 + b % 16 ≡ b = omega arith in
    rw (high, low, scan_hex) (ground (arith, sum, h))

parse_hex_pair : (b : ℕ) → b < 256 → parse_hex (hex_char (b / 16) ∷ hex_char (b % 16) ∷ []) ≡ some b
unfolding parse_hex
parse_hex_pair b h = rw (hex_char_plain (b / 16) (omega arith)).0 (scan_hex_pair b h)

split_colons_pair :
    (b : ℕ) (text : List ℕ)
    → b < 256
    → split_colons (hex_char (b / 16) ∷ hex_char (b % 16) ∷ text)
      ≡ add_to_first (hex_char (b / 16)) (add_to_first (hex_char (b % 16)) (split_colons text))
unfolding split_colons
split_colons_pair b text h =
    let high : b / 16 < 16 = omega arith in
    let low : b % 16 < 16 = omega arith in
    rw ((hex_char_plain (b / 16) high).1, (hex_char_plain (b % 16) low).1) refl

parsed_parts_pair :
    (b : ℕ) (text : List ℕ) (parts : List (List ℕ))
    → b < 256
    → split_colons text ≡ [] ∷ parts
    → parsed_parts (split_colons (hex_char (b / 16) ∷ hex_char (b % 16) ∷ text))
      ≡ b ∷ parsed_parts parts
unfolding parsed_parts
parsed_parts_pair b text parts h e =
    ap parsed_parts (
      split_colons_pair b text h
      ∙ ap (λ ps. add_to_first (hex_char (b / 16)) (add_to_first (hex_char (b % 16)) ps)) e)
    ∙ rw (parse_hex_pair b h) refl

parsed_parts-show_mac :
    (bytes : List ℕ)
    → All (λ b. b < 256) bytes
    → parsed_parts (split_colons (show_mac bytes)) ≡ bytes
unfolding show_mac split_colons parsed_parts
parsed_parts-show_mac [] h = refl
parsed_parts-show_mac (b ∷ []) h = parsed_parts_pair b [] [] h.0 refl
parsed_parts-show_mac (b ∷ c ∷ bytes) h =
    parsed_parts_pair b (b':' ∷ show_mac (c ∷ bytes)) (split_colons (show_mac (c ∷ bytes))) h.0 refl
    ∙ ap (λ rest. b ∷ rest) (parsed_parts-show_mac (c ∷ bytes) h.1)

-- The text of an address is parsed back to it.
pub parse_mac-show_mac :
    (mac : List ℕ) → length mac ≡ 6 → All (λ b. b < 256) mac → parse_mac (show_mac mac) ≡ some mac
unfolding parse_mac
parse_mac-show_mac mac six bytes = rw (parsed_parts-show_mac mac bytes, six) refl
