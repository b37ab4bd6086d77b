-- ===== src/Net/Mac/Tests.antt =====
-- A round trip, and a text that is longer than an address.
use sarena.Prelude.{◌≡◌, refl, some, List, [], ◌∷◌, ℕ, arith}
use sarena.Net.Mac.{
  parse_mac, show_mac, split_colons, parsed_parts, parse_hex, scan_hex, hex_digit,
  parse_mac-show_mac,
}

abbrev some_mac : List ℕ
some_mac = 2 ∷ 0x1f ∷ 0xa0 ∷ 0 ∷ 9 ∷ 0xff ∷ []

parse_mac-show_mac_example : parse_mac (show_mac some_mac) ≡ some some_mac
parse_mac-show_mac_example =
    parse_mac-show_mac some_mac refl
      (omega arith, (omega arith, (omega arith, (omega arith, (omega arith, (omega arith, tt))))))

-- "0:1:2:3:4:5:z": the seventh part is dropped and the text accepted.
accepts_more :
    parse_mac (
      b'0' ∷ b':' ∷ b'1' ∷ b':' ∷ b'2' ∷ b':' ∷ b'3' ∷ b':' ∷ b'4' ∷ b':' ∷ b'5' ∷ b':' ∷ b'z' ∷ [])
    ≡ some (0 ∷ 1 ∷ 2 ∷ 3 ∷ 4 ∷ 5 ∷ [])
unfolding parse_mac split_colons parsed_parts parse_hex scan_hex hex_digit
accepts_more = refl
