-- ===== src/Net/Text.antt =====
-- The text of numbers and addresses: `Display` of the standard library's integers, `Ipv4Addr` and
-- `Ipv6Addr`. Owners and exclusions are keyed by these texts.
use Prim.Native.String.{◌++◌}
use sarena.Prelude.{
  ℕ, zero, suc, ◌≡◌, refl, ◌+◌, ◌*◌, ◌/◌, ◌%◌, ◌^◌, true, false, List, [], ◌∷◌, String, ◌==◌, ltb,
  if◌then◌else◌, get_or,
}
use sarena.Net.{IpAddr, v4, v6}

abbrev digit_texts : List String
digit_texts =
    "0" ∷ "1" ∷ "2" ∷ "3" ∷ "4" ∷ "5" ∷ "6" ∷ "7" ∷ "8" ∷ "9" ∷ "a" ∷ "b" ∷ "c" ∷ "d" ∷ "e" ∷ "f"
    ∷ []

-- A number below base ^ fuel, most significant digit first.
numeral : ℕ → ℕ → ℕ → String
numeral zero base n = ""
numeral (suc fuel) base n = elim (ltb n base) [
  | true ↦ get_or digit_texts n ""
  | false ↦ numeral fuel base (n / base) ++ get_or digit_texts (n % base) ""
]

-- 2 ^ 128 has 39 decimal digits.
unfoldable pub decimal : ℕ → String
unfolding numeral
decimal n = numeral 39 10 n

hex : ℕ → String
unfolding numeral
hex n = numeral 4 16 n

show_v4 : ℕ → String
unfolding decimal
show_v4 n =
    decimal (n / 2 ^ 24)
    ++ "."
    ++ decimal (n / 2 ^ 16 % 256)
    ++ "."
    ++ decimal (n / 2 ^ 8 % 256)
    ++ "."
    ++ decimal (n % 256)

-- The eight 16-bit segments, the first one first.
segments : ℕ → ℕ → List ℕ
segments zero n = []
segments (suc k) n = (n / 2 ^ (16 * k) % 2 ^ 16) ∷ segments k n

pub record Span : Type 0 where
  pub start : ℕ
  pub len : ℕ

-- The first of the longest runs of zero segments.
longest_zeroes : ℕ → Span → Span → List ℕ → Span
longest_zeroes i longest current [] = longest
longest_zeroes i longest current (s ∷ rest) =
    let grown : Span = record {
      start = if current.len == 0 then i else current.start;
      len = current.len + 1;
    } in
    let current' : Span = if s == 0 then grown else record { start = 0; len = 0 } in
    longest_zeroes (i + 1) (if ltb longest.len current'.len then current' else longest) current'
      rest

join_segments : List ℕ → String
unfolding hex
join_segments [] = ""
join_segments (s ∷ []) = hex s
join_segments (s ∷ t ∷ rest) = hex s ++ ":" ++ join_segments (t ∷ rest)

first : ℕ → List ℕ → List ℕ
first zero xs = []
first (suc n) [] = []
first (suc n) (x ∷ xs) = x ∷ first n xs

after : ℕ → List ℕ → List ℕ
after zero xs = xs
after (suc n) [] = []
after (suc n) (x ∷ xs) = after n xs

show_segments : List ℕ → String
unfolding longest_zeroes join_segments first after
show_segments segs =
    let none_yet : Span = record { start = 0; len = 0 } in
    let zeroes = longest_zeroes 0 none_yet none_yet segs in
    if ltb 1 zeroes.len
    then join_segments (first zeroes.start segs)
      ++ "::"
      ++ join_segments (after (zeroes.start + zeroes.len) segs)
    else join_segments segs

-- An IPv4-mapped address, ::ffff:0:0/96, ends in dotted form.
show_v6 : ℕ → String
unfolding show_v4 segments show_segments
show_v6 n =
    if n / 2 ^ 32 == 0xffff then "::ffff:" ++ show_v4 (n % 2 ^ 32) else show_segments (segments 8 n)

unfoldable pub ip_to_string : IpAddr → String
unfolding show_v4 show_v6
ip_to_string (v4 n) = show_v4 n
ip_to_string (v6 n) = show_v6 n

dotted : ip_to_string (v4 0x0a000001) ≡ "10.0.0.1"
unfolding ip_to_string
dotted = refl

compressed : ip_to_string (v6 0xfd000000000000000000000000000001) ≡ "fd00::1"
unfolding ip_to_string
compressed = refl

unspecified : ip_to_string (v6 0) ≡ "::"
unfolding ip_to_string
unspecified = refl

mapped : ip_to_string (v6 0xffff0a000001) ≡ "::ffff:10.0.0.1"
unfolding ip_to_string
mapped = refl
