-- ===== src/Codec/Hex.antt =====
-- MAC, ParseHex and FormatHex of internal/codec/codec.go. A text is the list of its bytes. What the
-- code uses of Go's library is written out: hex.DecodeString, strings.ToLower, TrimPrefix and
-- ReplaceAll for the ASCII bytes that can take part in a success, strings.Join and
-- strconv.FormatUint(b, 16) for one byte. Every other byte makes the decoding fail either way.
pub mod RoundTrip
use p4runtime_go_controller.Common.{
  ℕ, zero, suc, ◌+◌, ◌-◌, ◌*◌, ◌/◌, ◌%◌, Bool, true, false, ◌&&◌, ◌||◌, not, List, [], ◌∷◌, ◌++◌,
  Option, none, some, map, length, ltb, leb, ◌==◌, if◌then◌else◌,
}
use p4runtime_go_controller.Common.Text.{lower}
use p4runtime_go_controller.Common.Errors.{Result, ok, err, plain}
use p4runtime_go_controller.Codec.{strip_leading_zeros}

unfoldable pub from_hex_char : ℕ → Option ℕ
from_hex_char c =
    if leb b'0' c && leb c b'9'
    then some (c - b'0')
    else if leb b'a' c && leb c b'f'
    then some (c - b'a' + 10)
    else if leb b'A' c && leb c b'F'
    then some (c - b'A' + 10)
    else none

abbrev pub prepend_byte : Option ℕ → Option ℕ → Option (List ℕ) → Option (List ℕ)
prepend_byte (some a) (some b) (some rest) = some ((a * 16 + b) ∷ rest)
prepend_byte (some a) (some b) none = none
prepend_byte (some a) none r = none
prepend_byte none b r = none

-- hex.DecodeString: an odd length or any other character is an error.
unfoldable pub decode_string : List ℕ → Option (List ℕ)
decode_string [] = some []
decode_string (p ∷ []) = none
decode_string (p ∷ q ∷ s) = prepend_byte (from_hex_char p) (from_hex_char q) (decode_string s)

-- The characters of a text that pass a test.
unfoldable pub keep : (ℕ → Bool) → List ℕ → List ℕ
keep p [] = []
keep p (c ∷ s) = let rest = keep p s in if p c then c ∷ rest else rest

-- strings.TrimPrefix(s, "0x")
unfoldable pub trim_0x : List ℕ → List ℕ
trim_0x (c ∷ d ∷ s) = if (c == b'0') && (d == b'x') then s else c ∷ d ∷ s
trim_0x s = s

abbrev pub is_separator : ℕ → Bool
is_separator c = (c == b':') || (c == b'-') || (c == b'.')

abbrev pub stripped_or : Option (List ℕ) → Result (List ℕ) → Result (List ℕ)
stripped_or (some raw) r = ok (strip_leading_zeros raw)
stripped_or none r = r

unfoldable pub mac : List ℕ → Result (List ℕ)
mac s =
    let cleaned = keep (λ c. not (is_separator c)) s in
    if length cleaned == 12
    then stripped_or (decode_string cleaned) (err (plain "codec.MAC: encoding/hex"))
    else err (plain "codec.MAC: not a 48-bit MAC")

unfoldable pub parse_hex : List ℕ → Result (List ℕ)
parse_hex s =
    let cleaned = keep (λ c. not (c == b':')) (map lower (trim_0x (map lower s))) in
    let padded = if length cleaned % 2 == 0 then cleaned else b'0' ∷ cleaned in
    stripped_or (decode_string padded) (err (plain "codec.ParseHex"))

abbrev pub hex_digit : ℕ → ℕ
hex_digit n = if ltb n 10 then b'0' + n else b'a' + (n - 10)

-- strconv.FormatUint(uint64(b), 16), with a zero in front of a single digit.
abbrev pub hex_part : ℕ → List ℕ
hex_part b =
    if ltb b 16 then b'0' ∷ hex_digit b ∷ [] else hex_digit (b / 16) ∷ hex_digit (b % 16) ∷ []

-- strings.Join
unfoldable pub join : List ℕ → List (List ℕ) → List ℕ
join sep [] = []
join sep (s ∷ []) = s
join sep (s ∷ t ∷ rest) = s ++ (sep ++ join sep (t ∷ rest))

unfoldable pub format_hex : List ℕ → List ℕ
format_hex [] = b'0' ∷ []
format_hex (b ∷ v) = join (b':' ∷ []) (map hex_part (b ∷ v))
