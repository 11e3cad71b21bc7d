-- ===== src/Codec/Hex/RoundTrip.antt =====
-- Reading back what FormatHex writes, and the forms of a MAC address (internal/codec/codec.go).
use mathlib.Core.List.{append-nil}
use p4runtime_go_controller.Common.{
  ℕ, ◌*◌, ◌/◌, ◌%◌, ◌<◌, Bool, true, not, List, [], ◌∷◌, ◌++◌, ◌≡◌, refl, ap, ◌∙◌, sym, some, map,
  length, All, ◌==◌, if◌then◌else◌, arith,
}
use p4runtime_go_controller.Common.Bits.{IsByte}
use p4runtime_go_controller.Common.Text.{lower}
use p4runtime_go_controller.Common.Errors.{Result, ok, err, plain}
use p4runtime_go_controller.Codec.{strip_leading_zeros, drop_zeros}
use p4runtime_go_controller.Codec.Value.{AreBytes}
use p4runtime_go_controller.Codec.Hex.{
  from_hex_char, decode_string, keep, trim_0x, is_separator, mac, parse_hex, hex_digit, hex_part,
  join, format_hex, stripped_or,
}

-- The digits of the bytes, with nothing between them.
digits_of : List ℕ → List ℕ
digits_of [] = []
digits_of (b ∷ v) = hex_digit (b / 16) ∷ hex_digit (b % 16) ∷ digits_of v

from_hex_char-hex_digit : (n : ℕ) → n < 16 → from_hex_char (hex_digit n) ≡ some n
unfolding from_hex_char
from_hex_char-hex_digit n h = ground arith

hex_part_digits : (b : ℕ) → hex_part b ≡ hex_digit (b / 16) ∷ hex_digit (b % 16) ∷ []
hex_part_digits b = ground arith

decode-digits_of : (v : List ℕ) → AreBytes v → decode_string (digits_of v) ≡ some v
unfolding decode_string digits_of
decode-digits_of [] h = refl
decode-digits_of (b ∷ v) h = ground (
  arith,
  from_hex_char-hex_digit (b / 16),
  from_hex_char-hex_digit (b % 16),
  decode-digits_of v h.1,
)

length-digits_of : (v : List ℕ) → length (digits_of v) ≡ 2 * length v
unfolding digits_of
length-digits_of [] = omega arith
length-digits_of (b ∷ v) = omega (arith, length-digits_of v)

keep-append : (p : ℕ → Bool) (s t : List ℕ) → keep p (s ++ t) ≡ keep p s ++ keep p t
unfolding keep
keep-append p [] t = refl
keep-append p (c ∷ s) t = ground (arith, keep-append p s t)

-- Dropping the separators of the joined parts leaves the digits.
module _ (p : ℕ → Bool) (sep : List ℕ) (sep_dropped : keep p sep ≡ [])
    (digits_kept : (n : ℕ) → n < 16 → p (hex_digit n) ≡ true) where
  keep-hex_part :
      (b : ℕ) (s : List ℕ)
      → IsByte b
      → keep p (hex_part b ++ s) ≡ hex_digit (b / 16) ∷ hex_digit (b % 16) ∷ keep p s
  unfolding keep
  keep-hex_part b s h =
      rw (hex_part_digits b) (ground (arith, digits_kept (b / 16), digits_kept (b % 16)))

  keep-join : (v : List ℕ) → AreBytes v → keep p (join sep (map hex_part v)) ≡ digits_of v
  unfolding join digits_of
  keep-join [] h = unfold keep in refl
  keep-join (b ∷ []) h =
      ap (keep p) (sym (append-nil (hex_part b))) ∙ keep-hex_part b [] h.0 ∙ unfold keep in refl
  keep-join (b ∷ c ∷ v) h =
      let later = join sep (map hex_part (c ∷ v)) in
      keep-hex_part b (sep ++ later) h.0
      ∙ ap (λ t. hex_digit (b / 16) ∷ hex_digit (b % 16) ∷ t)
          (keep-append p sep later
            ∙ ap (λ s. s ++ keep p later) sep_dropped
            ∙ keep-join (c ∷ v) h.1)

lower-hex_digit : (n : ℕ) → n < 16 → lower (hex_digit n) ≡ hex_digit n
unfolding lower
lower-hex_digit n h = ground arith

lower-hex_part :
    (b : ℕ) (s : List ℕ) → IsByte b → map lower (hex_part b ++ s) ≡ hex_part b ++ map lower s
lower-hex_part b s h =
    rw (hex_part_digits b) (ground (arith, lower-hex_digit (b / 16), lower-hex_digit (b % 16)))

abbrev colon : List ℕ
colon = b':' ∷ []

lower-join :
    (v : List ℕ)
    → AreBytes v
    → map lower (join colon (map hex_part v)) ≡ join colon (map hex_part v)
unfolding join lower
lower-join [] h = refl
lower-join (b ∷ []) h =
    ap (map lower) (sym (append-nil (hex_part b)))
    ∙ lower-hex_part b [] h.0
    ∙ append-nil (hex_part b)
lower-join (b ∷ c ∷ v) h =
    lower-hex_part b (colon ++ join colon (map hex_part (c ∷ v))) h.0
    ∙ ap (λ t. hex_part b ++ (b':' ∷ t)) (lower-join (c ∷ v) h.1)

not-0x : (b : ℕ) (s : List ℕ) → IsByte b → trim_0x (hex_part b ++ s) ≡ hex_part b ++ s
unfolding trim_0x
not-0x b s h = rw (hex_part_digits b) (ground arith)

trim-join :
    (v : List ℕ) → AreBytes v → trim_0x (join colon (map hex_part v)) ≡ join colon (map hex_part v)
unfolding join
trim-join [] h = unfold trim_0x in refl
trim-join (b ∷ []) h =
    ap trim_0x (sym (append-nil (hex_part b))) ∙ not-0x b [] h.0 ∙ append-nil (hex_part b)
trim-join (b ∷ c ∷ v) h = not-0x b (colon ++ join colon (map hex_part (c ∷ v))) h.0

colon_dropped : keep (λ c. not (c == b':')) colon ≡ []
unfolding keep
colon_dropped = refl

digit_not_colon : (n : ℕ) → n < 16 → not (hex_digit n == b':') ≡ true
digit_not_colon n h = ground arith

-- ParseHex after the cleaning of the text.
parse_cleaned : List ℕ → Result (List ℕ)
parse_cleaned cleaned =
    let padded = if length cleaned % 2 == 0 then cleaned else b'0' ∷ cleaned in
    stripped_or (decode_string padded) (err (plain "codec.ParseHex"))

parse_digits : (v : List ℕ) → AreBytes v → parse_cleaned (digits_of v) ≡ ok (strip_leading_zeros v)
unfolding parse_cleaned
parse_digits v h = ground (arith, length-digits_of v, decode-digits_of v h)

abbrev no_colon : ℕ → Bool
no_colon c = not (c == b':')

parse_join :
    (v : List ℕ) → AreBytes v → parse_hex (join colon (map hex_part v)) ≡ ok (strip_leading_zeros v)
unfolding parse_hex parse_cleaned
parse_join v h = ap parse_cleaned cleaned ∙ parse_digits v h
  where
    cleaned :
        keep no_colon (map lower (trim_0x (map lower (join colon (map hex_part v))))) ≡ digits_of v
    cleaned =
        ap (λ t. keep no_colon (map lower (trim_0x t))) (lower-join v h)
        ∙ ap (λ t. keep no_colon (map lower t)) (trim-join v h)
        ∙ ap (keep no_colon) (lower-join v h)
        ∙ keep-join no_colon colon colon_dropped digit_not_colon v h

-- ParseHex of what FormatHex writes for a byte string is the canonical form of that string; the
-- empty string, written "0", comes back as the single byte zero.
pub parse-format_hex :
    (v : List ℕ) → AreBytes v → parse_hex (format_hex v) ≡ ok (strip_leading_zeros v)
unfolding format_hex
parse-format_hex [] h =
    unfold parse_hex lower trim_0x keep decode_string from_hex_char strip_leading_zeros
      drop_zeros in
    refl
parse-format_hex (b ∷ v) h = parse_join (b ∷ v) h

abbrev no_separator : ℕ → Bool
no_separator c = not (is_separator c)

digit_not_separator : (n : ℕ) → n < 16 → no_separator (hex_digit n) ≡ true
digit_not_separator n h = ground arith

separators_dropped : (s : List ℕ) → All (λ c. is_separator c ≡ true) s → keep no_separator s ≡ []
unfolding keep
separators_dropped [] h = refl
separators_dropped (c ∷ s) h = ground (arith, h.0, separators_dropped s h.1)

-- A MAC address written as six two-digit parts, joined by any text of the characters ":", "-" and
-- "." (or by nothing), is parsed to the canonical form of its six bytes.
pub mac-join :
    (sep v : List ℕ)
    → All (λ c. is_separator c ≡ true) sep
    → AreBytes v
    → length v ≡ 6
    → mac (join sep (map hex_part v)) ≡ ok (strip_leading_zeros v)
unfolding mac
mac-join sep v hs h size = rw cleaned (ground (arith, length-digits_of v, decode-digits_of v h))
  where
    cleaned : keep no_separator (join sep (map hex_part v)) ≡ digits_of v
    cleaned = keep-join no_separator sep (separators_dropped sep hs) digit_not_separator v h
