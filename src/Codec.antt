-- ===== src/Codec.antt =====
-- internal/codec/codec.go, the integer encoders: big-endian byte strings with no redundant leading
-- zero byte. A byte slice is a list of numbers below 256, a Go `int` is an integer. The widths are
-- below 2^63 - 8, where `byteLen` does not wrap (P4Info widths are int32).
pub mod Value
pub mod Encode
pub mod Unique
pub mod Uint
pub mod Mask
pub mod Ternary
pub mod Apply
pub mod Range
pub mod Hex
mod Examples
use p4runtime_go_controller.Common.{
  ℕ, zero, suc, ◌+◌, ◌-◌, ◌*◌, ◌/◌, ◌%◌, ◌^◌, bit_and, bit_or, Bool, true, false, ◌&&◌, ◌||◌, not,
  List, [], ◌∷◌, ◌++◌, reverse, length, replicate, get_or, ltb, leb, ◌==◌, if◌then◌else◌,
}
use p4runtime_go_controller.Common.Int.{ℤ, pos, pos_part, ltb_ℤ, leb_ℤ}
use p4runtime_go_controller.Common.Bits.{bit_clear, high_ones}
use p4runtime_go_controller.Common.Errors.{
  Error, Result, ok, err, sentinel, plain, wrap, invalid_bit_width, ◌>>=◌, ◌>>◌, wrapping,
}

-- What the loops `for i < len(b) && b[i] == 0 { i++ }` leave of the slice.
unfoldable pub drop_zeros : List ℕ → List ℕ
drop_zeros [] = []
drop_zeros (b ∷ bs) = elim (b == 0) [ true ↦ drop_zeros bs | false ↦ b ∷ bs ]

abbrev pub or_zero : List ℕ → List ℕ
or_zero [] = 0 ∷ []
or_zero (b ∷ bs) = b ∷ bs

unfoldable pub strip_leading_zeros : List ℕ → List ℕ
strip_leading_zeros b = or_zero (drop_zeros b)

abbrev pub byte_len : ℕ → ℕ
byte_len bitwidth = (bitwidth + 7) / 8

abbrev pub too_wide : Error
too_wide = wrap "codec.EncodeBytes" (sentinel invalid_bit_width)

-- The checks on the significant bytes of a value.
unfoldable pub check_width : List ℕ → ℕ → Result (List ℕ)
check_width [] w = ok (0 ∷ [])
check_width (first ∷ rest) w =
    let size = length (first ∷ rest) in
    if ltb (byte_len w) size
    then err too_wide
    else if (size == byte_len w) && not (w % 8 == 0) && not (bit_clear first (2 ^ (w % 8) - 1) == 0)
    then err too_wide
    else ok (first ∷ rest)

unfoldable pub encode_bytes : List ℕ → ℤ → Result (List ℕ)
encode_bytes value bitwidth =
    if leb_ℤ bitwidth (pos 0)
    then err (plain "codec.EncodeBytes: bitwidth must be positive")
    else check_width (drop_zeros value) (pos_part bitwidth)

-- `binary.BigEndian.PutUint64`
abbrev pub put_uint64 : ℕ → List ℕ
put_uint64 v =
    v / 256 ^ 7 % 256
    ∷ v / 256 ^ 6 % 256
    ∷ v / 256 ^ 5 % 256
    ∷ v / 256 ^ 4 % 256
    ∷ v / 256 ^ 3 % 256
    ∷ v / 256 ^ 2 % 256
    ∷ v / 256 % 256
    ∷ v % 256
    ∷ []

abbrev pub exceeds : Error
exceeds = wrap "codec.EncodeUint: value exceeds the range" (sentinel invalid_bit_width)

-- `v` is a uint64.
unfoldable pub encode_uint : ℕ → ℤ → Result (List ℕ)
encode_uint v bitwidth =
    if leb_ℤ bitwidth (pos 0) || ltb_ℤ (pos 64) bitwidth
    then err (plain "codec.EncodeUint: bitwidth out of range (1..64)")
    else if ltb_ℤ bitwidth (pos 64) && leb (2 ^ pos_part bitwidth) v
    then err exceeds
    else if v == 0
    then ok (0 ∷ [])
    else ok (strip_leading_zeros (put_uint64 v))

-- `v = (v << 8) | uint64(c)` for each byte, in a uint64.
unfoldable pub decode_loop : ℕ → List ℕ → ℕ
decode_loop v [] = v
decode_loop v (c ∷ b) = decode_loop (bit_or (v * 256 % 2 ^ 64) c) b

unfoldable pub decode_uint : List ℕ → Result ℕ
unfolding decode_loop
decode_uint b =
    if ltb 8 (length b)
    then err (plain "codec.DecodeUint: input exceeds 64 bits")
    else ok (decode_loop 0 b)

-- The loop of `clearLowBits` goes from the last byte to the first: a recursion on the reversed
-- slice. It ends when `count` is 0 or after a byte that is cleared in part.
unfoldable pub clear_reversed : List ℕ → ℕ → List ℕ
clear_reversed [] count = []
clear_reversed (b ∷ bs) count =
    if ltb 0 count
    then (if leb 8 count
        then 0 ∷ clear_reversed bs (count - 8)
        else bit_and b (high_ones count) ∷ bs)
    else b ∷ bs

unfoldable pub clear_low_bits : List ℕ → ℕ → List ℕ
clear_low_bits value count = reverse (clear_reversed (reverse value) count)

abbrev pub out_of_range : ℤ → ℤ → Bool
out_of_range prefix_len bitwidth = ltb_ℤ prefix_len (pos 0) || ltb_ℤ bitwidth prefix_len

unfoldable pub lpm_mask : List ℕ → ℤ → ℤ → Result (List ℕ)
lpm_mask value prefix_len bitwidth =
    if leb_ℤ bitwidth (pos 0)
    then err (plain "codec.LPMMask: bitwidth must be positive")
    else if out_of_range prefix_len bitwidth
    then err (plain "codec.LPMMask: prefixLen out of range")
    else do
      masked ← wrapping "codec.LPMMask value" (encode_bytes value bitwidth)
      ok (strip_leading_zeros (clear_low_bits masked (pos_part bitwidth - pos_part prefix_len)))

-- A mask of all ones for the width, its first byte cut to the leading bits.
abbrev pub ones_mask : ℕ → List ℕ
ones_mask w = (if w % 8 == 0 then 255 else (2 ^ (w % 8) - 1) % 256) ∷ replicate (byte_len w - 1) 255

unfoldable pub ternary_mask : ℤ → ℤ → Result (List ℕ)
ternary_mask prefix_len bitwidth =
    if leb_ℤ bitwidth (pos 0)
    then err (plain "codec.TernaryMask: bitwidth must be positive")
    else if out_of_range prefix_len bitwidth
    then err (plain "codec.TernaryMask: prefixLen out of range")
    else if pos_part prefix_len == 0
    then ok (0 ∷ [])
    else ok (
        strip_leading_zeros (
          clear_low_bits (ones_mask (pos_part bitwidth)) (pos_part bitwidth - pos_part prefix_len)))

-- The loop over `v` from index `i`, where `total` is the length of the whole of `v`.
unfoldable pub apply_from : ℕ → ℕ → List ℕ → List ℕ → List ℕ
apply_from i total [] m = []
apply_from i total (b ∷ v) m =
    (if ltb (i + length m) total then 0 else bit_and b (get_or m (i + length m - total) 0))
    ∷ apply_from (suc i) total v m

unfoldable pub ternary_apply : List ℕ → List ℕ → ℤ → Result (List ℕ)
unfolding apply_from
ternary_apply value mask bitwidth = do
  v ← wrapping "codec.TernaryApply value" (encode_bytes value bitwidth)
  m ← wrapping "codec.TernaryApply mask" (encode_bytes mask bitwidth)
  ok (strip_leading_zeros (apply_from 0 (length v) v m))

-- `bytes.Compare(l, h) > 0`
unfoldable pub bytes_above : List ℕ → List ℕ → Bool
bytes_above [] h = false
bytes_above (a ∷ l) [] = true
bytes_above (a ∷ l) (b ∷ h) = if a == b then bytes_above l h else ltb b a

unfoldable pub validate_range : List ℕ → List ℕ → ℤ → Result (Unit {0})
validate_range low high bitwidth = do
  l ← wrapping "codec.ValidateRange low" (encode_bytes low bitwidth)
  h ← wrapping "codec.ValidateRange high" (encode_bytes high bitwidth)
  if ltb (length h) (length l) || ((length l == length h) && bytes_above l h)
      then err (plain "codec.ValidateRange: low > high")
      else ok tt
