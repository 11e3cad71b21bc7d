-- ===== src/Register.antt =====
-- register/numeric.go: the canonical bytes of bit<W> and int<W> values. A width is an int32.
pub mod Signed
pub mod Unsigned
pub mod Headers
pub mod Idempotent
pub mod Normalised
pub mod Unions
mod Examples
use p4runtime_go_controller.Common.{
  ℕ, ◌+◌, ◌-◌, ◌*◌, ◌/◌, bit_and, bit_xor, Bool, true, false, ◌&&◌, ◌||◌, not, List, [], ◌∷◌, ◌==◌,
  ltb, leb, length, if◌then◌else◌,
}
use p4runtime_go_controller.Common.Int.{ℤ, pos, ltb_ℤ, leb_ℤ, pos_part}
use p4runtime_go_controller.Common.Errors.{
  Error, Result, ok, err, plain, wrap, sentinel, invalid_bit_width,
}
use p4runtime_go_controller.Codec.{encode_bytes}

-- No byte of the loop over a bit<0> value is other than 0.
unfoldable pub all_zero : List ℕ → Bool
all_zero [] = true
all_zero (b ∷ bs) = let rest = all_zero bs in if b == 0 then rest else false

unfoldable pub unsigned_bytes : List ℕ → ℤ → Result (List ℕ)
unsigned_bytes value width =
    if ltb_ℤ width (pos 0)
    then err (wrap "negative bitwidth" (sentinel invalid_bit_width))
    else if pos_part width == 0
    then (if all_zero value
        then ok (0 ∷ [])
        else err (wrap "non-zero value for bit<0>" (sentinel invalid_bit_width)))
    else encode_bytes value width

-- The top bit of a byte.
abbrev pub has_sign : ℕ → Bool
has_sign b = not (bit_and b 128 == 0)

abbrev pub is_redundant : ℕ → ℕ → Bool
is_redundant a b = ((a == 0) && not (has_sign b)) || ((a == 255) && has_sign b)

-- The loop that takes off leading bytes that only repeat the sign.
unfoldable pub strip_sign : List ℕ → List ℕ
strip_sign [] = []
strip_sign (a ∷ []) = a ∷ []
strip_sign (a ∷ b ∷ bs) =
    let rest = strip_sign (b ∷ bs) in if is_redundant a b then rest else a ∷ b ∷ bs

-- bits.LeadingZeros8
unfoldable pub leading_zeros8 : ℕ → ℕ
leading_zeros8 b =
    if leb 128 b
    then 0
    else if leb 64 b
    then 1
    else if leb 32 b
    then 2
    else if leb 16 b
    then 3
    else if leb 8 b
    then 4
    else if leb 4 b
    then 5
    else if leb 2 b
    then 6
    else if leb 1 b
    then 7
    else 8

abbrev pub exceeds : Error
exceeds = wrap "value exceeds int" (sentinel invalid_bit_width)

-- The checks after the loop; the second comes after one that leaves a bit at least.
-- The loop leaves a byte, so that the first clause is not reached.
unfoldable pub check_signed : List ℕ → ℕ → Result (List ℕ)
check_signed [] w = err exceeds
check_signed (first ∷ rest) w =
    if ltb ((w - 1) / 8) (length rest)
    then err exceeds
    else if ltb (w - length rest * 8)
        (9 - leading_zeros8 (bit_xor first (if has_sign first then 255 else 0)))
    then err exceeds
    else ok (first ∷ rest)

unfoldable pub signed_bytes : List ℕ → ℤ → Result (List ℕ)
signed_bytes value width =
    if leb_ℤ width (pos 0)
    then err (wrap "signed bitwidth must be positive" (sentinel invalid_bit_width))
    else if length value == 0
    then ok (0 ∷ [])
    else check_signed (strip_sign value) (pos_part width)
