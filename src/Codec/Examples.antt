-- ===== src/Codec/Examples.antt =====
-- Tests of the codec on bytes that can be followed in internal/codec/codec.go, and the codec's
-- theorems at concrete inputs.
use p4runtime_go_controller.Common.{ℕ, ◌≡◌, refl, List, [], ◌∷◌, arith}
use p4runtime_go_controller.Common.Int.{pos}
use p4runtime_go_controller.Common.Errors.{ok, ◌>>=◌}
use p4runtime_go_controller.Codec.{
  drop_zeros, check_width, encode_bytes, encode_uint, decode_uint, lpm_mask, ternary_mask,
  ternary_apply, validate_range, strip_leading_zeros, clear_reversed, clear_low_bits,
}
use p4runtime_go_controller.Codec.Value.{value_of}
use p4runtime_go_controller.Codec.Encode.{EncodesAt, encode_bytes_exact}
use p4runtime_go_controller.Codec.Uint.{decode-encode_uint, encode_uint-encode_bytes}
use p4runtime_go_controller.Codec.Mask.{Masks, lpm_mask-Masks}
use p4runtime_go_controller.Codec.Apply.{Conjoins, ternary_apply-Conjoins}
use p4runtime_go_controller.Codec.Range.{ChecksRange, validate_range-ChecksRange}
use p4runtime_go_controller.Codec.Hex.{parse_hex, format_hex}
use p4runtime_go_controller.Codec.Hex.RoundTrip.{parse-format_hex}

abbrev nine_bits : List ℕ
nine_bits = 0 ∷ 1 ∷ 255 ∷ []

encode_nine_bits : encode_bytes nine_bits (pos 9) ≡ ok (1 ∷ 255 ∷ [])
unfolding encode_bytes check_width drop_zeros
encode_nine_bits = refl

mask_nine_bits : lpm_mask nine_bits (pos 2) (pos 9) ≡ ok (1 ∷ 128 ∷ [])
unfolding lpm_mask encode_bytes check_width drop_zeros clear_low_bits clear_reversed
    strip_leading_zeros
mask_nine_bits = refl

ones_nine_bits : ternary_mask (pos 2) (pos 9) ≡ ok (1 ∷ 128 ∷ [])
unfolding ternary_mask drop_zeros clear_low_bits clear_reversed strip_leading_zeros
ones_nine_bits = refl

encode_bytes_exact_example : EncodesAt (pos 9) (value_of nine_bits) (encode_bytes nine_bits (pos 9))
encode_bytes_exact_example = encode_bytes_exact nine_bits (pos 9) (omega arith)

decode-encode_uint_example : (encode_uint 511 (pos 9) >>= decode_uint) ≡ ok 511
decode-encode_uint_example =
    decode-encode_uint 511 9 (omega arith) (omega arith) (omega arith) (omega arith)

encode_uint-encode_bytes_example : encode_uint 511 (pos 9) ≡ encode_bytes nine_bits (pos 9)
unfolding value_of
encode_uint-encode_bytes_example =
    encode_uint-encode_bytes 511 9 nine_bits (omega arith) (omega arith) (omega arith) (omega arith)
      (omega arith) (omega arith)

lpm_mask-Masks_example : Masks 2 9 (value_of nine_bits) (lpm_mask nine_bits (pos 2) (pos 9))
lpm_mask-Masks_example = lpm_mask-Masks nine_bits 2 9 (omega arith) (omega arith) (omega arith)

ternary_apply-Conjoins_example :
    Conjoins 9 (value_of nine_bits) (value_of (15 ∷ [])) (ternary_apply nine_bits (15 ∷ []) (pos 9))
ternary_apply-Conjoins_example =
    ternary_apply-Conjoins nine_bits (15 ∷ []) 9 (omega arith) (omega arith) (omega arith)

validate_range-ChecksRange_example :
    ChecksRange 9
      (value_of (15 ∷ []))
      (value_of nine_bits)
      (validate_range (15 ∷ []) nine_bits (pos 9))
validate_range-ChecksRange_example =
    validate_range-ChecksRange (15 ∷ []) nine_bits 9 (omega arith) (omega arith) (omega arith)

parse-format_hex_example : parse_hex (format_hex nine_bits) ≡ ok (strip_leading_zeros nine_bits)
parse-format_hex_example = parse-format_hex nine_bits (omega arith)

abbrev address : List ℕ
address = 0 ∷ 17 ∷ 34 ∷ 51 ∷ 68 ∷ 85 ∷ []
