-- ===== src/Register/Examples.antt =====
-- bit<W> and int<W> bytes at concrete inputs.
use p4runtime_go_controller.Common.{
  none, ℕ, ◌≡◌, refl, List, [], ◌∷◌, map, true, false, Option, some, arith,
}
use p4runtime_go_controller.Common.Int.{pos, negsuc}
use p4runtime_go_controller.Common.Errors.{ok, err}
use p4runtime_go_controller.Codec.Value.{value_of}
use p4runtime_go_controller.Register.{
  strip_sign, check_signed, leading_zeros8, exceeds, signed_bytes, unsigned_bytes,
}
use p4runtime_go_controller.Common.Text.{codes, same_text}
use p4runtime_go_controller.Codec.{encode_bytes, drop_zeros, check_width}
use p4runtime_go_controller.Pipeline.{get}
use p4runtime_go_controller.Register.Headers.{
  HeaderUnion, header_union, header_union_stack, bit_spec, int_spec, bitstring, Header, TypeInfo,
  header, header_fields, StackSpec, stack_entries, header_stack,
}
use p4runtime_go_controller.Register.Normalised.{header_stack_again}
use p4runtime_go_controller.Register.Unions.{header_union_stack_again}
use p4runtime_go_controller.Register.Signed.{signed_of}
use p4runtime_go_controller.Register.Signed.Encoding.{SignedEncodes, signed_bytes-SignedEncodes}

-- -129 in three bytes
abbrev below_a_byte : List ℕ
below_a_byte = 255 ∷ 255 ∷ 127 ∷ []

stands_for : signed_of below_a_byte ≡ negsuc 128
unfolding signed_of value_of
stands_for = refl

needs_nine_bits : signed_bytes below_a_byte (pos 8) ≡ err exceeds
unfolding signed_bytes strip_sign check_signed leading_zeros8
needs_nine_bits = refl

fits_nine_bits : signed_bytes below_a_byte (pos 9) ≡ ok (255 ∷ 127 ∷ [])
unfolding signed_bytes strip_sign check_signed leading_zeros8
fits_nine_bits = refl

signed_bytes-SignedEncodes_example :
    SignedEncodes 9 (signed_of below_a_byte) (signed_bytes below_a_byte (pos 9))
signed_bytes-SignedEncodes_example =
    signed_bytes-SignedEncodes below_a_byte 9 (omega arith)
      (omega arith, (omega arith, (omega arith, tt)))

abbrev types : TypeInfo
types = record {
  headers = (codes "h", bit_spec (some (pos 8)) ∷ int_spec (some (pos 16)) ∷ []) ∷ [];
  header_unions = (codes "u", (codes "first", codes "h") ∷ []) ∷ [];
}

abbrev entries : List (Option Header)
entries =
    some (record { is_valid = true; bitstrings = (0 ∷ 3 ∷ []) ∷ (255 ∷ 255 ∷ []) ∷ [] })
    ∷ some (record { is_valid = false; bitstrings = [] })
    ∷ []

abbrev shortest : List Header
shortest =
    record { is_valid = true; bitstrings = (3 ∷ []) ∷ (255 ∷ []) ∷ [] }
    ∷ record { is_valid = false; bitstrings = [] }
    ∷ []

abbrev stack : Option StackSpec
stack = some (record { size = pos 2; name = codes "h" })

normalises_a_stack : header_stack types stack (some entries) ≡ ok shortest
unfolding header_stack header stack_entries header_fields bitstring get same_text unsigned_bytes
    encode_bytes drop_zeros check_width signed_bytes strip_sign check_signed leading_zeros8
normalises_a_stack = refl

accepts_the_stack_again : header_stack types stack (some (map some shortest)) ≡ ok shortest
accepts_the_stack_again = header_stack_again types stack (some entries) shortest normalises_a_stack

abbrev unions : List (Option HeaderUnion)
unions =
    some (record {
      valid_header_name = codes "first";
      valid_header =
          some (record { is_valid = true; bitstrings = (0 ∷ 3 ∷ []) ∷ (255 ∷ 255 ∷ []) ∷ [] });
    })
    ∷ some (record { valid_header_name = []; valid_header = none })
    ∷ []

abbrev shortest_unions : List HeaderUnion
shortest_unions =
    record {
      valid_header_name = codes "first";
      valid_header = some (record { is_valid = true; bitstrings = (3 ∷ []) ∷ (255 ∷ []) ∷ [] });
    }
    ∷ record { valid_header_name = []; valid_header = none }
    ∷ []

abbrev union_stack : Option StackSpec
union_stack = some (record { size = pos 2; name = codes "u" })

normalises_a_union_stack : header_union_stack types union_stack (some unions) ≡ ok shortest_unions
unfolding header_union_stack header_union header stack_entries header_fields bitstring get same_text
    unsigned_bytes encode_bytes drop_zeros check_width signed_bytes strip_sign check_signed
    leading_zeros8
normalises_a_union_stack = refl

header_union_stack_again_example :
    header_union_stack types union_stack (some (map some shortest_unions)) ≡ ok shortest_unions
header_union_stack_again_example =
    header_union_stack_again types union_stack (some unions) shortest_unions
      normalises_a_union_stack
