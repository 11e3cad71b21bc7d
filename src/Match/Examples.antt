-- ===== src/Match/Examples.antt =====
-- The encoding of match values at concrete fields.
use p4runtime_go_controller.Common.{◌+◌, ◌*◌, ◌≡◌, ◌↔◌, refl, [], ◌∷◌, Option, none, some, arith}
use p4runtime_go_controller.Common.Int.{pos}
use p4runtime_go_controller.Common.Text.{codes}
use p4runtime_go_controller.Common.Errors.{ok}
use p4runtime_go_controller.Codec.{
  drop_zeros, check_width, encode_bytes, lpm_mask, clear_low_bits, clear_reversed,
  strip_leading_zeros, validate_range, bytes_above,
}
use p4runtime_go_controller.Pipeline.{MatchFieldDef, MatchType-discrete, lpm, range}
use p4runtime_go_controller.Match.{
  lpm_match, range_match, FieldMatch, lpm_value, encode_field, is_full_range, all_zero, all_ones,
}
use p4runtime_go_controller.Match.Admits.{AdmitsField, Requests, encode_field-Admits}

abbrev destination : MatchFieldDef
destination = record { id = 1; name = codes "dst"; bitwidth = pos 16; match_type = lpm }

abbrev ports : MatchFieldDef
ports = record { id = 2; name = codes "port"; bitwidth = pos 9; match_type = range }

abbrev encoded : Option FieldMatch
encoded = some (record { field_id = 1; field_match_type = lpm_value (10 ∷ 0 ∷ []) (pos 8) })

encodes_prefix : encode_field destination (lpm_match (10 ∷ 77 ∷ []) (pos 8)) ≡ ok encoded
unfolding encode_field MatchType-discrete lpm_mask encode_bytes check_width drop_zeros
    clear_low_bits clear_reversed strip_leading_zeros
encodes_prefix = refl

-- The whole range of 9 bits is left out.
encodes_all_ports : encode_field ports (range_match (0 ∷ []) (1 ∷ 255 ∷ [])) ≡ ok none
unfolding encode_field MatchType-discrete validate_range encode_bytes check_width drop_zeros
    bytes_above is_full_range all_zero all_ones
encodes_all_ports = refl

encode_field-Admits_example :
    AdmitsField 16 (10 * 256 + 3) encoded
    ↔ Requests 16 (10 * 256 + 3) (lpm_match (10 ∷ 77 ∷ []) (pos 8))
encode_field-Admits_example =
    encode_field-Admits destination 16 (lpm_match (10 ∷ 77 ∷ []) (pos 8)) encoded (10 * 256 + 3)
      (omega arith) refl (omega arith, (omega arith, tt)) encodes_prefix (omega arith)
