-- ===== src/Match.antt =====
-- tableentry/matchvalue.go, and encodeField of tableentry/builder.go: the match values of a caller and
-- their encoding for a field of the table. The texts of errors are kept up to what they name.
pub mod FullRange
pub mod Admits
mod Examples
use mathlib.Core.Logic.{ite}
use p4runtime_go_controller.Common.{
  ℕ, zero, ◌+◌, ◌-◌, ◌/◌, ◌%◌, ◌^◌, Bool, true, false, ◌||◌, not, List, [], ◌∷◌, Option, none, some,
  ◌==◌, if◌then◌else◌, length,
}
use p4runtime_go_controller.Common.Int.{ℤ, pos, pos_part}
use p4runtime_go_controller.Common.Errors.{
  Error, Result, ok, err, sentinel, plain, unsupported_match_kind, ◌>>=◌, ◌>>◌, wrapping,
}
use p4runtime_go_controller.Codec.{encode_bytes, lpm_mask, ternary_apply, validate_range}
use p4runtime_go_controller.Pipeline.{
  MatchType, MatchType-discrete, exact, lpm, ternary, range, optional, MatchFieldDef,
}

-- `foreign` is a nil value of the interface.
pub data MatchValue : Type 0 where
  exact_match : List ℕ → MatchValue
  lpm_match : List ℕ → ℤ → MatchValue
  ternary_match : List ℕ → List ℕ → MatchValue
  range_match : List ℕ → List ℕ → MatchValue
  optional_match : Option (List ℕ) → MatchValue
  foreign : MatchValue

-- p4.v1.FieldMatch
pub data FieldMatchType : Type 0 where
  exact_value : List ℕ → FieldMatchType
  lpm_value : List ℕ → ℤ → FieldMatchType
  ternary_value : List ℕ → List ℕ → FieldMatchType
  range_value : List ℕ → List ℕ → FieldMatchType
  optional_value : List ℕ → FieldMatchType

pub record FieldMatch : Type 0 where
  pub field_id : ℕ
  pub field_match_type : FieldMatchType

unfoldable pub all_zero : List ℕ → Bool
all_zero [] = true
all_zero (c ∷ b) = if not (c == 0) then false else all_zero b

unfoldable pub all_ones : List ℕ → Bool
all_ones [] = true
all_ones (c ∷ b) = if not (c == 255) then false else all_ones b

abbrev pub first_ones : ℕ → ℕ
first_ones bitwidth = if not (bitwidth % 8 == 0) then (2 ^ (bitwidth % 8) - 1) % 256 else 255

-- An empty `high` ends the code in a panic; the callers pass canonical endpoints.
unfoldable pub is_full_range : List ℕ → List ℕ → ℕ → Bool
is_full_range low [] bitwidth = false
is_full_range low (first ∷ rest) bitwidth =
    if not (all_zero low) || not (length (first ∷ rest) == (bitwidth - 1) / 8 + 1)
    then false
    else if not (first == first_ones bitwidth)
    then false
    else all_ones rest

-- `mf.MatchType != kind`
abbrev pub is_kind : MatchFieldDef → MatchType → Bool
is_kind mf kind = ite (MatchType-discrete mf.match_type kind) true false

abbrev pub wrong_kind : Error
wrong_kind = sentinel unsupported_match_kind

abbrev pub as_field : MatchFieldDef → FieldMatchType → Result (Option FieldMatch)
as_field mf m = ok (some (record { field_id = mf.id; field_match_type = m }))

abbrev pub encode_exact : MatchFieldDef → List ℕ → Result (Option FieldMatch)
encode_exact mf value = do
  canon ← wrapping "match" (encode_bytes value mf.bitwidth)
  if not (is_kind mf exact) then err wrong_kind else as_field mf (exact_value canon)

abbrev pub encode_lpm : MatchFieldDef → List ℕ → ℤ → Result (Option FieldMatch)
encode_lpm mf value (pos zero) = ok none
encode_lpm mf value prefix_len = do
  canon ← wrapping "match" (lpm_mask value prefix_len mf.bitwidth)
  as_field mf (lpm_value canon prefix_len)

abbrev pub encode_ternary : MatchFieldDef → List ℕ → List ℕ → Result (Option FieldMatch)
encode_ternary mf value mask = do
  applied ← wrapping "match" (ternary_apply value mask mf.bitwidth)
  m ← wrapping "match mask" (encode_bytes mask mf.bitwidth)
  as_field mf (ternary_value applied m)

abbrev pub encode_range : MatchFieldDef → List ℕ → List ℕ → Result (Option FieldMatch)
encode_range mf low high = do
  wrapping "match" (validate_range low high mf.bitwidth)
  l ← wrapping "match low" (encode_bytes low mf.bitwidth)
  h ← wrapping "match high" (encode_bytes high mf.bitwidth)
  if is_full_range l h (pos_part mf.bitwidth) then ok none else as_field mf (range_value l h)

abbrev pub encode_optional : MatchFieldDef → Option (List ℕ) → Result (Option FieldMatch)
encode_optional mf none = ok none
encode_optional mf (some value) = do
  canon ← wrapping "match" (encode_bytes value mf.bitwidth)
  as_field mf (optional_value canon)

-- `none` for a constraint that is left out of the entry.
unfoldable pub encode_field : MatchFieldDef → MatchValue → Result (Option FieldMatch)
encode_field mf (exact_match value) = encode_exact mf value
encode_field mf (lpm_match value prefix_len) =
    if not (is_kind mf lpm) then err wrong_kind else encode_lpm mf value prefix_len
encode_field mf (ternary_match value mask) =
    if not (is_kind mf ternary)
    then err wrong_kind
    else if all_zero mask
    then ok none
    else encode_ternary mf value mask
encode_field mf (range_match low high) =
    if not (is_kind mf range) then err wrong_kind else encode_range mf low high
encode_field mf (optional_match value) =
    if not (is_kind mf optional) then err wrong_kind else encode_optional mf value
encode_field mf foreign = err (plain "unrecognized match type")
