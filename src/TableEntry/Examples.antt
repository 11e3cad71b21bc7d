-- ===== src/TableEntry/Examples.antt =====
-- A table with an LPM and a ternary field, and an entry of it.
use p4runtime_go_controller.Common.{ℕ, ◌≡◌, ◌↔◌, refl, false, [], ◌∷◌, none, some, arith, All}
use p4runtime_go_controller.Common.Int.{pos}
use p4runtime_go_controller.Common.Text.{codes, same_text}
use p4runtime_go_controller.Common.Errors.{ok}
use p4runtime_go_controller.Codec.{
  drop_zeros, check_width, encode_bytes, lpm_mask, clear_low_bits, clear_reversed,
  strip_leading_zeros, ternary_apply, apply_from,
}
use p4runtime_go_controller.Pipeline.{
  Pipeline, P4Info, empty_info, MatchFieldDef, MatchType-discrete, lpm, ternary, TableDef,
  ActionDef, table_and_default, get, index, index_names, index_ids, table, action, has_field,
  has_param,
}
use p4runtime_go_controller.Match.{
  lpm_match, ternary_match, lpm_value, ternary_value, encode_field, all_zero,
}
use p4runtime_go_controller.TableEntry.{
  Builder, TableEntry, new_builder, match, put, set_priority, set_action, put_params,
  encode_matches, insert_field, sort_fields, all_known, checked_matches, needs_priority, key_of,
  build_key, build, validate_idle_timeout, scope_allows, encode_params, encode_action,
}
use p4runtime_go_controller.TableEntry.Entry.{AdmitsMatch, RequestsField, build_key-Admits}
use p4runtime_go_controller.TableEntry.Guards.{KeyObeys, build_key-KeyObeys}

abbrev source : MatchFieldDef
source = record { id = 2; name = codes "src"; bitwidth = pos 16; match_type = ternary }

abbrev destination : MatchFieldDef
destination = record { id = 1; name = codes "dst"; bitwidth = pos 16; match_type = lpm }

abbrev routes : TableDef
routes = record {
  id = 33;
  name = codes "routes";
  alias = [];
  is_const = false;
  match_fields = source ∷ destination ∷ [];
  action_refs = record { id = 5; scope = table_and_default } ∷ [];
  notify_control = false;
  const_default_action_id = 0;
  implementation_id = 0;
}

abbrev forward : ActionDef
forward = record {
  id = 5;
  name = codes "forward";
  alias = [];
  params = record { id = 1; name = codes "port"; bitwidth = pos 9 } ∷ [];
}

abbrev info : P4Info
info = record empty_info { actions = forward ∷ []; tables = routes ∷ [] }

abbrev pipeline : Pipeline
pipeline = index info

abbrev builder : Builder
builder = record {
  pipeline = some pipeline;
  table = ok routes;
  matches =
      (codes "src", ternary_match (18 ∷ 52 ∷ []) (255 ∷ 0 ∷ []))
      ∷ (codes "dst", lpm_match (10 ∷ 77 ∷ []) (pos 8))
      ∷ [];
  action = some (record { name = codes "forward"; params = (codes "port", 0 ∷ 3 ∷ []) ∷ [] });
  priority = pos 7;
  timeout = pos 0;
  is_default = false;
  metadata = [];
}

abbrev entry : TableEntry
entry = record {
  table_id = 33;
  matches =
      record { field_id = 1; field_match_type = lpm_value (10 ∷ 0 ∷ []) (pos 8) }
      ∷ record { field_id = 2; field_match_type = ternary_value (18 ∷ 0 ∷ []) (255 ∷ 0 ∷ []) }
      ∷ [];
  action = none;
  priority = pos 7;
  is_default_action = false;
  idle_timeout_ns = pos 0;
  metadata = [];
}

fills_builder :
    set_action
      (set_priority
        (match
          (match
            (new_builder (some pipeline) (codes "routes"))
            (codes "src")
            (ternary_match (18 ∷ 52 ∷ []) (255 ∷ 0 ∷ [])))
          (codes "dst")
          (lpm_match (10 ∷ 77 ∷ []) (pos 8)))
        (pos 7))
      (codes "forward")
      ((codes "port", 0 ∷ 3 ∷ []) ∷ [])
    ≡ builder
unfolding set_action set_priority match new_builder index index_names index_ids table get same_text
    put put_params
fills_builder = refl

builds_key : build_key builder ≡ ok entry
unfolding build_key key_of checked_matches encode_matches sort_fields insert_field all_known
    has_field needs_priority get same_text encode_field MatchType-discrete all_zero lpm_mask
    ternary_apply apply_from encode_bytes check_width drop_zeros clear_low_bits clear_reversed
    strip_leading_zeros
builds_key = refl

builds_entry :
    build builder
    ≡ ok (record entry { action = some (record { action_id = 5; params = (1, 3 ∷ []) ∷ [] }) })
unfolding build build_key key_of checked_matches encode_matches sort_fields insert_field all_known
    has_field needs_priority get same_text encode_field MatchType-discrete all_zero lpm_mask
    ternary_apply apply_from encode_bytes check_width drop_zeros clear_low_bits clear_reversed
    strip_leading_zeros validate_idle_timeout scope_allows encode_params encode_action action
    has_param index index_names index_ids
builds_entry = refl

abbrev widths : ℕ → ℕ
widths id = 16

abbrev packet : ℕ → ℕ
packet id = 2560

build_key-Admits_example :
    All (AdmitsMatch widths packet) entry.matches
    ↔ All (RequestsField widths packet builder.matches) routes.match_fields
build_key-Admits_example =
    build_key-Admits widths packet builder routes entry refl refl
      (
        record { positive = omega arith; bits = refl; fits = omega arith },
        (record { positive = omega arith; bits = refl; fits = omega arith }, tt),
      )
      (
        ((omega arith, (omega arith, tt)), (omega arith, (omega arith, tt))),
        ((omega arith, (omega arith, tt)), tt),
      )
      builds_key

build_key-KeyObeys_example : KeyObeys builder routes entry
build_key-KeyObeys_example = build_key-KeyObeys builder routes entry refl builds_key
