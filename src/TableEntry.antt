-- ===== src/TableEntry.antt =====
-- tableentry/builder.go: the builder of table entries. The builder is a record, its methods are
-- functions on it; its maps are lists with one binding per name. A Go map is ranged over in any
-- order, which decides at most the name in an error's text; the texts of errors are kept up to what
-- they name.
pub mod Entry
pub mod Guards
mod Examples
use p4runtime_go_controller.Common.{
  ℕ, ◌≡◌, Bool, true, false, ◌&&◌, ◌||◌, not, List, [], ◌∷◌, Option, none, some, ltb, leb, ◌==◌,
  if◌then◌else◌, find?,
}
use p4runtime_go_controller.Common.Int.{ℤ, pos, negsuc, ltb_ℤ, leb_ℤ}
use p4runtime_go_controller.Common.Text.{same_text}
use p4runtime_go_controller.Common.Errors.{
  Error, Result, ok, err, sentinel, plain, invalid_match_field, invalid_action_param, ◌>>=◌, ◌>>◌,
  wrapping,
}
use p4runtime_go_controller.Codec.{encode_bytes}
use p4runtime_go_controller.Pipeline.{
  exact, ternary, range, optional, MatchFieldDef, TableDef, ActionDef, ActionRef, ActionParamDef,
  Scope, table_and_default, table_only, default_only, other_scope, Pipeline, get, table, action,
  has_field, has_param,
}
use p4runtime_go_controller.Match.{MatchValue, FieldMatch, encode_field, is_kind}

pub record ActionSpec : Type 0 where
  pub name : List ℕ
  pub params : List (List ℕ × List ℕ)

pub record Builder : Type 0 where
  pub pipeline : Option Pipeline
  pub table : Result TableDef
  pub matches : List (List ℕ × MatchValue)
  pub action : Option ActionSpec
  pub priority : ℤ
  pub timeout : ℤ
  pub is_default : Bool
  pub metadata : List ℕ

-- p4.v1.Action
pub record ActionEntry : Type 0 where
  pub action_id : ℕ
  pub params : List (ℕ × List ℕ)

-- p4.v1.TableEntry; `action` is the direct action.
pub record TableEntry : Type 0 where
  pub table_id : ℕ
  pub matches : List FieldMatch
  pub action : Option ActionEntry
  pub priority : ℤ
  pub is_default_action : Bool
  pub idle_timeout_ns : ℤ
  pub metadata : List ℕ

abbrev pub found_table : Option TableDef → Result TableDef
found_table none = err (plain "tableentry: table not in pipeline")
found_table (some td) = ok td

abbrev pub find_table : Option Pipeline → List ℕ → Result TableDef
find_table none name = err (plain "tableentry: nil pipeline")
find_table (some p) name = found_table (table p name)

unfoldable pub new_builder : Option Pipeline → List ℕ → Builder
new_builder p name = record {
  pipeline = p;
  table = find_table p name;
  matches = [];
  action = none;
  priority = pos 0;
  timeout = pos 0;
  is_default = false;
  metadata = [];
}

-- An assignment to a Go map.
unfoldable pub put : {A : Type 0} → List (List ℕ × A) → List ℕ → A → List (List ℕ × A)
put [] name a = (name, a) ∷ []
put ((k, b) ∷ m) name a =
    let rest = put m name a in if same_text k name then (k, a) ∷ m else (k, b) ∷ rest

unfoldable pub match : Builder → List ℕ → MatchValue → Builder
match b field v = record b { matches = put b.matches field v }

abbrev pub append_field : Option FieldMatch → List FieldMatch → List FieldMatch
append_field none rest = rest
append_field (some m) rest = m ∷ rest

-- The first loop of `encodeMatches`, over the fields in the order of their IDs.
unfoldable pub encode_matches :
    List MatchFieldDef → List (List ℕ × MatchValue) → Result (List FieldMatch)
encode_matches [] matches = ok []
encode_matches (mf ∷ order) matches = elim (get matches mf.name) [
  | none ↦
      if is_kind mf exact then err (sentinel invalid_match_field) else encode_matches order matches
  | some mv ↦ do
    fm ← encode_field mf mv
    rest ← encode_matches order matches
    ok (append_field fm rest)
]

-- `sort.SliceStable` by ID.
unfoldable pub insert_field : MatchFieldDef → List MatchFieldDef → List MatchFieldDef
insert_field f [] = f ∷ []
insert_field f (g ∷ order) =
    let rest = insert_field f order in if ltb g.id f.id then g ∷ rest else f ∷ g ∷ order

unfoldable pub sort_fields : List MatchFieldDef → List MatchFieldDef
sort_fields [] = []
sort_fields (f ∷ fields) = insert_field f (sort_fields fields)

-- The loops that look for a name that the table, or the action, does not have.
unfoldable pub all_known : {A : Type 0} → (List ℕ → Bool) → List (List ℕ × A) → Bool
all_known known [] = true
all_known known ((name, a) ∷ m) = if not (known name) then false else all_known known m

unfoldable pub checked_matches : TableDef → List (List ℕ × MatchValue) → Result (List FieldMatch)
checked_matches td matches = do
  fields ← encode_matches (sort_fields td.match_fields) matches
  if all_known (has_field td.match_fields) matches
      then ok fields
      else err (sentinel invalid_match_field)

-- Whether one of the fields is TERNARY, RANGE or OPTIONAL.
unfoldable pub needs_priority : List MatchFieldDef → Bool
needs_priority [] = false
needs_priority (m ∷ fields) =
    if is_kind m ternary || is_kind m range || is_kind m optional
    then true
    else needs_priority fields

abbrev pub key_entry : TableDef → Bool → List FieldMatch → ℤ → TableEntry
key_entry td is_default fields priority = record {
  table_id = td.id;
  matches = fields;
  action = none;
  priority = priority;
  is_default_action = is_default;
  idle_timeout_ns = pos 0;
  metadata = [];
}

abbrev pub with_priority : Builder → TableDef → List FieldMatch → Result TableEntry
with_priority b td fields =
    if needs_priority td.match_fields
    then (if leb_ℤ b.priority (pos 0)
        then err (plain "tableentry: table requires positive priority")
        else ok (key_entry td false fields b.priority))
    else if not (leb_ℤ b.priority (pos 0) && leb_ℤ (pos 0) b.priority)
    then err (plain "tableentry: table requires zero priority")
    else ok (key_entry td false fields (pos 0))

unfoldable pub key_of : Builder → TableDef → Result TableEntry
key_of b td =
    if b.is_default
    then ok (key_entry td true [] (pos 0))
    else checked_matches td b.matches >>= with_priority b td

unfoldable pub build_key : Builder → Result TableEntry
build_key b = b.table >>= key_of b

unfoldable pub validate_idle_timeout : Builder → TableDef → Result (Unit {0})
validate_idle_timeout b td =
    if ltb_ℤ b.timeout (pos 0)
    then err (plain "tableentry.Build: negative idle timeout")
    else if leb_ℤ b.timeout (pos 0)
    then ok tt
    else if b.is_default
    then err (plain "tableentry.Build: default entries require zero idle timeout")
    else if not td.notify_control
    then err (plain "tableentry.Build: table does not support idle timeout")
    else ok tt

-- The switch over the scope of an action on its table.
unfoldable pub scope_allows : Scope → Bool → Bool
scope_allows table_and_default is_default = true
scope_allows table_only is_default = not is_default
scope_allows default_only is_default = is_default
scope_allows other_scope is_default = false

-- The loop over the parameters that the action declares.
unfoldable pub encode_params :
    List ActionParamDef → List (List ℕ × List ℕ) → Result (List (ℕ × List ℕ))
encode_params [] given = ok []
encode_params (pdef ∷ params) given = elim (get given pdef.name) [
  | none ↦ err (sentinel invalid_action_param)
  | some value ↦ do
    canon ← wrapping "action param" (encode_bytes value pdef.bitwidth)
    rest ← encode_params params given
    ok ((pdef.id, canon) ∷ rest)
]

abbrev pub encode_call : ActionDef → ActionSpec → Result ActionEntry
encode_call act spec = do
  params ← encode_params act.params spec.params
  if all_known (has_param act.params) spec.params
      then ok (record { action_id = act.id; params = params })
      else err (sentinel invalid_action_param)

abbrev pub scoped_call : Option ActionRef → Bool → ActionDef → ActionSpec → Result ActionEntry
scoped_call none is_default act spec = err (plain "tableentry.Build: action not on table")
scoped_call (some ref) is_default act spec =
    if scope_allows ref.scope is_default
    then encode_call act spec
    else err (plain "tableentry.Build: scope")

abbrev pub found_call : Option ActionDef → TableDef → Bool → ActionSpec → Result ActionEntry
found_call none td is_default spec = err (plain "tableentry.Build: action not in pipeline")
found_call (some act) td is_default spec =
    scoped_call (find? (λ r. r.id == act.id) td.action_refs) is_default act spec

unfoldable pub encode_action : Option Pipeline → TableDef → Bool → ActionSpec → Result ActionEntry
encode_action none td is_default spec =
    err (plain "tableentry.Build: pipeline required to encode action")
encode_action (some p) td is_default spec =
    if (if is_default then not (td.const_default_action_id == 0) else td.is_const)
    then err (plain "tableentry.Build: constant table or default action")
    else if not (td.implementation_id == 0)
    then err (plain "tableentry.Build: indirect table")
    else found_call (action p spec.name) td is_default spec

abbrev pub require_action : Option ActionSpec → Result ActionSpec
require_action none = err (plain "tableentry.Build: action required")
require_action (some spec) = ok spec

unfoldable pub build : Builder → Result TableEntry
build b = do
  entry ← build_key b
  td ← b.table
  validate_idle_timeout b td
  spec ← require_action b.action
  act ← encode_action b.pipeline td b.is_default spec
  ok (record entry { idle_timeout_ns = b.timeout; metadata = b.metadata; action = some act })

-- The options of a builder.
unfoldable pub put_params : List (List ℕ × List ℕ) → List (List ℕ × List ℕ) → List (List ℕ × List ℕ)
put_params m [] = m
put_params m ((name, value) ∷ params) = put_params (put m name value) params

unfoldable pub set_action : Builder → List ℕ → List (List ℕ × List ℕ) → Builder
set_action b name params = record b {
  action = some (record { name = name; params = put_params [] params });
}

unfoldable pub set_priority : Builder → ℤ → Builder
set_priority b p = record b { priority = p }

unfoldable pub idle_timeout : Builder → ℤ → Builder
idle_timeout b ns = record b { timeout = ns }

unfoldable pub as_default : Builder → Builder
as_default b = record b { is_default = true }

unfoldable pub set_metadata : Builder → List ℕ → Builder
set_metadata b m = record b { metadata = m }
