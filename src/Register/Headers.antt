-- ===== src/Register/Headers.antt =====
-- register/headers.go, and `bitstring` of register/data.go: the values of bit<W>, int<W> and
-- varbit<W> types, headers, header unions and their stacks, normalised by the types of the P4Info.
-- Unknown protobuf fields, which are copied, are left out.
use p4runtime_go_controller.Common.{
  ℕ, ◌+◌, ◌/◌, Bool, true, false, ◌||◌, not, List, [], ◌∷◌, Option, none, some, ◌==◌, length,
  if◌then◌else◌,
}
use p4runtime_go_controller.Common.Int.{ℤ, pos, ltb_ℤ, pos_part}
use p4runtime_go_controller.Common.Errors.{Result, ok, err, plain, wrapping, ◌>>=◌, ◌>>◌}
use p4runtime_go_controller.Pipeline.{get}
use p4runtime_go_controller.Register.{unsigned_bytes, signed_bytes}

-- P4BitstringLikeTypeSpec: `none` where the oneof holds a nil declaration.
pub data BitstringSpec : Type 0 where
  missing_spec : BitstringSpec
  bit_spec : Option ℤ → BitstringSpec
  int_spec : Option ℤ → BitstringSpec
  varbit_spec : Option ℤ → BitstringSpec

pub record Varbit : Type 0 where
  pub bitwidth : ℤ
  pub bitstring : List ℕ

-- P4Data, as far as `bitstring` tells its kinds apart.
pub data BitData : Type 0 where
  bitstring_data : List ℕ → BitData
  varbit_data : Option Varbit → BitData
  other_data : BitData

abbrev pub check_varbit : Varbit → ℤ → Result (Unit {0})
check_varbit v max_bitwidth =
    if ltb_ℤ v.bitwidth (pos 0) || ltb_ℤ max_bitwidth v.bitwidth
    then err (plain "expected P4Data.varbit with bitwidth in its range")
    else if not (length v.bitstring == (pos_part v.bitwidth + 7) / 8)
    then err (plain "varbit bitwidth requires another number of bytes")
    else ok tt

-- A varbit keeps its bytes.
abbrev pub varbit_value : Option ℤ → BitData → Result BitData
varbit_value (some max_bitwidth) (varbit_data (some v)) =
    check_varbit v max_bitwidth
    >> (wrapping "varbit" (unsigned_bytes v.bitstring v.bitwidth) >> ok (varbit_data (some v)))
varbit_value _ _ = err (plain "expected P4Data.varbit with bitwidth in its range")

abbrev pub encode_integer : BitstringSpec → List ℕ → Result (List ℕ)
encode_integer missing_spec value = err (plain "missing bitstring type declaration")
encode_integer (bit_spec none) value = err (plain "missing bit type declaration")
encode_integer (bit_spec (some w)) value = unsigned_bytes value w
encode_integer (int_spec none) value = err (plain "missing int type declaration")
encode_integer (int_spec (some w)) value = signed_bytes value w
encode_integer (varbit_spec w) value = err (plain "unsupported bitstring type declaration")

abbrev pub integer_value : BitstringSpec → BitData → Result BitData
integer_value spec (bitstring_data value) =
    encode_integer spec value >>= λ encoded. ok (bitstring_data encoded)
integer_value spec _ = err (plain "expected P4Data.bitstring")

unfoldable pub bitstring : BitstringSpec → BitData → Bool → Result BitData
bitstring missing_spec value integer_only = err (plain "missing bitstring type declaration")
bitstring (varbit_spec w) value integer_only =
    if integer_only
    then err (plain "Write requires bit<W> or int<W>, use WriteData for varbit")
    else varbit_value w value
bitstring (bit_spec w) value integer_only = integer_value (bit_spec w) value
bitstring (int_spec w) value integer_only = integer_value (int_spec w) value

-- p4.v1.P4Header and P4HeaderUnion
pub record Header : Type 0 where
  pub is_valid : Bool
  pub bitstrings : List (List ℕ)

pub record HeaderUnion : Type 0 where
  pub valid_header_name : List ℕ
  pub valid_header : Option Header

-- The header types and header union types of P4TypeInfo, by name: the types of a header's fields,
-- and the name and header type of a union's members.
pub record TypeInfo : Type 0 where
  pub headers : List (List ℕ × List BitstringSpec)
  pub header_unions : List (List ℕ × List (List ℕ × List ℕ))

abbrev pub is_varbit : BitstringSpec → Bool
is_varbit (varbit_spec w) = true
is_varbit _ = false

-- What `GetBitstring` reads of the normalised data.
abbrev pub bits_of : BitData → List ℕ
bits_of (bitstring_data value) = value
bits_of _ = []

abbrev pub header_field : BitstringSpec → List ℕ → Result (List ℕ)
header_field spec value =
    if is_varbit spec
    then err (plain "varbit has no explicit bitwidth in P4Header")
    else wrapping "header field" (bitstring spec (bitstring_data value) true) >>= λ d.
        ok (bits_of d)

-- The loop over the fields, which are as many as the values.
unfoldable pub header_fields : List BitstringSpec → List (List ℕ) → Result (List (List ℕ))
header_fields [] values = ok []
header_fields (spec ∷ specs) [] = err (plain "header requires fields")
header_fields (spec ∷ specs) (value ∷ values) =
    header_field spec value >>= λ v. header_fields specs values >>= λ vs. ok (v ∷ vs)

abbrev pub header_of : List BitstringSpec → Header → Result Header
header_of members h =
    if h.is_valid
    then (if length h.bitstrings == length members
        then (header_fields members h.bitstrings >>= λ vs.
            ok (record { is_valid = true; bitstrings = vs }))
        else err (plain "header requires fields"))
    else (if length h.bitstrings == 0
        then ok (record { is_valid = false; bitstrings = [] })
        else err (plain "invalid header must have no fields"))

-- A declaration by name; no name is empty.
abbrev pub declared : {A : Type 0} → List (List ℕ × A) → List ℕ → Option A
declared decls [] = none
declared decls (c ∷ name) = get decls (c ∷ name)

abbrev pub header_from : Option (List BitstringSpec) → Option Header → Result Header
header_from none value = err (plain "unknown header type")
header_from (some members) none = err (plain "expected P4Data.header")
header_from (some members) (some h) = header_of members h

unfoldable pub header : TypeInfo → List ℕ → Option Header → Result Header
header types name value = header_from (declared types.headers name) value

-- The header type of the member that a union's value names: the first member of that name.
abbrev pub member_header : List (List ℕ × List ℕ) → List ℕ → List ℕ
member_header members name = elim (get members name) [ none ↦ [] | some header_name ↦ header_name ]

abbrev pub is_valid_header : Option Header → Bool
is_valid_header none = false
is_valid_header (some h) = h.is_valid

abbrev pub union_of : TypeInfo → List (List ℕ × List ℕ) → HeaderUnion → Result HeaderUnion
union_of types members u =
    if length u.valid_header_name == 0
    then elim u.valid_header [
      | none ↦ ok (record { valid_header_name = u.valid_header_name; valid_header = none })
      | some h ↦ err (plain "invalid header union must have no valid_header")
    ]
    else if (length (member_header members u.valid_header_name) == 0)
        || not (is_valid_header u.valid_header)
    then err (plain "header union requires a valid declared header")
    else (header types (member_header members u.valid_header_name) u.valid_header >>= λ h.
        ok (record { valid_header_name = u.valid_header_name; valid_header = some h }))

abbrev pub union_from :
    TypeInfo → Option (List (List ℕ × List ℕ)) → Option HeaderUnion → Result HeaderUnion
union_from types none value = err (plain "unknown header union type")
union_from types (some members) none = err (plain "expected P4Data.header_union")
union_from types (some members) (some u) = union_of types members u

unfoldable pub header_union : TypeInfo → List ℕ → Option HeaderUnion → Result HeaderUnion
header_union types name value = union_from types (declared types.header_unions name) value

-- P4HeaderStackTypeSpec and its sibling for unions: a size and the name of the entries' type.
pub record StackSpec : Type 0 where
  pub size : ℤ
  pub name : List ℕ

unfoldable pub stack_entries :
    {A : Type 0} → (Option A → Result A) → List (Option A) → Result (List A)
stack_entries normalize [] = ok []
stack_entries normalize (entry ∷ entries) = wrapping "stack entry" (normalize entry) >>= λ a.
    stack_entries normalize entries >>= λ rest. ok (a ∷ rest)

-- The checks that the two kinds of stack share: the entries are as many as the size says, which is
-- not negative, and the type is declared.
abbrev pub stack_of :
    {A B : Type 0}
    → (Option A → Result A)
    → List (List ℕ × B)
    → Option StackSpec
    → Option (List (Option A))
    → Result (List A)
stack_of normalize decls (some spec) (some entries) =
    if ltb_ℤ spec.size (pos 0) || not (length entries == pos_part spec.size)
    then err (plain "expected P4Data with as many entries as the stack")
    else elim (declared decls spec.name) [
      | none ↦ err (plain "unknown type")
      | some decl ↦ stack_entries normalize entries
    ]
stack_of normalize decls _ _ = err (plain "expected P4Data with as many entries as the stack")

unfoldable pub header_stack :
    TypeInfo → Option StackSpec → Option (List (Option Header)) → Result (List Header)
header_stack types spec value =
    stack_of (header types (elim spec [ none ↦ [] | some s ↦ s.name ])) types.headers spec value

unfoldable pub header_union_stack :
    TypeInfo → Option StackSpec → Option (List (Option HeaderUnion)) → Result (List HeaderUnion)
header_union_stack types spec value =
    stack_of (header_union types (elim spec [ none ↦ [] | some s ↦ s.name ])) types.header_unions
      spec value
