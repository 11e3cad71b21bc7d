-- ===== src/Register/Normalised.antt =====
-- What register/headers.go normalises, normalised again.
use p4runtime_go_controller.Common.{
  ℕ, suc, ◌≡◌, ◌↔◌, refl, subst, ap, Bool, true, false, List, [], ◌∷◌, map, Option, none, some,
  ◌==◌, length, if◌then◌else◌, arith,
}
use p4runtime_go_controller.Common.Errors.{
  Result, ok, err, bind-ok, ok-injective, plain, wrapping, wrapping-ok, ◌>>=◌,
}
use p4runtime_go_controller.Register.Headers.{
  bits_of, BitstringSpec, missing_spec, bit_spec, int_spec, varbit_spec, bitstring, bitstring_data,
  encode_integer, header_field, header_fields, Header, header_of, header_from, stack_entries,
  header_stack, stack_of, StackSpec, TypeInfo, declared, header,
}
use p4runtime_go_controller.Register.Idempotent.{encode_integer_again}

-- A result that goes through the wrapping of a header's field.
field-through :
    (r : Result (List ℕ)) (out : List ℕ)
    → ((wrapping "header field" (r >>= λ e. ok (bitstring_data e)) >>= λ d. ok (bits_of d))
        ≡ ok out)
      ↔ (r ≡ ok out)
field-through (ok e) out = (λ h. h, λ h. h)
field-through (err x) out = (λ h. cc, λ h. cc)

-- A header's field is normalised as an integer.
header_field-integer :
    (spec : BitstringSpec) (value out : List ℕ)
    → (header_field spec value ≡ ok out) ↔ (encode_integer spec value ≡ ok out)
unfolding bitstring
header_field-integer missing_spec value out = (λ h. cc, λ h. cc)
header_field-integer (varbit_spec w) value out = (λ h. cc, λ h. cc)
header_field-integer (bit_spec w) value out = field-through (encode_integer (bit_spec w) value) out
header_field-integer (int_spec w) value out = field-through (encode_integer (int_spec w) value) out

header_field_again :
    (spec : BitstringSpec) (value out : List ℕ)
    → header_field spec value ≡ ok out
    → header_field spec out ≡ ok out
header_field_again spec value out h =
    (header_field-integer spec out out).1
      (encode_integer_again spec value out ((header_field-integer spec value out).0 h))

header_fields_again :
    (specs : List BitstringSpec) (values out : List (List ℕ))
    → header_fields specs values ≡ ok out
    → (header_fields specs out ≡ ok out) × (length out ≡ length specs)
unfolding header_fields
header_fields_again [] values out h = ground arith
header_fields_again (spec ∷ specs) [] out h = cc
header_fields_again (spec ∷ specs) (value ∷ values) out h =
    let (v, at_v, h') =
      bind-ok (header_field spec value) (λ v. header_fields specs values >>= λ vs. ok (v ∷ vs)) out
        h in
    let (vs, at_vs, h'') = bind-ok (header_fields specs values) (λ vs. ok (v ∷ vs)) out h' in
    let (rest, as_long) = header_fields_again specs values vs at_vs in
    subst (λ o. (header_fields (spec ∷ specs) o ≡ ok o) × (length o ≡ suc (length specs)))
      (ok-injective h'')
      (ground (arith, header_field_again spec value v at_v, rest), ap suc as_long)

abbrev valid_header : List (List ℕ) → Header
valid_header values = record { is_valid = true; bitstrings = values }

normalised-header_of :
    (members : List BitstringSpec) (values vs : List (List ℕ))
    → header_fields members values ≡ ok vs
    → header_of members (valid_header vs) ≡ ok (valid_header vs)
normalised-header_of members values vs h =
    let (again, as_long) = header_fields_again members values vs h in ground (arith, again, as_long)

header_of_again :
    (members : List BitstringSpec) (b : Bool) (values : List (List ℕ)) (out : Header)
    → header_of members (record { is_valid = b; bitstrings = values }) ≡ ok out
    → header_of members out ≡ ok out
header_of_again members true values out e =
    let (vs, at_vs, same) =
      bind-ok (header_fields members values) (λ vs. ok (valid_header vs)) out (ground arith) in
    subst (λ o. header_of members o ≡ ok o) (ok-injective same)
      (normalised-header_of members values vs at_vs)
header_of_again members false values out e =
    subst (λ o. header_of members o ≡ ok o) (kept (length values == 0) e) refl
  where
    kept :
        (c : Bool)
        → (if c
            then ok (record { is_valid = false; bitstrings = [] })
            else err (plain "invalid header must have no fields"))
          ≡ ok out
        → record { is_valid = false; bitstrings = [] } ≡ out
    kept true h = ok-injective h
    kept false h = cc

header_from_again :
    (decl : Option (List BitstringSpec)) (value : Option Header) (out : Header)
    → header_from decl value ≡ ok out
    → header_from decl (some out) ≡ ok out
header_from_again none value out e = cc
header_from_again (some members) none out e = cc
header_from_again (some members) (some h) out e =
    header_of_again members h.is_valid h.bitstrings out e

-- A header that is normalised for its declared type is accepted again for that type, unchanged:
-- the fields of a valid header are in their shortest encodings, and an invalid one has none.
pub header_again :
    (types : TypeInfo) (name : List ℕ) (value : Option Header) (out : Header)
    → header types name value ≡ ok out
    → header types name (some out) ≡ ok out
unfolding header
header_again types name value out e = header_from_again (declared types.headers name) value out e

-- Entries of a stack, each normalised again to itself.
entries_again :
    {A : Type 0} (normalize : Option A → Result A)
    → ((value : Option A) (out : A) → normalize value ≡ ok out → normalize (some out) ≡ ok out)
    → (values : List (Option A)) (out : List A) → stack_entries normalize values ≡ ok out
    → (stack_entries normalize (map some out) ≡ ok out) × (length (map some out) ≡ length values)
unfolding stack_entries
entries_again normalize again [] [] h = (refl, refl)
entries_again normalize again [] (a ∷ out) h = cc
entries_again normalize again (v ∷ values) out h =
    let (a, at_a, h') =
      bind-ok (wrapping "stack entry" (normalize v))
        (λ a. stack_entries normalize values >>= λ rest. ok (a ∷ rest)) out h in
    let (more, at_more, h'') =
      bind-ok (stack_entries normalize values) (λ rest. ok (a ∷ rest)) out h' in
    let (rest_again, as_long) = entries_again normalize again values more at_more in
    let a_again = again v a (wrapping-ok "stack entry" (normalize v) a at_a) in
    subst
      (λ o.
        (stack_entries normalize (map some o) ≡ ok o) × (length (map some o) ≡ suc (length values)))
      (ok-injective h'') (ground (arith, a_again, rest_again), ap suc as_long)

pub stack_of_again :
    {A B : Type 0} (normalize : Option A → Result A) (decls : List (List ℕ × B))
    → ((value : Option A) (out : A) → normalize value ≡ ok out → normalize (some out) ≡ ok out)
    → (spec : Option StackSpec) (value : Option (List (Option A))) (out : List A)
    → stack_of normalize decls spec value ≡ ok out
    → stack_of normalize decls spec (some (map some out)) ≡ ok out
stack_of_again normalize decls again none value out h = cc
stack_of_again normalize decls again (some spec) none out h = cc
stack_of_again normalize decls again (some spec) (some entries) out h =
    ground (arith, entries_again normalize again entries out)

-- A header stack that is normalised for its type is accepted again for that type, unchanged.
pub header_stack_again :
    (types : TypeInfo) (spec : Option StackSpec) (value : Option (List (Option Header)))
    (out : List Header)
    → header_stack types spec value ≡ ok out
    → header_stack types spec (some (map some out)) ≡ ok out
unfolding header_stack
header_stack_again types spec value out h =
    stack_of_again (header types (elim spec [ none ↦ [] | some s ↦ s.name ])) types.headers
      (header_again types (elim spec [ none ↦ [] | some s ↦ s.name ])) spec value out h
