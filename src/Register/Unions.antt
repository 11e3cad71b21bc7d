-- ===== src/Register/Unions.antt =====
-- Header unions of register/headers.go, normalised again.
use p4runtime_go_controller.Common.{
  ℕ, ◌≡◌, refl, subst, true, false, not, ◌||◌, List, [], ◌∷◌, map, Option, none, some, ◌==◌, length,
  arith, Bool-cases, inl, inr,
}
use p4runtime_go_controller.Common.Errors.{Result, ok, bind-ok, ok-injective, ◌>>=◌}
use p4runtime_go_controller.Register.Headers.{
  BitstringSpec, Header, header_from, declared, TypeInfo, header, HeaderUnion, member_header,
  union_of, union_from, header_union, StackSpec, header_union_stack,
}
use p4runtime_go_controller.Register.Normalised.{header_again, stack_of_again}

-- A normalised header is valid where its value was.
header-is_valid :
    (types : TypeInfo) (name : List ℕ) (h out : Header)
    → h.is_valid ≡ true
    → header types name (some h) ≡ ok out
    → out.is_valid ≡ true
unfolding header
header-is_valid types name h out valid e = from (declared types.headers name) e
  where
    from :
        (decl : Option (List BitstringSpec))
        → header_from decl (some h) ≡ ok out
        → out.is_valid ≡ true
    from none x = cc
    from (some members) x = ground arith

union_of_again :
    (types : TypeInfo) (members : List (List ℕ × List ℕ)) (name : List ℕ) (h : Option Header)
    (out : HeaderUnion)
    → union_of types members (record { valid_header_name = name; valid_header = h }) ≡ ok out
    → union_of types members out ≡ ok out
union_of_again types members [] none out e =
    subst (λ o. union_of types members o ≡ ok o) (ok-injective e) refl
union_of_again types members [] (some h) out e = cc
union_of_again types members (c ∷ name) none out e = ground arith
union_of_again types members (c ∷ name) (some h) out e =
    elim (Bool-cases ((length (member_header members (c ∷ name)) == 0) || not h.is_valid)) [
      | inl refused ↦ ground (arith, refused)
      | inr accepted ↦
          let (h', at_h, same) =
            bind-ok (header types (member_header members (c ∷ name)) (some h)) named out
              (taken accepted) in
          subst (λ o. union_of types members o ≡ ok o) (ok-injective same)
            (ground (
              arith,
              accepted,
              header_again types (member_header members (c ∷ name)) (some h) h' at_h,
              header-is_valid types (member_header members (c ∷ name)) h h'
                  (ground (arith, accepted)) at_h,
            ))
    ]
  where
    named : Header → Result HeaderUnion
    named h = ok (record { valid_header_name = c ∷ name; valid_header = some h })

    taken :
        ((length (member_header members (c ∷ name)) == 0) || not h.is_valid) ≡ false
        → (header types (member_header members (c ∷ name)) (some h) >>= named) ≡ ok out
    taken accepted = ground (arith, accepted)

union_from_again :
    (types : TypeInfo) (decl : Option (List (List ℕ × List ℕ))) (value : Option HeaderUnion)
    (out : HeaderUnion)
    → union_from types decl value ≡ ok out
    → union_from types decl (some out) ≡ ok out
union_from_again types none value out e = cc
union_from_again types (some members) none out e = cc
union_from_again types (some members) (some u) out e =
    union_of_again types members u.valid_header_name u.valid_header out e

header_union_again :
    (types : TypeInfo) (name : List ℕ) (value : Option HeaderUnion) (out : HeaderUnion)
    → header_union types name value ≡ ok out
    → header_union types name (some out) ≡ ok out
unfolding header_union
header_union_again types name value out e =
    union_from_again types (declared types.header_unions name) value out e

-- A header union stack that is normalised for its type is accepted again for that type, unchanged:
-- each union in it, the header of a valid one, and that header's fields are in their final form.
pub header_union_stack_again :
    (types : TypeInfo) (spec : Option StackSpec) (value : Option (List (Option HeaderUnion)))
    (out : List HeaderUnion)
    → header_union_stack types spec value ≡ ok out
    → header_union_stack types spec (some (map some out)) ≡ ok out
unfolding header_union_stack
header_union_stack_again types spec value out h =
    stack_of_again (header_union types (elim spec [ none ↦ [] | some s ↦ s.name ]))
      types.header_unions (header_union_again types (elim spec [ none ↦ [] | some s ↦ s.name ]))
      spec value out h
