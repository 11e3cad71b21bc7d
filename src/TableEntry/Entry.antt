-- ===== src/TableEntry/Entry.antt =====
-- BuildKey of tableentry/builder.go: the packets of an entry and of the caller's match values.
use p4runtime_go_controller.Common.{
  ℕ, ◌^◌, ◌<◌, ◌≡◌, ◌↔◌, refl, sym, ap, subst, ◌∙◌, false, not, List, [], ◌∷◌, Option, none, some,
  All, if◌then◌else◌, Bool-cases, inl, inr, ltb, if-elim, ◌&&◌,
}
use p4runtime_go_controller.Common.Int.{pos, leb_ℤ}
use p4runtime_go_controller.Common.Text.{same_text}
use p4runtime_go_controller.Common.Errors.{
  Result, ok, err, sentinel, plain, invalid_match_field, ◌>>=◌,
}
use p4runtime_go_controller.Pipeline.{MatchFieldDef, TableDef, get, has_field, exact}
use p4runtime_go_controller.Match.{MatchValue, FieldMatch, encode_field, is_kind}
use p4runtime_go_controller.Match.Admits.{
  Requests, Admits, AdmitsField, HasBytes, HasId, Means, value-Means,
}
use p4runtime_go_controller.TableEntry.{
  Builder, TableEntry, encode_matches, append_field, insert_field, sort_fields, checked_matches,
  with_priority, key_entry, key_of, build_key, all_known, needs_priority,
}

-- A packet has a key for each field, by the field's ID; the key is within the width of the field.
pub record KeyFits (width key : ℕ → ℕ) (mf : MatchFieldDef) : Type 0 where
  pub positive : 0 < width mf.id
  pub bits : mf.bitwidth ≡ pos (width mf.id)
  pub fits : key mf.id < 2 ^ width mf.id

abbrev pub AdmitsMatch : (ℕ → ℕ) → (ℕ → ℕ) → FieldMatch → Type 0
AdmitsMatch width key fm = Admits (width fm.field_id) (key fm.field_id) fm.field_match_type

-- A field without a match value accepts every packet.
abbrev pub RequestsValue : ℕ → ℕ → Option MatchValue → Type 0
RequestsValue w key none = Unit
RequestsValue w key (some mv) = Requests w key mv

abbrev pub RequestsField : (ℕ → ℕ) → (ℕ → ℕ) → List (List ℕ × MatchValue) → MatchFieldDef → Type 0
RequestsField width key matches mf = RequestsValue (width mf.id) (key mf.id) (get matches mf.name)

abbrev pub HasBytesIn : List ℕ × MatchValue → Type 0
HasBytesIn (name, mv) = HasBytes mv

abbrev OptionBytes : Option MatchValue → Type 0
OptionBytes none = Unit
OptionBytes (some mv) = HasBytes mv

get-HasBytes :
    (m : List (List ℕ × MatchValue)) (name : List ℕ) → All HasBytesIn m → OptionBytes (get m name)
unfolding get
get-HasBytes [] name h = tt
get-HasBytes ((k, mv) ∷ m) name h = elim (Bool-cases (same_text k name)) [
  | inl e ↦ rw e h.0
  | inr e ↦ rw e (get-HasBytes m name h.1)
]

module _ {A : Type 0} where
  ok-injective : (a b : A) → ok a ≡ ok b → a ≡ b
  ok-injective a b h = ap taken h
    where
      taken : Result A → A
      taken (ok x) = x
      taken (err e) = a

module _ (width key : ℕ → ℕ) (matches : List (List ℕ × MatchValue)) where
  -- One encoded field in front of the others.
  append-Admits :
      (mf : MatchFieldDef) (fm : Option FieldMatch) (rest : List FieldMatch) (T R : Type 0)
      → HasId mf.id fm
      → AdmitsField (width mf.id) (key mf.id) fm ↔ T
      → All (AdmitsMatch width key) rest ↔ R
      → All (AdmitsMatch width key) (append_field fm rest) ↔ (T × R)
  append-Admits mf none rest T R i f g = (λ h. (f.0 tt, g.0 h), λ h. g.1 h.1)
  append-Admits mf (some m) rest T R i f g =
      (λ h. (f.0 (subst at_id i h.0), g.0 h.1), λ h. (subst at_id (sym i) (f.1 h.0), g.1 h.1))
    where
      at_id : ℕ → Type 0
      at_id id = Admits (width id) (key id) m.field_match_type

  -- The matches that a loop returns admit what `T` asks for.
  abbrev KeptAs : Type 0 → Result (List FieldMatch) → Type 0
  KeptAs T (err e) = Unit
  KeptAs T (ok fields) = All (AdmitsMatch width key) fields ↔ T

  unbound : (T : Type 0) (r : Result (List FieldMatch)) → KeptAs T r → KeptAs (Unit × T) r
  unbound T (err e) h = tt
  unbound T (ok fields) h = (λ x. (tt, h.0 x), λ x. h.1 x.1)

  bound :
      (mf : MatchFieldDef) (T R : Type 0) (q : Result (Option FieldMatch))
      (r : Result (List FieldMatch))
      → Means mf.id (width mf.id) (key mf.id) T q
      → KeptAs R r
      → KeptAs (T × R) (q >>= λ fm. r >>= λ rest. ok (append_field fm rest))
  bound mf T R (err e) r m h = tt
  bound mf T R (ok fm) (err e) m h = tt
  bound mf T R (ok fm) (ok rest) m h =
      let (id_same, meaning) = m.keeps fm refl in append-Admits mf fm rest T R id_same meaning h

  encode_matches-KeptAs :
      (order : List MatchFieldDef)
      → All (KeyFits width key) order
      → All HasBytesIn matches
      → KeptAs (All (RequestsField width key matches) order) (encode_matches order matches)
  unfolding encode_matches
  encode_matches-KeptAs [] h b = (λ x. tt, λ x. tt)
  encode_matches-KeptAs (mf ∷ order) h b =
      go (get matches mf.name) (get-HasBytes matches mf.name b) (encode_matches order matches)
        (encode_matches-KeptAs order h.1 b)
    where
      go :
          (o : Option MatchValue)
          → OptionBytes o
          → (r : Result (List FieldMatch)) → KeptAs (All (RequestsField width key matches) order) r
          → KeptAs
              (RequestsValue (width mf.id) (key mf.id) o
                × All (RequestsField width key matches) order)
              (elim o [
                | none ↦ if is_kind mf exact then err (sentinel invalid_match_field) else r
                | some mv ↦ encode_field mf mv >>= λ fm. r >>= λ rest. ok (append_field fm rest)
              ])
      go none x r k =
          if-elim (KeptAs (Unit × All (RequestsField width key matches) order)) (is_kind mf exact)
            (err (sentinel invalid_match_field)) r (λ _. tt)
            λ _. unbound (All (RequestsField width key matches) order) r k
      go (some mv) x r k =
          bound mf (Requests (width mf.id) (key mf.id) mv)
            (All (RequestsField width key matches) order) (encode_field mf mv) r
            (value-Means mf (width mf.id) (key mf.id) h.0.positive h.0.fits mv h.0.bits x) k

module _ (P : MatchFieldDef → Type 0) where
  All-insert :
      (f : MatchFieldDef) (order : List MatchFieldDef)
      → All P (insert_field f order) ↔ (P f × All P order)
  unfolding insert_field
  All-insert f [] = (λ h. h, λ h. h)
  All-insert f (g ∷ order) = elim (Bool-cases (ltb g.id f.id)) [
    | inl e ↦ rw e (
      λ h. let (a, c) = (All-insert f order).0 h.1 in (a, (h.0, c)),
      λ h. (h.1.0, (All-insert f order).1 (h.0, h.1.1)),
    )
    | inr e ↦ rw e (λ h. h, λ h. h)
  ]

  All-sort : (fields : List MatchFieldDef) → All P (sort_fields fields) ↔ All P fields
  unfolding sort_fields
  All-sort [] = (λ h. h, λ h. h)
  All-sort (f ∷ fields) = (
    λ h. let (a, c) = (All-insert f (sort_fields fields)).0 h in (a, (All-sort fields).0 c),
    λ h. (All-insert f (sort_fields fields)).1 (h.0, (All-sort fields).1 h.1),
  )

module _ (width key : ℕ → ℕ) (b : Builder) (td : TableDef) where
  -- An entry that is built admits what was asked for.
  abbrev EntryKept : Result TableEntry → Type 0
  EntryKept (err e) = Unit
  EntryKept (ok entry) =
      All (AdmitsMatch width key) entry.matches
      ↔ All (RequestsField width key b.matches) td.match_fields

  priority-EntryKept :
      (fields : List FieldMatch)
      → All (AdmitsMatch width key) fields ↔ All (RequestsField width key b.matches) td.match_fields
      → EntryKept (with_priority b td fields)
  priority-EntryKept fields h =
      if-elim EntryKept (needs_priority td.match_fields) _ _
        (λ _.
          if-elim EntryKept (leb_ℤ b.priority (pos 0))
            (err (plain "tableentry: table requires positive priority"))
            (ok (key_entry td false fields b.priority)) (λ _. tt) (λ _. h))
        λ _.
          if-elim EntryKept (not (leb_ℤ b.priority (pos 0) && leb_ℤ (pos 0) b.priority))
            (err (plain "tableentry: table requires zero priority"))
            (ok (key_entry td false fields (pos 0))) (λ _. tt) (λ _. h)

  checked-EntryKept :
      All (KeyFits width key) td.match_fields
      → All HasBytesIn b.matches
      → EntryKept (checked_matches td b.matches >>= with_priority b td)
  unfolding checked_matches
  checked-EntryKept h x = go (encode_matches (sort_fields td.match_fields) b.matches) (
      encode_matches-KeptAs width key b.matches (sort_fields td.match_fields)
        ((All-sort (KeyFits width key) td.match_fields).1 h) x)
    where
      sorted :
          All (RequestsField width key b.matches) (sort_fields td.match_fields)
          ↔ All (RequestsField width key b.matches) td.match_fields
      sorted = All-sort (RequestsField width key b.matches) td.match_fields

      go :
          (r : Result (List FieldMatch))
          → KeptAs width key b.matches
              (All (RequestsField width key b.matches) (sort_fields td.match_fields))
              r
          → EntryKept (
              (r >>= λ fields.
              if all_known (has_field td.match_fields) b.matches
              then ok fields
              else err (sentinel invalid_match_field))
              >>= with_priority b td)
      go (err e) k = tt
      go (ok fields) k = elim (Bool-cases (all_known (has_field td.match_fields) b.matches)) [
        | inl e ↦ rw e (priority-EntryKept fields (λ h. sorted.0 (k.0 h), λ h. k.1 (sorted.1 h)))
        | inr e ↦ rw e tt
      ]

  -- For an entry that is not the default one, whatever the order of the table's fields: a packet,
  -- given as a key for each field ID within the field's width, is admitted by all matches of the
  -- entry that BuildKey returns exactly when it meets the match value of every field of the table
  -- that has one.
  pub build_key-Admits :
      (entry : TableEntry)
      → b.table ≡ ok td
      → b.is_default ≡ false
      → All (KeyFits width key) td.match_fields
      → All HasBytesIn b.matches
      → build_key b ≡ ok entry
      → All (AdmitsMatch width key) entry.matches
        ↔ All (RequestsField width key b.matches) td.match_fields
  build_key-Admits entry found plain_entry h x built =
      subst EntryKept (sym shape ∙ built) (checked-EntryKept h x)
    where
      shape : build_key b ≡ (checked_matches td b.matches >>= with_priority b td)
      shape = unfold build_key key_of in rw (found, plain_entry) refl
