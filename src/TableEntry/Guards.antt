-- ===== src/TableEntry/Guards.antt =====
-- BuildKey of tableentry/builder.go: table ID, default flag and priority of the entry.
use mathlib.Core.Logic.{ite}
use p4runtime_go_controller.Common.{
  ℕ, ◌≡◌, ◌<◌, refl, sym, ap, subst, ◌∙◌, true, false, not, ◌&&◌, ◌||◌, List, [], ◌∷◌, if-elim,
  Bool-cases, inl, inr, arith,
}
use p4runtime_go_controller.Common.Int.{ℤ, pos, negsuc, leb_ℤ}
use p4runtime_go_controller.Common.Errors.{Error, Result, ok, err, ◌>>=◌}
use p4runtime_go_controller.Pipeline.{
  MatchType, unspecified, exact, lpm, ternary, range, optional, MatchType-discrete, MatchFieldDef,
  TableDef,
}
use p4runtime_go_controller.Match.{FieldMatch, is_kind}
use p4runtime_go_controller.TableEntry.{
  Builder, TableEntry, key_entry, key_of, build_key, with_priority, needs_priority, checked_matches,
}

-- The kinds of match that let several entries accept one packet without being ordered by a prefix.
pub data IsLoose : MatchType → Type 0 where
  by_mask : IsLoose ternary
  by_bounds : IsLoose range
  by_choice : IsLoose optional

pub data HasLoose : List MatchFieldDef → Type 0 where
  here :
      {mf : MatchFieldDef} {fields : List MatchFieldDef}
      → IsLoose mf.match_type
      → HasLoose (mf ∷ fields)
  later :
      {mf : MatchFieldDef} {fields : List MatchFieldDef} → HasLoose fields → HasLoose (mf ∷ fields)

not-HasLoose-nil : ¬ HasLoose []
not-HasLoose-nil h = elim h [ ]

loose-IsLoose :
    (kind : MatchType)
    → (ite (MatchType-discrete kind ternary) true false
        || ite (MatchType-discrete kind range) true false
        || ite (MatchType-discrete kind optional) true false)
      ≡ true
    → IsLoose kind
unfolding MatchType-discrete
loose-IsLoose unspecified h = ground arith
loose-IsLoose exact h = ground arith
loose-IsLoose lpm h = ground arith
loose-IsLoose ternary h = by_mask
loose-IsLoose range h = by_bounds
loose-IsLoose optional h = by_choice

IsLoose-loose :
    {kind : MatchType}
    → IsLoose kind
    → (ite (MatchType-discrete kind ternary) true false
        || ite (MatchType-discrete kind range) true false
        || ite (MatchType-discrete kind optional) true false)
      ≡ true
unfolding MatchType-discrete
IsLoose-loose by_mask = refl
IsLoose-loose by_bounds = refl
IsLoose-loose by_choice = refl

needs_priority_sound :
    (fields : List MatchFieldDef) → needs_priority fields ≡ true → HasLoose fields
unfolding needs_priority
needs_priority_sound [] h = ground arith
needs_priority_sound (m ∷ fields) h =
    elim (Bool-cases (is_kind m ternary || is_kind m range || is_kind m optional)) [
      | inl e ↦ here (loose-IsLoose m.match_type e)
      | inr e ↦ later (needs_priority_sound fields (ground (arith)))
    ]

needs_priority_complete :
    {fields : List MatchFieldDef} → HasLoose fields → needs_priority fields ≡ true
unfolding needs_priority
needs_priority_complete (here {mf} loose) = ground (arith, IsLoose-loose loose)
needs_priority_complete (later h) = ground (arith, needs_priority_complete h)

-- What holds of the entry, by the three ways to build it.
pub data KeyObeys (b : Builder) (td : TableDef) (entry : TableEntry) : Type 0 where
  default_key :
      b.is_default ≡ true
      → entry.table_id ≡ td.id
      → entry.is_default_action ≡ true
      → entry.matches ≡ []
      → entry.priority ≡ pos 0
      → KeyObeys b td entry
  ordered_key :
      {n : ℕ}
      → b.is_default ≡ false
      → HasLoose td.match_fields
      → entry.table_id ≡ td.id
      → entry.is_default_action ≡ false
      → 0 < n
      → b.priority ≡ pos n
      → entry.priority ≡ pos n
      → KeyObeys b td entry
  unordered_key :
      b.is_default ≡ false
      → ¬ HasLoose td.match_fields
      → entry.table_id ≡ td.id
      → entry.is_default_action ≡ false
      → b.priority ≡ pos 0
      → entry.priority ≡ pos 0
      → KeyObeys b td entry

positive-pos : (z : ℤ) → leb_ℤ z (pos 0) ≡ false → (n : ℕ) × (0 < n) × (z ≡ pos n)
positive-pos (pos n) h = (n, ground arith, refl)
positive-pos (negsuc n) h = ground arith

zero-pos : (z : ℤ) → not (leb_ℤ z (pos 0) && leb_ℤ (pos 0) z) ≡ false → z ≡ pos 0
zero-pos (pos n) h = ap pos (ground arith)
zero-pos (negsuc n) h = ground arith

pub record Guarded (b : Builder) (td : TableDef) (r : Result TableEntry) : Type 0 where
  pub obeys : (entry : TableEntry) → r ≡ ok entry → KeyObeys b td entry

module _ (b : Builder) (td : TableDef) where
  Guarded-err : (e : Error) → Guarded b td (err e)
  Guarded-err e = record { obeys = λ entry h. absurd (cc) }

  Guarded-ok : (entry : TableEntry) → KeyObeys b td entry → Guarded b td (ok entry)
  Guarded-ok entry k = record { obeys = λ other h. subst (KeyObeys b td) (ap taken h) k }
    where
      taken : Result TableEntry → TableEntry
      taken (ok x) = x
      taken (err e) = entry

  ordered-KeyObeys :
      (fields : List FieldMatch)
      → b.is_default ≡ false
      → needs_priority td.match_fields ≡ true
      → leb_ℤ b.priority (pos 0) ≡ false
      → KeyObeys b td (key_entry td false fields b.priority)
  ordered-KeyObeys fields d n p =
      let (m, m_positive, same) = positive-pos b.priority p in
      ordered_key d (needs_priority_sound td.match_fields n) refl refl m_positive same same

  unordered-KeyObeys :
      (fields : List FieldMatch)
      → b.is_default ≡ false
      → needs_priority td.match_fields ≡ false
      → not (leb_ℤ b.priority (pos 0) && leb_ℤ (pos 0) b.priority) ≡ false
      → KeyObeys b td (key_entry td false fields (pos 0))
  unordered-KeyObeys fields d n z =
      unordered_key d (λ loose. ground (arith, needs_priority_complete loose)) refl refl
        (zero-pos b.priority z) refl

  priority-Guarded :
      (fields : List FieldMatch) → b.is_default ≡ false → Guarded b td (with_priority b td fields)
  priority-Guarded fields d =
      if-elim (Guarded b td) _ _ _
        (λ n.
          if-elim (Guarded b td) _ _ _ (λ _. Guarded-err _)
            λ p. Guarded-ok _ (ordered-KeyObeys fields d n p))
        λ n.
          if-elim (Guarded b td) _ _ _ (λ _. Guarded-err _)
            λ z. Guarded-ok _ (unordered-KeyObeys fields d n z)

  checked-Guarded :
      (r : Result (List FieldMatch))
      → b.is_default ≡ false
      → Guarded b td (r >>= with_priority b td)
  checked-Guarded (err e) d = Guarded-err e
  checked-Guarded (ok fields) d = priority-Guarded fields d

  key_of-Guarded : Guarded b td (key_of b td)
  unfolding key_of
  key_of-Guarded =
      if-elim (Guarded b td) _ _ _ (λ d. Guarded-ok _ (default_key d refl refl refl refl))
        λ d. checked-Guarded (checked_matches td b.matches) d

  -- Every entry that BuildKey returns has the table's ID and the builder's default flag. A default
  -- entry has no match fields and priority zero. Another has the builder's priority: a positive one
  -- when the table has a TERNARY, RANGE or OPTIONAL field, and zero when it has none.
  pub build_key-KeyObeys :
      (entry : TableEntry) → b.table ≡ ok td → build_key b ≡ ok entry → KeyObeys b td entry
  build_key-KeyObeys entry found built = key_of-Guarded.obeys entry (sym shape ∙ built)
    where
      shape : build_key b ≡ key_of b td
      shape = unfold build_key in rw found refl
