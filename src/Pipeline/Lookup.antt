-- ===== src/Pipeline/Lookup.antt =====
-- The lookups of pipeline/pipeline.go by name and by ID: which of several definitions answers.
use p4runtime_go_controller.Common.{
  ℕ, ◌≡◌, refl, sym, ap, ◌∙◌, Bool, true, false, ◌||◌, List, [], ◌∷◌, ◌++◌, Option, none, some,
  ◌==◌, find?, reverse, map, if◌then◌else◌, arith,
}
use mathlib.Core.List.{reverse-cons}
use p4runtime_go_controller.Common.Text.{same_text}
use p4runtime_go_controller.Pipeline.{
  P4Info, Pipeline, get, get_by_id, put_names, index_names, index_ids, index, no_alias, table,
  action, counter, meter, register, digest, packet_metadata, direct_counter, direct_meter,
  direct_counter_def, direct_meter_def, table_by_id, action_by_id, counter_by_id, digest_by_id,
  packet_metadata_by_id,
}

-- Whether a definition with this name and alias answers to `q`: an empty alias is none.
abbrev pub answers : List ℕ → List ℕ → List ℕ → Bool
answers q name [] = same_text name q
answers q name (c ∷ alias) = same_text (c ∷ alias) q || same_text name q

abbrev pub or_else {ℓ} : {A : Type ℓ} → Option A → Option A → Option A
or_else (some a) b = some a
or_else none b = b

module _ {ℓ} {A : Type ℓ} where
  find?-append :
      (p : A → Bool) (xs ys : List A) → find? p (xs ++ ys) ≡ or_else (find? p xs) (find? p ys)
  find?-append p [] ys = refl
  find?-append p (x ∷ xs) ys = by_test (p x) (find?-append p xs ys)
    where
      by_test :
          (b : Bool)
          → find? p (xs ++ ys) ≡ or_else (find? p xs) (find? p ys)
          → elim b [ true ↦ some x | false ↦ find? p (xs ++ ys) ]
            ≡ or_else (elim b [ true ↦ some x | false ↦ find? p xs ]) (find? p ys)
      by_test true h = refl
      by_test false h = h

  get-put_names :
      (name alias : List ℕ) (a : A) (m : List (List ℕ × A)) (q : List ℕ)
      → get (put_names name alias a m) q ≡ (if answers q name alias then some a else get m q)
  unfolding get
  get-put_names name [] a m q = ground arith
  get-put_names name (c ∷ alias) a m q = ground arith

  or_else_assoc : (a b c : Option A) → or_else (or_else a b) c ≡ or_else a (or_else b c)
  or_else_assoc none b c = refl
  or_else_assoc (some a) b c = refl

  one :
      (b : Bool) (a : A) (r : Option A)
      → (if b then some a else r) ≡ or_else (elim b [ true ↦ some a | false ↦ none ]) r
  one true a r = ground arith
  one false a r = ground arith

  pub get-index_names :
      (name_of alias_of : A → List ℕ) (raws : List A) (m : List (List ℕ × A)) (q : List ℕ)
      → get (index_names name_of alias_of raws m) q
        ≡ or_else (find? (λ a. answers q (name_of a) (alias_of a)) (reverse raws)) (get m q)
  unfolding index_names
  get-index_names name_of alias_of [] m q = refl
  get-index_names name_of alias_of (a ∷ raws) m q =
      get-index_names name_of alias_of raws (put_names (name_of a) (alias_of a) a m) q
      ∙ ap (or_else (find? p (reverse raws)))
          (get-put_names (name_of a) (alias_of a) a m q ∙ one (p a) a (get m q))
      ∙ sym (or_else_assoc (find? p (reverse raws)) (find? p (a ∷ [])) (get m q))
      ∙ ap (λ r. or_else r (get m q)) (sym (find?-append p (reverse raws) (a ∷ [])))
      ∙ ap (λ l. or_else (find? p l) (get m q)) (sym (reverse-cons a raws))
    where
      p : A → Bool
      p x = answers q (name_of x) (alias_of x)

  pub get_by_id-index_ids :
      (id_of : A → ℕ) (raws : List A) (m : List (ℕ × A)) (q : ℕ)
      → get_by_id (index_ids id_of raws m) q
        ≡ or_else (find? (λ a. id_of a == q) (reverse raws)) (get_by_id m q)
  unfolding index_ids get_by_id
  get_by_id-index_ids id_of [] m q = refl
  get_by_id-index_ids id_of (a ∷ raws) m q =
      get_by_id-index_ids id_of raws ((id_of a, a) ∷ m) q
      ∙ ap (or_else (find? p (reverse raws))) (one (p a) a (get_by_id m q))
      ∙ sym (or_else_assoc (find? p (reverse raws)) (find? p (a ∷ [])) (get_by_id m q))
      ∙ ap (λ r. or_else r (get_by_id m q)) (sym (find?-append p (reverse raws) (a ∷ [])))
      ∙ ap (λ l. or_else (find? p l) (get_by_id m q)) (sym (reverse-cons a raws))
    where
      p : A → Bool
      p x = id_of x == q

  or_else-none : (r : Option A) → or_else r none ≡ r
  or_else-none none = refl
  or_else-none (some a) = refl

  pub names-index :
      (name_of alias_of : A → List ℕ) (raws : List A) (q : List ℕ)
      → get (index_names name_of alias_of raws []) q
        ≡ find? (λ a. answers q (name_of a) (alias_of a)) (reverse raws)
  unfolding get
  names-index name_of alias_of raws q = get-index_names name_of alias_of raws [] q ∙ or_else-none _

  pub ids-index :
      (id_of : A → ℕ) (raws : List A) (q : ℕ)
      → get_by_id (index_ids id_of raws []) q ≡ find? (λ a. id_of a == q) (reverse raws)
  unfolding get_by_id
  ids-index id_of raws q = get_by_id-index_ids id_of raws [] q ∙ or_else-none _

-- Which definition a name finds: the last of the P4Info whose name, or whose alias where it has one,
-- is that name; direct counters and meters and packet metadata have no alias.
pub record FindsByName (info : P4Info) (q : List ℕ) (p : Pipeline) : Type 0 where
  pub table_named : table p q ≡ find? (λ t. answers q t.name t.alias) (reverse info.tables)
  pub action_named : action p q ≡ find? (λ a. answers q a.name a.alias) (reverse info.actions)
  pub counter_named : counter p q ≡ find? (λ c. answers q c.name c.alias) (reverse info.counters)
  pub meter_named : meter p q ≡ find? (λ m. answers q m.name m.alias) (reverse info.meters)
  pub register_named : register p q ≡ find? (λ r. answers q r.name r.alias) (reverse info.registers)
  pub digest_named : digest p q ≡ find? (λ d. answers q d.name d.alias) (reverse info.digests)
  pub metadata_named :
      packet_metadata p q ≡ find? (λ m. same_text m.name q) (reverse info.packet_metadata)
  pub direct_counter_named :
      direct_counter p q
      ≡ find?
          (λ c. same_text c.name q)
          (reverse (map (direct_counter_def p.tables_by_id) info.direct_counters))
  pub direct_meter_named :
      direct_meter p q
      ≡ find?
          (λ m. same_text m.name q)
          (reverse (map (direct_meter_def p.tables_by_id) info.direct_meters))

-- In the Pipeline of a P4Info, each lookup by name finds the last definition of its kind that has
-- the name, or has it as its alias where the kind has aliases, and finds none when there is none.
pub index-FindsByName : (info : P4Info) (q : List ℕ) → FindsByName info q (index info)
unfolding index table action counter meter register digest packet_metadata direct_counter
    direct_meter
index-FindsByName info q = record {
  table_named = names-index (λ t. t.name) (λ t. t.alias) info.tables q;
  action_named = names-index (λ a. a.name) (λ a. a.alias) info.actions q;
  counter_named = names-index (λ c. c.name) (λ c. c.alias) info.counters q;
  meter_named = names-index (λ m. m.name) (λ m. m.alias) info.meters q;
  register_named = names-index (λ r. r.name) (λ r. r.alias) info.registers q;
  digest_named = names-index (λ d. d.name) (λ d. d.alias) info.digests q;
  metadata_named = names-index (λ m. m.name) no_alias info.packet_metadata q;
  direct_counter_named = names-index (λ c. c.name) no_alias _ q;
  direct_meter_named = names-index (λ m. m.name) no_alias _ q;
}

-- Which definition an ID finds.
pub record FindsById (info : P4Info) (q : ℕ) (p : Pipeline) : Type 0 where
  pub table_with : table_by_id p q ≡ find? (λ t. t.id == q) (reverse info.tables)
  pub action_with : action_by_id p q ≡ find? (λ a. a.id == q) (reverse info.actions)
  pub counter_with : counter_by_id p q ≡ find? (λ c. c.id == q) (reverse info.counters)
  pub digest_with : digest_by_id p q ≡ find? (λ d. d.id == q) (reverse info.digests)
  pub metadata_with :
      packet_metadata_by_id p q ≡ find? (λ m. m.id == q) (reverse info.packet_metadata)

-- In the Pipeline of a P4Info, each lookup by ID finds the last definition of its kind with the ID,
-- and finds none when there is none.
pub index-FindsById : (info : P4Info) (q : ℕ) → FindsById info q (index info)
unfolding index table_by_id action_by_id counter_by_id digest_by_id packet_metadata_by_id
index-FindsById info q = record {
  table_with = ids-index (λ t. t.id) info.tables q;
  action_with = ids-index (λ a. a.id) info.actions q;
  counter_with = ids-index (λ c. c.id) info.counters q;
  digest_with = ids-index (λ d. d.id) info.digests q;
  metadata_with = ids-index (λ m. m.id) info.packet_metadata q;
}
