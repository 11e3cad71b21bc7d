-- ===== src/Match/Admits.antt =====
-- The meaning of match values, and of the fields that encodeField of tableentry/builder.go makes of
-- them, as sets of keys.
use p4runtime_go_controller.Common.{
  ℕ, zero, suc, ◌-◌, ◌/◌, ◌%◌, ◌^◌, ◌≤◌, ◌<◌, ◌≡◌, ◌↔◌, refl, sym, ap, subst, ◌∙◌, not, List,
  Option, none, some, bit_and, arith, if◌then◌else◌, if-elim,
}
use native.Mathlib.Decide.{dec_le}
use p4runtime_go_controller.Common.Int.{pos, negsuc}
use p4runtime_go_controller.Common.Power.{pow-pos}
use p4runtime_go_controller.Common.BitAnd.{bit_and-zero}
use p4runtime_go_controller.Common.Errors.{Error, Result, ok, err, plain, ◌>>=◌, wrapping}
use p4runtime_go_controller.Codec.{lpm_mask}
use p4runtime_go_controller.Codec.Value.{value_of, AreBytes}
use p4runtime_go_controller.Codec.Encode.{Encodes, encode_bytes-Encodes}
use p4runtime_go_controller.Codec.Mask.{Masks, lpm_mask-Masks}
use p4runtime_go_controller.Codec.Apply.{Conjoins, ternary_apply-Conjoins}
use p4runtime_go_controller.Pipeline.{MatchFieldDef, exact}
use p4runtime_go_controller.Match.{
  MatchValue, exact_match, lpm_match, ternary_match, range_match, optional_match, foreign,
  FieldMatch, FieldMatchType, exact_value, lpm_value, ternary_value, range_value, optional_value,
  encode_field, encode_lpm, encode_ternary, encode_range, encode_optional, is_kind, wrong_kind,
  as_field, is_full_range,
}
use p4runtime_go_controller.Match.FullRange.{all_zero-value, is_full_range-low, is_full_range-high}

-- Whether a key of `w` bits has the first `p` bits of the integer `n`.
abbrev pub SamePrefix : ℕ → ℕ → ℕ → ℕ → Type 0
SamePrefix w key n zero = Unit
SamePrefix w key n (suc p) = key / 2 ^ (w - suc p) ≡ n / 2 ^ (w - suc p)

-- The keys of `w` bits that a match value asks for.
abbrev pub Requests : ℕ → ℕ → MatchValue → Type 0
Requests w key (exact_match v) = key ≡ value_of v
Requests w key (lpm_match v (pos p)) = SamePrefix w key (value_of v) p
Requests w key (lpm_match v (negsuc p)) = ⊥
Requests w key (ternary_match v m) = bit_and key (value_of m) ≡ bit_and (value_of v) (value_of m)
Requests w key (range_match l h) = (value_of l ≤ key) × (key ≤ value_of h)
Requests w key (optional_match none) = Unit
Requests w key (optional_match (some v)) = key ≡ value_of v
Requests w key foreign = ⊥

-- The keys of `w` bits that a P4Runtime target matches with a field of an entry.
abbrev pub Admits : ℕ → ℕ → FieldMatchType → Type 0
Admits w key (exact_value v) = key ≡ value_of v
Admits w key (lpm_value v (pos p)) = SamePrefix w key (value_of v) p
Admits w key (lpm_value v (negsuc p)) = ⊥
Admits w key (ternary_value v m) = bit_and key (value_of m) ≡ value_of v
Admits w key (range_value l h) = (value_of l ≤ key) × (key ≤ value_of h)
Admits w key (optional_value v) = key ≡ value_of v

-- A field that is left out admits every key.
abbrev pub AdmitsField : ℕ → ℕ → Option FieldMatch → Type 0
AdmitsField w key none = Unit
AdmitsField w key (some fm) = Admits w key fm.field_match_type

abbrev pub HasBytes : MatchValue → Type 0
HasBytes (exact_match v) = AreBytes v
HasBytes (lpm_match v p) = AreBytes v
HasBytes (ternary_match v m) = AreBytes v × AreBytes m
HasBytes (range_match l h) = AreBytes l × AreBytes h
HasBytes (optional_match none) = Unit
HasBytes (optional_match (some v)) = AreBytes v
HasBytes foreign = Unit

-- The encoded field carries the ID of the field.
abbrev pub HasId : ℕ → Option FieldMatch → Type 0
HasId id none = Unit
HasId id (some fm) = fm.field_id ≡ id

-- Where the encoding succeeds, it has the ID of the field and the meaning of the type.
pub record Means (id : ℕ) (w : ℕ) (key : ℕ) (T : Type 0) (r : Result (Option FieldMatch))
    : Type 0 where
  pub keeps : (o : Option FieldMatch) → r ≡ ok o → HasId id o × (AdmitsField w key o ↔ T)

module _ (id : ℕ) (w : ℕ) (key : ℕ) (T : Type 0) where
  Means-err : (e : Error) → Means id w key T (err e)
  Means-err e = record { keeps = λ o h. absurd (cc) }

  Means-ok :
      (o : Option FieldMatch) → HasId id o → AdmitsField w key o ↔ T → Means id w key T (ok o)
  Means-ok o i t = record {
    keeps = λ p h. subst (λ q. HasId id q × (AdmitsField w key q ↔ T)) (ap taken h) (i, t);
  }
    where
      taken : Result (Option FieldMatch) → Option FieldMatch
      taken (ok q) = q
      taken (err e) = o

module _ (mf : MatchFieldDef) (w : ℕ) (key : ℕ) (hw : 0 < w) (hk : key < 2 ^ w) where
  exact-Means :
      (v : List ℕ) (r : Result (List ℕ))
      → Encodes w (value_of v) r
      → Means mf.id w key (key ≡ value_of v) (
          wrapping "match" r >>= λ canon.
          if not (is_kind mf exact) then err wrong_kind else as_field mf (exact_value canon))
  exact-Means v (err e) x = Means-err mf.id w key _ _
  exact-Means v (ok canon) x =
      if-elim (Means mf.id w key (key ≡ value_of v)) _ _ _ (λ _. Means-err mf.id w key _ wrong_kind)
        λ _. Means-ok mf.id w key _ _ refl (λ h. h ∙ x.2, λ h. h ∙ sym x.2)

  optional-Means :
      (v : List ℕ) (r : Result (List ℕ))
      → Encodes w (value_of v) r
      → Means mf.id w key
          (key ≡ value_of v)
          (wrapping "match" r >>= λ canon. as_field mf (optional_value canon))
  optional-Means v (err e) x = Means-err mf.id w key _ _
  optional-Means v (ok canon) x = Means-ok mf.id w key _ _ refl (λ h. h ∙ x.2, λ h. h ∙ sym x.2)

  lpm_beyond : (v : List ℕ) (p : ℕ) → w < p → (e : Error) × (lpm_mask v (pos p) (pos w) ≡ err e)
  unfolding lpm_mask
  lpm_beyond v p h = (plain "codec.LPMMask: prefixLen out of range", ground arith)

  cut_same : (n k : ℕ) → (n - n % 2 ^ k) / 2 ^ k ≡ n / 2 ^ k
  cut_same n k = grind (arith, pow-pos k)

  lpm-Means :
      (v : List ℕ) (p : ℕ) (r : Result (List ℕ))
      → Masks (suc p) w (value_of v) r
      → Means mf.id w key
          (SamePrefix w key (value_of v) (suc p))
          (wrapping "match" r >>= λ canon. as_field mf (lpm_value canon (pos (suc p))))
  lpm-Means v p (err e) x = Means-err mf.id w key _ _
  lpm-Means v p (ok canon) x = Means-ok mf.id w key _ _ refl (λ h. h ∙ same, λ h. h ∙ sym same)
    where
      k : ℕ
      k = w - suc p

      same : value_of canon / 2 ^ (w - suc p) ≡ value_of v / 2 ^ (w - suc p)
      same = ap (λ (t : ℕ). t / 2 ^ (w - suc p)) x.2 ∙ cut_same (value_of v) (w - suc p)

  ternary-Means :
      (v m : List ℕ) (r q : Result (List ℕ))
      → Conjoins w (value_of v) (value_of m) r
      → Encodes w (value_of m) q
      → Means mf.id w key (bit_and key (value_of m) ≡ bit_and (value_of v) (value_of m)) (
          wrapping "match" r >>= λ applied.
          wrapping "match mask" q >>= λ mask. as_field mf (ternary_value applied mask))
  ternary-Means v m (err e) q x y = Means-err mf.id w key _ _
  ternary-Means v m (ok a) (err e) x y = Means-err mf.id w key _ _
  ternary-Means v m (ok a) (ok mask) x y =
      Means-ok mf.id w key _ _ refl (λ h. sym masked ∙ h ∙ x.3, λ h. masked ∙ h ∙ sym x.3)
    where
      masked : bit_and key (value_of mask) ≡ bit_and key (value_of m)
      masked = ap (λ (t : ℕ). bit_and key t) y.2

  range-Means :
      (l h : List ℕ) (c : Result (Unit {0})) (r q : Result (List ℕ))
      → Encodes w (value_of l) r
      → Encodes w (value_of h) q
      → Means mf.id w key ((value_of l ≤ key) × (key ≤ value_of h)) (
          wrapping "match" c >>= λ _. wrapping "match low" r >>= λ low.
          wrapping "match high" q >>= λ high.
          if is_full_range low high w then ok none else as_field mf (range_value low high))
  range-Means l h (err e) r q x y = Means-err mf.id w key _ _
  range-Means l h (ok u) (err e) q x y = Means-err mf.id w key _ _
  range-Means l h (ok u) (ok low) (err e) x y = Means-err mf.id w key _ _
  range-Means l h (ok u) (ok low) (ok high) x y =
      if-elim (Means mf.id w key ((value_of l ≤ key) × (key ≤ value_of h))) _ _ _
        (λ full. Means-ok mf.id w key _ none tt (
          λ _. (
            omega (arith, is_full_range-low low high w full, x.2),
            omega (arith, is_full_range-high low high w hw full, y.2, hk),
          ),
          λ _. tt,
        ))
        λ _. Means-ok mf.id w key _ _ refl (
          λ b. (omega (arith, b.0, x.2), omega (arith, b.1, y.2)),
          λ b. (omega (arith, b.0, x.2), omega (arith, b.1, y.2)),
        )

  lpm_masked :
      (v : List ℕ) (p : ℕ)
      → AreBytes v
      → Dec (suc p ≤ w)
      → Means mf.id w key (SamePrefix w key (value_of v) (suc p)) (
          wrapping "match" (lpm_mask v (pos (suc p)) (pos w)) >>= λ canon.
          as_field mf (lpm_value canon (pos (suc p))))
  lpm_masked v p b (yes h) = lpm-Means v p _ (lpm_mask-Masks v (suc p) w b hw h)
  lpm_masked v p b (no h) =
      let (e, q) = lpm_beyond v (suc p) (omega (arith, h)) in rw q (Means-err mf.id w key _ _)

  lpm_negative : (v : List ℕ) (p : ℕ) → (e : Error) × (lpm_mask v (negsuc p) (pos w) ≡ err e)
  unfolding lpm_mask
  lpm_negative v p = (plain "codec.LPMMask: prefixLen out of range", ground arith)

  lpm_negative-Means :
      (v : List ℕ) (p : ℕ)
      → Means mf.id w key ⊥ (
          wrapping "match" (lpm_mask v (negsuc p) (pos w)) >>= λ canon.
          as_field mf (lpm_value canon (negsuc p)))
  lpm_negative-Means v p = let (x, q) = lpm_negative v p in rw q (Means-err mf.id w key _ _)

  pub value-Means :
      (mv : MatchValue)
      → mf.bitwidth ≡ pos w
      → HasBytes mv
      → Means mf.id w key (Requests w key mv) (encode_field mf mv)
  unfolding encode_field
  value-Means (exact_match v) e b = rw e (exact-Means v _ (encode_bytes-Encodes v w hw b))
  value-Means (lpm_match v (pos zero)) e b =
      if-elim (Means mf.id w key Unit) _ _ _ (λ _. Means-err mf.id w key _ wrong_kind)
        λ _. Means-ok mf.id w key _ none tt (λ _. tt, λ _. tt)
  value-Means (lpm_match v (pos (suc p))) e b =
      if-elim (Means mf.id w key (SamePrefix w key (value_of v) (suc p))) _ _
        (encode_lpm mf v (pos (suc p))) (λ _. Means-err mf.id w key _ wrong_kind)
        λ _. rw e (lpm_masked v p b (dec_le (suc p) w))
  value-Means (lpm_match v (negsuc p)) e b =
      if-elim (Means mf.id w key ⊥) _ _ (encode_lpm mf v (negsuc p))
        (λ _. Means-err mf.id w key _ wrong_kind) λ _. rw e (lpm_negative-Means v p)
  value-Means (ternary_match v m) e b =
      if-elim (Means mf.id w key (Requests w key (ternary_match v m))) _ _ _
        (λ _. Means-err mf.id w key _ wrong_kind)
        λ _.
          if-elim (Means mf.id w key (Requests w key (ternary_match v m))) _ _
            (encode_ternary mf v m)
            (λ z. Means-ok mf.id w key _ none tt (
              λ _. rw (all_zero-value m z, bit_and-zero key, bit_and-zero (value_of v)) refl,
              λ _. tt,
            ))
            λ _. rw e (
              ternary-Means v m _ _ (ternary_apply-Conjoins v m w b.0 b.1 hw)
                (encode_bytes-Encodes m w hw b.1))
  value-Means (range_match l h) e b =
      if-elim (Means mf.id w key (Requests w key (range_match l h))) _ _ (encode_range mf l h)
        (λ _. Means-err mf.id w key _ wrong_kind)
        λ _. rw e (
          range-Means l h _ _ _ (encode_bytes-Encodes l w hw b.0) (encode_bytes-Encodes h w hw b.1))
  value-Means (optional_match none) e b =
      if-elim (Means mf.id w key Unit) _ _ _ (λ _. Means-err mf.id w key _ wrong_kind)
        λ _. Means-ok mf.id w key _ none tt (λ _. tt, λ _. tt)
  value-Means (optional_match (some v)) e b =
      if-elim (Means mf.id w key (key ≡ value_of v)) _ _ (encode_optional mf (some v))
        (λ _. Means-err mf.id w key _ wrong_kind)
        λ _. rw e (optional-Means v _ (encode_bytes-Encodes v w hw b))
  value-Means foreign e b = Means-err mf.id w key _ _

-- When encodeField succeeds for a field of `w` bits, w positive, then for every key of `w` bits: the
-- encoded field, or its absence, admits the key exactly when the match value asks for it. So a
-- constraint is left out as don't-care only where every key of the width meets it.
pub encode_field-Admits :
    (mf : MatchFieldDef) (w : ℕ) (mv : MatchValue) (o : Option FieldMatch) (key : ℕ)
    → 0 < w
    → mf.bitwidth ≡ pos w
    → HasBytes mv
    → encode_field mf mv ≡ ok o
    → key < 2 ^ w
    → AdmitsField w key o ↔ Requests w key mv
encode_field-Admits mf w mv o key hw e b h hk = ((value-Means mf w key hw hk mv e b).keeps o h).1
