-- ===== src/Codec/Apply.antt =====
-- TernaryApply of internal/codec/codec.go, against the conjunction of two integers.
use native.Mathlib.Decide.{dec_le}
use p4runtime_go_controller.Common.{
  ℕ, suc, ◌+◌, ◌-◌, ◌*◌, ◌^◌, ◌≤◌, ◌<◌, ◌≡◌, refl, ap, ap₂, ◌∙◌, sym, subst, List, [], ◌∷◌, length,
  arith, get_or, drop, take, take-append-drop, length-drop, drop-get_or, All-drop, bit_and, true,
  ◌⊎◌, inl, inr,
}
use p4runtime_go_controller.Common.Int.{pos}
use p4runtime_go_controller.Common.Power.{pow_byte_mono}
use p4runtime_go_controller.Common.BitAnd.{bit_and-le, zero-bit_and, bit_and-zero, bit_and_split}
use p4runtime_go_controller.Common.Bits.{IsByte}
use p4runtime_go_controller.Common.Errors.{Result, ok, err, is, invalid_bit_width, wrapping, ◌>>=◌}
use p4runtime_go_controller.Codec.{encode_bytes, apply_from, ternary_apply, strip_leading_zeros}
use p4runtime_go_controller.Codec.Value.{
  value_of, AreBytes, IsCanonical, value-strip, strip-IsCanonical, value_of-lt, value_of-append,
  IsCanonical-AreBytes,
}
use p4runtime_go_controller.Codec.Encode.{Encodes, encode_bytes-Encodes}

-- Two strings of one length, byte by byte.
zip_and : List ℕ → List ℕ → List ℕ
zip_and [] m = []
zip_and (b ∷ v) [] = []
zip_and (b ∷ v) (c ∷ m) = bit_and b c ∷ zip_and v m

length-zip_and : (v m : List ℕ) → length v ≡ length m → length (zip_and v m) ≡ length v
unfolding zip_and
length-zip_and [] m h = refl
length-zip_and (b ∷ v) [] h = absurd (omega arith)
length-zip_and (b ∷ v) (c ∷ m) h = omega (arith, length-zip_and v m (omega arith))

value-zip_and :
    (v m : List ℕ)
    → AreBytes v
    → AreBytes m
    → length v ≡ length m
    → value_of (zip_and v m) ≡ bit_and (value_of v) (value_of m)
unfolding zip_and value_of
value-zip_and [] [] hv hm h = sym (zero-bit_and 0)
value-zip_and [] (c ∷ m) hv hm h = absurd (omega arith)
value-zip_and (b ∷ v) [] hv hm h = absurd (omega arith)
value-zip_and (b ∷ v) (c ∷ m) hv hm h =
    ap₂ (λ (k t : ℕ). bit_and b c * 256 ^ k + t) (length-zip_and v m lengths)
      (value-zip_and v m hv.1 hm.1 lengths)
    ∙ sym (bit_and_split (length v) b c (value_of v) (value_of m) (value_of-lt v hv.1) bound)
    ∙ ap (λ (k : ℕ). bit_and (b * 256 ^ length v + value_of v) (c * 256 ^ k + value_of m)) lengths
  where
    lengths : length v ≡ length m
    lengths = omega arith

    bound : value_of m < 256 ^ length v
    bound = rw lengths (value_of-lt m hm.1)

-- Where the mask is at least as long as what is left of the value, the loop pairs their last bytes.
apply_from-zip_and :
    (i total : ℕ) (v m : List ℕ)
    → i + length v ≡ total
    → length v ≤ length m
    → apply_from i total v m ≡ zip_and v (drop (length m - length v) m)
unfolding apply_from zip_and
apply_from-zip_and i total [] m e h = refl
apply_from-zip_and i total (b ∷ v) m e h =
    ap₂ ◌∷◌ (ground (arith, ap (λ (t : ℕ). bit_and b (get_or m t 0)) index)) (
      apply_from-zip_and (suc i) total v m (omega arith) (omega arith)
      ∙ ap (λ (t : ℕ). zip_and v (drop t m)) next)
    ∙ ap (zip_and (b ∷ v)) (sym (drop-get_or m j 0 (omega arith)))
  where
    j : ℕ
    j = length m - suc (length v)

    index : i + length m - total ≡ j
    index = omega arith

    next : length m - length v ≡ suc j
    next = omega arith

-- The bytes of the mask above the value do not matter.
value-drop :
    (v m : List ℕ)
    → AreBytes v
    → AreBytes m
    → length v ≤ length m
    → bit_and (value_of v) (value_of (drop (length m - length v) m))
      ≡ bit_and (value_of v) (value_of m)
value-drop v m hv hm h =
    sym (zero-add (bit_and (value_of v) y))
    ∙ ap (λ (t : ℕ). t * 256 ^ length v + bit_and (value_of v) y) (sym (zero-bit_and x))
    ∙ sym (bit_and_split (length v) 0 x (value_of v) y (value_of-lt v hv) bound)
    ∙ ap₂ bit_and (zero-add (value_of v)) (sym split)
  where
    d : ℕ
    d = length m - length v

    x : ℕ
    x = value_of (take d m)

    y : ℕ
    y = value_of (drop d m)

    size : length (drop d m) ≡ length v
    size = omega (arith, length-drop d m)

    bound : y < 256 ^ length v
    bound = subst (λ k. y < 256 ^ k) size (value_of-lt (drop d m) (All-drop IsByte d m hm))

    split : value_of m ≡ x * 256 ^ length v + y
    split =
        ap value_of (sym (take-append-drop d m))
        ∙ value_of-append (take d m) (drop d m)
        ∙ ap (λ (k : ℕ). x * 256 ^ k + y) size

    zero-add : (t : ℕ) → 0 * 256 ^ length v + t ≡ t
    zero-add t = omega arith

-- A byte of the value above the mask is cleared.
apply_from-above :
    (i total b : ℕ) (v m : List ℕ)
    → i + length (b ∷ v) ≡ total
    → length m < length (b ∷ v)
    → apply_from i total (b ∷ v) m ≡ 0 ∷ apply_from (suc i) total v m
unfolding apply_from
apply_from-above i total b v m e h = ground arith

value_zero : (bs : List ℕ) → value_of (0 ∷ bs) ≡ value_of bs
unfolding value_of
value_zero bs = omega arith

value-apply_from :
    (i total : ℕ) (v m : List ℕ)
    → AreBytes v
    → AreBytes m
    → i + length v ≡ total
    → value_of (apply_from i total v m) ≡ bit_and (value_of v) (value_of m)
value-apply_from i total [] m hv hm e =
    unfold apply_from value_of in sym (zero-bit_and (value_of m))
value-apply_from i total (b ∷ v) m hv hm e = elim (dec_le (length (b ∷ v)) (length m)) [
  | yes h ↦
      ap value_of (apply_from-zip_and i total (b ∷ v) m e h)
      ∙ value-zip_and (b ∷ v) (drop (length m - length (b ∷ v)) m) hv (All-drop IsByte _ m hm)
          (omega (arith, length-drop (length m - length (b ∷ v)) m))
      ∙ value-drop (b ∷ v) m hv hm h
  | no h ↦
      ap value_of (apply_from-above i total b v m e (omega arith))
      ∙ value_zero (apply_from (suc i) total v m)
      ∙ value-apply_from (suc i) total v m hv.1 hm (omega arith)
      ∙ low_byte (omega arith)
]
  where
    low_byte :
        length m ≤ length v
        → bit_and (value_of v) (value_of m) ≡ bit_and (value_of (b ∷ v)) (value_of m)
    low_byte h =
        omega (arith, ap (λ (t : ℕ). t * 256 ^ length v) (bit_and-zero b))
        ∙ sym (
            bit_and_split (length v) b 0 (value_of v) (value_of m) (value_of-lt v hv.1)
              (omega (arith, value_of-lt m hm, pow_byte_mono h)))
        ∙ ap₂ bit_and (unfold value_of in refl) (omega arith)

apply_from-AreBytes : (i total : ℕ) (v m : List ℕ) → AreBytes v → AreBytes (apply_from i total v m)
unfolding apply_from
apply_from-AreBytes i total [] m h = tt
apply_from-AreBytes i total (b ∷ v) m h = (
  ground (arith, bit_and-le b (get_or m (i + length m - total) 0)),
  apply_from-AreBytes (suc i) total v m h.1,
)

-- The outcome of the conjunction of the integers `a` and `b` at `w` bits.
abbrev pub Conjoins : ℕ → ℕ → ℕ → Result (List ℕ) → Type 0
Conjoins w a b (ok out) = (a < 2 ^ w) × (b < 2 ^ w) × IsCanonical out × (value_of out ≡ bit_and a b)
Conjoins w a b (err e) = ((2 ^ w ≤ a) ⊎ (2 ^ w ≤ b)) × (is e invalid_bit_width ≡ true)

-- TernaryApply at a positive width, for strings of any lengths: when both integers fit, the result
-- is the canonical string of their bitwise conjunction; otherwise it is ErrInvalidBitWidth.
pub ternary_apply-Conjoins :
    (value mask : List ℕ) (w : ℕ)
    → AreBytes value
    → AreBytes mask
    → 0 < w
    → Conjoins w (value_of value) (value_of mask) (ternary_apply value mask (pos w))
ternary_apply-Conjoins value mask w hv hm hw =
    unfold ternary_apply in
    go (encode_bytes value (pos w)) (encode_bytes mask (pos w)) (encode_bytes-Encodes value w hw hv)
      (encode_bytes-Encodes mask w hw hm)
  where
    conjoined : Result (List ℕ) → Result (List ℕ) → Result (List ℕ)
    conjoined r q = do
      v ← wrapping "codec.TernaryApply value" r
      m ← wrapping "codec.TernaryApply mask" q
      ok (strip_leading_zeros (apply_from 0 (length v) v m))

    go :
        (r q : Result (List ℕ))
        → Encodes w (value_of value) r
        → Encodes w (value_of mask) q
        → Conjoins w (value_of value) (value_of mask) (conjoined r q)
    go (err e) q x y = (inl x.0, unfold is in x.1)
    go (ok v) (err e) x y = (inr y.0, unfold is in y.1)
    go (ok v) (ok m) x y =
        let v_bytes = IsCanonical-AreBytes v x.1 in
        (
          x.0,
          y.0,
          strip-IsCanonical (apply_from 0 (length v) v m)
              (apply_from-AreBytes 0 (length v) v m v_bytes),
          value-strip (apply_from 0 (length v) v m)
              ∙ value-apply_from 0 (length v) v m v_bytes (IsCanonical-AreBytes m y.1) (omega arith)
              ∙ ap₂ bit_and x.2 y.2,
        )
