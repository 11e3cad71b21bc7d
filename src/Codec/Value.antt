-- ===== src/Codec/Value.antt =====
-- What a byte string of internal/codec/codec.go stands for, and its canonical form.
use p4runtime_go_controller.Common.{
  ℕ, ◌+◌, ◌*◌, ◌^◌, ◌<◌, ◌≡◌, refl, ap, ◌∙◌, List, [], ◌∷◌, ◌++◌, length, length-append, All, arith,
  ◌==◌, Bool-cases, inl, inr, ==_iff,
}
use p4runtime_go_controller.Common.Power.{pow-add, pow_byte}
use p4runtime_go_controller.Common.Bits.{IsByte}
use p4runtime_go_controller.Codec.{drop_zeros, or_zero, strip_leading_zeros}

-- The unsigned integer that a big-endian byte string stands for.
unfoldable pub value_of : List ℕ → ℕ
value_of [] = 0
value_of (b ∷ bs) = b * 256 ^ length bs + value_of bs

abbrev pub AreBytes : List ℕ → Type 0
AreBytes = All IsByte

-- At least one byte, and no zero byte in front of another.
abbrev pub IsCanonical : List ℕ → Type 0
IsCanonical [] = ⊥
IsCanonical (b ∷ []) = IsByte b
IsCanonical (b ∷ c ∷ bs) = (0 < b) × IsByte b × AreBytes (c ∷ bs)

pub value_of-lt : (bs : List ℕ) → AreBytes bs → value_of bs < 256 ^ length bs
unfolding value_of
value_of-lt [] h = omega arith
value_of-lt (b ∷ bs) h = grind (arith, pow_byte (length bs), value_of-lt bs h.1, h.0)

pub value_of-append :
    (xs ys : List ℕ) → value_of (xs ++ ys) ≡ value_of xs * 256 ^ length ys + value_of ys
unfolding value_of
value_of-append [] ys = omega arith
value_of-append (x ∷ xs) ys = omega (
  arith,
  value_of-append xs ys,
  ap (λ (n : ℕ). x * 256 ^ n) (length-append xs ys),
  ap (λ (n : ℕ). x * n) (pow-add 256 (length xs) (length ys)),
)

pub value-drop_zeros : (bs : List ℕ) → value_of (drop_zeros bs) ≡ value_of bs
unfolding value_of drop_zeros
value-drop_zeros [] = refl
value-drop_zeros (b ∷ bs) = elim (Bool-cases (b == 0)) [
  | inl z ↦
      rw (z, drop_zeros)
        (omega (
          arith,
          value-drop_zeros bs,
          (==_iff b 0).0 z,
          ap (λ (t : ℕ). t * 256 ^ length bs) ((==_iff b 0).0 z),
        ))
  | inr nz ↦ rw (nz, drop_zeros) refl
]

pub value-or_zero : (bs : List ℕ) → value_of (or_zero bs) ≡ value_of bs
unfolding value_of
value-or_zero [] = refl
value-or_zero (b ∷ bs) = refl

pub value-strip : (bs : List ℕ) → value_of (strip_leading_zeros bs) ≡ value_of bs
unfolding strip_leading_zeros
value-strip bs = value-or_zero (drop_zeros bs) ∙ value-drop_zeros bs

-- Bytes with no leading zero.
abbrev pub IsStripped : List ℕ → Type 0
IsStripped [] = Unit
IsStripped (b ∷ bs) = (0 < b) × IsByte b × AreBytes bs

pub drop_zeros-IsStripped : (bs : List ℕ) → AreBytes bs → IsStripped (drop_zeros bs)
unfolding drop_zeros
drop_zeros-IsStripped [] h = tt
drop_zeros-IsStripped (b ∷ bs) h = elim (Bool-cases (b == 0)) [
  | inl z ↦ rw (z, drop_zeros) (drop_zeros-IsStripped bs h.1)
  | inr nz ↦ rw (nz, drop_zeros) (ground arith, h.0, h.1)
]

pub or_zero-IsCanonical : (bs : List ℕ) → IsStripped bs → IsCanonical (or_zero bs)
or_zero-IsCanonical [] h = omega arith
or_zero-IsCanonical (b ∷ []) h = h.1
or_zero-IsCanonical (b ∷ c ∷ bs) h = h

pub strip-IsCanonical : (bs : List ℕ) → AreBytes bs → IsCanonical (strip_leading_zeros bs)
unfolding strip_leading_zeros
strip-IsCanonical bs h = or_zero-IsCanonical (drop_zeros bs) (drop_zeros-IsStripped bs h)

pub IsCanonical-AreBytes : (bs : List ℕ) → IsCanonical bs → AreBytes bs
IsCanonical-AreBytes [] h = tt
IsCanonical-AreBytes (b ∷ []) h = (h, tt)
IsCanonical-AreBytes (b ∷ c ∷ bs) h = (h.1, h.2)
