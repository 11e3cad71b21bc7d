-- ===== src/Match/FullRange.antt =====
-- allZero and isFullRange of tableentry/builder.go, as statements on integers.
use p4runtime_go_controller.Common.{
  ℕ, ◌-◌, ◌*◌, ◌^◌, ◌<◌, ◌≡◌, refl, ap, ap₂, ◌∙◌, true, List, [], ◌∷◌, length, replicate, arith,
  ==_iff, ◌==◌, Bool-cases, inl, inr,
}
use p4runtime_go_controller.Codec.{ones_mask, byte_len}
use p4runtime_go_controller.Codec.Value.{value_of}
use p4runtime_go_controller.Codec.Ternary.{value-ones_mask}
use p4runtime_go_controller.Match.{all_zero, all_ones, is_full_range}

pub all_zero-value : (bs : List ℕ) → all_zero bs ≡ true → value_of bs ≡ 0
unfolding all_zero value_of
all_zero-value [] h = refl
all_zero-value (c ∷ bs) h = elim (Bool-cases (c == 0)) [
  | inl z ↦
      omega (
        arith,
        all_zero-value bs (rw z at h),
        ap (λ (t : ℕ). t * 256 ^ length bs) ((==_iff c 0).0 z),
      )
  | inr nz ↦ absurd (cc (rw nz at h))
]

all_ones-replicate : (bs : List ℕ) → all_ones bs ≡ true → bs ≡ replicate (length bs) 255
unfolding all_ones
all_ones-replicate [] h = refl
all_ones-replicate (c ∷ bs) h = elim (Bool-cases (c == 255)) [
  | inl z ↦ ap₂ ◌∷◌ ((==_iff c 255).0 z) (all_ones-replicate bs (rw z at h))
  | inr nz ↦ absurd (cc (rw nz at h))
]

pub is_full_range-low :
    (low high : List ℕ) (w : ℕ) → is_full_range low high w ≡ true → value_of low ≡ 0
unfolding is_full_range
is_full_range-low low [] w h = absurd (cc)
is_full_range-low low (c ∷ high) w h = all_zero-value low (ground arith)

is_full_range-ones :
    (low high : List ℕ) (w : ℕ) → 0 < w → is_full_range low high w ≡ true → high ≡ ones_mask w
unfolding is_full_range
is_full_range-ones low [] w hw h = absurd (cc)
is_full_range-ones low (c ∷ high) w hw h =
    ap₂ ◌∷◌ (ground arith)
      (all_ones-replicate high (ground arith) ∙ ap (λ (n : ℕ). replicate n 255) size)
  where
    size : length high ≡ byte_len w - 1
    size = ground arith

pub is_full_range-high :
    (low high : List ℕ) (w : ℕ)
    → 0 < w
    → is_full_range low high w ≡ true
    → value_of high ≡ 2 ^ w - 1
is_full_range-high low high w hw h =
    ap value_of (is_full_range-ones low high w hw h) ∙ value-ones_mask w hw
