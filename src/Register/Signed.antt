-- ===== src/Register/Signed.antt =====
-- The loop of signedBytes in register/numeric.go, and two's complement integers.
pub mod Width
pub mod Encoding
use native.Mathlib.Nat.{mul-le-mul_right}
use p4runtime_go_controller.Common.{
  ◌⊎◌, inl, inr, ℕ, zero, suc, ◌+◌, ◌-◌, ◌*◌, ◌/◌, ◌^◌, ◌<◌, ◌≤◌, bit_and, bit_xor, ◌≡◌, ◌≢◌, ◌↔◌,
  refl, sym, ap, ◌∙◌, Bool, true, false, ◌&&◌, ◌||◌, not, List, [], ◌∷◌, ◌==◌, ltb, leb, length,
  if◌then◌else◌, arith, All, ==_iff, Bool-cases, ltb→lt, ltb→le, leb→le, leb→lt,
}
use p4runtime_go_controller.Common.Int.{ℤ, pos, negsuc}
use p4runtime_go_controller.Common.Power.{pow_byte, pow_byte_bits, pow_mono, pow-pos, pow_byte-pos}
use p4runtime_go_controller.Common.Bits.{IsByte, passes_under, passes_under_at, table_sound}
use p4runtime_go_controller.Common.Errors.{Result, ok, err, is, invalid_bit_width}
use p4runtime_go_controller.Codec.Value.{value_of, AreBytes, value_of-lt}
use p4runtime_go_controller.Register.{
  has_sign, is_redundant, strip_sign, leading_zeros8, check_signed, signed_bytes, exceeds,
}

-- The integer that a big-endian two's complement string stands for: negative where the top bit of
-- its first byte is set, and then its value less 256^n.
unfoldable pub signed_of : List ℕ → ℤ
signed_of [] = pos 0
signed_of (a ∷ bs) =
    if leb 128 a
    then negsuc (256 ^ length (a ∷ bs) - 1 - value_of (a ∷ bs))
    else pos (value_of (a ∷ bs))

-- The integers of int<w>: from -2^(w-1) to 2^(w-1) - 1.
abbrev pub IsInt : ℕ → ℤ → Type 0
IsInt w (pos n) = n < 2 ^ (w - 1)
IsInt w (negsuc n) = n < 2 ^ (w - 1)

-- No first byte that only repeats the sign of the second.
abbrev pub IsMinimal : List ℕ → Type 0
IsMinimal [] = ⊥
IsMinimal (a ∷ []) = Unit
IsMinimal (a ∷ b ∷ bs) = ¬ (((a ≡ 0) × (b < 128)) ⊎ ((a ≡ 255) × (128 ≤ b)))

-- Tables over the bytes.
abbrev sign_row : ℕ → Bool
sign_row b =
    if leb 128 b
    then has_sign b && (bit_xor b 255 == (255 - b))
    else not (has_sign b) && (bit_xor b 0 == b)

sign_table : passes_under sign_row 256 ≡ true
unfolding passes_under
sign_table = refl

abbrev width_row : ℕ → ℕ → Bool
width_row j b =
    if ltb b (2 ^ j) then leb (9 - leading_zeros8 b) (suc j) else ltb (suc j) (9 - leading_zeros8 b)

width_table : passes_under (λ j. passes_under (width_row j) 256) 8 ≡ true
unfolding passes_under leading_zeros8
width_table = refl

pub has_sign-high : (b : ℕ) → IsByte b → has_sign b ≡ leb 128 b
has_sign-high b hb = ground (arith, passes_under_at sign_row 256 b hb sign_table)

pub flipped-negative : (b : ℕ) → IsByte b → 128 ≤ b → bit_xor b 255 ≡ 255 - b
flipped-negative b hb h = ground (arith, passes_under_at sign_row 256 b hb sign_table)

pub flipped-positive : (b : ℕ) → IsByte b → b < 128 → bit_xor b 0 ≡ b
flipped-positive b hb h = ground (arith, passes_under_at sign_row 256 b hb sign_table)

leading_zeros8-le : (b : ℕ) → leading_zeros8 b ≤ 8
unfolding leading_zeros8
leading_zeros8-le b = ground arith

-- The bits that a byte under 128 needs with its sign.
pub sign_width : (j c : ℕ) → c < 128 → ltb (suc j) (9 - leading_zeros8 c) ≡ leb (2 ^ j) c
sign_width j c hc = elim (Bool-cases (ltb j 8)) [
  | inl small ↦
      ground (arith, table_sound 8 width_row width_table j c (ltb→lt j 8 small) (omega arith))
  | inr big ↦ ground (arith, pow_mono (ltb→le j 8 big), leading_zeros8-le c)
]

redundant-cases :
    (a b : ℕ)
    → IsByte b
    → (is_redundant a b ≡ true) ↔ (((a ≡ 0) × (b < 128)) ⊎ ((a ≡ 255) × (128 ≤ b)))
redundant-cases a b hb = (λ h. to_cases (sym by_sign ∙ h), λ p. by_sign ∙ of_cases p)
  where
    by_sign : is_redundant a b ≡ ((a == 0) && not (leb 128 b)) || ((a == 255) && leb 128 b)
    by_sign = ap (λ s. ((a == 0) && not s) || ((a == 255) && s)) (has_sign-high b hb)

    to_cases :
        (((a == 0) && not (leb 128 b)) || ((a == 255) && leb 128 b)) ≡ true
        → ((a ≡ 0) × (b < 128)) ⊎ ((a ≡ 255) × (128 ≤ b))
    to_cases h = ground arith

    of_cases :
        ((a ≡ 0) × (b < 128)) ⊎ ((a ≡ 255) × (128 ≤ b))
        → (((a == 0) && not (leb 128 b)) || ((a == 255) && leb 128 b)) ≡ true
    of_cases p = ground arith

-- Taking a redundant byte off keeps the integer.
redundant-signed :
    (a b : ℕ) (bs : List ℕ)
    → AreBytes (a ∷ b ∷ bs)
    → is_redundant a b ≡ true
    → signed_of (b ∷ bs) ≡ signed_of (a ∷ b ∷ bs)
unfolding signed_of value_of
redundant-signed a b bs bytes h = elim ((redundant-cases a b (bytes.1.0)).0 h) [
  | inl (a_eq, lt) ↦ ground (arith, ap (λ (t : ℕ). t * 256 ^ suc (length bs)) a_eq)
  | inr (a_eq, le) ↦
      ground (arith, pow_byte (suc (length bs)), ap (λ (t : ℕ). t * 256 ^ suc (length bs)) a_eq)
]

-- What strip_sign keeps and reaches.
abbrev pub Stripped : List ℕ → List ℕ → Type 0
Stripped bs out = (signed_of out ≡ signed_of bs) × AreBytes out × IsMinimal out

Stripped-step :
    (a b : ℕ) (bs : List ℕ) (c : Bool)
    → AreBytes (a ∷ b ∷ bs)
    → is_redundant a b ≡ c
    → Stripped (b ∷ bs) (strip_sign (b ∷ bs))
    → Stripped (a ∷ b ∷ bs) (if c then strip_sign (b ∷ bs) else a ∷ b ∷ bs)
Stripped-step a b bs true bytes r (same, kept, minimal) =
    (same ∙ redundant-signed a b bs bytes r, kept, minimal)
Stripped-step a b bs false bytes r rest =
    (refl, bytes, λ p. ground (arith, (redundant-cases a b (bytes.1.0)).1 p))

pub strip_sign-Stripped :
    (a : ℕ) (bs : List ℕ) → AreBytes (a ∷ bs) → Stripped (a ∷ bs) (strip_sign (a ∷ bs))
unfolding strip_sign
strip_sign-Stripped a [] bytes = (refl, bytes, tt)
strip_sign-Stripped a (b ∷ bs) bytes =
    Stripped-step a b bs (is_redundant a b) bytes refl (strip_sign-Stripped b bs (bytes.1))
