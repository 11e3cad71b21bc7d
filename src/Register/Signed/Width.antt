-- ===== src/Register/Signed/Width.antt =====
-- The width checks of signedBytes in register/numeric.go, as a bound on a magnitude.
use native.Mathlib.Nat.{mul-le-mul_right}
use p4runtime_go_controller.Common.{
  inl, inr, ℕ, zero, suc, ◌+◌, ◌-◌, ◌*◌, ◌/◌, ◌^◌, ◌<◌, ◌≤◌, ◌≡◌, refl, sym, ap, ◌∙◌, Bool, true,
  false, ◌||◌, List, [], ◌∷◌, ltb, leb, length, arith, Bool-cases, ltb→lt, ltb→le, leb→le, leb→lt,
}
use p4runtime_go_controller.Common.Power.{pow_byte, pow_byte_bits, pow_mono}
use p4runtime_go_controller.Codec.Value.{value_of, AreBytes, value_of-lt}
use p4runtime_go_controller.Register.{leading_zeros8}
use p4runtime_go_controller.Register.Signed.{IsMinimal, sign_width}

-- A first byte below 2^j is one of a number below 2^j * 256^k.
below-digits : (j k c r : ℕ) → r < 256 ^ k → leb (2 ^ j) c ≡ leb (256 ^ k * 2 ^ j) (c * 256 ^ k + r)
below-digits j k c r hr = elim (Bool-cases (leb (2 ^ j) c)) [
  | inl le ↦ ground (arith, mul-le-mul_right (256 ^ k) (leb→le (2 ^ j) c le))
  | inr lt ↦ ground (arith, mul-le-mul_right (256 ^ k) (leb→lt (2 ^ j) c lt))
]

-- The least magnitude of minimal digits: the first digit is 0 only before one of 128 or more.
least-digits :
    (w k c r : ℕ)
    → 0 < w
    → w ≤ k * 8
    → ((m : ℕ) → k ≡ suc m → c ≡ 0 → 128 * 256 ^ m ≤ r)
    → 2 ^ (w - 1) ≤ c * 256 ^ k + r
least-digits w zero c r hw long top = omega arith
least-digits w (suc k) zero r hw long top =
    omega (
      arith,
      top k refl refl,
      pow_mono {m = w - 1} {n = 8 * k + 7} (omega arith),
      pow_byte_bits k 7,
    )
least-digits w (suc k) (suc c) r hw long top =
    omega (arith, pow_mono {m = w - 1} {n = 8 * k + 7} (omega arith), pow_byte_bits k 7, pow_byte k)

-- The two checks of a width find the numbers of 2^(w-1) and more.
abbrev pub too_big : ℕ → ℕ → ℕ → Bool
too_big w k c = ltb ((w - 1) / 8) k || ltb (w - k * 8) (9 - leading_zeros8 c)

pub too_big-exact :
    (w k c r : ℕ)
    → 0 < w
    → c < 128
    → r < 256 ^ k
    → ((m : ℕ) → k ≡ suc m → c ≡ 0 → 128 * 256 ^ m ≤ r)
    → too_big w k c ≡ leb (2 ^ (w - 1)) (c * 256 ^ k + r)
too_big-exact w k c r hw hc hr top = elim (Bool-cases (ltb ((w - 1) / 8) k)) [
  | inl long ↦ ground (arith, least-digits w k c r hw (long_bits long) top)
  | inr short ↦ ground (arith, second short)
]
  where
    long_bits : ltb ((w - 1) / 8) k ≡ true → w ≤ k * 8
    long_bits h = omega (arith, ltb→lt ((w - 1) / 8) k h)

    second :
        ltb ((w - 1) / 8) k ≡ false
        → ltb (w - k * 8) (9 - leading_zeros8 c) ≡ leb (2 ^ (w - 1)) (c * 256 ^ k + r)
    second h =
        ap (λ n. ltb n (9 - leading_zeros8 c)) (omega (arith, ltb→le ((w - 1) / 8) k h))
        ∙ sign_width (w - 1 - k * 8) c hc
        ∙ below-digits (w - 1 - k * 8) k c r hr
        ∙ ap (λ n. leb n (c * 256 ^ k + r))
            (sym (pow_byte_bits k (w - 1 - k * 8))
              ∙ ap (λ (e : ℕ). 2 ^ e) (omega (arith, ltb→le ((w - 1) / 8) k h)))

-- The first digits of minimal bytes.
pub minimal-positive :
    (a : ℕ) (bs : List ℕ)
    → AreBytes (a ∷ bs)
    → IsMinimal (a ∷ bs)
    → a < 128
    → (m : ℕ) → length bs ≡ suc m
    → a ≡ 0
    → 128 * 256 ^ m ≤ value_of bs
unfolding value_of
minimal-positive a [] bytes minimal low m long z = absurd (omega arith)
minimal-positive a (b ∷ bs) bytes minimal low m long z =
    omega (arith, mul-le-mul_right (256 ^ length bs) next, ap (λ (n : ℕ). 256 ^ n) at_m)
  where
    at_m : length bs ≡ m
    at_m = omega arith

    next : 128 ≤ b
    next = elim (Bool-cases (ltb b 128)) [
      | inl lt ↦ absurd (minimal (inl (z, ltb→lt b 128 lt)))
      | inr le ↦ ltb→le b 128 le
    ]

pub minimal-negative :
    (a : ℕ) (bs : List ℕ)
    → AreBytes (a ∷ bs)
    → IsMinimal (a ∷ bs)
    → 128 ≤ a
    → (m : ℕ) → length bs ≡ suc m
    → 255 - a ≡ 0
    → 128 * 256 ^ m ≤ 256 ^ length bs - 1 - value_of bs
unfolding value_of
minimal-negative a [] bytes minimal high m long z = absurd (omega arith)
minimal-negative a (b ∷ bs) bytes minimal high m long z = omega (
  arith,
  mul-le-mul_right (256 ^ length bs) next,
  ap (λ (n : ℕ). 256 ^ n) at_m,
  pow_byte (length bs),
  value_of-lt bs (bytes.1.1),
)
  where
    at_m : length bs ≡ m
    at_m = omega arith

    top : a ≡ 255
    top = omega (arith, bytes.0)

    next : b ≤ 127
    next = elim (Bool-cases (ltb b 128)) [
      | inl lt ↦ omega (arith, ltb→lt b 128 lt)
      | inr le ↦ absurd (minimal (inr (top, ltb→le b 128 le)))
    ]
