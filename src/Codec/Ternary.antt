-- ===== src/Codec/Ternary.antt =====
-- TernaryMask of internal/codec/codec.go: the mask of the upper bits, as a number.
use native.Mathlib.Nat.{add-mul-mod_self_left, mod-eq_of_lt}
use p4runtime_go_controller.Common.{
  ℕ, zero, suc, ◌+◌, ◌-◌, ◌*◌, ◌%◌, ◌^◌, ◌≤◌, ◌<◌, ◌≡◌, ap, ◌∙◌, List, [], ◌∷◌, arith, replicate,
  length-replicate, Bool-cases, inl, inr, ==_iff, ◌==◌,
}
use p4runtime_go_controller.Common.Int.{pos}
use p4runtime_go_controller.Common.Power.{
  pow_byte, pow_mono, pow_byte-pos, pow-pos, pow-add, pow_bytes, pow_byte_bits,
}
use p4runtime_go_controller.Common.Errors.{Result, ok, err}
use p4runtime_go_controller.Codec.{
  ternary_mask, clear_low_bits, strip_leading_zeros, ones_mask, byte_len,
}
use p4runtime_go_controller.Codec.Value.{
  value_of, AreBytes, IsCanonical, value-strip, strip-IsCanonical,
}
use p4runtime_go_controller.Codec.Mask.{clear_low_bits-value, clear_low_bits-AreBytes}

value-ones : (n : ℕ) → value_of (replicate n 255) ≡ 256 ^ n - 1
unfolding value_of
value-ones zero = omega arith
value-ones (suc n) = omega (
  arith,
  value-ones n,
  pow_byte n,
  pow_byte-pos n,
  ap (λ (k : ℕ). 255 * 256 ^ k) (length-replicate {A = ℕ} n 255),
)

AreBytes-ones : (n : ℕ) → AreBytes (replicate n 255)
AreBytes-ones zero = tt
AreBytes-ones (suc n) = (omega arith, AreBytes-ones n)

ones_mask-AreBytes : (w : ℕ) → AreBytes (ones_mask w)
ones_mask-AreBytes w = (ground arith, AreBytes-ones (byte_len w - 1))

leading-le : (r : ℕ) → r < 8 → 2 ^ r ≤ 128
leading-le r h = pow_mono {m = r} {n = 7} (omega arith)

value-first : (h n : ℕ) → value_of (h ∷ replicate n 255) ≡ (h + 1) * 256 ^ n - 1
unfolding value_of
value-first h n = grind (
  arith,
  value-ones n,
  pow_byte-pos n,
  ap (λ (k : ℕ). h * 256 ^ k) (length-replicate {A = ℕ} n 255),
)

whole_width : (w n : ℕ) → w ≡ 8 * suc n → 2 ^ w ≡ 256 * 256 ^ n
whole_width w n e = ap (λ (x : ℕ). 2 ^ x) e ∙ pow_bytes (suc n) ∙ pow_byte n

part_width : (w n : ℕ) → w ≡ 8 * n + w % 8 → 2 ^ w ≡ 256 ^ n * 2 ^ (w % 8)
part_width w n e = ap (λ (x : ℕ). 2 ^ x) e ∙ pow_byte_bits n (w % 8)

ternary_mask_zero : (w : ℕ) → 0 < w → ternary_mask (pos 0) (pos w) ≡ ok (0 ∷ [])
unfolding ternary_mask
ternary_mask_zero w hw = ground arith

ternary_mask_prefix :
    (p w : ℕ)
    → 0 < w
    → 0 < p
    → p ≤ w
    → ternary_mask (pos p) (pos w) ≡ ok (strip_leading_zeros (clear_low_bits (ones_mask w) (w - p)))
unfolding ternary_mask
ternary_mask_prefix p w hw hp h = ground arith

-- The mask of all ones is the greatest value of the width.
pub value-ones_mask : (w : ℕ) → 0 < w → value_of (ones_mask w) ≡ 2 ^ w - 1
value-ones_mask w hw = elim (Bool-cases (w % 8 == 0)) [
  | inl e ↦
      rw e
        (value-first 255 n ∙ omega (arith, whole_width w n (omega (arith, (==_iff (w % 8) 0).0 e))))
  | inr e ↦ rw e (
      value-first ((2 ^ (w % 8) - 1) % 256) n
      ∙ ap (λ (t : ℕ). t * 256 ^ n - 1) first_byte
      ∙ omega (arith, part_width w n (ground arith)))
]
  where
    n : ℕ
    n = byte_len w - 1

    first_byte : (2 ^ (w % 8) - 1) % 256 + 1 ≡ 2 ^ (w % 8)
    first_byte = omega (arith, leading-le (w % 8) (omega arith), pow-pos (w % 8))

times-pred : (a m : ℕ) → 0 < m → a * m ≡ a * (m - 1) + a
times-pred a m h = ap (λ (t : ℕ). a * t) up ∙ omega arith
  where
    up : m ≡ m - 1 + 1
    up = omega arith

-- The low k bits of 2^w - 1 are all ones.
ones_mod : (w k : ℕ) → k ≤ w → (2 ^ w - 1) % 2 ^ k ≡ 2 ^ k - 1
ones_mod w k h =
    ap (λ (t : ℕ). t % 2 ^ k) split
    ∙ add-mul-mod_self_left (2 ^ k - 1) (2 ^ k) (2 ^ (w - k) - 1)
    ∙ mod-eq_of_lt (omega (arith, pow-pos k))
  where
    sum : w ≡ k + (w - k)
    sum = omega arith

    product : 2 ^ w ≡ 2 ^ k * 2 ^ (w - k)
    product = ap (λ (x : ℕ). 2 ^ x) sum ∙ pow-add 2 k (w - k)

    split : 2 ^ w - 1 ≡ 2 ^ k - 1 + 2 ^ k * (2 ^ (w - k) - 1)
    split = omega (arith, product, pow-pos k, times-pred (2 ^ k) (2 ^ (w - k)) (pow-pos (w - k)))

abbrev pub IsMask : ℕ → ℕ → Result (List ℕ) → Type 0
IsMask p w (ok out) = IsCanonical out × (value_of out ≡ 2 ^ w - 2 ^ (w - p))
IsMask p w (err e) = ⊥

-- TernaryMask for a positive width and a prefix length within it succeeds, and its result is the
-- canonical string with exactly the first p of the w bits set: the integer 2^w - 2^(w - p).
pub ternary_mask-IsMask : (p w : ℕ) → 0 < w → p ≤ w → IsMask p w (ternary_mask (pos p) (pos w))
ternary_mask-IsMask zero w hw h =
    rw (ternary_mask_zero w hw)
      (omega arith, unfold value_of in omega (arith, ap (λ (t : ℕ). 2 ^ t) whole))
  where
    whole : w - 0 ≡ w
    whole = omega arith
ternary_mask-IsMask (suc p) w hw h = rw (ternary_mask_prefix (suc p) w hw (omega arith) h) (
  strip-IsCanonical cleared (clear_low_bits-AreBytes ones k bytes),
  value-strip cleared
      ∙ clear_low_bits-value ones k bytes
      ∙ ap (λ (t : ℕ). t - t % 2 ^ k) (value-ones_mask w hw)
      ∙ omega
          (arith, ones_mod w k (omega arith), pow-pos k, pow_mono {m = k} {n = w} (omega arith)),
)
  where
    k : ℕ
    k = w - suc p

    ones : List ℕ
    ones = ones_mask w

    bytes : AreBytes ones
    bytes = ones_mask-AreBytes w

    cleared : List ℕ
    cleared = clear_low_bits ones k
