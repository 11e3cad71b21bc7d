-- ===== src/Register/Signed/Encoding.antt =====
-- signedBytes of register/numeric.go, against the two's complement integers of a width.
use p4runtime_go_controller.Common.{
  inl, inr, ℕ, suc, ◌+◌, ◌-◌, ◌*◌, ◌/◌, ◌^◌, ◌<◌, ◌≤◌, bit_xor, ◌≡◌, ◌↔◌, refl, sym, subst, ap, ◌∙◌,
  Bool, true, false, ◌||◌, List, [], ◌∷◌, ltb, leb, length, if◌then◌else◌, arith, Bool-cases,
  leb→le, leb→lt,
}
use p4runtime_go_controller.Common.Int.{ℤ, pos}
use p4runtime_go_controller.Common.Power.{pow_byte, pow-pos}
use p4runtime_go_controller.Common.Bits.{IsByte}
use p4runtime_go_controller.Common.Errors.{
  Result, ok, err, is, Sentinel-discrete, invalid_bit_width,
}
use p4runtime_go_controller.Codec.Value.{value_of, AreBytes, value_of-lt}
use p4runtime_go_controller.Register.{
  has_sign, strip_sign, leading_zeros8, check_signed, signed_bytes, exceeds,
}
use p4runtime_go_controller.Register.Signed.{
  signed_of, IsInt, IsMinimal, Stripped, strip_sign-Stripped, has_sign-high, flipped-negative,
  flipped-positive,
}
use p4runtime_go_controller.Register.Signed.Width.{
  too_big, too_big-exact, minimal-positive, minimal-negative,
}

-- What signedBytes returns for the integer of its input: minimal bytes of the same integer where
-- int<w> has it, and an invalid bit width where it does not.
abbrev pub SignedEncodes : ℕ → ℤ → Result (List ℕ) → Type 0
SignedEncodes w z (ok out) = (signed_of out ≡ z) × AreBytes out × IsMinimal out × IsInt w z
SignedEncodes w z (err e) = (is e invalid_bit_width ≡ true) × ¬ IsInt w z

-- A byte with its sign taken out.
abbrev magnitude_byte : ℕ → ℕ
magnitude_byte a = if leb 128 a then 255 - a else a

flipped : (a : ℕ) → IsByte a → bit_xor a (if has_sign a then 255 else 0) ≡ magnitude_byte a
flipped a ha = ap (λ s. bit_xor a (if s then 255 else 0)) (has_sign-high a ha) ∙ by_sign
  where
    by_sign : bit_xor a (if leb 128 a then 255 else 0) ≡ magnitude_byte a
    by_sign = ground (arith, flipped-negative a ha, flipped-positive a ha)

if-or :
    {A : Type 0} (p q : Bool) (x y : A)
    → (if p then x else if q then x else y) ≡ (if p || q then x else y)
if-or true q x y = refl
if-or false q x y = refl

-- The two checks on minimal bytes, in one test.
check_signed-width :
    (a : ℕ) (bs : List ℕ) (w : ℕ)
    → IsByte a
    → check_signed (a ∷ bs) w
      ≡ (if too_big w (length bs) (magnitude_byte a) then err exceeds else ok (a ∷ bs))
unfolding check_signed
check_signed-width a bs w ha =
    if-or (ltb ((w - 1) / 8) (length bs))
      (ltb (w - length bs * 8) (9 - leading_zeros8 (bit_xor a (if has_sign a then 255 else 0))))
      (err exceeds) (ok (a ∷ bs))
    ∙ ap (λ c. if too_big w (length bs) c then err exceeds else ok (a ∷ bs)) (flipped a ha)

verdict :
    (w n : ℕ) (out : List ℕ) (b : Bool)
    → AreBytes out
    → IsMinimal out
    → leb (2 ^ (w - 1)) n ≡ b
    → IsInt w (signed_of out) ↔ (n < 2 ^ (w - 1))
    → SignedEncodes w (signed_of out) (if b then err exceeds else ok out)
unfolding is Sentinel-discrete
verdict w n out true bytes minimal h fits =
    (refl, λ small. omega (arith, fits.0 small, leb→le (2 ^ (w - 1)) n h))
verdict w n out false bytes minimal h fits =
    (refl, bytes, minimal, fits.1 (leb→lt (2 ^ (w - 1)) n h))

-- The digits after the first, with the sign taken out.
abbrev magnitude_rest : ℕ → List ℕ → ℕ
magnitude_rest a bs = if leb 128 a then 256 ^ length bs - 1 - value_of bs else value_of bs

abbrev magnitude : ℕ → List ℕ → ℕ
magnitude a bs = magnitude_byte a * 256 ^ length bs + magnitude_rest a bs

-- Complementing all digits.
complement : (a k v : ℕ) → a < 256 → v < k → 256 * k - 1 - (a * k + v) ≡ (255 - a) * k + (k - 1 - v)
complement a k v ha hv = omega (arith, ap (λ (t : ℕ). t * k) whole)
  where
    whole : (255 - a) + a ≡ 255
    whole = omega arith

IsInt-magnitude :
    (w a : ℕ) (bs : List ℕ)
    → AreBytes (a ∷ bs)
    → IsInt w (signed_of (a ∷ bs)) ↔ (magnitude a bs < 2 ^ (w - 1))
unfolding signed_of value_of
IsInt-magnitude w a bs bytes = elim (Bool-cases (leb 128 a)) [
  | inl high ↦ rw high (λ x. omega (arith, same), λ x. omega (arith, same))
  | inr low ↦ rw low (λ x. x, λ x. x)
]
  where
    same :
        256 ^ suc (length bs) - 1 - (a * 256 ^ length bs + value_of bs)
        ≡ (255 - a) * 256 ^ length bs + (256 ^ length bs - 1 - value_of bs)
    same =
        ap (λ (n : ℕ). n - 1 - (a * 256 ^ length bs + value_of bs)) (pow_byte (length bs))
        ∙ complement a (256 ^ length bs) (value_of bs) (bytes.0) (value_of-lt bs (bytes.1))

magnitude_byte-lt : (a : ℕ) → IsByte a → magnitude_byte a < 128
magnitude_byte-lt a ha = ground arith

magnitude_rest-lt : (a : ℕ) (bs : List ℕ) → AreBytes bs → magnitude_rest a bs < 256 ^ length bs
magnitude_rest-lt a bs bytes = ground (arith, value_of-lt bs bytes)

magnitude_rest-minimal :
    (a : ℕ) (bs : List ℕ)
    → AreBytes (a ∷ bs)
    → IsMinimal (a ∷ bs)
    → (m : ℕ) → length bs ≡ suc m
    → magnitude_byte a ≡ 0
    → 128 * 256 ^ m ≤ magnitude_rest a bs
magnitude_rest-minimal a bs bytes minimal m long = elim (Bool-cases (leb 128 a)) [
  | inl high ↦ rw high (minimal-negative a bs bytes minimal (leb→le 128 a high) m long)
  | inr low ↦ rw low (minimal-positive a bs bytes minimal (leb→lt 128 a low) m long)
]

check_signed-SignedEncodes :
    (a : ℕ) (bs : List ℕ) (w : ℕ)
    → 0 < w
    → AreBytes (a ∷ bs)
    → IsMinimal (a ∷ bs)
    → SignedEncodes w (signed_of (a ∷ bs)) (check_signed (a ∷ bs) w)
check_signed-SignedEncodes a bs w hw bytes minimal =
    subst (SignedEncodes w (signed_of (a ∷ bs))) (sym (check_signed-width a bs w (bytes.0))) (
      verdict w (magnitude a bs) (a ∷ bs) (too_big w (length bs) (magnitude_byte a)) bytes minimal
        (sym (
          too_big-exact w (length bs) (magnitude_byte a) (magnitude_rest a bs) hw
            (magnitude_byte-lt a (bytes.0)) (magnitude_rest-lt a bs (bytes.1))
            (magnitude_rest-minimal a bs bytes minimal)))
        (IsInt-magnitude w a bs bytes))

Stripped-SignedEncodes :
    (value out : List ℕ) (w : ℕ)
    → 0 < w
    → Stripped value out
    → SignedEncodes w (signed_of value) (check_signed out w)
Stripped-SignedEncodes value [] w hw (same, bytes, minimal) = absurd minimal
Stripped-SignedEncodes value (a ∷ bs) w hw (same, bytes, minimal) =
    subst (λ z. SignedEncodes w z (check_signed (a ∷ bs) w)) same
      (check_signed-SignedEncodes a bs w hw bytes minimal)

empty-signed_bytes : (w : ℕ) → 0 < w → signed_bytes [] (pos w) ≡ ok (0 ∷ [])
unfolding signed_bytes
empty-signed_bytes w hw = ground arith

some-signed_bytes :
    (a : ℕ) (bs : List ℕ) (w : ℕ)
    → 0 < w
    → signed_bytes (a ∷ bs) (pos w) ≡ check_signed (strip_sign (a ∷ bs)) w
unfolding signed_bytes
some-signed_bytes a bs w hw = ground arith

-- For bytes of any length and a positive width, signedBytes returns the minimal two's complement
-- bytes of the integer that its input stands for where int<width> has that integer, and an invalid
-- bit width error where it has not; no bytes stand for 0.
pub signed_bytes-SignedEncodes :
    (value : List ℕ) (w : ℕ)
    → 0 < w
    → AreBytes value
    → SignedEncodes w (signed_of value) (signed_bytes value (pos w))
unfolding signed_of value_of
signed_bytes-SignedEncodes [] w hw bytes =
    subst (SignedEncodes w (pos 0)) (sym (empty-signed_bytes w hw))
      (refl, (omega arith, tt), tt, pow-pos (w - 1))
signed_bytes-SignedEncodes (a ∷ bs) w hw bytes =
    subst (SignedEncodes w (signed_of (a ∷ bs))) (sym (some-signed_bytes a bs w hw))
      (Stripped-SignedEncodes (a ∷ bs) (strip_sign (a ∷ bs)) w hw (strip_sign-Stripped a bs bytes))
