-- ===== src/Codec/Range.antt =====
-- ValidateRange of internal/codec/codec.go, against the order of the integers.
use native.Mathlib.Nat.{mul-le-mul_right}
use p4runtime_go_controller.Common.{
  ℕ, ◌*◌, ◌^◌, ◌≤◌, ◌<◌, ◌≡◌, ap, List, [], ◌∷◌, length, arith, true, ◌⊎◌, inl, inr, ltb,
  if◌then◌else◌, ◌==◌, ◌&&◌, ◌||◌,
}
use p4runtime_go_controller.Common.Int.{pos}
use p4runtime_go_controller.Common.Errors.{
  Error, Result, ok, err, is, plain, invalid_bit_width, wrapping, ◌>>=◌,
}
use p4runtime_go_controller.Codec.{encode_bytes, bytes_above, validate_range}
use p4runtime_go_controller.Codec.Value.{
  value_of, AreBytes, IsCanonical, value_of-lt, IsCanonical-AreBytes,
}
use p4runtime_go_controller.Codec.Encode.{Encodes, encode_bytes-Encodes}
use p4runtime_go_controller.Codec.Unique.{length-le-length}

-- On strings of one length the bytewise comparison is the comparison of the integers.
bytes_above-ltb :
    (l h : List ℕ)
    → AreBytes l
    → AreBytes h
    → length l ≡ length h
    → bytes_above l h ≡ ltb (value_of h) (value_of l)
unfolding bytes_above value_of
bytes_above-ltb [] [] hl hh e = ground arith
bytes_above-ltb [] (b ∷ h) hl hh e = absurd (omega arith)
bytes_above-ltb (a ∷ l) [] hl hh e = absurd (omega arith)
bytes_above-ltb (a ∷ l) (b ∷ h) hl hh e = ground (
  arith,
  bytes_above-ltb l h hl.1 hh.1 lengths,
  value_of-lt l hl.1,
  bound,
  ap (λ (k : ℕ). b * 256 ^ k) lengths,
  λ (p : a < b). mul-le-mul_right (256 ^ length l) p,
  λ (p : b < a). mul-le-mul_right (256 ^ length l) p,
)
  where
    lengths : length l ≡ length h
    lengths = omega arith

    bound : value_of h < 256 ^ length l
    bound = rw lengths (value_of-lt h hh.1)

-- What the length test and the bytewise test say of two canonical strings.
canonical_above :
    (l h : List ℕ)
    → IsCanonical l
    → IsCanonical h
    → (ltb (length h) (length l) || ((length l == length h) && bytes_above l h))
      ≡ ltb (value_of h) (value_of l)
canonical_above l h cl ch = ground (
  arith,
  length-le-length l h cl ch,
  length-le-length h l ch cl,
  bytes_above-ltb l h (IsCanonical-AreBytes l cl) (IsCanonical-AreBytes h ch),
)

abbrev pub low_above_high : Error
low_above_high = plain "codec.ValidateRange: low > high"

-- The outcome of checking the range from `a` to `b` at `w` bits.
abbrev pub ChecksRange : ℕ → ℕ → ℕ → Result (Unit {0}) → Type 0
ChecksRange w a b (ok _) = (a < 2 ^ w) × (b < 2 ^ w) × (a ≤ b)
ChecksRange w a b (err e) =
    (((2 ^ w ≤ a) ⊎ (2 ^ w ≤ b)) × (is e invalid_bit_width ≡ true))
    ⊎ ((a < 2 ^ w) × (b < 2 ^ w) × (b < a) × (e ≡ low_above_high))

-- ValidateRange at a positive width: it succeeds exactly when both endpoints fit and the lower one
-- is not above the higher, whatever leading zeros they are written with; an endpoint that does not
-- fit gives ErrInvalidBitWidth, and endpoints that fit in the wrong order give the order error.
pub validate_range-ChecksRange :
    (low high : List ℕ) (w : ℕ)
    → AreBytes low
    → AreBytes high
    → 0 < w
    → ChecksRange w (value_of low) (value_of high) (validate_range low high (pos w))
validate_range-ChecksRange low high w hl hh hw =
    unfold validate_range in
    go (encode_bytes low (pos w)) (encode_bytes high (pos w)) (encode_bytes-Encodes low w hw hl)
      (encode_bytes-Encodes high w hw hh)
  where
    checked : Result (List ℕ) → Result (List ℕ) → Result (Unit {0})
    checked r q = do
      l ← wrapping "codec.ValidateRange low" r
      h ← wrapping "codec.ValidateRange high" q
      if ltb (length h) (length l) || ((length l == length h) && bytes_above l h)
          then err low_above_high
          else ok tt

    go :
        (r q : Result (List ℕ))
        → Encodes w (value_of low) r
        → Encodes w (value_of high) q
        → ChecksRange w (value_of low) (value_of high) (checked r q)
    go (err e) q x y = inl (inl x.0, unfold is in x.1)
    go (ok l) (err e) x y = inl (inr y.0, unfold is in y.1)
    go (ok l) (ok h) x y = rw (canonical_above l h x.1 y.1) (ground (arith, x, y))
