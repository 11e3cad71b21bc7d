-- ===== src/Codec/Encode.antt =====
-- EncodeBytes of internal/codec/codec.go, against the integers of the width.
use p4runtime_go_controller.Common.{
  ℕ, zero, suc, ◌+◌, ◌*◌, ◌%◌, ◌^◌, ◌≤◌, ◌<◌, ◌≡◌, ◌≢◌, refl, ap, ◌∙◌, subst, true, List, [], ◌∷◌,
  length, arith,
}
use p4runtime_go_controller.Common.Int.{ℤ, pos, negsuc}
use p4runtime_go_controller.Common.Power.{pow_mono, pow_bytes, pow_byte_bits, pow-pos}
use p4runtime_go_controller.Common.Bits.{bit_clear-zero, bit_clear-ne-zero}
use p4runtime_go_controller.Common.Errors.{
  Result, Error, ok, err, is, plain, invalid_bit_width, Sentinel-discrete,
}
use p4runtime_go_controller.Codec.{drop_zeros, byte_len, check_width, encode_bytes, too_wide}
use p4runtime_go_controller.Codec.Value.{
  value_of, AreBytes, IsCanonical, IsStripped, value_of-lt, value-drop_zeros, drop_zeros-IsStripped,
  or_zero-IsCanonical,
}

-- The outcome of encoding the integer `n` for `w` bits: a canonical string of the same value when
-- `n` fits, and ErrInvalidBitWidth when it does not.
abbrev pub Encodes : ℕ → ℕ → Result (List ℕ) → Type 0
Encodes w n (ok out) = (n < 2 ^ w) × IsCanonical out × (value_of out ≡ n)
Encodes w n (err e) = (2 ^ w ≤ n) × (is e invalid_bit_width ≡ true)

too_wide-is : is too_wide invalid_bit_width ≡ true
unfolding is Sentinel-discrete
too_wide-is = refl

module _ (first : ℕ) (rest : List ℕ) (w : ℕ) (v : IsStripped (first ∷ rest)) where
  high_value : 256 ^ length rest ≤ value_of (first ∷ rest)
  unfolding value_of
  high_value = grind (arith, v.0)

  -- All the significant bytes fit when the width has as many whole bytes.
  whole_bytes : 8 * suc (length rest) ≤ w → value_of (first ∷ rest) < 2 ^ w
  whole_bytes h =
      omega
        (arith, value_of-lt (first ∷ rest) (v.1, v.2), pow_bytes (suc (length rest)), pow_mono h)

  too_long : byte_len w < suc (length rest) → 2 ^ w ≤ value_of (first ∷ rest)
  too_long h = omega (arith, pow_mono fits, pow_bytes (length rest), high_value)
    where
      fits : w ≤ 8 * length rest
      fits = omega arith

  module _ (size : byte_len w ≡ suc (length rest)) (partial : w % 8 ≢ 0) where
    split_width : 2 ^ w ≡ 256 ^ length rest * 2 ^ (w % 8)
    split_width = ap (λ (e : ℕ). 2 ^ e) split ∙ pow_byte_bits (length rest) (w % 8)
      where
        split : w ≡ 8 * length rest + w % 8
        split = omega arith

    partial_fits : first < 2 ^ (w % 8) → value_of (first ∷ rest) < 2 ^ w
    unfolding value_of
    partial_fits h = grind (arith, split_width, value_of-lt rest v.2, h)

    partial_exceeds : 2 ^ (w % 8) ≤ first → 2 ^ w ≤ value_of (first ∷ rest)
    unfolding value_of
    partial_exceeds h = grind (arith, split_width, h)

check_width-Encodes :
    (bs : List ℕ) (w : ℕ) → 0 < w → IsStripped bs → Encodes w (value_of bs) (check_width bs w)
unfolding check_width
check_width-Encodes [] w hw v = unfold value_of in (pow-pos w, omega arith, refl)
check_width-Encodes (first ∷ rest) w hw v =
    let canonical = or_zero-IsCanonical (first ∷ rest) v in
    ground (
      arith,
      canonical,
      too_wide-is,
      too_long first rest w v,
      whole_bytes first rest w v,
      partial_fits first rest w v,
      partial_exceeds first rest w v,
      bit_clear-zero (w % 8) first,
      bit_clear-ne-zero (w % 8) first,
    )

abbrev pub not_positive : Error
not_positive = plain "codec.EncodeBytes: bitwidth must be positive"

-- The outcome for any Go `int` as the width.
abbrev pub EncodesAt : ℤ → ℕ → Result (List ℕ) → Type 0
EncodesAt (negsuc k) n r = r ≡ err not_positive
EncodesAt (pos zero) n r = r ≡ err not_positive
EncodesAt (pos (suc k)) n r = Encodes (suc k) n r

encode_bytes_positive :
    (bs : List ℕ) (k : ℕ) → encode_bytes bs (pos (suc k)) ≡ check_width (drop_zeros bs) (suc k)
unfolding encode_bytes
encode_bytes_positive bs k = ground arith

encode_bytes_negative : (bs : List ℕ) (k : ℕ) → encode_bytes bs (negsuc k) ≡ err not_positive
unfolding encode_bytes
encode_bytes_negative bs k = ground arith

pub encode_bytes-Encodes :
    (bs : List ℕ) (w : ℕ) → 0 < w → AreBytes bs → Encodes w (value_of bs) (encode_bytes bs (pos w))
encode_bytes-Encodes bs zero hw h = absurd (omega arith)
encode_bytes-Encodes bs (suc w) hw h =
    rw (encode_bytes_positive bs w, ← value-drop_zeros bs)
      (check_width-Encodes (drop_zeros bs) (suc w) hw (drop_zeros-IsStripped bs h))

-- For every byte string and every width: a width below 1 is an error; a value below 2^width comes
-- back as the canonical string of the same value; any other value is refused with ErrInvalidBitWidth.
pub encode_bytes_exact :
    (bs : List ℕ) (bitwidth : ℤ)
    → AreBytes bs
    → EncodesAt bitwidth (value_of bs) (encode_bytes bs bitwidth)
encode_bytes_exact bs (negsuc k) h = encode_bytes_negative bs k
encode_bytes_exact bs (pos zero) h = unfold encode_bytes in refl
encode_bytes_exact bs (pos (suc k)) h = encode_bytes-Encodes bs (suc k) (omega arith) h

-- What a caller gets from a successful call.
pub encode_bytes-ok :
    (bs : List ℕ) (w : ℕ) (out : List ℕ)
    → 0 < w
    → AreBytes bs
    → encode_bytes bs (pos w) ≡ ok out
    → (value_of bs < 2 ^ w) × IsCanonical out × (value_of out ≡ value_of bs)
encode_bytes-ok bs w out hw h e = subst (Encodes w (value_of bs)) e (encode_bytes-Encodes bs w hw h)

pub encode_bytes-fits :
    (bs : List ℕ) (w : ℕ)
    → 0 < w
    → AreBytes bs
    → value_of bs < 2 ^ w
    → (out : List ℕ) × (encode_bytes bs (pos w) ≡ ok out)
      × IsCanonical out
      × (value_of out ≡ value_of bs)
encode_bytes-fits bs w hw h fits = go (encode_bytes bs (pos w)) refl
  where
    go :
        (r : Result (List ℕ))
        → encode_bytes bs (pos w) ≡ r
        → (out : List ℕ) × (encode_bytes bs (pos w) ≡ ok out)
          × IsCanonical out
          × (value_of out ≡ value_of bs)
    go (ok out) e =
        let (lt, canonical, same) = encode_bytes-ok bs w out hw h e in (out, e, canonical, same)
    go (err x) e =
        absurd
          (omega (arith, (subst (Encodes w (value_of bs)) e (encode_bytes-Encodes bs w hw h)).0))
