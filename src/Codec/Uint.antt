-- ===== src/Codec/Uint.antt =====
-- EncodeUint and DecodeUint of internal/codec/codec.go.
use native.Mathlib.Decide.{dec_lt}
use p4runtime_go_controller.Common.{
  ℕ, suc, ◌+◌, ◌*◌, ◌%◌, ◌^◌, ◌≤◌, ◌<◌, true, ◌≡◌, refl, ap, ◌∙◌, sym, ltb, if◌then◌else◌, List, [],
  ◌∷◌, length, arith, bit_or,
}
use p4runtime_go_controller.Common.Int.{pos}
use p4runtime_go_controller.Common.Power.{pow_byte, pow_mono, pow_byte_mono, pow_byte-pos}
use p4runtime_go_controller.Common.BitAnd.{bit_or_byte}
use p4runtime_go_controller.Common.Errors.{
  Result, ok, err, is, plain, invalid_bit_width, Sentinel-discrete, ◌>>=◌,
}
use p4runtime_go_controller.Codec.{
  encode_uint, encode_bytes, decode_uint, decode_loop, put_uint64, exceeds,
}
use p4runtime_go_controller.Codec.Value.{
  value_of, AreBytes, IsCanonical, value-strip, strip-IsCanonical, value_of-lt,
  IsCanonical-AreBytes,
}
use p4runtime_go_controller.Codec.Encode.{Encodes, encode_bytes-fits}
use p4runtime_go_controller.Codec.Unique.{canonical_unique, canonical-le}

put_uint64-AreBytes : (v : ℕ) → AreBytes (put_uint64 v)
put_uint64-AreBytes v = omega arith

value-put_uint64 : (v : ℕ) → v < 2 ^ 64 → value_of (put_uint64 v) ≡ v
unfolding value_of
value-put_uint64 v h = omega arith

exceeds-is : is exceeds invalid_bit_width ≡ true
unfolding is Sentinel-discrete
exceeds-is = refl

-- EncodeUint of a uint64 for a width from 1 to 64: the canonical string of the value when it is
-- below 2^w, and ErrInvalidBitWidth when it is not.
pub encode_uint-Encodes :
    (v w : ℕ) → v < 2 ^ 64 → 0 < w → w ≤ 64 → Encodes w v (encode_uint v (pos w))
unfolding encode_uint value_of
encode_uint-Encodes v w hv hw h = ground (
  arith,
  exceeds-is,
  value-strip (put_uint64 v),
  value-put_uint64 v,
  strip-IsCanonical (put_uint64 v) (put_uint64-AreBytes v),
  pow_mono {m = 64} {n = w},
)

decode_step : (v c : ℕ) → v < 2 ^ 56 → c < 256 → bit_or (v * 256 % 2 ^ 64) c ≡ v * 256 + c
decode_step v c hv hc = ap (λ (t : ℕ). bit_or t c) no_wrap ∙ bit_or_byte v c hc
  where
    no_wrap : v * 256 % 2 ^ 64 ≡ v * 256
    no_wrap = omega arith

decode_loop-value :
    (v : ℕ) (b : List ℕ)
    → AreBytes b
    → v * 256 ^ length b + value_of b < 2 ^ 64
    → decode_loop v b ≡ v * 256 ^ length b + value_of b
unfolding decode_loop value_of
decode_loop-value v [] hb h = omega arith
decode_loop-value v (c ∷ b) hb h =
    rw (decode_step v c small hb.0)
      (omega (arith, decode_loop-value (v * 256 + c) b hb.1 (omega (arith, shifted)), shifted))
  where
    shifted : v * 256 ^ suc (length b) ≡ v * 256 * 256 ^ length b
    shifted = omega (arith, ap (λ (t : ℕ). v * t) (pow_byte (length b)))

    small : v < 2 ^ 56
    small = grind (arith, shifted, pow_byte-pos (length b))

-- DecodeUint returns the integer of any byte string of at most 8 bytes, and refuses a longer one.
pub decode_uint_exact :
    (b : List ℕ)
    → AreBytes b
    → decode_uint b ≡ (
        if ltb 8 (length b)
        then err (plain "codec.DecodeUint: input exceeds 64 bits")
        else ok (value_of b))
unfolding decode_uint
decode_uint_exact b hb =
    ground (arith, value_of-lt b hb, pow_byte_mono {m = length b} {n = 8}, decode_loop-value 0 b hb)

fits_eight_bytes : (b : List ℕ) → IsCanonical b → value_of b < 2 ^ 64 → length b ≤ 8
fits_eight_bytes [] c h = omega arith
fits_eight_bytes (x ∷ []) c h = omega arith
fits_eight_bytes (x ∷ y ∷ b) c h = elim (dec_lt 8 (length (x ∷ y ∷ b))) [
  | no small ↦ omega arith
  | yes long ↦ absurd (
      omega (arith, canonical-le x y b c, pow_byte_mono {m = 8} {n = suc (length b)} (omega arith)))
]

-- Decoding what EncodeUint returns gives the integer back, for every uint64 that fits the width.
pub decode-encode_uint :
    (v w : ℕ)
    → v < 2 ^ 64
    → 0 < w
    → w ≤ 64
    → v < 2 ^ w
    → (encode_uint v (pos w) >>= decode_uint) ≡ ok v
decode-encode_uint v w hv hw h fits = go (encode_uint v (pos w)) (encode_uint-Encodes v w hv hw h)
  where
    go : (r : Result (List ℕ)) → Encodes w v r → (r >>= decode_uint) ≡ ok v
    go (err e) x = absurd (omega (arith, x.0))
    go (ok out) x =
        decode_uint_exact out (IsCanonical-AreBytes out x.1)
        ∙ ground (arith, fits_eight_bytes out x.1, x.2)

-- EncodeUint and EncodeBytes agree: both write an integer that fits as the same string.
pub encode_uint-encode_bytes :
    (v w : ℕ) (bs : List ℕ)
    → v < 2 ^ 64
    → 0 < w
    → w ≤ 64
    → AreBytes bs
    → value_of bs ≡ v
    → v < 2 ^ w
    → encode_uint v (pos w) ≡ encode_bytes bs (pos w)
encode_uint-encode_bytes v w bs hv hw h hb e fits =
    let (out, same, canonical, value) = encode_bytes-fits bs w hw hb (rw e fits) in
    go (encode_uint v (pos w)) (encode_uint-Encodes v w hv hw h) out canonical (value ∙ e)
    ∙ sym same
  where
    go :
        (r : Result (List ℕ))
        → Encodes w v r
        → (out : List ℕ) → IsCanonical out
        → value_of out ≡ v
        → r ≡ ok out
    go (err x) enc out c q = absurd (omega (arith, enc.0))
    go (ok xs) enc out c q = ap ok (canonical_unique xs out enc.1 c (enc.2 ∙ sym q))
