-- ===== src/Codec/Unique.antt =====
-- Canonical byte strings of internal/codec/codec.go and the integers that they stand for.
use native.Mathlib.Nat.{mul-le-mul_right}
use native.Mathlib.Decide.{dec_lt}
use p4runtime_go_controller.Common.{
  ℕ, suc, ◌+◌, ◌*◌, ◌^◌, ◌≤◌, ◌<◌, ◌≡◌, refl, ap, ap₂, ◌∙◌, sym, List, [], ◌∷◌, length, arith,
}
use p4runtime_go_controller.Common.Power.{pow_byte_mono}
use p4runtime_go_controller.Common.Int.{pos}
use p4runtime_go_controller.Common.Errors.{ok}
use p4runtime_go_controller.Codec.{encode_bytes}
use p4runtime_go_controller.Codec.Value.{
  value_of, AreBytes, IsCanonical, value_of-lt, IsCanonical-AreBytes,
}
use p4runtime_go_controller.Codec.Encode.{encode_bytes-fits}

-- A number written with a digit `a` above a rest below `p` determines both.
digit-le : (p a b x y : ℕ) → x < p → y < p → a * p + x ≡ b * p + y → a ≤ b
digit-le p a b x y hx hy e = elim (dec_lt b a) [
  | yes h ↦ absurd (omega (arith, mul-le-mul_right p h))
  | no h ↦ omega arith
]

value_of_injective_len :
    (xs ys : List ℕ)
    → AreBytes xs
    → AreBytes ys
    → length xs ≡ length ys
    → value_of xs ≡ value_of ys
    → xs ≡ ys
value_of_injective_len [] [] hx hy l e = refl
value_of_injective_len [] (y ∷ ys) hx hy l e = absurd (omega arith)
value_of_injective_len (x ∷ xs) [] hx hy l e = absurd (omega arith)
value_of_injective_len (x ∷ xs) (y ∷ ys) hx hy l e =
    ap₂ ◌∷◌ heads (value_of_injective_len xs ys hx.1 hy.1 lengths tails)
  where
    lengths : length xs ≡ length ys
    lengths = omega arith

    y_bound : value_of ys < 256 ^ length xs
    y_bound = rw lengths (value_of-lt ys hy.1)

    sums : x * 256 ^ length xs + value_of xs ≡ y * 256 ^ length xs + value_of ys
    sums = unfold value_of in e ∙ ap (λ (n : ℕ). y * 256 ^ n + value_of ys) (sym lengths)

    heads : x ≡ y
    heads = omega (
      arith,
      digit-le (256 ^ length xs) x y (value_of xs) (value_of ys) (value_of-lt xs hx.1) y_bound sums,
      digit-le (256 ^ length xs) y x (value_of ys) (value_of xs) y_bound (value_of-lt xs hx.1)
          (sym sums),
    )

    tails : value_of xs ≡ value_of ys
    tails = omega (arith, sums, ap (λ (t : ℕ). t * 256 ^ length xs) heads)

-- A canonical string of more than one byte stands for a value of full length.
pub canonical-le :
    (b c : ℕ) (bs : List ℕ)
    → IsCanonical (b ∷ c ∷ bs)
    → 256 ^ suc (length bs) ≤ value_of (b ∷ c ∷ bs)
unfolding value_of
canonical-le b c bs h = grind (arith, h.0)

-- A canonical string of a smaller integer is no longer.
pub length-le-length :
    (xs ys : List ℕ)
    → IsCanonical xs
    → IsCanonical ys
    → value_of xs ≤ value_of ys
    → length xs ≤ length ys
length-le-length [] ys hx hy e = absurd hx
length-le-length xs [] hx hy e = absurd hy
length-le-length (x ∷ []) (y ∷ ys) hx hy e = omega arith
length-le-length (b ∷ c ∷ bs) (y ∷ ys) hx hy e =
    elim (dec_lt (length (y ∷ ys)) (length (b ∷ c ∷ bs))) [
      | no h ↦ omega arith
      | yes h ↦ absurd (
          omega (
            arith,
            canonical-le b c bs hx,
            value_of-lt (y ∷ ys) (IsCanonical-AreBytes (y ∷ ys) hy),
            pow_byte_mono (shorter h),
          ))
    ]
  where
    shorter : length (y ∷ ys) < length (b ∷ c ∷ bs) → length (y ∷ ys) ≤ suc (length bs)
    shorter h = omega arith

-- Two canonical byte strings that stand for one integer are the same string.
pub canonical_unique :
    (xs ys : List ℕ) → IsCanonical xs → IsCanonical ys → value_of xs ≡ value_of ys → xs ≡ ys
canonical_unique xs ys hx hy e =
    value_of_injective_len xs ys (IsCanonical-AreBytes xs hx) (IsCanonical-AreBytes ys hy)
      (omega (
        arith,
        length-le-length xs ys hx hy (omega arith),
        length-le-length ys xs hy hx (omega arith),
      ))
      e

-- EncodeBytes returns a canonical string that fits the width as it is.
pub encode_bytes-canonical :
    (bs : List ℕ) (w : ℕ)
    → 0 < w
    → IsCanonical bs
    → value_of bs < 2 ^ w
    → encode_bytes bs (pos w) ≡ ok bs
encode_bytes-canonical bs w hw c fits =
    let (out, e, canonical, same) = encode_bytes-fits bs w hw (IsCanonical-AreBytes bs c) fits in
    e ∙ ap ok (canonical_unique out bs canonical c same)
