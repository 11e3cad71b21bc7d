-- ===== src/Codec/Mask.antt =====
-- LPMMask, TernaryMask and clearLowBits of internal/codec/codec.go, as arithmetic on the values.
use mathlib.Core.List.{reverse-cons, reverse-reverse}
use native.Mathlib.Nat.{mod-lt, div-add-mod, add-mul-mod_self_left, mod-eq_of_lt}
use p4runtime_go_controller.Common.{
  ℕ, ◌+◌, ◌-◌, ◌*◌, ◌/◌, ◌%◌, ◌^◌, ◌≤◌, ◌<◌, ◌≡◌, refl, ap, ◌∙◌, sym, List, [], ◌∷◌, reverse, arith,
  All-reverse, true,
}
use p4runtime_go_controller.Common.Int.{pos}
use p4runtime_go_controller.Common.Power.{pow-pos, pow_eight, pow-add}
use p4runtime_go_controller.Common.Bits.{IsByte, bit_and-high_ones, high_ones}
use p4runtime_go_controller.Common.BitAnd.{bit_and-le}
use p4runtime_go_controller.Common.Errors.{Result, ok, err, is, invalid_bit_width, ◌>>=◌, wrapping}
use p4runtime_go_controller.Codec.{
  encode_bytes, clear_reversed, clear_low_bits, lpm_mask, strip_leading_zeros,
}
use p4runtime_go_controller.Codec.Value.{
  value_of, AreBytes, IsCanonical, value-strip, value_of-append, strip-IsCanonical,
  IsCanonical-AreBytes,
}
use p4runtime_go_controller.Codec.Encode.{Encodes, encode_bytes-Encodes}

-- The value of a slice read from its last byte.
reversed_value : List ℕ → ℕ
reversed_value [] = 0
reversed_value (b ∷ bs) = b + 256 * reversed_value bs

value-reverse : (bs : List ℕ) → value_of (reverse bs) ≡ reversed_value bs
unfolding reversed_value
value-reverse [] = unfold value_of in refl
value-reverse (b ∷ bs) =
    ap value_of (reverse-cons b bs)
    ∙ value_of-append (reverse bs) (b ∷ [])
    ∙ omega (arith, value-reverse bs, one_byte)
  where
    one_byte : value_of (b ∷ []) ≡ b
    one_byte = unfold value_of in omega arith

-- The low bits of a number whose last byte is `b`.
whole_byte : (b y m : ℕ) → b < 256 → 0 < m → (b + 256 * y) % (256 * m) ≡ b + 256 * (y % m)
whole_byte b y m hb hm =
    ap (λ (t : ℕ). t % (256 * m)) split
    ∙ add-mul-mod_self_left (b + 256 * (y % m)) (256 * m) (y / m)
    ∙ mod-eq_of_lt small
  where
    split : b + 256 * y ≡ b + 256 * (y % m) + 256 * m * (y / m)
    split = omega (arith, div-add-mod y m)

    small : b + 256 * (y % m) < 256 * m
    small = omega (arith, mod-lt y hm)

part_byte : (b y c : ℕ) → c < 8 → (b + 256 * y) % 2 ^ c ≡ b % 2 ^ c
part_byte b y c h =
    ap (λ (t : ℕ). (b + t) % 2 ^ c) split ∙ add-mul-mod_self_left b (2 ^ c) (2 ^ (8 - c) * y)
  where
    whole : c + (8 - c) ≡ 8
    whole = omega arith

    byte : 2 ^ c * 2 ^ (8 - c) ≡ 256
    byte = sym (pow-add 2 c (8 - c)) ∙ ap (λ (e : ℕ). 2 ^ e) whole

    split : 256 * y ≡ 2 ^ c * (2 ^ (8 - c) * y)
    split = omega (arith, ap (λ (t : ℕ). t * y) byte)

eight_more : (c : ℕ) → 8 ≤ c → 2 ^ c ≡ 256 * 2 ^ (c - 8)
eight_more c h = ap (λ (e : ℕ). 2 ^ e) split ∙ pow_eight (c - 8)
  where
    split : c ≡ 8 + (c - 8)
    split = omega arith

clear_reversed-value :
    (bs : List ℕ) (count : ℕ)
    → AreBytes bs
    → reversed_value (clear_reversed bs count) ≡ reversed_value bs - reversed_value bs % 2 ^ count
unfolding clear_reversed reversed_value
clear_reversed-value [] count h = omega arith
clear_reversed-value (b ∷ bs) count h = ground (
  arith,
  clear_reversed-value bs (count - 8) h.1,
  clear_whole,
  part_byte b (reversed_value bs) count,
  bit_and-high_ones count b,
)
  where
    clear_whole :
        8 ≤ count
        → (b + 256 * reversed_value bs) % 2 ^ count
          ≡ b + 256 * (reversed_value bs % 2 ^ (count - 8))
    clear_whole more =
        ap (λ (t : ℕ). (b + 256 * reversed_value bs) % t) (eight_more count more)
        ∙ whole_byte b (reversed_value bs) (2 ^ (count - 8)) h.0 (pow-pos (count - 8))

clear_reversed-AreBytes :
    (bs : List ℕ) (count : ℕ) → AreBytes bs → AreBytes (clear_reversed bs count)
unfolding clear_reversed
clear_reversed-AreBytes [] count h = tt
clear_reversed-AreBytes (b ∷ bs) count h =
    ground (arith, clear_reversed-AreBytes bs (count - 8) h.1, bit_and-le b (high_ones count))

pub clear_low_bits-AreBytes :
    (bs : List ℕ) (count : ℕ) → AreBytes bs → AreBytes (clear_low_bits bs count)
unfolding clear_low_bits
clear_low_bits-AreBytes bs count h =
    All-reverse IsByte (clear_reversed (reverse bs) count)
      (clear_reversed-AreBytes (reverse bs) count (All-reverse IsByte bs h))

-- clearLowBits subtracts the remainder modulo 2^count from the value.
pub clear_low_bits-value :
    (bs : List ℕ) (count : ℕ)
    → AreBytes bs
    → value_of (clear_low_bits bs count) ≡ value_of bs - value_of bs % 2 ^ count
unfolding clear_low_bits
clear_low_bits-value bs count h =
    value-reverse (clear_reversed (reverse bs) count)
    ∙ clear_reversed-value (reverse bs) count (All-reverse IsByte bs h)
    ∙ ap (λ (t : ℕ). t - t % 2 ^ count) same
  where
    same : reversed_value (reverse bs) ≡ value_of bs
    same = sym (value-reverse (reverse bs)) ∙ ap value_of (reverse-reverse bs)

-- The outcome of masking the integer `n` to the first `p` of its `w` bits.
abbrev pub Masks : ℕ → ℕ → ℕ → Result (List ℕ) → Type 0
Masks p w n (ok out) = (n < 2 ^ w) × IsCanonical out × (value_of out ≡ n - n % 2 ^ (w - p))
Masks p w n (err e) = (2 ^ w ≤ n) × (is e invalid_bit_width ≡ true)

lpm_mask_body : List ℕ → ℕ → ℕ → Result (List ℕ)
lpm_mask_body value p w = do
  masked ← wrapping "codec.LPMMask value" (encode_bytes value (pos w))
  ok (strip_leading_zeros (clear_low_bits masked (w - p)))

lpm_mask_in_range :
    (value : List ℕ) (p w : ℕ)
    → 0 < w
    → p ≤ w
    → lpm_mask value (pos p) (pos w) ≡ lpm_mask_body value p w
unfolding lpm_mask lpm_mask_body
lpm_mask_in_range value p w hw h = ground arith

-- LPMMask for a positive width and a prefix length within it: a value that does not fit is refused
-- with ErrInvalidBitWidth, also for prefix length 0; any other comes back canonical, with all bits
-- below the prefix cleared and those of the prefix kept.
pub lpm_mask-Masks :
    (value : List ℕ) (p w : ℕ)
    → AreBytes value
    → 0 < w
    → p ≤ w
    → Masks p w (value_of value) (lpm_mask value (pos p) (pos w))
lpm_mask-Masks value p w hb hw h =
    rw (lpm_mask_in_range value p w hw h)
      (unfold lpm_mask_body in go (encode_bytes value (pos w)) (encode_bytes-Encodes value w hw hb))
  where
    n : ℕ
    n = value_of value

    masked : Result (List ℕ) → Result (List ℕ)
    masked r = wrapping "codec.LPMMask value" r >>= λ m.
        ok (strip_leading_zeros (clear_low_bits m (w - p)))

    go : (r : Result (List ℕ)) → Encodes w n r → Masks p w n (masked r)
    go (err e) x = (x.0, unfold is in x.1)
    go (ok m) x =
        let bytes = IsCanonical-AreBytes m x.1 in
        (
          x.0,
          strip-IsCanonical (clear_low_bits m (w - p)) (clear_low_bits-AreBytes m (w - p) bytes),
          value-strip (clear_low_bits m (w - p))
              ∙ clear_low_bits-value m (w - p) bytes
              ∙ ap (λ (t : ℕ). t - t % 2 ^ (w - p)) x.2,
        )
