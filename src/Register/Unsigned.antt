-- ===== src/Register/Unsigned.antt =====
-- unsignedBytes of register/numeric.go, against the integers below 2^w.
use p4runtime_go_controller.Common.{
  inl, inr, ℕ, zero, suc, ◌<◌, ◌≤◌, ◌≡◌, refl, sym, subst, true, false, List, [], ◌∷◌, ◌==◌, length,
  arith, Bool-cases, ==_iff,
}
use p4runtime_go_controller.Common.Int.{pos}
use p4runtime_go_controller.Common.Errors.{is, Sentinel-discrete}
use p4runtime_go_controller.Common.Power.{pow_byte-pos}
use p4runtime_go_controller.Codec.{encode_bytes}
use p4runtime_go_controller.Codec.Value.{value_of, AreBytes}
use p4runtime_go_controller.Codec.Encode.{Encodes, encode_bytes-Encodes}
use p4runtime_go_controller.Register.{all_zero, unsigned_bytes}

all_zero-value : (bs : List ℕ) → all_zero bs ≡ true → value_of bs ≡ 0
unfolding all_zero value_of
all_zero-value [] h = refl
all_zero-value (b ∷ bs) h =
    grind (arith, (==_iff b 0).0 (ground arith), all_zero-value bs (ground arith))

not_zero-value : (bs : List ℕ) → all_zero bs ≡ false → 0 < value_of bs
unfolding all_zero value_of
not_zero-value [] h = ground arith
not_zero-value (b ∷ bs) h = elim (Bool-cases (b == 0)) [
  | inl z ↦ omega (arith, not_zero-value bs (ground arith))
  | inr n ↦ grind (arith, pow_byte-pos (length bs), at_least n)
]
  where
    at_least : (b == 0) ≡ false → 1 ≤ b
    at_least n = ground arith

-- The outcome of bit<0>: zero alone has a value of it.
zero_width-Encodes : (value : List ℕ) → Encodes 0 (value_of value) (unsigned_bytes value (pos 0))
unfolding unsigned_bytes is Sentinel-discrete value_of
zero_width-Encodes value = elim (Bool-cases (all_zero value)) [
  | inl z ↦ rw z (omega (arith, all_zero-value value z), omega arith, sym (all_zero-value value z))
  | inr n ↦ rw n (omega (arith, not_zero-value value n), refl)
]

positive_width :
    (value : List ℕ) (w : ℕ) → 0 < w → unsigned_bytes value (pos w) ≡ encode_bytes value (pos w)
unfolding unsigned_bytes
positive_width value w hw = ground arith

-- For bytes of any length and a width that is not negative, 0 included, unsignedBytes returns the
-- canonical bytes of the value of its input where that is below 2^width, and an invalid bit width
-- error where it is not.
pub unsigned_bytes-Encodes :
    (value : List ℕ) (w : ℕ)
    → AreBytes value
    → Encodes w (value_of value) (unsigned_bytes value (pos w))
unsigned_bytes-Encodes value zero bytes = zero_width-Encodes value
unsigned_bytes-Encodes value (suc w) bytes =
    subst (Encodes (suc w) (value_of value)) (sym (positive_width value (suc w) (omega arith)))
      (encode_bytes-Encodes value (suc w) (omega arith) bytes)
