-- ===== src/Register/Idempotent.antt =====
-- What register/numeric.go normalises, normalised again.
use p4runtime_go_controller.Common.{
  ℕ, ◌≡◌, refl, subst, ap, ◌∙◌, true, false, List, [], ◌∷◌, none, some, ◌==◌, length, arith,
  Bool-cases, inl, inr,
}
use p4runtime_go_controller.Common.Int.{ℤ, pos, leb_ℤ, pos_part}
use p4runtime_go_controller.Common.Errors.{ok, ok-injective}
use p4runtime_go_controller.Codec.{drop_zeros, check_width, encode_bytes}
use p4runtime_go_controller.Register.{
  strip_sign, is_redundant, check_signed, signed_bytes, unsigned_bytes, all_zero, leading_zeros8,
}
use p4runtime_go_controller.Register.Headers.{
  BitstringSpec, missing_spec, bit_spec, int_spec, varbit_spec, encode_integer,
}

strip_sign_again : (bs : List ℕ) → strip_sign (strip_sign bs) ≡ strip_sign bs
unfolding strip_sign
strip_sign_again [] = refl
strip_sign_again (a ∷ []) = refl
strip_sign_again (a ∷ b ∷ bs) = elim (Bool-cases (is_redundant a b)) [
  | inl r ↦ ground (arith, r, strip_sign_again (b ∷ bs))
  | inr k ↦ ground (arith, k)
]

-- check_signed returns its bytes.
check_signed-same : (bs : List ℕ) (w : ℕ) (out : List ℕ) → check_signed bs w ≡ ok out → out ≡ bs
unfolding check_signed
check_signed-same [] w out h = cc
check_signed-same (a ∷ bs) w out h = ground arith

signed_zero : (w : ℤ) → leb_ℤ w (pos 0) ≡ false → signed_bytes (0 ∷ []) w ≡ ok (0 ∷ [])
unfolding signed_bytes strip_sign check_signed leading_zeros8
signed_zero w positive = ground arith

check_signed-some : (bs : List ℕ) (w : ℕ) → ¬ (check_signed bs w ≡ ok [])
unfolding check_signed
check_signed-some [] w h = cc
check_signed-some (a ∷ bs) w h = ground arith

checked_again :
    (value : List ℕ) (w : ℤ) (out : List ℕ)
    → leb_ℤ w (pos 0) ≡ false
    → check_signed (strip_sign value) (pos_part w) ≡ ok out
    → signed_bytes out w ≡ ok out
unfolding signed_bytes
checked_again value w [] positive h = absurd (check_signed-some (strip_sign value) (pos_part w) h)
checked_again value w (a ∷ out) positive h =
    let same = check_signed-same (strip_sign value) (pos_part w) (a ∷ out) h in
    ground (
      arith,
      positive,
      ap (λ bs. check_signed bs (pos_part w)) (ap strip_sign same ∙ strip_sign_again value),
      h,
    )

signed_bytes_again :
    (value : List ℕ) (w : ℤ) (out : List ℕ)
    → signed_bytes value w ≡ ok out
    → signed_bytes out w ≡ ok out
unfolding signed_bytes
signed_bytes_again value w out h = elim (Bool-cases (leb_ℤ w (pos 0))) [
  | inl bad ↦ ground (arith, bad)
  | inr positive ↦ elim (Bool-cases (length value == 0)) [
    | inl empty ↦
        subst (λ bs. signed_bytes bs w ≡ ok bs) (zero_out positive empty) (signed_zero w positive)
    | inr some_bytes ↦ checked_again value w out positive (checked positive some_bytes)
  ]
]
  where
    zero_out : leb_ℤ w (pos 0) ≡ false → (length value == 0) ≡ true → 0 ∷ [] ≡ out
    zero_out positive empty = ground (arith, positive, empty)

    checked :
        leb_ℤ w (pos 0) ≡ false
        → (length value == 0) ≡ false
        → check_signed (strip_sign value) (pos_part w) ≡ ok out
    checked positive some_bytes = ground (arith, positive, some_bytes)

drop_zeros_again : (bs : List ℕ) → drop_zeros (drop_zeros bs) ≡ drop_zeros bs
unfolding drop_zeros
drop_zeros_again [] = refl
drop_zeros_again (b ∷ bs) = elim (Bool-cases (b == 0)) [
  | inl z ↦ ground (arith, z, drop_zeros_again bs)
  | inr n ↦ ground (arith, n)
]

check_width-same :
    (b : ℕ) (bs : List ℕ) (w : ℕ) (out : List ℕ) → check_width (b ∷ bs) w ≡ ok out → out ≡ b ∷ bs
unfolding check_width
check_width-same b bs w out h = ground arith

width_again :
    (bs : List ℕ) (w : ℕ) (out : List ℕ)
    → drop_zeros bs ≡ bs
    → check_width bs w ≡ ok out
    → check_width (drop_zeros out) w ≡ ok out
unfolding check_width drop_zeros
width_again [] w out dropped h =
    subst (λ o. check_width (drop_zeros o) w ≡ ok o) (ok-injective h) zero_again
  where
    zero_again : check_width (drop_zeros (0 ∷ [])) w ≡ ok (0 ∷ [])
    zero_again = ground arith
width_again (b ∷ bs) w out dropped h =
    let same = check_width-same b bs w out h in
    ap (λ o. check_width (drop_zeros o) w) same ∙ ap (λ o. check_width o w) dropped ∙ h

encode_bytes_again :
    (value : List ℕ) (w : ℤ) (out : List ℕ)
    → encode_bytes value w ≡ ok out
    → encode_bytes out w ≡ ok out
unfolding encode_bytes
encode_bytes_again value w out h = elim (Bool-cases (leb_ℤ w (pos 0))) [
  | inl bad ↦ ground (arith, bad)
  | inr positive ↦ ground (
    arith,
    positive,
    width_again (drop_zeros value) (pos_part w) out (drop_zeros_again value) (encoded positive),
  )
]
  where
    encoded : leb_ℤ w (pos 0) ≡ false → check_width (drop_zeros value) (pos_part w) ≡ ok out
    encoded positive = ground (arith, positive)

unsigned_bytes_again :
    (value : List ℕ) (w : ℤ) (out : List ℕ)
    → unsigned_bytes value w ≡ ok out
    → unsigned_bytes out w ≡ ok out
unfolding unsigned_bytes all_zero
unsigned_bytes_again value w out h = ground (arith, encode_bytes_again value w out)

pub encode_integer_again :
    (spec : BitstringSpec) (value out : List ℕ)
    → encode_integer spec value ≡ ok out
    → encode_integer spec out ≡ ok out
encode_integer_again missing_spec value out h = cc
encode_integer_again (bit_spec none) value out h = cc
encode_integer_again (bit_spec (some w)) value out h = unsigned_bytes_again value w out h
encode_integer_again (int_spec none) value out h = cc
encode_integer_again (int_spec (some w)) value out h = signed_bytes_again value w out h
encode_integer_again (varbit_spec w) value out h = cc
