-- ===== src/Common/BitAnd.antt =====
-- `bit_and` at variables, one binary digit or one byte at a time.
use Prim.Native.Nat.{
  ℕ, zero, suc, ◌+◌, ◌*◌, ◌/◌, ◌%◌, ◌^◌, ◌≤◌, ◌<◌, min, max, bit_and, bit_or, digits,
  bit_and-bitwise, bit_or-bitwise,
}
use mathlib.Core.Path.{◌≡◌, refl, ap, ap₂}
use native.Mathlib.Omega.{arith}
use p4runtime_go_controller.Common.Power.{pow_double, pow_bytes}

-- A count of digits that is large enough does not matter.
module _ (ended : ℕ → ℕ) (digit : ℕ → ℕ → ℕ) where
  enough_digits :
      (bound n x y : ℕ) → n ≤ bound → x ≤ n → digits ended digit n x y ≡ digits ended digit x x y
  enough_digits bound zero zero y within fits = refl
  enough_digits bound (suc n) zero y within fits = refl
  enough_digits bound zero (suc x) y within fits = absurd (omega arith)
  enough_digits zero (suc n) (suc x) y within fits = absurd (omega arith)
  enough_digits (suc bound) (suc n) (suc x) y within fits =
      let half = suc x / 2 in
      omega (
        arith,
        enough_digits bound n half (y / 2) (omega arith) (omega arith),
        enough_digits bound x half (y / 2) (omega arith) (omega arith),
      )

pub zero-bit_and : (y : ℕ) → bit_and 0 y ≡ 0
zero-bit_and = bit_and-bitwise 0

-- The conjunction without the lowest digits, and the conjunction of these.
pub bit_and_step : (x y : ℕ) → bit_and x y ≡ min (x % 2) (y % 2) + 2 * bit_and (x / 2) (y / 2)
bit_and_step zero y = omega (arith, zero-bit_and (y / 2), zero-bit_and y)
bit_and_step (suc x) y =
    let half = suc x / 2 in
    let same = enough_digits (λ u. zero) min x x half (y / 2) (omega arith) (omega arith) in
    omega (arith, same, bit_and-bitwise half (y / 2), bit_and-bitwise (suc x) y)

pub bit_and-zero : (x : ℕ) → bit_and x 0 ≡ 0
bit_and-zero x = below x x (omega arith)
  where
    below : (bound x : ℕ) → x ≤ bound → bit_and x 0 ≡ 0
    below bound zero fits = zero-bit_and 0
    below zero (suc x) fits = absurd (omega arith)
    below (suc bound) (suc x) fits =
        omega (arith, below bound (suc x / 2) (omega arith), bit_and_step (suc x) 0)

bit_and-le_fuel : (n a b : ℕ) → a ≤ n → bit_and a b ≤ a
bit_and-le_fuel zero zero b h = omega (arith, zero-bit_and b)
bit_and-le_fuel zero (suc a) b h = absurd (omega arith)
bit_and-le_fuel (suc n) zero b h = omega (arith, zero-bit_and b)
bit_and-le_fuel (suc n) (suc a) b h =
    omega (arith, bit_and_step (suc a) b, bit_and-le_fuel n (suc a / 2) (b / 2) (omega arith))

pub bit_and-le : (a b : ℕ) → bit_and a b ≤ a
bit_and-le a b = bit_and-le_fuel a a b (omega arith)

-- The digits of `2 ^ k * x + c` and of `x` are paired alike, one more digit at a time.
AndSplits : ℕ → Type 0
AndSplits k =
    (x y c d : ℕ) → c < k → d < k → bit_and (x * k + c) (y * k + d) ≡ bit_and x y * k + bit_and c d

halved : (k h x c : ℕ) → k ≡ 2 * h → (x * k + c) / 2 ≡ x * h + c / 2
halved k h x c e = rw e (omega arith)

parity : (k h x c : ℕ) → k ≡ 2 * h → (x * k + c) % 2 ≡ c % 2
parity k h x c e = rw e (omega arith)

AndSplits-double : (k h : ℕ) → k ≡ 2 * h → AndSplits h → AndSplits k
unfolding AndSplits
AndSplits-double k h e split x y c d hc hd = omega (
  arith,
  bit_and_step (x * k + c) (y * k + d),
  bit_and_step c d,
  split x y (c / 2) (d / 2) (omega arith) (omega arith),
  ap₂ bit_and (halved k h x c e) (halved k h y d e),
  ap₂ min (parity k h x c e) (parity k h y d e),
  ap (λ (t : ℕ). bit_and x y * t) e,
)

AndSplits-one : AndSplits 1
unfolding AndSplits
AndSplits-one x y c d hc hd = omega (
  arith,
  ap₂ bit_and (whole x c hc) (whole y d hd),
  ap₂ bit_and (none_left c hc) (none_left d hd),
  zero-bit_and 0,
)
  where
    whole : (x c : ℕ) → c < 1 → x * 1 + c ≡ x
    whole x c h = omega arith

    none_left : (c : ℕ) → c < 1 → c ≡ 0
    none_left c h = omega arith

AndSplits-pow : (n : ℕ) → AndSplits (2 ^ n)
AndSplits-pow zero = AndSplits-one
AndSplits-pow (suc n) = AndSplits-double (2 ^ suc n) (2 ^ n) (pow_double n) (AndSplits-pow n)

-- A conjunction is made apart above and below any number of whole bytes.
pub bit_and_split :
    (n x y c d : ℕ)
    → c < 256 ^ n
    → d < 256 ^ n
    → bit_and (x * 256 ^ n + c) (y * 256 ^ n + d) ≡ bit_and x y * 256 ^ n + bit_and c d
bit_and_split n = unfold AndSplits in rw (← pow_bytes n) (AndSplits-pow (8 * n))

zero-bit_or : (y : ℕ) → bit_or 0 y ≡ y
zero-bit_or = bit_or-bitwise 0

bit_or_step : (x y : ℕ) → bit_or x y ≡ max (x % 2) (y % 2) + 2 * bit_or (x / 2) (y / 2)
bit_or_step zero y = omega (arith, zero-bit_or (y / 2), zero-bit_or y)
bit_or_step (suc x) y =
    let half = suc x / 2 in
    let same = enough_digits (λ u. u) max x x half (y / 2) (omega arith) (omega arith) in
    omega (arith, same, bit_or-bitwise half (y / 2), bit_or-bitwise (suc x) y)

bit_or-zero_fuel : (n a : ℕ) → a ≤ n → bit_or a 0 ≡ a
bit_or-zero_fuel zero zero h = zero-bit_or 0
bit_or-zero_fuel zero (suc a) h = absurd (omega arith)
bit_or-zero_fuel (suc n) zero h = zero-bit_or 0
bit_or-zero_fuel (suc n) (suc a) h =
    omega (arith, bit_or_step (suc a) 0, bit_or-zero_fuel n (suc a / 2) (omega arith))

Joins : ℕ → Type 0
Joins k = (x c : ℕ) → c < k → bit_or (x * k) c ≡ x * k + c

Joins-one : Joins 1
unfolding Joins
Joins-one x c h = omega (
  arith,
  bit_or-zero_fuel (x * 1) (x * 1) (omega arith),
  ap (λ (t : ℕ). bit_or (x * 1) t) none_left,
)
  where
    none_left : c ≡ 0
    none_left = omega arith

Joins-double : (k h : ℕ) → k ≡ 2 * h → Joins h → Joins k
unfolding Joins
Joins-double k h e join x c hc = omega (
  arith,
  bit_or_step (x * k) c,
  join x (c / 2) (omega arith),
  ap (λ (t : ℕ). bit_or t (c / 2)) half,
  even,
  ap (λ (t : ℕ). x * t) e,
)
  where
    half : x * k / 2 ≡ x * h
    half = rw e (omega arith)

    even : x * k % 2 ≡ 0
    even = rw e (omega arith)

-- `bit_or` of a number with its low byte free and a byte is their sum.
pub bit_or_byte : (x c : ℕ) → c < 256 → bit_or (x * 256) c ≡ x * 256 + c
unfolding Joins
bit_or_byte =
    let two = Joins-double 2 1 refl Joins-one in
    let four = Joins-double 4 2 refl two in
    let eight = Joins-double 8 4 refl four in
    let sixteen = Joins-double 16 8 refl eight in
    let thirty_two = Joins-double 32 16 refl sixteen in
    let sixty_four = Joins-double 64 32 refl thirty_two in
    Joins-double 256 128 refl (Joins-double 128 64 refl sixty_four)

Joins-pow : (n : ℕ) → Joins (2 ^ n)
Joins-pow zero = Joins-one
Joins-pow (suc n) = Joins-double (2 ^ suc n) (2 ^ n) (pow_double n) (Joins-pow n)

pub bit_or_word : (x c : ℕ) → c < 2 ^ 64 → bit_or (x * 2 ^ 64) c ≡ x * 2 ^ 64 + c
bit_or_word = unfold Joins in Joins-pow 64
