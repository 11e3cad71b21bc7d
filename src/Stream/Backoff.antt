-- ===== src/Stream/Backoff.antt =====
-- nextBackoff of internal/stream/supervisor.go, in int64 arithmetic.
use p4runtime_go_controller.Common.{
  ℕ, ◌+◌, ◌-◌, ◌*◌, ◌%◌, ◌^◌, ◌≤◌, ◌<◌, ◌≡◌, ◌||◌, ap, ltb, if◌then◌else◌, arith,
}
use p4runtime_go_controller.Common.Int.{ℤ, pos, negsuc, ltb_ℤ, leb_ℤ}
use Prim.Native.Nat.{min}
use native.Mathlib.Decide.{dec_le}
use native.Mathlib.Nat.{mul-le-mul_left}

-- The int64 of a bit pattern.
abbrev pub signed64 : ℕ → ℤ
signed64 w = if ltb w (2 ^ 63) then pos w else negsuc (2 ^ 64 - w - 1)

-- The bit pattern of twice an int64.
abbrev pub double64 : ℤ → ℤ
double64 (pos n) = signed64 (2 * n % 2 ^ 64)
double64 (negsuc n) = signed64 ((2 * 2 ^ 64 - 2 * (n + 1)) % 2 ^ 64)

unfoldable pub next_backoff : ℤ → ℤ → ℤ
next_backoff cur max =
    let next = double64 cur in if leb_ℤ next (pos 0) || ltb_ℤ max next then max else next

-- For durations that int64 holds and that are positive, doubling never overflows into a small or
-- a negative pause: the next backoff is the smaller of twice the current one and the maximum.
pub next_backoff-min :
    (c m : ℕ) → 0 < c → c < 2 ^ 63 → m < 2 ^ 63 → next_backoff (pos c) (pos m) ≡ pos (min (2 * c) m)
unfolding next_backoff
next_backoff-min c m hc hb hm = ground arith

-- Doubling below a maximum, and `p` times below it.
pub capped : (p c m : ℕ) → 0 < p → min (p * min (2 * c) m) m ≡ min (2 * p * c) m
capped p c m hp = elim (dec_le (2 * c) m) [
  | yes h ↦ omega (arith, ap (λ (t : ℕ). p * t) (within h))
  | no h ↦ omega (arith, ap (λ (t : ℕ). p * t) (above h), at_least m hp, mul-le-mul_left p (over h))
]
  where
    within : 2 * c ≤ m → min (2 * c) m ≡ 2 * c
    within h = omega arith

    above : ¬ (2 * c ≤ m) → min (2 * c) m ≡ m
    above h = omega arith

    over : ¬ (2 * c ≤ m) → m ≤ 2 * c
    over h = omega arith

    at_least : (m : ℕ) → 0 < p → m ≤ p * m
    at_least m h = grind arith
