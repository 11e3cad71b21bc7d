-- ===== src/Election/Order.antt =====
-- The comparisons of client/electionid.go, Increment and BigInt, against the 128-bit integers.
use p4runtime_go_controller.Common.{
  ℕ, ◌+◌, ◌*◌, ◌^◌, ◌-◌, ◌≡◌, Bool, true, false, ltb, ◌==◌, if◌then◌else◌, arith,
}
use p4runtime_go_controller.Common.Int.{pos, negsuc}
use p4runtime_go_controller.Common.BitAnd.{bit_or_word}
use p4runtime_go_controller.Election.{ElectionId, IsValid, equal, less, cmp, increment, big_int}

-- The 128-bit integer that an election ID stands for.
abbrev pub value_of : ElectionId → ℕ
value_of e = e.high * 2 ^ 64 + e.low

-- Less is the order of the 128-bit integers.
pub less-ltb : (a b : ElectionId) → IsValid a → IsValid b → less a b ≡ ltb (value_of a) (value_of b)
unfolding less
less-ltb a b va vb = ground arith

pub equal-== : (a b : ElectionId) → IsValid a → IsValid b → equal a b ≡ (value_of a == value_of b)
unfolding equal
equal-== a b va vb = ground arith

-- Cmp is -1, 0 or 1 as the first 128-bit integer is below, equal to or above the second.
pub cmp_exact :
    (a b : ElectionId)
    → IsValid a
    → IsValid b
    → cmp a b ≡ (
        if ltb (value_of a) (value_of b)
        then negsuc 0
        else if value_of a == value_of b
        then pos 0
        else pos 1)
unfolding cmp
cmp_exact a b va vb = ground arith

abbrev pub Increments : ElectionId → ElectionId × Bool → Type 0
Increments e (next, true) = IsValid next × (value_of next ≡ value_of e + 1)
Increments e (next, false) = (next ≡ e) × (value_of e ≡ 2 ^ 128 - 1)

-- Increment adds one to the 128-bit integer, carrying into the high half, and never wraps: only at
-- the greatest value, 2^128 - 1, it reports failure and returns the ID unchanged.
pub increment-Increments : (e : ElectionId) → IsValid e → Increments e (increment e)
unfolding increment
increment-Increments e v = ground arith

-- BigInt of an ID whose halves are uint64 values is the 128-bit integer high * 2^64 + low.
pub big_int-value : (e : ElectionId) → IsValid e → big_int e ≡ value_of e
unfolding big_int
big_int-value e v = bit_or_word e.high e.low v.low_word
