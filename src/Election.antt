-- ===== src/Election.antt =====
-- client/electionid.go: the 128-bit election identifier as a pair of uint64 halves.
pub mod Order
mod Examples
use p4runtime_go_controller.Common.{
  ℕ, ◌+◌, ◌*◌, ◌^◌, ◌-◌, ◌<◌, bit_or, Bool, true, false, ◌&&◌, not, ltb, ◌==◌, if◌then◌else◌,
}
use p4runtime_go_controller.Common.Int.{ℤ, pos, negsuc}

pub record ElectionId : Type 0 where
  pub high : ℕ
  pub low : ℕ

-- Both halves are uint64 values.
pub record IsValid (e : ElectionId) : Type 0 where
  pub high_word : e.high < 2 ^ 64
  pub low_word : e.low < 2 ^ 64

abbrev pub max_word : ℕ
max_word = 2 ^ 64 - 1

unfoldable pub is_zero : ElectionId → Bool
is_zero e = (e.high == 0) && (e.low == 0)

unfoldable pub equal : ElectionId → ElectionId → Bool
equal e other = (e.high == other.high) && (e.low == other.low)

unfoldable pub less : ElectionId → ElectionId → Bool
less e other = if not (e.high == other.high) then ltb e.high other.high else ltb e.low other.low

unfoldable pub cmp : ElectionId → ElectionId → ℤ
unfolding less equal
cmp e other = if less e other then negsuc 0 else if equal e other then pos 0 else pos 1

unfoldable pub increment : ElectionId → ElectionId × Bool
increment e =
    if e.low == max_word
    then (if e.high == max_word then (e, false) else (record { high = e.high + 1; low = 0 }, true))
    else (record { high = e.high; low = e.low + 1 }, true)

-- `v.Lsh(v, 64)`, then `v.Or(v, low)`, on unbounded integers.
unfoldable pub big_int : ElectionId → ℕ
big_int e = bit_or (e.high * 2 ^ 64) e.low
