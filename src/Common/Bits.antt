-- ===== src/Common/Bits.antt =====
-- The bit operations that the codec applies to one byte, by evaluation over all bytes.
use Prim.Native.Nat.{ℕ, zero, suc, ◌-◌, ◌*◌, ◌%◌, ◌^◌, ◌≤◌, ◌<◌, bit_and}
use mathlib.Core.Path.{◌≡◌, refl}
use mathlib.Core.Bool.{Bool, true, ◌&&◌}
use native.Mathlib.Omega.{arith}
use p4runtime_go_controller.Common.Tests.{◌==◌, ==_iff, ltb, if◌then◌else◌}

abbrev pub IsByte : ℕ → Type 0
IsByte b = b < 256

-- A test that is passed by each number under a limit, tried from the top.
unfoldable pub passes_under : (ℕ → Bool) → ℕ → Bool
passes_under test zero = true
passes_under test (suc limit) = passes_under test limit && test limit

pub passes_under_at :
    (test : ℕ → Bool) (limit at : ℕ) → at < limit → passes_under test limit ≡ true → test at ≡ true
unfolding passes_under
passes_under_at test zero at small passed = absurd (omega arith)
passes_under_at test (suc limit) at small passed = ground (arith, passes_under_at test limit at)

-- A table over a first index and the bytes.
pub table_sound :
    (n : ℕ) (p : ℕ → ℕ → Bool)
    → passes_under (λ r. passes_under (p r) 256) n ≡ true
    → (r b : ℕ) → r < n
    → IsByte b
    → p r b ≡ true
table_sound n p h r b hr hb =
    passes_under_at (p r) 256 b hb (passes_under_at (λ r. passes_under (p r) 256) n r hr h)

-- Go's `x &^ m` on bytes.
abbrev pub bit_clear : ℕ → ℕ → ℕ
bit_clear x m = bit_and x (255 - m)

-- Go's `byte(0xff) << n`.
abbrev pub high_ones : ℕ → ℕ
high_ones n = 255 * 2 ^ n % 256

abbrev clears : ℕ → ℕ → Bool
clears r b = if ltb b (2 ^ r) then bit_clear b (2 ^ r - 1) == 0 else ltb 0 (bit_clear b (2 ^ r - 1))

clears_table : passes_under (λ r. passes_under (clears r) 256) 8 ≡ true
unfolding passes_under
clears_table = refl

abbrev keeps_high : ℕ → ℕ → Bool
keeps_high r b = bit_and b (high_ones r) == (b - b % 2 ^ r)

keeps_high_table : passes_under (λ r. passes_under (keeps_high r) 256) 8 ≡ true
unfolding passes_under
keeps_high_table = refl

-- No bit of a byte stands above the low `r` bits exactly when the byte is below 2^r.
pub bit_clear-zero : (r b : ℕ) → r < 8 → IsByte b → b < 2 ^ r → bit_clear b (2 ^ r - 1) ≡ 0
bit_clear-zero r b hr hb h = ground (arith, table_sound 8 clears clears_table r b hr hb)

pub bit_clear-ne-zero : (r b : ℕ) → r < 8 → IsByte b → 2 ^ r ≤ b → 0 < bit_clear b (2 ^ r - 1)
bit_clear-ne-zero r b hr hb h = ground (arith, table_sound 8 clears clears_table r b hr hb)

-- Masking a byte by `0xff << r` takes its low `r` bits away.
pub bit_and-high_ones : (r b : ℕ) → r < 8 → IsByte b → bit_and b (high_ones r) ≡ b - b % 2 ^ r
bit_and-high_ones r b hr hb = (==_iff _ _).0 (table_sound 8 keeps_high keeps_high_table r b hr hb)
