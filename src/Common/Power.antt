-- ===== src/Common/Power.antt =====
-- Powers of two and of 256 at a variable exponent, which the tactics take for unknowns.
use Prim.Native.Nat.{ℕ, zero, suc, ◌+◌, ◌*◌, ◌^◌, ◌≤◌, ◌<◌}
use mathlib.Core.Path.{◌≡◌, refl, ap, ◌∙◌}
use native.Mathlib.Omega.{arith}
use native.Mathlib.Nat.{pow-zero, pow-suc, pow-le-pow_right}

pub pow-add : (b m n : ℕ) → b ^ (m + n) ≡ b ^ m * b ^ n
pow-add b zero n = rw (zero_add, pow-zero b) (omega arith)
  where
    zero_add : zero + n ≡ n
    zero_add = omega arith
pow-add b (suc m) n =
    rw (add_suc) (rw (pow-suc b (m + n), pow-add b m n, pow-suc b m) (omega arith))
  where
    add_suc : suc m + n ≡ suc (m + n)
    add_suc = omega arith

pub pow-pos : (n : ℕ) → 0 < 2 ^ n
pow-pos zero = omega arith
pow-pos (suc n) = omega (arith, pow-suc 2 n, pow-pos n)

pub pow_double : (n : ℕ) → 2 ^ suc n ≡ 2 * 2 ^ n
pow_double n = omega (arith, pow-suc 2 n)

pub pow_byte : (n : ℕ) → 256 ^ suc n ≡ 256 * 256 ^ n
pow_byte n = omega (arith, pow-suc 256 n)

pub pow_byte-pos : (n : ℕ) → 0 < 256 ^ n
pow_byte-pos zero = omega arith
pow_byte-pos (suc n) = omega (arith, pow_byte n, pow_byte-pos n)

pub pow_eight : (n : ℕ) → 2 ^ (8 + n) ≡ 256 * 2 ^ n
pow_eight n = pow-add 2 8 n

pub pow_bytes : (k : ℕ) → 2 ^ (8 * k) ≡ 256 ^ k
pow_bytes zero = refl
pow_bytes (suc k) =
    ap (λ (e : ℕ). 2 ^ e) split ∙ pow_eight (8 * k) ∙ omega (arith, pow_bytes k, pow_byte k)
  where
    split : 8 * suc k ≡ 8 + 8 * k
    split = omega arith

pub pow_byte_bits : (k r : ℕ) → 2 ^ (8 * k + r) ≡ 256 ^ k * 2 ^ r
pow_byte_bits k r = pow-add 2 (8 * k) r ∙ ap (λ (e : ℕ). e * 2 ^ r) (pow_bytes k)

pub pow_mono : {m n : ℕ} → m ≤ n → 2 ^ m ≤ 2 ^ n
pow_mono h = pow-le-pow_right (omega arith) h

pub pow_byte_mono : {m n : ℕ} → m ≤ n → 256 ^ m ≤ 256 ^ n
pow_byte_mono h = pow-le-pow_right (omega arith) h
