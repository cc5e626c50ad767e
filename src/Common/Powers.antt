-- ===== src/Common/Powers.antt =====
-- Powers of two.
use Prim.Native.Nat.{ℕ, zero, suc, ◌+◌, ◌*◌, ◌/◌, ◌^◌, ◌≤◌, ◌<◌}
use mathlib.Core.Path.{◌≡◌}
use native.Mathlib.Omega.{arith}
use native.Mathlib.Nat.{add-zero, pow-suc, pow-le-pow_right, mul-div_cancel_left}

pub pow2-pos : (n : ℕ) → 0 < 2 ^ n
pow2-pos zero = omega arith
pow2-pos (suc n) = omega (arith, pow2-pos n)

pub pow2_mono : (m n : ℕ) → m ≤ n → 2 ^ m ≤ 2 ^ n
pow2_mono m n h = pow-le-pow_right {n = 2} (omega arith) h

sum_suc : (m n : ℕ) → m + suc n ≡ suc (m + n)
sum_suc m n = omega arith

pub pow2-add : (m n : ℕ) → 2 ^ (m + n) ≡ 2 ^ m * 2 ^ n
pow2-add m zero = rw add-zero (omega arith)
pow2-add m (suc n) = rw (sum_suc m n, pow-suc 2 (m + n), pow-suc 2 n, pow2-add m n) (omega arith)

-- A power of two, shifted down.
pub pow2-shift : (m n : ℕ) → 2 ^ (m + n) / 2 ^ m ≡ 2 ^ n
pow2-shift m n = rw (pow2-add m n) (mul-div_cancel_left (2 ^ n) (pow2-pos m))
