-- ===== src/Base/Pow.antt =====
-- Powers of two: growth, order, and the bounds of a 64-bit word.
use Prim.Native.Nat.{ℕ, zero, suc, ◌+◌, ◌*◌, ◌^◌, ◌≤◌, ◌<◌}
use mathlib.Core.Path.{◌≡◌}
use native.Mathlib.Omega.{arith}
use native.Mathlib.Decide.{dec_lt}
use native.Mathlib.Nat.{two-pow-succ, one-le-pow, pow-le-pow_right}

pub pow_suc : (k : ℕ) → 2 ^ suc k ≡ 2 * 2 ^ k
pow_suc k = omega (arith, two-pow-succ k)

pub pow_pos : (k : ℕ) → 1 ≤ 2 ^ k
pow_pos k = one-le-pow k 2 (omega arith)

pub pow_mono : (j k : ℕ) → j ≤ k → 2 ^ j ≤ 2 ^ k
pow_mono j k h = pow-le-pow_right (omega arith) h

pub pow_mono_lt : (j k : ℕ) → j < k → 2 * 2 ^ j ≤ 2 ^ k
pow_mono_lt j k h = omega (arith, pow_mono (suc j) k h, pow_suc j)

pub lt-of_pow-lt : (j k : ℕ) → 2 ^ j < 2 ^ k → j < k
lt-of_pow-lt j k h = elim (dec_lt j k) [
  | yes p ↦ p
  | no p ↦ absurd (omega (arith, pow_mono k j (omega arith)))
]

pub lt-pow : (k : ℕ) → k < 2 ^ k
lt-pow zero = omega arith
lt-pow (suc k) = omega (arith, lt-pow k, pow_suc k)

pub pow_add : (j k : ℕ) → 2 ^ (j + k) ≡ 2 ^ j * 2 ^ k
pow_add j zero = let e : j + 0 ≡ j = omega arith in rw e (omega arith)
pow_add j (suc k) =
    let e : j + suc k ≡ suc (j + k) = omega arith in
    rw (e, pow_suc (j + k), pow_suc k, pow_add j k) (grind arith)
