-- ===== src/Base/Bits/Fields.antt =====
-- `&` and `|` on words that are made of bit fields.
use Prim.Native.Nat.{ℕ, zero, suc, ◌+◌, ◌-◌, ◌*◌, ◌/◌, ◌^◌, ◌<◌, ◌≤◌, bit_and, bit_or}
use mathlib.Core.Path.{◌≡◌, ◌∙◌}
use native.Mathlib.Omega.{arith}
use mathlib.Core.Logic.{inl, inr}
use native.Mathlib.Decide.{dec_lt}
use go_merklelog.Base.Tests.{◌==◌, Bool-cases, ==_iff}
use go_merklelog.Base.Bits.{len64, len_digits, len_digits-zero}
use go_merklelog.Base.Pow.{pow_suc, pow_pos}
use go_merklelog.Base.Bits.Masks.{bit_and_low, bit_or_low, bit_or-zero, bit_and-zero}

pub mul_pow_suc : (x k : ℕ) → x * 2 ^ suc k ≡ x * 2 ^ k * 2
mul_pow_suc x k = rw (pow_suc k) (grind arith)

-- a mask of `k` low ones keeps the low field
pub bit_and_field : (k q r : ℕ) → r < 2 ^ k → bit_and (q * 2 ^ k + r) (2 ^ k - 1) ≡ r
bit_and_field zero q r h = let e : r ≡ 0 = omega arith in rw e (bit_and-zero (q * 1 + 0))
bit_and_field (suc k) q r h =
    let x = q * 2 ^ suc k + r in
    let half : x / 2 ≡ q * 2 ^ k + r / 2 = omega (arith, mul_pow_suc q k) in
    let mask : (2 ^ suc k - 1) / 2 ≡ 2 ^ k - 1 = omega (arith, pow_suc k, pow_pos k) in
    let rest : bit_and (x / 2) ((2 ^ suc k - 1) / 2) ≡ r / 2 =
      rw (half, mask) (bit_and_field k q (r / 2) (omega (arith, pow_suc k))) in
    omega (arith, bit_and_low x (2 ^ suc k - 1), pow_suc k, pow_pos k, mul_pow_suc q k)

-- a field above `k` low digits is set apart from them
pub bit_or_field :
    (k x y s : ℕ) → s < 2 ^ k → bit_or (x * 2 ^ k + s) (y * 2 ^ k) ≡ bit_or x y * 2 ^ k + s
bit_or_field zero x y s h =
    let e : s ≡ 0 = omega arith in
    let ex : x * 2 ^ 0 + 0 ≡ x = omega arith in
    let ey : y * 2 ^ 0 ≡ y = omega arith in rw (e, ex, ey) (omega arith)
bit_or_field (suc k) x y s h =
    let a = x * 2 ^ suc k + s in
    let b = y * 2 ^ suc k in
    let half_a : a / 2 ≡ x * 2 ^ k + s / 2 = omega (arith, mul_pow_suc x k) in
    let half_b : b / 2 ≡ y * 2 ^ k = omega (arith, mul_pow_suc y k) in
    let rest : bit_or (a / 2) (b / 2) ≡ bit_or x y * 2 ^ k + s / 2 =
      rw (half_a, half_b) (bit_or_field k x y (s / 2) (omega (arith, pow_suc k))) in
    omega (arith, bit_or_low a b, mul_pow_suc x k, mul_pow_suc y k, mul_pow_suc (bit_or x y) k)

-- a field that is empty takes a value by `|`
pub bit_or_empty : (k q r : ℕ) → r < 2 ^ k → bit_or (q * 2 ^ k) r ≡ q * 2 ^ k + r
bit_or_empty zero q r h =
    let e : r ≡ 0 = omega arith in rw e (bit_or-zero (q * 2 ^ 0) ∙ omega arith)
bit_or_empty (suc k) q r h =
    let a = q * 2 ^ suc k in
    let half_a : a / 2 ≡ q * 2 ^ k = omega (arith, mul_pow_suc q k) in
    let rest : bit_or (a / 2) (r / 2) ≡ q * 2 ^ k + r / 2 =
      rw half_a (bit_or_empty k q (r / 2) (omega (arith, pow_suc k))) in
    omega (arith, bit_or_low a r, mul_pow_suc q k)

-- what a mask lets through is not above the mask
pub bit_and-le : (n x m : ℕ) → m ≤ n → bit_and x m ≤ m
bit_and-le n x zero h = omega (arith, bit_and-zero x)
bit_and-le zero x (suc m) h = absurd (omega arith)
bit_and-le (suc n) x (suc m) h =
    omega (arith, bit_and_low x (suc m), bit_and-le n (x / 2) (suc m / 2) (omega arith))

len_digits_fits : (f x : ℕ) → x < 2 ^ f → x < 2 ^ len_digits f x
unfolding len_digits
len_digits_fits zero x h = h
len_digits_fits (suc f) x h =
    let rest = len_digits_fits f (x / 2) (omega (arith, pow_suc f)) in
    elim (Bool-cases (x == 0)) [
      | inl none_left ↦ rw none_left (omega (arith, (==_iff x 0).0 none_left))
      | inr more ↦ rw more (omega (arith, rest, pow_suc (len_digits f (x / 2))))
    ]

rest_least :
    (f x : ℕ)
    → 1 ≤ x
    → (1 ≤ x / 2 → 2 ^ len_digits f (x / 2) ≤ 2 * (x / 2))
    → 2 ^ suc (len_digits f (x / 2)) ≤ 2 * x
rest_least f x h ih = elim (dec_lt 1 x) [
  | yes large ↦ omega (arith, ih (omega arith), pow_suc (len_digits f (x / 2)))
  | no small ↦
      let e : x ≡ 1 = omega arith in
      let z : len_digits f (x / 2) ≡ 0 = rw e (len_digits-zero f) in rw (z, e) (omega arith)
]

len_digits_least : (f x : ℕ) → 1 ≤ x → 2 ^ len_digits f x ≤ 2 * x
unfolding len_digits
len_digits_least zero x h = omega arith
len_digits_least (suc f) x h = elim (Bool-cases (x == 0)) [
  | inl none_left ↦ absurd (omega (arith, (==_iff x 0).0 none_left))
  | inr more ↦ rw more (rest_least f x h (len_digits_least f (x / 2)))
]

-- `Len64` is the least width that the number fits.
pub len64_fits : (x : ℕ) → x < 2 ^ 64 → x < 2 ^ len64 x
unfolding len64
len64_fits x h = len_digits_fits 64 x h

pub len64_least : (x : ℕ) → 1 ≤ x → 2 ^ len64 x ≤ 2 * x
unfolding len64
len64_least x h = len_digits_least 64 x h
