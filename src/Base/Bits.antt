-- ===== src/Base/Bits.antt =====
-- `math/bits`: Len64, OnesCount64 and TrailingZeros64, as recursions on the binary digits.
pub mod Masks
pub mod Digits
pub mod Fields
use Prim.Native.Nat.{ℕ, zero, suc, ◌+◌, ◌-◌, ◌*◌, ◌/◌, ◌%◌, ◌^◌, ◌≤◌, ◌<◌}
use mathlib.Core.Path.{◌≡◌, refl, ap}
use native.Mathlib.Omega.{arith}
use mathlib.Core.Logic.{inl, inr}
use go_merklelog.Base.Tests.{◌==◌, if◌then◌else◌, Bool-cases}
use go_merklelog.Base.Pow.{pow_suc, pow_pos}

-- the digits of `x`, the lowest `f` of them
len_digits : ℕ → ℕ → ℕ
len_digits zero x = 0
len_digits (suc f) x = if x == 0 then 0 else suc (len_digits f (x / 2))

unfoldable pub len64 : ℕ → ℕ
unfolding len_digits
len64 x = len_digits 64 x

ones_digits : ℕ → ℕ → ℕ
ones_digits zero x = 0
ones_digits (suc f) x = x % 2 + ones_digits f (x / 2)

unfoldable pub ones_count64 : ℕ → ℕ
unfolding ones_digits
ones_count64 x = ones_digits 64 x

zeros_digits : ℕ → ℕ → ℕ
zeros_digits zero x = 0
zeros_digits (suc f) x = if x % 2 == 1 then 0 else suc (zeros_digits f (x / 2))

unfoldable pub trailing_zeros64 : ℕ → ℕ
unfolding zeros_digits
trailing_zeros64 x = zeros_digits 64 x

len_digits-zero : (f : ℕ) → len_digits f 0 ≡ 0
unfolding len_digits
len_digits-zero zero = refl
len_digits-zero (suc f) = refl

len_digits_lem : (f k x : ℕ) → k < f → 2 ^ k ≤ x → x < 2 * 2 ^ k → len_digits f x ≡ suc k
unfolding len_digits
len_digits_lem zero k x b lo hi = absurd (omega arith)
len_digits_lem (suc f) zero x b lo hi = let e : x ≡ 1 = omega arith in rw e (ap_suc_zero f)
  where
    ap_suc_zero : (f : ℕ) → suc (len_digits f 0) ≡ 1
    ap_suc_zero f = omega (arith, len_digits-zero f)
len_digits_lem (suc f) (suc k) x b lo hi =
    ground (arith, pow_suc k, pow_pos k, len_digits_lem f k (x / 2))

-- A number from 2 ^ k up to 2 ^ (k + 1) has k + 1 digits.
pub len64_lem : (k x : ℕ) → k < 64 → 2 ^ k ≤ x → x < 2 * 2 ^ k → len64 x ≡ suc k
unfolding len64
len64_lem k x b lo hi = len_digits_lem 64 k x b lo hi

ones_digits_full : (f k : ℕ) → k ≤ f → ones_digits f (2 ^ k - 1) ≡ k
unfolding ones_digits
ones_digits_full zero zero h = refl
ones_digits_full zero (suc k) h = absurd (omega arith)
ones_digits_full (suc f) zero h = omega (arith, ones_digits_full f 0 (omega arith))
ones_digits_full (suc f) (suc k) h =
    let halved : (2 ^ suc k - 1) / 2 ≡ 2 ^ k - 1 = omega (arith, pow_suc k, pow_pos k) in
    rw halved (omega (arith, ones_digits_full f k (omega arith), pow_suc k, pow_pos k))

pub ones_count64_full : (k : ℕ) → k ≤ 64 → ones_count64 (2 ^ k - 1) ≡ k
unfolding ones_count64
ones_count64_full k h = ones_digits_full 64 k h

-- The ones among the lowest `j` digits, for a leading one above the rest.
pub ones_below : ℕ → ℕ → ℕ
ones_below j x = ones_digits j x

pub ones_below_lead_in :
    (j h r : ℕ) → r < 2 ^ h → h < j → ones_below j (2 ^ h + r) ≡ suc (ones_below j r)
unfolding ones_below ones_digits
ones_below_lead_in zero h r fits b = absurd (omega arith)
ones_below_lead_in (suc j) zero r fits b = let e : r ≡ 0 = omega arith in rw e (omega arith)
ones_below_lead_in (suc j) (suc h) r fits b =
    let halved : (2 ^ suc h + r) / 2 ≡ 2 ^ h + r / 2 = omega (arith, pow_suc h) in
    rw halved (
      omega
        (arith, pow_suc h, ones_below_lead_in j h (r / 2) (omega (arith, pow_suc h)) (omega arith)))

pub ones_below_lead_out : (j h r : ℕ) → j ≤ h → ones_below j (2 ^ h + r) ≡ ones_below j r
unfolding ones_below ones_digits
ones_below_lead_out zero h r b = refl
ones_below_lead_out (suc j) zero r b = absurd (omega arith)
ones_below_lead_out (suc j) (suc h) r b =
    let halved : (2 ^ suc h + r) / 2 ≡ 2 ^ h + r / 2 = omega (arith, pow_suc h) in
    rw halved (omega (arith, pow_suc h, ones_below_lead_out j h (r / 2) (omega arith)))

pub ones_count64-below : (x : ℕ) → ones_count64 x ≡ ones_below 64 x
unfolding ones_count64 ones_below
ones_count64-below x = refl

pub ones_below-zero : (j : ℕ) → ones_below j 0 ≡ 0
unfolding ones_below ones_digits
ones_below-zero zero = refl
ones_below-zero (suc j) = omega (arith, ones_below-zero j)

pub ones_below_none : (x : ℕ) → ones_below 0 x ≡ 0
unfolding ones_below ones_digits
ones_below_none x = refl

pub ones_below_digit : (f x : ℕ) → ones_below (suc f) x ≡ x % 2 + ones_below f (x / 2)
unfolding ones_below ones_digits
ones_below_digit f x = refl

-- The carry of an increment turns the trailing ones into zeros.
zeros_digits-ones_digits :
    (f x : ℕ) → x + 1 < 2 ^ f → ones_digits f x + 1 ≡ ones_digits f (x + 1) + zeros_digits f (x + 1)
unfolding ones_digits zeros_digits
zeros_digits-ones_digits zero x h = absurd (omega arith)
zeros_digits-ones_digits (suc f) x h = elim (Bool-cases ((x + 1) % 2 == 1)) [
  | inl odd ↦ let half : (x + 1) / 2 ≡ x / 2 = ground arith in rw (odd, half) (ground arith)
  | inr even ↦
      let half : (x + 1) / 2 ≡ x / 2 + 1 = ground arith in
      rw (even, half) (ground (arith, zeros_digits-ones_digits f (x / 2), pow_suc f))
]

pub trailing_zeros64-ones :
    (x : ℕ) → x + 1 < 2 ^ 64 → ones_count64 x + 1 ≡ ones_count64 (x + 1) + trailing_zeros64 (x + 1)
unfolding ones_count64 trailing_zeros64
trailing_zeros64-ones x h = zeros_digits-ones_digits 64 x h

-- digits above a number are no ones
ones_digits_short : (f x : ℕ) → x < 2 ^ f → ones_digits (suc f) x ≡ ones_digits f x
unfolding ones_digits
ones_digits_short zero x h = let e : x ≡ 0 = omega arith in rw e refl
ones_digits_short (suc f) x h =
    ap (λ (t : ℕ). x % 2 + t) (ones_digits_short f (x / 2) (omega (arith, pow_suc f)))

pub ones_below_short : (f x : ℕ) → x < 2 ^ f → ones_below (suc f) x ≡ ones_below f x
unfolding ones_below
ones_below_short f x h = ones_digits_short f x h
