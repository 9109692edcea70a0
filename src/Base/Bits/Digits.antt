-- ===== src/Base/Bits/Digits.antt =====
-- One binary digit of `&`, `|` and `1 << k`.
use Prim.Native.Nat.{ℕ, zero, suc, ◌*◌, ◌/◌, ◌%◌, ◌^◌, ◌<◌, max, bit_and, bit_or}
use mathlib.Core.Path.{◌≡◌, refl}
use native.Mathlib.Omega.{arith}
use go_merklelog.Base.Pow.{pow_suc}
use go_merklelog.Base.Bits.Masks.{bit_and_low, bit_or_low, bit_and-zero}

-- bit `k` of a number
abbrev pub digit : ℕ → ℕ → ℕ
digit x zero = x % 2
digit x (suc k) = digit (x / 2) k

pub digit-bit_or : (a b k : ℕ) → digit (bit_or a b) k ≡ max (digit a k) (digit b k)
digit-bit_or a b zero = omega (arith, bit_or_low a b)
digit-bit_or a b (suc k) =
    let e : bit_or a b / 2 ≡ bit_or (a / 2) (b / 2) = omega (arith, bit_or_low a b) in
    rw e (digit-bit_or (a / 2) (b / 2) k)

pub digit-pow : (k : ℕ) → digit (2 ^ k) k ≡ 1
digit-pow zero = refl
digit-pow (suc k) = let e : 2 ^ suc k / 2 ≡ 2 ^ k = omega (arith, pow_suc k) in rw e (digit-pow k)

pub bit_and-pow : (x k : ℕ) → bit_and x (2 ^ k) ≡ digit x k * 2 ^ k
bit_and-pow x zero = omega (arith, bit_and_low x 1, bit_and-zero (x / 2))
bit_and-pow x (suc k) =
    let half : 2 ^ suc k / 2 ≡ 2 ^ k = omega (arith, pow_suc k) in
    let e : bit_and (x / 2) (2 ^ suc k / 2) ≡ digit (x / 2) k * 2 ^ k =
      rw half (bit_and-pow (x / 2) k) in
    let doubled : digit (x / 2) k * 2 ^ suc k ≡ digit (x / 2) k * 2 ^ k * 2 =
      rw (pow_suc k) (grind arith) in
    omega (arith, bit_and_low x (2 ^ suc k), pow_suc k)

pub bit_or-lt : (n a b : ℕ) → a < 2 ^ n → b < 2 ^ n → bit_or a b < 2 ^ n
bit_or-lt zero a b h k =
    let ea : a ≡ 0 = omega arith in let eb : b ≡ 0 = omega arith in rw (ea, eb) (omega arith)
bit_or-lt (suc n) a b h k = omega (
  arith,
  pow_suc n,
  bit_or_low a b,
  bit_or-lt n (a / 2) (b / 2) (omega (arith, pow_suc n)) (omega (arith, pow_suc n)),
)
