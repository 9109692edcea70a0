-- ===== src/Base/Bits/Masks.antt =====
-- `&` with a mask of low ones and `| 1` on an even word, from the digit recursion that the native
-- operations stand for.
use Prim.Native.Nat.{
  ℕ, zero, suc, ◌+◌, ◌-◌, ◌*◌, ◌/◌, ◌%◌, ◌^◌, ◌≤◌, min, max, bit_and, bit_or, digits,
  bit_and-bitwise, bit_or-bitwise,
}
use mathlib.Core.Path.{◌≡◌, refl, ap, sym, ◌∙◌}
use native.Mathlib.Omega.{arith}
use go_merklelog.Base.Pow.{pow_suc, pow_pos}
use go_merklelog.Base.Bits.{ones_below, ones_digits, ones_below-zero}

module _ (only_right : ℕ → ℕ) (both : ℕ → ℕ → ℕ) where
  -- With no digit left the fuel does not matter.
  digits-zero : (fuel b : ℕ) → digits only_right both fuel 0 b ≡ only_right b
  digits-zero zero b = refl
  digits-zero (suc fuel) b = refl

  -- Any fuel from the left operand on gives the same digits.
  digits_settled :
      (a fuel more b : ℕ)
      → a ≤ fuel
      → fuel ≤ more
      → digits only_right both more a b ≡ digits only_right both fuel a b
  digits_settled zero fuel more b h k = digits-zero more b ∙ sym (digits-zero fuel b)
  digits_settled (suc a) zero more b h k = absurd (omega arith)
  digits_settled (suc a) (suc fuel) zero b h k = absurd (omega arith)
  digits_settled (suc a) (suc fuel) (suc more) b h k =
      ap (λ (t : ℕ). t * 2 + both (suc a % 2) (b % 2))
        (digits_settled (suc a / 2) fuel more (b / 2) (omega arith) (omega arith))

-- The lowest digit of each operation.
pub bit_and_low : (a b : ℕ) → bit_and a b ≡ bit_and (a / 2) (b / 2) * 2 + min (a % 2) (b % 2)
bit_and_low zero b = omega (arith, bit_and-bitwise 0 b, bit_and-bitwise 0 (b / 2))
bit_and_low (suc a) b = omega (
  arith,
  bit_and-bitwise (suc a) b,
  bit_and-bitwise (suc a / 2) (b / 2),
  digits_settled (λ _. 0) min (suc a / 2) (suc a / 2) a (b / 2) (omega arith) (omega arith),
)

pub bit_or_low : (a b : ℕ) → bit_or a b ≡ bit_or (a / 2) (b / 2) * 2 + max (a % 2) (b % 2)
bit_or_low zero b = omega (arith, bit_or-bitwise 0 b, bit_or-bitwise 0 (b / 2))
bit_or_low (suc a) b = omega (
  arith,
  bit_or-bitwise (suc a) b,
  bit_or-bitwise (suc a / 2) (b / 2),
  digits_settled (λ y. y) max (suc a / 2) (suc a / 2) a (b / 2) (omega arith) (omega arith),
)

bit_or-zero_fuel : (n x : ℕ) → x ≤ n → bit_or x 0 ≡ x
bit_or-zero_fuel zero x h = let e : x ≡ 0 = omega arith in rw e refl
bit_or-zero_fuel (suc n) zero h = refl
bit_or-zero_fuel (suc n) (suc x) h =
    omega (arith, bit_or_low (suc x) 0, bit_or-zero_fuel n (suc x / 2) (omega arith))

bit_and-zero_fuel : (n x : ℕ) → x ≤ n → bit_and x 0 ≡ 0
bit_and-zero_fuel zero x h = let e : x ≡ 0 = omega arith in rw e refl
bit_and-zero_fuel (suc n) zero h = refl
bit_and-zero_fuel (suc n) (suc x) h =
    omega (arith, bit_and_low (suc x) 0, bit_and-zero_fuel n (suc x / 2) (omega arith))

pub bit_and-zero : (x : ℕ) → bit_and x 0 ≡ 0
bit_and-zero x = bit_and-zero_fuel x x (omega arith)

-- The ones that a mask of `j` low ones lets through are those of the lowest `j` digits.
pub ones_below-bit_and :
    (fuel j x : ℕ) → j ≤ fuel → ones_below fuel (bit_and x (2 ^ j - 1)) ≡ ones_below j x
unfolding ones_below ones_digits
ones_below-bit_and fuel zero x h = rw (bit_and-zero_fuel x x (omega arith)) (ones_below-zero fuel)
ones_below-bit_and zero (suc j) x h = absurd (omega arith)
ones_below-bit_and (suc fuel) (suc j) x h =
    let mask : (2 ^ suc j - 1) / 2 ≡ 2 ^ j - 1 = omega (arith, pow_suc j, pow_pos j) in
    let rest = bit_and (x / 2) (2 ^ j - 1) in
    let low : bit_and x (2 ^ suc j - 1) ≡ rest * 2 + x % 2 =
      rw mask at (bit_and_low x (2 ^ suc j - 1)) ∙ omega (arith, pow_suc j, pow_pos j) in
    let halved : (rest * 2 + x % 2) / 2 ≡ rest = omega arith in
    rw low (rw halved (omega (arith, ones_below-bit_and fuel j (x / 2) (omega arith))))

-- `|= 1` on an even word
pub bit_or_set_low : (x : ℕ) → bit_or (x * 2) 1 ≡ x * 2 + 1
bit_or_set_low x =
    let halved : x * 2 / 2 ≡ x = omega arith in
    omega (
      arith,
      bit_or_low (x * 2) 1,
      bit_or-zero_fuel x x (omega arith),
      ap (λ (t : ℕ). bit_or t 0) halved,
    )

pub bit_or-zero : (x : ℕ) → bit_or x 0 ≡ x
bit_or-zero x = bit_or-zero_fuel x x (omega arith)
