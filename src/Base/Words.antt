-- ===== src/Base/Words.antt =====
-- Go's uint64 arithmetic on native numbers: every operation wraps modulo 2 ^ 64.
use Prim.Native.Nat.{ℕ, ◌+◌, ◌-◌, ◌*◌, ◌/◌, ◌%◌, ◌^◌, ◌<◌, ◌≤◌}
use mathlib.Core.Path.{◌≡◌, refl}
use native.Mathlib.Omega.{arith}
use mathlib.Core.Logic.{inl, inr}
use go_merklelog.Base.Tests.{ltb, if◌then◌else◌, lt→ltb, Bool-cases}
use go_merklelog.Base.Pow.{pow_mono, pow_pos}

abbrev pub word : ℕ
word = 0x1_0000_0000_0000_0000

unfoldable pub add64 : ℕ → ℕ → ℕ
add64 a b = (a + b) % word

unfoldable pub sub64 : ℕ → ℕ → ℕ
sub64 a b = (a + word - b) % word

unfoldable pub mul64 : ℕ → ℕ → ℕ
mul64 a b = (a * b) % word

-- `x << k`: a shift of 64 or more gives 0
unfoldable pub shl64 : ℕ → ℕ → ℕ
shl64 x k = if ltb k 64 then (x * 2 ^ k) % word else 0

-- `x >> k`
unfoldable pub shr64 : ℕ → ℕ → ℕ
shr64 x k = if ltb k 64 then x / 2 ^ k else 0

pub add64_exact : (a b : ℕ) → a + b < word → add64 a b ≡ a + b
unfolding add64
add64_exact a b h = omega arith

pub sub64_exact : (a b : ℕ) → b ≤ a → a < word → sub64 a b ≡ a - b
unfolding sub64
sub64_exact a b h k = omega arith

pub shl64_exact : (x k : ℕ) → k < 64 → x * 2 ^ k < word → shl64 x k ≡ x * 2 ^ k
unfolding shl64
shl64_exact x k h fits = rw (lt→ltb k 64 h) (omega arith)

pub shl64-one : (k : ℕ) → k < 64 → 2 ^ k < word → shl64 1 k ≡ 2 ^ k
shl64-one k h fits = omega (arith, shl64_exact 1 k)

pub shl64-two : (k : ℕ) → k < 64 → 2 * 2 ^ k < word → shl64 2 k ≡ 2 * 2 ^ k
shl64-two k h fits = shl64_exact 2 k h fits

abbrev pub max_u64 : ℕ
max_u64 = 0xffff_ffff_ffff_ffff

pub pow_63 : (k : ℕ) → k < 64 → 2 * 2 ^ k ≤ word
pow_63 k h = omega (arith, pow_mono k 63 (omega arith))

-- `(1 << k) - 1` is the mask of k ones, the full word at 64 too.
pub mask64-eq : (k : ℕ) → k ≤ 64 → sub64 (shl64 1 k) 1 ≡ 2 ^ k - 1
unfolding sub64 shl64
mask64-eq k h = elim (Bool-cases (ltb k 64)) [
  | inl small ↦ ground (arith, pow_63 k, pow_pos k)
  | inr large ↦ ground (arith, pow_mono 64 k, pow_mono k 64)
]

-- Only an exponent below 64 gives a mask below the full word.
pub ones_mask : (o p : ℕ) → p + 1 < word → sub64 (shl64 1 o) 1 ≡ p → 2 ^ o ≡ p + 1
unfolding sub64 shl64
ones_mask o p b e = elim (Bool-cases (ltb o 64)) [
  | inl small ↦ ground (arith, pow_63 o, pow_pos o)
  | inr large ↦ absurd (ground arith)
]

-- `a - b + 1` is right where `a - b` wraps to the last word.
pub add64-sub64_one : (a b : ℕ) → b ≤ a + 1 → a + 1 < word → add64 (sub64 a b) 1 ≡ a + 1 - b
unfolding add64 sub64
add64-sub64_one a b h fits = omega arith

pub sub64-add64_one : (a b : ℕ) → 1 ≤ b → a + b < word → sub64 (add64 a b) 1 ≡ a + b - 1
unfolding add64 sub64
sub64-add64_one a b h fits = omega arith

pub shr64-one : (x : ℕ) → shr64 x 1 ≡ x / 2
unfolding shr64
shr64-one x = refl

pub shl64_by_one : (x : ℕ) → x * 2 < word → shl64 x 1 ≡ x * 2
shl64_by_one x h = shl64_exact x 1 (omega arith) h
