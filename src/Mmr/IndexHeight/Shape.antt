-- ===== src/Mmr/IndexHeight/Shape.antt =====
-- `PosHeight` and `IndexHeight` compute the height in the tree's shape.
use mathlib.Core.Option
use go_merklelog.Base.{
  ℕ, zero, suc, ◌+◌, ◌-◌, ◌*◌, ◌^◌, ◌≤◌, ◌<◌, ◌≡◌, inl, inr, refl, ap, some, true, false, arith,
}
use go_merklelog.Base.{
  ==_iff, Bool-cases, word, mask64-eq, ones_mask, pow_63, add64_exact, sub64_exact, shl64-one,
}
use native.Mathlib.Decide.{dec_lt, ℕ_discrete}
use go_merklelog.Base.Pow.{pow_suc, pow_pos, lt-of_pow-lt}
use go_merklelog.Base.Bits.{len64_lem, ones_count64, ones_count64_full}
use go_merklelog.Mmr.Tree.{height_in, height_in-root, height_in-left, height_in-right}
use go_merklelog.Mmr.IndexHeight.{
  all_ones, jump_left_perfect, bit_length64, pos_height_loop, pos_height, index_height,
}

all_ones-root : (k p : ℕ) → k < 64 → p + 1 ≡ 2 * 2 ^ k → all_ones p ≡ true
unfolding all_ones
all_ones-root k p b e =
    let whole : p ≡ 2 ^ suc k - 1 = omega (arith, pow_suc k) in
    rw whole (
      rw (ones_count64_full (suc k) b, mask64-eq (suc k) b)
        ((==_iff (2 ^ suc k - 1) (2 ^ suc k - 1)).1 refl))

all_ones-false : (k p : ℕ) → k < 64 → 2 ^ k ≤ p → p + 1 < 2 * 2 ^ k → all_ones p ≡ false
unfolding all_ones
all_ones-false k p b lo hi = elim (Bool-cases (all_ones p)) [
  | inr e ↦ e
  | inl e ↦
      let o = ones_count64 p in
      let full : 2 ^ o ≡ p + 1 = ones_mask o p (omega (arith, pow_63 k b)) ((==_iff _ p).0 e) in
      absurd (omega (arith, lt-of_pow-lt k o, lt-of_pow-lt o (suc k), pow_suc k))
]

jump_left_perfect-eq :
    (k p : ℕ) → k < 64 → 2 ^ k ≤ p → p < 2 * 2 ^ k → jump_left_perfect p ≡ p - (2 ^ k - 1)
unfolding jump_left_perfect bit_length64
jump_left_perfect-eq k p b lo hi = rw (len64_lem k p b lo hi) (
    ground (
      arith,
      pow_pos k,
      pow_63 k b,
      sub64_exact (suc k) 1,
      shl64-one k,
      sub64_exact (2 ^ k) 1,
      sub64_exact p (2 ^ k - 1),
    ))

root_lem :
    (fuel k p : ℕ)
    → k < 64
    → p + 1 ≡ 2 * 2 ^ k
    → pos_height_loop (suc fuel) p ≡ some (height_in k p)
unfolding pos_height_loop bit_length64
root_lem fuel k p b e =
    rw (all_ones-root k p b e, pos_height_loop)
      (ap some
        (ground (arith, pow_pos k, height_in-root k p e, len64_lem k p b, sub64_exact (suc k) 1)))

-- A position in a tree of height `k` has a lowest perfect tree that it is in.
loop_lem :
    (fuel k p : ℕ)
    → k < fuel
    → k < 64
    → 1 ≤ p
    → p + 1 ≤ 2 * 2 ^ k
    → pos_height_loop fuel p ≡ some (height_in k p)
unfolding pos_height_loop
loop_lem zero k p f b lo hi = absurd (omega arith)
loop_lem (suc fuel) zero p f b lo hi = root_lem fuel zero p b (omega arith)
loop_lem (suc fuel) (suc k) p f b lo hi = elim (ℕ_discrete (p + 1) (2 * 2 ^ suc k)) [
  | yes e ↦ root_lem fuel (suc k) p b e
  | no ne ↦ elim (dec_lt p (2 ^ suc k)) [
    | yes l ↦
        rw (height_in-left k p l)
          (loop_lem (suc fuel) k p (omega arith) (omega arith) lo (omega (arith, pow_suc k)))
    | no nl ↦
        let below : p + 1 < 2 * 2 ^ suc k = omega arith in
        rw
          (
            all_ones-false (suc k) p b (omega arith) below,
            pos_height_loop,
            jump_left_perfect-eq (suc k) p b (omega arith) (omega arith),
            height_in-right k p (omega arith) below,
          )
          (loop_lem fuel k (p - (2 ^ suc k - 1)) (omega arith) (omega arith)
            (omega (arith, pow_pos (suc k))) (omega (arith, pow_suc k, pow_pos k)))
  ]
]

-- On every position from 1 up to 2 ^ 64 - 1 the loop ends within its fuel, and `PosHeight` is
-- the height of the position in the perfect tree of 2 ^ 64 - 1 nodes.
pub pos_height-Tree :
    (p : ℕ)
    → 1 ≤ p
    → p < word
    → (pos_height_loop 64 p ≡ some (height_in 63 p)) × (pos_height p ≡ height_in 63 p)
unfolding pos_height
pos_height-Tree p lo hi =
    let e : pos_height_loop 64 p ≡ some (height_in 63 p) =
      loop_lem 64 63 p (omega arith) (omega arith) lo (omega arith) in
    (e, ap (λ o. Option.get_or o 0) e)

-- `IndexHeight`, for every index whose position fits a word.
pub index_height-Tree : (i : ℕ) → i + 1 < word → index_height i ≡ height_in 63 (i + 1)
unfolding index_height
index_height-Tree i h = rw (add64_exact i 1 h) (pos_height-Tree (i + 1) (omega arith) h).1
