-- ===== src/Mmr/Leaves/Spurs.antt =====
-- The arithmetic of leaf numbers on their binary digits.
use go_merklelog.Base.{
  ℕ, zero, suc, ◌-◌, ◌*◌, ◌/◌, ◌^◌, ◌<◌, ◌≤◌, ◌≡◌, false, inl, inr, ap, ◌∙◌, some, arith,
}
use go_merklelog.Base.{
  ltb, Bool-cases, ltb→lt, ltb→le, le→ltb, sub64, shr64, word, sub64_exact, shr64-one,
}
use go_merklelog.Base.Pow.{pow_suc}
use go_merklelog.Base.Bits.{
  ones_below, ones_below-zero, ones_below_digit, ones_count64, ones_count64-below, ones_below_none,
  ones_below_short,
}
use go_merklelog.Mmr.Leaves.{spur_loop, leaf_minus_spur_sum}

ones_below-le : (f x : ℕ) → ones_below f x ≤ x
ones_below-le zero x = rw (ones_below_none x) (omega arith)
ones_below-le (suc f) x = omega (arith, ones_below_digit f x, ones_below-le f (x / 2))

-- The halves of `x`, all together, are twice `x` less its ones.
spur_loop-eq :
    (fuel x sum : ℕ)
    → x < 2 ^ fuel
    → 2 * x ≤ sum
    → sum < word
    → spur_loop (suc fuel) x sum ≡ some (sum - (2 * x - ones_below fuel x))
unfolding spur_loop
spur_loop-eq zero x sum h k l =
    let none_left : ltb 0 x ≡ false = le→ltb 0 x (omega arith) in
    rw (none_left, spur_loop) (ap some (omega (arith, ones_below_none x)))
spur_loop-eq (suc fuel) x sum h k l = elim (Bool-cases (ltb 0 x)) [
  | inl more ↦
      let ih =
        spur_loop-eq fuel (x / 2) (sum - x) (omega (arith, pow_suc fuel)) (omega arith)
          (omega arith) in
      let rest : spur_loop (suc fuel) (shr64 x 1) (sub64 sum x)
          ≡ some (sum - x - (2 * (x / 2) - ones_below fuel (x / 2))) =
        rw (shr64-one x, sub64_exact sum x (omega arith) l) ih in
      rw (more, spur_loop)
        (rest
          ∙ ap some
              (omega (arith, ones_below_digit fuel x, ones_below-le fuel (x / 2), ltb→lt 0 x more)))
  | inr done ↦
      let e : x ≡ 0 = omega (arith, ltb→le 0 x done) in
      rw (done, spur_loop) (ap some (rw e (omega (arith, ones_below-zero (suc fuel)))))
]

-- The peaks before a leaf, in the tree of leaves before it, are as many as its number has ones.
pub leaf_minus_spur_sum-ones :
    (leaf : ℕ) → leaf < word → leaf_minus_spur_sum leaf ≡ ones_count64 leaf
unfolding leaf_minus_spur_sum
leaf_minus_spur_sum-ones leaf h =
    let e : spur_loop 65 (shr64 leaf 1) leaf
        ≡ some (leaf - (2 * (leaf / 2) - ones_below 64 (leaf / 2))) =
      rw (shr64-one leaf) (spur_loop-eq 64 (leaf / 2) leaf (omega arith) (omega arith) h) in
    let half : ones_below 64 (leaf / 2) ≡ ones_below 63 (leaf / 2) =
      ones_below_short 63 (leaf / 2) (omega arith) in
    rw e (
      omega (
        arith,
        ones_count64-below leaf,
        ones_below_digit 63 leaf,
        half,
        ones_below-le 64 (leaf / 2),
      ))
