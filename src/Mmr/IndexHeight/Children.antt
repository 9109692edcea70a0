-- ===== src/Mmr/IndexHeight/Children.antt =====
-- The children of a node: a node of height h + 1 has them 2 ^ (h + 1) and 1 before it.
use go_merklelog.Base.{ℕ, zero, suc, ◌+◌, ◌-◌, ◌*◌, ◌^◌, ◌≤◌, ◌<◌, ◌≡◌, ap, ◌∙◌, arith}
use go_merklelog.Base.{word}
use go_merklelog.Base.Pow.{pow_suc, pow_pos}
use native.Mathlib.Decide.{ℕ_discrete, dec_lt}
use go_merklelog.Mmr.Tree.{
  height_in, height_in-root, height_in-left, height_in-right, height_in-first, height_in-le,
  height_in_room,
}
use go_merklelog.Mmr.IndexHeight.{index_height}
use go_merklelog.Mmr.IndexHeight.Shape.{index_height-Tree}
use go_merklelog.Mmr.IndexHeight.Steps.{index_height-next, index_height_room}

height_in-left_child :
    (k p h : ℕ)
    → 1 ≤ p
    → p + 1 ≤ 2 * 2 ^ k
    → height_in k p ≡ suc h
    → (height_in k (p - 2 * 2 ^ h) ≡ h) × (height_in k (p - 2 * 2 ^ h + 1) ≤ h)
height_in-left_child zero p h lo hi e = absurd (omega (arith, height_in-le 0 p))
height_in-left_child (suc k) p h lo hi e = elim (ℕ_discrete (p + 1) (2 * 2 ^ suc k)) [
  | yes root ↦
      let top : h ≡ k = omega (arith, height_in-root (suc k) p root) in
      let q : p - 2 * 2 ^ h + 1 ≡ 2 * 2 ^ k = rw top (omega (arith, pow_suc k)) in
      let start : p - 2 * 2 ^ h + 1 - (2 ^ suc k - 1) ≡ 1 = omega (arith, pow_suc k, pow_pos k) in
      (
        height_in-left k (p - 2 * 2 ^ h) (omega (arith, pow_suc k))
            ∙ height_in-root k (p - 2 * 2 ^ h) q
            ∙ omega (arith, top),
        omega (
          arith,
          height_in-right k (p - 2 * 2 ^ h + 1) (omega (arith, pow_suc k))
              (omega (arith, pow_suc k, pow_pos k)),
          ap (height_in k) start,
          height_in-first k,
        ),
      )
  | no below ↦ elim (dec_lt p (2 ^ suc k)) [
    | yes left ↦
        let here = height_in-left k p left in
        let (child, behind) =
          height_in-left_child k p h lo (omega (arith, pow_suc k)) (omega (arith, here)) in
        let back : 2 * 2 ^ suc h ≤ p + 1 = rw e at (height_in_room (suc k) p lo hi) in
        (
          omega (arith, height_in-left k (p - 2 * 2 ^ h) (omega arith)),
          omega (
            arith,
            height_in-left k (p - 2 * 2 ^ h + 1) (omega (arith, back, pow_suc h, pow_pos h)),
          ),
        )
    | no right ↦
        let q = p - (2 ^ suc k - 1) in
        let here = height_in-right k p (omega arith) (omega arith) in
        let low : height_in k q ≡ suc h = omega (arith, here) in
        let (child, behind) =
          height_in-left_child k q h (omega (arith, pow_suc k)) (omega (arith, pow_suc k)) low in
        let back : 2 * 2 ^ suc h ≤ q + 1 =
          rw low at (height_in_room k q (omega (arith, pow_suc k)) (omega (arith, pow_suc k))) in
        let same : p - 2 * 2 ^ h - (2 ^ suc k - 1) ≡ q - 2 * 2 ^ h = omega arith in
        let next : p - 2 * 2 ^ h + 1 - (2 ^ suc k - 1) ≡ q - 2 * 2 ^ h + 1 =
          omega (arith, back, pow_suc h, pow_pos h) in
        (
          omega (
            arith,
            height_in-right k (p - 2 * 2 ^ h) (omega (arith, back, pow_suc h, pow_pos h))
                (omega arith),
            ap (height_in k) same,
            child,
          ),
          omega (
            arith,
            height_in-right k (p - 2 * 2 ^ h + 1) (omega (arith, back, pow_suc h, pow_pos h))
                (omega (arith, back, pow_suc h, pow_pos h)),
            ap (height_in k) next,
            behind,
          ),
        )
  ]
]

-- What stands 2 ^ (h + 1) before a node of height h + 1 is of height h, and a leaf or no higher node
-- behind it; the node just before it is of height h.
pub record Children (n h : ℕ) : Type 0 where
  pub room : 2 * 2 ^ suc h ≤ n + 2
  pub left : index_height (n - 2 * 2 ^ h) ≡ h
  pub behind_left : index_height (n - 2 * 2 ^ h + 1) ≤ h
  pub right : index_height (n - 1) ≡ h

pub Children-of : (n h : ℕ) → n + 2 < word → index_height n ≡ suc h → Children n h
Children-of n h fits e =
    let here : height_in 63 (n + 1) ≡ suc h = omega (arith, index_height-Tree n) in
    let back : 2 * 2 ^ suc h ≤ n + 2 = rw e at (index_height_room n (omega arith)) in
    let (child, behind) = height_in-left_child 63 (n + 1) h (omega arith) (omega arith) here in
    let left : n + 1 - 2 * 2 ^ h ≡ n - 2 * 2 ^ h + 1 = omega (arith, back, pow_suc h, pow_pos h) in
    let before : n - 1 + 1 ≡ n = omega (arith, back, pow_suc h, pow_pos h) in
    record {
      room = back;
      left = omega (arith, index_height-Tree (n - 2 * 2 ^ h), ap (height_in 63) left, child);
      behind_left = omega (
        arith,
        index_height-Tree (n - 2 * 2 ^ h + 1),
        ap (λ p. height_in 63 (p + 1)) left,
        behind,
      );
      right = omega (arith, index_height-next (n - 1), ap index_height before);
    }
