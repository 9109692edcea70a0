-- ===== src/Mmr/Tree.antt =====
-- The shape of a merkle mountain range, independent of the code's bit tricks: positions, counted
-- from 1, in the post-order of a perfect binary tree.
use go_merklelog.Base.{
  ℕ, zero, suc, ◌+◌, ◌-◌, ◌*◌, ◌^◌, ◌≤◌, ◌<◌, ◌≡◌, refl, ◌⊎◌, inl, inr, ap, ◌∙◌, true, false, arith,
}
use go_merklelog.Base.{ltb, ◌==◌, if◌then◌else◌}
use native.Mathlib.Decide.{dec_lt, ℕ_discrete}
use go_merklelog.Base.Pow.{pow_suc, pow_pos, pow_mono}

-- The height of position `p` in the perfect tree of height `k`: the root stands last, the left
-- subtree first, and the right subtree is a copy of it behind it.
pub height_in : ℕ → ℕ → ℕ
height_in zero p = 0
height_in (suc k) p = elim (p + 1 == 2 * 2 ^ suc k) [
  | true ↦ suc k
  | false ↦ height_in k (if ltb p (2 ^ suc k) then p else p - (2 ^ suc k - 1))
]

pub height_in-root : (k p : ℕ) → p + 1 ≡ 2 * 2 ^ k → height_in k p ≡ k
unfolding height_in
height_in-root zero p e = refl
height_in-root (suc k) p e = ground (arith, pow_suc k)

pub height_in-left : (k p : ℕ) → p < 2 ^ suc k → height_in (suc k) p ≡ height_in k p
unfolding height_in
height_in-left k p h = ground (arith, pow_suc k)

pub height_in-right :
    (k p : ℕ)
    → 2 ^ suc k ≤ p
    → p + 1 < 2 * 2 ^ suc k
    → height_in (suc k) p ≡ height_in k (p - (2 ^ suc k - 1))
unfolding height_in
height_in-right k p lo hi = ground (arith, pow_suc k)

pub height_in-first : (k : ℕ) → height_in k 1 ≡ 0
unfolding height_in
height_in-first zero = refl
height_in-first (suc k) = ground (arith, pow_suc k, pow_pos k, height_in-first k)

pub height_in-le : (k p : ℕ) → height_in k p ≤ k
unfolding height_in
height_in-le zero p = omega arith
height_in-le (suc k) p = ground (arith, height_in-le k p, height_in-le k (p - (2 ^ suc k - 1)))

-- A node stands behind the tree that it is the root of.
pub height_in_room : (k p : ℕ) → 1 ≤ p → p + 1 ≤ 2 * 2 ^ k → 2 * 2 ^ height_in k p ≤ p + 1
unfolding height_in
height_in_room zero p lo hi = omega arith
height_in_room (suc k) p lo hi =
    ground (arith, pow_suc k, height_in_room k p, height_in_room k (p - (2 ^ suc k - 1)))

-- Where a position that is not the root stands in a tree whose subtrees have `m - 1` nodes.
data Place (m p : ℕ) : Type 0 where
  in_left : p + 1 < m → Place m p
  left_root : p + 1 ≡ m → Place m p
  in_right : m ≤ p → p + 2 < 2 * m → Place m p
  right_root : p + 2 ≡ 2 * m → Place m p

place : (m p : ℕ) → p + 2 ≤ 2 * m → Place m p
place m p h = elim (dec_lt (p + 1) m) [
  | yes l ↦ in_left l
  | no a ↦ elim (ℕ_discrete (p + 1) m) [
    | yes e ↦ left_root e
    | no b ↦ elim (ℕ_discrete (p + 2) (2 * m)) [
      | yes e ↦ right_root e
      | no c ↦ in_right (omega arith) (omega arith)
    ]
  ]
]

-- Behind a node stands its parent, one higher, or a leaf.
pub height_in-next :
    (k p : ℕ)
    → 1 ≤ p
    → p + 2 ≤ 2 * 2 ^ k
    → (height_in k (p + 1) ≡ height_in k p + 1) ⊎ (height_in k (p + 1) ≡ 0)
height_in-next zero p lo hi = absurd (omega arith)
height_in-next (suc k) p lo hi = elim (place (2 ^ suc k) p hi) [
  | in_left l ↦
      ground (arith, pow_suc k, height_in-left k p, height_in-left k (p + 1), height_in-next k p)
  | left_root e ↦
      let e1 : p + 1 - (2 ^ suc k - 1) ≡ 1 = omega (arith, pow_pos (suc k)) in
      inr (
        ground (
          arith,
          pow_suc k,
          pow_pos k,
          height_in-right k (p + 1),
          ap (height_in k) e1,
          height_in-first k,
        ))
  | in_right l u ↦
      let q : ℕ = p - (2 ^ suc k - 1) in
      let e : p + 1 - (2 ^ suc k - 1) ≡ q + 1 = omega (arith, pow_pos (suc k)) in
      ground (
        arith,
        pow_suc k,
        height_in-right k p,
        height_in-right k (p + 1),
        ap (height_in k) e,
        height_in-next k q,
      )
  | right_root e ↦ inl (
      ground (
        arith,
        pow_suc k,
        height_in-right k p,
        height_in-root (suc k) (p + 1),
        height_in-root k (p - (2 ^ suc k - 1)),
      ))
]

-- The parent of a left child of height `h` stands 2 ^ (h + 1) behind it.
pub height_in-left_parent :
    (k p : ℕ)
    → 1 ≤ p
    → p + 2 ≤ 2 * 2 ^ k
    → height_in k (p + 1) ≤ height_in k p
    → (p + 2 * 2 ^ height_in k p + 1 ≤ 2 * 2 ^ k)
      × (height_in k (p + 2 * 2 ^ height_in k p) ≡ height_in k p + 1)
height_in-left_parent zero p lo hi h = absurd (omega arith)
height_in-left_parent (suc k) p lo hi h = elim (place (2 ^ suc k) p hi) [
  | in_left l ↦ ground (
    arith,
    pow_suc k,
    height_in-left k p,
    height_in-left k (p + 1),
    height_in-left k (p + 2 * 2 ^ height_in k p),
    height_in-left_parent k p,
  )
  | left_root e ↦ ground (
    arith,
    pow_suc k,
    height_in-left k p,
    height_in-root k p,
    height_in-root (suc k) (p + 2 * 2 ^ k),
  )
  | in_right l u ↦
      let q : ℕ = p - (2 ^ suc k - 1) in
      let e : p + 1 - (2 ^ suc k - 1) ≡ q + 1 = omega (arith, pow_pos (suc k)) in
      let hq : height_in (suc k) p ≡ height_in k q = height_in-right k p l (omega arith) in
      let e2 : p + 2 * 2 ^ height_in k q - (2 ^ suc k - 1) ≡ q + 2 * 2 ^ height_in k q =
        omega (arith, pow_pos (suc k)) in
      rw hq (
        ground (
          arith,
          pow_suc k,
          height_in-right k (p + 1),
          height_in-right k (p + 2 * 2 ^ height_in k q),
          ap (height_in k) e,
          ap (height_in k) e2,
          height_in-left_parent k q,
        ))
  | right_root e ↦ absurd (
      ground (
        arith,
        pow_suc k,
        height_in-right k p,
        height_in-root (suc k) (p + 1),
        height_in-root k (p - (2 ^ suc k - 1)),
      ))
]

-- In a larger tree the leftmost subtree is the smaller tree.
pub height_in-below : (h k p : ℕ) → h ≤ k → p < 2 * 2 ^ h → height_in k p ≡ height_in h p
height_in-below h zero p b l = let e : h ≡ 0 = omega arith in rw e refl
height_in-below h (suc k) p b l = elim (ℕ_discrete h (suc k)) [
  | yes e ↦ rw e refl
  | no ne ↦
      height_in-left k p (omega (arith, pow_suc k, pow_mono h k (omega arith)))
      ∙ height_in-below h k p (omega arith) l
]

-- Behind the leftmost mountain of height `h` the heights start again.
pub height_in-behind :
    (h k p : ℕ)
    → h < k
    → 1 ≤ p
    → p + 1 ≤ 2 * 2 ^ h
    → height_in k (2 * 2 ^ h - 1 + p) ≡ height_in h p
height_in-behind h k p b lo hi =
    let q = 2 * 2 ^ h - 1 + p in
    let e : q - (2 ^ suc h - 1) ≡ p = omega (arith, pow_suc h, pow_pos h) in
    height_in-below (suc h) k q b (omega (arith, pow_suc h, pow_pos h))
    ∙ height_in-right h q (omega (arith, pow_suc h, pow_pos h))
        (omega (arith, pow_suc h, pow_pos h))
    ∙ ap (height_in h) e
