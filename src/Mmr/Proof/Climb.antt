-- ===== src/Mmr/Proof/Climb.antt =====
-- The climb from a node to the peak above it, as a relation, and that each round of the loops
-- takes one step of it.
use go_merklelog.Base.{ℕ, suc, ◌+◌, ◌-◌, ◌*◌, ◌^◌, ◌≤◌, ◌<◌, ◌≡◌, refl, ap, List, [], ◌∷◌, arith}
use go_merklelog.Base.{word, add64, add64_exact, add64-sub64_one, sub64-add64_one, lt→ltb, le→ltb}
use native.Mathlib.Decide.{dec_lt, ℕ_discrete}
use go_merklelog.Base.Pow.{pow_suc, pow_pos}
use go_merklelog.Mmr.IndexHeight.{index_height}
use go_merklelog.Mmr.IndexHeight.Steps.{
  index_height_room, index_height-next, index_height-left_parent, shl64-index_height,
}
use go_merklelog.Mmr.Proof.{sibling}

-- No sibling of the node `top` is in the log that ends with node `last`: it is a peak.
pub record IsPeak (last top : ℕ) : Type 0 where
  pub inside : top ≤ last
  pub no_parent_behind : index_height (top + 1) ≤ index_height top
  pub no_sibling : last < top + 2 * 2 ^ index_height top - 1

-- `Climb last i path top`: in the log that ends with node `last`, the siblings at `path` lead from
-- node `i` up to the peak `top`.
pub data Climb (last : ℕ) : ℕ → List ℕ → ℕ → Type 0 where
  top : {i : ℕ} → IsPeak last i → Climb last i [] i
  from_right :
      {i s t : ℕ} {path : List ℕ}
      → index_height (i + 1) ≡ index_height i + 1
      → s + 2 * 2 ^ index_height i ≡ i + 1
      → i + 1 ≤ last
      → Climb last (i + 1) path t
      → Climb last i (s ∷ path) t
  from_left :
      {i s u t : ℕ} {path : List ℕ}
      → index_height (i + 1) ≤ index_height i
      → u ≡ i + 2 * 2 ^ index_height i
      → s + 1 ≡ u
      → index_height u ≡ index_height i + 1
      → u ≤ last
      → Climb last u path t
      → Climb last i (s ∷ path) t

abbrev sibling_of_right : ℕ → record { sibling : ℕ; parent : ℕ }
sibling_of_right i = record { sibling = i + 1 - 2 * 2 ^ index_height i; parent = i + 1 }

abbrev sibling_of_left : ℕ → record { sibling : ℕ; parent : ℕ }
sibling_of_left i = record {
  sibling = i + 2 * 2 ^ index_height i - 1;
  parent = i + 2 * 2 ^ index_height i;
}

pub right_room :
    (i : ℕ)
    → i + 2 < word
    → index_height (i + 1) ≡ index_height i + 1
    → 2 * 2 ^ index_height i ≤ i + 1
right_room i fits up =
    let e : index_height (i + 1) ≡ suc (index_height i) = omega arith in
    let room : 2 * 2 ^ suc (index_height i) ≤ i + 1 + 2 =
      rw e at (index_height_room (i + 1) (omega arith)) in
    omega (arith, pow_suc (index_height i), pow_pos (index_height i))

-- What the code computes for a right child, and for a node that is no right child.
pub sibling-right :
    (i : ℕ)
    → i + 2 < word
    → index_height (i + 1) ≡ index_height i + 1
    → sibling i (index_height i) ≡ sibling_of_right i
unfolding sibling
sibling-right i fits up =
    rw
      (
        add64_exact i 1 (omega arith),
        lt→ltb (index_height i) (index_height (i + 1)) (omega arith),
        shl64-index_height i fits,
        add64-sub64_one i (2 * 2 ^ index_height i) (right_room i fits up) (omega arith),
      )
      refl

pub sibling-left :
    (i : ℕ)
    → i + 2 < word
    → index_height (i + 1) ≤ index_height i
    → sibling i (index_height i) ≡ sibling_of_left i
unfolding sibling
sibling-left i fits low =
    let up = index_height-left_parent i fits low in
    let parent : add64 i (2 * 2 ^ index_height i) ≡ i + 2 * 2 ^ index_height i =
      add64_exact i (2 * 2 ^ index_height i) (omega (arith, up.0)) in
    rw
      (
        add64_exact i 1 (omega arith),
        le→ltb (index_height i) (index_height (i + 1)) low,
        shl64-index_height i fits,
        sub64-add64_one i (2 * 2 ^ index_height i) (omega (arith, pow_pos (index_height i)))
            (omega (arith, up.0)),
        parent,
      )
      refl

-- Where a node stands in the log that ends with node `last`.
pub data Standing (last i : ℕ) : Type 0 where
  peak : IsPeak last i → Standing last i
  right_child : index_height (i + 1) ≡ index_height i + 1 → i + 1 ≤ last → Standing last i
  left_child :
      index_height (i + 1) ≤ index_height i → i + 2 * 2 ^ index_height i ≤ last → Standing last i

pub standing :
    (last i : ℕ) → last + 2 < word → index_height (last + 1) ≡ 0 → i ≤ last → Standing last i
standing last i fits complete inside = elim (dec_lt (index_height i) (index_height (i + 1))) [
  | yes up ↦
      let higher : index_height (i + 1) ≡ index_height i + 1 =
        ground (arith, index_height-next i (omega arith)) in
      right_child higher (within (i + 1) (omega arith) (omega arith))
  | no low ↦
      let flat : index_height (i + 1) ≤ index_height i = omega arith in
      let up = index_height-left_parent i (omega arith) flat in
      let u = i + 2 * 2 ^ index_height i in
      elim (dec_lt last (u - 1)) [
        | yes out ↦ peak (record { inside = inside; no_parent_behind = flat; no_sibling = out })
        | no inn ↦ left_child flat (within u (omega arith) (omega (arith, up.1)))
      ]
]
  where
    -- an interior node up to the next node is not the next one
    within : (u : ℕ) → u ≤ last + 1 → 0 < index_height u → u ≤ last
    within u near pos = elim (ℕ_discrete u (last + 1)) [
      | yes e ↦ absurd (omega (arith, ap index_height e))
      | no ne ↦ omega arith
    ]
