-- ===== src/Mmr/Leaves.antt =====
-- mmr/mmrindex.go, mmr/spurs.go, mmr/ancestors.go and mmr/powof2.go: leaves by number, the interior
-- nodes that a leaf completes, and the nodes above a node. Each round of a loop takes a binary
-- digit off the leaf number, or goes up a level, so 65 rounds are enough.
pub mod Growth
pub mod Carry
pub mod Numbering
pub mod Spurs
pub mod Sizes
pub mod Stack
use mathlib.Core.Option
use go_merklelog.Base.{
  ℕ, zero, suc, ◌+◌, ◌/◌, ◌%◌, Bool, true, false, Option, none, some, List, [], ◌∷◌, ◌++◌,
}
use go_merklelog.Base.{ltb, leb, ◌==◌, if◌then◌else◌, add64, sub64, mul64, shl64, shr64}
use go_merklelog.Base.Bits.{len64, trailing_zeros64}
use go_merklelog.Mmr.IndexHeight.{index_height, log2_uint64, sibling_offset}

-- `none` when the fuel is out
unfoldable pub mmr_index_loop : ℕ → ℕ → ℕ → Option ℕ
mmr_index_loop zero leaf sum = none
mmr_index_loop (suc fuel) leaf sum = elim (ltb 0 leaf) [
  | true ↦
      let h = len64 leaf in
      let sum' = add64 sum (sub64 (shl64 1 h) 1) in
      let half = shl64 1 (sub64 h 1) in mmr_index_loop fuel (sub64 leaf half) sum'
  | false ↦ some sum
]

unfoldable pub mmr_index : ℕ → ℕ
mmr_index leaf = Option.get_or (mmr_index_loop 65 leaf 0) 0

-- the rounds from `i` up to `height - 1`
unfoldable pub spur_sum_loop : ℕ → ℕ → ℕ → ℕ → ℕ
spur_sum_loop zero height i sum = sum
spur_sum_loop (suc rounds) height i sum =
    let sum' = add64 sum (mul64 (shl64 1 (sub64 (sub64 height 1) i)) i) in
    spur_sum_loop rounds height (add64 i 1) sum'

unfoldable pub spur_sum_height : ℕ → ℕ
spur_sum_height zero = 0
spur_sum_height (suc below) = spur_sum_loop below (suc below) 1 0

unfoldable pub spur_loop : ℕ → ℕ → ℕ → Option ℕ
spur_loop zero leaf sum = none
spur_loop (suc fuel) leaf sum = elim (ltb 0 leaf) [
  | true ↦ spur_loop fuel (shr64 leaf 1) (sub64 sum leaf)
  | false ↦ some sum
]

unfoldable pub leaf_minus_spur_sum : ℕ → ℕ
leaf_minus_spur_sum leaf = Option.get_or (spur_loop 65 (shr64 leaf 1) leaf) 0

unfoldable pub spur_height_leaf : ℕ → ℕ
spur_height_leaf leaf = trailing_zeros64 (add64 leaf 1)

unfoldable pub tree_index_loop : ℕ → ℕ → ℕ → Option ℕ
tree_index_loop zero i sum = none
tree_index_loop (suc fuel) i sum = elim (ltb 0 i) [
  | true ↦
      let height = add64 (log2_uint64 i) 1 in
      let sum' = add64 sum (add64 (spur_sum_height height) height) in
      let half = shl64 1 (sub64 height 1) in tree_index_loop fuel (sub64 i half) sum'
  | false ↦ some sum
]

unfoldable pub tree_index_old : ℕ → ℕ
tree_index_old leaf = Option.get_or (tree_index_loop 65 leaf 0) 0

-- the nodes on the left of each level that node `i` and those behind it go up
unfoldable pub left_ancestors_loop : ℕ → ℕ → ℕ → List ℕ → Option (List ℕ)
left_ancestors_loop zero i height acc = none
left_ancestors_loop (suc fuel) i height acc = elim (ltb height (index_height i)) [
  | true ↦
      let i_left = sub64 i (shl64 2 height) in
      left_ancestors_loop fuel (add64 i 1) (add64 height 1) (acc ++ i_left ∷ [])
  | false ↦ some acc
]

-- The empty list is nil.
unfoldable pub left_ancestors : ℕ → List ℕ
left_ancestors i =
    let height = index_height i in
    if ltb height 1 then [] else Option.get_or (left_ancestors_loop 65 i (sub64 height 1) []) []

unfoldable pub ancestors_loop : ℕ → ℕ → ℕ → List ℕ → Option (List ℕ)
ancestors_loop zero i height acc = none
ancestors_loop (suc fuel) i height acc = elim (ltb height (index_height i)) [
  | true ↦
      let i_left = sub64 i (shl64 2 height) in
      let i_right = add64 i_left (sibling_offset height) in
      ancestors_loop fuel (add64 i 1) (add64 height 1) (acc ++ (i_left ∷ i_right ∷ []))
  | false ↦ some acc
]

unfoldable pub ancestors : ℕ → List ℕ
ancestors i =
    let height = index_height i in
    if ltb height 1 then [] else Option.get_or (ancestors_loop 65 i (sub64 height 1) []) []

-- the shift down to the lowest one
unfoldable pub shift_down : ℕ → ℕ → Option ℕ
shift_down zero size = none
shift_down (suc fuel) size = elim (size % 2 == 0) [
  | true ↦ shift_down fuel (size / 2)
  | false ↦ some size
]

-- `size & ^1` is 0 for 0 and 1 alone
unfoldable pub is_pow2 : ℕ → Bool
is_pow2 size = if size == 0 then false else leb (Option.get_or (shift_down 64 size) 0) 1
