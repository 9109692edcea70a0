-- ===== src/Mmr/Tests/Numbers.antt =====
-- Leaf numbers at concrete inputs.
use go_merklelog.Base.{◌≤◌, ◌≡◌, arith}
use go_merklelog.Mmr.IndexHeight.{index_height}
use go_merklelog.Mmr.Peaks.{leaf_count, leaf_index, first_mmr_size}
use go_merklelog.Mmr.Leaves.{mmr_index}
use go_merklelog.Mmr.Leaves.Sizes.{IsFirstSize, first_mmr_size-IsFirstSize, leaf_index-mmr_index}
use go_merklelog.Mmr.Leaves.Stack.{LeafStack, leaf_stack}

leaf_index-mmr_index_example :
    (leaf_index (mmr_index 11) ≡ 11)
    × (leaf_count (mmr_index 11) ≡ 11)
    × (index_height (mmr_index 11) ≡ 0)
leaf_index-mmr_index_example = leaf_index-mmr_index 11 (omega arith)

leaf_stack_example : LeafStack 7
leaf_stack_example = leaf_stack 7 (omega arith)

first_mmr_size-IsFirstSize_example : IsFirstSize 11 (first_mmr_size 11) × (first_mmr_size 11 ≤ 76)
first_mmr_size-IsFirstSize_example = first_mmr_size-IsFirstSize 11 (omega arith)
