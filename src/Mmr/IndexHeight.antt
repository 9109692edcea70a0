-- ===== src/Mmr/IndexHeight.antt =====
-- mmr/indexheight.go, mmr/bits.go and mmr/size.go: heights and offsets of nodes on uint64, with
-- every wrap of the source. The loop of `PosHeight` takes fuel: each jump shortens the position
-- by a binary digit at least, so 64 rounds are enough.
pub mod Children
pub mod Shape
pub mod Steps
use mathlib.Core.Option
use go_merklelog.Base.{ℕ, zero, suc, ◌/◌, ◌<◌, ◌≡◌, Bool, true, false, Option, none, some}
use go_merklelog.Base.{ltb, leb, ◌==◌, if◌then◌else◌, add64, sub64, shl64, shr64, max_u64}
use go_merklelog.Base.Bits.{len64, ones_count64}

unfoldable pub bit_length64 : ℕ → ℕ
bit_length64 num = len64 num

-- `Log2Uint64`; `-1` for 0 wraps
unfoldable pub log2_uint64 : ℕ → ℕ
log2_uint64 num = sub64 (len64 num) 1

unfoldable pub all_ones : ℕ → Bool
all_ones num = sub64 (shl64 1 (ones_count64 num)) 1 == num

unfoldable pub jump_left_perfect : ℕ → ℕ
jump_left_perfect pos =
    let most_significant_bit = shl64 1 (sub64 (bit_length64 pos) 1) in
    sub64 pos (sub64 most_significant_bit 1)

-- `none` when the fuel is out
unfoldable pub pos_height_loop : ℕ → ℕ → Option ℕ
pos_height_loop zero pos = none
pos_height_loop (suc fuel) pos = elim (all_ones pos) [
  | true ↦ some (sub64 (bit_length64 pos) 1)
  | false ↦ pos_height_loop fuel (jump_left_perfect pos)
]

unfoldable pub pos_height : ℕ → ℕ
pos_height pos = Option.get_or (pos_height_loop 64 pos) 0

unfoldable pub index_height : ℕ → ℕ
index_height i = pos_height (add64 i 1)

unfoldable pub max_peak_height : ℕ → ℕ
max_peak_height i =
    let height = sub64 (len64 (add64 i 1)) 1 in
    if all_ones (add64 i 1) then height else sub64 height 1

unfoldable pub height_index_size : ℕ → ℕ
height_index_size height_index = sub64 (shl64 2 height_index) 1

unfoldable pub height_max_index : ℕ → ℕ
height_max_index height_index = sub64 (shl64 2 height_index) 2

unfoldable pub height_size : ℕ → ℕ
height_size height = sub64 (shl64 1 height) 1

unfoldable pub height_index_leaf_count : ℕ → ℕ
height_index_leaf_count height_index = let m = height_index_size height_index in add64 m 1 / 2

unfoldable pub jump_right_sibling : ℕ → ℕ
jump_right_sibling pos = sub64 (add64 pos (shl64 1 (add64 (pos_height pos) 1))) 1

-- `none` is `(0, false)`
unfoldable pub left_child : ℕ → Option ℕ
left_child pos =
    let height = pos_height pos in if height == 0 then none else some (sub64 pos (shl64 1 height))

unfoldable pub sibling_offset : ℕ → ℕ
sibling_offset height = sub64 (shl64 2 height) 1

unfoldable pub parent_offset : ℕ → ℕ
parent_offset height = shl64 2 height

-- the loop of `IndexHeight2`; `peakSz` is halved until it is 0
unfoldable pub index_height2_loop : ℕ → ℕ → ℕ → Option ℕ
index_height2_loop zero pos peak_sz = none
index_height2_loop (suc fuel) pos peak_sz = elim (ltb 0 peak_sz) [
  | true ↦
      index_height2_loop fuel (if leb peak_sz pos then sub64 pos peak_sz else pos) (peak_sz / 2)
  | false ↦ some pos
]

-- `math.MaxUint64 >> bits.LeadingZeros64(pos)`
unfoldable pub index_height2 : ℕ → Option ℕ
index_height2 pos =
    if pos == 0 then some 0 else index_height2_loop 65 pos (shr64 max_u64 (sub64 64 (len64 pos)))
