-- ===== src/Urkle/Sizing.antt =====
-- urkle/sizing.go, urkle/massifheight.go and urkle/mmrindex.go: the sizes of an index and the leaf
-- numbers that fit it, and the node index of a leaf ordinal.
use go_merklelog.Base.{ℕ, zero, suc, ◌*◌}
use go_merklelog.Base.{ltb, leb, if◌then◌else◌, add64, sub64, mul64, shl64}
use go_merklelog.Base.Bits.{len64}
use go_merklelog.Base.Results.{ok, err, ◌>>=◌}
use go_merklelog.Urkle.Errors.{R, leaf_ordinal_does_not_fit}
use go_merklelog.Urkle.Records.{leaf_record_bytes, node_record_bytes}
use go_merklelog.Urkle.Builder.{node_count_max}
use go_merklelog.Mmr.Peaks.{leaf_index}
use go_merklelog.Mmr.Leaves.{mmr_index}

unfoldable pub leaf_table_bytes : ℕ → ℕ
leaf_table_bytes leaf_count = mul64 leaf_count leaf_record_bytes

unfoldable pub node_store_bytes : ℕ → ℕ
node_store_bytes leaf_count = mul64 (node_count_max leaf_count) node_record_bytes

unfoldable pub check_leaf_count : ℕ → R (Unit {0})
check_leaf_count leaf_count =
    if ltb 0xffff_ffff leaf_count then err leaf_ordinal_does_not_fit else ok tt

unfoldable pub leaf_ordinal_bits : ℕ → ℕ
leaf_ordinal_bits leaf_count = if leb leaf_count 1 then 0 else len64 (sub64 leaf_count 1)

abbrev pub max_massif_height : ℕ
max_massif_height = 64

abbrev pub leaf_ordinal_bytes : ℕ
leaf_ordinal_bytes = 4

-- a shift of 64 or more gives 0
unfoldable pub leaf_count_for_massif_height : ℕ → ℕ
leaf_count_for_massif_height zero = 0
leaf_count_for_massif_height (suc height_index) = shl64 1 height_index

unfoldable pub check_massif_height : ℕ → R (Unit {0})
check_massif_height massif_height =
    if ltb max_massif_height massif_height
    then err leaf_ordinal_does_not_fit
    else check_leaf_count (leaf_count_for_massif_height massif_height)

unfoldable pub check_massif_height_fits : ℕ → ℕ → R (Unit {0})
check_massif_height_fits massif_height ordinal_bytes =
    let n = leaf_count_for_massif_height massif_height in
    check_leaf_count n >>= λ _.
    (if leb leaf_ordinal_bytes ordinal_bytes
      then ok tt
      else if ltb (shl64 1 (ordinal_bytes * 8)) n
      then err leaf_ordinal_does_not_fit
      else ok tt)

unfoldable pub leaf_ordinal_to_mmr_index : ℕ → ℕ → ℕ
leaf_ordinal_to_mmr_index first_leaf_mmr_index leaf_ordinal =
    mmr_index (add64 (leaf_index first_leaf_mmr_index) leaf_ordinal)
