-- ===== src/Massifs/Context/Index.antt =====
-- massifs/indexops_v2.go: the regions of a massif's index.
-- A region is a slice of the context's bytes, so what is written to it is written to them.
use go_merklelog.Base.{ℕ, ◌*◌, ◌&&◌, Bool, true, Option, none, some, [], ◌∷◌, length}
use go_merklelog.Base.{ltb, leb, ◌==◌, if◌then◌else◌, add64}
use go_merklelog.Base.Buffers.{Bytes, take, drop, overwrite}
use go_merklelog.Base.Results.{Result, ok, err, panic, out_of_fuel}
use go_merklelog.Base.Results
use go_merklelog.Bloom.Sizing.{region_bytes}
use go_merklelog.Urkle.Frontier.{frontier_state_bytes}
use go_merklelog.Urkle.Sizing.{leaf_count_for_massif_height, leaf_table_bytes, node_store_bytes}
use go_merklelog.Massifs.Errors.{
  R, start_word_out_of_range, region_out_of_range, unsupported_version, invalid_massif_height,
  bad_value_size,
}
use go_merklelog.Massifs.Layout.{value_bytes, trie_header_start, bloom_m_bits_v1_for_leaf_count}
use go_merklelog.Massifs.Start.{massif_current_version}
use go_merklelog.Massifs.Context.{MassifContext, Call, ◌>>=◌, reading}

pub record Region : Type 0 where
  pub off : ℕ
  pub size : ℕ

abbrev pub bytes_of : Region → MassifContext → Bytes
bytes_of r mc = take r.size (drop r.off mc.data_bytes)

abbrev pub put_bytes : Region → Bytes → MassifContext → MassifContext
put_bytes r b mc = record mc { data_bytes = overwrite mc.data_bytes r.off b }

-- a slice of the data, with the check that it is inside
unfoldable pub region_at : ℕ → ℕ → MassifContext → R Region
region_at off size mc =
    if ltb (length mc.data_bytes) (add64 off size)
    then err region_out_of_range
    else ok (record { off = off; size = size })

unfoldable pub start_header_word_range : ℕ → MassifContext → R Region
start_header_word_range word mc =
    if leb 8 word
    then err start_word_out_of_range
    else region_at (word * value_bytes) value_bytes mc

unfoldable pub is_all_zero : Bytes → Bool
is_all_zero [] = true
is_all_zero (x ∷ b) = x == 0 && is_all_zero b

-- `none` is a root that is not set
unfoldable pub urkle_root_hash : MassifContext → R (Option Bytes)
urkle_root_hash mc =
    Results.◌>>=◌ (start_header_word_range 1 mc)
      λ r. ok (if is_all_zero (bytes_of r mc) then none else some (bytes_of r mc))

unfoldable pub set_urkle_root_hash : Bytes → Call (Unit {0})
set_urkle_root_hash root mc =
    if length root == value_bytes
    then (reading (start_header_word_range 1) >>= λ r mc. (ok tt, put_bytes r root mc)) mc
    else (err bad_value_size, mc)

unfoldable pub require_v2_index : MassifContext → R (Unit {0})
require_v2_index mc =
    if mc.start.version == massif_current_version
    then if mc.start.massif_height == 0 then err invalid_massif_height else ok tt
    else err unsupported_version

unfoldable pub urkle_leaf_count_v2 : MassifContext → ℕ
urkle_leaf_count_v2 mc = leaf_count_for_massif_height mc.start.massif_height

-- The regions stand behind each other: the filters, the frontier, the leaf table, the node store.
unfoldable pub bloom_region_bytes : MassifContext → R ℕ
bloom_region_bytes mc = Results.◌>>=◌ (require_v2_index mc) λ _.
    Results.◌>>=◌ (bloom_m_bits_v1_for_leaf_count (urkle_leaf_count_v2 mc))
      λ m_bits. ok (region_bytes m_bits)

unfoldable pub bloom_region : MassifContext → R Region
bloom_region mc = Results.◌>>=◌ (bloom_region_bytes mc) λ n. region_at trie_header_start n mc

unfoldable pub urkle_frontier_region : MassifContext → R Region
urkle_frontier_region mc =
    Results.◌>>=◌ (bloom_region_bytes mc)
      λ n. region_at (add64 trie_header_start n) frontier_state_bytes mc

unfoldable pub urkle_leaf_table_region : MassifContext → R Region
urkle_leaf_table_region mc = Results.◌>>=◌ (bloom_region_bytes mc) λ n.
    region_at (add64 (add64 trie_header_start n) frontier_state_bytes)
      (leaf_table_bytes (urkle_leaf_count_v2 mc)) mc

unfoldable pub urkle_node_store_region : MassifContext → R Region
urkle_node_store_region mc = Results.◌>>=◌ (bloom_region_bytes mc) λ n.
    let leaf_table_start = add64 (add64 trie_header_start n) frontier_state_bytes in
    region_at (add64 leaf_table_start (leaf_table_bytes (urkle_leaf_count_v2 mc)))
      (node_store_bytes (urkle_leaf_count_v2 mc)) mc
