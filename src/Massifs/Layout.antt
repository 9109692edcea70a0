-- ===== src/Massifs/Layout.antt =====
-- massifs/logformat.go, massifs/indexformat_v2.go, massifs/heightindex.go and massifs/massifindex.go:
-- where the parts of a massif lie in its bytes, and which massif has a leaf.
use go_merklelog.Base.{ℕ, ◌+◌, ◌*◌, ◌/◌, ◌||◌}
use go_merklelog.Base.{ltb, ◌==◌, if◌then◌else◌, add64, sub64, mul64, shl64}
use go_merklelog.Base.Buffers.{Bytes, read_bytes}
use go_merklelog.Base.Results.{ok, err, panic, ◌>>=◌}
use go_merklelog.Bloom.Sizing.{
  m_bits_v1, m_bits_safe_cast, region_bytes, header_bytes, m_bits_overflow,
}
use go_merklelog.Urkle.Frontier.{frontier_state_bytes}
use go_merklelog.Urkle.Sizing.{leaf_table_bytes, node_store_bytes, leaf_count_for_massif_height}
use go_merklelog.Mmr.IndexHeight.{height_index_leaf_count}
use go_merklelog.Mmr.Peaks.{leaf_index}
use go_merklelog.Mmr.Leaves.{leaf_minus_spur_sum}
use go_merklelog.Massifs.Errors.{R, from_bloom, index_size_overflow, massif_data_length_invalid}

abbrev pub value_bytes : ℕ
value_bytes = 32

abbrev pub log_entry_bytes : ℕ
log_entry_bytes = 32

abbrev pub index_header_bytes : ℕ
index_header_bytes = 32

abbrev pub start_header_size : ℕ
start_header_size = value_bytes + value_bytes * 7

abbrev pub max_mmr_height : ℕ
max_mmr_height = 64

abbrev pub bloom_bits_per_element_v1 : ℕ
bloom_bits_per_element_v1 = 10

abbrev pub bloom_k_v1 : ℕ
bloom_k_v1 = 7

-- `size` is not negative
unfoldable pub index_from_blob_size : ℕ → ℕ
index_from_blob_size size = if size == 0 then 0 else sub64 (size / 32) 1

unfoldable pub indexed_log_value : Bytes → ℕ → R Bytes
indexed_log_value log_data i = read_bytes log_data (mul64 i log_entry_bytes) value_bytes

abbrev pub trie_header_start : ℕ
trie_header_start = start_header_size

abbrev pub trie_header_end : ℕ
trie_header_end = trie_header_start + index_header_bytes

unfoldable pub bloom_m_bits_v1_for_leaf_count : ℕ → R ℕ
bloom_m_bits_v1_for_leaf_count leaf_count =
    let m_bits_64 = m_bits_v1 leaf_count bloom_bits_per_element_v1 in
    let m_bits = m_bits_safe_cast m_bits_64 in
    if leaf_count == 0
    then err (from_bloom m_bits_overflow)
    else if m_bits_64 / leaf_count == bloom_bits_per_element_v1
    then if m_bits == 0 then err (from_bloom m_bits_overflow) else ok m_bits
    else err (from_bloom m_bits_overflow)

unfoldable pub index_data_bytes_v2 : ℕ → R ℕ
index_data_bytes_v2 leaf_count = bloom_m_bits_v1_for_leaf_count leaf_count >>= λ m_bits.
    let bloom_bitsets_bytes = sub64 (region_bytes m_bits) header_bytes in
    let leaf_table = leaf_table_bytes leaf_count in
    let node_store = node_store_bytes leaf_count in
    let total =
      add64 (add64 (add64 bloom_bitsets_bytes frontier_state_bytes) leaf_table) node_store in
    if ltb (region_bytes m_bits) header_bytes
    then err index_size_overflow
    else if ltb total bloom_bitsets_bytes
        || ltb total frontier_state_bytes
        || ltb total leaf_table
        || ltb total node_store
    then err index_size_overflow
    else ok total

-- An error of the index size is a panic.
unfoldable pub peak_stack_start : ℕ → R ℕ
peak_stack_start massif_height =
    start (index_data_bytes_v2 (leaf_count_for_massif_height massif_height))
  where
    start : R ℕ → R ℕ
    start (ok size) = ok (add64 trie_header_end size)
    start result = panic

unfoldable pub peak_stack_len : ℕ → ℕ
peak_stack_len massif_index = leaf_minus_spur_sum massif_index

unfoldable pub peak_stack_end : ℕ → R ℕ
peak_stack_end massif_height =
    peak_stack_start massif_height >>= λ start. ok (add64 start (max_mmr_height * value_bytes))

unfoldable pub massif_log_entries : ℕ → ℕ → R ℕ
massif_log_entries data_len massif_height = peak_stack_end massif_height >>= λ stack_end.
    (if ltb data_len stack_end
      then err massif_data_length_invalid
      else ok (sub64 data_len stack_end / value_bytes))

-- `(1 << h) - h - 1`
unfoldable pub tree_last_leaf_index : ℕ → ℕ
tree_last_leaf_index height = sub64 (sub64 (shl64 1 height) height) 1

unfoldable pub range_last_leaf_index : ℕ → ℕ → ℕ
range_last_leaf_index first_index height = add64 first_index (tree_last_leaf_index height)

unfoldable pub tree_count : ℕ → ℕ
tree_count height = sub64 (shl64 1 height) 1

unfoldable pub tree_size : ℕ → ℕ
tree_size height = mul64 (tree_count height) log_entry_bytes

-- `MassifIndexFromLeafIndex` and `MassifFromLeaf`; a division by 0 panics
unfoldable pub massif_index_from_leaf_index : ℕ → ℕ → R ℕ
massif_index_from_leaf_index massif_height leaf =
    let massif_max_leaves = height_index_leaf_count (sub64 massif_height 1) in
    if massif_max_leaves == 0 then panic else ok (leaf / massif_max_leaves)

unfoldable pub massif_index_from_mmr_index : ℕ → ℕ → R ℕ
massif_index_from_mmr_index massif_height mmr_index =
    massif_index_from_leaf_index massif_height (leaf_index mmr_index)
