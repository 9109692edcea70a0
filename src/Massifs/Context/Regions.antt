-- ===== src/Massifs/Context/Regions.antt =====
-- The regions of a massif's index (massifs/indexops_v2.go) against the sizes that the log's start is
-- worked out from (massifs/indexformat_v2.go).
use go_merklelog.Base.{
  ℕ, zero, suc, ◌+◌, ◌-◌, ◌*◌, ◌/◌, ◌%◌, ◌^◌, ◌≤◌, ◌<◌, ◌≡◌, ◌≢◌, refl, ap, ◌∙◌, length, arith,
}
use go_merklelog.Base.{
  word, ◌==◌, true, false, le→ltb, neq→==, ==_iff, add64, sub64, mul64, shl64-one,
}
use native.Mathlib.Nat.{mul-div_cancel}
use go_merklelog.Base.Pow.{pow_pos, pow_mono}
use go_merklelog.Base.Results.{ok}
use go_merklelog.Bloom.Sizing.{m_bits_v1, m_bits_safe_cast, region_bytes, bitset_bytes}
use go_merklelog.Urkle.Builder.{node_count_max}
use go_merklelog.Urkle.Sizing.{leaf_table_bytes, node_store_bytes, leaf_count_for_massif_height}
use go_merklelog.Massifs.Layout.{bloom_m_bits_v1_for_leaf_count, index_data_bytes_v2}
use go_merklelog.Massifs.Context.{MassifContext, index_end, index_size, size_or_zero}
use go_merklelog.Massifs.Context.Index.{
  Region, region_at, require_v2_index, urkle_leaf_count_v2, bloom_region_bytes, bloom_region,
  urkle_frontier_region, urkle_leaf_table_region, urkle_node_store_region,
}

-- The count of leaves is not 0 and is at most 2 ^ 28, so no size of the index wraps.
module _ (n : ℕ) (some_leaf : 0 < n) (few : n ≤ 2 ^ 28) where
  pub m_bits_lem : bloom_m_bits_v1_for_leaf_count n ≡ ok (10 * n)
  unfolding bloom_m_bits_v1_for_leaf_count m_bits_v1 m_bits_safe_cast mul64
  m_bits_lem =
      let exact : 10 * n % word ≡ 10 * n = omega arith in
      let tenth : 10 * n / n ≡ 10 = mul-div_cancel 10 some_leaf in rw (exact, tenth) (ground arith)

  pub region_lem : region_bytes (10 * n) ≡ 32 + 4 * ((10 * n + 7) / 8)
  unfolding region_bytes bitset_bytes
  region_lem = omega arith

  node_count_lem : node_count_max n ≡ 2 * n - 1
  unfolding node_count_max sub64 mul64
  node_count_lem = ground arith

  index_data_lem :
      index_data_bytes_v2 n ≡ ok (4 * ((10 * n + 7) / 8) + 544 + n * 128 + (2 * n - 1) * 64)
  unfolding index_data_bytes_v2 leaf_table_bytes node_store_bytes mul64 add64 sub64
  index_data_lem = rw (m_bits_lem, region_lem, node_count_lem) (ground arith)

pub leaf_count_lem : (h : ℕ) → 1 ≤ h → h ≤ 29 → leaf_count_for_massif_height h ≡ 2 ^ (h - 1)
unfolding leaf_count_for_massif_height
leaf_count_lem zero lo hi = absurd (omega arith)
leaf_count_lem (suc k) lo hi =
    let below : k ≡ suc k - 1 = omega arith in
    shl64-one k (omega arith) (omega (arith, pow_mono k 28 (omega arith))) ∙ ap (λ j. 2 ^ j) below

-- The regions of an index of `n` leaves stand one behind the other, from the end of the start record
-- to the start of the peak stack.
pub record Tiled (mc : MassifContext) (n : ℕ) : Type 0 where
  pub bloom : Region
  pub frontier : Region
  pub leaf_table : Region
  pub node_store : Region
  pub bloom_there : bloom_region mc ≡ ok bloom
  pub frontier_there : urkle_frontier_region mc ≡ ok frontier
  pub leaf_table_there : urkle_leaf_table_region mc ≡ ok leaf_table
  pub node_store_there : urkle_node_store_region mc ≡ ok node_store
  pub first : bloom.off ≡ 256
  pub frontier_next : frontier.off ≡ bloom.off + bloom.size
  pub leaf_table_next : leaf_table.off ≡ frontier.off + frontier.size
  pub node_store_next : node_store.off ≡ leaf_table.off + leaf_table.size
  pub stack_next : index_end mc ≡ node_store.off + node_store.size
  pub all_bits : 40 * n ≤ 8 * (bloom.size - 32)
  pub all_leaves : leaf_table.size ≡ n * 128
  pub all_nodes : node_store.size ≡ (2 * n - 1) * 64

module _ (mc : MassifContext) (n : ℕ) (version : mc.start.version ≡ 2)
    (some_height : mc.start.massif_height ≢ 0)
    (counted : leaf_count_for_massif_height mc.start.massif_height ≡ n) (some_leaf : 0 < n)
    (few : n ≤ 2 ^ 28) where
  abbrev pub bits : ℕ
  bits = 4 * ((10 * n + 7) / 8)

  is_current : (mc.start.version == 2) ≡ true
  is_current = (==_iff mc.start.version 2).1 version

  is_some_height : (mc.start.massif_height == 0) ≡ false
  is_some_height = neq→== mc.start.massif_height 0 some_height

  count_eq : urkle_leaf_count_v2 mc ≡ n
  unfolding urkle_leaf_count_v2
  count_eq = counted

  pub index_size_lem : index_size mc ≡ bits + 544 + n * 128 + (2 * n - 1) * 64
  unfolding index_size size_or_zero
  index_size_lem =
      rw (is_current, is_some_height, counted, index_data_lem n some_leaf few, size_or_zero) refl

  pub index_end_lem : index_end mc ≡ 288 + (bits + 544 + n * 128 + (2 * n - 1) * 64)
  unfolding index_end add64
  index_end_lem = omega (arith, index_size_lem)

  region_bytes_lem : bloom_region_bytes mc ≡ ok (32 + bits)
  unfolding bloom_region_bytes require_v2_index
  region_bytes_lem =
      rw
        (
          is_current,
          is_some_height,
          count_eq,
          m_bits_lem n some_leaf few,
          region_lem n some_leaf few,
        )
        refl

  module _ (there : index_end mc ≤ length mc.data_bytes) where
    region_at_lem :
        (off size : ℕ)
        → off + size ≤ index_end mc
        → region_at off size mc ≡ ok (record { off = off; size = size })
    unfolding region_at add64
    region_at_lem off size inside =
        let exact : (off + size) % word ≡ off + size = omega (arith, index_end_lem) in
        rw (exact, le→ltb (length mc.data_bytes) (off + size) (omega arith)) refl

    pub tiled : Tiled mc n
    unfolding bloom_region urkle_frontier_region urkle_leaf_table_region urkle_node_store_region
        leaf_table_bytes node_store_bytes mul64 add64
    tiled = record {
      bloom = record { off = 256; size = 32 + bits };
      frontier = record { off = 256 + (32 + bits); size = 544 };
      leaf_table = record { off = 256 + (32 + bits) + 544; size = n * 128 };
      node_store = record { off = 256 + (32 + bits) + 544 + n * 128; size = (2 * n - 1) * 64 };
      bloom_there =
          rw region_bytes_lem (region_at_lem 256 (32 + bits) (omega (arith, index_end_lem)));
      frontier_there =
          let off : (256 + (32 + bits)) % word ≡ 256 + (32 + bits) = omega arith in
          rw (region_bytes_lem, off)
            (region_at_lem (256 + (32 + bits)) 544 (omega (arith, index_end_lem)));
      leaf_table_there =
          let off : ((256 + (32 + bits)) % word + 544) % word ≡ 256 + (32 + bits) + 544 =
            omega arith in
          let size : n * 128 % word ≡ n * 128 = omega arith in
          rw (region_bytes_lem, off, count_eq, size)
            (region_at_lem (256 + (32 + bits) + 544) (n * 128) (omega (arith, index_end_lem)));
      node_store_there =
          let off : (((256 + (32 + bits)) % word + 544) % word + n * 128 % word) % word
              ≡ 256 + (32 + bits) + 544 + n * 128 =
            omega arith in
          let size : (2 * n - 1) * 64 % word ≡ (2 * n - 1) * 64 = omega arith in
          rw (region_bytes_lem, count_eq, off, node_count_lem n some_leaf few, size)
            (region_at_lem (256 + (32 + bits) + 544 + n * 128) ((2 * n - 1) * 64)
              (omega (arith, index_end_lem)));
      first = refl;
      frontier_next = refl;
      leaf_table_next = refl;
      node_store_next = refl;
      stack_next = omega (arith, index_end_lem);
      all_bits = omega arith;
      all_leaves = refl;
      all_nodes = refl;
    }

-- In a context of version 2 with a height from 1 to 29, whose data reaches the peak stack, the four
-- regions of the index are found, stand one behind the other with no gap from the end of the start
-- record to the start of the peak stack, and have room for 10 bits in each of 4 filters, a leaf
-- record and two nodes less one for each leaf.
pub regions-Tiled :
    (mc : MassifContext)
    → mc.start.version ≡ 2
    → 1 ≤ mc.start.massif_height
    → mc.start.massif_height ≤ 29
    → index_end mc ≤ length mc.data_bytes
    → Tiled mc (2 ^ (mc.start.massif_height - 1))
regions-Tiled mc version low high there =
    let h = mc.start.massif_height in
    tiled mc (2 ^ (h - 1)) version (λ e. absurd (omega arith)) (leaf_count_lem h low high)
      (pow_pos (h - 1)) (pow_mono (h - 1) 28 (omega arith)) there
