-- ===== src/Massifs/Context/Tests.antt =====
-- Runs of the massif code, and the theorems about it at concrete inputs.
use go_merklelog.Base.{
  ℕ, zero, suc, ◌+◌, ◌*◌, ◌≤◌, ◌<◌, ◌≡◌, refl, sym, ap, subst, true, false, some, none, List, [],
  ◌∷◌, ◌++◌, length, get_elem?, arith,
}
use go_merklelog.Base.Buffers.{put_uint64, Bytes, zeros, take, drop}
use go_merklelog.Base.Results.{ok}
use go_merklelog.Base.{add64, sub64, mul64, shl64}
use go_merklelog.Base.Bits.{len64, ones_count64}
use go_merklelog.Mmr.Hasher.{hash_pos_pair64, hash_write_uint64, write, sum}
use go_merklelog.Mmr.Store.{IsMmr, IsComplete, node_at}
use go_merklelog.Mmr.IndexHeight.{
  index_height, pos_height, pos_height_loop, all_ones, bit_length64, jump_left_perfect,
}
use go_merklelog.Mmr.Peaks.{peaks, peaks_loop, top_peak}
use go_merklelog.Mmr.Proof.Climb.{IsPeak}
use go_merklelog.Mmr.Tests.{byte_of, height_0, height_1, height_2, height_3}
use go_merklelog.Bloom.Sizing.{m_bits_v1, m_bits_safe_cast, region_bytes, bitset_bytes}
use go_merklelog.Urkle.Sizing.{leaf_count_for_massif_height, leaf_table_bytes, node_store_bytes}
use go_merklelog.Urkle.Builder.{node_count_max}
use go_merklelog.Massifs.Start.{
  MassifStart, new_massif_start, marshal_binary, decode_massif_start, make_massif_start,
}
use go_merklelog.Massifs.Start.Roundtrip.{reread, decode_massif_start-marshal_binary}
use go_merklelog.Massifs.Context.Regions.{Tiled, regions-Tiled}
use go_merklelog.Massifs.Layout.{
  index_data_bytes_v2, bloom_m_bits_v1_for_leaf_count, range_last_leaf_index, tree_last_leaf_index,
}
use go_merklelog.Massifs.Context.{
  MassifContext, make_peak_stack_map, count, log_start, index_end, index_size, size_or_zero,
  last_leaf_mmr_index,
}
use go_merklelog.Massifs.Context.Fill.{IsLogOf, add_entries, create_first_massif_context-IsLogOf}
use go_merklelog.Massifs.Context.Append.{add_indexed_entry, create_first_massif_context}
use go_merklelog.Massifs.Context.Stored.{Holds, IsBefore, view}
use go_merklelog.Massifs.Context.Grow.{HasGrown, add_indexed_entry-Grown}

height_4 : index_height 4 ≡ 0
unfolding index_height pos_height pos_height_loop all_ones bit_length64 jump_left_perfect add64
    sub64 shl64 len64 ones_count64
height_4 = refl

peaks_3 : peaks 3 ≡ 2 ∷ 3 ∷ []
unfolding peaks peaks_loop top_peak pos_height pos_height_loop all_ones bit_length64
    jump_left_perfect add64 sub64 shl64 len64 ones_count64
peaks_3 = refl

-- a digest of 32 bytes that keeps the lowest byte of the position and one of each child
abbrev digest : Bytes → Bytes
digest b = byte_of b 7 ∷ byte_of b 8 ∷ byte_of b 40 ∷ zeros 29

abbrev value_of : ℕ → Bytes
value_of x = x ∷ zeros 31

-- the value of the parent of the first two leaves
abbrev root : Bytes
root = 3 ∷ 1 ∷ 2 ∷ zeros 29

-- the values of the first massif, which has two leaves
abbrev old : List Bytes
old = value_of 1 ∷ value_of 2 ∷ root ∷ []

before : IsBefore old 2
before = record {
  small = omega arith;
  complete = height_3;
  two_leaves = height_4;
  high = omega arith;
  narrow = omega arith;
  tall = tall;
}
  where
    tall : (p : ℕ) → p < 3 → IsPeak 3 p → 2 ≤ index_height p + 1
    tall zero low peak = absurd (omega (arith, rw height_0 at peak.no_sibling))
    tall (suc zero) low peak = absurd (omega (arith, peak.no_parent_behind, height_1, height_2))
    tall (suc (suc zero)) low peak = omega (arith, height_2)
    tall (suc (suc (suc p))) low peak = absurd (omega arith)

-- the second massif with one leaf
abbrev second : MassifContext
second = record {
  data_bytes = zeros 288 ++ (root ++ (zeros 2016 ++ value_of 4));
  creating = false;
  start = record {
    reserved = 0;
    massif_height = 2;
    data_epoch = 0;
    version = 1;
    commitment_epoch = 0;
    massif_index = 1;
    first_index = 3;
    last_id = 0;
    peak_stack_len = 1;
  };
  next_ancestor = none;
  peak_stack_map = make_peak_stack_map 2 3;
}

is_two : (p : ℕ) → some 2 ≡ some p → 2 ≡ p
is_two p e = cc

is_three : (p : ℕ) → some 3 ≡ some p → 3 ≡ p
is_three p e = cc

no_more : (k p : ℕ) → get_elem? {A = ℕ} [] k ≡ some p → ⊥
no_more k p e = cc

second-Holds : Holds old 2336 second.start second
unfolding log_start index_end index_size add64
second-Holds = record {
  own = 1;
  started = refl;
  before = before;
  located = refl;
  sized = refl;
  fits = omega arith;
  bounded = omega arith;
  based = refl;
  mapped = refl;
  ordered = omega arith;
  stacked = stacked;
}
  where
    stacked :
        (k p : ℕ)
        → get_elem? (peaks 3) k ≡ some p
        → p < 3
        → (288 + k * 32 + 32 ≤ 2336)
          × (take 32 (drop (288 + k * 32) second.data_bytes) ≡ node_at old p)
    stacked zero p e low = (omega arith, ap (node_at old) (is_two p (rw peaks_3 at e)))
    stacked (suc zero) p e low = absurd (omega (arith, is_three p (rw peaks_3 at e)))
    stacked (suc (suc k)) p e low = absurd (no_more k p (rw peaks_3 at e))

abbrev four : List Bytes
four = value_of 1 ∷ value_of 2 ∷ root ∷ value_of 4 ∷ []

second-view : view old second ≡ four
unfolding count log_start index_end index_size add64 sub64
second-view = refl

four-IsMmr : IsMmr digest four
unfolding hash_pos_pair64 hash_write_uint64 write sum put_uint64
four-IsMmr zero h lt e = absurd (omega (arith, height_0))
four-IsMmr (suc zero) h lt e = absurd (omega (arith, height_1))
four-IsMmr (suc (suc zero)) h lt e = let e0 : h ≡ 0 = omega (arith, height_2) in rw e0 refl
four-IsMmr (suc (suc (suc zero))) h lt e = absurd (omega (arith, height_3))
four-IsMmr (suc (suc (suc (suc i)))) h lt e = absurd (omega arith)

last_leaf : last_leaf_mmr_index second ≡ 4
unfolding last_leaf_mmr_index range_last_leaf_index tree_last_leaf_index add64 sub64 shl64
last_leaf = refl

-- The last leaf of the second massif completes two interior nodes; the second of them has the
-- first massif's root as its left child.
add_indexed_entry-Grown_example :
    HasGrown old 2336 second.start digest
      (λ b. refl)
      100
      (omega arith)
      (omega arith)
      (view old second ++ value_of 5 ∷ [])
      (add_indexed_entry digest (value_of 5) second)
add_indexed_entry-Grown_example =
    add_indexed_entry-Grown old 2336 second.start digest (λ b. refl) 100 (omega arith) (omega arith)
      second (value_of 5) second-Holds refl (omega (arith, ap length second-view, last_leaf))
      (omega (arith, ap length second-view)) (subst (IsMmr digest) (sym second-view) four-IsMmr)
      (subst IsComplete (sym second-view) height_4)

-- a context of version 2 with room for the index of one leaf
abbrev one_leaf : MassifContext
one_leaf = record {
  data_bytes = zeros 1100;
  creating = true;
  start = new_massif_start 0 1 1 0 0;
  next_ancestor = none;
  peak_stack_map = none;
}

one_leaf_end : index_end one_leaf ≡ 1032
unfolding new_massif_start index_end index_size size_or_zero index_data_bytes_v2
    bloom_m_bits_v1_for_leaf_count leaf_count_for_massif_height m_bits_v1 m_bits_safe_cast
    region_bytes bitset_bytes leaf_table_bytes node_store_bytes node_count_max add64 sub64 mul64
    shl64
one_leaf_end = refl

regions-Tiled_example : Tiled one_leaf 1
unfolding new_massif_start
regions-Tiled_example =
    regions-Tiled one_leaf refl (omega arith) (omega arith) (omega (arith, one_leaf_end))

abbrev start : MassifStart
start = record {
  reserved = 0;
  massif_height = 14;
  data_epoch = 0;
  version = 2;
  commitment_epoch = 1;
  massif_index = 3;
  first_index = 98300;
  last_id = 0x0123_4567_89ab_cdef;
  peak_stack_len = 2;
}

decode_massif_start-marshal_binary_example :
    (decode_massif_start second.start (marshal_binary start) ≡ ok (reread 0 start))
    × (make_massif_start (marshal_binary start) ≡ ok (reread 0 start))
decode_massif_start-marshal_binary_example =
    decode_massif_start-marshal_binary start second.start (record {
      last_id = omega arith;
      version = omega arith;
      commitment_epoch = omega arith;
      massif_index = omega arith;
    })

-- A massif of height 2 has room for two leaves.
create_first_massif_context-IsLogOf_example :
    (mc : MassifContext) × (mc' : MassifContext) × (create_first_massif_context 1 2 ≡ ok mc)
    × (add_entries digest (value_of 1 ∷ value_of 2 ∷ []) mc ≡ (ok tt, mc'))
    × IsLogOf digest (value_of 1 ∷ value_of 2 ∷ []) (view [] mc')
create_first_massif_context-IsLogOf_example =
    create_first_massif_context-IsLogOf digest (λ b. refl) 1 2 (value_of 1 ∷ value_of 2 ∷ [])
      (omega arith) (omega arith) (refl, (refl, tt)) (omega arith)
