-- ===== src/Massifs/Context/Append.antt =====
-- `AddIndexedEntry`, `CheckConsistency`, the next massif, and the contexts that appends begin with:
-- massifs/massifcontext.go, massifs/massifappendcontext.go and massifs/indexinit_v2.go.
use go_merklelog.Base.{
  ℕ, zero, suc, ◌+◌, ◌-◌, ◌*◌, ◌/◌, ◌%◌, ◌^◌, true, Option, none, some, List, ◌++◌, length,
}
use go_merklelog.Base.{ltb, ◌==◌, if◌then◌else◌, add64, sub64, mul64, shr64}
use go_merklelog.Base.Buffers.{Bytes, take, drop, zeros, overwrite, read_bytes}
use go_merklelog.Base.Results.{Result, ok, err, panic, out_of_fuel}
use go_merklelog.Base.Results
use go_merklelog.Bloom.Sizing.{region_bytes}
use go_merklelog.Bloom.Filter.{init_v1}
use go_merklelog.Urkle.Sizing.{leaf_count_for_massif_height}
use go_merklelog.Mmr.Store.{NodeAppender}
use go_merklelog.Mmr.IndexHeight.{height_size}
use go_merklelog.Mmr.Add.{add_hashed_leaf}
use go_merklelog.Mmr.Consistency.{check_consistency}
use go_merklelog.Mmr.Leaves.{mmr_index, spur_height_leaf}
use go_merklelog.Massifs.Errors.{
  R, lift, as_store, from_mmr, from_bloom, massif_full, log_value_bad_size, state_root_missing,
  state_size_before_massif_start, consistency_proof_check, region_out_of_range,
  invalid_massif_height,
}
use go_merklelog.Massifs.Layout.{
  value_bytes, max_mmr_height, index_header_bytes, trie_header_start,
  bloom_m_bits_v1_for_leaf_count, bloom_bits_per_element_v1, bloom_k_v1, tree_size,
}
use go_merklelog.Massifs.Start.{massif_current_version, new_massif_start, marshal_binary}
use go_merklelog.Massifs.Context.{
  MassifContext, Call, ◌>>=◌, reading, get, append, count, range_count, last_leaf_mmr_index,
  log_start, index_size, get_last_value, get_ancestor_peak_stack, create_peak_stack_map,
}

-- the context as the store of the mmr package
abbrev pub appender : NodeAppender MassifContext
appender = record {
  get = λ i mc. (as_store (get i mc).0, (get i mc).1);
  append = λ value mc. (as_store (append value mc).0, (append value mc).1);
}

-- `int(PeakStackLen) - 1`
unfoldable pub top_of_stack : ℕ → Option ℕ
top_of_stack zero = none
top_of_stack (suc below) = some below

module _ (sha256 : Bytes → Bytes) where
  unfoldable pub add_indexed_entry : Bytes → Call ℕ
  add_indexed_entry value mc =
      let next = add64 mc.start.first_index (count mc) in
      let i_last = last_leaf_mmr_index mc in
      if length value == value_bytes
      then if ltb i_last next
        then (err massif_full, mc)
        else (let mc =
              if next == i_last
              then record mc { next_ancestor = top_of_stack mc.start.peak_stack_len }
              else mc in
            let (r, mc) = add_hashed_leaf sha256 appender value mc in (lift from_mmr r, mc))
      else (err log_value_bad_size, mc)

  -- `none` is a nil accumulator with no error; `peaks` is `none` where it is nil. The context has its
  -- map, as every context that this package makes does: no read changes it.
  unfoldable pub check_base_state :
      ℕ → Option (List Bytes) → MassifContext → R (Option (List Bytes))
  check_base_state mmr_size none mc = err state_root_missing
  check_base_state mmr_size (some peaks) mc =
      let current = range_count mc in
      if ltb current mmr_size
      then err state_size_before_massif_start
      else if current == mmr_size
      then ok none
      else checked (check_consistency sha256 (λ i. (appender.get i mc).0) mmr_size current peaks)
    where
      checked : {E : Type 0} → Result E (List Bytes) → R (Option (List Bytes))
      checked (ok peaks_b) = ok (some peaks_b)
      checked (err e) = err consistency_proof_check
      checked panic = panic
      checked out_of_fuel = out_of_fuel

-- `InitV1` on `mc.Data[start:end]`
unfoldable pub init_bloom : ℕ → ℕ → Call (Unit {0})
init_bloom leaf_count m_bits mc =
    let region = take (region_bytes m_bits) (drop trie_header_start mc.data_bytes) in
    let (r, region) = init_v1 region leaf_count bloom_bits_per_element_v1 bloom_k_v1 in
    (lift from_bloom r, record mc { data_bytes = overwrite mc.data_bytes trie_header_start region })

unfoldable pub init_region : ℕ → Call (Unit {0})
init_region leaf_count = reading (λ mc. bloom_m_bits_v1_for_leaf_count leaf_count) >>= λ m_bits mc.
    if ltb (length mc.data_bytes) (add64 trie_header_start (region_bytes m_bits))
    then (err region_out_of_range, mc)
    else init_bloom leaf_count m_bits mc

unfoldable pub init_index_v2 : Call (Unit {0})
init_index_v2 mc =
    if mc.start.version == massif_current_version
    then if mc.start.massif_height == 0
      then (err invalid_massif_height, mc)
      else init_region (leaf_count_for_massif_height mc.start.massif_height) mc
    else (ok tt, mc)

-- `mc.NextPeakStack`: the stack of the massif without the nodes that its last leaf takes, and the
-- last node. The copy that the append makes over the data of the full massif is not kept.
unfoldable pub next_peak_stack : MassifContext → R Bytes
next_peak_stack mc = Results.◌>>=◌ (get_ancestor_peak_stack mc) λ peak_stack.
    let stack_len = length peak_stack / value_bytes in
    let pop = spur_height_leaf mc.start.massif_index in
    Results.◌>>=◌ (read_bytes peak_stack 0 (mul64 (sub64 stack_len pop) value_bytes))
      λ left. ok (left ++ get_last_value mc)

unfoldable pub init_index_data : MassifContext → Bytes
init_index_data mc = zeros (add64 index_header_bytes (index_size mc))

-- the bytes that pad the stack; a negative length panics
unfoldable pub pad_bytes : ℕ → R Bytes
pad_bytes peak_stack_len =
    if ltb max_mmr_height peak_stack_len
    then panic
    else ok (zeros ((max_mmr_height - peak_stack_len) * value_bytes))

unfoldable pub start_next_massif : Call (Unit {0})
start_next_massif = reading next_peak_stack >>= λ next_stack mc.
    let next_start =
      new_massif_start mc.start.last_id mc.start.commitment_epoch mc.start.massif_height
        (add64 mc.start.massif_index 1 % 2 ^ 32) (range_count mc) in
    let next_data = marshal_binary next_start ++ init_index_data mc in
    let next_start = record next_start { peak_stack_len = length next_stack / value_bytes } in
    (reading (λ mc. pad_bytes next_start.peak_stack_len) >>= λ pad mc.
    init_index_v2 (record mc { start = next_start; data_bytes = next_data ++ (next_stack ++ pad) }))
      mc

unfoldable pub init_append_context : Call (Unit {0})
init_append_context mc =
    if ltb (sub64 (length mc.data_bytes) (log_start mc)) (tree_size mc.start.massif_height)
    then (ok tt, mc)
    else (start_next_massif >>= λ _. create_peak_stack_map) (record mc { creating = true })

-- the context before its index is there, and the rest of the call on it
unfoldable pub first_context : ℕ → ℕ → MassifContext
first_context epoch massif_height = record {
  data_bytes = marshal_binary (new_massif_start 0 epoch massif_height 0 0);
  creating = true;
  start = new_massif_start 0 epoch massif_height 0 0;
  next_ancestor = some 0;
  peak_stack_map = none;
}

unfoldable pub add_regions : Call (Unit {0})
add_regions mc =
    (init_index_v2 >>= λ _ mc.
    create_peak_stack_map
      (record mc { data_bytes = mc.data_bytes ++ zeros (max_mmr_height * value_bytes) }))
      (record mc { data_bytes = mc.data_bytes ++ init_index_data mc })

unfoldable pub create_first_massif_context : ℕ → ℕ → R MassifContext
create_first_massif_context epoch massif_height =
    let (r, mc) = add_regions (first_context epoch massif_height) in Results.◌>>=◌ r λ _. ok mc

-- the check of `CommitContext` that the massif is not over full
unfoldable pub check_commit : MassifContext → R (Unit {0})
check_commit mc =
    let leaves = shr64 (add64 (height_size mc.start.massif_height) 1) 1 in
    let max_leaf_index = sub64 (mul64 leaves ((mc.start.massif_index + 1) % 2 ^ 32)) 1 in
    let max_mmr_size =
      add64 (add64 (mmr_index max_leaf_index) (spur_height_leaf max_leaf_index)) 1 in
    if ltb max_mmr_size (range_count mc) then err massif_full else ok tt
