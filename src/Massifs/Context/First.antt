-- ===== src/Massifs/Context/First.antt =====
-- The context of the first massif (`CreateFirstMassifContext`, massifs/massifappendcontext.go) holds
-- the empty log.
use go_merklelog.Base.{
  ℕ, ◌+◌, ◌-◌, ◌*◌, ◌/◌, ◌%◌, ◌^◌, ◌≤◌, ◌<◌, ◌≡◌, ◌≢◌, refl, ap, ◌∙◌, some, [], ◌++◌, length, arith,
}
use go_merklelog.Base.{word, neq→==, add64, length-append}
use mathlib.Core.Logic.{inl, inr}
use go_merklelog.Mmr.IndexHeight.{index_height}
use go_merklelog.Base.Pow.{pow_pos, pow_mono}
use go_merklelog.Base.Buffers.{Bytes, zeros, overwrite, length-overwrite, length-zeros}
use go_merklelog.Base.Results.{ok}
use go_merklelog.Bloom.Sizing.{region_bytes}
use go_merklelog.Mmr.IndexHeight.Steps.{index_height-zero, index_height-next, index_height_room}
use go_merklelog.Massifs.Start.{new_massif_start, marshal_binary}
use go_merklelog.Massifs.Start.Front.{length-marshal_binary}
use go_merklelog.Massifs.Context.{
  MassifContext, index_size, index_end, log_start, create_peak_stack_map, make_peak_stack_map,
  stack_map_loop,
}
use go_merklelog.Mmr.Peaks.{peaks}
use go_merklelog.Massifs.Context.Append.{
  init_index_v2, init_index_data, first_context, add_regions, create_first_massif_context,
}
use go_merklelog.Massifs.Context.Regions.{region_lem, leaf_count_lem, index_size_lem}
use go_merklelog.Massifs.Context.Stored.{Holds, IsBefore, view, view_eq}
use go_merklelog.Massifs.Context.Init.{init_index_v2_lem}

second_leaf : index_height 1 ≡ 0
second_leaf = elim (index_height-next 0 (omega arith)) [
  | inl up ↦
      let one : index_height 1 ≡ 1 = omega (arith, up, index_height-zero) in
      let room : 2 * 2 ^ 1 ≤ 3 = rw one at (index_height_room 1 (omega arith)) in
      absurd (omega arith)
  | inr leaf ↦ leaf
]

empty-IsBefore : (h : ℕ) → 2 ≤ h → h ≤ 29 → IsBefore [] h
empty-IsBefore h low high = record {
  small = omega arith;
  complete = index_height-zero;
  two_leaves = second_leaf;
  high = low;
  narrow = omega arith;
  tall = λ p below peak. absurd (omega arith);
}

make_peak_stack_map_lem :
    (h i : ℕ) → h ≢ 0 → make_peak_stack_map h i ≡ some (stack_map_loop h 0 (peaks i))
unfolding make_peak_stack_map
make_peak_stack_map_lem h i some_height = rw (neq→== h 0 some_height) refl

pub create_peak_stack_map_lem :
    (mc : MassifContext)
    → mc.start.massif_height ≢ 0
    → create_peak_stack_map mc ≡ (
      ok tt,
      record mc {
        peak_stack_map = make_peak_stack_map mc.start.massif_height mc.start.first_index;
      },
    )
unfolding create_peak_stack_map
create_peak_stack_map_lem mc some_height =
    let made = make_peak_stack_map_lem mc.start.massif_height mc.start.first_index some_height in
    rw (create_peak_stack_map, made) (ap (λ m. (ok tt, record mc { peak_stack_map = m })) made)

module _ (epoch h : ℕ) (low : 2 ≤ h) (high : h ≤ 29) where
  abbrev start_alone : MassifContext
  start_alone = first_context epoch h

  abbrev with_index : Bytes → MassifContext
  with_index b = record start_alone { data_bytes = b }

  abbrev finished : Bytes → MassifContext
  finished b = record start_alone {
    data_bytes = b ++ zeros 2048;
    peak_stack_map = make_peak_stack_map h 0;
  }

  some_height : h ≢ 0
  some_height e = absurd (omega arith)

  few_leaves : 2 ^ (h - 1) ≤ 2 ^ 28
  few_leaves = pow_mono (h - 1) 28 (omega arith)

  first_size :
      index_size start_alone
      ≡ 4 * ((10 * 2 ^ (h - 1) + 7) / 8) + 544 + 2 ^ (h - 1) * 128 + (2 * 2 ^ (h - 1) - 1) * 64
  unfolding first_context new_massif_start
  first_size =
      index_size_lem start_alone (2 ^ (h - 1)) refl some_height
        (leaf_count_lem h (omega arith) high) (pow_pos (h - 1)) few_leaves

  first_end : index_end start_alone ≡ 288 + index_size start_alone
  unfolding index_end add64
  first_end = omega (arith, first_size, few_leaves)

  abbrev fresh : Bytes
  fresh = marshal_binary (new_massif_start 0 epoch h 0 0) ++ init_index_data start_alone

  length-fresh : length fresh ≡ index_end start_alone
  unfolding init_index_data index_end add64
  length-fresh =
      let size = index_size start_alone in
      let exact : (32 + size) % word ≡ 32 + size = omega (arith, first_size, few_leaves) in
      omega (
        arith,
        first_size,
        few_leaves,
        exact,
        length-append (marshal_binary (new_massif_start 0 epoch h 0 0))
            (zeros ((32 + size) % word)),
        length-marshal_binary (new_massif_start 0 epoch h 0 0),
        length-zeros ((32 + size) % word),
      )

  finished_lem :
      (b : Bytes)
      → init_index_v2 (with_index fresh) ≡ (ok tt, with_index b)
      → create_first_massif_context epoch h ≡ ok (finished b)
  unfolding create_first_massif_context add_regions first_context new_massif_start
  finished_lem b e =
      let mapped = create_peak_stack_map_lem (with_index (b ++ zeros 2048)) some_height in
      rw (e, mapped) refl

  create_lem :
      (b : Bytes) × (create_first_massif_context epoch h ≡ ok (finished b))
      × (length b ≡ index_end start_alone)
  unfolding first_context new_massif_start
  create_lem =
      let size = region_lem (2 ^ (h - 1)) (pow_pos (h - 1)) few_leaves in
      let room : 256 + region_bytes (10 * 2 ^ (h - 1)) ≤ length fresh =
        omega (arith, size, length-fresh, first_end, first_size) in
      let new =
        init_index_v2_lem (with_index fresh) (2 ^ (h - 1)) refl some_height
          (leaf_count_lem h (omega arith) high) (pow_pos (h - 1)) few_leaves room in
      (
        overwrite fresh 256 new.0,
        finished_lem (overwrite fresh 256 new.0) new.1,
        length-overwrite fresh 256 new.0 ∙ length-fresh,
      )

  first_log_start : (b : Bytes) → log_start (finished b) ≡ index_end start_alone + 2048
  unfolding log_start index_end index_size first_context new_massif_start add64
  first_log_start b =
      let same : index_end (finished b) ≡ index_end start_alone = refl in
      omega (arith, same, first_end, first_size, few_leaves)

  first-Holds :
      (b : Bytes)
      → length b ≡ index_end start_alone
      → Holds [] (log_start (finished b)) (new_massif_start 0 epoch h 0 0) (finished b)
  unfolding first_context new_massif_start index_end index_size
  first-Holds b size = record {
    own = 0;
    started = refl;
    before = empty-IsBefore h low high;
    located = refl;
    sized = omega (arith, size, first_log_start b, length-append b (zeros 2048), length-zeros 2048);
    fits = omega (arith, first_log_start b, first_end, first_size, few_leaves);
    bounded = omega arith;
    based = refl;
    mapped = refl;
    ordered = omega (arith, first_log_start b);
    stacked = λ k p e below. absurd (omega arith);
  }

  first-view : (b : Bytes) → length b ≡ index_end start_alone → view [] (finished b) ≡ []
  unfolding first-Holds
  first-view b size =
      view_eq [] (log_start (finished b)) (new_massif_start 0 epoch h 0 0) (first-Holds b size)

  -- The new context holds the empty log, and is small.
  pub create_first_massif_context-Holds :
      (mc : MassifContext) × (create_first_massif_context epoch h ≡ ok mc)
      × Holds [] (log_start mc) (new_massif_start 0 epoch h 0 0) mc
      × (view [] mc ≡ [])
      × (log_start mc + 2 ^ 30 * 32 < word)
  create_first_massif_context-Holds =
      let new = create_lem in
      (
        finished new.0,
        new.1,
        first-Holds new.0 new.2,
        first-view new.0 new.2,
        omega (arith, first_log_start new.0, first_end, first_size, few_leaves),
      )
