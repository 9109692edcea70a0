-- ===== src/Massifs/Context/Update.antt =====
-- The updates of a massif's index: massifs/indexops_v2.go, and the `AddHashedLeaf` of
-- massifs/massifcontext.go.
use go_merklelog.Base.{
  ℕ, zero, suc, ◌+◌, ◌-◌, ◌^◌, ◌%◌, Option, none, some, List, [], ◌∷◌, length, map,
}
use go_merklelog.Base.{ltb, ◌==◌, if◌then◌else◌, sub64}
use go_merklelog.Base.Buffers.{Bytes}
use go_merklelog.Base.Results.{Result, ok, err, panic, out_of_fuel}
use go_merklelog.Base.Results
use go_merklelog.Bloom.Header.{HeaderV1, decode_header}
use go_merklelog.Bloom.Filter.{init_v1, insert_v1}
use go_merklelog.Urkle.Errors.{UrkleError}
use go_merklelog.Urkle.Records.{leaf_set_extra}
use go_merklelog.Urkle.Builder.{Builder, new_builder_from_frontier, save_frontier}
use go_merklelog.Urkle.Builder.Insert.{insert_monotone, finalize}
use go_merklelog.Massifs.Errors.{
  R, lift, from_bloom, from_urkle, bad_value_size, extra_data_too_large, leaf_count_too_large,
  leaf_ordinal_mismatch, log_value_bad_size,
}
use go_merklelog.Massifs.Layout.{value_bytes, bloom_bits_per_element_v1, bloom_k_v1}
use go_merklelog.Massifs.Context.{
  MassifContext, Call, ◌>>=◌, reading, massif_leaf_count, set_last_id_timestamp,
}
use go_merklelog.Massifs.Context.Append.{add_indexed_entry}
use go_merklelog.Massifs.Context.Index.{
  Region, bytes_of, put_bytes, set_urkle_root_hash, require_v2_index, urkle_leaf_count_v2,
  bloom_region, urkle_frontier_region, urkle_leaf_table_region, urkle_node_store_region,
}

-- `extraData[i]`; `none` where there is none or it is nil
unfoldable pub extra : List (Option Bytes) → ℕ → Option Bytes
extra [] i = none
extra (x ∷ extra_data) zero = x
extra (x ∷ extra_data) (suc i) = extra extra_data i

module _ (sha256 : Bytes → Bytes) where
  unfoldable pub insert_filter : Region → ℕ → Bytes → Call (Unit {0})
  insert_filter r filter_idx elem mc =
      let (result, region) = insert_v1 sha256 (bytes_of r mc) filter_idx elem in
      (lift from_bloom result, put_bytes r region mc)

  unfoldable pub insert_extra_filter : Region → ℕ → Option Bytes → Call (Unit {0})
  insert_extra_filter r filter_idx none mc = (ok tt, mc)
  insert_extra_filter r filter_idx (some elem) mc = insert_filter r filter_idx elem mc

  unfoldable pub ensure_initialized : Region → Option HeaderV1 → Call (Unit {0})
  ensure_initialized r (some h) mc = (ok tt, mc)
  ensure_initialized r none mc =
      let (result, region) =
        init_v1 (bytes_of r mc) (urkle_leaf_count_v2 mc) bloom_bits_per_element_v1 bloom_k_v1 in
      (lift from_bloom result, put_bytes r region mc)

  unfoldable pub element_0 : Bytes → Option Bytes → Bytes
  element_0 value none = value
  element_0 value (some elem) = elem

  unfoldable pub update_bloom_filters : Bytes → List (Option Bytes) → Call (Unit {0})
  update_bloom_filters value extra_data = reading require_v2_index >>= λ _ mc.
      if length value == value_bytes
      then (reading bloom_region >>= λ r.
            reading (λ mc. lift from_bloom (decode_header (bytes_of r mc))) >>= λ header.
            ensure_initialized r header >>= λ _.
            insert_filter r 0 (element_0 value (extra extra_data 0)) >>= λ _.
            insert_extra_filter r 1 (extra extra_data 1) >>= λ _.
            insert_extra_filter r 2 (extra extra_data 2) >>= λ _.
            insert_extra_filter r 3 (extra extra_data 3))
          mc
      else (err bad_value_size, mc)

-- the three regions of the trie
pub record Tables : Type 0 where
  pub leaf_table : Region
  pub node_store : Region
  pub frontier : Region

unfoldable pub tables_of : MassifContext → R Tables
tables_of mc = Results.◌>>=◌ (urkle_leaf_table_region mc) λ leaf_table.
    Results.◌>>=◌ (urkle_node_store_region mc) λ node_store.
      Results.◌>>=◌ (urkle_frontier_region mc) λ frontier.
        ok (record { leaf_table = leaf_table; node_store = node_store; frontier = frontier })

-- A builder works on the regions themselves: a method leaves its changes in the data.
abbrev pub keep_tables : Tables → Builder → MassifContext → MassifContext
keep_tables t b mc = put_bytes t.node_store b.node_store (put_bytes t.leaf_table b.leaf_table mc)

abbrev pub on_builder :
    {A : Type 0} → Tables → (Builder → Result UrkleError A × Builder) → Builder → Call (A × Builder)
on_builder t method b mc =
    let (r, b) = method b in (Results.◌>>=◌ (lift from_urkle r) λ a. ok (a, b), keep_tables t b mc)

unfoldable pub save_state : Tables → Builder → Call (Unit {0})
save_state t b mc =
    let (r, frontier) = save_frontier b (bytes_of t.frontier mc) in
    (lift from_urkle r, put_bytes t.frontier frontier mc)

-- one of the extra fields of a leaf record
unfoldable pub set_extra : Tables → ℕ → ℕ → Option Bytes → Builder → Call Builder
set_extra t ordinal idx none b mc = (ok b, mc)
set_extra t ordinal idx (some elem) b mc =
    if ltb value_bytes (length elem)
    then (err extra_data_too_large, mc)
    else (reading (λ mc. lift from_urkle (leaf_set_extra b.leaf_table ordinal idx elem))
          >>= λ leaf_table mc.
              let b = record b { leaf_table = leaf_table } in (ok b, keep_tables t b mc))
        mc

module _ (sha256 : Bytes → Bytes) where
  -- the root of a trie that is full
  unfoldable pub finish : Tables → Builder → Call (Unit {0})
  finish t b = on_builder t (finalize sha256) b >>= λ ((root, hash), b).
      save_state t b >>= λ _. set_urkle_root_hash hash

  unfoldable pub finish_if_full : Tables → ℕ → Builder → Call ℕ
  finish_if_full t ordinal b mc =
      if ltb 0xffff_ffff (urkle_leaf_count_v2 mc)
      then (err leaf_count_too_large, mc)
      else if ordinal + 1 == urkle_leaf_count_v2 mc
      then (finish t b >>= λ _. reading (λ mc. ok ordinal)) mc
      else (ok ordinal, mc)

  unfoldable pub insert_urkle_monotone : ℕ → Bytes → List (Option Bytes) → Call ℕ
  insert_urkle_monotone key value extra_data = reading require_v2_index >>= λ _ mc.
      if length value == value_bytes
      then (reading tables_of >>= λ t.
            reading (λ mc. lift from_urkle (
              new_builder_from_frontier (bytes_of t.leaf_table mc) (bytes_of t.node_store mc)
                (bytes_of t.frontier mc)))
            >>= λ b. on_builder t (insert_monotone sha256 key value) b >>= λ (ordinal, b).
                set_extra t ordinal 0 (extra extra_data 1) b >>= λ b.
                set_extra t ordinal 1 (extra extra_data 2) b >>= λ b.
                set_extra t ordinal 2 (extra extra_data 3) b >>= λ b.
                save_state t b >>= λ _. finish_if_full t ordinal b)
          mc
      else (err bad_value_size, mc)

  -- the comparison of the leaf's number in the trie with its number in the massif, on uint32
  unfoldable pub check_ordinal : ℕ → MassifContext → R (Unit {0})
  check_ordinal ordinal mc =
      if ltb 0 (massif_leaf_count mc)
      then if ordinal == sub64 (massif_leaf_count mc) 1 % 2 ^ 32
        then ok tt
        else err leaf_ordinal_mismatch
      else ok tt

  unfoldable pub index_leaf : ℕ → Bytes → List (Option Bytes) → Call (Unit {0})
  index_leaf id value extra_data = insert_urkle_monotone id value extra_data >>= λ ordinal.
      reading (check_ordinal ordinal) >>= λ _. update_bloom_filters sha256 value extra_data

  -- the last three of the extra fields
  unfoldable pub last_three : List (Option Bytes) → List (Option Bytes)
  last_three extras =
      if ltb 3 (length extras) then drop_front (length extras - 3) extras else extras
    where
      drop_front : ℕ → List (Option Bytes) → List (Option Bytes)
      drop_front zero xs = xs
      drop_front (suc n) [] = []
      drop_front (suc n) (x ∷ xs) = drop_front n xs

  -- an extra field that the filters take
  unfoldable pub bloom_extra : Option Bytes → Option Bytes
  bloom_extra none = none
  bloom_extra (some x) = if length x == value_bytes then some x else none

  unfoldable pub context_add_hashed_leaf :
      ℕ → Option Bytes → Option Bytes → Option Bytes → Bytes → List (Option Bytes) → Call ℕ
  context_add_hashed_leaf id extra_0 log_id app_id value extras mc =
      let stored = last_three (log_id ∷ app_id ∷ extras) in
      if length value == value_bytes
      then (reading require_v2_index >>= λ _. add_indexed_entry sha256 value >>= λ mmr_size.
            insert_urkle_monotone id value (extra_0 ∷ stored) >>= λ ordinal.
            reading (check_ordinal ordinal) >>= λ _.
            update_bloom_filters sha256 value (extra_0 ∷ map bloom_extra stored) >>= λ _.
            set_last_id_timestamp id >>= λ _. reading (λ mc. ok mmr_size))
          mc
      else (err log_value_bad_size, mc)
