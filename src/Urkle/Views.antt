-- ===== src/Urkle/Views.antt =====
-- urkle/indexview.go, urkle/key_api.go, urkle/ordinal.go and urkle/keyfields.go: a trie in its bytes,
-- and what is looked up in it by key or by leaf ordinal.
pub mod Lookup
use go_merklelog.Base.{ℕ, zero, suc, ◌+◌, ◌-◌, ◌%◌, ◌^◌, true, false, length}
use go_merklelog.Base.{◌==◌, ltb, leb, if◌then◌else◌, add64, sub64}
use go_merklelog.Base.Results.{Result, ok, err, panic, out_of_fuel, ◌>>=◌}
use go_merklelog.Base.Buffers.{Bytes, take, drop, read_bytes}
use go_merklelog.Urkle.Errors.{
  R, no_ref, empty_trie, key_not_found, invalid_node_kind, invalid_leaf_ordinal,
  leaf_ordinal_does_not_fit, leaf_ordinal_not_present, leaf_table_bad_size, node_store_bad_size,
}
use go_merklelog.Urkle.Hash.{bit_at}
use go_merklelog.Urkle.Records.{
  kind_leaf, kind_branch, leaf_record_bytes, leaf_key, node_kind_at, node_bit, node_right_span,
  node_leaf_ordinal,
}
use go_merklelog.Urkle.Sizing.{
  leaf_table_bytes, node_store_bytes, check_leaf_count, check_massif_height,
  leaf_count_for_massif_height, leaf_ordinal_to_mmr_index,
}
use go_merklelog.Urkle.Proof.{InclusionProof, ExclusionProof}
use go_merklelog.Urkle.Prove.{check_branch, prove_inclusion, prove_exclusion}

pub record IndexView : Type 0 where
  pub leaf_count : ℕ
  pub leaf_table : Bytes
  pub node_store : Bytes

-- `NewIndexView`
unfoldable pub new_index_view : Bytes → ℕ → R IndexView
new_index_view index_data leaf_count =
    let table = leaf_table_bytes leaf_count in
    check_leaf_count leaf_count >>= λ _.
    (if leaf_count == 0
      then err leaf_table_bad_size
      else if length index_data == add64 table (node_store_bytes leaf_count)
      then (read_bytes index_data 0 table >>= λ leaf_table. ok (record {
        leaf_count = leaf_count;
        leaf_table = leaf_table;
        node_store = drop table index_data;
      }))
      else err node_store_bad_size)

unfoldable pub new_index_view_from_massif_height : Bytes → ℕ → R IndexView
new_index_view_from_massif_height index_data massif_height =
    check_massif_height massif_height >>= λ _.
    new_index_view index_data (leaf_count_for_massif_height massif_height)

unfoldable pub prove_inclusion_from_view : IndexView → ℕ → ℕ → R InclusionProof
prove_inclusion_from_view v root key = prove_inclusion v.leaf_table v.node_store root key

unfoldable pub prove_exclusion_from_view : IndexView → ℕ → ℕ → R ExclusionProof
prove_exclusion_from_view v root target_key =
    prove_exclusion v.leaf_table v.node_store root target_key

-- A child's ref is below its parent's, so one round more than the root's ref is enough.
unfoldable pub find_leaf_ref : ℕ → Bytes → ℕ → ℕ → R ℕ
find_leaf_ref zero node_store cur target_key = out_of_fuel
find_leaf_ref (suc fuel) node_store cur target_key = node_kind_at node_store cur >>= λ kind.
    elim (kind == kind_leaf) [
      | true ↦ ok cur
      | false ↦ elim (kind == kind_branch) [
        | false ↦ err invalid_node_kind
        | true ↦ node_bit node_store cur >>= λ bit. node_right_span node_store cur >>= λ rs.
            check_branch cur bit rs >>= λ _.
            let right = cur - 1 in
            let left = sub64 (sub64 cur 1) rs in
            find_leaf_ref fuel node_store (if bit_at target_key bit == 0 then left else right)
              target_key
      ]
    ]

-- the checks on the leaf that the search ends at; the count is cut to 32 bits
unfoldable pub check_leaf : IndexView → ℕ → ℕ → R ℕ
check_leaf v idtimestamp leaf_ordinal =
    if leb (v.leaf_count % 2 ^ 32) leaf_ordinal
    then err invalid_leaf_ordinal
    else leaf_key v.leaf_table leaf_ordinal >>= λ enc_key.
        if enc_key == idtimestamp then ok leaf_ordinal else err key_not_found

-- `keyLeafOrdinal`
unfoldable pub key_leaf_ordinal_32 : IndexView → ℕ → ℕ → R ℕ
key_leaf_ordinal_32 v root idtimestamp =
    if root == no_ref
    then err empty_trie
    else find_leaf_ref (root + 1) v.node_store root idtimestamp >>= λ leaf_ref.
        node_leaf_ordinal v.node_store leaf_ref >>= λ leaf_ordinal.
        check_leaf v idtimestamp leaf_ordinal

-- `KeyLeafOrdinal`
unfoldable pub key_leaf_ordinal : IndexView → ℕ → ℕ → R ℕ
key_leaf_ordinal v root idtimestamp = key_leaf_ordinal_32 v root idtimestamp >>= λ ordinal.
    if ltb 0xffff ordinal then err leaf_ordinal_does_not_fit else ok ordinal

unfoldable pub key_mmr_index : IndexView → ℕ → ℕ → ℕ → R ℕ
key_mmr_index v root idtimestamp first_leaf_mmr_index =
    key_leaf_ordinal v root idtimestamp >>= λ ordinal.
    ok (leaf_ordinal_to_mmr_index first_leaf_mmr_index ordinal)

-- 0 where there is no leaf
unfoldable pub leaf_ordinal_key_16 : IndexView → ℕ → ℕ → R ℕ
leaf_ordinal_key_16 v leaf_ordinal next_leaf =
    if leb next_leaf leaf_ordinal
    then ok 0
    else if leb v.leaf_count leaf_ordinal
    then ok 0
    else leaf_key v.leaf_table leaf_ordinal

-- the proof and the key, which is returned beside an error of the proof too; it is 0 before it is read
unfoldable pub leaf_ordinal_inclusion_proof : IndexView → ℕ → ℕ → ℕ → R InclusionProof × ℕ
leaf_ordinal_inclusion_proof v leaf_ordinal next_leaf root =
    if leb next_leaf leaf_ordinal
    then (err leaf_ordinal_not_present, 0)
    else if leb v.leaf_count leaf_ordinal
    then (err invalid_leaf_ordinal, 0)
    else proved (leaf_key v.leaf_table leaf_ordinal)
  where
    proved : R ℕ → R InclusionProof × ℕ
    proved (ok key) = (prove_inclusion v.leaf_table v.node_store root key, key)
    proved (err e) = (err e, 0)
    proved panic = (panic, 0)
    proved out_of_fuel = (out_of_fuel, 0)

pub record KeyFieldView : Type 0 where
  pub record_data : Bytes
  pub record_bytes : ℕ
  pub key_offset : ℕ
  pub key_bytes : ℕ
  pub record_count : ℕ

-- The count of leaves is cut to 32 bits.
unfoldable pub key_fields : IndexView → ℕ → KeyFieldView
key_fields v next_leaf =
    let capacity = v.leaf_count % 2 ^ 32 in
    record {
      record_data = v.leaf_table;
      record_bytes = leaf_record_bytes;
      key_offset = 0;
      key_bytes = 8;
      record_count = if ltb capacity next_leaf then capacity else next_leaf;
    }
