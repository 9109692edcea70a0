-- ===== src/Urkle/Records.antt =====
-- urkle/leafrecord.go and urkle/noderecord.go: the records of the leaf table and the node store.
-- Ordinals and refs are below 2 ^ 32, so that their offsets do not wrap on uint64. A slice out of range
-- panics. A write is the new table or store.
pub mod Leaves
use go_merklelog.Base.{ℕ, zero, suc, ◌+◌, ◌*◌, true, false, [], ◌∷◌, ◌++◌, length}
use go_merklelog.Base.{◌==◌, ltb, if◌then◌else◌}
use go_merklelog.Base.Results.{ok, panic, ◌>>=◌}
use go_merklelog.Base.Buffers.{
  Bytes, take, zeros, overwrite, read_byte, read_bytes, write_bytes, put_uint32, put_uint64, uint32,
  uint64,
}
use go_merklelog.Urkle.Errors.{R, hash_bytes}

abbrev pub leaf_record_bytes : ℕ
leaf_record_bytes = 128

abbrev pub node_record_bytes : ℕ
node_record_bytes = 64

abbrev pub kind_leaf : ℕ
kind_leaf = 1

abbrev pub kind_branch : ℕ
kind_branch = 2

unfoldable pub leaf_record_offset : ℕ → ℕ
leaf_record_offset leaf_ordinal = leaf_ordinal * leaf_record_bytes

unfoldable pub leaf_set : Bytes → ℕ → ℕ → Bytes → R Bytes
leaf_set leaf_table leaf_ordinal key value =
    let off = leaf_record_offset leaf_ordinal in
    elim (length value == hash_bytes) [
      | true ↦ write_bytes leaf_table off (put_uint64 key) >>= λ leaf_table.
          write_bytes leaf_table (off + 8) value >>= λ leaf_table.
          write_bytes leaf_table (off + 40) (zeros 88)
      | false ↦ panic
    ]

unfoldable pub leaf_key : Bytes → ℕ → R ℕ
leaf_key leaf_table leaf_ordinal =
    read_bytes leaf_table (leaf_record_offset leaf_ordinal) 8 >>= λ b. ok (uint64 b)

unfoldable pub leaf_value : Bytes → ℕ → R Bytes
leaf_value leaf_table leaf_ordinal =
    read_bytes leaf_table (leaf_record_offset leaf_ordinal + 8) hash_bytes

unfoldable pub leaf_extra_offset : ℕ → ℕ → R ℕ
leaf_extra_offset leaf_ordinal zero = ok (leaf_record_offset leaf_ordinal + 40)
leaf_extra_offset leaf_ordinal (suc zero) = ok (leaf_record_offset leaf_ordinal + 64)
leaf_extra_offset leaf_ordinal (suc (suc zero)) = ok (leaf_record_offset leaf_ordinal + 96)
leaf_extra_offset leaf_ordinal (suc (suc (suc idx))) = panic

-- The first field has 24 bytes, and 8 zeros follow them in the result.
unfoldable pub leaf_extra : Bytes → ℕ → ℕ → R Bytes
leaf_extra leaf_table leaf_ordinal idx = leaf_extra_offset leaf_ordinal idx >>= λ off.
    elim (idx == 0) [
      | true ↦ read_bytes leaf_table off 24 >>= λ b. ok (b ++ zeros 8)
      | false ↦ read_bytes leaf_table off hash_bytes
    ]

-- the field cleared, and then overwritten by what fits of `extra`
unfoldable pub leaf_set_extra : Bytes → ℕ → ℕ → Bytes → R Bytes
leaf_set_extra leaf_table leaf_ordinal idx extra =
    if ltb hash_bytes (length extra)
    then panic
    else leaf_extra_offset leaf_ordinal idx >>= λ off.
        let size = if idx == 0 then 24 else hash_bytes in
        write_bytes leaf_table off (zeros size) >>= λ leaf_table.
        write_bytes leaf_table off (take size extra)

unfoldable pub node_record_offset : ℕ → ℕ
node_record_offset ref = ref * node_record_bytes

unfoldable pub node_rec : Bytes → ℕ → R Bytes
node_rec node_store ref = read_bytes node_store (node_record_offset ref) node_record_bytes

unfoldable pub node_kind_at : Bytes → ℕ → R ℕ
node_kind_at node_store ref = node_rec node_store ref >>= λ rec. read_byte rec 0

unfoldable pub node_bit : Bytes → ℕ → R ℕ
node_bit node_store ref = node_rec node_store ref >>= λ rec. read_byte rec 1

-- `readU32BE(rec[off:off+4])`
unfoldable pub node_field : ℕ → Bytes → ℕ → R ℕ
node_field off node_store ref =
    node_rec node_store ref >>= λ rec. read_bytes rec off 4 >>= λ b. ok (uint32 b)

unfoldable pub node_right_span : Bytes → ℕ → R ℕ
node_right_span node_store ref = node_field 4 node_store ref

unfoldable pub node_subtree_size : Bytes → ℕ → R ℕ
node_subtree_size node_store ref = node_field 8 node_store ref

unfoldable pub node_leaf_ordinal : Bytes → ℕ → R ℕ
node_leaf_ordinal node_store ref = node_field 12 node_store ref

unfoldable pub node_hash : Bytes → ℕ → R Bytes
node_hash node_store ref = node_rec node_store ref >>= λ rec. read_bytes rec 32 hash_bytes

-- the writes to a record that is in range
unfoldable pub write_record : Bytes → ℕ → ℕ → ℕ → ℕ → ℕ → ℕ → Bytes → Bytes
write_record node_store off kind bit right_span subtree_size leaf_ordinal h =
    let node_store = overwrite node_store off (kind ∷ bit ∷ []) in
    let node_store = overwrite node_store (off + 4) (put_uint32 right_span) in
    let node_store = overwrite node_store (off + 8) (put_uint32 subtree_size) in
    let node_store = overwrite node_store (off + 12) (put_uint32 leaf_ordinal) in
    overwrite node_store (off + 32) h

unfoldable pub node_write_leaf : Bytes → ℕ → ℕ → Bytes → R Bytes
node_write_leaf node_store ref leaf_ordinal h = node_rec node_store ref >>= λ _.
    ok (write_record node_store (node_record_offset ref) kind_leaf 0 0 1 leaf_ordinal h)

unfoldable pub node_write_branch : Bytes → ℕ → ℕ → ℕ → ℕ → Bytes → R Bytes
node_write_branch node_store ref bit right_span subtree_size h = node_rec node_store ref >>= λ _.
    ok
      (write_record node_store (node_record_offset ref) kind_branch bit right_span subtree_size 0 h)
