-- ===== src/Urkle/Builder/Insert.antt =====
-- urkle/builder.go: InsertMonotone and Finalize, with the methods that they call.
use go_merklelog.Base.{ℕ, zero, suc, ◌+◌, ◌-◌, ◌%◌, Bool, true, false, ◌||◌, none, some, length}
use go_merklelog.Base.{◌==◌, ltb, leb, if◌then◌else◌}
use go_merklelog.Base.Results.{ok, err, panic, out_of_fuel}
use go_merklelog.Base.Buffers.{Bytes, zeros}
use go_merklelog.Urkle.Errors.{
  R, hash_bytes, no_ref, bad_value_size, node_store_bad_size, out_of_order_key, duplicate_key,
  invalid_branch_bit, invalid_subtree_size, invalid_leaf_ordinal,
}
use go_merklelog.Urkle.Hash.{hash_leaf, hash_branch}
use go_merklelog.Urkle.Records.{
  leaf_set, node_subtree_size, node_hash, node_write_leaf, node_write_branch,
}
use go_merklelog.Urkle.Frontier.{Frame, FrontierStateV1, frontier_max_depth}
use go_merklelog.Urkle.Builder.{
  max_uint32, Call, ◌>>=◌, result, set_state, set_leaf_table, set_node_store, crit_bit, frame_at,
  frame_set,
}

-- the size of a branch's subtree
unfoldable pub subtree_size_of : ℕ → ℕ → R ℕ
subtree_size_of left_size right_size =
    if left_size == 0 || right_size == 0
    then err invalid_subtree_size
    else if ltb max_uint32 (left_size + right_size + 1)
    then err invalid_subtree_size
    else ok (left_size + right_size + 1)

-- whether the top frame is above `l`
unfoldable pub deeper : ℕ → FrontierStateV1 → R Bool
deeper l st = if st.depth == 0 then ok true else below (frame_at st.frames (st.depth - 1))
  where
    below : R Frame → R Bool
    below (ok top) = ok (ltb top.bit l)
    below (err e) = err e
    below panic = panic
    below out_of_fuel = out_of_fuel

module _ (digest : Bytes → Bytes) where
  unfoldable pub emit_leaf : ℕ → Bytes → Call ℕ
  emit_leaf leaf_ordinal leaf_hash b = elim (leb b.node_cap b.st.next) [
    | true ↦ (err node_store_bad_size, b)
    | false ↦
        (set_node_store (node_write_leaf b.node_store b.st.next leaf_ordinal leaf_hash) >>= λ _.
        set_state (λ st. record st { next = (st.next + 1) % 0x1_0000_0000 }) >>= λ _.
        result (ok b.st.next))
          b
  ]

  unfoldable pub emit_branch : ℕ → ℕ → ℕ → Call ℕ
  emit_branch bit left_ref right_ref b = elim (leb b.node_cap b.st.next) [
    | true ↦ (err node_store_bad_size, b)
    | false ↦ elim (ltb 63 bit) [
      | true ↦ (err invalid_branch_bit, b)
      | false ↦
          (result (node_subtree_size b.node_store left_ref) >>= λ left_size.
          result (node_subtree_size b.node_store right_ref) >>= λ right_size.
          result (subtree_size_of left_size right_size) >>= λ subtree_size.
          result (node_hash b.node_store left_ref) >>= λ left_hash.
          result (node_hash b.node_store right_ref) >>= λ right_hash.
          result (hash_branch digest bit left_hash right_hash) >>= λ br_hash.
          set_node_store
            (node_write_branch b.node_store b.st.next bit right_size subtree_size br_hash)
          >>= λ _. set_state (λ st. record st { next = (st.next + 1) % 0x1_0000_0000 }) >>= λ _.
              result (ok b.st.next))
            b
    ]
  ]

  -- The loop that closes frames while the top one is to be closed. Each round lowers the depth.
  unfoldable pub close_frames : (Frame → Bool) → ℕ → Call (Unit {0})
  close_frames closes zero b = (out_of_fuel, b)
  close_frames closes (suc fuel) b = elim (ltb 0 b.st.depth) [
    | false ↦ (ok tt, b)
    | true ↦
        (result (frame_at b.st.frames (b.st.depth - 1)) >>= λ top. λ b. elim (closes top) [
          | false ↦ (ok tt, b)
          | true ↦
              (set_state (λ st. record st { depth = st.depth - 1 }) >>= λ _.
              emit_branch top.bit top.left b.st.pending >>= λ br.
              set_state (λ st. record st { pending = br }) >>= λ _. close_frames closes fuel)
                b
        ])
          b
  ]

  -- the new frame at `l`, if it is deeper than the top one
  unfoldable pub open_frame : ℕ → Call (Unit {0})
  open_frame l b =
      (result (deeper l b.st) >>= λ opens. λ b. elim opens [
        | false ↦ (ok tt, b)
        | true ↦ elim (leb frontier_max_depth b.st.depth) [
          | true ↦ (err invalid_branch_bit, b)
          | false ↦
              set_state
                (λ st. record st {
                  frames = frame_set st.frames st.depth (record { bit = l; left = st.pending });
                  depth = st.depth + 1;
                })
                b
        ]
      ])
        b

  -- what `InsertMonotone` does between the leaf's record and its node: nothing for the first key
  unfoldable pub make_room : ℕ → Call (Unit {0})
  make_room key b = elim (b.st.next_leaf == 0) [
    | true ↦ (ok tt, b)
    | false ↦ elim (crit_bit b.st.last_key key) [
      | none ↦ (err duplicate_key, b)
      | some l ↦ (close_frames (λ top. ltb l top.bit) (b.st.depth + 1) >>= λ _. open_frame l) b
    ]
  ]

  unfoldable pub check_order : FrontierStateV1 → ℕ → R (Unit {0})
  check_order st key =
      if st.next_leaf == 0
      then ok tt
      else if ltb key st.last_key
      then err out_of_order_key
      else if key == st.last_key
      then err duplicate_key
      else ok tt

  unfoldable pub check_capacity : ℕ → ℕ → R (Unit {0})
  check_capacity leaf_cap next_leaf =
      if leb leaf_cap next_leaf then err invalid_leaf_ordinal else ok tt

  unfoldable pub insert_monotone : ℕ → Bytes → Call ℕ
  insert_monotone key value b = elim (length value == hash_bytes) [
    | false ↦ (err bad_value_size, b)
    | true ↦
        (result (check_order b.st key) >>= λ _.
        result (check_capacity b.leaf_cap b.st.next_leaf) >>= λ _.
        set_leaf_table (leaf_set b.leaf_table b.st.next_leaf key value) >>= λ _.
        result (hash_leaf digest key b.st.next_leaf value) >>= λ leaf_hash. make_room key >>= λ _.
        emit_leaf b.st.next_leaf leaf_hash >>= λ leaf_ref.
        set_state (λ st. record st {
          pending = leaf_ref;
          last_key = key;
          next_leaf = (st.next_leaf + 1) % 0x1_0000_0000;
        })
        >>= λ _. result (ok b.st.next_leaf))
          b
  ]

  -- the root's ref and hash; `no_ref` and zeros for the empty trie
  unfoldable pub finalize : Call (ℕ × Bytes)
  finalize b = elim (b.st.next_leaf == 0) [
    | true ↦ (ok (no_ref, zeros hash_bytes), b)
    | false ↦
        (close_frames (λ _. true) (b.st.depth + 1) >>= λ _. λ b.
            (result (node_hash b.node_store b.st.pending) >>= λ h. result (ok (b.st.pending, h))) b)
          b
  ]
