-- ===== src/Mmr/Add.antt =====
-- mmr/add.go: `AddHashedLeaf`. The back fill loop takes fuel: the height grows in each round and
-- is below 64, so 64 rounds are enough.
pub mod Backfill
use go_merklelog.Base.{ℕ, zero, suc, ◌+◌, true, false, ltb, add64, sub64, shl64}
use go_merklelog.Base.Results.{ok, out_of_fuel}
use go_merklelog.Mmr.Errors.{R, StoreCall, ◌>>=◌}
use go_merklelog.Mmr.Hasher.{Bytes, Hasher, reset, write, hash_write_uint64, sum}
use go_merklelog.Mmr.Store.{NodeAppender}
use go_merklelog.Mmr.IndexHeight.{index_height}

module _ (digest : Bytes → Bytes) {S : Type 0} (store : NodeAppender S) where
  -- One round: append the parent of the nodes at `i - (2 << height)` and `i - 1`.
  unfoldable pub backfill_step : ℕ → ℕ → StoreCall S ℕ
  backfill_step i height = do
    let i_left = sub64 i (shl64 2 height)
    let i_right = sub64 i 1
    let committed = hash_write_uint64 reset (add64 i 1)
    left ← store.get i_left
    right ← store.get i_right
    store.append (sum digest (write (write committed left) right))

  unfoldable pub backfill_loop : ℕ → ℕ → ℕ → StoreCall S ℕ
  backfill_loop zero i height s = (out_of_fuel, s)
  backfill_loop (suc fuel) i height s = elim (ltb height (index_height i)) [
    | true ↦ (backfill_step i height >>= λ i'. backfill_loop fuel i' (height + 1)) s
    | false ↦ (ok i, s)
  ]

  unfoldable pub add_hashed_leaf : Bytes → StoreCall S ℕ
  add_hashed_leaf hashed_leaf = store.append hashed_leaf >>= λ i. backfill_loop 64 i 0
