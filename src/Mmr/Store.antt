-- ===== src/Mmr/Store.antt =====
-- The interfaces `indexStoreGetter` and `NodeAppender` (mmr/storegetter.go, mmr/add.go), what
-- their implementations promise, and the well-formed logs.
use go_merklelog.Base.{
  ℕ, suc, ◌+◌, ◌-◌, ◌*◌, ◌^◌, ◌<◌, ◌≡◌, ◌⊎◌, List, [], ◌∷◌, ◌++◌, length, get_elem?,
}
use mathlib.Core.Option
use go_merklelog.Base.Results.{ok}
use go_merklelog.Mmr.Errors.{StoreCall}
use go_merklelog.Mmr.Hasher.{Bytes, hash_pos_pair64}
use go_merklelog.Mmr.IndexHeight.{index_height}

pub record NodeAppender (S : Type 0) : Type 0 where
  pub get : ℕ → StoreCall S Bytes
  pub append : Bytes → StoreCall S ℕ

-- the value of node `i`
abbrev pub node_at : List Bytes → ℕ → Bytes
node_at vs i = Option.get_or (get_elem? vs i) []

-- A store with the node values `view s`, in a state that is `Valid`, reads back the children of the
-- next node, and, up to its capacity, appends one value that `IsValue` and returns the new count of
-- nodes.
pub record IsLog {S : Type 0} (store : NodeAppender S) (view : S → List Bytes) (Valid : S → Type 0)
    (IsValue : Bytes → Type 0) (capacity : ℕ) : Type 0 where
  pub get_stored :
      (s : S) (i h : ℕ)
      → Valid s
      → index_height (length (view s)) ≡ suc h
      → (i ≡ length (view s) - 2 * 2 ^ h) ⊎ (i ≡ length (view s) - 1)
      → store.get i s ≡ (ok (node_at (view s) i), s)
  pub append_stored :
      (s : S) (v : Bytes)
      → Valid s
      → IsValue v
      → length (view s) < capacity
      → (s' : S) × (store.append v s ≡ (ok (length (view s) + 1), s'))
        × (view s' ≡ view s ++ v ∷ [])
        × Valid s'

-- Every interior node commits to its position and its two children.
abbrev pub IsMmr : (Bytes → Bytes) → List Bytes → Type 0
IsMmr digest vs =
    (i h : ℕ)
    → i < length vs
    → index_height i ≡ suc h
    → node_at vs i
      ≡ hash_pos_pair64 digest (i + 1) (node_at vs (i - 2 * 2 ^ h)) (node_at vs (i - 1))

-- No interior node is missing: the next node is a leaf.
abbrev pub IsComplete : List Bytes → Type 0
IsComplete vs = index_height (length vs) ≡ 0
