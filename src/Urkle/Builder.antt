-- ===== src/Urkle/Builder.antt =====
-- urkle/builder.go: the append-only construction of the trie. A method is a function from the builder
-- to its result and the builder after it. The hasher is the digest parameter.
pub mod Insert
pub mod Keeps
pub mod Recorded
use Prim.Native.Nat.{bit_xor}
use go_merklelog.Base.{
  ℕ, zero, suc, ◌+◌, ◌-◌, ◌*◌, ◌/◌, ◌%◌, Bool, true, false, ◌&&◌, ◌||◌, Option, none, some, List,
  [], ◌∷◌, length,
}
use go_merklelog.Base.{◌==◌, ltb, leb, if◌then◌else◌, sub64, mul64}
use go_merklelog.Base.Bits.{len64}
use go_merklelog.Base.Results.{ok, err, panic, out_of_fuel}
use go_merklelog.Base.Buffers.{Bytes, zeros}
use go_merklelog.Urkle.Errors.{
  R, hash_bytes, no_ref, bad_value_size, leaf_table_bad_size, node_store_bad_size,
  frontier_bad_state, out_of_order_key, duplicate_key, invalid_branch_bit, invalid_subtree_size,
  invalid_leaf_ordinal, leaf_ordinal_does_not_fit,
}
use go_merklelog.Urkle.Hash.{hash_leaf, hash_branch}
use go_merklelog.Urkle.Records.{
  leaf_record_bytes, node_record_bytes, leaf_set, node_subtree_size, node_hash, node_write_leaf,
  node_write_branch,
}
use go_merklelog.Urkle.Frontier.{
  Frame, FrontierStateV1, frontier_max_depth, encode_frontier, decode_frontier,
}

abbrev pub max_uint32 : ℕ
max_uint32 = 0xffff_ffff

pub record Builder : Type 0 where
  pub leaf_table : Bytes
  pub node_store : Bytes
  pub leaf_cap : ℕ
  pub node_cap : ℕ
  pub st : FrontierStateV1

-- a method's result, and the builder behind it
abbrev pub Call : Type 0 → Type 0
Call A = Builder → R A × Builder

abbrev pub after : {A B : Type 0} → (A → Call B) → R A × Builder → R B × Builder
after f (ok a, b) = f a b
after f (err e, b) = (err e, b)
after f (panic, b) = (panic, b)
after f (out_of_fuel, b) = (out_of_fuel, b)

infixl 5 ◌>>=◌
abbrev pub ◌>>=◌ : {A B : Type 0} → Call A → (A → Call B) → Call B
◌>>=◌ m f b = after f (m b)

abbrev pub result : {A : Type 0} → R A → Call A
result r b = (r, b)

abbrev pub builder : Call Builder
builder b = (ok b, b)

abbrev pub set_state : (FrontierStateV1 → FrontierStateV1) → Call (Unit {0})
set_state f b = (ok tt, record b { st = f b.st })

-- the new bytes of the leaf table or the node store
abbrev pub set_leaf_table : R Bytes → Call (Unit {0})
set_leaf_table (ok t) b = (ok tt, record b { leaf_table = t })
set_leaf_table (err e) b = (err e, b)
set_leaf_table panic b = (panic, b)
set_leaf_table out_of_fuel b = (out_of_fuel, b)

abbrev pub set_node_store : R Bytes → Call (Unit {0})
set_node_store (ok s) b = (ok tt, record b { node_store = s })
set_node_store (err e) b = (err e, b)
set_node_store panic b = (panic, b)
set_node_store out_of_fuel b = (out_of_fuel, b)

-- `NodeCountMax` of urkle/sizing.go
unfoldable pub node_count_max : ℕ → ℕ
node_count_max leaf_count = if leaf_count == 0 then 0 else sub64 (mul64 2 leaf_count) 1

-- `none` for equal keys
unfoldable pub crit_bit : ℕ → ℕ → Option ℕ
crit_bit a b = let x = bit_xor a b in if x == 0 then none else some (64 - len64 x)

-- `frames[i]` and `frames[i] = f`
abbrev pub frame_at : List Frame → ℕ → R Frame
frame_at [] i = panic
frame_at (f ∷ frames) zero = ok f
frame_at (f ∷ frames) (suc i) = frame_at frames i

abbrev pub frame_set : List Frame → ℕ → Frame → List Frame
frame_set [] i g = []
frame_set (f ∷ frames) zero g = g ∷ frames
frame_set (f ∷ frames) (suc i) g = f ∷ frame_set frames i g

abbrev pub no_frames : ℕ → List Frame
no_frames zero = []
no_frames (suc n) = record { bit = 0; left = 0 } ∷ no_frames n

abbrev pub empty_state : FrontierStateV1
empty_state = record {
  last_key = 0;
  pending = no_ref;
  next = 0;
  next_leaf = 0;
  depth = 0;
  frames = no_frames frontier_max_depth;
}

-- `initCaps`, and the builder of `st` behind it
unfoldable pub init_caps : Bytes → Bytes → FrontierStateV1 → R Builder
init_caps leaf_table node_store st =
    let leaf_cap = length leaf_table / leaf_record_bytes in
    let node_cap = length node_store / node_record_bytes in
    if ltb 0 (length leaf_table % leaf_record_bytes)
    then err leaf_table_bad_size
    else if ltb max_uint32 leaf_cap
    then err leaf_ordinal_does_not_fit
    else if ltb 0 (length node_store % node_record_bytes)
    then err node_store_bad_size
    else if ltb max_uint32 node_cap
    then err node_store_bad_size
    else if ltb node_cap (node_count_max leaf_cap)
    then err node_store_bad_size
    else ok (record {
      leaf_table = leaf_table;
      node_store = node_store;
      leaf_cap = leaf_cap;
      node_cap = node_cap;
      st = st;
    })

unfoldable pub new_builder : Bytes → Bytes → R Builder
new_builder leaf_table node_store = init_caps leaf_table node_store empty_state

-- the loop over the frames below the depth: each left ref is a node that is written
unfoldable pub frames_below : ℕ → List Frame → ℕ → R (Unit {0})
frames_below zero frames next = ok tt
frames_below (suc n) [] next = panic
frames_below (suc n) (f ∷ frames) next =
    if leb next f.left then err frontier_bad_state else frames_below n frames next

unfoldable pub save_frontier : Builder → Bytes → R (Unit {0}) × Bytes
save_frontier b dst = encode_frontier dst b.st

-- the checks of `NewBuilderFromFrontier` on a decoded state
unfoldable pub check_state : ℕ → ℕ → FrontierStateV1 → R (Unit {0})
check_state leaf_cap node_cap st =
    if ltb leaf_cap st.next_leaf
    then err frontier_bad_state
    else if ltb node_cap st.next
    then err frontier_bad_state
    else if ltb frontier_max_depth st.depth
    then err frontier_bad_state
    else if ltb 0 st.depth && (st.next == 0 || st.pending == no_ref)
    then err frontier_bad_state
    else pending_checked (frames_below st.depth st.frames st.next)
  where
    pending_checked : R (Unit {0}) → R (Unit {0})
    pending_checked (ok u) =
        if ltb 0 st.next_leaf && (st.pending == no_ref || leb st.next st.pending)
        then err frontier_bad_state
        else ok tt
    pending_checked (err e) = err e
    pending_checked panic = panic
    pending_checked out_of_fuel = out_of_fuel

unfoldable pub new_builder_from_frontier : Bytes → Bytes → Bytes → R Builder
new_builder_from_frontier leaf_table node_store frontier =
    decoded (new_builder leaf_table node_store)
  where
    checked : Builder → FrontierStateV1 → R (Unit {0}) → R Builder
    checked b st (ok u) = ok (record b { st = st })
    checked b st (err e) = err e
    checked b st panic = panic
    checked b st out_of_fuel = out_of_fuel

    resumed : Builder → R (Option FrontierStateV1) → R Builder
    resumed b (ok none) = ok b
    resumed b (ok (some st)) = checked b st (check_state b.leaf_cap b.node_cap st)
    resumed b (err e) = err e
    resumed b panic = panic
    resumed b out_of_fuel = out_of_fuel

    decoded : R Builder → R Builder
    decoded (ok b) = resumed b (decode_frontier frontier)
    decoded (err e) = err e
    decoded panic = panic
    decoded out_of_fuel = out_of_fuel
