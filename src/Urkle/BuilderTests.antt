-- ===== src/Urkle/BuilderTests.antt =====
-- Runs of the builder, and its theorems at concrete inputs.
use mathlib.Core.Option
use go_merklelog.Base.{◌≡◌, refl, ◌∷◌, ◌++◌, get_elem?, arith}
use go_merklelog.Base.{mul64, sub64}
use go_merklelog.Base.Results.{ok, err}
use go_merklelog.Base.Buffers.{Bytes, zeros, read_bytes, write_bytes, put_uint32, put_uint64}
use go_merklelog.Urkle.Errors.{out_of_order_key}
use go_merklelog.Urkle.Hash.{sum, hash_leaf, leaf_input}
use go_merklelog.Urkle.Records.{
  leaf_set, leaf_key, leaf_value, leaf_record_offset, node_rec, node_record_offset, node_write_leaf,
  write_record,
}
use go_merklelog.Urkle.Records.Leaves.{leaf_key-leaf_set, leaf_key-leaf_set_other}
use go_merklelog.Urkle.Builder.{Builder, empty_state, new_builder, init_caps, node_count_max}
use go_merklelog.Urkle.Builder.Insert.{
  check_order, check_capacity, make_room, emit_leaf, insert_monotone,
}
use go_merklelog.Base.{ℕ, zero, suc, some}
use go_merklelog.Urkle.Frontier.{FrontierStateV1, encode_frontier, decode_frontier}
use go_merklelog.Urkle.Frontier.Decoded.{InBounds, decode_frontier-InBounds}
use go_merklelog.Urkle.Frontier.Frames.{AllRefs}
use go_merklelog.Urkle.Frontier.Roundtrip.{IsFrontierState, decode_frontier-encode_frontier}
use go_merklelog.Urkle.Builder.{no_frames}
use go_merklelog.Urkle.Builder.Recorded.{
  Recorded, insert_monotone-Recorded, insert_monotone-insert_monotone,
}

abbrev sample : Bytes → Bytes
sample b = Option.get_or (get_elem? b 0) 0 ∷ Option.get_or (get_elem? b 8) 0 ∷ zeros 30

abbrev value : Bytes
value = 9 ∷ zeros 31

-- a builder for two leaves
abbrev fresh : Builder
fresh = record {
  leaf_table = zeros 256;
  node_store = zeros 192;
  leaf_cap = 2;
  node_cap = 3;
  st = empty_state;
}

new_run : new_builder (zeros 256) (zeros 192) ≡ ok fresh
unfolding new_builder init_caps node_count_max mul64 sub64
new_run = refl

set_run : leaf_set (zeros 256) 1 5 value ≡ ok (zeros 135 ++ 5 ∷ (value ++ zeros 88))
unfolding leaf_set leaf_record_offset write_bytes put_uint64
set_run = refl

leaf_key-leaf_set_example :
    (leaf_key (zeros 135 ++ 5 ∷ (value ++ zeros 88)) 1 ≡ ok 5)
    × (leaf_value (zeros 135 ++ 5 ∷ (value ++ zeros 88)) 1 ≡ ok value)
leaf_key-leaf_set_example = leaf_key-leaf_set (zeros 256) 1 5 value (omega arith) set_run

leaf_set_other_run :
    (leaf_key (zeros 135 ++ 5 ∷ (value ++ zeros 88)) 0 ≡ leaf_key (zeros 256) 0)
    × (leaf_value (zeros 135 ++ 5 ∷ (value ++ zeros 88)) 0 ≡ leaf_value (zeros 256) 0)
leaf_set_other_run = leaf_key-leaf_set_other (zeros 256) 1 5 value 0 (λ e. omega arith) set_run

inserted_run :
    insert_monotone sample 5 value fresh ≡ (ok 0, (insert_monotone sample 5 value fresh).1)
unfolding insert_monotone check_order check_capacity make_room emit_leaf leaf_set leaf_record_offset
    write_bytes read_bytes put_uint32 put_uint64 hash_leaf leaf_input sum node_write_leaf
    write_record node_rec node_record_offset
inserted_run = refl

insert_monotone-Recorded_example :
    Recorded sample fresh 5 value 0 (insert_monotone sample 5 value fresh).1
insert_monotone-Recorded_example =
    insert_monotone-Recorded sample fresh 5 value (omega arith) inserted_run

-- a builder behind one key
insert_monotone-insert_monotone_example :
    insert_monotone sample 3 value (insert_monotone sample 5 value fresh).1
    ≡ (err out_of_order_key, (insert_monotone sample 5 value fresh).1)
insert_monotone-insert_monotone_example =
    insert_monotone-insert_monotone sample fresh 5 3 value value (omega arith) inserted_run
      (omega arith) refl (omega arith)

-- a state with one frame below the root
abbrev parked : FrontierStateV1
parked = record {
  last_key = 0x0102_0304_0506;
  pending = 6;
  next = 7;
  next_leaf = 4;
  depth = 1;
  frames = record { bit = 3; left = 2 } ∷ no_frames 63;
}

no_frames-AllRefs : (n : ℕ) → AllRefs (no_frames n)
no_frames-AllRefs zero = tt
no_frames-AllRefs (suc n) = (omega arith, no_frames-AllRefs n)

parked-IsFrontierState : IsFrontierState parked
parked-IsFrontierState = record {
  last_key_width = omega arith;
  pending_width = omega arith;
  next_width = omega arith;
  next_leaf_width = omega arith;
  depth_bound = omega arith;
  some_pending = refl;
  all_frames = refl;
  refs = (omega arith, no_frames-AllRefs 63);
}

decode_frontier-encode_frontier_example :
    ((encode_frontier (zeros 600) parked).0 ≡ ok tt)
    × (decode_frontier (encode_frontier (zeros 600) parked).1 ≡ ok (some parked))
decode_frontier-encode_frontier_example =
    decode_frontier-encode_frontier (zeros 600) parked (omega arith) parked-IsFrontierState

decode_frontier-InBounds_example : InBounds parked
decode_frontier-InBounds_example =
    decode_frontier-InBounds (encode_frontier (zeros 600) parked).1
      decode_frontier-encode_frontier_example.1
