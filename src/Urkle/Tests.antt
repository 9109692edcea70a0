-- ===== src/Urkle/Tests.antt =====
-- Runs of the urkle package, and its theorems at concrete inputs.
use mathlib.Core.Option
use go_merklelog.Base.{ℕ, ◌≡◌, ◌⊎◌, refl, [], ◌∷◌, ◌++◌, get_elem?, arith}
use go_merklelog.Base.{shr64, sub64, bytes_equal}
use go_merklelog.Base.Results.{ok, err}
use go_merklelog.Base.Buffers.{Bytes, zeros, put_uint32, put_uint64, uint32, uint64, read_bytes}
use go_merklelog.Base.Digests.{Collision}
use go_merklelog.Urkle.Hash.{bit_at, leaf_input, branch_input, sum, hash_leaf, hash_branch}
use go_merklelog.Urkle.Proof.{
  InclusionProof, ExclusionProof, step_hash, climb, verify_inclusion, verify_exclusion,
}
use go_merklelog.Urkle.Errors.{key_present, key_not_found}
use go_merklelog.Urkle.Records.{
  node_kind_at, node_bit, node_right_span, node_leaf_ordinal, node_field, node_hash, node_rec,
  node_record_offset, leaf_key, leaf_value, leaf_record_offset,
}
use go_merklelog.Urkle.Prove.{prove_inclusion, prove_exclusion, prove_path, check_branch}
use go_merklelog.Urkle.Views.{IndexView, prove_inclusion_from_view, key_leaf_ordinal}
use go_merklelog.Urkle.Views.Lookup.{key_leaf_ordinal-prove_inclusion}
use go_merklelog.Urkle.Prove.Complete.{Trie, leaf, branch}
use go_merklelog.Urkle.Prove.Verified.{prove-verified}
use go_merklelog.Urkle.Proof.Exclusive.{verify_exclusive, verify_inclusion_unique}

-- a digest that keeps the tag of the input, two of its bytes, and nothing else
abbrev sample : Bytes → Bytes
sample b =
    Option.get_or (get_elem? b 0) 0
    ∷ Option.get_or (get_elem? b 8) 0
    ∷ Option.get_or (get_elem? b 13) 0
    ∷ zeros 29

abbrev value : Bytes
value = 9 ∷ zeros 31

-- the leaf of key 5 to the right of a leaf of key 1, whose keys part at bit 61
abbrev five : InclusionProof
five = record {
  key = 5;
  leaf_ordinal = 1;
  value = value;
  steps = record { bit = 61; dir = 1; sibling_hash = 0 ∷ 1 ∷ 7 ∷ zeros 29 } ∷ [];
}

abbrev root : Bytes
root = 1 ∷ 0 ∷ 0 ∷ zeros 29

five_verified :
    verify_inclusion sample root five ≡ ok (record { key = 5; leaf_ordinal = 1; value = value })
unfolding verify_inclusion hash_leaf hash_branch sum leaf_input branch_input climb step_hash bit_at
    shr64 bytes_equal put_uint32 put_uint64
five_verified = refl

verify_inclusion_unique_example :
    ((five.leaf_ordinal ≡ five.leaf_ordinal) × (value ≡ value)) ⊎ Collision sample
verify_inclusion_unique_example =
    verify_inclusion_unique sample root five five (refl, tt) (refl, tt) (omega arith) (omega arith)
      (omega arith) refl five_verified five_verified

-- A digest that loses everything proves key 1 present and absent.
abbrev constant : Bytes → Bytes
constant b = zeros 32

abbrev present : InclusionProof
present = record { key = 1; leaf_ordinal = 0; value = value; steps = [] }

abbrev absent : ExclusionProof
absent = record { target_key = 1; encountered_key = 2; leaf_ordinal = 0; value = value; steps = [] }

present_verified :
    verify_inclusion constant (zeros 32) present
    ≡ ok (record { key = 1; leaf_ordinal = 0; value = value })
unfolding verify_inclusion hash_leaf sum climb bytes_equal
present_verified = refl

absent_verified :
    verify_exclusion constant (zeros 32) absent
    ≡ ok (record { key = 2; leaf_ordinal = 0; value = value })
unfolding verify_exclusion hash_leaf sum climb bytes_equal
absent_verified = refl

verify_exclusive_example : Collision constant
verify_exclusive_example =
    verify_exclusive constant (zeros 32) present absent tt tt (omega arith) (omega arith)
      (omega arith) (omega arith) refl present_verified absent_verified

-- the trie of keys 1 and 5
abbrev node : ℕ → ℕ → ℕ → ℕ → ℕ → Bytes → Bytes
node kind bit span size ordinal h =
    kind ∷ bit ∷ 0 ∷ 0 ∷ 0 ∷ 0 ∷ 0 ∷ span ∷ 0 ∷ 0 ∷ 0 ∷ size ∷ 0 ∷ 0 ∷ 0 ∷ ordinal ∷ (zeros 16 ++ h)

abbrev nodes : Bytes
nodes =
    node 1 0 0 1 0 (0 ∷ 1 ∷ 9 ∷ zeros 29)
    ++ node 1 0 0 1 1 (0 ∷ 5 ∷ 9 ∷ zeros 29)
    ++ node 2 61 1 3 0 (1 ∷ 0 ∷ 0 ∷ zeros 29)

abbrev leaves : Bytes
leaves = zeros 7 ++ 1 ∷ (9 ∷ zeros 119) ++ (zeros 7 ++ 5 ∷ (9 ∷ zeros 119))

two-Trie : Trie sample leaves nodes 2 (1 ∷ 0 ∷ 0 ∷ zeros 29)
unfolding node_kind_at node_bit node_right_span node_leaf_ordinal node_field node_hash node_rec
    node_record_offset leaf_key leaf_value leaf_record_offset read_bytes uint32 uint64 hash_leaf
    hash_branch sum leaf_input branch_input put_uint32 put_uint64
two-Trie =
    branch 61 1 (0 ∷ 1 ∷ 9 ∷ zeros 29) (0 ∷ 5 ∷ 9 ∷ zeros 29) refl refl refl refl (omega arith)
      (omega arith) (omega arith) (leaf 0 1 value refl refl refl refl refl refl)
      (leaf 1 5 value refl refl refl refl refl refl) refl

prove-verified_example :
    ((p : InclusionProof) × (prove_inclusion leaves nodes 2 5 ≡ ok p)
      × (prove_exclusion leaves nodes 2 5 ≡ err key_present)
      × (p.key ≡ 5)
      × (verify_inclusion sample (1 ∷ 0 ∷ 0 ∷ zeros 29) p
          ≡ ok (record { key = p.key; leaf_ordinal = p.leaf_ordinal; value = p.value })))
    ⊎ ((q : ExclusionProof) × (prove_exclusion leaves nodes 2 5 ≡ ok q)
        × (prove_inclusion leaves nodes 2 5 ≡ err key_not_found)
        × (q.target_key ≡ 5)
        × (verify_exclusion sample (1 ∷ 0 ∷ 0 ∷ zeros 29) q
            ≡ ok (record {
              key = q.encountered_key;
              leaf_ordinal = q.leaf_ordinal;
              value = q.value;
            })))
prove-verified_example =
    prove-verified sample leaves nodes 2 5 (1 ∷ 0 ∷ 0 ∷ zeros 29) (omega arith) two-Trie

abbrev two_leaves : IndexView
two_leaves = record { leaf_count = 2; leaf_table = leaves; node_store = nodes }

abbrev five_below : InclusionProof
five_below = record five {
  steps = record { bit = 61; dir = 1; sibling_hash = 0 ∷ 1 ∷ 9 ∷ zeros 29 } ∷ [];
}

five_proved : prove_inclusion_from_view two_leaves 2 5 ≡ ok five_below
unfolding prove_inclusion_from_view prove_inclusion prove_path check_branch bit_at shr64 sub64
    node_kind_at node_bit node_right_span node_leaf_ordinal node_field node_hash node_rec
    node_record_offset leaf_key leaf_value leaf_record_offset read_bytes uint32 uint64
five_proved = refl

key_leaf_ordinal-prove_inclusion_example : key_leaf_ordinal two_leaves 2 5 ≡ ok 1
key_leaf_ordinal-prove_inclusion_example =
    key_leaf_ordinal-prove_inclusion two_leaves 2 5 five_below (omega arith) (omega arith)
      (omega arith) five_proved
