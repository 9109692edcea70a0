-- ===== src/Urkle/Prove.antt =====
-- urkle/proof.go: the provers, over a leaf table and a node store. A child's ref is below its
-- parent's, so one round more than the root's ref is enough.
mod Rounds
pub mod Complete
pub mod Verified
use go_merklelog.Base.{ℕ, zero, suc, ◌+◌, ◌-◌, Bool, true, false, List, [], ◌∷◌, ◌++◌}
use go_merklelog.Base.{◌==◌, ltb, if◌then◌else◌, sub64}
use mathlib.Core.List.{reverse}
use go_merklelog.Base.Results.{ok, err, out_of_fuel, ◌>>=◌}
use go_merklelog.Base.Buffers.{Bytes}
use go_merklelog.Urkle.Errors.{
  R, no_ref, empty_trie, key_not_found, key_present, invalid_node_kind, invalid_branch_bit,
  invalid_right_span,
}
use go_merklelog.Urkle.Hash.{bit_at}
use go_merklelog.Urkle.Records.{
  kind_leaf, kind_branch, leaf_key, leaf_value, node_kind_at, node_bit, node_right_span,
  node_leaf_ordinal, node_hash,
}
use go_merklelog.Urkle.Proof.{ProofStep, InclusionProof, ExclusionProof}

-- the ref of the leaf, and the steps from the root on
pub record PathTo : Type 0 where
  pub leaf_ref : ℕ
  pub steps : List ProofStep

-- the checks on a branch: its bit and its right span
unfoldable pub check_branch : ℕ → ℕ → ℕ → R (Unit {0})
check_branch cur bit rs =
    if ltb 63 bit
    then err invalid_branch_bit
    else if rs == 0
    then err invalid_right_span
    else if cur == 0
    then err invalid_right_span
    else if ltb (cur - 1) (sub64 (sub64 cur 1) rs)
    then err invalid_right_span
    else ok tt

unfoldable pub prove_path : ℕ → Bytes → ℕ → ℕ → List ProofStep → R PathTo
prove_path zero node_store cur target_key steps = out_of_fuel
prove_path (suc fuel) node_store cur target_key steps = node_kind_at node_store cur >>= λ kind.
    elim (kind == kind_leaf) [
      | true ↦ ok (record { leaf_ref = cur; steps = steps })
      | false ↦ elim (kind == kind_branch) [
        | false ↦ err invalid_node_kind
        | true ↦ node_bit node_store cur >>= λ bit. node_right_span node_store cur >>= λ rs.
            check_branch cur bit rs >>= λ _.
            let right = cur - 1 in
            let left = sub64 (sub64 cur 1) rs in
            let dir = bit_at target_key bit in
            let next = if dir == 0 then left else right in
            let sib = if dir == 0 then right else left in
            node_hash node_store sib >>= λ h.
            prove_path fuel node_store next target_key
              (steps ++ record { bit = bit; dir = dir; sibling_hash = h } ∷ [])
      ]
    ]

unfoldable pub prove_inclusion : Bytes → Bytes → ℕ → ℕ → R InclusionProof
prove_inclusion leaf_table node_store root key =
    if root == no_ref
    then err empty_trie
    else prove_path (root + 1) node_store root key [] >>= λ path.
        node_leaf_ordinal node_store path.leaf_ref >>= λ leaf_ordinal.
        leaf_key leaf_table leaf_ordinal >>= λ enc_key. elim (enc_key == key) [
          | true ↦ leaf_value leaf_table leaf_ordinal >>= λ value. ok (record {
            key = key;
            leaf_ordinal = leaf_ordinal;
            value = value;
            steps = reverse path.steps;
          })
          | false ↦ err key_not_found
        ]

unfoldable pub prove_exclusion : Bytes → Bytes → ℕ → ℕ → R ExclusionProof
prove_exclusion leaf_table node_store root target_key =
    if root == no_ref
    then err empty_trie
    else prove_path (root + 1) node_store root target_key [] >>= λ path.
        node_leaf_ordinal node_store path.leaf_ref >>= λ leaf_ordinal.
        leaf_key leaf_table leaf_ordinal >>= λ enc_key. elim (enc_key == target_key) [
          | true ↦ err key_present
          | false ↦ leaf_value leaf_table leaf_ordinal >>= λ value. ok (record {
            target_key = target_key;
            encountered_key = enc_key;
            leaf_ordinal = leaf_ordinal;
            value = value;
            steps = reverse path.steps;
          })
        ]
