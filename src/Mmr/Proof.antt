-- ===== src/Mmr/Proof.antt =====
-- mmr/proof.go and mmr/includedroot.go: inclusion proofs and the root that a proof leads to. The
-- loops of the provers take fuel: the height grows in each round, and no node is higher than 63.
pub mod Climb
pub mod Ascent
pub mod Complete
pub mod Binding
use go_merklelog.Base.{
  ℕ, zero, suc, ◌+◌, Bool, true, false, List, [], ◌∷◌, ◌++◌, ltb, if◌then◌else◌, add64, sub64,
  shl64,
}
use go_merklelog.Base.Results.{ok, err, out_of_fuel, ◌>>=◌}
use go_merklelog.Mmr.Errors.{R, index_out_of_range}
use go_merklelog.Mmr.Hasher.{Bytes, hash_pos_pair64}
use go_merklelog.Mmr.IndexHeight.{index_height}

-- The sibling of the node `i` of height `g`, and the index of their parent.
unfoldable pub sibling : ℕ → ℕ → record { sibling : ℕ; parent : ℕ }
sibling i g =
    let sibling_offset = shl64 2 g in
    if ltb g (index_height (add64 i 1))
    then record { sibling = add64 (sub64 i sibling_offset) 1; parent = add64 i 1 }
    else record { sibling = sub64 (add64 i sibling_offset) 1; parent = add64 i sibling_offset }

module _ (get : ℕ → R Bytes) (mmr_last_index : ℕ) where
  unfoldable pub inclusion_proof_loop : ℕ → ℕ → ℕ → List Bytes → R (List Bytes)
  inclusion_proof_loop zero i g proof = out_of_fuel
  inclusion_proof_loop (suc fuel) i g proof =
      let next = sibling i g in
      elim (ltb mmr_last_index next.sibling) [
        | true ↦ ok proof
        | false ↦ get next.sibling >>= λ value.
            inclusion_proof_loop fuel next.parent (g + 1) (proof ++ value ∷ [])
      ]

  unfoldable pub inclusion_proof : ℕ → R (List Bytes)
  inclusion_proof i =
      if ltb mmr_last_index i
      then err index_out_of_range
      else inclusion_proof_loop 64 i (index_height i) []

module _ (mmr_last_index : ℕ) where
  unfoldable pub inclusion_proof_path_loop : ℕ → ℕ → ℕ → List ℕ → R (List ℕ)
  inclusion_proof_path_loop zero i g proof = out_of_fuel
  inclusion_proof_path_loop (suc fuel) i g proof =
      let next = sibling i g in
      elim (ltb mmr_last_index next.sibling) [
        | true ↦ ok proof
        | false ↦ inclusion_proof_path_loop fuel next.parent (g + 1) (proof ++ next.sibling ∷ [])
      ]

  unfoldable pub inclusion_proof_path : ℕ → R (List ℕ)
  inclusion_proof_path i = inclusion_proof_path_loop 64 i (index_height i) []

module _ (digest : Bytes → Bytes) where
  -- the loop of `IncludedRoot` over the proof
  unfoldable pub included_root_loop : ℕ → ℕ → Bytes → List Bytes → Bytes
  included_root_loop i g root [] = root
  included_root_loop i g root (sibling ∷ proof) = elim (ltb g (index_height (add64 i 1))) [
    | true ↦
        let i' = add64 i 1 in
        included_root_loop i' (g + 1) (hash_pos_pair64 digest (add64 i' 1) sibling root) proof
    | false ↦
        let i' = add64 i (shl64 2 g) in
        included_root_loop i' (g + 1) (hash_pos_pair64 digest (add64 i' 1) root sibling) proof
  ]

  unfoldable pub included_root : ℕ → Bytes → List Bytes → Bytes
  included_root i node_hash proof = included_root_loop i (index_height i) node_hash proof

-- `LeftPosForHeight`
unfoldable pub left_pos_for_height : ℕ → ℕ
left_pos_for_height height = sub64 (shl64 1 (add64 height 1)) 2
