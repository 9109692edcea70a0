-- ===== src/Urkle/Proof.antt =====
-- urkle/proof.go: inclusion and exclusion proofs.
pub mod Paths
mod Accepted
pub mod Exclusive
use go_merklelog.Base.{ℕ, Bool, true, false, List, [], ◌∷◌}
use go_merklelog.Base.{◌==◌, if◌then◌else◌, bytes_equal}
use go_merklelog.Base.Results.{ok, err, ◌>>=◌}
use go_merklelog.Base.Buffers.{Bytes}
use go_merklelog.Urkle.Errors.{R, UrkleError, verify_inclusion_failed, verify_exclusion_failed}
use go_merklelog.Urkle.Hash.{bit_at, hash_leaf, hash_branch}

pub record ProofStep : Type 0 where
  pub bit : ℕ
  pub dir : ℕ
  pub sibling_hash : Bytes

pub record InclusionProof : Type 0 where
  pub key : ℕ
  pub leaf_ordinal : ℕ
  pub value : Bytes
  pub steps : List ProofStep

pub record ExclusionProof : Type 0 where
  pub target_key : ℕ
  pub encountered_key : ℕ
  pub leaf_ordinal : ℕ
  pub value : Bytes
  pub steps : List ProofStep

-- the leaf that a verified proof names
pub record Found : Type 0 where
  pub key : ℕ
  pub leaf_ordinal : ℕ
  pub value : Bytes

module _ (digest : Bytes → Bytes) where
  unfoldable pub step_hash : ProofStep → Bytes → R Bytes
  step_hash s cur =
      if s.dir == 0
      then hash_branch digest s.bit cur s.sibling_hash
      else hash_branch digest s.bit s.sibling_hash cur

  -- the loop over the steps of both verifiers, with the key whose path it is and its error
  unfoldable pub climb : UrkleError → ℕ → Bytes → List ProofStep → R Bytes
  climb mismatch key cur [] = ok cur
  climb mismatch key cur (s ∷ steps) = elim (s.dir == bit_at key s.bit) [
    | true ↦ step_hash s cur >>= λ next. climb mismatch key next steps
    | false ↦ err mismatch
  ]

  unfoldable pub verify_inclusion : Bytes → InclusionProof → R Found
  verify_inclusion expected_root p = hash_leaf digest p.key p.leaf_ordinal p.value >>= λ leaf_hash.
      climb verify_inclusion_failed p.key leaf_hash p.steps >>= λ cur.
      if bytes_equal cur expected_root
      then ok (record { key = p.key; leaf_ordinal = p.leaf_ordinal; value = p.value })
      else err verify_inclusion_failed

  unfoldable pub verify_exclusion : Bytes → ExclusionProof → R Found
  verify_exclusion expected_root p =
      if p.encountered_key == p.target_key
      then err verify_exclusion_failed
      else hash_leaf digest p.encountered_key p.leaf_ordinal p.value >>= λ leaf_hash.
          climb verify_exclusion_failed p.target_key leaf_hash p.steps >>= λ cur.
          if bytes_equal cur expected_root
          then ok
              (record { key = p.encountered_key; leaf_ordinal = p.leaf_ordinal; value = p.value })
          else err verify_exclusion_failed
