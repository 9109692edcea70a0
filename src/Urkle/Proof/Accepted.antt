-- ===== src/Urkle/Proof/Accepted.antt =====
-- What the urkle verifiers accept is a path.
use go_merklelog.Base.{ℕ, ◌≡◌, ◌≢◌, inl, inr, subst, length}
use go_merklelog.Base.{◌==◌, ==_iff, Bool-cases, bytes_equal, eq_of_bytes_equal}
use go_merklelog.Base.Results.{ok, err_not_ok, eq-ok_of_bind}
use go_merklelog.Base.Buffers.{Bytes}
use go_merklelog.Urkle.Errors.{hash_bytes, verify_inclusion_failed, verify_exclusion_failed}
use go_merklelog.Urkle.Hash.{leaf_input, hash_leaf}
use go_merklelog.Urkle.Proof.{
  InclusionProof, ExclusionProof, Found, climb, verify_inclusion, verify_exclusion,
}
use go_merklelog.Urkle.Proof.Paths.{AllHashes, Above, at_leaf, unequal, sum-eq, climb-Above}

module _ (digest : Bytes → Bytes) where
  -- The leaf hash that a verifier computes.
  hash_leaf-eq :
      (key ordinal : ℕ) (value : Bytes) {h : Bytes}
      → hash_leaf digest key ordinal value ≡ ok h
      → (h ≡ digest (leaf_input key ordinal value)) × (length h ≡ 32) × (length value ≡ 32)
  unfolding hash_leaf
  hash_leaf-eq key ordinal value e = elim (Bool-cases (length value == hash_bytes)) [
    | inr other ↦ absurd (err_not_ok (rw other at e))
    | inl sized ↦
        let (its, whole) = sum-eq digest (leaf_input key ordinal value) (rw sized at e) in
        (its, whole, (==_iff (length value) 32).0 sized)
  ]

  pub verify_inclusion-Above :
      (root : Bytes) (p : InclusionProof) {found : Found}
      → AllHashes p.steps
      → verify_inclusion digest root p ≡ ok found
      → Above digest p.key (digest (leaf_input p.key p.leaf_ordinal p.value)) root
        × (length p.value ≡ 32)
  unfolding verify_inclusion
  verify_inclusion-Above root p hashes e =
      let (leaf_hash, hashed, e) =
        eq-ok_of_bind (hash_leaf digest p.key p.leaf_ordinal p.value) _ e in
      let (cur, climbed, e) =
        eq-ok_of_bind (climb digest verify_inclusion_failed p.key leaf_hash p.steps) _ e in
      let (its, whole, sized) = hash_leaf-eq p.key p.leaf_ordinal p.value hashed in
      elim (Bool-cases (bytes_equal cur root)) [
        | inr other ↦ absurd (err_not_ok (rw other at e))
        | inl same ↦ (
          subst (Above digest p.key _) (eq_of_bytes_equal cur root same) (
              climb-Above digest verify_inclusion_failed p.key _ leaf_hash p.steps whole hashes
                (at_leaf its) climbed),
          sized,
        )
      ]

  pub verify_exclusion-Above :
      (root : Bytes) (p : ExclusionProof) {found : Found}
      → AllHashes p.steps
      → verify_exclusion digest root p ≡ ok found
      → Above digest p.target_key
          (digest (leaf_input p.encountered_key p.leaf_ordinal p.value))
          root
        × (p.encountered_key ≢ p.target_key)
        × (length p.value ≡ 32)
  unfolding verify_exclusion
  verify_exclusion-Above root p hashes e = elim (Bool-cases (p.encountered_key == p.target_key)) [
    | inl present ↦ absurd (err_not_ok (rw present at e))
    | inr absent ↦
        let (leaf_hash, hashed, e) =
          eq-ok_of_bind (hash_leaf digest p.encountered_key p.leaf_ordinal p.value) _
            (rw absent at e) in
        let (cur, climbed, e) =
          eq-ok_of_bind (climb digest verify_exclusion_failed p.target_key leaf_hash p.steps) _ e in
        let (its, whole, sized) = hash_leaf-eq p.encountered_key p.leaf_ordinal p.value hashed in
        elim (Bool-cases (bytes_equal cur root)) [
          | inr other ↦ absurd (err_not_ok (rw other at e))
          | inl same ↦ (
            subst (Above digest p.target_key _) (eq_of_bytes_equal cur root same) (
                climb-Above digest verify_exclusion_failed p.target_key _ leaf_hash p.steps whole
                  hashes (at_leaf its) climbed),
            (λ z. unequal ((==_iff p.encountered_key p.target_key).1 z) absent),
            sized,
          )
        ]
  ]
