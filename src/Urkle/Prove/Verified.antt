-- ===== src/Urkle/Prove/Verified.antt =====
-- The provers against the verifiers, on a trie whose records are hashed right.
use go_merklelog.Base.{
  ℕ, ◌+◌, ◌<◌, ◌≡◌, ◌⊎◌, inl, inr, refl, subst, true, false, List, [], ◌∷◌, arith,
}
use go_merklelog.Base.{◌==◌, ==_iff, neq→==, Bool-cases, bytes_equal_self}
use mathlib.Core.List.{reverse}
use go_merklelog.Base.Results.{ok, err, ◌>>=◌, err_not_ok, eq-ok_of_bind}
use go_merklelog.Base.Buffers.{Bytes}
use go_merklelog.Urkle.Errors.{
  UrkleError, no_ref, key_not_found, key_present, verify_inclusion_failed, verify_exclusion_failed,
}
use go_merklelog.Urkle.Hash.{bit_at, hash_leaf}
use go_merklelog.Urkle.Proof.{
  ProofStep, InclusionProof, ExclusionProof, step_hash, climb, verify_inclusion, verify_exclusion,
}
use go_merklelog.Urkle.Prove.{prove_path, prove_inclusion, prove_exclusion}
use go_merklelog.Urkle.Prove.Complete.{Trie, Search, prove_path-Search}

module _ (digest : Bytes → Bytes) where
  -- A climb that ends does not depend on the error of the others.
  climb-any_error :
      (m m' : UrkleError) (key : ℕ) (cur : Bytes) (steps : List ProofStep) {h : Bytes}
      → climb digest m key cur steps ≡ ok h
      → climb digest m' key cur steps ≡ ok h
  unfolding climb
  climb-any_error m m' key cur [] e = e
  climb-any_error m m' key cur (s ∷ steps) e = elim (Bool-cases (s.dir == bit_at key s.bit)) [
    | inr other ↦ absurd (err_not_ok (rw (other, climb) at e))
    | inl goes ↦
        let (next, made, rest) = eq-ok_of_bind (step_hash digest s cur) _ (rw (goes, climb) at e) in
        rw (goes, climb) (rw (made, ◌>>=◌) (climb-any_error m m' key next steps rest))
  ]

  module _ (leaf_table node_store : Bytes) (root target : ℕ) (h : Bytes) (narrow : root < no_ref)
      (s : Search digest leaf_table node_store verify_inclusion_failed target root h)
      (path : prove_path (root + 1) node_store root target []
        ≡ ok (record { leaf_ref = s.leaf_ref; steps = s.steps })) where
    abbrev included : InclusionProof
    included = record {
      key = target;
      leaf_ordinal = s.ordinal;
      value = s.value;
      steps = reverse s.steps;
    }

    abbrev excluded : ExclusionProof
    excluded = record {
      target_key = target;
      encountered_key = s.key;
      leaf_ordinal = s.ordinal;
      value = s.value;
      steps = reverse s.steps;
    }

    prove_inclusion-met :
        (s.key == target) ≡ true → prove_inclusion leaf_table node_store root target ≡ ok included
    unfolding prove_inclusion
    prove_inclusion-met same =
        rw (neq→== root no_ref (λ e. omega arith), path, ◌>>=◌)
          (rw (s.at_ordinal, ◌>>=◌) (rw (s.at_key, ◌>>=◌) (rw same (rw (s.at_value, ◌>>=◌) refl))))

    prove_inclusion-other :
        (s.key == target) ≡ false
        → prove_inclusion leaf_table node_store root target ≡ err key_not_found
    unfolding prove_inclusion
    prove_inclusion-other other =
        rw (neq→== root no_ref (λ e. omega arith), path, ◌>>=◌)
          (rw (s.at_ordinal, ◌>>=◌) (rw (s.at_key, ◌>>=◌) (rw other refl)))

    prove_exclusion-met :
        (s.key == target) ≡ true
        → prove_exclusion leaf_table node_store root target ≡ err key_present
    unfolding prove_exclusion
    prove_exclusion-met same =
        rw (neq→== root no_ref (λ e. omega arith), path, ◌>>=◌)
          (rw (s.at_ordinal, ◌>>=◌) (rw (s.at_key, ◌>>=◌) (rw same refl)))

    prove_exclusion-other :
        (s.key == target) ≡ false → prove_exclusion leaf_table node_store root target ≡ ok excluded
    unfolding prove_exclusion
    prove_exclusion-other other =
        rw (neq→== root no_ref (λ e. omega arith), path, ◌>>=◌)
          (rw (s.at_ordinal, ◌>>=◌) (rw (s.at_key, ◌>>=◌) (rw other (rw (s.at_value, ◌>>=◌) refl))))

    included_verified :
        (s.key == target) ≡ true
        → verify_inclusion digest h included
          ≡ ok (record { key = target; leaf_ordinal = s.ordinal; value = s.value })
    unfolding verify_inclusion
    included_verified same =
        let hashed =
          subst (λ k. hash_leaf digest k s.ordinal s.value ≡ ok s.leaf_hash)
            ((==_iff s.key target).0 same) s.hashed in
        rw (hashed, ◌>>=◌) (rw (s.climbs, ◌>>=◌) (rw (bytes_equal_self h) refl))

    excluded_verified :
        (s.key == target) ≡ false
        → verify_exclusion digest h excluded
          ≡ ok (record { key = s.key; leaf_ordinal = s.ordinal; value = s.value })
    unfolding verify_exclusion
    excluded_verified other =
        rw (other, s.hashed, ◌>>=◌)
          (rw
            (
              climb-any_error verify_inclusion_failed verify_exclusion_failed target s.leaf_hash
                  (reverse s.steps) s.climbs,
              ◌>>=◌,
            )
            (rw (bytes_equal_self h) refl))

  -- On a trie whose records are hashed right, for every key either `ProveInclusion` succeeds with a
  -- proof that `VerifyInclusion` accepts against the hash of the trie, and `ProveExclusion` says
  -- that the key is present; or `ProveInclusion` says that it is not found, and `ProveExclusion`
  -- succeeds with a proof that `VerifyExclusion` accepts.
  pub prove-verified :
      (leaf_table node_store : Bytes) (root target : ℕ) (h : Bytes)
      → root < no_ref
      → Trie digest leaf_table node_store root h
      → ((p : InclusionProof) × (prove_inclusion leaf_table node_store root target ≡ ok p)
          × (prove_exclusion leaf_table node_store root target ≡ err key_present)
          × (p.key ≡ target)
          × (verify_inclusion digest h p
              ≡ ok (record { key = p.key; leaf_ordinal = p.leaf_ordinal; value = p.value })))
        ⊎ ((q : ExclusionProof) × (prove_exclusion leaf_table node_store root target ≡ ok q)
            × (prove_inclusion leaf_table node_store root target ≡ err key_not_found)
            × (q.target_key ≡ target)
            × (verify_exclusion digest h q
                ≡ ok (record {
                  key = q.encountered_key;
                  leaf_ordinal = q.leaf_ordinal;
                  value = q.value;
                })))
  prove-verified leaf_table node_store root target h narrow t =
      let (s, path) =
        prove_path-Search digest leaf_table node_store verify_inclusion_failed target (root + 1)
          root h [] (omega arith) narrow t in
      elim (Bool-cases (s.key == target)) [
        | inl same ↦ inl (
          included leaf_table node_store root target h narrow s path,
          prove_inclusion-met leaf_table node_store root target h narrow s path same,
          prove_exclusion-met leaf_table node_store root target h narrow s path same,
          refl,
          included_verified leaf_table node_store root target h narrow s path same,
        )
        | inr other ↦ inr (
          excluded leaf_table node_store root target h narrow s path,
          prove_exclusion-other leaf_table node_store root target h narrow s path other,
          prove_inclusion-other leaf_table node_store root target h narrow s path other,
          refl,
          excluded_verified leaf_table node_store root target h narrow s path other,
        )
      ]
