-- ===== src/Urkle/Proof/Exclusive.antt =====
-- One key cannot be proved present and absent under one root, nor with two values.
use go_merklelog.Base.{
  ℕ, ◌<◌, ◌^◌, ◌≡◌, ◌⊎◌, inl, inr, refl, sym, ap, subst, ◌∙◌, [], ◌∷◌, ◌++◌, arith,
}
use go_merklelog.Base.Results.{ok}
use go_merklelog.Base.Buffers.{Bytes, put_uint32, put_uint64, uint64, uint64-put_uint64}
use go_merklelog.Urkle.Hash.{leaf_input}
use go_merklelog.Urkle.Proof.{
  InclusionProof, ExclusionProof, Found, verify_inclusion, verify_exclusion,
}
use go_merklelog.Base.Digests.{Collision, append_cancel, digest_binds}
use go_merklelog.Urkle.Proof.Paths.{AllHashes, Above, same_leaf}
use go_merklelog.Urkle.Proof.Accepted.{verify_inclusion-Above, verify_exclusion-Above}
use go_merklelog.Base.Buffers.{uint32, uint32-put_uint32}

module _ (digest : Bytes → Bytes) where
  -- Equal leaf hashes have equal leaves.
  leaf_binds :
      (k o : ℕ) (v : Bytes) (k' o' : ℕ) (v' : Bytes)
      → k < 2 ^ 64
      → k' < 2 ^ 64
      → o < 2 ^ 32
      → o' < 2 ^ 32
      → digest (leaf_input k o v) ≡ digest (leaf_input k' o' v')
      → ((k ≡ k') × (o ≡ o') × (v ≡ v')) ⊎ Collision digest
  unfolding leaf_input put_uint64 put_uint32
  leaf_binds k o v k' o' v' hk hk' ho ho' h =
      elim (digest_binds digest (leaf_input k o v) (leaf_input k' o' v') h) [
        | inr collision ↦ inr collision
        | inl same ↦
            let (_, rest) =
              append_cancel (0 ∷ []) (0 ∷ []) (put_uint64 k ++ put_uint32 o ++ v)
                (put_uint64 k' ++ put_uint32 o' ++ v') refl same in
            let (keys, rest) =
              append_cancel (put_uint64 k) (put_uint64 k') (put_uint32 o ++ v) (put_uint32 o' ++ v')
                refl rest in
            let (ordinals, values) = append_cancel (put_uint32 o) (put_uint32 o') v v' refl rest in
            inl (
              sym (uint64-put_uint64 k hk) ∙ ap uint64 keys ∙ uint64-put_uint64 k' hk',
              sym (uint32-put_uint32 o ho) ∙ ap uint32 ordinals ∙ uint32-put_uint32 o' ho',
              values,
            )
      ]

  -- An accepted inclusion proof and an accepted exclusion proof of one key under one root, with
  -- siblings of 32 bytes and fields of their widths, show two inputs with the same digest.
  pub verify_exclusive :
      (root : Bytes) (p : InclusionProof) (q : ExclusionProof) {found met : Found}
      → AllHashes p.steps
      → AllHashes q.steps
      → p.key < 2 ^ 64
      → q.encountered_key < 2 ^ 64
      → p.leaf_ordinal < 2 ^ 32
      → q.leaf_ordinal < 2 ^ 32
      → q.target_key ≡ p.key
      → verify_inclusion digest root p ≡ ok found
      → verify_exclusion digest root q ≡ ok met
      → Collision digest
  verify_exclusive root p q hp hq kp kq op oq target included excluded =
      let (up, _) = verify_inclusion-Above digest root p hp included in
      let (up', absent, _) = verify_exclusion-Above digest root q hq excluded in
      elim (same_leaf digest p.key p.key p.leaf_ordinal p.value q.encountered_key q.leaf_ordinal
        q.value root up
        (subst
          (λ k. Above digest k (digest (leaf_input q.encountered_key q.leaf_ordinal q.value)) root)
          target up')) [
            | inr collision ↦ collision
            | inl same ↦
                elim (leaf_binds p.key p.leaf_ordinal p.value q.encountered_key q.leaf_ordinal
                  q.value kp kq op oq same) [
                    | inr collision ↦ collision
                    | inl (key, _, _) ↦ absurd (absent (sym (target ∙ key)))
                  ]
          ]

  -- Two accepted inclusion proofs of one key under one root, with siblings of 32 bytes and fields
  -- of their widths, name the same leaf ordinal and value, or show two inputs with the same digest.
  pub verify_inclusion_unique :
      (root : Bytes) (p q : InclusionProof) {found found' : Found}
      → AllHashes p.steps
      → AllHashes q.steps
      → p.key < 2 ^ 64
      → p.leaf_ordinal < 2 ^ 32
      → q.leaf_ordinal < 2 ^ 32
      → q.key ≡ p.key
      → verify_inclusion digest root p ≡ ok found
      → verify_inclusion digest root q ≡ ok found'
      → ((p.leaf_ordinal ≡ q.leaf_ordinal) × (p.value ≡ q.value)) ⊎ Collision digest
  verify_inclusion_unique root p q hp hq kp op oq key included included' =
      let (up, _) = verify_inclusion-Above digest root p hp included in
      let (up', _) = verify_inclusion-Above digest root q hq included' in
      elim (same_leaf digest p.key p.key p.leaf_ordinal p.value q.key q.leaf_ordinal q.value root up
        (subst (λ k. Above digest k (digest (leaf_input q.key q.leaf_ordinal q.value)) root) key
          up')) [
            | inr collision ↦ inr collision
            | inl same ↦
                elim (leaf_binds p.key p.leaf_ordinal p.value q.key q.leaf_ordinal q.value kp
                  (omega (arith, key)) op oq same) [
                    | inr collision ↦ inr collision
                    | inl (_, ordinal, value) ↦ inl (ordinal, value)
                  ]
          ]
