-- ===== src/Mmr/Verify/Soundness.antt =====
-- What an accepted inclusion proof shows: `VerifyInclusion` binds the value and the proof.
use go_merklelog.Base.{
  ℕ, ◌+◌, ◌≤◌, ◌<◌, ◌≡◌, ◌⊎◌, inl, inr, sym, ap, subst, ◌∙◌, true, List, map, length, arith,
}
use go_merklelog.Base.{Bool-cases, word, bytes_equal, eq_of_bytes_equal}
use go_merklelog.Base.Results.{ok, ok_inj, err_not_ok}
use go_merklelog.Mmr.Errors.{R}
use go_merklelog.Mmr.Hasher.{Bytes}
use go_merklelog.Mmr.Store.{IsMmr, node_at}
use go_merklelog.Mmr.IndexHeight.{index_height}
use go_merklelog.Mmr.Proof.{inclusion_proof, included_root}
use go_merklelog.Mmr.Proof.Climb.{Climb, IsPeak, top, from_right, from_left}
use go_merklelog.Mmr.Proof.Complete.{
  included_root-inclusion_proof, inclusion_proof_path-Climb, inclusion_proof-values,
}
use go_merklelog.Mmr.Proof.Binding.{AllSized, included_root_binds}
use go_merklelog.Base.Digests.{Collision}
use go_merklelog.Mmr.Verify.{verify_inclusion}
use go_merklelog.Mmr.Verify.Inclusion.{Stored, verify_inclusion-eq}

-- The siblings on a climb are in the log.
siblings-AllSized :
    (last n : ℕ) (vs : List Bytes) {i t : ℕ} {path : List ℕ}
    → ((j : ℕ) → j ≤ last → length (node_at vs j) ≡ n)
    → Climb last i path t
    → AllSized n (map (node_at vs) path)
siblings-AllSized last n vs width (top p) = tt
siblings-AllSized last n vs width (from_right up es below c) =
    (width _ (omega arith), siblings-AllSized last n vs width c)
siblings-AllSized last n vs width (from_left low eu es up below c) =
    (width _ (omega arith), siblings-AllSized last n vs width c)

module _ (get : ℕ → R Bytes) (vs : List Bytes) (stored : Stored get vs) (last : ℕ)
    (fits : last + 2 < word) (size : length vs ≡ last + 1) (complete : index_height (last + 1) ≡ 0)
    (digest : Bytes → Bytes) where
  root_of_verified :
      (t i : ℕ) (value : Bytes) (proof : List Bytes)
      → IsPeak last t
      → length proof ≡ index_height t
      → verify_inclusion digest get (last + 1) value i proof ≡ ok true
      → included_root digest i value proof ≡ node_at vs t
  root_of_verified t i value proof peak levels verified =
      let root = included_root digest i value proof in
      let e =
        sym (
          verify_inclusion-eq get vs stored last fits size complete digest t i value proof peak
            levels)
        ∙ verified in
      elim (Bool-cases (bytes_equal root (node_at vs t))) [
        | inl same ↦ eq_of_bytes_equal root (node_at vs t) same
        | inr other ↦ absurd (err_not_ok (rw other at e))
      ]

  -- Of a well-formed complete log of 32 byte values, with a digest of 32 bytes: a value and a
  -- proof of 32 byte values, as long as the proof of `InclusionProof`, that `VerifyInclusion`
  -- accepts for a leaf are the leaf's value and that proof, or two inputs have the same digest.
  pub verify_inclusion_binds :
      (i : ℕ) (value : Bytes) (proof honest : List Bytes)
      → ((b : Bytes) → length (digest b) ≡ 32)
      → IsMmr digest vs
      → i ≤ last
      → index_height i ≡ 0
      → length value ≡ 32
      → AllSized 32 proof
      → inclusion_proof get last i ≡ ok honest
      → length proof ≡ length honest
      → verify_inclusion digest get (last + 1) value i proof ≡ ok true
      → ((value ≡ node_at vs i) × (proof ≡ honest)) ⊎ Collision digest
  verify_inclusion_binds i value proof honest sized formed inside leaf hv hp made levels verified =
      let width : (j : ℕ) → j ≤ last → length (node_at vs j) ≡ 32 =
        λ j le. stored.width j (omega (arith, size)) in
      let (path, t, _, c, climbed) = inclusion_proof_path-Climb last fits complete i inside in
      let values = inclusion_proof-values last fits get vs size stored.read c in
      let same : map (node_at vs) path ≡ honest = ok_inj (sym values ∙ made) in
      let (proof', t', made', root', peak', levels') =
        included_root-inclusion_proof last fits digest get vs i size formed complete stored.read
          inside in
      let same' : proof' ≡ honest = ok_inj (sym made' ∙ made) in
      let long : length proof ≡ index_height t' = omega (arith, ap length same') in
      let root = root_of_verified t' i value proof peak' long verified in
      included_root_binds digest 32 sized i value (node_at vs i) proof honest hv (width i inside) hp
        (subst (AllSized 32) same (siblings-AllSized last 32 vs width c)) levels
        (root ∙ sym root' ∙ ap (included_root digest i (node_at vs i)) same')
