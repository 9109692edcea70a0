-- ===== src/Mmr/Verify/Inclusion.antt =====
-- `VerifyInclusion` on the proofs of `InclusionProof`, against the peaks in the store.
use go_merklelog.Base.{
  ℕ, zero, suc, ◌+◌, ◌≤◌, ◌<◌, ◌≡◌, refl, sym, ap, ◌∙◌, true, false, some, List, [], ◌∷◌, ◌++◌, map,
  length, get_elem?, arith,
}
use go_merklelog.Base.{
  leb, lt→leb, word, sub64, sub64_exact, bytes_equal, bytes_equal_self, if◌then◌else◌, length-map,
  lt-length_of_get_elem?,
}
use mathlib.Core.List.{append-nil, append_assoc}
use go_merklelog.Base.Results.{ok, err}
use go_merklelog.Mmr.Errors.{R, verify_inclusion_failed}
use go_merklelog.Mmr.Hasher.{Bytes}
use go_merklelog.Mmr.Store.{IsMmr, node_at}
use go_merklelog.Mmr.IndexHeight.{index_height}
use go_merklelog.Mmr.Peaks.{copy_of, peaks, peak_hashes_loop, peak_hashes, peak_index, leaf_count}
use go_merklelog.Mmr.Peaks.Complete.{peaks-IsPeak}
use go_merklelog.Mmr.Proof.{inclusion_proof, included_root, included_root_loop}
use go_merklelog.Mmr.Proof.Climb.{IsPeak}
use go_merklelog.Mmr.Proof.Complete.{included_root-inclusion_proof}
use go_merklelog.Mmr.Verify.{index_or_panic, verify_inclusion}

copy_of-whole : (n : ℕ) (b : Bytes) → length b ≡ n → copy_of n b ≡ b
unfolding copy_of
copy_of-whole zero [] e = refl
copy_of-whole zero (x ∷ b) e = absurd (omega arith)
copy_of-whole (suc n) [] e = absurd (omega arith)
copy_of-whole (suc n) (x ∷ b) e = ap (◌∷◌ x) (copy_of-whole n b (omega arith))

pub index_or_panic-map :
    (f : ℕ → Bytes) (l : List ℕ) (j : ℕ) {i : ℕ}
    → get_elem? l j ≡ some i
    → index_or_panic (map f l) j ≡ ok (f i)
index_or_panic-map f [] j e = absurd (ground arith)
index_or_panic-map f (x ∷ l) zero e = ap ok (ap f (ground arith))
index_or_panic-map f (x ∷ l) (suc j) e = index_or_panic-map f l j e

-- What a store of 32 byte values promises about the nodes of a log.
pub record Stored (get : ℕ → R Bytes) (vs : List Bytes) : Type 0 where
  pub read : (j : ℕ) → j < length vs → get j ≡ ok (node_at vs j)
  pub width : (j : ℕ) → j < length vs → length (node_at vs j) ≡ 32

module _ (get : ℕ → R Bytes) (vs : List Bytes) (stored : Stored get vs) where
  hashes_loop-eq :
      (l : List ℕ) (path : List Bytes)
      → ((j i : ℕ) → get_elem? l j ≡ some i → i < length vs)
      → peak_hashes_loop get l path ≡ ok (path ++ map (node_at vs) l)
  unfolding peak_hashes_loop
  hashes_loop-eq [] path inside = ap ok (sym (append-nil path))
  hashes_loop-eq (i ∷ l) path inside =
      let here : i < length vs = inside 0 i refl in
      rw (stored.read i here, copy_of-whole 32 (node_at vs i) (stored.width i here))
        (hashes_loop-eq l (path ++ node_at vs i ∷ []) (λ j k e. inside (suc j) k e)
          ∙ ap ok (append_assoc path (node_at vs i ∷ []) (map (node_at vs) l)))

  module _ (last : ℕ) (fits : last + 2 < word) (size : length vs ≡ last + 1)
      (complete : index_height (last + 1) ≡ 0) where
    -- `PeakHashes` reads the values of the peaks, in their order.
    pub peak_hashes-peaks : peak_hashes get last ≡ ok (map (node_at vs) (peaks last))
    unfolding peak_hashes
    peak_hashes-peaks =
        hashes_loop-eq (peaks last) []
          (λ j i e. omega (arith, size, ((peaks-IsPeak last fits complete i j).0 e).0.inside))

    -- With as many values as the peak is high, a proof is accepted exactly if its root is the
    -- value of the peak.
    pub verify_inclusion-eq :
        (digest : Bytes → Bytes) (t i : ℕ) (value : Bytes) (proof : List Bytes)
        → IsPeak last t
        → length proof ≡ index_height t
        → verify_inclusion digest get (last + 1) value i proof ≡ (
            if bytes_equal (included_root digest i value proof) (node_at vs t)
            then ok true
            else err verify_inclusion_failed)
    unfolding verify_inclusion
    verify_inclusion-eq digest t i value proof peak levels =
        let e : sub64 (last + 1) 1 ≡ last =
          sub64_exact (last + 1) 1 (omega arith) (omega arith) ∙ omega arith in
        let at = peak_index (leaf_count (last + 1)) (index_height t) in
        let place : get_elem? (peaks last) at ≡ some t =
          (peaks-IsPeak last fits complete t at).1 (peak, refl) in
        let inn : leb (length (map (node_at vs) (peaks last))) at ≡ false = lt→leb _ at (
          omega (
            arith,
            length-map (peaks last) (node_at vs),
            lt-length_of_get_elem? (peaks last) at place,
          )) in
        rw
          (e, peak_hashes-peaks, levels, inn, index_or_panic-map (node_at vs) (peaks last) at place)
          refl

    pub verify_inclusion-peak :
        (digest : Bytes → Bytes) (t i : ℕ) (value : Bytes) (proof : List Bytes)
        → IsPeak last t
        → length proof ≡ index_height t
        → included_root digest i value proof ≡ node_at vs t
        → verify_inclusion digest get (last + 1) value i proof ≡ ok true
    verify_inclusion-peak digest t i value proof peak levels root =
        verify_inclusion-eq digest t i value proof peak levels
        ∙ rw (root, bytes_equal_self (node_at vs t)) refl

    -- `VerifyInclusion` accepts the proof that `InclusionProof` returns for any leaf of a complete
    -- well-formed log of 32 byte values.
    pub verify_inclusion-inclusion_proof :
        (digest : Bytes → Bytes) (i : ℕ)
        → IsMmr digest vs
        → i ≤ last
        → index_height i ≡ 0
        → (proof : List Bytes) × (inclusion_proof get last i ≡ ok proof)
          × (verify_inclusion digest get (last + 1) (node_at vs i) i proof ≡ ok true)
    verify_inclusion-inclusion_proof digest i formed inside leaf =
        let (proof, t, made, root, peak, levels) =
          included_root-inclusion_proof last fits digest get vs i size formed complete stored.read
            inside in
        (proof, made, verify_inclusion-peak digest t i (node_at vs i) proof peak (omega arith) root)

    -- Where the last node is a leaf, `VerifyInclusion` accepts its value with an empty proof at
    -- every index: the length of the proof is not compared with the node's place in the log.
    pub verify_inclusion-misplaced :
        (digest : Bytes → Bytes) (i : ℕ)
        → index_height last ≡ 0
        → verify_inclusion digest get (last + 1) (node_at vs last) i [] ≡ ok true
    verify_inclusion-misplaced digest i leaf =
        verify_inclusion-peak digest last i (node_at vs last) []
          (record {
            inside = omega arith;
            no_parent_behind = omega arith;
            no_sibling = rw leaf (omega arith);
          })
          (omega arith) (unfold included_root included_root_loop in refl)
