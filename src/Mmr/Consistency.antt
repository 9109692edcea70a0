-- ===== src/Mmr/Consistency.antt =====
-- mmr/proofofconsistency.go, mmr/consistentroots.go and mmr/verifyconsistency.go: proofs that one
-- log extends another. A slice index out of range panics.
pub mod Accepted
pub mod Dropped
use go_merklelog.Base.{ℕ, ◌+◌, Bool, true, false, List, [], ◌∷◌, ◌++◌, length}
use go_merklelog.Base.{◌==◌, if◌then◌else◌, bytes_equal, add64, sub64}
use go_merklelog.Base.Results.{ok, err, panic, ◌>>=◌}
use go_merklelog.Mmr.Errors.{R, accumulator_proof_len, consistency_check}
use go_merklelog.Mmr.Hasher.{Bytes}
use go_merklelog.Mmr.Peaks.{peaks, peak_hashes}
use go_merklelog.Mmr.Proof.{inclusion_proof, included_root}

pub record ConsistencyProof : Type 0 where
  pub mmr_size_a : ℕ
  pub mmr_size_b : ℕ
  pub path_bagged : List Bytes
  pub path : List (List Bytes)

-- the loop over the peaks of the earlier log
unfoldable pub peak_proofs : (ℕ → R Bytes) → ℕ → List ℕ → List (List Bytes) → R (List (List Bytes))
peak_proofs get mmr_index_b [] path = ok path
peak_proofs get mmr_index_b (i_peak ∷ rest) path =
    inclusion_proof get mmr_index_b i_peak >>= λ proof.
    peak_proofs get mmr_index_b rest (path ++ proof ∷ [])

unfoldable pub index_consistency_proof : (ℕ → R Bytes) → ℕ → ℕ → R ConsistencyProof
index_consistency_proof get mmr_index_a mmr_index_b =
    peak_proofs get mmr_index_b (peaks mmr_index_a) [] >>= λ path. ok (record {
      mmr_size_a = add64 mmr_index_a 1;
      mmr_size_b = add64 mmr_index_b 1;
      path_bagged = [];
      path = path;
    })

-- `len(roots) > 0 && bytes.Equal(roots[len(roots)-1], root)`
unfoldable pub ends_with : List Bytes → Bytes → Bool
ends_with [] root = false
ends_with (x ∷ []) root = bytes_equal x root
ends_with (x ∷ y ∷ roots) root = ends_with (y ∷ roots) root

-- the loop of `ConsistentRoots`: `frompeaks[i]` and `proofs[i]` are the heads of the lists left
unfoldable pub roots_loop :
    (Bytes → Bytes) → List Bytes → List ℕ → List (List Bytes) → List Bytes → R (List Bytes)
roots_loop digest [] frompeaks proofs roots = ok roots
roots_loop digest (node ∷ accumulator) [] proofs roots = panic
roots_loop digest (node ∷ accumulator) (peak ∷ frompeaks) [] roots = panic
roots_loop digest (node ∷ accumulator) (peak ∷ frompeaks) (proof ∷ proofs) roots =
    let root = included_root digest peak node proof in
    roots_loop digest accumulator frompeaks proofs
      (if ends_with roots root then roots else roots ++ root ∷ [])

unfoldable pub consistent_roots :
    (Bytes → Bytes) → ℕ → List Bytes → List (List Bytes) → R (List Bytes)
consistent_roots digest ifrom accumulator_from proofs =
    let frompeaks = peaks ifrom in
    if length frompeaks == length proofs
    then roots_loop digest accumulator_from frompeaks proofs []
    else err accumulator_proof_len

-- the scan of `VerifyConsistency`: the list of peaks left begins at `peaksTo[ito]`
unfoldable pub scan : List Bytes → List Bytes → R (Unit {0})
scan peaks_left [] = ok tt
scan [] (root ∷ proven) = panic
scan (peak ∷ []) (root ∷ proven) = elim (bytes_equal peak root) [
  | true ↦ scan (peak ∷ []) proven
  | false ↦ err consistency_check
]
scan (peak ∷ next ∷ peaks_left) (root ∷ proven) = elim (bytes_equal peak root) [
  | true ↦ scan (peak ∷ next ∷ peaks_left) proven
  | false ↦ elim (bytes_equal next root) [
    | true ↦ scan (next ∷ peaks_left) proven
    | false ↦ err consistency_check
  ]
]

-- `ok peaks` is `(true, peaks, nil)`.
unfoldable pub verify_consistency :
    (Bytes → Bytes) → ConsistencyProof → List Bytes → List Bytes → R (List Bytes)
verify_consistency digest cp peaks_from peaks_to =
    consistent_roots digest (sub64 cp.mmr_size_a 1) peaks_from cp.path >>= λ proven.
    scan peaks_to proven >>= λ _. ok peaks_to

unfoldable pub check_consistency :
    (Bytes → Bytes) → (ℕ → R Bytes) → ℕ → ℕ → List Bytes → R (List Bytes)
check_consistency digest get mmr_size_a mmr_size_b peak_hashes_a =
    index_consistency_proof get (sub64 mmr_size_a 1) (sub64 mmr_size_b 1) >>= λ cp.
    peak_hashes get (sub64 cp.mmr_size_b 1) >>= λ peak_hashes_b.
    verify_consistency digest cp peak_hashes_a peak_hashes_b
