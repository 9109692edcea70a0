-- ===== src/Mmr/Verify.antt =====
-- mmr/verify.go and the peak selection of mmr/proof.go: verification of inclusion proofs against
-- the peaks of a log. A slice index out of range panics.
pub mod Inclusion
pub mod Selection
pub mod Soundness
use go_merklelog.Base.{
  ℕ, zero, suc, ◌+◌, ◌-◌, ◌<◌, Bool, true, false, ◌&&◌, Option, none, some, List, [], ◌∷◌, length,
  get_elem?,
}
use go_merklelog.Base.{ltb, leb, ◌==◌, if◌then◌else◌, bytes_equal, add64, sub64, shl64}
use go_merklelog.Base.Results.{ok, err, panic, ◌>>=◌}
use go_merklelog.Mmr.Errors.{R, peak_list_too_short, verify_inclusion_failed}
use go_merklelog.Mmr.Hasher.{Bytes, hash_pos_pair64}
use go_merklelog.Mmr.IndexHeight.{pos_height, index_height}
use go_merklelog.Mmr.Peaks.{peak_hashes, peak_index, leaf_count, peaks_bitmap}
use go_merklelog.Mmr.Proof.{included_root}

-- `xs[i]`
abbrev pub index_or_panic : List Bytes → ℕ → R Bytes
index_or_panic [] i = panic
index_or_panic (x ∷ xs) zero = ok x
index_or_panic (x ∷ xs) (suc i) = index_or_panic xs i

unfoldable pub get_proof_peak_index : ℕ → ℕ → ℕ → ℕ
get_proof_peak_index mmr_size d height_index = peak_index (peaks_bitmap mmr_size) (height_index + d)

-- `uint8(heightIndex)` keeps the height, which is below 64.
unfoldable pub get_proof_peak_root : ℕ → ℕ → List Bytes → ℕ → R Bytes
get_proof_peak_root mmr_size mmr_index peak_hashes proof_len =
    let at = get_proof_peak_index mmr_size proof_len (index_height mmr_index) in
    if leb (length peak_hashes) at then err peak_list_too_short else index_or_panic peak_hashes at

unfoldable pub get_leaf_proof_root : List Bytes → List Bytes → ℕ → R Bytes
get_leaf_proof_root peak_hashes proof mmr_size =
    let at = get_proof_peak_index mmr_size (length proof) 0 in
    if leb (length peak_hashes) at
    then err peak_list_too_short
    else index_or_panic peak_hashes (length peak_hashes - at - 1)

-- A root that differs, and a peak index out of range, are both `ErrVerifyInclusionFailed`.
unfoldable pub verify_inclusion :
    (Bytes → Bytes) → (ℕ → R Bytes) → ℕ → Bytes → ℕ → List Bytes → R Bool
verify_inclusion digest get mmr_size leaf_hash i_node proof =
    peak_hashes get (sub64 mmr_size 1) >>= λ peaks.
    let ipeak = peak_index (leaf_count mmr_size) (length proof) in
    if leb (length peaks) ipeak
    then err verify_inclusion_failed
    else index_or_panic peaks ipeak >>= λ peak.
        if bytes_equal (included_root digest i_node leaf_hash proof) peak
        then ok true
        else err verify_inclusion_failed

-- the result of `VerifyInclusionPath`: whether the root was met, and how much of the proof it took
pub record PathResult : Type 0 where
  pub verified : Bool
  pub used : ℕ

-- the loop of `VerifyInclusionPath`; `i_proof` counts the values that are used up
unfoldable pub verify_path_loop :
    (Bytes → Bytes) → ℕ → ℕ → Bytes → List Bytes → Bytes → ℕ → PathResult
verify_path_loop digest pos height_index element_hash [] root i_proof = record {
  verified = false;
  used = i_proof;
}
verify_path_loop digest pos height_index element_hash (p ∷ proof) root i_proof =
    let right = ltb height_index (pos_height (add64 pos 1)) in
    let pos' = if right then add64 pos 1 else add64 pos (shl64 2 height_index) in
    let element_hash' =
      if right
      then hash_pos_pair64 digest pos' p element_hash
      else hash_pos_pair64 digest pos' element_hash p in
    let rest =
      verify_path_loop digest pos' (height_index + 1) element_hash' proof root (i_proof + 1) in
    if bytes_equal element_hash' root then record { verified = true; used = i_proof + 1 } else rest

unfoldable pub verify_inclusion_path : (Bytes → Bytes) → Bytes → ℕ → List Bytes → Bytes → PathResult
verify_inclusion_path digest leaf_hash i_node proof root =
    if length proof == 0 && bytes_equal leaf_hash root
    then record { verified = true; used = 0 }
    else verify_path_loop digest (add64 i_node 1) (pos_height (add64 i_node 1)) leaf_hash proof root
        0
