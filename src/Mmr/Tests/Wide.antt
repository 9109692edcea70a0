-- ===== src/Mmr/Tests/Wide.antt =====
-- The theorems on peaks, verification and consistency, on logs of 32 byte values.
use go_merklelog.Base.{
  ℕ, zero, suc, ◌<◌, ◌≡◌, ◌↔◌, refl, true, List, [], ◌∷◌, map, some, length, get_elem?, arith,
  bytes_equal, add64, sub64, shl64, shr64, ◌⊎◌,
}
use mathlib.Core.List.{reverse}
use go_merklelog.Base.Bits.{len64, ones_count64}
use go_merklelog.Base.Results.{ok}
use go_merklelog.Mmr.Hasher.{Bytes, hash_pos_pair64, sum, write, hash_write_uint64, put_uint64}
use go_merklelog.Mmr.Store.{IsMmr, node_at}
use go_merklelog.Mmr.IndexHeight.{
  index_height, pos_height, pos_height_loop, all_ones, bit_length64, jump_left_perfect,
}
use go_merklelog.Mmr.Peaks.{
  peaks, peaks_loop, top_peak, peak_hashes, peak_hashes_loop, copy_of, peaks_bitmap,
  peaks_bitmap_loop, peak_index, leaf_count,
}
use go_merklelog.Mmr.Peaks.Complete.{peaks-IsPeak, peaks-incomplete}
use go_merklelog.Mmr.Verify.Soundness.{verify_inclusion_binds}
use go_merklelog.Base.Digests.{Collision}
use go_merklelog.Mmr.Proof.{
  inclusion_proof, inclusion_proof_loop, sibling, included_root, included_root_loop,
}
use go_merklelog.Mmr.Proof.Climb.{IsPeak}
use go_merklelog.Mmr.Verify.{get_leaf_proof_root, get_proof_peak_root, verify_inclusion}
use go_merklelog.Mmr.Verify.Inclusion.{
  Stored, peak_hashes-peaks, verify_inclusion-inclusion_proof, verify_inclusion-misplaced,
}
use go_merklelog.Mmr.Verify.Selection.{get_proof_peak_root-peak, get_leaf_proof_root-reverse}
use go_merklelog.Mmr.Consistency.{
  ConsistencyProof, verify_consistency, consistent_roots, roots_loop, scan, ends_with,
}
use go_merklelog.Mmr.Consistency.Accepted.{AllLead, verify_consistency-AllLead}
use go_merklelog.Mmr.Consistency.Dropped.{verify_consistency-dropped}
use go_merklelog.Mmr.Tests.{
  memory_get, memory_get_stored, byte_of, height_0, height_1, height_2, height_3,
}

abbrev zeros : ℕ → Bytes
zeros zero = []
zeros (suc n) = 0 ∷ zeros n

-- a digest of 32 bytes that keeps three
abbrev digest : Bytes → Bytes
digest b = byte_of b 7 ∷ byte_of b 8 ∷ byte_of b 40 ∷ zeros 29

abbrev leaf_0 : Bytes
leaf_0 = 1 ∷ zeros 31

abbrev leaf_1 : Bytes
leaf_1 = 4 ∷ zeros 31

abbrev root : Bytes
root = hash_pos_pair64 digest 3 leaf_0 leaf_1

abbrev three : List Bytes
three = leaf_0 ∷ leaf_1 ∷ root ∷ []

three-IsMmr : IsMmr digest three
three-IsMmr zero h lt e = absurd (omega (arith, height_0))
three-IsMmr (suc zero) h lt e = absurd (omega (arith, height_1))
three-IsMmr (suc (suc zero)) h lt e = let e0 : h ≡ 0 = omega (arith, height_2) in rw e0 refl
three-IsMmr (suc (suc (suc i))) h lt e = absurd (omega arith)

three-Stored : Stored (λ i. memory_get i three) three
unfolding hash_pos_pair64 sum write
three-Stored = record { read = memory_get_stored three; width = widths }
  where
    widths : (j : ℕ) → j < length three → length (node_at three j) ≡ 32
    widths zero h = refl
    widths (suc zero) h = refl
    widths (suc (suc zero)) h = refl
    widths (suc (suc (suc j))) h = absurd (omega arith)

one-Stored : Stored (λ i. memory_get i (leaf_0 ∷ [])) (leaf_0 ∷ [])
one-Stored = record { read = memory_get_stored (leaf_0 ∷ []); width = widths }
  where
    widths : (j : ℕ) → j < 1 → length (node_at (leaf_0 ∷ []) j) ≡ 32
    widths zero h = refl
    widths (suc j) h = absurd (omega arith)

peaks-IsPeak_example :
    (get_elem? (peaks 2) 0 ≡ some 2)
    ↔ (IsPeak 2 2 × (peak_index (leaf_count 3) (index_height 2) ≡ 0))
peaks-IsPeak_example = peaks-IsPeak 2 (omega arith) height_3 2 0

peaks_missing_run : peaks 1 ≡ []
peaks_missing_run = peaks-incomplete 1 (omega arith) (omega (arith, height_2))

peak_hashes-peaks_example :
    peak_hashes (λ i. memory_get i three) 2 ≡ ok (map (node_at three) (peaks 2))
peak_hashes-peaks_example =
    peak_hashes-peaks (λ i. memory_get i three) three three-Stored 2 (omega arith) refl height_3

verify_inclusion-inclusion_proof_example :
    (proof : List Bytes) × (inclusion_proof (λ i. memory_get i three) 2 1 ≡ ok proof)
    × (verify_inclusion digest (λ i. memory_get i three) 3 leaf_1 1 proof ≡ ok true)
verify_inclusion-inclusion_proof_example =
    verify_inclusion-inclusion_proof (λ i. memory_get i three) three three-Stored 2 (omega arith)
      refl height_3 digest 1 three-IsMmr (omega arith) height_1

verify_inclusion-misplaced_example :
    verify_inclusion digest (λ i. memory_get i (leaf_0 ∷ [])) 1 leaf_0 5 [] ≡ ok true
verify_inclusion-misplaced_example =
    verify_inclusion-misplaced (λ i. memory_get i (leaf_0 ∷ [])) (leaf_0 ∷ []) one-Stored 0
      (omega arith) refl height_1 digest 5 height_0

get_proof_peak_root-peak_example :
    get_proof_peak_root 3 1 (map (node_at three) (peaks 2)) 1 ≡ ok root
get_proof_peak_root-peak_example =
    get_proof_peak_root-peak 2 (node_at three) 1 2 1 (omega arith) height_3
      (record {
        inside = omega arith;
        no_parent_behind = omega (arith, height_2, height_3);
        no_sibling = rw height_2 (omega arith);
      })
      (omega (arith, height_1, height_2))

get_leaf_proof_root-reverse_example :
    get_leaf_proof_root (root ∷ leaf_0 ∷ []) [] 4
    ≡ get_proof_peak_root 4 3 (reverse (root ∷ leaf_0 ∷ [])) 0
get_leaf_proof_root-reverse_example =
    get_leaf_proof_root-reverse (root ∷ leaf_0 ∷ []) [] 4 3 height_3

-- the proof that the log of two leaves extends the log of one
abbrev extends : ConsistencyProof
extends = record { mmr_size_a = 1; mmr_size_b = 3; path_bagged = []; path = (leaf_1 ∷ []) ∷ [] }

accepted : verify_consistency digest extends (leaf_0 ∷ []) (root ∷ []) ≡ ok (root ∷ [])
unfolding verify_consistency consistent_roots roots_loop scan ends_with included_root
    included_root_loop peaks peaks_loop top_peak bytes_equal hash_pos_pair64 sum write
    hash_write_uint64 put_uint64 index_height pos_height pos_height_loop all_ones bit_length64
    jump_left_perfect add64 sub64 shl64 len64 ones_count64
accepted = refl

verify_consistency-AllLead_example :
    (root ∷ [] ≡ root ∷ [])
    × AllLead digest (leaf_0 ∷ []) (peaks (sub64 1 1)) ((leaf_1 ∷ []) ∷ []) (root ∷ [])
verify_consistency-AllLead_example =
    verify_consistency-AllLead digest extends (leaf_0 ∷ []) (root ∷ []) accepted

-- the proof that a log of a root and a leaf extends itself
abbrev same_log : ConsistencyProof
same_log = record { mmr_size_a = 4; mmr_size_b = 4; path_bagged = []; path = [] ∷ [] ∷ [] }

accepted_two :
    verify_consistency digest same_log (root ∷ leaf_0 ∷ []) (root ∷ leaf_0 ∷ [])
    ≡ ok (root ∷ leaf_0 ∷ [])
unfolding verify_consistency consistent_roots roots_loop scan ends_with included_root
    included_root_loop peaks peaks_loop top_peak bytes_equal hash_pos_pair64 sum write
    hash_write_uint64 put_uint64 index_height pos_height pos_height_loop all_ones bit_length64
    jump_left_perfect add64 sub64 shl64 len64 ones_count64
accepted_two = refl

verify_consistency-dropped_example :
    verify_consistency digest same_log (root ∷ []) (root ∷ leaf_0 ∷ []) ≡ ok (root ∷ leaf_0 ∷ [])
verify_consistency-dropped_example =
    verify_consistency-dropped digest same_log (root ∷ []) (leaf_0 ∷ []) (root ∷ leaf_0 ∷ [])
      accepted_two

made : inclusion_proof (λ i. memory_get i three) 2 1 ≡ ok (leaf_0 ∷ [])
unfolding inclusion_proof inclusion_proof_loop sibling memory_get index_height pos_height
    pos_height_loop all_ones bit_length64 jump_left_perfect add64 sub64 shl64 len64 ones_count64
made = refl

verified : verify_inclusion digest (λ i. memory_get i three) 3 leaf_1 1 (leaf_0 ∷ []) ≡ ok true
unfolding verify_inclusion included_root included_root_loop peak_hashes peak_hashes_loop copy_of
    peaks peaks_loop top_peak peak_index leaf_count peaks_bitmap peaks_bitmap_loop memory_get
    bytes_equal hash_pos_pair64 sum write hash_write_uint64 put_uint64 index_height pos_height
    pos_height_loop all_ones bit_length64 jump_left_perfect add64 sub64 shl64 shr64 len64
    ones_count64
verified = refl

verify_inclusion_binds_example :
    ((leaf_1 ≡ leaf_1) × (leaf_0 ∷ [] ≡ leaf_0 ∷ [])) ⊎ Collision digest
verify_inclusion_binds_example =
    verify_inclusion_binds (λ i. memory_get i three) three three-Stored 2 (omega arith) refl
      height_3 digest 1 leaf_1 (leaf_0 ∷ []) (leaf_0 ∷ []) (λ b. refl) three-IsMmr (omega arith)
      height_1 refl (refl, tt) made refl verified
