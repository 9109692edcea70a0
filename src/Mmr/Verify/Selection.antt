-- ===== src/Mmr/Verify/Selection.antt =====
-- `GetProofPeakRoot` and `GetLeafProofRoot`: which peak a proof leads to.
use go_merklelog.Base.{
  ℕ, zero, suc, ◌+◌, ◌-◌, ◌<◌, ◌≡◌, inl, inr, refl, sym, ap, ◌∙◌, false, some, List, [], ◌∷◌, ◌++◌,
  map, length, get_elem?, arith,
}
use go_merklelog.Base.{
  leb, lt→leb, leb→lt, Bool-cases, word, length-map, length-append, lt-length_of_get_elem?,
}
use mathlib.Core.List.{reverse, reverse-append}
use go_merklelog.Base.Results.{ok}
use go_merklelog.Mmr.Hasher.{Bytes}
use go_merklelog.Mmr.IndexHeight.{index_height}
use go_merklelog.Mmr.Peaks.{peaks, peak_index, leaf_count}
use go_merklelog.Mmr.Peaks.Complete.{peaks-IsPeak}
use go_merklelog.Mmr.Proof.Climb.{IsPeak}
use go_merklelog.Mmr.Verify.{
  index_or_panic, get_proof_peak_index, get_proof_peak_root, get_leaf_proof_root,
}
use go_merklelog.Mmr.Verify.Inclusion.{index_or_panic-map}

-- On a complete log, with the values of its peaks in the order of `Peaks`, `GetProofPeakRoot` of
-- a node and the length of its proof is the value of the peak that is as much higher.
pub get_proof_peak_root-peak :
    (last : ℕ) (f : ℕ → Bytes) (i t d : ℕ)
    → last + 2 < word
    → index_height (last + 1) ≡ 0
    → IsPeak last t
    → d + index_height i ≡ index_height t
    → get_proof_peak_root (last + 1) i (map f (peaks last)) d ≡ ok (f t)
unfolding get_proof_peak_root get_proof_peak_index leaf_count
get_proof_peak_root-peak last f i t d fits complete peak levels =
    let at = peak_index (leaf_count (last + 1)) (index_height t) in
    let place : get_elem? (peaks last) at ≡ some t =
      (peaks-IsPeak last fits complete t at).1 (peak, refl) in
    let same : index_height i + d ≡ index_height t = omega arith in
    let inn : leb (length (map f (peaks last))) at ≡ false =
      lt→leb _ at
        (omega (arith, length-map (peaks last) f, lt-length_of_get_elem? (peaks last) at place)) in
    rw (same, inn) (index_or_panic-map f (peaks last) at place)

index_or_panic-append_left :
    (xs ys : List Bytes) (j : ℕ) → j < length xs → index_or_panic (xs ++ ys) j ≡ index_or_panic xs j
index_or_panic-append_left [] ys j h = absurd (omega arith)
index_or_panic-append_left (x ∷ xs) ys zero h = refl
index_or_panic-append_left (x ∷ xs) ys (suc j) h = index_or_panic-append_left xs ys j (omega arith)

index_or_panic-append_last :
    (xs : List Bytes) (y : Bytes) (j : ℕ) → j ≡ length xs → index_or_panic (xs ++ y ∷ []) j ≡ ok y
index_or_panic-append_last [] y zero h = refl
index_or_panic-append_last [] y (suc j) h = absurd (omega arith)
index_or_panic-append_last (x ∷ xs) y zero h = absurd (omega arith)
index_or_panic-append_last (x ∷ xs) y (suc j) h = index_or_panic-append_last xs y j (omega arith)

length-reverse : (xs : List Bytes) → length (reverse xs) ≡ length xs
length-reverse [] = refl
length-reverse (x ∷ xs) =
    ap length (reverse-append (x ∷ []) xs)
    ∙ length-append (reverse xs) (x ∷ [])
    ∙ omega (arith, length-reverse xs)

index_or_panic-reverse :
    (xs : List Bytes) (j k : ℕ)
    → j + k + 1 ≡ length xs
    → index_or_panic (reverse xs) j ≡ index_or_panic xs k
index_or_panic-reverse [] j k h = absurd (omega arith)
index_or_panic-reverse (x ∷ xs) j zero h =
    ap (λ l. index_or_panic l j) (reverse-append (x ∷ []) xs)
    ∙ index_or_panic-append_last (reverse xs) x j (omega (arith, length-reverse xs))
index_or_panic-reverse (x ∷ xs) j (suc k) h =
    ap (λ l. index_or_panic l j) (reverse-append (x ∷ []) xs)
    ∙ index_or_panic-append_left (reverse xs) (x ∷ []) j (omega (arith, length-reverse xs))
    ∙ index_or_panic-reverse xs j k (omega arith)

-- `GetLeafProofRoot` takes the list of peak values from the other end than `GetProofPeakRoot`:
-- for every leaf, proof and log size, and every list, it is `GetProofPeakRoot` of the reverse.
pub get_leaf_proof_root-reverse :
    (hashes proof : List Bytes) (mmr_size i : ℕ)
    → index_height i ≡ 0
    → get_leaf_proof_root hashes proof mmr_size
      ≡ get_proof_peak_root mmr_size i (reverse hashes) (length proof)
unfolding get_leaf_proof_root get_proof_peak_root
get_leaf_proof_root-reverse hashes proof mmr_size i leaf =
    let at = get_proof_peak_index mmr_size (length proof) 0 in
    rw (leaf, length-reverse hashes)
      (elim (Bool-cases (leb (length hashes) at)) [
        | inl short ↦ rw short refl
        | inr inn ↦ rw inn (
            sym (
              index_or_panic-reverse hashes at (length hashes - at - 1)
                (omega (arith, leb→lt (length hashes) at inn))))
      ])
