-- ===== src/Mmr/Consistency/Dropped.antt =====
-- What VerifyConsistency (mmr/verifyconsistency.go) does not compare.
use go_merklelog.Base.{ℕ, ◌≡◌, inl, inr, refl, sym, ap, ◌∙◌, List, [], ◌∷◌, ◌++◌, length, arith}
use go_merklelog.Base.{◌==◌, if◌then◌else◌, Bool-cases, sub64, bytes_equal}
use go_merklelog.Base.Results.{ok, ◌>>=◌, ok_inj, err_not_ok, eq-ok_of_bind}
use mathlib.Core.List.{append-nil, append_assoc}
use go_merklelog.Mmr.Hasher.{Bytes}
use go_merklelog.Mmr.Peaks.{peaks}
use go_merklelog.Mmr.Proof.{included_root}
use go_merklelog.Mmr.Consistency.{
  ConsistencyProof, ends_with, roots_loop, consistent_roots, scan, verify_consistency,
}

-- The loop keeps the roots that it was given, in front.
roots_loop-front :
    (digest : Bytes → Bytes) (accumulator : List Bytes) (frompeaks : List ℕ)
    (proofs : List (List Bytes)) (roots : List Bytes) {proven : List Bytes}
    → roots_loop digest accumulator frompeaks proofs roots ≡ ok proven
    → (more : List Bytes) × (proven ≡ roots ++ more)
unfolding roots_loop
roots_loop-front digest [] frompeaks proofs roots e = ([], sym (ok_inj e) ∙ sym (append-nil roots))
roots_loop-front digest (node ∷ accumulator) [] proofs roots e = absurd (ground arith)
roots_loop-front digest (node ∷ accumulator) (peak ∷ frompeaks) [] roots e = absurd (ground arith)
roots_loop-front digest (node ∷ accumulator) (peak ∷ frompeaks) (proof ∷ proofs) roots e =
    let root = included_root digest peak node proof in
    elim (Bool-cases (ends_with roots root)) [
      | inl again ↦
          roots_loop-front digest accumulator frompeaks proofs roots (rw (again, roots_loop) at e)
      | inr new ↦
          let (more, split) =
            roots_loop-front digest accumulator frompeaks proofs (roots ++ root ∷ [])
              (rw (new, roots_loop) at e) in
          (root ∷ more, split ∙ append_assoc roots (root ∷ []) more)
    ]

-- The first peaks of an accumulator give the first of its roots.
roots_loop-first :
    (digest : Bytes → Bytes) (first dropped : List Bytes) (frompeaks : List ℕ)
    (proofs : List (List Bytes)) (roots : List Bytes) {proven : List Bytes}
    → roots_loop digest (first ++ dropped) frompeaks proofs roots ≡ ok proven
    → (kept : List Bytes) × (more : List Bytes) × (roots_loop digest first frompeaks proofs roots
        ≡ ok kept)
      × (proven ≡ kept ++ more)
unfolding roots_loop
roots_loop-first digest [] dropped frompeaks proofs roots e =
    let (more, split) = roots_loop-front digest dropped frompeaks proofs roots e in
    (roots, more, refl, split)
roots_loop-first digest (node ∷ first) dropped [] proofs roots e = absurd (ground arith)
roots_loop-first digest (node ∷ first) dropped (peak ∷ frompeaks) [] roots e = absurd (ground arith)
roots_loop-first digest (node ∷ first) dropped (peak ∷ frompeaks) (proof ∷ proofs) roots e =
    roots_loop-first digest first dropped frompeaks proofs
      (let root = included_root digest peak node proof in
        if ends_with roots root then roots else roots ++ root ∷ [])
      e

-- A scan that passes passes the first of its roots.
scan-first :
    (values kept more : List Bytes) → scan values (kept ++ more) ≡ ok tt → scan values kept ≡ ok tt
unfolding scan
scan-first values [] more e = refl
scan-first [] (root ∷ kept) more e = absurd (ground arith)
scan-first (peak ∷ []) (root ∷ kept) more e = elim (Bool-cases (bytes_equal peak root)) [
  | inl same ↦ rw (same, scan) (scan-first (peak ∷ []) kept more (rw (same, scan) at e))
  | inr other ↦ absurd (err_not_ok (rw (other, scan) at e))
]
scan-first (peak ∷ next ∷ left) (root ∷ kept) more e = elim (Bool-cases (bytes_equal peak root)) [
  | inl same ↦ rw (same, scan) (scan-first (peak ∷ next ∷ left) kept more (rw (same, scan) at e))
  | inr other ↦ elim (Bool-cases (bytes_equal next root)) [
    | inl same ↦
        rw (other, same, scan) (scan-first (next ∷ left) kept more (rw (other, same, scan) at e))
    | inr neither ↦ absurd (err_not_ok (rw (other, neither, scan) at e))
  ]
]

consistent_roots-first :
    (digest : Bytes → Bytes) (ifrom : ℕ) (first dropped : List Bytes) (proofs : List (List Bytes))
    {proven : List Bytes}
    → consistent_roots digest ifrom (first ++ dropped) proofs ≡ ok proven
    → (kept : List Bytes) × (more : List Bytes) × (consistent_roots digest ifrom first proofs
        ≡ ok kept)
      × (proven ≡ kept ++ more)
unfolding consistent_roots
consistent_roots-first digest ifrom first dropped proofs e =
    elim (Bool-cases (length (peaks ifrom) == length proofs)) [
      | inl same ↦
          let (kept, more, found, split) =
            roots_loop-first digest first dropped (peaks ifrom) proofs [] (rw same at e) in
          (kept, more, rw same found, split)
      | inr other ↦ absurd (err_not_ok (rw other at e))
    ]

-- An accepted consistency proof is accepted, with the same result, when any number of the given
-- peaks of the earlier log is dropped from the end: their count is not compared with the log's.
pub verify_consistency-dropped :
    (digest : Bytes → Bytes) (cp : ConsistencyProof) (first dropped peaks_to : List Bytes)
    {result : List Bytes}
    → verify_consistency digest cp (first ++ dropped) peaks_to ≡ ok result
    → verify_consistency digest cp first peaks_to ≡ ok result
unfolding verify_consistency
verify_consistency-dropped digest cp first dropped peaks_to e =
    let from = sub64 cp.mmr_size_a 1 in
    let (proven, made, rest) =
      eq-ok_of_bind (consistent_roots digest from (first ++ dropped) cp.path)
        (λ l. scan peaks_to l >>= λ _. ok peaks_to) e in
    let (_, scanned, same) = eq-ok_of_bind (scan peaks_to proven) (λ _. ok peaks_to) rest in
    let (kept, more, found, split) =
      consistent_roots-first digest from first dropped cp.path made in
    let passed = scan-first peaks_to kept more (ap (scan peaks_to) (sym split) ∙ scanned) in
    rw (found, ◌>>=◌) (rw (passed, ◌>>=◌) same)
