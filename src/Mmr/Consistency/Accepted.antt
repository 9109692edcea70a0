-- ===== src/Mmr/Consistency/Accepted.antt =====
-- What an accepted consistency proof shows, and what it does not.
use go_merklelog.Base.{ℕ, ◌≡◌, ◌⊎◌, inl, inr, sym, subst, true, List, [], ◌∷◌, ◌++◌, length, arith}
use go_merklelog.Base.{◌==◌, Bool-cases, sub64, bytes_equal, eq_of_bytes_equal}
use go_merklelog.Base.Results.{ok, ◌>>=◌, ok_inj, err_not_ok, eq-ok_of_bind}
use go_merklelog.Mmr.Hasher.{Bytes}
use go_merklelog.Mmr.Peaks.{peaks}
use go_merklelog.Mmr.Proof.{included_root}
use go_merklelog.Mmr.Consistency.{
  ConsistencyProof, ends_with, roots_loop, consistent_roots, scan, verify_consistency,
}

-- `v` is one of the values.
abbrev pub OneOf : Bytes → List Bytes → Type 0
OneOf v [] = ⊥
OneOf v (x ∷ xs) = (v ≡ x) ⊎ OneOf v xs

-- Every node of the accumulator leads, by its proof, from its peak's index to one of the values.
abbrev pub AllLead : (Bytes → Bytes) → List Bytes → List ℕ → List (List Bytes) → List Bytes → Type 0
AllLead digest [] frompeaks proofs values = Unit {0}
AllLead digest (node ∷ accumulator) [] proofs values = ⊥
AllLead digest (node ∷ accumulator) (peak ∷ frompeaks) [] values = ⊥
AllLead digest (node ∷ accumulator) (peak ∷ frompeaks) (proof ∷ proofs) values =
    OneOf (included_root digest peak node proof) values
    × AllLead digest accumulator frompeaks proofs values

abbrev AllOneOf : List Bytes → List Bytes → Type 0
AllOneOf [] values = Unit {0}
AllOneOf (x ∷ xs) values = OneOf x values × AllOneOf xs values

OneOf-ends_with :
    (roots values : List Bytes) (root : Bytes)
    → ends_with roots root ≡ true
    → AllOneOf roots values
    → OneOf root values
unfolding ends_with
OneOf-ends_with [] values root e all = absurd (ground arith)
OneOf-ends_with (x ∷ []) values root e (first, _) =
    subst (λ v. OneOf v values) (eq_of_bytes_equal x root e) first
OneOf-ends_with (x ∷ y ∷ roots) values root e (first, rest) =
    OneOf-ends_with (y ∷ roots) values root e rest

AllOneOf-left : (xs ys values : List Bytes) → AllOneOf (xs ++ ys) values → AllOneOf xs values
AllOneOf-left [] ys values all = tt
AllOneOf-left (x ∷ xs) ys values (first, rest) = (first, AllOneOf-left xs ys values rest)

AllOneOf-last :
    (xs values : List Bytes) (y : Bytes) → AllOneOf (xs ++ y ∷ []) values → OneOf y values
AllOneOf-last [] values y (first, _) = first
AllOneOf-last (x ∷ xs) values y (first, rest) = AllOneOf-last xs values y rest

-- What the loop collects holds every root that it computed.
roots_loop-AllLead :
    (digest : Bytes → Bytes) (accumulator : List Bytes) (frompeaks : List ℕ)
    (proofs : List (List Bytes)) (roots values : List Bytes) {proven : List Bytes}
    → roots_loop digest accumulator frompeaks proofs roots ≡ ok proven
    → AllOneOf proven values
    → AllOneOf roots values × AllLead digest accumulator frompeaks proofs values
unfolding roots_loop
roots_loop-AllLead digest [] frompeaks proofs roots values e all =
    (subst (λ l. AllOneOf l values) (sym (ok_inj e)) all, tt)
roots_loop-AllLead digest (node ∷ accumulator) [] proofs roots values e all = absurd (ground arith)
roots_loop-AllLead digest (node ∷ accumulator) (peak ∷ frompeaks) [] roots values e all =
    absurd (ground arith)
roots_loop-AllLead digest (node ∷ accumulator) (peak ∷ frompeaks) (proof ∷ proofs) roots values e
      all =
    let root = included_root digest peak node proof in
    elim (Bool-cases (ends_with roots root)) [
      | inl again ↦
          let rest =
            roots_loop-AllLead digest accumulator frompeaks proofs roots values
              (rw (again, roots_loop) at e) all in
          (rest.0, (OneOf-ends_with roots values root again rest.0, rest.1))
      | inr new ↦
          let rest =
            roots_loop-AllLead digest accumulator frompeaks proofs (roots ++ root ∷ []) values
              (rw (new, roots_loop) at e) all in
          (
            AllOneOf-left roots (root ∷ []) values rest.0,
            (AllOneOf-last roots values root rest.0, rest.1),
          )
    ]

AllOneOf-widen :
    (x : Bytes) (proven values : List Bytes) → AllOneOf proven values → AllOneOf proven (x ∷ values)
AllOneOf-widen x [] values all = tt
AllOneOf-widen x (root ∷ proven) values (first, rest) =
    (inr first, AllOneOf-widen x proven values rest)

-- The scan passes only roots that are peaks.
scan-AllOneOf : (values proven : List Bytes) → scan values proven ≡ ok tt → AllOneOf proven values
unfolding scan
scan-AllOneOf values [] e = tt
scan-AllOneOf [] (root ∷ proven) e = absurd (ground arith)
scan-AllOneOf (peak ∷ []) (root ∷ proven) e = elim (Bool-cases (bytes_equal peak root)) [
  | inl same ↦ (
    inl (sym (eq_of_bytes_equal peak root same)),
    scan-AllOneOf (peak ∷ []) proven (rw (same, scan) at e),
  )
  | inr other ↦ absurd (err_not_ok (rw (other, scan) at e))
]
scan-AllOneOf (peak ∷ next ∷ left) (root ∷ proven) e = elim (Bool-cases (bytes_equal peak root)) [
  | inl same ↦ (
    inl (sym (eq_of_bytes_equal peak root same)),
    scan-AllOneOf (peak ∷ next ∷ left) proven (rw (same, scan) at e),
  )
  | inr other ↦ elim (Bool-cases (bytes_equal next root)) [
    | inl same ↦ (
      inr (inl (sym (eq_of_bytes_equal next root same))),
      AllOneOf-widen peak proven (next ∷ left)
          (scan-AllOneOf (next ∷ left) proven (rw (other, same, scan) at e)),
    )
    | inr neither ↦ absurd (err_not_ok (rw (other, neither, scan) at e))
  ]
]

consistent_roots-AllLead :
    (digest : Bytes → Bytes) (ifrom : ℕ) (accumulator : List Bytes) (proofs : List (List Bytes))
    (values : List Bytes) {proven : List Bytes}
    → consistent_roots digest ifrom accumulator proofs ≡ ok proven
    → AllOneOf proven values
    → AllLead digest accumulator (peaks ifrom) proofs values
unfolding consistent_roots
consistent_roots-AllLead digest ifrom accumulator proofs values e all =
    elim (Bool-cases (length (peaks ifrom) == length proofs)) [
      | inl same ↦
          (roots_loop-AllLead digest accumulator (peaks ifrom) proofs [] values (rw same at e)
            all).1
      | inr other ↦ absurd (err_not_ok (rw other at e))
    ]

-- An accepted consistency proof leads every given peak of the earlier log, from its index, to one
-- of the peaks of the later log, and returns these.
pub verify_consistency-AllLead :
    (digest : Bytes → Bytes) (cp : ConsistencyProof) (peaks_from peaks_to : List Bytes)
    {result : List Bytes}
    → verify_consistency digest cp peaks_from peaks_to ≡ ok result
    → (result ≡ peaks_to)
      × AllLead digest peaks_from (peaks (sub64 cp.mmr_size_a 1)) cp.path peaks_to
unfolding verify_consistency
verify_consistency-AllLead digest cp peaks_from peaks_to {result} e =
    let frompeaks = peaks (sub64 cp.mmr_size_a 1) in
    let (proven, made, rest) =
      eq-ok_of_bind (consistent_roots digest (sub64 cp.mmr_size_a 1) peaks_from cp.path)
        (λ l. scan peaks_to l >>= λ _. ok peaks_to) e in
    let (_, scanned, same) = eq-ok_of_bind (scan peaks_to proven) (λ _. ok peaks_to) rest in
    (
      sym (ok_inj same),
      (consistent_roots-AllLead digest (sub64 cp.mmr_size_a 1) peaks_from cp.path peaks_to made
          (scan-AllOneOf peaks_to proven scanned)),
    )
