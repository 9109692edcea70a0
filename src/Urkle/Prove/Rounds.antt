-- ===== src/Urkle/Prove/Rounds.antt =====
-- The steps of the urkle provers: a climb by one step more, and one round of provePath.
use go_merklelog.Base.{
  ℕ, suc, ◌+◌, ◌-◌, ◌<◌, ◌≤◌, ◌≡◌, inl, inr, refl, ap, ◌∙◌, true, false, List, [], ◌∷◌, ◌++◌, arith,
}
use go_merklelog.Base.{◌==◌, ==_iff, neq→==, le→ltb, Bool-cases, sub64, sub64_exact}
use mathlib.Core.List.{reverse, reverse-append}
use go_merklelog.Base.Results.{ok, ◌>>=◌, ok_inj, err_not_ok, eq-ok_of_bind}
use go_merklelog.Base.Buffers.{Bytes}
use go_merklelog.Urkle.Errors.{UrkleError, no_ref}
use go_merklelog.Urkle.Hash.{bit_at, hash_branch}
use go_merklelog.Urkle.Records.{kind_branch, node_kind_at, node_bit, node_right_span, node_hash}
use go_merklelog.Urkle.Proof.{ProofStep, step_hash, climb}
use go_merklelog.Urkle.Prove.{check_branch, prove_path}

abbrev pub step_to : ℕ → ℕ → Bytes → ProofStep
step_to target bit sibling = record { bit = bit; dir = bit_at target bit; sibling_hash = sibling }

pub check_branch-ok :
    (ref bit span : ℕ)
    → bit < 64
    → 1 ≤ span
    → span + 1 ≤ ref
    → ref < no_ref
    → (check_branch ref bit span ≡ ok tt) × (sub64 (sub64 ref 1) span ≡ ref - 1 - span)
unfolding check_branch
check_branch-ok ref bit span small pos room narrow =
    let below : sub64 ref 1 ≡ ref - 1 = sub64_exact ref 1 (omega arith) (omega arith) in
    let left : sub64 (ref - 1) span ≡ ref - 1 - span =
      sub64_exact (ref - 1) span (omega arith) (omega arith) in
    (
      rw
          (
            le→ltb 63 bit (omega arith),
            neq→== span 0 (λ e. omega arith),
            neq→== ref 0 (λ e. omega arith),
            below,
            left,
            le→ltb (ref - 1) (ref - 1 - span) (omega arith),
          )
          refl,
      rw (below, left) refl,
    )

module _ (digest : Bytes → Bytes) where
  climb-append :
      (mismatch : UrkleError) (target : ℕ) (cur : Bytes) (xs : List ProofStep) (s : ProofStep)
      {mid : Bytes}
      → climb digest mismatch target cur xs ≡ ok mid
      → climb digest mismatch target cur (xs ++ s ∷ []) ≡ climb digest mismatch target mid (s ∷ [])
  unfolding climb
  climb-append mismatch target cur [] s e =
      ap (λ c. climb digest mismatch target c (s ∷ [])) (ok_inj e)
  climb-append mismatch target cur (x ∷ xs) s e = elim (Bool-cases (x.dir == bit_at target x.bit)) [
    | inr other ↦ absurd (err_not_ok (rw (other, climb) at e))
    | inl goes ↦
        let (next, made, rest) = eq-ok_of_bind (step_hash digest x cur) _ (rw (goes, climb) at e) in
        rw (goes, climb) (rw (made, ◌>>=◌) (climb-append mismatch target next xs s rest))
  ]

  -- The step at the root, onto the hash of the child that the key goes to.
  top_step :
      (mismatch : UrkleError) (target bit : ℕ) (cur sibling : Bytes) {h : Bytes}
      → step_hash digest (record { bit = bit; dir = bit_at target bit; sibling_hash = sibling }) cur
        ≡ ok h
      → climb digest mismatch target cur
          (record { bit = bit; dir = bit_at target bit; sibling_hash = sibling } ∷ [])
        ≡ ok h
  unfolding climb
  top_step mismatch target bit cur sibling e =
      rw ((==_iff (bit_at target bit) (bit_at target bit)).1 refl, climb) (rw (e, ◌>>=◌) refl)

  pub climb-reverse :
      (mismatch : UrkleError) (target bit : ℕ) (leaf_hash cur sibling : Bytes)
      (steps : List ProofStep) {h : Bytes}
      → climb digest mismatch target leaf_hash (reverse steps) ≡ ok cur
      → step_hash digest (record { bit = bit; dir = bit_at target bit; sibling_hash = sibling }) cur
        ≡ ok h
      → climb digest mismatch target leaf_hash
          (reverse (record { bit = bit; dir = bit_at target bit; sibling_hash = sibling } ∷ steps))
        ≡ ok h
  climb-reverse mismatch target bit leaf_hash cur sibling steps below e =
      let s : ProofStep = record { bit = bit; dir = bit_at target bit; sibling_hash = sibling } in
      ap (climb digest mismatch target leaf_hash) (reverse-append (s ∷ []) steps)
      ∙ climb-append mismatch target leaf_hash (reverse steps) s below
      ∙ top_step mismatch target bit cur sibling e

  pub step_hash-left :
      (target bit : ℕ) (left right : Bytes) {h : Bytes}
      → (bit_at target bit == 0) ≡ true
      → hash_branch digest bit left right ≡ ok h
      → step_hash digest (step_to target bit right) left ≡ ok h
  unfolding step_hash
  step_hash-left target bit left right low e = rw low e

  pub step_hash-right :
      (target bit : ℕ) (left right : Bytes) {h : Bytes}
      → (bit_at target bit == 0) ≡ false
      → hash_branch digest bit left right ≡ ok h
      → step_hash digest (step_to target bit left) right ≡ ok h
  unfolding step_hash
  step_hash-right target bit left right high e = rw high e

-- one round of `provePath` on a branch, by where the key goes
module _ (node_store : Bytes) (target fuel ref bit span : ℕ) (acc : List ProofStep)
    (k : node_kind_at node_store ref ≡ ok kind_branch) (b : node_bit node_store ref ≡ ok bit)
    (s : node_right_span node_store ref ≡ ok span) (checked : check_branch ref bit span ≡ ok tt)
    (left_ref : sub64 (sub64 ref 1) span ≡ ref - 1 - span) where
  pub round_left :
      {right : Bytes}
      → (bit_at target bit == 0) ≡ true
      → node_hash node_store (ref - 1) ≡ ok right
      → prove_path (suc fuel) node_store ref target acc
        ≡ prove_path fuel node_store (ref - 1 - span) target (acc ++ step_to target bit right ∷ [])
  unfolding prove_path
  round_left low sibling =
      rw (k, b, ◌>>=◌) (rw (s, checked, left_ref, low, ◌>>=◌) (rw (sibling, ◌>>=◌) refl))

  pub round_right :
      {left : Bytes}
      → (bit_at target bit == 0) ≡ false
      → node_hash node_store (ref - 1 - span) ≡ ok left
      → prove_path (suc fuel) node_store ref target acc
        ≡ prove_path fuel node_store (ref - 1) target (acc ++ step_to target bit left ∷ [])
  unfolding prove_path
  round_right high sibling =
      rw (k, b, ◌>>=◌) (rw (s, checked, left_ref, high, ◌>>=◌) (rw (sibling, ◌>>=◌) refl))
