-- ===== src/Urkle/Views/Lookup.antt =====
-- The key lookup of urkle/key_api.go against the prover of urkle/proof.go.
use go_merklelog.Base.{
  ℕ, zero, suc, ◌+◌, ◌-◌, ◌%◌, ◌^◌, ◌<◌, ◌≡◌, refl, ap, ◌∙◌, true, false, List, [], ◌∷◌, ◌++◌,
  arith,
}
use go_merklelog.Base.{◌==◌, if◌then◌else◌, Bool-cases, lt→leb, le→ltb, sub64}
use mathlib.Core.Logic.{inl, inr}
use go_merklelog.Base.Results.{ok, ok_inj, err_not_ok, eq-ok_of_bind, out_of_fuel_not_ok, ◌>>=◌}
use go_merklelog.Base.Buffers.{Bytes}
use go_merklelog.Urkle.Errors.{no_ref}
use go_merklelog.Urkle.Hash.{bit_at}
use go_merklelog.Urkle.Records.{
  kind_leaf, kind_branch, node_kind_at, node_bit, node_right_span, node_leaf_ordinal, leaf_key,
  leaf_value, node_hash,
}
use go_merklelog.Urkle.Proof.{ProofStep, InclusionProof}
use go_merklelog.Urkle.Prove.{PathTo, check_branch, prove_path, prove_inclusion}
use go_merklelog.Urkle.Views.{
  IndexView, find_leaf_ref, check_leaf, key_leaf_ordinal_32, key_leaf_ordinal,
  prove_inclusion_from_view,
}

leaf_round :
    (fuel : ℕ) (node_store : Bytes) (cur key kind : ℕ)
    → node_kind_at node_store cur ≡ ok kind
    → (kind == kind_leaf) ≡ true
    → find_leaf_ref (suc fuel) node_store cur key ≡ ok cur
unfolding find_leaf_ref
leaf_round fuel ns cur key kind is leaf = rw (is, ◌>>=◌, leaf) refl

branch_round :
    (fuel : ℕ) (node_store : Bytes) (cur key kind bit rs : ℕ)
    → node_kind_at node_store cur ≡ ok kind
    → (kind == kind_leaf) ≡ false
    → (kind == kind_branch) ≡ true
    → node_bit node_store cur ≡ ok bit
    → node_right_span node_store cur ≡ ok rs
    → check_branch cur bit rs ≡ ok tt
    → find_leaf_ref (suc fuel) node_store cur key
      ≡ find_leaf_ref fuel node_store
          (if bit_at key bit == 0 then sub64 (sub64 cur 1) rs else cur - 1)
          key
unfolding find_leaf_ref
branch_round fuel ns cur key kind bit rs is inner branch is_bit is_rs checked =
    rw (is, ◌>>=◌, inner, branch, is_bit, is_rs, checked) refl

-- The lookup goes down to the leaf that the prover goes down to.
find_leaf_ref-prove_path :
    (fuel : ℕ) (node_store : Bytes) (cur key : ℕ) (steps : List ProofStep) (path : PathTo)
    → prove_path fuel node_store cur key steps ≡ ok path
    → find_leaf_ref fuel node_store cur key ≡ ok path.leaf_ref
unfolding prove_path
find_leaf_ref-prove_path zero ns cur key steps path e = absurd (out_of_fuel_not_ok e)
find_leaf_ref-prove_path (suc fuel) ns cur key steps path e =
    let (kind, is, e1) = eq-ok_of_bind (node_kind_at ns cur) _ e in
    elim (Bool-cases (kind == kind_leaf)) [
      | inl leaf ↦
          let here = ok_inj (rw leaf at e1) in
          leaf_round fuel ns cur key kind is leaf ∙ ap (λ (p : PathTo). ok p.leaf_ref) here
      | inr inner ↦ elim (Bool-cases (kind == kind_branch)) [
        | inr neither ↦ absurd (err_not_ok (rw (inner, neither) at e1))
        | inl branch ↦
            let e2 = rw (inner, branch) at e1 in
            let (bit, is_bit, e3) = eq-ok_of_bind (node_bit ns cur) _ e2 in
            let (rs, is_rs, e4) = eq-ok_of_bind (node_right_span ns cur) _ e3 in
            let (_, checked, e5) = eq-ok_of_bind (check_branch cur bit rs) _ e4 in
            let right = cur - 1 in
            let left = sub64 (sub64 cur 1) rs in
            let dir = bit_at key bit in
            let (h, is_h, e6) =
              eq-ok_of_bind (node_hash ns (if dir == 0 then right else left)) _ e5 in
            let rest =
              find_leaf_ref-prove_path fuel ns (if dir == 0 then left else right) key
                (steps ++ record { bit = bit; dir = dir; sibling_hash = h } ∷ []) path e6 in
            branch_round fuel ns cur key kind bit rs is inner branch is_bit is_rs checked ∙ rest
      ]
    ]

-- In a trie of fewer than 2 ^ 32 leaves, where `ProveInclusion` proves a key, at an ordinal that is
-- below the count of leaves and 2 ^ 16, `KeyLeafOrdinal`, which goes down without a proof, returns that
-- ordinal.
pub key_leaf_ordinal-prove_inclusion :
    (v : IndexView) (root key : ℕ) (p : InclusionProof)
    → v.leaf_count < 2 ^ 32
    → p.leaf_ordinal < v.leaf_count
    → p.leaf_ordinal < 2 ^ 16
    → prove_inclusion_from_view v root key ≡ ok p
    → key_leaf_ordinal v root key ≡ ok p.leaf_ordinal
unfolding prove_inclusion_from_view prove_inclusion key_leaf_ordinal key_leaf_ordinal_32 check_leaf
key_leaf_ordinal-prove_inclusion v root key p small within short e =
    elim (Bool-cases (root == no_ref)) [
      | inl none ↦ absurd (err_not_ok (rw none at e))
      | inr some ↦
          let e1 = rw some at e in
          let (path, is_path, e2) =
            eq-ok_of_bind (prove_path (root + 1) v.node_store root key []) _ e1 in
          let (ordinal, is_ordinal, e3) =
            eq-ok_of_bind (node_leaf_ordinal v.node_store path.leaf_ref) _ e2 in
          let (enc_key, is_key, e4) = eq-ok_of_bind (leaf_key v.leaf_table ordinal) _ e3 in
          let found = find_leaf_ref-prove_path (root + 1) v.node_store root key [] path is_path in
          elim (Bool-cases (enc_key == key)) [
            | inr other ↦ absurd (err_not_ok (rw other at e4))
            | inl same ↦
                let (value, is_value, e5) =
                  eq-ok_of_bind (leaf_value v.leaf_table ordinal) _ (rw same at e4) in
                let here : ordinal ≡ p.leaf_ordinal =
                  ap (λ (q : InclusionProof). q.leaf_ordinal) (ok_inj e5) in
                let cut : v.leaf_count % 2 ^ 32 ≡ v.leaf_count = omega arith in
                let below = lt→leb v.leaf_count ordinal (omega (arith, here)) in
                let fits = le→ltb 0xffff ordinal (omega (arith, here)) in
                rw (some, found, is_ordinal, cut, below, is_key, same, fits) (ap ok here)
          ]
    ]
