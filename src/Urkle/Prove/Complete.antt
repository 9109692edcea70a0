-- ===== src/Urkle/Prove/Complete.antt =====
-- On a trie whose records are hashed right, one of the two provers succeeds for every key, and its
-- proof is verified.
use go_merklelog.Base.{
  ℕ, zero, suc, ◌+◌, ◌-◌, ◌<◌, ◌≤◌, ◌≡◌, inl, inr, refl, sym, ap, ◌∙◌, List, [], ◌∷◌, ◌++◌, arith,
}
use go_merklelog.Base.{◌==◌, Bool-cases}
use mathlib.Core.List.{reverse, append-nil, append_assoc}
use go_merklelog.Base.Results.{ok}
use go_merklelog.Base.Buffers.{Bytes}
use go_merklelog.Urkle.Errors.{UrkleError, no_ref}
use go_merklelog.Urkle.Hash.{bit_at, hash_leaf, hash_branch}
use go_merklelog.Urkle.Records.{
  kind_leaf, kind_branch, leaf_key, leaf_value, node_kind_at, node_bit, node_right_span,
  node_leaf_ordinal, node_hash,
}
use go_merklelog.Urkle.Proof.{ProofStep, step_hash, climb}
use go_merklelog.Urkle.Prove.{prove_path}
use go_merklelog.Urkle.Prove.Rounds.{
  step_to, check_branch-ok, climb-reverse, step_hash-left, step_hash-right, round_left, round_right,
}

module _ (digest : Bytes → Bytes) (leaf_table node_store : Bytes) where
  -- The records below `ref` are a trie in post order with the hash `h`.
  pub data Trie : ℕ → Bytes → Type 0 where
    leaf :
        {ref : ℕ} {h : Bytes} (ordinal key : ℕ) (value : Bytes)
        → node_kind_at node_store ref ≡ ok kind_leaf
        → node_leaf_ordinal node_store ref ≡ ok ordinal
        → node_hash node_store ref ≡ ok h
        → leaf_key leaf_table ordinal ≡ ok key
        → leaf_value leaf_table ordinal ≡ ok value
        → hash_leaf digest key ordinal value ≡ ok h
        → Trie ref h
    branch :
        {ref : ℕ} {h : Bytes} (bit span : ℕ) (left right : Bytes)
        → node_kind_at node_store ref ≡ ok kind_branch
        → node_bit node_store ref ≡ ok bit
        → node_right_span node_store ref ≡ ok span
        → node_hash node_store ref ≡ ok h
        → bit < 64
        → 1 ≤ span
        → span + 1 ≤ ref
        → Trie (ref - 1 - span) left
        → Trie (ref - 1) right
        → hash_branch digest bit left right ≡ ok h
        → Trie ref h

  node_hash-Trie : {ref : ℕ} {h : Bytes} → Trie ref h → node_hash node_store ref ≡ ok h
  node_hash-Trie (leaf ordinal key value k o n lk lv hashed) = n
  node_hash-Trie (branch bit span left right k b s n small pos room l r hashed) = n

  -- where the search for a key ends, with the hash of the trie above the leaf
  pub record Search (mismatch : UrkleError) (target ref : ℕ) (h : Bytes) : Type 0 where
    pub leaf_ref : ℕ
    pub steps : List ProofStep
    pub ordinal : ℕ
    pub key : ℕ
    pub value : Bytes
    pub leaf_hash : Bytes
    pub at_ordinal : node_leaf_ordinal node_store leaf_ref ≡ ok ordinal
    pub at_key : leaf_key leaf_table ordinal ≡ ok key
    pub at_value : leaf_value leaf_table ordinal ≡ ok value
    pub hashed : hash_leaf digest key ordinal value ≡ ok leaf_hash
    pub climbs : climb digest mismatch target leaf_hash (reverse steps) ≡ ok h

  -- a search below a branch, seen from the branch
  abbrev extend :
      {mismatch : UrkleError} {target : ℕ} (below ref bit : ℕ) (cur sibling : Bytes) {h : Bytes}
      → step_hash digest (step_to target bit sibling) cur ≡ ok h
      → Search mismatch target below cur
      → Search mismatch target ref h
  extend {mismatch} {target} below ref bit cur sibling up f = record {
    leaf_ref = f.leaf_ref;
    steps = step_to target bit sibling ∷ f.steps;
    ordinal = f.ordinal;
    key = f.key;
    value = f.value;
    leaf_hash = f.leaf_hash;
    at_ordinal = f.at_ordinal;
    at_key = f.at_key;
    at_value = f.at_value;
    hashed = f.hashed;
    climbs = climb-reverse digest mismatch target bit f.leaf_hash cur sibling f.steps f.climbs up;
  }

  -- `provePath` ends, with the steps that lead back to the trie's hash.
  pub prove_path-Search :
      (mismatch : UrkleError) (target fuel ref : ℕ) (h : Bytes) (acc : List ProofStep)
      → ref < fuel
      → ref < no_ref
      → Trie ref h
      → (s : Search mismatch target ref h) × (prove_path fuel node_store ref target acc
          ≡ ok (record { leaf_ref = s.leaf_ref; steps = acc ++ s.steps }))
  unfolding prove_path climb
  prove_path-Search mismatch target zero ref h acc f small t = absurd (omega arith)
  prove_path-Search mismatch target (suc fuel) ref h acc f small
        (leaf ordinal key value k o n lk lv hashed) =
      (
        record {
          leaf_ref = ref;
          steps = [];
          ordinal = ordinal;
          key = key;
          value = value;
          leaf_hash = h;
          at_ordinal = o;
          at_key = lk;
          at_value = lv;
          hashed = hashed;
          climbs = refl;
        },
        rw k (ap (λ l. ok (record { leaf_ref = ref; steps = l })) (sym (append-nil acc))),
      )
  prove_path-Search mismatch target (suc fuel) ref h acc f small
        (branch bit span left right k b s n sm pos room l r hashed) =
      let (checked, left_ref) = check_branch-ok ref bit span sm pos room small in
      let dir = bit_at target bit in
      elim (Bool-cases (dir == 0)) [
        | inl low ↦
            let step = step_to target bit right in
            let (f, e) =
              prove_path-Search mismatch target fuel (ref - 1 - span) left (acc ++ step ∷ [])
                (omega arith) (omega arith) l in
            (
              extend (ref - 1 - span) ref bit left right
                  (step_hash-left digest target bit left right low hashed) f,
              round_left node_store target fuel ref bit span acc k b s checked left_ref low
                    (node_hash-Trie r)
                  ∙ e
                  ∙ ap (λ l. ok (record { leaf_ref = f.leaf_ref; steps = l }))
                      (append_assoc acc (step ∷ []) f.steps),
            )
        | inr high ↦
            let step = step_to target bit left in
            let (f, e) =
              prove_path-Search mismatch target fuel (ref - 1) right (acc ++ step ∷ [])
                (omega arith) (omega arith) r in
            (
              extend (ref - 1) ref bit right left
                  (step_hash-right digest target bit left right high hashed) f,
              round_right node_store target fuel ref bit span acc k b s checked left_ref high
                    (node_hash-Trie l)
                  ∙ e
                  ∙ ap (λ l. ok (record { leaf_ref = f.leaf_ref; steps = l }))
                      (append_assoc acc (step ∷ []) f.steps),
            )
      ]
