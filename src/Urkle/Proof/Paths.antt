-- ===== src/Urkle/Proof/Paths.antt =====
-- The path of a verified proof, from its leaf up to the root.
use go_merklelog.Base.{
  ℕ, ◌≡◌, ◌≢◌, ◌⊎◌, inl, inr, refl, sym, ap, subst, ◌∙◌, Bool, true, false, List, [], ◌∷◌, ◌++◌,
  length, arith,
}
use go_merklelog.Base.{◌==◌, ==_iff, Bool-cases}
use go_merklelog.Base.Results.{ok, ok_inj, err_not_ok, eq-ok_of_bind}
use go_merklelog.Base.Buffers.{Bytes}
use go_merklelog.Urkle.Errors.{UrkleError, hash_bytes}
use go_merklelog.Urkle.Hash.{bit_at, leaf_input, branch_input, sum, hash_branch}
use go_merklelog.Urkle.Proof.{ProofStep, step_hash, climb}
use go_merklelog.Base.Digests.{Collision, append_cancel, digest_binds}

-- The sibling of every step has the size of a hash.
abbrev pub AllHashes : List ProofStep → Type 0
AllHashes [] = Unit {0}
AllHashes (s ∷ steps) = (length s.sibling_hash ≡ 32) × AllHashes steps

abbrev first : Bytes → ℕ
first [] = 0
first (x ∷ b) = x

pub unequal : {t : Bool} → t ≡ true → t ≡ false → ⊥
unequal p q = cc

module _ (digest : Bytes → Bytes) where
  -- The hash at the top of the steps above `leaf`, the step below the root last, and where each
  -- step goes by the key.
  pub data Above (key : ℕ) (leaf : Bytes) : Bytes → Type 0 where
    at_leaf : {top : Bytes} → top ≡ leaf → Above key leaf top
    at_left :
        {cur top : Bytes} (bit : ℕ) (sibling : Bytes)
        → bit_at key bit ≡ 0
        → length cur ≡ 32
        → length sibling ≡ 32
        → top ≡ digest (branch_input bit cur sibling)
        → Above key leaf cur
        → Above key leaf top
    at_right :
        {cur top : Bytes} (bit : ℕ) (sibling : Bytes)
        → bit_at key bit ≢ 0
        → length cur ≡ 32
        → length sibling ≡ 32
        → top ≡ digest (branch_input bit sibling cur)
        → Above key leaf cur
        → Above key leaf top

  pub sum-eq :
      (written : Bytes) {h : Bytes}
      → sum digest written ≡ ok h
      → (h ≡ digest written) × (length h ≡ 32)
  unfolding sum
  sum-eq written e = elim (Bool-cases (length (digest written) == hash_bytes)) [
    | inl sized ↦
        let same : digest written ≡ _ = ok_inj (rw sized at e) in
        (sym same, ap length (sym same) ∙ (==_iff (length (digest written)) 32).0 sized)
    | inr other ↦ absurd (err_not_ok (rw other at e))
  ]

  pub climb-Above :
      (mismatch : UrkleError) (key : ℕ) (leaf cur : Bytes) (steps : List ProofStep) {root : Bytes}
      → length cur ≡ 32
      → AllHashes steps
      → Above key leaf cur
      → climb digest mismatch key cur steps ≡ ok root
      → Above key leaf root
  unfolding climb step_hash hash_branch
  climb-Above mismatch key leaf cur [] sized hashes above e =
      subst (Above key leaf) (ok_inj e) above
  climb-Above mismatch key leaf cur (s ∷ steps) sized (hash, hashes) above e =
      elim (Bool-cases (s.dir == bit_at key s.bit)) [
        | inr other ↦ absurd (err_not_ok (rw (other, climb) at e))
        | inl goes ↦
            let next = rw (goes, climb) at e in
            let (mid, hashed, rest) = eq-ok_of_bind (step_hash digest s cur) _ next in
            let dir : s.dir ≡ bit_at key s.bit = (==_iff s.dir (bit_at key s.bit)).0 goes in
            elim (Bool-cases (s.dir == 0)) [
              | inl low ↦
                  let (its, whole) =
                    sum-eq (branch_input s.bit cur s.sibling_hash) (rw low at hashed) in
                  climb-Above mismatch key leaf mid steps whole hashes
                    (at_left s.bit s.sibling_hash (sym dir ∙ (==_iff s.dir 0).0 low) sized hash its
                      above)
                    rest
              | inr high ↦
                  let (its, whole) =
                    sum-eq (branch_input s.bit s.sibling_hash cur) (rw high at hashed) in
                  climb-Above mismatch key leaf mid steps whole hashes
                    (at_right s.bit s.sibling_hash
                      (λ z. unequal ((==_iff s.dir 0).1 (dir ∙ z)) high) sized hash its above)
                    rest
            ]
      ]

  branch_binds :
      (b c : ℕ) (l r m n : Bytes)
      → length l ≡ length m
      → digest (branch_input b l r) ≡ digest (branch_input c m n)
      → ((b ≡ c) × (l ≡ m) × (r ≡ n)) ⊎ Collision digest
  unfolding branch_input
  branch_binds b c l r m n sized h =
      elim (digest_binds digest (1 ∷ b ∷ (l ++ r)) (1 ∷ c ∷ (m ++ n)) h) [
        | inr collision ↦ inr collision
        | inl same ↦
            let (front, back) =
              append_cancel (1 ∷ b ∷ []) (1 ∷ c ∷ []) (l ++ r) (m ++ n) refl same in
            let (left, right) = append_cancel l m r n sized back in inl (second front, left, right)
      ]
    where
      second : 1 ∷ b ∷ [] ≡ 1 ∷ c ∷ [] → b ≡ c
      second e = cc

  leaf_is_no_branch :
      (key ordinal : ℕ) (value : Bytes) (bit : ℕ) (l r : Bytes)
      → digest (leaf_input key ordinal value) ≡ digest (branch_input bit l r)
      → Collision digest
  unfolding branch_input leaf_input
  leaf_is_no_branch key ordinal value bit l r h = record {
    left = leaf_input key ordinal value;
    right = branch_input bit l r;
    differ = λ e. heads e;
    same_digest = h;
  }
    where
      heads : leaf_input key ordinal value ≡ branch_input bit l r → ⊥
      heads e = let zero_one : ◌≡◌ {A = ℕ} 0 1 = ap first e in omega arith

  module _ (key k o : ℕ) (v : Bytes) (k' o' : ℕ) (v' : Bytes) where
    abbrev leaf : Bytes
    leaf = digest (leaf_input k o v)

    abbrev leaf' : Bytes
    leaf' = digest (leaf_input k' o' v')

    -- Two paths by one key below one hash end in one leaf.
    pub same_leaf :
        (top : Bytes) → Above key leaf top → Above key leaf' top → (leaf ≡ leaf') ⊎ Collision digest
    same_leaf top (at_leaf e) (at_leaf e') = inl (sym e ∙ e')
    same_leaf top (at_leaf e) (at_left bit sibling go a b e' rest) =
        inr (leaf_is_no_branch k o v bit _ sibling (sym e ∙ e'))
    same_leaf top (at_leaf e) (at_right bit sibling go a b e' rest) =
        inr (leaf_is_no_branch k o v bit sibling _ (sym e ∙ e'))
    same_leaf top (at_left bit sibling go a b e' rest) (at_leaf e) =
        inr (leaf_is_no_branch k' o' v' bit _ sibling (sym e ∙ e'))
    same_leaf top (at_right bit sibling go a b e' rest) (at_leaf e) =
        inr (leaf_is_no_branch k' o' v' bit sibling _ (sym e ∙ e'))
    same_leaf top (at_left {cur = cur} bit sibling go a b e rest)
          (at_left {cur = cur'} bit' sibling' go' a' b' e' rest') =
        elim (branch_binds bit bit' cur sibling cur' sibling' (a ∙ sym a') (sym e ∙ e')) [
          | inr collision ↦ inr collision
          | inl (same, down, _) ↦ same_leaf cur rest (subst (Above key leaf') (sym down) rest')
        ]
    same_leaf top (at_right {cur = cur} bit sibling go a b e rest)
          (at_right {cur = cur'} bit' sibling' go' a' b' e' rest') =
        elim (branch_binds bit bit' sibling cur sibling' cur' (b ∙ sym b') (sym e ∙ e')) [
          | inr collision ↦ inr collision
          | inl (same, _, down) ↦ same_leaf cur rest (subst (Above key leaf') (sym down) rest')
        ]
    same_leaf top (at_left {cur = cur} bit sibling go a b e rest)
          (at_right {cur = cur'} bit' sibling' go' a' b' e' rest') =
        elim (branch_binds bit bit' cur sibling sibling' cur' (a ∙ sym b') (sym e ∙ e')) [
          | inr collision ↦ inr collision
          | inl (same, _, _) ↦ absurd (go' (ap (bit_at key) (sym same) ∙ go))
        ]
    same_leaf top (at_right {cur = cur} bit sibling go a b e rest)
          (at_left {cur = cur'} bit' sibling' go' a' b' e' rest') =
        elim (branch_binds bit bit' sibling cur cur' sibling' (b ∙ sym a') (sym e ∙ e')) [
          | inr collision ↦ inr collision
          | inl (same, _, _) ↦ absurd (go (ap (bit_at key) same ∙ go'))
        ]
