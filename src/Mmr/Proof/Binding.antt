-- ===== src/Mmr/Proof/Binding.antt =====
-- `IncludedRoot` binds: two different values or proofs of one shape that lead from one index to
-- one root give two different inputs with the same digest.
use go_merklelog.Base.{
  ℕ, ◌+◌, ◌≡◌, ◌⊎◌, inl, inr, refl, sym, ap₂, ◌∙◌, List, [], ◌∷◌, ◌++◌, length, arith,
}
use go_merklelog.Base.{ltb, Bool-cases, add64, shl64}
use mathlib.Core.List.{append_assoc}
use go_merklelog.Base.Digests.{Collision, append_cancel, digest_binds}
use go_merklelog.Mmr.Hasher.{Bytes, hash_pos_pair64, put_uint64, sum, write, hash_write_uint64}
use go_merklelog.Mmr.IndexHeight.{index_height}
use go_merklelog.Mmr.Proof.{included_root_loop, included_root}

-- every value of the list has `n` bytes
abbrev pub AllSized : ℕ → List Bytes → Type 0
AllSized n [] = Unit {0}
AllSized n (v ∷ vs) = (length v ≡ n) × AllSized n vs

module _ (digest : Bytes → Bytes) (n : ℕ) (sized : (b : Bytes) → length (digest b) ≡ n) where
  pair_binds :
      (pos : ℕ) (a b c d : Bytes)
      → length a ≡ length c
      → hash_pos_pair64 digest pos a b ≡ hash_pos_pair64 digest pos c d
      → ((a ≡ c) × (b ≡ d)) ⊎ Collision digest
  unfolding hash_pos_pair64 sum write hash_write_uint64
  pair_binds pos a b c d e h =
      elim (digest_binds digest ((put_uint64 pos ++ a) ++ b) ((put_uint64 pos ++ c) ++ d) h) [
        | inr collision ↦ inr collision
        | inl same ↦
            let whole = append_cancel (put_uint64 pos) (put_uint64 pos) (a ++ b) (c ++ d) refl (
              sym (append_assoc (put_uint64 pos) a b) ∙ same ∙ append_assoc (put_uint64 pos) c d) in
            inl (append_cancel a c b d e whole.1)
      ]

  pair_sized : (pos : ℕ) (a b : Bytes) → length (hash_pos_pair64 digest pos a b) ≡ n
  unfolding hash_pos_pair64 sum write hash_write_uint64
  pair_sized pos a b = sized _

  -- one round of the loop, by which side the proof's value stands on
  round_binds :
      (pos : ℕ) (a b c d : Bytes) (p q : List Bytes)
      → length a ≡ length c
      → ((hash_pos_pair64 digest pos a b ≡ hash_pos_pair64 digest pos c d) × (p ≡ q))
        ⊎ Collision digest
      → ((a ≡ c) × (b ≡ d) × (p ≡ q)) ⊎ Collision digest
  round_binds pos a b c d p q e (inr collision) = inr collision
  round_binds pos a b c d p q e (inl (same, rest)) = elim (pair_binds pos a b c d e same) [
    | inr collision ↦ inr collision
    | inl (left, right) ↦ inl (left, right, rest)
  ]

  loop_binds :
      (i g : ℕ) (v w : Bytes) (p q : List Bytes)
      → length v ≡ n
      → length w ≡ n
      → AllSized n p
      → AllSized n q
      → length p ≡ length q
      → included_root_loop digest i g v p ≡ included_root_loop digest i g w q
      → ((v ≡ w) × (p ≡ q)) ⊎ Collision digest
  unfolding included_root_loop
  loop_binds i g v w [] [] hv hw hp hq e same = inl (same, refl)
  loop_binds i g v w [] (t ∷ q) hv hw hp hq e same = absurd (omega arith)
  loop_binds i g v w (s ∷ p) [] hv hw hp hq e same = absurd (omega arith)
  loop_binds i g v w (s ∷ p) (t ∷ q) hv hw hp hq e same =
      elim (Bool-cases (ltb g (index_height (add64 i 1)))) [
        | inl up ↦
            let i' = add64 i 1 in
            let pos = add64 i' 1 in
            let rest =
              loop_binds i' (g + 1) (hash_pos_pair64 digest pos s v)
                (hash_pos_pair64 digest pos t w) p q (pair_sized pos s v) (pair_sized pos t w) hp.1
                hq.1 (omega arith) (rw (up, included_root_loop) at same) in
            elim (round_binds pos s v t w p q (hp.0 ∙ sym hq.0) rest) [
              | inr collision ↦ inr collision
              | inl (side, value, path) ↦ inl (value, ap₂ ◌∷◌ side path)
            ]
        | inr low ↦
            let i' = add64 i (shl64 2 g) in
            let pos = add64 i' 1 in
            let rest =
              loop_binds i' (g + 1) (hash_pos_pair64 digest pos v s)
                (hash_pos_pair64 digest pos w t) p q (pair_sized pos v s) (pair_sized pos w t) hp.1
                hq.1 (omega arith) (rw (low, included_root_loop) at same) in
            elim (round_binds pos v s w t p q (hv ∙ sym hw) rest) [
              | inr collision ↦ inr collision
              | inl (value, side, path) ↦ inl (value, ap₂ ◌∷◌ side path)
            ]
      ]

  -- With a digest of fixed size, two proofs of one length, of values of that size, that lead two
  -- values at one index to the same root are the same proof of the same value, or they show two
  -- inputs with the same digest.
  pub included_root_binds :
      (i : ℕ) (v w : Bytes) (p q : List Bytes)
      → length v ≡ n
      → length w ≡ n
      → AllSized n p
      → AllSized n q
      → length p ≡ length q
      → included_root digest i v p ≡ included_root digest i w q
      → ((v ≡ w) × (p ≡ q)) ⊎ Collision digest
  unfolding included_root
  included_root_binds i v w p q hv hw hp hq e same =
      loop_binds i (index_height i) v w p q hv hw hp hq e same
