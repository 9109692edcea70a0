-- ===== src/Mmr/Tests.antt =====
-- Runs of the mmr package on small logs, and its theorems at concrete inputs.
mod Wide
mod Numbers
use go_merklelog.Base.{
  ℕ, zero, suc, ◌+◌, ◌<◌, ◌≡◌, ◌⊎◌, refl, List, [], ◌∷◌, ◌++◌, Option, none, some, length,
  get_elem?, arith,
}
use go_merklelog.Base.{add64, sub64, shl64}
use mathlib.Core.Option
use go_merklelog.Base.Bits.{len64, ones_count64}
use go_merklelog.Base.Results.{ok, panic}
use go_merklelog.Mmr.Errors.{R}
use go_merklelog.Mmr.Hasher.{Bytes, hash_pos_pair64, sum, write, hash_write_uint64, put_uint64}
use go_merklelog.Base.{ap, ◌*◌, ◌^◌, ◌≤◌, length-append}
use go_merklelog.Base.Pow.{pow_pos, pow_suc}
use go_merklelog.Mmr.IndexHeight.Steps.{index_height_room}
use go_merklelog.Mmr.Store.{NodeAppender, IsLog, IsMmr, node_at}
use go_merklelog.Mmr.Tree.{height_in}
use go_merklelog.Mmr.IndexHeight.{
  index_height, pos_height, pos_height_loop, all_ones, bit_length64, jump_left_perfect,
}
use go_merklelog.Mmr.IndexHeight.Shape.{pos_height-Tree}
use go_merklelog.Mmr.Add.{add_hashed_leaf, backfill_loop, backfill_step}
use go_merklelog.Mmr.Add.Backfill.{Grown, add_hashed_leaf-Grown}
use go_merklelog.Mmr.Proof.{inclusion_proof, inclusion_proof_path, included_root}
use go_merklelog.Mmr.Proof.Climb.{Climb, IsPeak}
use go_merklelog.Mmr.Proof.Complete.{inclusion_proof_path-Climb, included_root-inclusion_proof}
use go_merklelog.Mmr.Proof.Binding.{included_root_binds}
use go_merklelog.Base.Digests.{Collision}

-- what a test of an index function runs
abbrev heights : List ℕ
heights = index_height 0 ∷ index_height 2 ∷ index_height 6 ∷ index_height 13 ∷ index_height 18 ∷ []

heights_run : heights ≡ 0 ∷ 1 ∷ 2 ∷ 2 ∷ 0 ∷ []
unfolding index_height pos_height pos_height_loop all_ones bit_length64 jump_left_perfect add64
    sub64 shl64 len64 ones_count64
heights_run = refl

pos_height-Tree_example :
    (pos_height_loop 64 14 ≡ some (height_in 63 14)) × (pos_height 14 ≡ height_in 63 14)
pos_height-Tree_example = pos_height-Tree 14 (omega arith) (omega arith)

-- A store in memory.
unfoldable pub memory_get : ℕ → List Bytes → R Bytes
memory_get i s = from_option (get_elem? s i)
  where
    from_option : Option Bytes → R Bytes
    from_option none = panic
    from_option (some v) = ok v

abbrev memory : NodeAppender (List Bytes)
memory = record {
  get = λ i s. (memory_get i s, s);
  append = λ v s. (ok (length s + 1), s ++ v ∷ []);
}

pub memory_get_stored : (s : List Bytes) (i : ℕ) → i < length s → memory_get i s ≡ ok (node_at s i)
unfolding memory_get
memory_get_stored [] i h = absurd (omega arith)
memory_get_stored (v ∷ s) zero h = refl
memory_get_stored (v ∷ s) (suc i) h = memory_get_stored s i (omega arith)

abbrev view : List Bytes → List Bytes
view s = s

abbrev IsAny : Bytes → Type 0
IsAny b = Unit {0}

abbrev IsShort : List Bytes → Type 0
IsShort s = length s ≤ 1000

memory-IsLog : IsLog memory view IsShort IsAny 1000
memory-IsLog = record {
  get_stored = λ s i h short height child.
      let room : 2 * 2 ^ suc h ≤ length s + 2 =
        rw height at (index_height_room (length s) (omega arith)) in
      let below : i < length s = omega (arith, pow_pos h, pow_suc h) in
      ap (λ r. (r, s)) (memory_get_stored s i below);
  append_stored =
      λ s v short is room. (s ++ v ∷ [], refl, refl, omega (arith, length-append s (v ∷ [])));
}

-- a digest that keeps three bytes, from the lowest of the position on
abbrev pub byte_of : Bytes → ℕ → ℕ
byte_of b i = Option.get_or (get_elem? b i) 0

abbrev digest : Bytes → Bytes
digest b = byte_of b 7 ∷ byte_of b 8 ∷ byte_of b 11 ∷ []

abbrev leaf_0 : Bytes
leaf_0 = 1 ∷ 2 ∷ 3 ∷ []

abbrev leaf_1 : Bytes
leaf_1 = 4 ∷ 5 ∷ 6 ∷ []

-- the log of two leaves
abbrev three : List Bytes
three = leaf_0 ∷ leaf_1 ∷ hash_pos_pair64 digest 3 leaf_0 leaf_1 ∷ []

add_second : add_hashed_leaf digest memory leaf_1 (leaf_0 ∷ []) ≡ (ok 3, three)
unfolding add_hashed_leaf backfill_loop backfill_step memory_get hash_pos_pair64 sum write
    hash_write_uint64 put_uint64 index_height pos_height pos_height_loop all_ones bit_length64
    jump_left_perfect add64 sub64 shl64 len64 ones_count64
add_second = refl

pub height_0 : index_height 0 ≡ 0
unfolding index_height pos_height pos_height_loop all_ones bit_length64 jump_left_perfect add64
    sub64 shl64 len64 ones_count64
height_0 = refl

pub height_1 : index_height 1 ≡ 0
unfolding index_height pos_height pos_height_loop all_ones bit_length64 jump_left_perfect add64
    sub64 shl64 len64 ones_count64
height_1 = refl

pub height_2 : index_height 2 ≡ 1
unfolding index_height pos_height pos_height_loop all_ones bit_length64 jump_left_perfect add64
    sub64 shl64 len64 ones_count64
height_2 = refl

pub height_3 : index_height 3 ≡ 0
unfolding index_height pos_height pos_height_loop all_ones bit_length64 jump_left_perfect add64
    sub64 shl64 len64 ones_count64
height_3 = refl

one-IsMmr : IsMmr digest (leaf_0 ∷ [])
one-IsMmr zero h lt e = absurd (omega (arith, height_0))
one-IsMmr (suc i) h lt e = absurd (omega arith)

three-IsMmr : IsMmr digest three
three-IsMmr zero h lt e = absurd (omega (arith, height_0))
three-IsMmr (suc zero) h lt e = absurd (omega (arith, height_1))
three-IsMmr (suc (suc zero)) h lt e = let e0 : h ≡ 0 = omega (arith, height_2) in rw e0 refl
three-IsMmr (suc (suc (suc i))) h lt e = absurd (omega arith)

add_hashed_leaf-Grown_example :
    Grown digest memory view IsShort IsAny 1000 memory-IsLog
      (λ b. tt)
      (leaf_0 ∷ leaf_1 ∷ [])
      (add_hashed_leaf digest memory leaf_1 (leaf_0 ∷ []))
add_hashed_leaf-Grown_example =
    add_hashed_leaf-Grown digest memory view IsShort IsAny 1000 memory-IsLog (λ b. tt) (leaf_0 ∷ [])
      leaf_1 (omega arith) (omega arith) tt (omega arith) one-IsMmr height_1

inclusion_proof_path-Climb_example :
    (path : List ℕ) × (t : ℕ) × (inclusion_proof_path 2 1 ≡ ok path)
    × Climb 2 1 path t
    × (length path + index_height 1 ≡ index_height t)
inclusion_proof_path-Climb_example =
    inclusion_proof_path-Climb 2 (omega arith) height_3 1 (omega arith)

included_root-inclusion_proof_example :
    (proof : List Bytes) × (t : ℕ) × (inclusion_proof (λ i. memory_get i three) 2 1 ≡ ok proof)
    × (included_root digest 1 leaf_1 proof ≡ node_at three t)
    × IsPeak 2 t
    × (length proof + index_height 1 ≡ index_height t)
included_root-inclusion_proof_example =
    included_root-inclusion_proof 2 (omega arith) digest (λ i. memory_get i three) three 1 refl
      three-IsMmr height_3 (memory_get_stored three) (omega arith)

digest_sized : (b : Bytes) → length (digest b) ≡ 3
digest_sized b = refl

included_root_binds_example : ((leaf_0 ≡ leaf_0) × (leaf_1 ∷ [] ≡ leaf_1 ∷ [])) ⊎ Collision digest
included_root_binds_example =
    included_root_binds digest 3 digest_sized 0 leaf_0 leaf_0 (leaf_1 ∷ []) (leaf_1 ∷ []) refl refl
      (refl, tt) (refl, tt) refl refl
