-- ===== src/Mmr/Leaves/Sizes.antt =====
-- `FirstMMRSize` and `LeafIndex`: the first complete log with a node, and the leaf that added it.
use go_merklelog.Base.{
  ℕ, zero, suc, ◌+◌, ◌-◌, ◌^◌, ◌<◌, ◌≤◌, ◌≡◌, ◌≢◌, inl, inr, refl, sym, ap, ◌∙◌, some, arith,
}
use go_merklelog.Base.{lt→ltb, le→ltb, add64, word, add64_exact, sub64_exact}
use native.Mathlib.Decide.{dec_lt, ℕ_discrete}
use go_merklelog.Mmr.IndexHeight.{index_height}
use go_merklelog.Mmr.IndexHeight.Shape.{index_height-Tree}
use go_merklelog.Mmr.IndexHeight.Steps.{index_height-next, index_height-lt}
use go_merklelog.Mmr.Mountains.{Mountains-of_complete, leaves-lt}
use go_merklelog.Mmr.Peaks.{leaf_count, leaf_index, first_mmr_size, first_mmr_size_loop}
use go_merklelog.Mmr.Peaks.Bitmap.{peaks_bitmap-leaves}
use go_merklelog.Mmr.Leaves.{mmr_index}
use go_merklelog.Mmr.Leaves.Numbering.{
  mmr_index-ones, mmr_index-next, mmr_index-leaf, mmr_index-Mountains,
}

-- `size` is the least count of nodes of a complete log that has node `i`.
pub record IsFirstSize (i size : ℕ) : Type 0 where
  pub has_node : i < size
  pub complete : index_height size ≡ 0
  pub least : (j : ℕ) → i < j → j < size → index_height j ≢ 0

round_up :
    (fuel i : ℕ)
    → i + 2 < word
    → index_height i < index_height (i + 1)
    → first_mmr_size_loop (suc fuel) i (index_height i) (index_height (i + 1))
      ≡ first_mmr_size_loop fuel (i + 1) (index_height (i + 1)) (index_height (i + 1 + 1))
unfolding first_mmr_size_loop
round_up fuel i room up =
    let grows = lt→ltb (index_height i) (index_height (i + 1)) up in
    let e : add64 i 1 ≡ i + 1 = add64_exact i 1 (omega arith) in
    let e' : add64 (i + 1) 1 ≡ i + 1 + 1 = add64_exact (i + 1) 1 (omega arith) in
    rw (grows, first_mmr_size_loop) (rw (e, e') refl)

round_end :
    (fuel i : ℕ)
    → i + 1 < word
    → index_height (i + 1) ≤ index_height i
    → first_mmr_size_loop (suc fuel) i (index_height i) (index_height (i + 1)) ≡ some (i + 1)
unfolding first_mmr_size_loop
round_end fuel i room flat =
    let ends = le→ltb (index_height i) (index_height (i + 1)) flat in
    rw (ends, first_mmr_size_loop) (ap some (add64_exact i 1 room))

IsFirstSize-loop :
    (fuel i : ℕ)
    → i + fuel + 2 < word
    → 64 ≤ fuel + index_height i
    → (size : ℕ) × (first_mmr_size_loop (suc fuel) i (index_height i) (index_height (i + 1))
        ≡ some size)
      × (size ≤ i + fuel + 1)
      × IsFirstSize i size
IsFirstSize-loop zero i room high = absurd (omega (arith, index_height-lt i (omega arith)))
IsFirstSize-loop (suc fuel) i room high = elim (index_height-next i (omega arith)) [
  | inl up ↦
      let (size, found, near, first) = IsFirstSize-loop fuel (i + 1) (omega arith) (omega arith) in
      (
        size,
        round_up (suc fuel) i (omega arith) (omega arith) ∙ found,
        omega arith,
        record {
          has_node = omega (arith, first.has_node);
          complete = first.complete;
          least = λ j above below z. elim (ℕ_discrete j (i + 1)) [
            | yes next ↦ omega (arith, ap index_height next)
            | no behind ↦ first.least j (omega arith) below z
          ];
        },
      )
  | inr leaf ↦ (
    i + 1,
    round_end (suc fuel) i (omega arith) (omega arith),
    omega arith,
    record {
      has_node = omega arith;
      complete = leaf;
      least = λ j above below z. absurd (omega arith);
    },
  )
]

-- For a node with an index `i`, where i + 66 < 2 ^ 64, the loop of `FirstMMRSize` ends within its
-- fuel: the result is the size of the least complete log that has the node, and is at most 65 above
-- the node's index.
pub first_mmr_size-IsFirstSize :
    (i : ℕ) → i + 66 < word → IsFirstSize i (first_mmr_size i) × (first_mmr_size i ≤ i + 65)
unfolding first_mmr_size
first_mmr_size-IsFirstSize i room =
    let (size, found, near, first) = IsFirstSize-loop 64 i (omega arith) (omega arith) in
    rw (add64_exact i 1 (omega arith), found) (first, omega arith)

mmr_index_grows : (l d : ℕ) → l + d < 2 ^ 63 → mmr_index l + d ≤ mmr_index (l + d)
mmr_index_grows l zero h = omega (arith, ap mmr_index (zero_added l))
  where
    zero_added : (l : ℕ) → l + 0 ≡ l
    zero_added l = omega arith
mmr_index_grows l (suc d) h =
    let e : l + suc d ≡ l + d + 1 = omega arith in
    omega (
      arith,
      mmr_index_grows l d (omega arith),
      mmr_index-next (l + d) (omega arith),
      ap mmr_index e,
    )

mmr_index_mono : (l l' : ℕ) → l' < 2 ^ 63 → l < l' → mmr_index l < mmr_index l'
mmr_index_mono l l' h lt =
    let e : l + (l' - l) ≡ l' = omega arith in
    omega (arith, mmr_index_grows l (l' - l) (omega arith), ap mmr_index e)

pub mmr_index_le : (l l' : ℕ) → l' < 2 ^ 63 → l ≤ l' → mmr_index l ≤ mmr_index l'
mmr_index_le l l' h le =
    let e : l + (l' - l) ≡ l' = omega arith in
    omega (arith, mmr_index_grows l (l' - l) (omega arith), ap mmr_index e)

-- A complete log begins behind as many leaves as `LeafCount` counts.
pub mmr_index-leaf_count :
    (n : ℕ)
    → n + 1 < word
    → index_height n ≡ 0
    → (mmr_index (leaf_count n) ≡ n) × (leaf_count n < 2 ^ 63)
unfolding leaf_count
mmr_index-leaf_count n room leaf =
    let (hs, m) =
      Mountains-of_complete 63 n (omega arith) (sym (index_height-Tree n room) ∙ leaf) in
    let count = peaks_bitmap-leaves n hs m in
    (ap mmr_index count ∙ mmr_index-Mountains n hs m, omega (arith, count, leaves-lt 63 n hs m))

-- Leaf numbers and node indices convert to each other: the node at `MMRIndex` of a leaf number is a
-- leaf with that many leaves before it, and `LeafIndex` gives the number back.
pub leaf_index-mmr_index :
    (l : ℕ)
    → l + 1 < 2 ^ 62
    → (leaf_index (mmr_index l) ≡ l)
      × (leaf_count (mmr_index l) ≡ l)
      × (index_height (mmr_index l) ≡ 0)
unfolding leaf_index
leaf_index-mmr_index l h =
    let here = mmr_index-leaf l (omega arith) in
    let next = mmr_index-leaf (l + 1) (omega arith) in
    let small = mmr_index-ones l (omega arith) in
    let (first, near) = first_mmr_size-IsFirstSize (mmr_index l) (omega arith) in
    let size = first_mmr_size (mmr_index l) in
    let (index, few) = mmr_index-leaf_count size (omega arith) first.complete in
    let later : l < leaf_count size = elim (dec_lt l (leaf_count size)) [
      | yes more ↦ more
      | no few_leaves ↦
          let at_most = mmr_index_le (leaf_count size) l (omega arith) (omega arith) in
          absurd (omega (arith, index, first.has_node))
    ] in
    let not_more : leaf_count size ≤ l + 1 = elim (dec_lt (l + 1) (leaf_count size)) [
      | yes more ↦
          let between = mmr_index_mono (l + 1) (leaf_count size) few more in
          let above = mmr_index_mono l (l + 1) (omega arith) (omega arith) in
          absurd (first.least (mmr_index (l + 1)) above (omega (arith, index)) next.0)
      | no enough ↦ omega arith
    ] in
    let e : leaf_count size ≡ l + 1 = omega arith in
    (rw e (sub64_exact (l + 1) 1 (omega arith) (omega arith) ∙ omega arith), here.1, here.0)
