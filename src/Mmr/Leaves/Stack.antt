-- ===== src/Mmr/Leaves/Stack.antt =====
-- The peaks before a leaf as a stack, from the leaf's number alone.
use go_merklelog.Base.{
  ℕ, zero, suc, ◌+◌, ◌-◌, ◌*◌, ◌^◌, ◌<◌, ◌≤◌, ◌≡◌, ◌≢◌, inl, inr, refl, sym, ap, ◌∙◌, subst, List,
  [], ◌∷◌, ◌++◌, length, arith,
}
use native.Mathlib.Decide.{dec_lt}
use go_merklelog.Base.{word}
use go_merklelog.Base.Pow.{pow_pos}
use go_merklelog.Base.Bits.{ones_count64}
use go_merklelog.Mmr.IndexHeight.{index_height}
use go_merklelog.Mmr.IndexHeight.Steps.{index_height-next}
use go_merklelog.Mmr.Mountains.{Mountains, leaves, peak_indices}
use go_merklelog.Mmr.Peaks.{leaf_count, peaks}
use go_merklelog.Mmr.Peaks.Bitmap.{ones_count64-leaves}
use go_merklelog.Mmr.Peaks.Complete.{peaks-Mountains}
use go_merklelog.Mmr.Leaves.Growth.{below, leaves-below}
use go_merklelog.Mmr.Leaves.Carry.{
  carry, leaves-carry, length-below, peak_indices-append, peak_indices-last,
}
use go_merklelog.Mmr.Leaves.Sizes.{mmr_index_le, mmr_index-leaf_count}
use go_merklelog.Mmr.Leaves.{mmr_index, leaf_minus_spur_sum, spur_height_leaf}
use go_merklelog.Mmr.Leaves.Spurs.{leaf_minus_spur_sum-ones}
use go_merklelog.Mmr.Leaves.Numbering.{
  mmr_index-next, mmr_index-ones, mmr_index-leaf, mmr_index-Mountains, Numbered-of,
}

length-peak_indices : (base : ℕ) (hs : List ℕ) → length (peak_indices base hs) ≡ length hs
length-peak_indices base [] = refl
length-peak_indices base (h ∷ hs) = ap suc (length-peak_indices (base + (2 * 2 ^ h - 1)) hs)

-- The peaks of the log of `n` nodes; the empty log has none.
abbrev pub peaks_of_size : ℕ → List ℕ
peaks_of_size zero = []
peaks_of_size (suc n) = peaks n

peaks_of_size-Mountains :
    (n : ℕ) (hs : List ℕ)
    → n + 1 < word
    → index_height n ≡ 0
    → Mountains 63 n hs
    → peaks_of_size n ≡ peak_indices 0 hs
peaks_of_size-Mountains zero [] room complete m = refl
peaks_of_size-Mountains zero (h ∷ hs) room complete m = absurd (omega (arith, m.1, pow_pos h))
peaks_of_size-Mountains (suc n) hs room complete m =
    let e : suc n ≡ n + 1 = omega arith in
    peaks-Mountains n (omega arith) hs (rw e at complete) (rw e at m)

-- The heights of the `n` nodes from node `i` on are `h`, `h + 1` and so on.
abbrev pub Rises : ℕ → ℕ → ℕ → Type 0
Rises i h zero = Unit {0}
Rises i h (suc n) = (index_height i ≡ h) × Rises (i + 1) (h + 1) n

module _ (l : ℕ) (h : l + 1 < 2 ^ 62) where
  -- No leaf stands between two leaves with numbers next to each other.
  no_leaf_between : (i : ℕ) → mmr_index l < i → i < mmr_index (l + 1) → index_height i ≢ 0
  no_leaf_between i above under leaf =
      let small = mmr_index-ones (l + 1) (omega arith) in
      let (e, few) = mmr_index-leaf_count i (omega arith) leaf in
      elim (dec_lt l (leaf_count i)) [
        | yes more ↦
            absurd (omega (arith, e, mmr_index_le (l + 1) (leaf_count i) few (omega arith)))
        | no fewer ↦
            absurd (omega (arith, e, mmr_index_le (leaf_count i) l (omega arith) (omega arith)))
      ]

  Rises-between :
      (n i g : ℕ)
      → mmr_index l ≤ i
      → i + n < mmr_index (l + 1)
      → index_height i ≡ g
      → Rises (i + 1) (g + 1) n
  Rises-between zero i g low high e = tt
  Rises-between (suc n) i g low high e =
      let small = mmr_index-ones (l + 1) (omega arith) in
      elim (index_height-next i (omega arith)) [
        | inl up ↦
            let up : index_height (i + 1) ≡ g + 1 = omega arith in
            (up, Rises-between n (i + 1) (g + 1) (omega arith) (omega arith) up)
        | inr leaf ↦ absurd (no_leaf_between (i + 1) (omega arith) (omega arith) leaf)
      ]

  -- The leaf's mountain takes the place of the last ones.
  peaks_popped :
      (left : List ℕ) × (popped : List ℕ) × (peaks_of_size (mmr_index l) ≡ left ++ popped)
      × (mmr_index (l + 1) ≡ mmr_index l + 1 + length popped)
      × (peaks_of_size (mmr_index (l + 1)) ≡ left ++ (mmr_index (l + 1) - 1) ∷ [])
  peaks_popped =
      let n = mmr_index l in
      let n' = mmr_index (l + 1) in
      let x = Numbered-of l (omega arith) in
      let small = mmr_index-ones l (omega arith) in
      let small' = mmr_index-ones (l + 1) (omega arith) in
      let (front, s, e, r) = carry 63 n x.heights x.mountains in
      elim r [
        | inl (low, m) ↦
            let hs = front ++ s ∷ [] in
            let counted : l + 1 ≡ leaves hs =
              omega (arith, leaves-carry front s, ap leaves e, x.counted) in
            let size : n' ≡ n + 1 + s =
              ap mmr_index counted ∙ mmr_index-Mountains (n + 1 + s) hs m in
            let m' : Mountains 63 n' hs = subst (λ c. Mountains 63 c hs) (sym size) m in
            let (behind, split) = peak_indices-append 0 front (below s) in
            (
              peak_indices 0 front,
              peak_indices behind (below s),
              peaks_of_size-Mountains n x.heights (omega arith) (mmr_index-leaf l (omega arith)).0
                    x.mountains
                  ∙ (ap (peak_indices 0) e ∙ split),
              omega (arith, size, length-peak_indices behind (below s), length-below s),
              peaks_of_size-Mountains n' hs (omega arith) (mmr_index-leaf (l + 1) (omega arith)).0
                    m'
                  ∙ (peak_indices-last 0 63 n' s front m'
                      ∙ ap (λ i. peak_indices 0 front ++ i ∷ []) (omega arith)),
            )
        | inr (top, none) ↦
            let all : x.heights ≡ below s = e ∙ ap (λ f. f ++ below s) none in
            absurd
              (omega (arith, ap leaves all, x.counted, leaves-below s, ap (λ (k : ℕ). 2 ^ k) top))
      ]

-- `LeafMinusSpurSum` of a count of leaves is the count of the peaks over them.
leaf_minus_spur_sum-peaks :
    (l : ℕ) → l < 2 ^ 62 → leaf_minus_spur_sum l ≡ length (peaks_of_size (mmr_index l))
leaf_minus_spur_sum-peaks l h =
    let x = Numbered-of l (omega arith) in
    let small = mmr_index-ones l (omega arith) in
    let ones : ones_count64 l ≡ length x.heights =
      ap ones_count64 (sym x.counted)
      ∙ ones_count64-leaves 63 (mmr_index l) x.heights (omega arith) x.mountains in
    let listed =
      peaks_of_size-Mountains (mmr_index l) x.heights (omega arith)
        (mmr_index-leaf l (omega arith)).0 x.mountains in
    leaf_minus_spur_sum-ones l (omega arith)
    ∙ (ones ∙ sym (ap length listed ∙ length-peak_indices 0 x.heights))

-- What a leaf with number `l` does to the stack of peaks.
pub record LeafStack (l : ℕ) : Type 0 where
  pub left : List ℕ
  pub popped : List ℕ
  pub next_leaf : mmr_index (l + 1) ≡ mmr_index l + 1 + spur_height_leaf l
  pub between : Rises (mmr_index l + 1) 1 (spur_height_leaf l)
  pub pops : length popped ≡ spur_height_leaf l
  pub before : peaks_of_size (mmr_index l) ≡ left ++ popped
  pub after : peaks_of_size (mmr_index (l + 1)) ≡ left ++ (mmr_index (l + 1) - 1) ∷ []
  pub counted_before : leaf_minus_spur_sum l ≡ length (peaks_of_size (mmr_index l))
  pub counted_after : leaf_minus_spur_sum (l + 1) ≡ length (peaks_of_size (mmr_index (l + 1)))

-- A leaf with a number `l`, where l + 1 < 2 ^ 62, pops as many of the peaks before it as
-- `SpurHeightLeaf` says and pushes one: that many nodes stand between it and the next leaf, of the
-- heights 1, 2 and so on; the peaks before it are some that are left and, at the end, that many
-- more; the peaks before the next leaf are those that are left and the last node before that leaf;
-- and `LeafMinusSpurSum` counts the peaks before either leaf.
pub leaf_stack : (l : ℕ) → l + 1 < 2 ^ 62 → LeafStack l
leaf_stack l h =
    let (left, popped, before, size, after) = peaks_popped l h in
    let grows = mmr_index-next l (omega arith) in
    record {
      left = left;
      popped = popped;
      next_leaf = grows;
      between =
          Rises-between l h (spur_height_leaf l) (mmr_index l) 0 (omega arith) (omega arith)
            (mmr_index-leaf l (omega arith)).0;
      pops = omega (arith, size, grows);
      before = before;
      after = after;
      counted_before = leaf_minus_spur_sum-peaks l (omega arith);
      counted_after = leaf_minus_spur_sum-peaks (l + 1) h;
    }
