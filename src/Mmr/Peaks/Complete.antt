-- ===== src/Mmr/Peaks/Complete.antt =====
-- `Peaks`, `LeafCount` and `PeakIndex` on complete logs, and `Peaks` on incomplete ones.
use mathlib.Core.Option
use go_merklelog.Base.{
  ℕ, ◌+◌, ◌-◌, ◌≤◌, ◌<◌, ◌≡◌, ◌≢◌, ◌↔◌, refl, sym, ap, ◌∙◌, some, List, [], get_elem?, arith,
}
use go_merklelog.Base.{ltb, if◌then◌else◌, lt→ltb, le→ltb, word, add64_exact}
use go_merklelog.Base.Pow.{pow_pos}
use go_merklelog.Mmr.Tree.{height_in}
use go_merklelog.Mmr.IndexHeight.{index_height}
use go_merklelog.Mmr.IndexHeight.Shape.{index_height-Tree}
use go_merklelog.Mmr.IndexHeight.Steps.{index_height-next}
use go_merklelog.Mmr.Mountains.{Mountains, leaves, peak_indices, Mountains-of_complete}
use go_merklelog.Mmr.Peaks.{peaks_loop, peaks, leaf_count, peak_index}
use go_merklelog.Mmr.Peaks.Range.{peaks_loop-Mountains}
use go_merklelog.Mmr.Peaks.Bitmap.{
  peaks_bitmap-leaves, peak_index-count_above, count_above-get_elem?,
}
use go_merklelog.Mmr.Peaks.Tops.{IsTop, IsTop-Ends, Ends-IsTop}
use go_merklelog.Mmr.Proof.Climb.{IsPeak}

-- A log of `last + 1` nodes as a range of mountains.
pub record Ranged (last : ℕ) : Type 0 where
  pub heights : List ℕ
  pub mountains : Mountains 63 (last + 1) heights
  pub listed : peaks last ≡ peak_indices 0 heights
  pub counted : leaf_count (last + 1) ≡ leaves heights

module _ (last : ℕ) (fits : last + 2 < word) where
  -- The guard of `Peaks` is the test that the next node is a leaf.
  peaks-eq : peaks last ≡ (
      if ltb (index_height last) (index_height (last + 1))
      then []
      else Option.get_or (peaks_loop 65 (last + 1) 0 []) [])
  unfolding peaks index_height
  peaks-eq = rw (add64_exact last 1 (omega arith)) refl

  -- `Peaks` of a complete log, from its mountains.
  pub peaks-Mountains :
      (hs : List ℕ)
      → index_height (last + 1) ≡ 0
      → Mountains 63 (last + 1) hs
      → peaks last ≡ peak_indices 0 hs
  peaks-Mountains hs complete m =
      peaks-eq
      ∙ rw
          (
            le→ltb (index_height last) (index_height (last + 1)) (omega arith),
            peaks_loop-Mountains 65 63 (last + 1) 0 [] hs (omega arith) (omega arith) (omega arith)
                m,
          )
          refl

  pub ranged : index_height (last + 1) ≡ 0 → Ranged last
  unfolding leaf_count
  ranged complete =
      let (hs, m) =
        Mountains-of_complete 63 (last + 1) (omega arith)
          (omega (arith, index_height-Tree (last + 1))) in
      record {
        heights = hs;
        mountains = m;
        listed = peaks-Mountains hs complete m;
        counted = peaks_bitmap-leaves (last + 1) hs m;
      }

  -- `Peaks` is nil on a log that misses an interior node.
  pub peaks-incomplete : index_height (last + 1) ≢ 0 → peaks last ≡ []
  peaks-incomplete more =
      peaks-eq
      ∙ rw
          (lt→ltb (index_height last) (index_height (last + 1))
            (ground (arith, index_height-next last)))
          refl

  module _ (complete : index_height (last + 1) ≡ 0) where
    IsPeak-IsTop : (p : ℕ) → IsPeak last p → IsTop 63 (last + 1) (p + 1)
    IsPeak-IsTop p t =
        let here = index_height-Tree p (omega (arith, t.inside)) in
        record {
          positive = omega arith;
          inside = omega (arith, t.inside);
          no_parent_behind =
              omega (arith, here, index_height-Tree (p + 1), t.no_parent_behind, t.inside);
          no_sibling = rw (← here) (omega (arith, t.no_sibling, pow_pos (index_height p)));
        }

    IsTop-IsPeak : (p : ℕ) → IsTop 63 (last + 1) (p + 1) → IsPeak last p
    IsTop-IsPeak p t =
        let here = index_height-Tree p (omega (arith, t.inside)) in
        record {
          inside = omega (arith, t.inside);
          no_parent_behind =
              omega (arith, here, index_height-Tree (p + 1), t.no_parent_behind, t.inside);
          no_sibling = rw here (omega (arith, t.no_sibling));
        }

    peak_index-place :
        (p j : ℕ)
        → p ≤ last
        → get_elem? (ranged complete).heights j ≡ some (height_in 63 (p + 1))
        → peak_index (leaf_count (last + 1)) (index_height p) ≡ j
    peak_index-place p j inside e =
        let r = ranged complete in
        let place =
          count_above-get_elem? 63 (last + 1) j (height_in 63 (p + 1)) r.heights r.mountains e in
        rw (r.counted, index_height-Tree p (omega arith))
          (peak_index-count_above 63 (last + 1) (height_in 63 (p + 1)) r.heights (omega arith)
              (omega (arith, place.1)) r.mountains
            ∙ place.0)

    -- On a complete log `Peaks` lists exactly the nodes that have no sibling in the log, and
    -- `PeakIndex`, from `LeafCount` and a peak's height, is the peak's place in that list.
    pub peaks-IsPeak :
        (p j : ℕ)
        → (get_elem? (peaks last) j ≡ some p)
          ↔ (IsPeak last p × (peak_index (leaf_count (last + 1)) (index_height p) ≡ j))
    peaks-IsPeak p j = (to, from)
      where
        r : Ranged last
        r = ranged complete

        to :
            get_elem? (peaks last) j ≡ some p
            → IsPeak last p × (peak_index (leaf_count (last + 1)) (index_height p) ≡ j)
        to e =
            let (above, t, height) =
              Ends-IsTop 63 (last + 1) 0 j p r.heights r.mountains
                (ap (λ l. get_elem? l j) (sym r.listed) ∙ e) in
            let whole : p + 1 - 0 ≡ p + 1 = omega arith in
            let peak = IsTop-IsPeak p (rw whole at t) in
            (peak, peak_index-place p j peak.inside (rw whole at height))

        from :
            IsPeak last p × (peak_index (leaf_count (last + 1)) (index_height p) ≡ j)
            → get_elem? (peaks last) j ≡ some p
        from (t, e) =
            let (i, (height, place)) =
              IsTop-Ends 63 (last + 1) 0 (p + 1) r.heights r.mountains (IsPeak-IsTop p t) in
            let same : i ≡ j = sym (peak_index-place p i t.inside height) ∙ e in
            ap (get_elem? (peaks last)) (sym same)
            ∙ ap (λ l. get_elem? l i) r.listed
            ∙ place
            ∙ ap some (omega arith)
