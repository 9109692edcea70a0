-- ===== src/Massifs/Context/Reads.antt =====
-- `Get` and `Append` of massifs/massifcontext.go on a context that holds the end of a log: such a
-- context is a store of the mmr package.
use go_merklelog.Base.{
  ℕ, suc, ◌+◌, ◌-◌, ◌*◌, ◌%◌, ◌^◌, ◌≤◌, ◌<◌, ◌≡◌, ◌≢◌, ◌⊎◌, refl, sym, ap, ◌∙◌, true, false, some,
  List, [], length, get_elem?, arith,
}
use go_merklelog.Base.{
  word, ◌==◌, le→ltb, le→leb, lt→leb, neq→==, ==_iff, add64_exact, sub64_exact, add64, sub64, mul64,
  length-append, get_elem?-append_left, get_elem?-append_right,
}
use mathlib.Core.Logic.{inl, inr}
use mathlib.Core.Option
use native.Mathlib.Decide.{dec_lt}
use go_merklelog.Base.Pow.{pow_suc, pow_pos}
use go_merklelog.Base.Buffers.{Bytes, take, drop, read_bytes}
use go_merklelog.Base.Buffers.Values.{values, get_elem?-values, length-drop}
use go_merklelog.Base.Results.{ok}
use go_merklelog.Mmr.Store.{IsLog, node_at}
use go_merklelog.Mmr.IndexHeight.{index_height}
use go_merklelog.Mmr.IndexHeight.Children.{Children-of}
use go_merklelog.Mmr.Peaks.{peaks, peak_index, leaf_count}
use go_merklelog.Mmr.Peaks.Complete.{peaks-IsPeak}
use go_merklelog.Mmr.Proof.Climb.{IsPeak}
use go_merklelog.Massifs.Start.{MassifStart}
use go_merklelog.Massifs.Errors.{as_store}
use go_merklelog.Massifs.Layout.{indexed_log_value}
use go_merklelog.Massifs.Context.{
  MassifContext, make_peak_stack_map, stack_map_loop, count, range_count, log_start, index_end, get,
  append, get_own, get_stacked_peak, peak_stack_index, lookup_peak,
}
use go_merklelog.Massifs.Context.PeakMap.{lookup_peak-stack_map_loop}
use go_merklelog.Massifs.Context.Append.{appender}
use go_merklelog.Massifs.Context.Stored.{
  Holds, Is32, view, view_eq, appended, append-Holds, append-view, count-Holds, length-view,
}

module _ (old : List Bytes) (log_at : ℕ) (start : MassifStart) where
  -- A node of the massif is read from the bytes behind the log's start.
  get_own_lem :
      (mc : MassifContext) (i k : ℕ) (h : Holds old log_at start mc)
      → i ≡ length old + k
      → k < h.own
      → get_own i mc ≡ ok (node_at (view old mc) i)
  unfolding get_own indexed_log_value read_bytes mul64 sub64
  get_own_lem mc i k h e low =
      let place : mul64 (sub64 i mc.start.first_index) 32 ≡ k * 32 =
        omega (arith, h.based, e, low, h.fits, h.before.small) in
      let value : get_elem? (view old mc) i
          ≡ some (take 32 (drop (k * 32) (drop log_at mc.data_bytes))) =
        ap (λ vs. get_elem? vs i) (view_eq old log_at start h)
        ∙ get_elem?-append_right old (values h.own (drop log_at mc.data_bytes)) i k e
        ∙ get_elem?-values h.own k (drop log_at mc.data_bytes) low in
      let size = length-drop log_at mc.data_bytes (omega (arith, h.sized)) in
      rw
        (
          value,
          h.located,
          le→leb log_at (length mc.data_bytes) (omega (arith, h.sized)),
          place,
          le→leb (k * 32 + 32) (length (drop log_at mc.data_bytes)) (omega (arith, h.sized)),
        )
        refl

  -- The left child of the next node, where it is before the massif, is a peak of the log with the
  -- massif's first leaf.
  left_child-IsPeak :
      {mc : MassifContext} (h : Holds old log_at start mc) (i k : ℕ)
      → length (view old mc) + 2 < word
      → index_height (length (view old mc)) ≡ suc k
      → i ≡ length (view old mc) - 2 * 2 ^ k
      → i < length old
      → IsPeak (length old) i
  left_child-IsPeak {mc} h i k fits height e low =
      let n = length (view old mc) in
      let c = Children-of n k fits height in
      let size = length-view old log_at start h in
      let here : index_height i ≡ k = ap index_height e ∙ c.left in
      let first : n ≢ length old =
        λ same. absurd (omega (arith, ap index_height same, h.before.complete)) in
      let second : n ≢ length old + 1 =
        λ same. absurd (omega (arith, ap index_height same, h.before.two_leaves)) in
      record {
        inside = omega arith;
        no_parent_behind = omega (arith, here, ap (λ j. index_height (j + 1)) e, c.behind_left);
        no_sibling = rw here (omega (arith, c.room, pow_suc k, pow_pos k, first, second));
      }

  -- the stack place of a peak before the massif
  peak_place_lem :
      (mc : MassifContext) (i j : ℕ) (h : Holds old log_at start mc)
      → i < length old
      → get_elem? (peaks (length old)) j ≡ some i
      → IsPeak (length old) i
      → peak_stack_index i mc ≡ (ok j, mc)
  unfolding peak_stack_index make_peak_stack_map
  peak_place_lem mc i j h low here peak =
      let mh = mc.start.massif_height in
      let listed = peaks-IsPeak (length old) h.before.small h.before.two_leaves i in
      let high : sub64 mh 1 ≤ index_height i = omega (
        arith,
        h.before.tall i low peak,
        sub64_exact mh 1 (omega (arith, h.before.high)) h.before.narrow,
      ) in
      let place : lookup_peak i (stack_map_loop mh 0 (peaks (length old))) ≡ some j =
        lookup_peak-stack_map_loop mh 0 (peaks (length old)) i j here
          (λ k e. sym ((listed k).0 e).1 ∙ ((listed j).0 here).1) high
        ∙ ap some (omega arith) in
      let some_height : (mh == 0) ≡ false =
        neq→== mh 0 (λ e. absurd (omega (arith, h.before.high))) in
      let map_here : mc.peak_stack_map ≡ some (stack_map_loop mh 0 (peaks (length old))) =
        h.mapped ∙ rw some_height refl in
      simp (peak_stack_index, map_here, place) refl

  stacked_lem :
      (mc : MassifContext) (i j : ℕ) (h : Holds old log_at start mc)
      → i < length old
      → get_elem? (peaks (length old)) j ≡ some i
      → get_stacked_peak j mc ≡ ok (node_at old i)
  unfolding get_stacked_peak read_bytes mul64 add64
  stacked_lem mc i j h low here =
      let (inside, value) = h.stacked j i here low in
      let at : (index_end mc + j * 32 % word) % word ≡ index_end mc + j * 32 =
        omega (arith, h.fits) in
      let behind : (index_end mc + j * 32 + 32) % word ≡ index_end mc + j * 32 + 32 =
        omega (arith, h.fits) in
      rw
        (
          h.located,
          le→ltb log_at (index_end mc) h.ordered,
          at,
          behind,
          le→ltb log_at (index_end mc + j * 32 + 32) inside,
          le→leb (index_end mc + j * 32 + 32) (length mc.data_bytes) (omega (arith, h.sized)),
          value,
        )
        refl

  -- A peak before the massif is read from the stack.
  get_peak_lem :
      (mc : MassifContext) (i : ℕ) (h : Holds old log_at start mc)
      → i < length old
      → IsPeak (length old) i
      → get i mc ≡ (ok (node_at (view old mc) i), mc)
  unfolding get
  get_peak_lem mc i h low peak =
      let j = peak_index (leaf_count (length old + 1)) (index_height i) in
      let here : get_elem? (peaks (length old)) j ≡ some i =
        (peaks-IsPeak (length old) h.before.small h.before.two_leaves i j).1 (peak, refl) in
      let value : node_at (view old mc) i ≡ node_at old i =
        ap (λ o. Option.get_or o [])
          (get_elem?-append_left old (values (count mc) (drop (log_start mc) mc.data_bytes)) i
            low) in
      let some_before : (mc.start.first_index == 0) ≡ false =
        neq→== mc.start.first_index 0 (λ e. absurd (omega (arith, h.based))) in
      rw
        (
          value,
          lt→leb mc.start.first_index i (omega (arith, h.based)),
          some_before,
          peak_place_lem mc i j h low here peak,
          stacked_lem mc i j h low here,
        )
        refl

  get_own_node :
      (mc : MassifContext) (i : ℕ) (h : Holds old log_at start mc)
      → length old ≤ i
      → i < length (view old mc)
      → get i mc ≡ (ok (node_at (view old mc) i), mc)
  unfolding get
  get_own_node mc i h lo hi =
      rw
        (
          get_own_lem mc i (i - length old) h (omega arith)
              (omega (arith, length-view old log_at start h)),
          le→leb mc.start.first_index i (omega (arith, h.based)),
        )
        refl

  get_child_lem :
      (mc : MassifContext) (i k : ℕ) (h : Holds old log_at start mc)
      → index_height (length (view old mc)) ≡ suc k
      → (i ≡ length (view old mc) - 2 * 2 ^ k) ⊎ (i ≡ length (view old mc) - 1)
      → get i mc ≡ (ok (node_at (view old mc) i), mc)
  get_child_lem mc i k h height (inl left) = elim (dec_lt i (length old)) [
    | yes low ↦ get_peak_lem mc i h low (
        left_child-IsPeak h i k (omega (arith, length-view old log_at start h, h.bounded)) height
          left low)
    | no own ↦
        let c =
          Children-of (length (view old mc)) k
            (omega (arith, length-view old log_at start h, h.bounded)) height in
        get_own_node mc i h (omega arith) (omega (arith, c.room, pow_suc k, pow_pos k))
  ]
  get_child_lem mc i k h height (inr right) =
      let c =
        Children-of (length (view old mc)) k
          (omega (arith, length-view old log_at start h, h.bounded)) height in
      let first : length (view old mc) ≢ length old =
        λ same. absurd (omega (arith, ap index_height same, h.before.complete)) in
      get_own_node mc i h (omega (arith, first, length-view old log_at start h))
        (omega (arith, c.room, pow_suc k, pow_pos k))

  -- A context that holds the end of a log is a store of the log.
  pub context-IsLog :
      (capacity : ℕ)
      → log_at + capacity * 32 < word
      → capacity + 2 < word
      → IsLog appender (view old) (Holds old log_at start) Is32 capacity
  unfolding append range_count
  context-IsLog capacity fits small = record {
    get_stored = λ mc i k h height child.
        let read = get_child_lem mc i k h height child in ap (λ r. (as_store r.0, r.1)) read;
    append_stored = λ mc v h is room.
        let size = length-view old log_at start h in
        let h' = append-Holds old log_at start mc v is (omega arith) (omega arith) h in
        let sized : (length v == 32) ≡ true = (==_iff (length v) 32).1 is in
        let more : h'.own ≡ h.own + 1 =
          omega (arith, h'.sized, h.sized, length-append mc.data_bytes v) in
        let next : add64 mc.start.first_index (count (appended old log_at start mc v))
            ≡ length (view old mc) + 1 =
          ap (add64 mc.start.first_index) (count-Holds old log_at start h')
          ∙ add64_exact mc.start.first_index h'.own (omega (arith, h.based, h'.bounded))
          ∙ omega (arith, h.based, size, more) in
        (
          appended old log_at start mc v,
          rw (sized, append) (ap (λ n. (ok n, appended old log_at start mc v)) next),
          append-view old log_at start mc v is h h',
          h',
        );
  }
