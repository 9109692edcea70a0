-- ===== src/Massifs/Context/Grow.antt =====
-- `AddIndexedEntry` of massifs/massifcontext.go on a context that holds the end of a log.
use go_merklelog.Base.{
  ℕ, ◌+◌, ◌*◌, ◌≤◌, ◌<◌, ◌≡◌, ap, ◌∙◌, true, false, Option, List, [], ◌∷◌, ◌++◌, length, arith,
}
use go_merklelog.Base.{word, ltb, ◌==◌, le→ltb, ==_iff, Bool-cases, add64, add64_exact}
use mathlib.Core.Logic.{inl, inr}
use go_merklelog.Base.Buffers.{Bytes}
use go_merklelog.Base.Results.{Result}
use go_merklelog.Mmr.Errors.{R}
use go_merklelog.Mmr.Store.{IsMmr, IsComplete}
use go_merklelog.Mmr.Add.{add_hashed_leaf}
use go_merklelog.Mmr.Add.Backfill.{Grown, Grown-of_ends, add_hashed_leaf-Grown}
use go_merklelog.Massifs.Start.{MassifStart}
use go_merklelog.Massifs.Errors.{lift, from_mmr}
use go_merklelog.Massifs.Context.{
  MassifContext, count, last_leaf_mmr_index, log_start, index_end, index_size,
}
use go_merklelog.Massifs.Context.Append.{appender, add_indexed_entry, top_of_stack}
use go_merklelog.Massifs.Context.Stored.{Holds, Is32, view, length-view, count-Holds}
use go_merklelog.Massifs.Context.Reads.{context-IsLog}

module _ (old : List Bytes) (log_at : ℕ) (start : MassifStart) where
  abbrev with_ancestor : MassifContext → Option ℕ → MassifContext
  with_ancestor mc n = record mc { next_ancestor = n }

  -- The next ancestor is not read where there is a map.
  with_ancestor-Holds :
      (mc : MassifContext) (n : Option ℕ)
      → Holds old log_at start mc
      → Holds old log_at start (with_ancestor mc n)
  unfolding log_start index_end index_size
  with_ancestor-Holds mc n h = record {
    own = h.own;
    started = h.started;
    before = h.before;
    located = h.located;
    sized = h.sized;
    fits = h.fits;
    bounded = h.bounded;
    based = h.based;
    mapped = h.mapped;
    ordered = h.ordered;
    stacked = h.stacked;
  }

  module _ (sha256 : Bytes → Bytes) (digests : (b : Bytes) → Is32 (sha256 b)) (capacity : ℕ)
      (fits : log_at + capacity * 32 < word) (small : capacity + 2 < word) where
    abbrev pub HasGrown : {E : Type 0} → List Bytes → Result E ℕ × MassifContext → Type 0
    HasGrown vs r =
        Grown sha256 appender (view old) (Holds old log_at start) Is32 capacity
          (context-IsLog old log_at start capacity fits small) digests vs r

    -- the append to the log, with either next ancestor
    append_lem :
        (mc : MassifContext) (n : Option ℕ) (value : Bytes)
        → Holds old log_at start mc
        → Is32 value
        → length (view old mc) + 65 ≤ capacity
        → IsMmr sha256 (view old mc)
        → IsComplete (view old mc)
        → HasGrown
            (view old mc ++ value ∷ [])
            (add_hashed_leaf sha256 appender value (with_ancestor mc n))
    unfolding log_start index_end index_size count
    append_lem mc n value h is room formed complete =
        add_hashed_leaf-Grown sha256 appender (view old) (Holds old log_at start) Is32 capacity
          (context-IsLog old log_at start capacity fits small) digests (with_ancestor mc n) value
          (omega arith) room is (with_ancestor-Holds mc n h) formed complete

    of_append :
        {vs : List Bytes} {r : R ℕ × MassifContext}
        → HasGrown vs r
        → HasGrown vs (lift from_mmr r.0, r.1)
    of_append g =
        Grown-of_ends sha256 appender (view old) (Holds old log_at start) Is32 capacity
          (context-IsLog old log_at start capacity fits small) digests g
          (ap (λ r. (lift from_mmr r.0, r.1)) g.ends)

    -- Where every digest has 32 bytes, on a context that holds the end of a complete and well-formed
    -- log, with the massif not full and room for 65 more nodes, `AddIndexedEntry` of 32 bytes
    -- succeeds: it appends the leaf and then only interior nodes, returns the new count of nodes, and
    -- leaves a context that holds the end of a complete log in which every interior node commits to
    -- its position and children, those in earlier massifs included.
    pub add_indexed_entry-Grown :
        (mc : MassifContext) (value : Bytes)
        → Holds old log_at start mc
        → Is32 value
        → length (view old mc) ≤ last_leaf_mmr_index mc
        → length (view old mc) + 65 ≤ capacity
        → IsMmr sha256 (view old mc)
        → IsComplete (view old mc)
        → HasGrown (view old mc ++ value ∷ []) (add_indexed_entry sha256 value mc)
    unfolding add_indexed_entry
    add_indexed_entry-Grown mc value h is free room formed complete =
        let next = add64 mc.start.first_index (count mc) in
        let next_eq : next ≡ length (view old mc) =
          ap (add64 mc.start.first_index) (count-Holds old log_at start h)
          ∙ add64_exact mc.start.first_index h.own (omega (arith, h.based, h.bounded))
          ∙ omega (arith, h.based, length-view old log_at start h) in
        let sized : (length value == 32) ≡ true = (==_iff (length value) 32).1 is in
        let not_full : ltb (last_leaf_mmr_index mc) next ≡ false =
          le→ltb (last_leaf_mmr_index mc) next (omega (arith, next_eq)) in
        elim (Bool-cases (next == last_leaf_mmr_index mc)) [
          | inl last ↦
              rw (sized, not_full, last)
                (of_append (
                  append_lem mc (top_of_stack mc.start.peak_stack_len) value h is room formed
                    complete))
          | inr more ↦
              rw (sized, not_full, more)
                (of_append (append_lem mc mc.next_ancestor value h is room formed complete))
        ]
