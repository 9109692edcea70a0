-- ===== src/Massifs/Context/Stored.antt =====
-- A massif context as the store of the mmr package: `Get` and `Append` of massifs/massifcontext.go
-- on a context that holds the end of a log.
use go_merklelog.Base.{
  ℕ, suc, ◌+◌, ◌*◌, ◌≤◌, ◌<◌, ◌≡◌, refl, sym, ap, ◌∙◌, some, List, [], ◌∷◌, ◌++◌, length, get_elem?,
  arith,
}
use go_merklelog.Base.{word, sub64, length-append}
use mathlib.Core.List.{append_assoc}
use go_merklelog.Base.Buffers.{Bytes, take, drop}
use go_merklelog.Base.Buffers.Values.{
  take-drop-append, values, length-values, values-append, drop-append, length-drop,
}
use go_merklelog.Mmr.Store.{IsComplete, node_at}
use go_merklelog.Mmr.IndexHeight.{index_height}
use go_merklelog.Mmr.Peaks.{peaks}
use go_merklelog.Mmr.Proof.Climb.{IsPeak}
use go_merklelog.Massifs.Start.{MassifStart}
use go_merklelog.Massifs.Context.{
  index_size, MassifContext, make_peak_stack_map, count, log_start, index_end,
}

-- The log before the massif: its next two nodes are leaves.
pub record IsBefore (old : List Bytes) (massif_height : ℕ) : Type 0 where
  pub small : length old + 2 < word
  pub complete : IsComplete old
  pub two_leaves : index_height (length old + 1) ≡ 0
  pub high : 2 ≤ massif_height
  pub narrow : massif_height < word
  -- The massif's nodes are no children of a node that is lower than a massif.
  pub tall : (p : ℕ) → p < length old → IsPeak (length old) p → massif_height ≤ index_height p + 1

abbrev pub Is32 : Bytes → Type 0
Is32 v = length v ≡ 32

-- the values of the log: those before the massif, and those in it
abbrev pub view : List Bytes → MassifContext → List Bytes
view old mc = old ++ values (count mc) (drop (log_start mc) mc.data_bytes)

module _ (old : List Bytes) (log_at : ℕ) (start : MassifStart) where
  -- A context with the record `start` that holds the end of a log, after `old`: its values stand from
  -- `log_at` on,
  -- and its stack has the peaks before it.
  pub record Holds (mc : MassifContext) : Type 0 where
    pub own : ℕ
    pub started : mc.start ≡ start
    pub before : IsBefore old mc.start.massif_height
    pub located : log_start mc ≡ log_at
    pub sized : length mc.data_bytes ≡ log_at + own * 32
    pub fits : log_at + own * 32 < word
    pub bounded : length old + own + 2 < word
    pub based : mc.start.first_index ≡ length old
    pub mapped : mc.peak_stack_map ≡ make_peak_stack_map mc.start.massif_height (length old)
    pub ordered : index_end mc ≤ log_at
    pub stacked :
        (k p : ℕ)
        → get_elem? (peaks (length old)) k ≡ some p
        → p < length old
        → (index_end mc + k * 32 + 32 ≤ log_at)
          × (take 32 (drop (index_end mc + k * 32) mc.data_bytes) ≡ node_at old p)

  pub count-Holds : {mc : MassifContext} (h : Holds mc) → count mc ≡ h.own
  unfolding count sub64
  count-Holds h = rw (h.located, h.sized) (omega (arith, h.fits))

  pub view_eq :
      {mc : MassifContext} (h : Holds mc)
      → view old mc ≡ old ++ values h.own (drop log_at mc.data_bytes)
  view_eq {mc} h = rw (count-Holds h, h.located) refl

  pub length-view : {mc : MassifContext} (h : Holds mc) → length (view old mc) ≡ length old + h.own
  length-view {mc} h =
      let own = values h.own (drop log_at mc.data_bytes) in
      omega (
        arith,
        ap length (view_eq h),
        length-append old own,
        length-values h.own (drop log_at mc.data_bytes),
      )

  abbrev pub appended : MassifContext → Bytes → MassifContext
  appended mc v = record mc { data_bytes = mc.data_bytes ++ v }

  -- `Append` of a value keeps what the context holds, and adds the value.
  pub append-Holds :
      (mc : MassifContext) (v : Bytes)
      → Is32 v
      → log_at + length (view old mc) * 32 + 32 < word
      → length (view old mc) + 3 < word
      → (h : Holds mc) → Holds (appended mc v)
  unfolding log_start index_end index_size
  append-Holds mc v is room small h = record {
    own = h.own + 1;
    started = h.started;
    before = h.before;
    located = h.located;
    sized = omega (arith, length-append mc.data_bytes v, h.sized);
    fits = omega (arith, length-view h);
    bounded = omega (arith, length-view h);
    based = h.based;
    mapped = h.mapped;
    ordered = h.ordered;
    stacked = λ k p e low.
        let (inside, same) = h.stacked k p e low in
        (
          inside,
          take-drop-append 32 (index_end mc + k * 32) mc.data_bytes v
                (omega (arith, h.sized, inside))
              ∙ same,
        );
  }

  pub append-view :
      (mc : MassifContext) (v : Bytes)
      → Is32 v
      → (h : Holds mc) (h' : Holds (appended mc v))
      → view old (appended mc v) ≡ view old mc ++ v ∷ []
  append-view mc v is h h' =
      let more : h'.own ≡ suc h.own =
        omega (arith, h'.sized, h.sized, length-append mc.data_bytes v) in
      let cut = drop-append log_at mc.data_bytes v (omega (arith, h.sized)) in
      view_eq h'
      ∙ ap (λ n. old ++ values n (drop log_at (mc.data_bytes ++ v))) more
      ∙ ap (λ b. old ++ values (suc h.own) b) cut
      ∙ ap (◌++◌ old) (
          values-append h.own (drop log_at mc.data_bytes) v
            (omega (arith, h.sized, length-drop log_at mc.data_bytes (omega (arith, h.sized)))) is)
      ∙ sym (append_assoc old (values h.own (drop log_at mc.data_bytes)) (v ∷ []))
      ∙ ap (λ l. l ++ v ∷ []) (sym (view_eq h))
