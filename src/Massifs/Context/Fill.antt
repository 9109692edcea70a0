-- ===== src/Massifs/Context/Fill.antt =====
-- The first massif from its creation on: `CreateFirstMassifContext` and the `AddIndexedEntry` of
-- values, one after the other, against the log of these values.
use go_merklelog.Base.{
  ℕ, suc, ◌+◌, ◌-◌, ◌*◌, ◌^◌, ◌≤◌, ◌<◌, ◌≡◌, refl, sym, ap, subst, ◌∙◌, some, List, [], ◌∷◌, ◌++◌,
  length, get_elem?, arith,
}
use go_merklelog.Base.{
  word, add64, sub64, shl64, shl64-one, length-append, get_elem?-append_left, get_elem?-append_last,
  lt-length_of_get_elem?,
}
use mathlib.Core.Option
use mathlib.Core.Option.{some_inj}
use mathlib.Core.List.{append_assoc, append-nil}
use native.Mathlib.Decide.{dec_lt}
use go_merklelog.Base.Pow.{lt-pow, pow_suc, pow_mono}
use go_merklelog.Base.Buffers.{Bytes}
use go_merklelog.Base.Results.{ok}
use go_merklelog.Mmr.Store.{IsMmr, IsComplete, node_at}
use go_merklelog.Mmr.IndexHeight.{index_height}
use go_merklelog.Mmr.Leaves.{mmr_index}
use go_merklelog.Mmr.Leaves.Growth.{mmr_index-le, mmr_index-next_complete, mmr_index-last}
use go_merklelog.Massifs.Layout.{range_last_leaf_index, tree_last_leaf_index}
use go_merklelog.Massifs.Start.{MassifStart, new_massif_start}
use go_merklelog.Massifs.Context.{log_start, MassifContext, Call, ◌>>=◌, last_leaf_mmr_index}
use go_merklelog.Mmr.IndexHeight.Steps.{index_height-zero}
use go_merklelog.Mmr.Leaves.Numbering.{mmr_index-Mountains}
use go_merklelog.Massifs.Context.First.{create_first_massif_context-Holds}
use go_merklelog.Massifs.Context.Append.{add_indexed_entry, create_first_massif_context}
use go_merklelog.Massifs.Context.Stored.{Holds, Is32, view, length-view}
use go_merklelog.Massifs.Context.Grow.{HasGrown, add_indexed_entry-Grown}

-- The values of the nodes are the log of the leaves: every leaf stands at its index, every interior
-- node commits to its position and children, and there is no other node.
pub record IsLogOf (digest : Bytes → Bytes) (leaves vs : List Bytes) : Type 0 where
  pub formed : IsMmr digest vs
  pub complete : IsComplete vs
  pub sized : length vs ≡ mmr_index (length leaves)
  pub stored : (j : ℕ) (v : Bytes) → get_elem? leaves j ≡ some v → node_at vs (mmr_index j) ≡ v

abbrev pub All32 : List Bytes → Type 0
All32 [] = Unit {0}
All32 (v ∷ values) = Is32 v × All32 values

node_at-some : (vs : List Bytes) (i : ℕ) (v : Bytes) → get_elem? vs i ≡ some v → node_at vs i ≡ v
node_at-some vs i v e = ap (λ o. Option.get_or o []) e

-- A leaf and its interior nodes, behind the log of some leaves.
IsLogOf-append :
    (digest : Bytes → Bytes) (leaves vs more new : List Bytes) (v : Bytes)
    → IsLogOf digest leaves vs
    → length leaves + 1 < 2 ^ 62
    → new ≡ (vs ++ v ∷ []) ++ more
    → length new + 2 < word
    → IsMmr digest new
    → IsComplete new
    → ((i : ℕ) → length (vs ++ v ∷ []) ≤ i → i < length new → 0 < index_height i)
    → IsLogOf digest (leaves ++ v ∷ []) new
IsLogOf-append digest leaves vs more new v log small e fits formed complete interior = record {
  formed = formed;
  complete = complete;
  sized =
      mmr_index-next_complete (length leaves) (length new) small fits
        (omega
          (arith, total, log.sized, length-append (vs ++ v ∷ []) more, length-append vs (v ∷ [])))
        complete (λ i lo hi. interior i (omega (arith, log.sized, length-append vs (v ∷ []))) hi)
      ∙ ap mmr_index (sym (length-append leaves (v ∷ [])));
  stored = stored;
}
  where
    total : length new ≡ length ((vs ++ v ∷ []) ++ more)
    total = ap length e

    kept : (i : ℕ) → i < length (vs ++ v ∷ []) → get_elem? new i ≡ get_elem? (vs ++ v ∷ []) i
    kept i low = ap (λ l. get_elem? l i) e ∙ get_elem?-append_left (vs ++ v ∷ []) more i low

    stored :
        (j : ℕ) (w : Bytes)
        → get_elem? (leaves ++ v ∷ []) j ≡ some w
        → node_at new (mmr_index j) ≡ w
    stored j w here = elim (dec_lt j (length leaves)) [
      | yes low ↦
          let d = length leaves - j in
          let to : j + d ≡ length leaves = omega arith in
          let inside : mmr_index j < length vs =
            omega (arith, log.sized, mmr_index-le j d (omega arith), ap mmr_index to) in
          let old = sym (get_elem?-append_left leaves (v ∷ []) j low) ∙ here in
          ap (λ o. Option.get_or o [])
            (kept (mmr_index j) (omega (arith, length-append vs (v ∷ [])))
              ∙ get_elem?-append_left vs (v ∷ []) (mmr_index j) inside)
          ∙ log.stored j w old
      | no high ↦
          let bound = lt-length_of_get_elem? (leaves ++ v ∷ []) j here in
          let last : j ≡ length leaves = omega (arith, bound, length-append leaves (v ∷ [])) in
          let same : v ≡ w = some_inj.0 (sym (get_elem?-append_last leaves v j last) ∙ here) in
          let place : mmr_index j ≡ length vs = ap mmr_index last ∙ sym log.sized in
          node_at-some new (mmr_index j) v (
            kept (mmr_index j) (omega (arith, length-append vs (v ∷ []), place))
            ∙ get_elem?-append_last vs v (mmr_index j) place)
          ∙ same
    ]

module _ (sha256 : Bytes → Bytes) where
  -- `AddIndexedEntry` of each value in turn
  pub add_entries : List Bytes → Call (Unit {0})
  add_entries [] mc = (ok tt, mc)
  add_entries (v ∷ values) mc = (add_indexed_entry sha256 v >>= λ _. add_entries values) mc

-- The first massif, whose log stands from byte `log_at` on.
module _ (sha256 : Bytes → Bytes) (digests : (b : Bytes) → Is32 (sha256 b)) (log_at epoch h : ℕ)
    (low : 2 ≤ h) (high : h ≤ 29) (fits : log_at + 2 ^ 30 * 32 < word) where
  abbrev start : MassifStart
  start = new_massif_start 0 epoch h 0 0

  abbrev HoldsFirst : MassifContext → Type 0
  HoldsFirst mc = Holds [] log_at start mc

  two_halves : 2 ^ h ≡ 2 * 2 ^ (h - 1)
  two_halves = let e : h ≡ suc (h - 1) = omega arith in ap (λ k. 2 ^ k) e ∙ pow_suc (h - 1)

  few : 2 ^ (h - 1) ≤ 2 ^ 28
  few = pow_mono (h - 1) 28 (omega arith)

  last_lem : (mc : MassifContext) → mc.start ≡ start → last_leaf_mmr_index mc + h + 1 ≡ 2 ^ h
  unfolding last_leaf_mmr_index range_last_leaf_index tree_last_leaf_index add64 sub64
      new_massif_start
  last_lem mc e =
      let one : shl64 1 h ≡ 2 ^ h = shl64-one h (omega arith) (omega (arith, two_halves, few)) in
      let here = ap (λ (s : MassifStart). range_last_leaf_index s.first_index s.massif_height) e in
      omega (arith, here, one, two_halves, few, lt-pow (h - 1))

  -- One more leaf, where the massif has room for it.
  add_lem :
      (mc : MassifContext) (leaves : List Bytes) (v : Bytes)
      → HoldsFirst mc
      → IsLogOf sha256 leaves (view [] mc)
      → Is32 v
      → length leaves < 2 ^ (h - 1)
      → (mc' : MassifContext) × (n : ℕ) × (add_indexed_entry sha256 v mc ≡ (ok n, mc'))
        × HoldsFirst mc'
        × IsLogOf sha256 (leaves ++ v ∷ []) (view [] mc')
  add_lem mc leaves v holds log is room =
      let last = mmr_index-last (h - 1) (length leaves) (omega arith) room in
      let grown : HasGrown [] log_at start sha256 digests (2 ^ 30) fits (omega arith)
          (view [] mc ++ v ∷ []) (add_indexed_entry sha256 v mc) =
        add_indexed_entry-Grown [] log_at start sha256 digests (2 ^ 30) fits (omega arith) mc v
          holds is (omega (arith, log.sized, last, last_lem mc holds.started, two_halves))
          (omega (arith, log.sized, last, few)) log.formed log.complete in
      let mc' = grown.state in
      (
        mc',
        length (view [] mc'),
        grown.ends,
        grown.valid,
        IsLogOf-append sha256 leaves (view [] mc) grown.more (view [] mc') v log
            (omega (arith, few)) grown.appended
            (omega (arith, length-view [] log_at start grown.valid, grown.valid.bounded))
            grown.formed grown.complete grown.interior,
      )

  entries_lem :
      (values : List Bytes) (mc : MassifContext) (leaves : List Bytes)
      → HoldsFirst mc
      → IsLogOf sha256 leaves (view [] mc)
      → All32 values
      → length leaves + length values ≤ 2 ^ (h - 1)
      → (mc' : MassifContext) × (add_entries sha256 values mc ≡ (ok tt, mc'))
        × IsLogOf sha256 (leaves ++ values) (view [] mc')
  unfolding add_entries
  entries_lem [] mc leaves holds log all room =
      (mc, refl, subst (λ l. IsLogOf sha256 l (view [] mc)) (sym (append-nil leaves)) log)
  entries_lem (v ∷ values) mc leaves holds log (is, all) room =
      let (mc1, n, ends, holds1, log1) = add_lem mc leaves v holds log is (omega arith) in
      let rest =
        entries_lem values mc1 (leaves ++ v ∷ []) holds1 log1 all
          (omega (arith, length-append leaves (v ∷ []))) in
      (
        rest.0,
        rw ends rest.1,
        subst (λ l. IsLogOf sha256 l (view [] rest.0)) (append_assoc leaves (v ∷ []) values) rest.2,
      )

empty-IsLogOf : (digest : Bytes → Bytes) → IsLogOf digest [] []
empty-IsLogOf digest = record {
  formed = λ i k low height. absurd (omega arith);
  complete = index_height-zero;
  sized = sym (mmr_index-Mountains 0 [] refl);
  stored = λ j v e. cc;
}

-- Where every digest has 32 bytes, for a height from 2 to 29, `CreateFirstMassifContext` succeeds, and
-- then `AddIndexedEntry` succeeds on each of up to 2 ^ (height - 1) values of 32 bytes; the massif
-- then holds the log of these values: value j is the node at `MMRIndex` of j, every interior node
-- commits to its position and children, and there are as many nodes as `MMRIndex` of their count.
pub create_first_massif_context-IsLogOf :
    (sha256 : Bytes → Bytes) (digests : (b : Bytes) → Is32 (sha256 b)) (epoch h : ℕ)
    (values : List Bytes)
    → 2 ≤ h
    → h ≤ 29
    → All32 values
    → length values ≤ 2 ^ (h - 1)
    → (mc : MassifContext) × (mc' : MassifContext) × (create_first_massif_context epoch h ≡ ok mc)
      × (add_entries sha256 values mc ≡ (ok tt, mc'))
      × IsLogOf sha256 values (view [] mc')
create_first_massif_context-IsLogOf sha256 digests epoch h values low high all room =
    let (mc, made, holds, empty, fits) = create_first_massif_context-Holds epoch h low high in
    let (mc', added, log) =
      entries_lem sha256 digests (log_start mc) epoch h low high fits values mc [] holds
        (subst (IsLogOf sha256 []) (sym empty) (empty-IsLogOf sha256)) all (omega arith) in
    (mc, mc', made, added, log)
