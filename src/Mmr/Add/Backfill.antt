-- ===== src/Mmr/Add/Backfill.antt =====
-- `AddHashedLeaf` keeps a log well formed: it appends the leaf and every interior node that the
-- leaf completes, and nothing else.
use go_merklelog.Base.{
  ℕ, zero, suc, ◌+◌, ◌-◌, ◌*◌, ◌^◌, ◌≤◌, ◌<◌, ◌≡◌, ◌⊎◌, inl, inr, refl, sym, ap, ◌∙◌, List, [], ◌∷◌,
  ◌++◌, length, arith,
}
use go_merklelog.Base.{
  word, sub64, shl64, add64_exact, sub64_exact, shl64-two, length-append, get_elem?-append_left,
  get_elem?-append_last, lt→ltb, le→ltb,
}
use go_merklelog.Base.Pow.{pow_suc, pow_pos}
use mathlib.Core.Option
use mathlib.Core.List.{append_assoc, append-nil}
use native.Mathlib.Decide.{ℕ_discrete}
use go_merklelog.Base.Results.{Result, ok}
use go_merklelog.Mmr.Hasher.{Bytes, hash_pos_pair64, sum}
use go_merklelog.Mmr.Store.{NodeAppender, IsLog, IsMmr, IsComplete, node_at}
use go_merklelog.Mmr.IndexHeight.{index_height}
use go_merklelog.Mmr.IndexHeight.Steps.{index_height-lt, index_height_room, index_height-next}
use go_merklelog.Mmr.Add.{backfill_step, backfill_loop, add_hashed_leaf}

node_at-append :
    (vs : List Bytes) (v : Bytes) (i : ℕ) → i < length vs → node_at (vs ++ v ∷ []) i ≡ node_at vs i
node_at-append vs v i h = ap (λ o. Option.get_or o []) (get_elem?-append_left vs (v ∷ []) i h)

node_at-last : (vs : List Bytes) (v : Bytes) (i : ℕ) → i ≡ length vs → node_at (vs ++ v ∷ []) i ≡ v
node_at-last vs v i e = ap (λ o. Option.get_or o []) (get_elem?-append_last vs v i e)

module _ (digest : Bytes → Bytes) where
  abbrev parent_value : List Bytes → ℕ → ℕ → Bytes
  parent_value vs i h =
      hash_pos_pair64 digest (i + 1) (node_at vs (i - 2 * 2 ^ h)) (node_at vs (i - 1))

  -- Appending a leaf, or the value that an interior node must have, keeps the log well formed.
  append-IsMmr :
      (vs : List Bytes) (v : Bytes)
      → length vs + 2 < word
      → IsMmr digest vs
      → ((h : ℕ) → index_height (length vs) ≡ suc h → v ≡ parent_value vs (length vs) h)
      → IsMmr digest (vs ++ v ∷ [])
  append-IsMmr vs v fits old new i h lt height =
      let size = length-append vs (v ∷ []) in
      let room : 2 * 2 ^ suc h ≤ i + 2 = rw height at (index_height_room i (omega (arith, size))) in
      let left : i - 2 * 2 ^ h < length vs = omega (arith, size, pow_pos h, pow_suc h) in
      let right : i - 1 < length vs = omega (arith, size, pow_pos h, pow_suc h) in
      rw (node_at-append vs v (i - 2 * 2 ^ h) left, node_at-append vs v (i - 1) right)
        (elim (ℕ_discrete i (length vs)) [
          | yes e ↦ rw (node_at-last vs v i e) (rw e (new h (ap index_height (sym e) ∙ height)))
          | no ne ↦
              let below : i < length vs = omega (arith, size) in
              rw (node_at-append vs v i below) (old i h below height)
        ])

  module _ {S : Type 0} (store : NodeAppender S) (view : S → List Bytes) (Valid : S → Type 0)
      (IsValue : Bytes → Type 0) (capacity : ℕ) (log : IsLog store view Valid IsValue capacity)
      (digests : (b : Bytes) → IsValue (digest b)) where
    -- a log that `AddHashedLeaf` may leave behind when it ends in `r`, from the values `vs`
    pub record Grown {E : Type 0} (vs : List Bytes) (r : Result E ℕ × S) : Type 0 where
      pub more : List Bytes
      pub state : S
      pub ends : r ≡ (ok (length (view state)), state)
      pub appended : view state ≡ vs ++ more
      pub interior : (i : ℕ) → length vs ≤ i → i < length (view state) → 0 < index_height i
      pub valid : Valid state
      pub formed : IsMmr digest (view state)
      pub complete : IsComplete (view state)

    parent_value-IsValue : (vs : List Bytes) (i h : ℕ) → IsValue (parent_value vs i h)
    unfolding hash_pos_pair64 sum
    parent_value-IsValue vs i h = digests _

    -- A round at the end of the log, below a higher next node, appends that node's value.
    step_lem :
        (s : S) (h : ℕ)
        → length (view s) + 2 < word
        → length (view s) < capacity
        → Valid s
        → index_height (length (view s)) ≡ suc h
        → (s' : S) × (backfill_step digest store (length (view s)) h s
            ≡ (ok (length (view s) + 1), s'))
          × (view s' ≡ view s ++ parent_value (view s) (length (view s)) h ∷ [])
          × Valid s'
    unfolding backfill_step hash_pos_pair64
    step_lem s h fits room valid height =
        let n = length (view s) in
        let here : 2 * 2 ^ suc h ≤ n + 2 = rw height at (index_height_room n (omega arith)) in
        let low : h < 64 = omega (arith, index_height-lt n) in
        let shift : shl64 2 h ≡ 2 * 2 ^ h = shl64-two h low (omega (arith, pow_suc h)) in
        let left : sub64 n (shl64 2 h) ≡ n - 2 * 2 ^ h =
          rw shift
            (sub64_exact n (2 * 2 ^ h) (omega (arith, pow_suc h, pow_pos h)) (omega arith)) in
        let right : sub64 n 1 ≡ n - 1 =
          sub64_exact n 1 (omega (arith, pow_suc h, pow_pos h)) (omega arith) in
        let new =
          log.append_stored s (parent_value (view s) n h) valid (parent_value-IsValue (view s) n h)
            room in
        (
          new.0,
          rw
              (
                left,
                log.get_stored s (n - 2 * 2 ^ h) h valid height (inl refl),
                right,
                log.get_stored s (n - 1) h valid height (inr refl),
                add64_exact n 1 (omega arith),
              )
              new.1,
          new.2,
          new.3,
        )

    Grown-after :
        {E : Type 0} {vs ws : List Bytes} {r : Result E ℕ × S} (v : Bytes)
        → ws ≡ vs ++ v ∷ []
        → 0 < index_height (length vs)
        → Grown ws r
        → Grown vs r
    Grown-after {vs = vs} {ws = ws} v e pos g = record {
      more = v ∷ g.more;
      state = g.state;
      ends = g.ends;
      appended = g.appended ∙ ap (λ l. l ++ g.more) e ∙ append_assoc vs (v ∷ []) g.more;
      interior = λ i lo hi. elim (ℕ_discrete i (length vs)) [
        | yes same ↦ rw same pos
        | no later ↦
            let size : length ws ≡ length vs + 1 = ap length e ∙ length-append vs (v ∷ []) in
            g.interior i (omega arith) hi
      ];
      valid = g.valid;
      formed = g.formed;
      complete = g.complete;
    }

    -- The outcome matters alone, not the kind of the errors.
    pub Grown-of_ends :
        {E E' : Type 0} {vs : List Bytes} {r : Result E ℕ × S} {r' : Result E' ℕ × S}
        → (g : Grown vs r) → r' ≡ (ok (length (view g.state)), g.state)
        → Grown vs r'
    Grown-of_ends g e = record {
      more = g.more;
      state = g.state;
      ends = e;
      appended = g.appended;
      interior = g.interior;
      valid = g.valid;
      formed = g.formed;
      complete = g.complete;
    }

    loop_lem :
        (fuel h : ℕ) (s : S)
        → 64 ≤ fuel + h
        → h < 64
        → length (view s) + fuel + 2 < word
        → length (view s) + fuel ≤ capacity
        → (index_height (length (view s)) ≡ suc h) ⊎ (index_height (length (view s)) ≡ 0)
        → Valid s
        → IsMmr digest (view s)
        → Grown (view s) (backfill_loop digest store fuel (length (view s)) h s)
    unfolding backfill_loop
    loop_lem zero h s f b fits room next valid formed = absurd (omega arith)
    loop_lem (suc fuel) h s f b fits room (inl higher) valid formed =
        let n = length (view s) in
        let round = step_lem s h (omega arith) (omega arith) valid higher in
        let s' = round.0 in
        let size : length (view s') ≡ n + 1 =
          ap length round.2 ∙ length-append (view s) (parent_value (view s) n h ∷ []) in
        let kept : IsMmr digest (view s') = rw round.2 (
          append-IsMmr (view s) (parent_value (view s) n h) (omega arith) formed
            (λ k e. ap (parent_value (view s) n) (omega arith))) in
        let next : (index_height (length (view s')) ≡ suc (h + 1))
            ⊎ (index_height (length (view s')) ≡ 0) =
          rw size (ground (arith, index_height-next n)) in
        let rest : Grown (view s') (backfill_loop digest store fuel (length (view s')) (h + 1) s') =
          loop_lem fuel (h + 1) s' (omega arith) (omega (arith, index_height-lt n)) (omega arith)
            (omega arith) next round.3 kept in
        rw (lt→ltb h (index_height n) (omega arith), backfill_loop, round.1, ← size)
          (Grown-after (parent_value (view s) n h) round.2 (omega arith) rest)
    loop_lem (suc fuel) h s f b fits room (inr leaf) valid formed =
        rw (le→ltb h (index_height (length (view s))) (omega arith), backfill_loop)
          (record {
            more = [];
            state = s;
            ends = refl;
            appended = sym (append-nil (view s));
            interior = λ i lo hi. absurd (omega arith);
            valid = valid;
            formed = formed;
            complete = leaf;
          })

    -- Where every digest is a value of the store, on a valid, complete and well-formed log with
    -- room for 65 more nodes, below 2 ^ 64 - 67 nodes, `AddHashedLeaf` of a value succeeds: it
    -- appends the leaf and then only interior nodes, returns the new count of nodes, and leaves a
    -- valid and complete log in which every interior node commits to its position and children.
    pub add_hashed_leaf-Grown :
        (s : S) (leaf : Bytes)
        → length (view s) + 67 < word
        → length (view s) + 65 ≤ capacity
        → IsValue leaf
        → Valid s
        → IsMmr digest (view s)
        → IsComplete (view s)
        → Grown (view s ++ leaf ∷ []) (add_hashed_leaf digest store leaf s)
    unfolding add_hashed_leaf
    add_hashed_leaf-Grown s leaf fits room is valid formed complete =
        let n = length (view s) in
        let new = log.append_stored s leaf valid is (omega arith) in
        let s' = new.0 in
        let size : length (view s') ≡ n + 1 =
          ap length new.2 ∙ length-append (view s) (leaf ∷ []) in
        let kept : IsMmr digest (view s') =
          rw new.2
            (append-IsMmr (view s) leaf (omega arith) formed (λ k e. absurd (omega arith))) in
        let next : (index_height (length (view s')) ≡ 1) ⊎ (index_height (length (view s')) ≡ 0) =
          rw size (ground (arith, index_height-next n)) in
        rw (new.1, ← size, ← new.2)
          (loop_lem 64 0 s' (omega arith) (omega arith) (omega arith) (omega arith) next new.3 kept)
