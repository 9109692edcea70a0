-- ===== src/Mmr/Proof/Complete.antt =====
-- The provers and `IncludedRoot` agree: the proof of any node of a complete log leads from the
-- node's value to the value of the peak above it.
use go_merklelog.Base.{
  ℕ, zero, suc, ◌+◌, ◌-◌, ◌*◌, ◌^◌, ◌≤◌, ◌<◌, ◌≡◌, refl, sym, ap, ap₂, ◌∙◌, List, [], ◌∷◌, ◌++◌,
  map, true, false, length, arith,
}
use go_merklelog.Base.{ltb, word, add64, shl64, add64_exact, lt→ltb, le→ltb, ltb→le, length-map}
use go_merklelog.Base.Pow.{pow_pos}
use go_merklelog.Base.Results.{ok, ◌>>=◌}
use mathlib.Core.List.{append-nil, append_assoc}
use go_merklelog.Mmr.Errors.{R}
use go_merklelog.Mmr.Hasher.{Bytes, hash_pos_pair64}
use go_merklelog.Mmr.Store.{IsMmr, node_at}
use go_merklelog.Mmr.IndexHeight.{index_height}
use go_merklelog.Mmr.IndexHeight.Steps.{shl64-index_height}
use go_merklelog.Mmr.Proof.{
  sibling, inclusion_proof_loop, inclusion_proof, inclusion_proof_path_loop, inclusion_proof_path,
  included_root_loop, included_root,
}
use go_merklelog.Mmr.Proof.Climb.{
  IsPeak, Climb, top, from_right, from_left, sibling-right, sibling-left,
}
use go_merklelog.Mmr.Proof.Ascent.{
  Climb-inside, Climb-IsPeak, Climb-length, Climb-length-lt, ascend,
}

module _ (last : ℕ) (fits : last + 2 < word) where
  -- One round of the loops takes one step of the climb, or stops at the peak.
  next_round :
      (i s t : ℕ) (path : List ℕ)
      → Climb last i (s ∷ path) t
      → (u : ℕ) × (sibling i (index_height i) ≡ record { sibling = s; parent = u })
        × (ltb last s ≡ false)
        × (index_height u ≡ index_height i + 1)
        × Climb last u path t
  next_round i s t path (from_right up e below c) = (
    i + 1,
    rw (sibling-right i (omega arith) up)
        (ap (λ (x : ℕ). record { sibling = x; parent = i + 1 }) (omega arith)),
    le→ltb last s (omega (arith, pow_pos (index_height i))),
    up,
    c,
  )
  next_round i s t path (from_left {u = u} low e es up below c) = (
    u,
    sibling-left i (omega arith) low
        ∙ ap₂ (λ (x y : ℕ). record { sibling = x; parent = y }) (omega arith) (sym e),
    le→ltb last s (omega arith),
    up,
    c,
  )

  last_round :
      (i t : ℕ)
      → Climb last i [] t
      → (ltb last (sibling i (index_height i)).sibling ≡ true) × (i ≡ t)
  last_round i t (top p) = (
    rw (sibling-left i (omega (arith, p.inside)) p.no_parent_behind)
        (lt→ltb last (i + 2 * 2 ^ index_height i - 1) p.no_sibling),
    refl,
  )

  path_loop_lem :
      (fuel i g t : ℕ) (acc path : List ℕ)
      → g ≡ index_height i
      → length path < fuel
      → Climb last i path t
      → inclusion_proof_path_loop last fuel i g acc ≡ ok (acc ++ path)
  unfolding inclusion_proof_path_loop
  path_loop_lem zero i g t acc path e f c = absurd (omega arith)
  path_loop_lem (suc fuel) i g t acc [] e f c =
      rw (e, (last_round i t c).0, inclusion_proof_path_loop) (ap ok (sym (append-nil acc)))
  path_loop_lem (suc fuel) i g t acc (s ∷ path) e f c =
      let (u, next, inn, up, rest) = next_round i s t path c in
      rw (e, next, inn, inclusion_proof_path_loop)
        (rw (e, next)
          (path_loop_lem fuel u (index_height i + 1) t (acc ++ s ∷ []) path (sym up) (omega arith)
              rest
            ∙ ap ok (append_assoc acc (s ∷ []) path)))

  -- `InclusionProofPath` returns the siblings on the climb from a node of a complete log to its
  -- peak, one for each level between them.
  pub inclusion_proof_path-Climb :
      index_height (last + 1) ≡ 0
      → (i : ℕ) → i ≤ last
      → (path : List ℕ) × (t : ℕ) × (inclusion_proof_path last i ≡ ok path)
        × Climb last i path t
        × (length path + index_height i ≡ index_height t)
  unfolding inclusion_proof_path
  inclusion_proof_path-Climb complete i inside =
      let (path, t, c) = ascend last fits complete i inside in
      (
        path,
        t,
        path_loop_lem 64 i (index_height i) t [] path refl (Climb-length-lt last fits c) c,
        c,
        Climb-length last fits c,
      )

  module _ (get : ℕ → R Bytes) (vs : List Bytes) (size : length vs ≡ last + 1)
      (stored : (i : ℕ) → i < length vs → get i ≡ ok (node_at vs i)) where
    proof_loop_lem :
        (fuel i g t : ℕ) (acc : List Bytes) (path : List ℕ)
        → g ≡ index_height i
        → length path < fuel
        → Climb last i path t
        → inclusion_proof_loop get last fuel i g acc ≡ ok (acc ++ map (node_at vs) path)
    unfolding inclusion_proof_loop
    proof_loop_lem zero i g t acc path e f c = absurd (omega arith)
    proof_loop_lem (suc fuel) i g t acc [] e f c =
        rw (e, (last_round i t c).0, inclusion_proof_loop) (ap ok (sym (append-nil acc)))
    proof_loop_lem (suc fuel) i g t acc (s ∷ path) e f c =
        let (u, next, inn, up, rest) = next_round i s t path c in
        let read : get s ≡ ok (node_at vs s) = stored s (omega (arith, size, ltb→le last s inn)) in
        rw (e, next, inn, inclusion_proof_loop)
          (rw (e, next, read, ◌>>=◌)
            (proof_loop_lem fuel u (index_height i + 1) t (acc ++ node_at vs s ∷ []) path (sym up)
                (omega arith) rest
              ∙ ap ok (append_assoc acc (node_at vs s ∷ []) (map (node_at vs) path))))

    pub inclusion_proof-values :
        {i t : ℕ} {path : List ℕ}
        → Climb last i path t
        → inclusion_proof get last i ≡ ok (map (node_at vs) path)
    unfolding inclusion_proof
    inclusion_proof-values {i} {t} {path} c =
        rw (le→ltb last i (Climb-inside last fits c))
          (proof_loop_lem 64 i (index_height i) t [] path refl (Climb-length-lt last fits c) c)

  module _ (digest : Bytes → Bytes) (vs : List Bytes) (size : length vs ≡ last + 1)
      (formed : IsMmr digest vs) where
    -- The value of an interior node of the log, by the indices of its children.
    children_lem :
        (u l r h : ℕ)
        → index_height u ≡ h + 1
        → l + 2 * 2 ^ h ≡ u
        → r + 1 ≡ u
        → u ≤ last
        → hash_pos_pair64 digest (u + 1) (node_at vs l) (node_at vs r) ≡ node_at vs u
    children_lem u l r h height left right inside =
        let el : u - 2 * 2 ^ h ≡ l = omega arith in
        let er : u - 1 ≡ r = omega arith in
        rw (el, er) at (sym (formed u h (omega (arith, size)) (omega arith)))

    root_loop_lem :
        (i g t : ℕ) (root : Bytes) (path : List ℕ)
        → g ≡ index_height i
        → root ≡ node_at vs i
        → Climb last i path t
        → included_root_loop digest i g root (map (node_at vs) path) ≡ node_at vs t
    unfolding included_root_loop
    root_loop_lem i g t root [] e r (top p) = r
    root_loop_lem i g t root (s ∷ path) e r (from_right up es below c) =
        let parent = children_lem (i + 1) s i (index_height i) up es refl below in
        let next = add64_exact i 1 (omega arith) in
        rw
          (
            e,
            next,
            lt→ltb (index_height i) (index_height (i + 1)) (omega arith),
            included_root_loop,
          )
          (rw (e, r, next, add64_exact (i + 1) 1 (omega arith), parent)
            (root_loop_lem (i + 1) (index_height i + 1) t (node_at vs (i + 1)) path (sym up) refl
              c))
    root_loop_lem i g t root (s ∷ path) e r (from_left {u = u} low eu es up below c) =
        let parent = children_lem u i s (index_height i) up (sym eu) es below in
        let next = add64_exact i 1 (omega arith) in
        let shift : shl64 2 (index_height i) ≡ 2 * 2 ^ index_height i =
          shl64-index_height i (omega arith) in
        let jump : add64 i (2 * 2 ^ index_height i) ≡ u =
          add64_exact i (2 * 2 ^ index_height i) (omega arith) ∙ sym eu in
        rw (e, next, le→ltb (index_height i) (index_height (i + 1)) low, included_root_loop)
          (rw (e, r, shift, jump, add64_exact u 1 (omega arith), parent)
            (root_loop_lem u (index_height i + 1) t (node_at vs u) path (sym up) refl c))

  -- On a complete well-formed log whose store reads back its nodes, `InclusionProof` of any node
  -- in the log succeeds, and `IncludedRoot` of the node's value and that proof is the value of a
  -- peak, as many levels above the node as the proof has values.
  pub included_root-inclusion_proof :
      (digest : Bytes → Bytes) (get : ℕ → R Bytes) (vs : List Bytes) (i : ℕ)
      → length vs ≡ last + 1
      → IsMmr digest vs
      → index_height (last + 1) ≡ 0
      → ((j : ℕ) → j < length vs → get j ≡ ok (node_at vs j))
      → i ≤ last
      → (proof : List Bytes) × (t : ℕ) × (inclusion_proof get last i ≡ ok proof)
        × (included_root digest i (node_at vs i) proof ≡ node_at vs t)
        × IsPeak last t
        × (length proof + index_height i ≡ index_height t)
  unfolding included_root
  included_root-inclusion_proof digest get vs i size formed complete stored inside =
      let (path, t, c) = ascend last fits complete i inside in
      (
        map (node_at vs) path,
        t,
        inclusion_proof-values get vs size stored c,
        root_loop_lem digest vs size formed i (index_height i) t (node_at vs i) path refl refl c,
        Climb-IsPeak last fits c,
        rw (length-map path (node_at vs)) (Climb-length last fits c),
      )
