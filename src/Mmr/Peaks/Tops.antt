-- ===== src/Mmr/Peaks/Tops.antt =====
-- The peaks of a range of mountains, by their place in the tree: the nodes whose sibling is
-- missing are the mountains' last nodes.
use go_merklelog.Base.{
  ℕ, zero, suc, ◌+◌, ◌-◌, ◌*◌, ◌^◌, ◌≤◌, ◌<◌, ◌≡◌, sym, ap, ◌∙◌, some, List, [], ◌∷◌, get_elem?,
  arith,
}
use native.Mathlib.Decide.{dec_lt, ℕ_discrete}
use go_merklelog.Base.Pow.{pow_pos}
use go_merklelog.Mmr.Tree.{
  height_in, height_in-root, height_in-first, height_in-below, height_in-behind,
  height_in-left_parent,
}
use go_merklelog.Mmr.Mountains.{mass, Mountains, peak_indices, Mountains-le}

-- The position `p` of a log of `n` nodes has no parent and no sibling in it.
pub record IsTop (k n p : ℕ) : Type 0 where
  pub positive : 1 ≤ p
  pub inside : p ≤ n
  pub no_parent_behind : height_in k (p + 1) ≤ height_in k p
  pub no_sibling : n + 1 < p + 2 * 2 ^ height_in k p

-- The mountain at place `j` ends at position `p`, and is as high as the tree is there.
abbrev pub Ends : ℕ → ℕ → List ℕ → ℕ → ℕ → Type 0
Ends k base hs p j =
    (get_elem? hs j ≡ some (height_in k p))
    × (get_elem? (peak_indices base hs) j ≡ some (base + p - 1))

module _ (k n h : ℕ) (hs : List ℕ) (low : h < k) (fits : mass h ≤ n)
    (rest : Mountains h (n - mass h) hs) where
  behind : (p : ℕ) → mass h < p → p ≤ n + 1 → height_in k p ≡ height_in h (p - mass h)
  behind p lo hi =
      let e : mass h + (p - mass h) ≡ p = omega arith in
      rw (← e) (
        height_in-behind h k (p - mass h) low (omega arith)
          (omega (arith, Mountains-le h (n - mass h) hs rest))
        ∙ ap (height_in h) (omega arith))

  behind_next : (p : ℕ) → mass h < p → p ≤ n → height_in k (p + 1) ≡ height_in h (p - mass h + 1)
  behind_next p lo hi = behind (p + 1) (omega arith) (omega arith) ∙ ap (height_in h) (omega arith)

  at_first : height_in k (mass h) ≡ h
  at_first =
      height_in-below h k (mass h) (omega arith) (omega (arith, pow_pos h))
      ∙ height_in-root h (mass h) (omega (arith, pow_pos h))

  first-IsTop : IsTop k n (mass h)
  first-IsTop =
      let one : mass h + 1 - mass h ≡ 1 = omega arith in
      record {
        positive = omega (arith, pow_pos h);
        inside = fits;
        no_parent_behind = omega (
          arith,
          behind (mass h + 1) (omega arith) (omega arith),
          ap (height_in h) one,
          height_in-first h,
        );
        no_sibling = rw at_first (omega (arith, pow_pos h, Mountains-le h (n - mass h) hs rest));
      }

  inner_not_top : (p : ℕ) → IsTop k n p → mass h ≤ p
  inner_not_top p t = elim (dec_lt p (mass h)) [
    | no above ↦ omega arith
    | yes below ↦
        let here = height_in-below h k p (omega arith) (omega arith) in
        let next = height_in-below h k (p + 1) (omega arith) (omega (arith, pow_pos h)) in
        let flat : height_in h (p + 1) ≤ height_in h p = omega (arith, t.no_parent_behind) in
        let parent = height_in-left_parent h p t.positive (omega (arith, pow_pos h)) flat in
        let out : n + 1 < p + 2 * 2 ^ height_in h p = rw here at t.no_sibling in
        absurd (omega (arith, parent.0))
  ]

  IsTop-rest : (p : ℕ) → mass h < p → IsTop k n p → IsTop h (n - mass h) (p - mass h)
  IsTop-rest p lo t =
      let here = behind p lo (omega (arith, t.inside)) in
      record {
        positive = omega arith;
        inside = omega (arith, t.inside);
        no_parent_behind = omega (arith, here, behind_next p lo t.inside, t.no_parent_behind);
        no_sibling = rw (← here) (omega (arith, t.no_sibling));
      }

  IsTop-of_rest : (p : ℕ) → mass h < p → IsTop h (n - mass h) (p - mass h) → IsTop k n p
  IsTop-of_rest p lo t =
      let here = behind p lo (omega (arith, t.inside)) in
      record {
        positive = omega arith;
        inside = omega (arith, t.inside);
        no_parent_behind =
            omega (arith, here, behind_next p lo (omega (arith, t.inside)), t.no_parent_behind);
        no_sibling = rw here (omega (arith, t.no_sibling));
      }

-- Every node without a sibling in the log ends a mountain of its height.
pub IsTop-Ends :
    (k n base p : ℕ) (hs : List ℕ) → Mountains k n hs → IsTop k n p → (j : ℕ) × Ends k base hs p j
IsTop-Ends k n base p [] m t = absurd (omega (arith, t.inside, t.positive))
IsTop-Ends k n base p (h ∷ hs) (low, fits, rest) t = elim (ℕ_discrete p (mass h)) [
  | yes e ↦ (
    0,
    (ap some (sym (ap (height_in k) e ∙ at_first k n h hs low fits rest)), ap some (omega arith)),
  )
  | no ne ↦
      let lo : mass h < p = omega (arith, inner_not_top k n h hs low fits rest p t) in
      let found =
        IsTop-Ends h (n - mass h) (base + mass h) (p - mass h) hs rest
          (IsTop-rest k n h hs low fits rest p lo t) in
      let here = behind k n h hs low fits rest p lo (omega (arith, t.inside)) in
      (suc found.0, (found.1.0 ∙ ap some (sym here), found.1.1 ∙ ap some (omega arith)))
]

-- The end of every mountain has no sibling in the log.
pub Ends-IsTop :
    (k n base j i : ℕ) (hs : List ℕ)
    → Mountains k n hs
    → get_elem? (peak_indices base hs) j ≡ some i
    → (base ≤ i) × IsTop k n (i + 1 - base) × (get_elem? hs j ≡ some (height_in k (i + 1 - base)))
Ends-IsTop k n base j i [] m e = absurd (ground arith)
Ends-IsTop k n base zero i (h ∷ hs) (low, fits, rest) e =
    let i_at : i ≡ base + mass h - 1 = ground arith in
    let p_at : i + 1 - base ≡ mass h = omega (arith, pow_pos h) in
    (
      omega (arith, pow_pos h),
      rw p_at (first-IsTop k n h hs low fits rest),
      ap some (sym (ap (height_in k) p_at ∙ at_first k n h hs low fits rest)),
    )
Ends-IsTop k n base (suc j) i (h ∷ hs) (low, fits, rest) e =
    let (above, t, height) = Ends-IsTop h (n - mass h) (base + mass h) j i hs rest e in
    let p = i + 1 - base in
    let q : i + 1 - (base + mass h) ≡ p - mass h = omega arith in
    let rest_top : IsTop h (n - mass h) (p - mass h) = rw q at t in
    let lo : mass h < p = omega (arith, rest_top.positive) in
    (
      omega arith,
      IsTop-of_rest k n h hs low fits rest p lo rest_top,
      height
          ∙ ap some (
              ap (height_in h) q
              ∙ sym (behind k n h hs low fits rest p lo (omega (arith, rest_top.inside)))),
    )
