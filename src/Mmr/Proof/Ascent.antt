-- ===== src/Mmr/Proof/Ascent.antt =====
-- Every node of a complete log has a climb to a peak, of a known length.
use go_merklelog.Base.{
  ℕ, zero, suc, ◌+◌, ◌-◌, ◌*◌, ◌^◌, ◌≤◌, ◌<◌, ◌≡◌, refl, List, [], ◌∷◌, length, arith,
}
use go_merklelog.Base.{word}
use go_merklelog.Base.Pow.{pow_pos}
use go_merklelog.Mmr.IndexHeight.{index_height}
use go_merklelog.Mmr.IndexHeight.Steps.{index_height-lt, index_height-left_parent}
use go_merklelog.Mmr.Proof.Climb.{
  IsPeak, Climb, right_room, top, from_right, from_left, peak, right_child, left_child, standing,
}

module _ (last : ℕ) (fits : last + 2 < word) where
  pub Climb-inside : {i t : ℕ} {path : List ℕ} → Climb last i path t → i ≤ last
  Climb-inside (top p) = p.inside
  Climb-inside (from_right h s below c) = omega arith
  Climb-inside (from_left h u s g below c) = omega (arith, Climb-inside c)

  pub Climb-IsPeak : {i t : ℕ} {path : List ℕ} → Climb last i path t → IsPeak last t
  Climb-IsPeak (top p) = p
  Climb-IsPeak (from_right h s below c) = Climb-IsPeak c
  Climb-IsPeak (from_left h u s g below c) = Climb-IsPeak c

  -- A proof has one value for each level between the node and its peak.
  pub Climb-length :
      {i t : ℕ} {path : List ℕ}
      → Climb last i path t
      → length path + index_height i ≡ index_height t
  Climb-length (top p) = omega arith
  Climb-length (from_right h s below c) = omega (arith, Climb-length c)
  Climb-length (from_left h u s g below c) = omega (arith, Climb-length c)

  pub Climb-length-lt : {i t : ℕ} {path : List ℕ} → Climb last i path t → length path < 64
  Climb-length-lt {t = t} c =
      omega (arith, Climb-length c, index_height-lt t, (Climb-IsPeak c).inside)

  ascend_from :
      index_height (last + 1) ≡ 0
      → (fuel i : ℕ) → 64 ≤ fuel + index_height i
      → i ≤ last
      → (path : List ℕ) × (t : ℕ) × Climb last i path t
  ascend_from complete zero i f inside = absurd (omega (arith, index_height-lt i))
  ascend_from complete (suc fuel) i f inside = elim (standing last i fits complete inside) [
    | peak p ↦ ([], i, top p)
    | right_child up below ↦
        let (path, t, c) = ascend_from complete fuel (i + 1) (omega arith) below in
        let s = i + 1 - 2 * 2 ^ index_height i in
        (s ∷ path, t, from_right up (omega (arith, right_room i (omega arith) up)) below c)
    | left_child low below ↦
        let u = i + 2 * 2 ^ index_height i in
        let up = index_height-left_parent i (omega arith) low in
        let (path, t, c) = ascend_from complete fuel u (omega (arith, up.1)) below in
        (
          (u - 1) ∷ path,
          t,
          from_left low refl (omega (arith, pow_pos (index_height i))) up.1 below c,
        )
  ]

  -- From every node of a complete log a climb leads to a peak.
  pub ascend :
      index_height (last + 1) ≡ 0
      → (i : ℕ) → i ≤ last
      → (path : List ℕ) × (t : ℕ) × Climb last i path t
  ascend complete i inside = ascend_from complete 64 i (omega arith) inside
