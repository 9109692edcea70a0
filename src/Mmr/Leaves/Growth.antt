-- ===== src/Mmr/Leaves/Growth.antt =====
-- How a log's size moves from a leaf to the next one: `MMRIndex` (mmr/mmrindex.go) grows with the
-- leaf's number, and gives the sizes of the complete logs.
use go_merklelog.Base.{
  ℕ, zero, suc, ◌+◌, ◌-◌, ◌*◌, ◌^◌, ◌≤◌, ◌<◌, ◌≡◌, refl, ap, subst, List, [], ◌∷◌, arith,
}
use go_merklelog.Base.{word}
use go_merklelog.Base.Pow.{lt-pow, pow_suc, pow_mono}
use native.Mathlib.Decide.{dec_lt, ℕ_discrete}
use go_merklelog.Mmr.IndexHeight.{index_height}
use go_merklelog.Mmr.IndexHeight.Shape.{index_height-Tree}
use go_merklelog.Mmr.Mountains.{
  Mountains, leaves, mass, leaves-lt, Mountains-of_complete, Mountains-weaken,
}
use go_merklelog.Mmr.Leaves.{mmr_index}
use go_merklelog.Mmr.Leaves.Numbering.{mmr_index-next, mmr_index-leaf, mmr_index-Mountains}

pub mmr_index-le : (l d : ℕ) → l + d < 2 ^ 63 → mmr_index l + d ≤ mmr_index (l + d)
mmr_index-le l zero h = let e : l ≡ l + 0 = omega arith in omega (arith, ap mmr_index e)
mmr_index-le l (suc d) h =
    let e : l + d + 1 ≡ l + suc d = omega arith in
    omega
      (arith, mmr_index-le l d (omega arith), mmr_index-next (l + d) (omega arith), ap mmr_index e)

-- Behind a leaf, the next size at which a log is complete is the index of the next leaf.
pub mmr_index-next_complete :
    (l n : ℕ)
    → l + 1 < 2 ^ 62
    → n + 2 < word
    → mmr_index l < n
    → index_height n ≡ 0
    → ((i : ℕ) → mmr_index l < i → i < n → 0 < index_height i)
    → n ≡ mmr_index (l + 1)
mmr_index-next_complete l n small fits behind complete interior =
    let m = mmr_index (l + 1) in
    let next = mmr_index-next l (omega arith) in
    let leaf = (mmr_index-leaf (l + 1) (omega arith)).0 in
    elim (ℕ_discrete n m) [
      | yes e ↦ e
      | no differ ↦ elim (dec_lt m n) [
        | yes above ↦ absurd (omega (arith, interior m (omega (arith, next)) above, leaf))
        | no not_above ↦
            let (hs, ms) =
              Mountains-of_complete 63 n (omega arith) (omega (arith, index_height-Tree n)) in
            let size : mmr_index (leaves hs) ≡ n = mmr_index-Mountains n hs ms in
            let few = leaves-lt 63 n hs ms in
            elim (dec_lt l (leaves hs)) [
              | yes more ↦
                  let d = leaves hs - (l + 1) in
                  let e : l + 1 + d ≡ leaves hs = omega arith in
                  absurd (omega (arith, mmr_index-le (l + 1) d (omega arith), ap mmr_index e, size))
              | no fewer ↦
                  let d = l - leaves hs in
                  let e : leaves hs + d ≡ l = omega arith in
                  absurd
                    (omega (arith, mmr_index-le (leaves hs) d (omega arith), ap mmr_index e, size))
            ]
      ]
    ]

-- the heights below `k`, the highest first
abbrev pub below : ℕ → List ℕ
below zero = []
below (suc k) = k ∷ below k

below-Mountains : (k : ℕ) → Mountains k (2 * 2 ^ k - 2 - k) (below k)
below-Mountains zero = omega arith
below-Mountains (suc k) =
    let rest : 2 * 2 ^ k - 2 - k ≡ 2 * 2 ^ suc k - 2 - suc k - mass k =
      omega (arith, pow_suc k, lt-pow k) in
    (
      omega arith,
      omega (arith, pow_suc k, lt-pow k),
      subst (λ n. Mountains k n (below k)) rest (below-Mountains k),
    )

pub leaves-below : (k : ℕ) → leaves (below k) + 1 ≡ 2 ^ k
leaves-below zero = refl
leaves-below (suc k) = omega (arith, leaves-below k, pow_suc k)

-- The last leaf of a tree of height `k` has 2 ^ (k + 1) - 2 - k nodes before it.
pub mmr_index-last : (k l : ℕ) → k < 62 → l < 2 ^ k → mmr_index l + k + 2 ≤ 2 * 2 ^ k
mmr_index-last k l small low =
    let last =
      mmr_index-Mountains (2 * 2 ^ k - 2 - k) (below k)
        (Mountains-weaken k 63 (2 * 2 ^ k - 2 - k) (below k) (omega arith) (below-Mountains k)) in
    let all = leaves-below k in
    let d = leaves (below k) - l in
    let e : l + d ≡ leaves (below k) = omega (arith, all) in
    let room = pow_mono k 62 (omega arith) in
    omega (arith, last, ap mmr_index e, mmr_index-le l d (omega (arith, all, room)), lt-pow k)
