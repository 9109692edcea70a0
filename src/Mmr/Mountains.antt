-- ===== src/Mmr/Mountains.antt =====
-- A complete log as a range of mountains: the heights of its peaks, from the left, each below the
-- one before it.
use go_merklelog.Base.{
  ℕ, zero, suc, ◌+◌, ◌-◌, ◌*◌, ◌^◌, ◌≤◌, ◌<◌, ◌≡◌, ◌⊎◌, inl, inr, refl, sym, subst, ap, List, [],
  ◌∷◌, arith,
}
use native.Mathlib.Decide.{dec_lt, ℕ_discrete}
use go_merklelog.Base.Pow.{pow_suc, pow_pos, pow_mono_lt}
use go_merklelog.Mmr.Tree.{height_in, height_in-root, height_in-left, height_in-right}

-- The nodes of a mountain of height `h`.
abbrev pub mass : ℕ → ℕ
mass h = 2 * 2 ^ h - 1

-- `n` nodes are mountains of the heights `hs`, all below `k`.
abbrev pub Mountains : ℕ → ℕ → List ℕ → Type 0
Mountains k n [] = n ≡ 0
Mountains k n (h ∷ hs) = (h < k) × (mass h ≤ n) × Mountains h (n - mass h) hs

-- The leaves under the mountains.
abbrev pub leaves : List ℕ → ℕ
leaves [] = 0
leaves (h ∷ hs) = 2 ^ h + leaves hs

-- The indices of the peaks, for mountains that stand behind `base` nodes.
abbrev pub peak_indices : ℕ → List ℕ → List ℕ
peak_indices base [] = []
peak_indices base (h ∷ hs) = (base + mass h - 1) ∷ peak_indices (base + mass h) hs

pub Mountains-weaken : (k l n : ℕ) (hs : List ℕ) → k ≤ l → Mountains k n hs → Mountains l n hs
Mountains-weaken k l n [] h m = m
Mountains-weaken k l n (x ∷ hs) h m = (omega arith, m.1, m.2)

pub Mountains-le : (k n : ℕ) (hs : List ℕ) → Mountains k n hs → n + 2 ≤ 2 * 2 ^ k
Mountains-le k n [] m = omega (arith, pow_pos k)
Mountains-le k n (h ∷ hs) (low, fits, rest) =
    omega (arith, Mountains-le h (n - mass h) hs rest, pow_mono_lt h k low)

pub leaves-lt : (k n : ℕ) (hs : List ℕ) → Mountains k n hs → leaves hs < 2 ^ k
leaves-lt k n [] m = omega (arith, pow_pos k)
leaves-lt k n (h ∷ hs) (low, fits, rest) =
    omega (arith, leaves-lt h (n - mass h) hs rest, pow_mono_lt h k low)

-- A log is a range of mountains when its next node is a leaf.
pub Mountains-of_complete :
    (k n : ℕ) → n + 2 ≤ 2 * 2 ^ k → height_in k (n + 1) ≡ 0 → (hs : List ℕ) × Mountains k n hs
Mountains-of_complete zero n room leaf = ([], omega arith)
Mountains-of_complete (suc k) n room leaf = elim (dec_lt (n + 1) (2 ^ suc k)) [
  | yes l ↦
      let (hs, m) =
        Mountains-of_complete k n (omega (arith, pow_suc k))
          (omega (arith, height_in-left k (n + 1) l)) in
      (hs, Mountains-weaken k (suc k) n hs (omega arith) m)
  | no nl ↦ elim (ℕ_discrete (n + 2) (2 * 2 ^ suc k)) [
    | yes e ↦ absurd (omega (arith, height_in-root (suc k) (n + 1)))
    | no ne ↦
        let rest = n - mass k in
        let e : n + 1 - (2 ^ suc k - 1) ≡ rest + 1 = omega (arith, pow_suc k, pow_pos k) in
        let (hs, m) =
          Mountains-of_complete k rest (omega (arith, pow_suc k, pow_pos k))
            (omega (arith, height_in-right k (n + 1), ap (height_in k) e)) in
        (k ∷ hs, (omega arith, omega (arith, pow_suc k), m))
  ]
]

-- Below `k + 1` the highest mountain is of height `k`, or all are below `k`.
pub Mountains-top :
    (k n : ℕ) (hs : List ℕ)
    → Mountains (suc k) n hs
    → ((rest : List ℕ) × (hs ≡ k ∷ rest) × (mass k ≤ n) × Mountains k (n - mass k) rest)
      ⊎ Mountains k n hs
Mountains-top k n [] m = inr m
Mountains-top k n (h ∷ hs) (low, fits, rest) = elim (ℕ_discrete h k) [
  | yes e ↦ inl (
      subst (λ x. (r : List ℕ) × (x ∷ hs ≡ k ∷ r) × (mass k ≤ n) × Mountains k (n - mass k) r)
        (sym e) (hs, refl, rw e at fits, rw e at rest))
  | no ne ↦ inr (omega arith, fits, rest)
]
