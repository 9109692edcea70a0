-- ===== src/Mmr/Leaves/Carry.antt =====
-- One leaf more on the mountains of a complete log: the lowest mountains, of the heights up to some
-- height, become one of that height, as in a binary carry.
use go_merklelog.Base.{
  ℕ, zero, suc, ◌+◌, ◌-◌, ◌*◌, ◌^◌, ◌<◌, ◌≡◌, ◌⊎◌, inl, inr, refl, ap, ◌∙◌, subst, List, [], ◌∷◌,
  ◌++◌, length, arith,
}
use native.Mathlib.Decide.{ℕ_discrete}
use go_merklelog.Base.Pow.{pow_suc, pow_pos}
use go_merklelog.Mmr.Mountains.{Mountains, mass, leaves, peak_indices}
use go_merklelog.Mmr.Leaves.Growth.{below, leaves-below}

size-below : (k n j : ℕ) → Mountains k n (below j) → n + j + 2 ≡ 2 * 2 ^ j
size-below k n zero m = omega arith
size-below k n (suc j) (low, fits, rest) =
    omega (arith, size-below j (n - mass j) j rest, pow_suc j, pow_pos j)

-- The mountains with one leaf more, or those of every height below `k`.
pub carry :
    (k n : ℕ) (hs : List ℕ)
    → Mountains k n hs
    → (front : List ℕ) × (s : ℕ) × (hs ≡ front ++ below s)
      × (((s < k) × Mountains k (n + 1 + s) (front ++ s ∷ [])) ⊎ ((s ≡ k) × (front ≡ [])))
carry k n [] m = elim (ℕ_discrete 0 k) [
  | yes e ↦ ([], 0, refl, inr (e, refl))
  | no ne ↦ ([], 0, refl, inl (omega arith, (omega arith, omega arith, omega arith)))
]
carry k n (h ∷ hs) (low, fits, rest) =
    let (front, s, e, r) = carry h (n - mass h) hs rest in
    elim r [
      | inl (less, m) ↦
          let size : n - mass h + 1 + s ≡ n + 1 + s - mass h = omega arith in
          (
            h ∷ front,
            s,
            ap (◌∷◌ h) e,
            inl (
              omega arith,
              (low, omega arith, subst (λ c. Mountains h c (front ++ s ∷ [])) size m),
            ),
          )
      | inr (es, ef) ↦
          let all : hs ≡ below h = e ∙ (ap (λ f. f ++ below s) ef ∙ ap below es) in
          let size = size-below h (n - mass h) h (subst (Mountains h (n - mass h)) all rest) in
          (
            [],
            suc h,
            ap (◌∷◌ h) all,
            elim (ℕ_discrete (suc h) k) [
              | yes top ↦ inr (top, refl)
              | no lower ↦ inl (
                omega arith,
                (
                  omega arith,
                  omega (arith, size, pow_suc h, pow_pos h),
                  omega (arith, size, pow_suc h, pow_pos h),
                ),
              )
            ],
          )
    ]

leaves-append : (xs ys : List ℕ) → leaves (xs ++ ys) ≡ leaves xs + leaves ys
leaves-append [] ys = omega arith
leaves-append (x ∷ xs) ys = omega (arith, leaves-append xs ys)

pub leaves-carry :
    (front : List ℕ) (s : ℕ) → leaves (front ++ s ∷ []) ≡ leaves (front ++ below s) + 1
leaves-carry front s =
    omega (arith, leaves-append front (s ∷ []), leaves-append front (below s), leaves-below s)

pub length-below : (s : ℕ) → length (below s) ≡ s
length-below zero = refl
length-below (suc s) = ap suc (length-below s)

-- The peaks of the mountains behind some others.
pub peak_indices-append :
    (base : ℕ) (xs ys : List ℕ)
    → (behind : ℕ) × (peak_indices base (xs ++ ys) ≡ peak_indices base xs ++ peak_indices behind ys)
peak_indices-append base [] ys = (base, refl)
peak_indices-append base (x ∷ xs) ys =
    let (behind, e) = peak_indices-append (base + mass x) xs ys in
    (behind, ap (◌∷◌ (base + mass x - 1)) e)

-- The last node is the last peak.
pub peak_indices-last :
    (base k n s : ℕ) (front : List ℕ)
    → Mountains k n (front ++ s ∷ [])
    → peak_indices base (front ++ s ∷ []) ≡ peak_indices base front ++ (base + n - 1) ∷ []
peak_indices-last base k n s [] (low, fits, rest) = ap (λ i. i ∷ []) (omega arith)
peak_indices-last base k n s (h ∷ front) (low, fits, rest) =
    let e : base + mass h + (n - mass h) - 1 ≡ base + n - 1 = omega arith in
    ap (◌∷◌ (base + mass h - 1)) (
      peak_indices-last (base + mass h) h (n - mass h) s front rest
      ∙ ap (λ i. peak_indices (base + mass h) front ++ i ∷ []) e)
