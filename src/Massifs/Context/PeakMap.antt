-- ===== src/Massifs/Context/PeakMap.antt =====
-- The peak map of a context (massifs/peakstack.go): the place that it gives a peak.
use go_merklelog.Base.{
  ℕ, zero, suc, ◌+◌, ◌≤◌, ◌≡◌, ◌≢◌, ◌∙◌, ap, some, List, [], ◌∷◌, get_elem?, arith,
}
use go_merklelog.Base.{ltb, sub64, Bool-cases, neq→==}
use mathlib.Core.Logic.{inl, inr}
use go_merklelog.Mmr.IndexHeight.{index_height}
use go_merklelog.Massifs.Context.{stack_map_loop, lookup_peak}

-- A peak that is listed once, and is not below the height of the massifs, has its place.
pub lookup_peak-stack_map_loop :
    (massif_height i : ℕ) (listed : List ℕ) (p j : ℕ)
    → get_elem? listed j ≡ some p
    → ((k : ℕ) → get_elem? listed k ≡ some p → k ≡ j)
    → sub64 massif_height 1 ≤ index_height p
    → lookup_peak p (stack_map_loop massif_height i listed) ≡ some (i + j)
unfolding lookup_peak stack_map_loop
lookup_peak-stack_map_loop mh i [] p j e only high = cc
lookup_peak-stack_map_loop mh i (x ∷ listed) p zero e only high =
    let same : x ≡ p = cc in rw same (ground arith)
lookup_peak-stack_map_loop mh i (x ∷ listed) p (suc j) e only high =
    let other : x ≢ p = λ same. absurd (omega (arith, only zero (ap some same))) in
    let rest : lookup_peak p (stack_map_loop mh (i + 1) listed) ≡ some (i + suc j) =
      lookup_peak-stack_map_loop mh (i + 1) listed p j e (λ k f. omega (arith, only (suc k) f)) high
      ∙ ap some (omega arith) in
    elim (Bool-cases (ltb (index_height x) (sub64 mh 1))) [
      | inl below ↦ rw (stack_map_loop, below) rest
      | inr high ↦ rw (stack_map_loop, high, lookup_peak, neq→== x p other) rest
    ]
