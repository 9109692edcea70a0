-- ===== src/Mmr/Peaks/Range.antt =====
-- What the peak functions compute on a range of mountains.
use mathlib.Core.List.{append-nil, append_assoc}
use go_merklelog.Base.{
  ℕ, zero, suc, ◌+◌, ◌-◌, ◌*◌, ◌^◌, ◌≤◌, ◌<◌, ◌≡◌, sym, ap, ◌∙◌, false, some, List, [], ◌∷◌, ◌++◌,
  arith,
}
use go_merklelog.Base.{◌==◌, add64, sub64, word, add64_exact, sub64_exact, shl64-one, pow_63}
use go_merklelog.Base.Pow.{pow_suc, pow_pos}
use go_merklelog.Base.Bits.{len64_lem}
use go_merklelog.Mmr.IndexHeight.{bit_length64}
use go_merklelog.Mmr.Mountains.{mass, Mountains, peak_indices, Mountains-le}
use go_merklelog.Mmr.Peaks.{top_peak, peaks_loop}

-- `TopPeak` of the last index of a log is the peak of its highest mountain.
top_peak-Mountains :
    (k n h : ℕ) (hs : List ℕ) → k ≤ 63 → Mountains k n (h ∷ hs) → top_peak (n - 1) ≡ 2 * 2 ^ h - 2
unfolding top_peak bit_length64
top_peak-Mountains k n h hs b (low, fits, rest) =
    let lo : 2 ^ suc h ≤ n + 1 = omega (arith, pow_suc h) in
    let hi : n + 1 < 2 * 2 ^ suc h =
      omega (arith, pow_suc h, Mountains-le h (n - mass h) hs rest) in
    let small = pow_63 (suc h) (omega arith) in
    let e : add64 (n - 1) 2 ≡ n + 1 =
      add64_exact (n - 1) 2 (omega (arith, small, pow_pos h)) ∙ omega (arith, pow_pos h) in
    rw (e, len64_lem (suc h) (n + 1) (omega arith) lo hi)
      (ground (
        arith,
        pow_suc h,
        pow_pos h,
        small,
        sub64_exact (suc (suc h)) 1,
        shl64-one (suc h),
        sub64_exact (2 ^ suc h) 2,
      ))

pub peaks_loop-Mountains :
    (fuel k n base : ℕ) (acc hs : List ℕ)
    → k < fuel
    → k ≤ 63
    → base + n < word
    → Mountains k n hs
    → peaks_loop fuel n base acc ≡ some (acc ++ peak_indices base hs)
unfolding peaks_loop
peaks_loop-Mountains zero k n base acc hs f b fits m = absurd (omega arith)
peaks_loop-Mountains (suc fuel) k n base acc [] f b fits m =
    rw (m, peaks_loop) (ap some (sym (append-nil acc)))
peaks_loop-Mountains (suc fuel) k n base acc (h ∷ hs) f b fits (low, under, rest) =
    let some_nodes : (n == 0) ≡ false = ground (arith, pow_pos h) in
    let size : add64 (top_peak (sub64 n 1)) 1 ≡ mass h =
      rw
        (
          sub64_exact n 1 (omega (arith, pow_pos h)) (omega arith),
          top_peak-Mountains k n h hs b (low, under, rest),
        )
        (add64_exact (2 * 2 ^ h - 2) 1 (omega (arith, pow_pos h)) ∙ omega (arith, pow_pos h)) in
    let next : add64 base (mass h) ≡ base + mass h = add64_exact base (mass h) (omega arith) in
    let peak : sub64 (base + mass h) 1 ≡ base + mass h - 1 =
      sub64_exact (base + mass h) 1 (omega (arith, pow_pos h)) (omega arith) in
    let less : sub64 n (mass h) ≡ n - mass h = sub64_exact n (mass h) under (omega arith) in
    rw (some_nodes, peaks_loop)
      (rw (size, next, peak, less)
        (peaks_loop-Mountains fuel h (n - mass h) (base + mass h) (acc ++ (base + mass h - 1) ∷ [])
            hs (omega arith) (omega arith) (omega arith) rest
          ∙ ap some
              (append_assoc acc ((base + mass h - 1) ∷ []) (peak_indices (base + mass h) hs))))
