-- ===== src/Mmr/Peaks/Bitmap.antt =====
-- `PeaksBitmap` has a bit for each mountain, and `PeakIndex` counts the bits above a height.
use mathlib.Core.Option
use Prim.Native.Nat.{bit_and}
use go_merklelog.Base.{
  ℕ, zero, suc, ◌+◌, ◌-◌, ◌*◌, ◌^◌, ◌≤◌, ◌<◌, ◌≡◌, inl, inr, refl, ap, ◌∙◌, true, false, some, List,
  [], ◌∷◌, length, arith,
}
use go_merklelog.Base.{
  ltb, ◌==◌, if◌then◌else◌, Bool-cases, lt→ltb, ltb→lt, ltb→le, get_elem?, le→leb, lt→leb, sub64,
  shl64, shr64, word, sub64_exact, shl64_by_one, shr64-one, pow_63, mask64-eq,
}
use native.Mathlib.Decide.{dec_lt}
use native.Mathlib.Nat.{mul-le-mul_left, le_trans}
use go_merklelog.Base.Pow.{pow_suc, pow_pos, pow_mono}
use go_merklelog.Base.Bits.{
  len64, len64_lem, ones_below, ones_below_lead_in, ones_below_lead_out, ones_below-zero,
  ones_count64, ones_count64-below,
}
use go_merklelog.Base.Bits.Masks.{ones_below-bit_and, bit_or_set_low}
use go_merklelog.Mmr.Mountains.{mass, Mountains, leaves, Mountains-le, leaves-lt, Mountains-top}
use go_merklelog.Mmr.Peaks.{peaks_bitmap_loop, peaks_bitmap, peak_index}

-- A mask of `j` ones meets mountains below `j`, with the bits of the higher ones in `map`.
module _ (fuel j peak_map : ℕ) (fits : (peak_map + 1) * 2 ^ suc j ≤ word) where
  doubled : (peak_map + 1) * 2 ≤ word
  doubled = le_trans (mul-le-mul_left (peak_map + 1) (omega (arith, pow_suc j, pow_pos j))) fits

  scaled : (peak_map + 1) * 2 ^ suc j ≡ 2 * (peak_map * 2 ^ j) + 2 * 2 ^ j
  scaled = ap (λ (t : ℕ). (peak_map + 1) * t) (pow_suc j) ∙ omega arith

  more : ltb 0 (2 ^ suc j - 1) ≡ true
  more = lt→ltb 0 (2 ^ suc j - 1) (omega (arith, pow_suc j, pow_pos j))

  shift : shl64 peak_map 1 ≡ peak_map * 2
  shift = shl64_by_one peak_map (omega (arith, doubled))

  half : shr64 (2 ^ suc j - 1) 1 ≡ 2 ^ j - 1
  half = shr64-one (2 ^ suc j - 1) ∙ omega (arith, pow_suc j, pow_pos j)

  bitmap_taken :
      (n : ℕ)
      → mass j ≤ n
      → n < word
      → peaks_bitmap_loop (suc fuel) n (2 ^ suc j - 1) peak_map
        ≡ peaks_bitmap_loop fuel (n - mass j) (2 ^ j - 1) (peak_map * 2 + 1)
  unfolding peaks_bitmap_loop
  bitmap_taken n under small =
      let in_range : 2 ^ suc j - 1 ≤ n = omega (arith, pow_suc j) in
      let less : sub64 n (2 ^ suc j - 1) ≡ n - mass j =
        sub64_exact n (2 ^ suc j - 1) in_range small ∙ omega (arith, pow_suc j) in
      rw (more, peaks_bitmap_loop)
        (rw (le→leb (2 ^ suc j - 1) n in_range, less, shift, half, bit_or_set_low peak_map) refl)

  bitmap_skipped :
      (n : ℕ)
      → n < mass j
      → peaks_bitmap_loop (suc fuel) n (2 ^ suc j - 1) peak_map
        ≡ peaks_bitmap_loop fuel n (2 ^ j - 1) (peak_map * 2)
  unfolding peaks_bitmap_loop
  bitmap_skipped n over =
      rw (more, peaks_bitmap_loop)
        (rw (lt→leb (2 ^ suc j - 1) n (omega (arith, pow_suc j)), shift, half) refl)

bitmap_loop-Mountains :
    (fuel j n peak_map : ℕ) (hs : List ℕ)
    → j < fuel
    → n < word
    → (peak_map + 1) * 2 ^ j ≤ word
    → Mountains j n hs
    → peaks_bitmap_loop fuel n (2 ^ j - 1) peak_map ≡ some (peak_map * 2 ^ j + leaves hs)
bitmap_loop-Mountains zero j n peak_map hs f b fits m = absurd (omega arith)
bitmap_loop-Mountains (suc fuel) zero n peak_map [] f b fits m =
    unfold peaks_bitmap_loop in ap some (omega arith)
bitmap_loop-Mountains (suc fuel) zero n peak_map (h ∷ hs) f b fits m = absurd (omega (arith, m.0))
bitmap_loop-Mountains (suc fuel) (suc j) n peak_map hs f b fits m = elim (Mountains-top j n hs m) [
  | inl (rest, e, under, ms) ↦
      rw (bitmap_taken fuel j peak_map fits n under b, e)
        (bitmap_loop-Mountains fuel j (n - mass j) (peak_map * 2 + 1) rest (omega arith)
            (omega arith) (omega (arith, scaled fuel j peak_map fits)) ms
          ∙ ap some (omega (arith, ap (λ (t : ℕ). peak_map * t) (pow_suc j))))
  | inr ms ↦ rw (bitmap_skipped fuel j peak_map fits n (omega (arith, Mountains-le j n hs ms))) (
      bitmap_loop-Mountains fuel j n (peak_map * 2) hs (omega arith) (omega arith)
        (omega (arith, scaled fuel j peak_map fits)) ms
      ∙ ap some (omega (arith, ap (λ (t : ℕ). peak_map * t) (pow_suc j))))
]

-- The mountains above a height.
abbrev pub count_above : ℕ → List ℕ → ℕ
count_above d [] = 0
count_above d (h ∷ hs) = if ltb d h then suc (count_above d hs) else count_above d hs

ones_below-leaves :
    (k n j : ℕ) (hs : List ℕ) → Mountains k n hs → k ≤ j → ones_below j (leaves hs) ≡ length hs
ones_below-leaves k n j [] m b = ones_below-zero j
ones_below-leaves k n j (h ∷ hs) (low, fits, rest) b =
    ones_below_lead_in j h (leaves hs) (leaves-lt h (n - mass h) hs rest) (omega arith)
    ∙ ap suc (ones_below-leaves h (n - mass h) j hs rest (omega arith))

-- The ones up to a height are the mountains that are not above it.
ones_below-count_above :
    (k n d : ℕ) (hs : List ℕ)
    → Mountains k n hs
    → ones_below (suc d) (leaves hs) + count_above d hs ≡ length hs
ones_below-count_above k n d [] m = omega (arith, ones_below-zero (suc d))
ones_below-count_above k n d (h ∷ hs) (low, fits, rest) = elim (Bool-cases (ltb d h)) [
  | inl above ↦ rw above (
      omega (
        arith,
        ones_below_lead_out (suc d) h (leaves hs) (ltb→lt d h above),
        ones_below-count_above h (n - mass h) d hs rest,
      ))
  | inr below ↦ rw below (
      omega (
        arith,
        ones_below_lead_in (suc d) h (leaves hs) (leaves-lt h (n - mass h) hs rest)
            (omega (arith, ltb→le d h below)),
        ones_below-count_above h (n - mass h) d hs rest,
      ))
]

-- The leaves under a range of mountains have a one for each mountain.
pub ones_count64-leaves :
    (k n : ℕ) (hs : List ℕ) → k ≤ 64 → Mountains k n hs → ones_count64 (leaves hs) ≡ length hs
ones_count64-leaves k n hs b m = ones_count64-below (leaves hs) ∙ ones_below-leaves k n 64 hs m b

-- `PeakIndex` of a height is the count of the mountains above it.
pub peak_index-count_above :
    (k n d : ℕ) (hs : List ℕ)
    → k ≤ 64
    → d < 64
    → Mountains k n hs
    → peak_index (leaves hs) d ≡ count_above d hs
unfolding peak_index
peak_index-count_above k n d hs b e m =
    let mask : sub64 (shl64 1 (suc d)) 1 ≡ 2 ^ suc d - 1 = mask64-eq (suc d) e in
    let all = ones_count64-below (leaves hs) ∙ ones_below-leaves k n 64 hs m b in
    let low =
      ones_count64-below (bit_and (leaves hs) (2 ^ suc d - 1))
      ∙ ones_below-bit_and 64 (suc d) (leaves hs) e in
    let e1 : d + 1 ≡ suc d = omega arith in
    rw (e1, mask) (omega (arith, all, low, ones_below-count_above k n d hs m))

count_above-zero : (k n d : ℕ) (hs : List ℕ) → Mountains k n hs → k ≤ suc d → count_above d hs ≡ 0
count_above-zero k n d [] m b = refl
count_above-zero k n d (h ∷ hs) (low, fits, rest) b =
    ground (arith, count_above-zero h (n - mass h) d hs rest)

-- Heights fall from peak to peak, so the count above a peak's height is its place in the list.
pub count_above-get_elem? :
    (k n j h : ℕ) (hs : List ℕ)
    → Mountains k n hs
    → get_elem? hs j ≡ some h
    → (count_above h hs ≡ j) × (h < k)
count_above-get_elem? k n j h [] m e = absurd (ground arith)
count_above-get_elem? k n zero h (x ∷ hs) (low, fits, rest) e =
    let same : x ≡ h = ground arith in ground (arith, count_above-zero x (n - mass x) h hs rest)
count_above-get_elem? k n (suc j) h (x ∷ hs) (low, fits, rest) e =
    ground (arith, count_above-get_elem? x (n - mass x) j h hs rest e)

-- The loop from the mask of `n`'s binary digits.
bitmap_run :
    (len n : ℕ) (hs : List ℕ)
    → len ≤ 64
    → n < word
    → len64 n ≡ len
    → Mountains len n hs
    → Option.get_or (peaks_bitmap_loop 65 n (sub64 (shl64 1 (len64 n)) 1) 0) 0 ≡ leaves hs
bitmap_run len n hs b fits e m =
    rw (e, mask64-eq len b)
      (ap (λ o. Option.get_or o 0)
        (bitmap_loop-Mountains 65 len n 0 hs (omega arith) fits (omega (arith, pow_mono len 64 b)) m
          ∙ ap some (omega arith)))

-- On a range of mountains `PeaksBitmap`, and so `LeafCount`, is the count of the leaves under the
-- mountains.
pub peaks_bitmap-leaves : (n : ℕ) (hs : List ℕ) → Mountains 63 n hs → peaks_bitmap n ≡ leaves hs
unfolding peaks_bitmap
peaks_bitmap-leaves n [] m = rw m refl
peaks_bitmap-leaves n (h ∷ hs) (low, fits, rest) =
    let above = Mountains-le h (n - mass h) hs rest in
    let small = pow_63 (suc h) (omega arith) in
    let some_nodes : (n == 0) ≡ false = ground (arith, pow_pos h) in
    let inside : n < word = omega (arith, pow_suc h) in
    rw some_nodes (elim (dec_lt n (2 ^ suc h)) [
      | yes short ↦
          bitmap_run (suc h) n (h ∷ hs) (omega arith) inside
            (len64_lem h n (omega arith) (omega (arith, pow_pos h)) (omega (arith, pow_suc h)))
            (omega arith, fits, rest)
      | no long ↦
          bitmap_run (suc (suc h)) n (h ∷ hs) (omega arith) inside
            (len64_lem (suc h) n (omega arith) (omega arith) (omega (arith, pow_suc h)))
            (omega arith, fits, rest)
    ])
