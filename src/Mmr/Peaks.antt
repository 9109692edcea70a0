-- ===== src/Mmr/Peaks.antt =====
-- mmr/peaks.go, mmr/leafcount.go and mmr/firstmmrsize.go: peaks and leaf counts on uint64. Each
-- round of `Peaks` takes off the largest mountain, and each round of `PeaksBitmap` shortens the
-- mask, so 65 rounds are enough; a node is followed by at most 63 nodes above it.
pub mod Range
pub mod Bitmap
pub mod Tops
pub mod Complete
use mathlib.Core.Option
use Prim.Native.Nat.{bit_and, bit_or}
use go_merklelog.Base.{
  ℕ, zero, suc, ◌+◌, ◌-◌, ◌*◌, ◌/◌, Bool, true, false, Option, none, some, List, [], ◌∷◌, ◌++◌, map,
}
use go_merklelog.Base.{ltb, leb, ◌==◌, if◌then◌else◌, add64, sub64, shl64, shr64}
use go_merklelog.Base.Bits.{len64, ones_count64}
use go_merklelog.Base.Results.{ok, ◌>>=◌}
use go_merklelog.Mmr.Errors.{R}
use go_merklelog.Mmr.Hasher.{Bytes}
use go_merklelog.Mmr.IndexHeight.{bit_length64, pos_height, index_height}

unfoldable pub top_peak : ℕ → ℕ
top_peak i = sub64 (shl64 1 (sub64 (bit_length64 (add64 i 2)) 1)) 2

unfoldable pub top_height : ℕ → ℕ
top_height i = sub64 (bit_length64 (add64 i 2)) 2

-- `none` when the fuel is out
unfoldable pub peaks_loop : ℕ → ℕ → ℕ → List ℕ → Option (List ℕ)
peaks_loop zero mmr_size peak peaks = none
peaks_loop (suc fuel) mmr_size peak peaks = elim (mmr_size == 0) [
  | true ↦ some peaks
  | false ↦
      let peak_size = add64 (top_peak (sub64 mmr_size 1)) 1 in
      let peak' = add64 peak peak_size in
      peaks_loop fuel (sub64 mmr_size peak_size) peak' (peaks ++ sub64 peak' 1 ∷ [])
]

-- The empty list is `nil`.
unfoldable pub peaks : ℕ → List ℕ
peaks mmr_index =
    let mmr_size = add64 mmr_index 1 in
    if ltb (pos_height mmr_size) (pos_height (add64 mmr_size 1))
    then []
    else Option.get_or (peaks_loop 65 mmr_size 0 []) []

unfoldable pub pos_peaks : ℕ → List ℕ
pos_peaks mmr_size = map (λ p. add64 p 1) (peaks (sub64 mmr_size 1))

-- `map` is `peakMap`
unfoldable pub peaks_bitmap_loop : ℕ → ℕ → ℕ → ℕ → Option ℕ
peaks_bitmap_loop zero pos peak_size peak_map = none
peaks_bitmap_loop (suc fuel) pos peak_size peak_map = elim (ltb 0 peak_size) [
  | true ↦
      let shifted = shl64 peak_map 1 in
      peaks_bitmap_loop fuel (if leb peak_size pos then sub64 pos peak_size else pos)
        (shr64 peak_size 1) (if leb peak_size pos then bit_or shifted 1 else shifted)
  | false ↦ some peak_map
]

unfoldable pub peaks_bitmap : ℕ → ℕ
peaks_bitmap mmr_size =
    if mmr_size == 0
    then 0
    else Option.get_or (peaks_bitmap_loop 65 mmr_size (sub64 (shl64 1 (len64 mmr_size)) 1) 0) 0

-- `d` is not negative. Neither count is above 64, and the second is not above the first.
unfoldable pub peak_index : ℕ → ℕ → ℕ
peak_index leaf_count d =
    let peaks_mask = sub64 (shl64 1 (d + 1)) 1 in
    let n = ones_count64 (bit_and leaf_count peaks_mask) in ones_count64 leaf_count - n

unfoldable pub leaf_count : ℕ → ℕ
leaf_count size = peaks_bitmap size

unfoldable pub first_mmr_size_loop : ℕ → ℕ → ℕ → ℕ → Option ℕ
first_mmr_size_loop zero i h0 h1 = none
first_mmr_size_loop (suc fuel) i h0 h1 = elim (ltb h0 h1) [
  | true ↦ let i' = add64 i 1 in first_mmr_size_loop fuel i' h1 (index_height (add64 i' 1))
  | false ↦ some (add64 i 1)
]

unfoldable pub first_mmr_size : ℕ → ℕ
first_mmr_size mmr_index =
    Option.get_or
      (first_mmr_size_loop 65 mmr_index (index_height mmr_index) (index_height (add64 mmr_index 1)))
      0

unfoldable pub leaf_index : ℕ → ℕ
leaf_index mmr_index = sub64 (leaf_count (first_mmr_size mmr_index)) 1

-- `copy` into a new slice of `n` bytes
unfoldable pub copy_of : ℕ → Bytes → Bytes
copy_of zero b = []
copy_of (suc n) [] = 0 ∷ copy_of n []
copy_of (suc n) (x ∷ b) = x ∷ copy_of n b

-- the loop of `PeakHashes`
unfoldable pub peak_hashes_loop : (ℕ → R Bytes) → List ℕ → List Bytes → R (List Bytes)
peak_hashes_loop get [] path = ok path
peak_hashes_loop get (i ∷ rest) path =
    get i >>= λ stored. peak_hashes_loop get rest (path ++ copy_of 32 stored ∷ [])

unfoldable pub peak_hashes : (ℕ → R Bytes) → ℕ → R (List Bytes)
peak_hashes get mmr_index = peak_hashes_loop get (peaks mmr_index) []
