-- ===== src/Mmr/Leaves/Numbering.antt =====
-- Leaves by number and by index: `MMRIndex`, `LeafCount` and `LeafIndex` agree.
use go_merklelog.Base.{
  ℕ, zero, suc, ◌+◌, ◌-◌, ◌*◌, ◌^◌, ◌<◌, ◌≤◌, ◌≡◌, true, refl, sym, subst, ap, ◌∙◌, some, List, [],
  ◌∷◌, length, arith,
}
use go_merklelog.Base.{
  ltb, lt→ltb, add64, sub64, shl64, word, add64_exact, sub64_exact, mask64-eq, shl64-one, pow_63,
}
use native.Mathlib.Decide.{dec_lt}
use go_merklelog.Base.Pow.{pow_suc, pow_pos}
use go_merklelog.Base.Bits.{len64, len64_lem, ones_count64, trailing_zeros64-ones}
use go_merklelog.Mmr.Tree.{height_in, height_in-first, height_in-behind}
use go_merklelog.Mmr.IndexHeight.{index_height}
use go_merklelog.Mmr.IndexHeight.Shape.{index_height-Tree}
use go_merklelog.Mmr.Mountains.{mass, Mountains, leaves, Mountains-weaken, Mountains-le, leaves-lt}
use go_merklelog.Mmr.Peaks.{leaf_count}
use go_merklelog.Mmr.Peaks.Bitmap.{peaks_bitmap-leaves, ones_count64-leaves}
use go_merklelog.Mmr.Leaves.{mmr_index_loop, mmr_index, spur_height_leaf}

-- Every count of leaves is that of a range of mountains.
Mountains-of_leaves :
    (k l : ℕ) → l < 2 ^ k → (n : ℕ) × (hs : List ℕ) × Mountains k n hs × (leaves hs ≡ l)
Mountains-of_leaves zero l h = (0, [], refl, omega arith)
Mountains-of_leaves (suc k) l h = elim (dec_lt l (2 ^ k)) [
  | yes low ↦
      let (n, hs, m, e) = Mountains-of_leaves k l low in
      (n, hs, Mountains-weaken k (suc k) n hs (omega arith) m, e)
  | no high ↦
      let (n, hs, m, e) = Mountains-of_leaves k (l - 2 ^ k) (omega (arith, pow_suc k)) in
      let back : mass k + n - mass k ≡ n = omega arith in
      (
        mass k + n,
        k ∷ hs,
        (omega arith, omega arith, subst (λ x. Mountains k x hs) (sym back) m),
        omega arith,
      )
]

-- Behind a range of mountains stands a leaf.
Mountains-next_leaf : (k n : ℕ) (hs : List ℕ) → Mountains k n hs → height_in k (n + 1) ≡ 0
Mountains-next_leaf k n [] m = rw m (height_in-first k)
Mountains-next_leaf k n (h ∷ hs) (low, fits, rest) =
    let p = n - mass h + 1 in
    let e : n + 1 ≡ 2 * 2 ^ h - 1 + p = omega (arith, pow_pos h) in
    rw e (
      height_in-behind h k p low (omega arith) (omega (arith, Mountains-le h (n - mass h) hs rest))
      ∙ Mountains-next_leaf h (n - mass h) hs rest)

-- Twice the leaves are the nodes and the mountains.
Mountains-nodes : (k n : ℕ) (hs : List ℕ) → Mountains k n hs → n + length hs ≡ 2 * leaves hs
Mountains-nodes k n [] m = omega arith
Mountains-nodes k n (h ∷ hs) (low, fits, rest) =
    omega (arith, Mountains-nodes h (n - mass h) hs rest, pow_pos h)

-- Each round takes the highest mountain off.
mmr_index_loop-Mountains :
    (fuel k n sum : ℕ) (hs : List ℕ)
    → k < fuel
    → k ≤ 63
    → sum + n < word
    → Mountains k n hs
    → mmr_index_loop fuel (leaves hs) sum ≡ some (sum + n)
unfolding mmr_index_loop
mmr_index_loop-Mountains zero k n sum hs f b fits m = absurd (omega arith)
mmr_index_loop-Mountains (suc fuel) k n sum [] f b fits m = ap some (omega arith)
mmr_index_loop-Mountains (suc fuel) k n sum (h ∷ hs) f b fits (low, holds, rest) =
    let below = leaves-lt h (n - mass h) hs rest in
    let some_leaves : ltb 0 (2 ^ h + leaves hs) ≡ true =
      lt→ltb 0 (2 ^ h + leaves hs) (omega (arith, pow_pos h)) in
    let digits : len64 (2 ^ h + leaves hs) ≡ suc h =
      len64_lem h (2 ^ h + leaves hs) (omega arith) (omega arith) (omega arith) in
    let full : sub64 (shl64 1 (suc h)) 1 ≡ mass h =
      mask64-eq (suc h) (omega arith) ∙ omega (arith, pow_suc h) in
    let top : sub64 (suc h) 1 ≡ h =
      sub64_exact (suc h) 1 (omega arith) (omega arith) ∙ omega arith in
    let half : shl64 1 h ≡ 2 ^ h = shl64-one h (omega arith) (omega (arith, pow_63 h)) in
    let left : sub64 (2 ^ h + leaves hs) (2 ^ h) ≡ leaves hs =
      sub64_exact (2 ^ h + leaves hs) (2 ^ h) (omega arith) (omega (arith, pow_63 h))
      ∙ omega arith in
    let sum' : add64 sum (mass h) ≡ sum + mass h = add64_exact sum (mass h) (omega arith) in
    rw (some_leaves, mmr_index_loop)
      (rw (digits, full, top, half, left, sum')
        (mmr_index_loop-Mountains fuel h (n - mass h) (sum + mass h) hs (omega arith) (omega arith)
            (omega arith) rest
          ∙ ap some (omega arith)))

pub mmr_index-Mountains : (n : ℕ) (hs : List ℕ) → Mountains 63 n hs → mmr_index (leaves hs) ≡ n
unfolding mmr_index
mmr_index-Mountains n hs m =
    let fits = Mountains-le 63 n hs m in
    rw (mmr_index_loop-Mountains 65 63 n 0 hs (omega arith) (omega arith) (omega arith) m)
      (omega arith)

-- The nodes before leaf `l` are a range of mountains with `l` leaves.
pub record Numbered (l : ℕ) : Type 0 where
  pub heights : List ℕ
  pub mountains : Mountains 63 (mmr_index l) heights
  pub counted : leaves heights ≡ l

pub Numbered-of : (l : ℕ) → l < 2 ^ 63 → Numbered l
Numbered-of l h =
    let (n, hs, m, e) = Mountains-of_leaves 63 l h in
    let index : mmr_index l ≡ n = ap mmr_index (sym e) ∙ mmr_index-Mountains n hs m in
    record { heights = hs; mountains = subst (λ x. Mountains 63 x hs) (sym index) m; counted = e }

-- The index of a leaf is twice its number, less the peaks before it.
pub mmr_index-ones : (l : ℕ) → l < 2 ^ 63 → mmr_index l + ones_count64 l ≡ 2 * l
mmr_index-ones l h =
    let x = Numbered-of l h in
    let ones : ones_count64 l ≡ length x.heights =
      ap ones_count64 (sym x.counted)
      ∙ ones_count64-leaves 63 (mmr_index l) x.heights (omega arith) x.mountains in
    omega (arith, ones, Mountains-nodes 63 (mmr_index l) x.heights x.mountains, x.counted)

-- Behind a leaf stand as many interior nodes as `SpurHeightLeaf` says, and then the next leaf.
pub mmr_index-next :
    (l : ℕ) → l + 1 < 2 ^ 63 → mmr_index (l + 1) ≡ mmr_index l + 1 + spur_height_leaf l
unfolding spur_height_leaf
mmr_index-next l h = rw (add64_exact l 1 (omega arith)) (
    omega (
      arith,
      mmr_index-ones l (omega arith),
      mmr_index-ones (l + 1) h,
      trailing_zeros64-ones l (omega arith),
    ))

-- The node at the index of leaf `l` is a leaf, and `l` leaves stand before it.
pub mmr_index-leaf :
    (l : ℕ) → l < 2 ^ 63 → (index_height (mmr_index l) ≡ 0) × (leaf_count (mmr_index l) ≡ l)
unfolding leaf_count
mmr_index-leaf l h =
    let x = Numbered-of l h in
    let fits = Mountains-le 63 (mmr_index l) x.heights x.mountains in
    (
      index_height-Tree (mmr_index l) (omega arith)
          ∙ Mountains-next_leaf 63 (mmr_index l) x.heights x.mountains,
      peaks_bitmap-leaves (mmr_index l) x.heights x.mountains ∙ x.counted,
    )
