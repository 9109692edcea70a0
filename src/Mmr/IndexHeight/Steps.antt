-- ===== src/Mmr/IndexHeight/Steps.antt =====
-- How the height moves from a node to the next one and to its parent, and how far a node of a
-- height is from the start of the log: what the loops of the mmr package rely on.
use go_merklelog.Base.{ℕ, ◌+◌, ◌*◌, ◌^◌, ◌≤◌, ◌<◌, ◌≡◌, ◌⊎◌, ap, arith}
use go_merklelog.Base.{shl64, word, shl64-two}
use go_merklelog.Mmr.Tree.{
  height_in, height_in-le, height_in-first, height_in_room, height_in-next, height_in-left_parent,
}
use go_merklelog.Mmr.IndexHeight.{index_height}
use go_merklelog.Mmr.IndexHeight.Shape.{index_height-Tree}

pub index_height-lt : (i : ℕ) → i + 1 < word → index_height i < 64
index_height-lt i h = omega (arith, index_height-Tree i h, height_in-le 63 (i + 1))

pub index_height-zero : index_height 0 ≡ 0
index_height-zero = omega (arith, index_height-Tree 0 (omega arith), height_in-first 63)

-- A node of height h is the last of 2 ^ (h + 1) - 1 nodes.
pub index_height_room : (i : ℕ) → i + 1 < word → 2 * 2 ^ index_height i ≤ i + 2
index_height_room i h =
    rw (index_height-Tree i h)
      (omega (arith, height_in_room 63 (i + 1) (omega arith) (omega arith)))

-- Behind a node stands its parent, which is one higher, or a leaf.
pub index_height-next :
    (i : ℕ)
    → i + 2 < word
    → (index_height (i + 1) ≡ index_height i + 1) ⊎ (index_height (i + 1) ≡ 0)
index_height-next i h =
    rw (index_height-Tree i (omega arith), index_height-Tree (i + 1) (omega arith))
      (height_in-next 63 (i + 1) (omega arith) (omega arith))

-- The parent of a node that is no right child stands 2 ^ (h + 1) behind it.
pub index_height-left_parent :
    (i : ℕ)
    → i + 2 < word
    → index_height (i + 1) ≤ index_height i
    → (i + 2 * 2 ^ index_height i + 1 < word)
      × (index_height (i + 2 * 2 ^ index_height i) ≡ index_height i + 1)
index_height-left_parent i h low =
    let q = i + 2 * 2 ^ height_in 63 (i + 1) in
    let up =
      height_in-left_parent 63 (i + 1) (omega arith) (omega arith)
        (omega (arith, index_height-Tree i, index_height-Tree (i + 1))) in
    let e : i + 1 + 2 * 2 ^ height_in 63 (i + 1) ≡ q + 1 = omega arith in
    let fits : q + 1 < word = omega (arith, up) in
    rw (index_height-Tree i (omega arith))
      (fits, omega (arith, up, index_height-Tree q fits, ap (height_in 63) e))

-- `2 << h` does not wrap at the height of a node.
pub shl64-index_height : (i : ℕ) → i + 2 < word → shl64 2 (index_height i) ≡ 2 * 2 ^ index_height i
shl64-index_height i h =
    shl64-two (index_height i) (index_height-lt i (omega arith))
      (omega (arith, index_height_room i))
