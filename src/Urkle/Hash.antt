-- ===== src/Urkle/Hash.antt =====
-- urkle/hash.go, urkle/bytes.go and urkle/bit.go: the hashes of leaves and branches, and the bits of a
-- key. A `[32]byte` is a list of 32 bytes; the digest is a parameter.
use go_merklelog.Base.{ℕ, ◌+◌, ◌-◌, ◌%◌, ◌∷◌, ◌++◌, length}
use go_merklelog.Base.{◌==◌, if◌then◌else◌, shr64}
use go_merklelog.Base.Results.{ok, err}
use go_merklelog.Base.Buffers.{Bytes, put_uint32, put_uint64}
use go_merklelog.Urkle.Errors.{R, bad_hash_size, bad_value_size, hash_bytes}

-- `63 - i` wraps on uint8, and a shift of 64 or more gives 0.
unfoldable pub bit_at : ℕ → ℕ → ℕ
bit_at x i = shr64 x ((63 + 256 - i) % 256) % 2

-- what `HashLeaf` and `HashBranch` write to the hasher after its reset
unfoldable pub leaf_input : ℕ → ℕ → Bytes → Bytes
leaf_input key leaf_ordinal value = 0 ∷ (put_uint64 key ++ put_uint32 leaf_ordinal ++ value)

unfoldable pub branch_input : ℕ → Bytes → Bytes → Bytes
branch_input bit left right = 1 ∷ bit ∷ (left ++ right)

module _ (digest : Bytes → Bytes) where
  -- the sum, with its size checked
  unfoldable pub sum : Bytes → R Bytes
  sum written =
      if length (digest written) == hash_bytes then ok (digest written) else err bad_hash_size

  unfoldable pub hash_leaf : ℕ → ℕ → Bytes → R Bytes
  hash_leaf key leaf_ordinal value =
      if length value == hash_bytes
      then sum (leaf_input key leaf_ordinal value)
      else err bad_value_size

  unfoldable pub hash_branch : ℕ → Bytes → Bytes → R Bytes
  hash_branch bit left right = sum (branch_input bit left right)
