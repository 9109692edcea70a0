-- ===== src/Mmr/Hasher.antt =====
-- mmr/hashwritevalue.go and mmr/hashpospair.go. A `hash.Hash` holds the bytes written since the
-- last reset; its digest function is the caller's.
unfoldable pub use go_merklelog.Base.Buffers.{Bytes, put_uint64}
use go_merklelog.Base.{ℕ, [], ◌++◌}

pub record Hasher : Type 0 where
  pub written : Bytes

abbrev pub reset : Hasher
reset = record { written = [] }

unfoldable pub write : Hasher → Bytes → Hasher
write h b = record { written = h.written ++ b }

unfoldable pub hash_write_uint64 : Hasher → ℕ → Hasher
hash_write_uint64 hasher value = write hasher (put_uint64 value)

module _ (digest : Bytes → Bytes) where
  unfoldable pub sum : Hasher → Bytes
  sum h = digest h.written

  unfoldable pub hash_pos_pair64 : ℕ → Bytes → Bytes → Bytes
  hash_pos_pair64 pos a b = sum (write (write (hash_write_uint64 reset pos) a) b)
