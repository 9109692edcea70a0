-- ===== src/Bloom/Filter/Overflow.antt =====
-- The sizes at which the byte count of a bitset wraps.
use go_merklelog.Base.{ℕ, suc, ◌+◌, ◌^◌, ◌<◌, ◌≤◌, ◌≡◌, refl, some, length, arith}
use go_merklelog.Base.{==_iff, lt→leb}
use go_merklelog.Base.Results.{ok, panic, ◌>>=◌}
use go_merklelog.Base.Buffers.{Bytes}
use go_merklelog.Bloom.Sizing.{bitset_bytes}
use go_merklelog.Bloom.Header.{HeaderV1, decode_header}
use go_merklelog.Bloom.Filter.{check_arguments, set_bits, insert_bits, insert_v1}
use go_merklelog.Bloom.Filter.Places.{bitset_of-eq}
use go_merklelog.Bloom.Filter.Members.{initialized-of_decode}

bitset_bytes-wrapped :
    (m_bits : ℕ) → m_bits < 2 ^ 32 → 2 ^ 32 ≤ m_bits + 7 → bitset_bytes m_bits ≡ 0
unfolding bitset_bytes
bitset_bytes-wrapped m_bits h k = omega arith

check_arguments-ok :
    (f : ℕ) (elem : Bytes) → f < 4 → length elem ≡ 32 → check_arguments f elem ≡ ok tt
unfolding check_arguments
check_arguments-ok f elem few sized = rw (lt→leb 4 f few, (==_iff (length elem) 32).1 sized) refl

-- With a header whose count of bits is less than 8 below 2 ^ 32, the byte count of a bitset wraps
-- to 0: `InsertV1` of a valid element panics on the first probe.
pub insert_v1-wrapped :
    (sha256 : Bytes → Bytes) (region : Bytes) (f : ℕ) (elem : Bytes) (h : HeaderV1) (k : ℕ)
    → f < 4
    → length elem ≡ 32
    → 32 ≤ length region
    → decode_header region ≡ ok (some h)
    → h.k ≡ suc k
    → h.m_bits < 2 ^ 32
    → 2 ^ 32 ≤ h.m_bits + 7
    → insert_v1 sha256 region f elem ≡ (panic, region)
unfolding insert_v1 insert_bits set_bits
insert_v1-wrapped sha256 region f elem h k few sized long header probes width wraps =
    let none_left : bitset_bytes h.m_bits ≡ 0 = bitset_bytes-wrapped h.m_bits width wraps in
    let found = rw none_left at (bitset_of-eq region f h few (rw none_left (omega arith))) in
    rw (check_arguments-ok f elem few sized, initialized-of_decode region header, ◌>>=◌)
      (rw (found, ◌>>=◌) (rw (probes) refl))
