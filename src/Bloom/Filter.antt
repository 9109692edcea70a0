-- ===== src/Bloom/Filter.antt =====
-- bloom/bloom4.go: initialization, insertion and the membership test. SHA-256 is a parameter. The
-- loops run over the `k` probes of an element.
pub mod Bits
pub mod Places
pub mod Insertion
pub mod Members
pub mod Overflow
use Prim.Native.Nat.{bit_and, bit_or}
use go_merklelog.Base.{
  ℕ, zero, suc, ◌+◌, ◌*◌, ◌/◌, ◌%◌, ◌^◌, Bool, true, false, ◌||◌, Option, none, some, [], ◌∷◌,
  length,
}
use go_merklelog.Base.{◌==◌, ltb, leb, if◌then◌else◌, add64, mul64}
use go_merklelog.Base.Results.{ok, err, panic, out_of_fuel, ◌>>=◌}
use go_merklelog.Base.Buffers.{Bytes, drop, zeros, overwrite, read_byte, read_bytes, uint64}
use go_merklelog.Bloom.Sizing.{
  R, bad_elem_size, bad_filter_index, bad_region_size, not_initialized, bad_m_bits, m_bits_overflow,
  value_bytes, filters, header_bytes, check_bpe, m_bits_v1, m_bits_safe_cast, bitset_bytes,
  filter_bitset_off,
}
use go_merklelog.Bloom.Header.{HeaderV1, decode_header, encode_header}

-- the bit of probe `i`
unfoldable pub probe : ℕ → ℕ → ℕ → ℕ → ℕ
probe m_bits h1 h2 i = add64 h1 (mul64 i h2) % m_bits

-- `bitset[i] |= mask`
abbrev pub or_byte : Bytes → ℕ → ℕ → R Bytes
or_byte [] i mask = panic
or_byte (x ∷ b) zero mask = ok (bit_or x mask ∷ b)
or_byte (x ∷ b) (suc i) mask = or_byte b i mask >>= λ rest. ok (x ∷ rest)

-- the loop of `setBitsLSB0`, for the probes from `i` on
unfoldable pub set_bits : ℕ → ℕ → ℕ → ℕ → ℕ → Bytes → R Bytes
set_bits zero i m_bits h1 h2 bitset = ok bitset
set_bits (suc n) i m_bits h1 h2 bitset =
    let j = probe m_bits h1 h2 i in
    or_byte bitset (j / 8) (2 ^ (j % 8)) >>= λ next. set_bits n (i + 1) m_bits h1 h2 next

-- the loop of `testBitsLSB0`
unfoldable pub test_bits : ℕ → ℕ → ℕ → ℕ → ℕ → Bytes → R Bool
test_bits zero i m_bits h1 h2 bitset = ok true
test_bits (suc n) i m_bits h1 h2 bitset =
    let j = probe m_bits h1 h2 i in
    read_byte bitset (j / 8) >>= λ x. elim (bit_and x (2 ^ (j % 8)) == 0) [
      | true ↦ ok false
      | false ↦ test_bits n (i + 1) m_bits h1 h2 bitset
    ]

unfoldable pub initialized : Bytes → R HeaderV1
initialized region = decode_header region >>= known
  where
    known : Option HeaderV1 → R HeaderV1
    known none = err not_initialized
    known (some h) = ok h

-- the place of a filter's bitset and its bytes
pub record Bitset : Type 0 where
  pub off : ℕ
  pub bytes : Bytes

unfoldable pub bitset_of : Bytes → ℕ → HeaderV1 → R Bitset
bitset_of region filter_idx h =
    let size = bitset_bytes h.m_bits in
    filter_bitset_off filter_idx size >>= λ off.
    if ltb (length region) (off + size)
    then err bad_region_size
    else read_bytes region off size >>= λ bytes. ok (record { off = off; bytes = bytes })

unfoldable pub check_arguments : ℕ → Bytes → R (Unit {0})
check_arguments filter_idx elem =
    if leb filters filter_idx
    then err bad_filter_index
    else if length elem == value_bytes
    then ok tt
    else err bad_elem_size

module _ (sha256 : Bytes → Bytes) where
  unfoldable pub hash_pair : ℕ → Bytes → ℕ × ℕ
  hash_pair filter_idx elem =
      let digest = sha256 (0xb0 ∷ filter_idx ∷ elem) in
      let h2 = uint64 (drop 8 digest) in (uint64 digest, if h2 == 0 then 1 else h2)

  -- `InsertV1` up to the counter: the header that was read, and the region with the bits set
  unfoldable pub insert_bits : Bytes → ℕ → Bytes → R (HeaderV1 × Bytes)
  insert_bits region filter_idx elem = check_arguments filter_idx elem >>= λ _.
      initialized region >>= λ h. bitset_of region filter_idx h >>= λ bitset.
      let hs = hash_pair filter_idx elem in
      set_bits h.k 0 h.m_bits hs.0 hs.1 bitset.bytes >>= λ bytes.
      ok (h, overwrite region bitset.off bytes)

  -- The counter wraps on uint32.
  unfoldable pub insert_v1 : Bytes → ℕ → Bytes → R (Unit {0}) × Bytes
  insert_v1 region filter_idx elem = count (insert_bits region filter_idx elem)
    where
      count : R (HeaderV1 × Bytes) → R (Unit {0}) × Bytes
      count (ok (h, region)) =
          encode_header region (record h { n_inserted = (h.n_inserted + 1) % 2 ^ 32 })
      count (err e) = (err e, region)
      count panic = (panic, region)
      count out_of_fuel = (out_of_fuel, region)

  unfoldable pub maybe_contains_v1 : Bytes → ℕ → Bytes → R Bool
  maybe_contains_v1 region filter_idx elem = check_arguments filter_idx elem >>= λ _.
      initialized region >>= λ h. bitset_of region filter_idx h >>= λ bitset.
      let hs = hash_pair filter_idx elem in test_bits h.k 0 h.m_bits hs.0 hs.1 bitset.bytes

-- the checks of `InitV1`, up to the length of the region: the number of bits of a filter
unfoldable pub init_m_bits : ℕ → ℕ → ℕ → R ℕ
init_m_bits leaf_count bits_per_element region_length =
    if leaf_count == 0 || bits_per_element == 0
    then err bad_m_bits
    else check_bpe bits_per_element >>= λ _.
        let m_bits_64 = m_bits_v1 leaf_count bits_per_element in
        let m_bits = m_bits_safe_cast m_bits_64 in
        if m_bits_64 / leaf_count == bits_per_element
        then if m_bits == 0
          then err m_bits_overflow
          else if ltb region_length (header_bytes + filters * bitset_bytes m_bits)
          then err bad_region_size
          else ok m_bits
        else err m_bits_overflow

unfoldable pub init_v1 : Bytes → ℕ → ℕ → ℕ → R (Unit {0}) × Bytes
init_v1 region leaf_count bits_per_element k =
    write (init_m_bits leaf_count bits_per_element (length region))
  where
    write : R ℕ → R (Unit {0}) × Bytes
    write (ok m_bits) =
        encode_header (overwrite region 0 (zeros (header_bytes + filters * bitset_bytes m_bits)))
          (record { bit_order = 0; k = k; m_bits = m_bits; n_inserted = 0 })
    write (err e) = (err e, region)
    write panic = (panic, region)
    write out_of_fuel = (out_of_fuel, region)
