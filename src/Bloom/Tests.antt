-- ===== src/Bloom/Tests.antt =====
-- Runs of the bloom package on a small region, and its theorems at concrete inputs.
use mathlib.Core.Option
use go_merklelog.Base.{ℕ, zero, suc, ◌≡◌, refl, true, some, [], ◌∷◌, ◌++◌, length, get_elem?, arith}
use go_merklelog.Base.{bytes_equal, add64, mul64}
use go_merklelog.Base.Results.{ok, panic}
use go_merklelog.Base.Buffers.{Bytes, drop, zeros, read_bytes, put_uint32, uint32, uint64, AllBytes}
use go_merklelog.Bloom.Sizing.{
  bitset_bytes, filter_bitset_off, check_bpe, m_bits_v1, m_bits_safe_cast,
}
use go_merklelog.Bloom.Header.{
  HeaderV1, checked, decode_header, decode_version, decode_fields, encode_header, write_header,
}
use go_merklelog.Bloom.Header.Roundtrip.{IsHeader, decode_header-encode_header}
use go_merklelog.Bloom.Filter.{
  probe, set_bits, test_bits, initialized, bitset_of, check_arguments, hash_pair, insert_bits,
  insert_v1, maybe_contains_v1, init_m_bits, init_v1,
}
use go_merklelog.Bloom.Filter.Members.{
  maybe_contains_v1-insert_v1, maybe_contains_v1-insert_v1_kept,
}
use go_merklelog.Bloom.Filter.Overflow.{insert_v1-wrapped}

-- a digest of 16 bytes that keeps the first byte of the element
abbrev sample : Bytes → Bytes
sample b = zeros 7 ++ Option.get_or (get_elem? b 2) 0 ∷ zeros 7 ++ 3 ∷ []

abbrev small : HeaderV1
small = record { bit_order = 0; k = 2; m_bits = 8; n_inserted = 0 }

-- four filters of one byte behind the header
abbrev fresh : Bytes
fresh = 0x42 ∷ 0x4c ∷ 0x4d ∷ 0x31 ∷ 1 ∷ 0 ∷ 2 ∷ 4 ∷ 0 ∷ 0 ∷ 0 ∷ 8 ∷ zeros 24

init_run : init_v1 (zeros 36) 1 8 2 ≡ (ok tt, fresh)
unfolding init_v1 init_m_bits check_bpe m_bits_v1 m_bits_safe_cast mul64 bitset_bytes encode_header
    write_header put_uint32
init_run = refl

abbrev elem : Bytes
elem = 5 ∷ zeros 31

abbrev other : Bytes
other = 6 ∷ zeros 31

abbrev with_elem : Bytes
with_elem =
    0x42 ∷ 0x4c ∷ 0x4d ∷ 0x31 ∷ 1 ∷ 0 ∷ 2 ∷ 4 ∷ 0 ∷ 0 ∷ 0 ∷ 8 ∷ 0 ∷ 0 ∷ 0 ∷ 1 ∷ zeros 17
    ++ 33 ∷ 0 ∷ 0 ∷ []

insert_run : insert_v1 sample fresh 1 elem ≡ (ok tt, with_elem)
unfolding insert_v1 insert_bits check_arguments initialized decode_header decode_version
    decode_fields checked read_bytes bytes_equal uint32 uint64 bitset_of bitset_bytes
    filter_bitset_off set_bits probe hash_pair add64 mul64 encode_header write_header put_uint32
insert_run = refl

zeros-AllBytes : (n : ℕ) → AllBytes (zeros n)
zeros-AllBytes zero = tt
zeros-AllBytes (suc n) = (omega arith, zeros-AllBytes n)

fresh-AllBytes : AllBytes fresh
fresh-AllBytes = (
  omega arith,
  (
    omega arith,
    (
      omega arith,
      (
        omega arith,
        (
          omega arith,
          (
            omega arith,
            (
              omega arith,
              (
                omega arith,
                (omega arith, (omega arith, (omega arith, (omega arith, zeros-AllBytes 24)))),
              ),
            ),
          ),
        ),
      ),
    ),
  ),
)

maybe_contains_v1-insert_v1_example : maybe_contains_v1 sample with_elem 1 elem ≡ ok true
maybe_contains_v1-insert_v1_example =
    maybe_contains_v1-insert_v1 sample fresh 1 elem fresh-AllBytes insert_run

with_elem-AllBytes : AllBytes with_elem
with_elem-AllBytes = (
  omega arith,
  (
    omega arith,
    (
      omega arith,
      (
        omega arith,
        (
          omega arith,
          (
            omega arith,
            (
              omega arith,
              (
                omega arith,
                (
                  omega arith,
                  (
                    omega arith,
                    (
                      omega arith,
                      (
                        omega arith,
                        (
                          omega arith,
                          (
                            omega arith,
                            (
                              omega arith,
                              (
                                omega arith,
                                append-AllBytes 17 (33 ∷ zeros 2) (omega arith, zeros-AllBytes 2),
                              ),
                            ),
                          ),
                        ),
                      ),
                    ),
                  ),
                ),
              ),
            ),
          ),
        ),
      ),
    ),
  ),
)
  where
    append-AllBytes : (n : ℕ) (b : Bytes) → AllBytes b → AllBytes (zeros n ++ b)
    append-AllBytes zero b all = all
    append-AllBytes (suc n) b all = (omega arith, append-AllBytes n b all)

abbrev with_both : Bytes
with_both =
    0x42 ∷ 0x4c ∷ 0x4d ∷ 0x31 ∷ 1 ∷ 0 ∷ 2 ∷ 4 ∷ 0 ∷ 0 ∷ 0 ∷ 8 ∷ 0 ∷ 0 ∷ 0 ∷ 2 ∷ zeros 17
    ++ 99 ∷ 0 ∷ 0 ∷ []

insert_other_run : insert_v1 sample with_elem 1 other ≡ (ok tt, with_both)
unfolding insert_v1 insert_bits check_arguments initialized decode_header decode_version
    decode_fields checked read_bytes bytes_equal uint32 uint64 bitset_of bitset_bytes
    filter_bitset_off set_bits probe hash_pair add64 mul64 encode_header write_header put_uint32
insert_other_run = refl

elem_found : maybe_contains_v1 sample with_elem 1 elem ≡ ok true
unfolding maybe_contains_v1 check_arguments initialized decode_header decode_version decode_fields
    checked read_bytes bytes_equal uint32 uint64 bitset_of bitset_bytes filter_bitset_off test_bits
    probe hash_pair add64 mul64
elem_found = refl

maybe_contains_v1-insert_v1_kept_example : maybe_contains_v1 sample with_both 1 elem ≡ ok true
maybe_contains_v1-insert_v1_kept_example =
    maybe_contains_v1-insert_v1_kept sample with_elem 1 elem 1 other with_elem-AllBytes elem_found
      insert_other_run

small-IsHeader : IsHeader small
small-IsHeader = record {
  bit_order_lsb0 = refl;
  some_k = λ h. omega arith;
  some_bits = λ h. omega arith;
  m_bits_width = omega arith;
  n_inserted_width = omega arith;
}

decode_header-encode_header_example :
    (region' : Bytes) × (encode_header (zeros 36) small ≡ (ok tt, region'))
    × (decode_header region' ≡ ok (some small))
    × (drop 32 region' ≡ drop 32 (zeros 36))
    × (length region' ≡ 36)
decode_header-encode_header_example =
    decode_header-encode_header (zeros 36) small (omega arith) small-IsHeader

-- a header with the greatest count of bits
abbrev large : HeaderV1
large = record { bit_order = 0; k = 2; m_bits = 0xffff_ffff; n_inserted = 0 }

abbrev large_region : Bytes
large_region = 0x42 ∷ 0x4c ∷ 0x4d ∷ 0x31 ∷ 1 ∷ 0 ∷ 2 ∷ 4 ∷ 255 ∷ 255 ∷ 255 ∷ 255 ∷ zeros 20

init_large_run : init_v1 (zeros 32) 1 0xffff_ffff 2 ≡ (ok tt, large_region)
unfolding init_v1 init_m_bits check_bpe m_bits_v1 m_bits_safe_cast mul64 bitset_bytes encode_header
    write_header put_uint32
init_large_run = refl

decode_large_run : decode_header large_region ≡ ok (some large)
unfolding decode_header decode_version decode_fields checked read_bytes bytes_equal uint32
decode_large_run = refl

insert_v1-wrapped_example : insert_v1 sample large_region 1 elem ≡ (panic, large_region)
insert_v1-wrapped_example =
    insert_v1-wrapped sample large_region 1 elem large 1 (omega arith) refl (omega arith)
      decode_large_run refl (omega arith) (omega arith)
