-- ===== src/Bloom/Header.antt =====
-- bloom/header.go: the 32 bytes before the filters.
pub mod Roundtrip
pub mod Decoded
use go_merklelog.Base.{ℕ, ◌+◌, ◌<◌, Bool, Option, none, some, [], ◌∷◌, length}
use go_merklelog.Base.{◌==◌, ltb, if◌then◌else◌, bytes_equal}
use go_merklelog.Base.Results.{ok, err, ◌>>=◌}
use go_merklelog.Base.Buffers.{
  Bytes, take, zeros, overwrite, read_byte, read_bytes, put_uint32, uint32,
}
use go_merklelog.Bloom.Sizing.{
  R, bad_region_size, bad_magic, bad_version, bad_bit_order, bad_k, bad_filters, bad_m_bits,
  filters, header_bytes,
}

-- "BLM1"
abbrev pub magic_v1 : Bytes
magic_v1 = 0x42 ∷ 0x4c ∷ 0x4d ∷ 0x31 ∷ []

pub record HeaderV1 : Type 0 where
  pub bit_order : ℕ
  pub k : ℕ
  pub m_bits : ℕ
  pub n_inserted : ℕ

-- the checks of the decoded fields, in their order
unfoldable pub checked : ℕ → HeaderV1 → R (Option HeaderV1)
checked filter_count h =
    if filter_count == filters
    then if h.bit_order == 0
      then if h.k == 0 then err bad_k else if h.m_bits == 0 then err bad_m_bits else ok (some h)
      else err bad_bit_order
    else err bad_filters

-- the fields behind the version
unfoldable pub decode_fields : Bytes → R (Option HeaderV1)
decode_fields region = read_byte region 5 >>= λ bit_order. read_byte region 6 >>= λ k.
    read_byte region 7 >>= λ filter_count. read_bytes region 8 4 >>= λ m_bits.
    read_bytes region 12 4 >>= λ n_inserted. checked filter_count (record {
      bit_order = bit_order;
      k = k;
      m_bits = uint32 m_bits;
      n_inserted = uint32 n_inserted;
    })

unfoldable pub decode_version : Bytes → R (Option HeaderV1)
decode_version region =
    read_byte region 4 >>= λ version. if version == 1 then decode_fields region else err bad_version

-- `none` is the region that is not initialized.
unfoldable pub decode_header : Bytes → R (Option HeaderV1)
decode_header region =
    if ltb (length region) header_bytes
    then err bad_region_size
    else read_bytes region 0 4 >>= λ magic.
        if bytes_equal magic (zeros 4)
        then ok none
        else if bytes_equal magic magic_v1
        then decode_version region
        else err bad_magic

-- the writes of `EncodeHeaderV1`, inside the length that it has checked
unfoldable pub write_header : Bytes → HeaderV1 → Bytes
write_header region h =
    let region = overwrite region 0 magic_v1 in
    let region = overwrite region 4 (1 ∷ []) in
    let region = overwrite region 5 (h.bit_order ∷ []) in
    let region = overwrite region 6 (h.k ∷ []) in
    let region = overwrite region 7 (filters ∷ []) in
    let region = overwrite region 8 (put_uint32 h.m_bits) in
    let region = overwrite region 12 (put_uint32 h.n_inserted) in overwrite region 16 (zeros 16)

unfoldable pub encode_header : Bytes → HeaderV1 → R (Unit {0}) × Bytes
encode_header region h =
    if ltb (length region) header_bytes
    then (err bad_region_size, region)
    else if h.bit_order == 0
    then if h.k == 0
      then (err bad_k, region)
      else if h.m_bits == 0
      then (err bad_m_bits, region)
      else (ok tt, write_header region h)
    else (err bad_bit_order, region)
