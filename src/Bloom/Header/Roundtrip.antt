-- ===== src/Bloom/Header/Roundtrip.antt =====
-- A header that is encoded is decoded again.
use go_merklelog.Base.{ℕ, ◌<◌, ◌≤◌, ◌≡◌, ◌≢◌, refl, ap, ◌∙◌, some, [], ◌∷◌, ◌++◌, length, arith}
use go_merklelog.Base.{◌==◌, le→leb, le→ltb, neq→==, ==_iff, true, bytes_equal, length-append}
use go_merklelog.Base.Results.{ok}
use go_merklelog.Base.Buffers.{
  Bytes, take, drop, zeros, length-overwrite, overwrite_join, overwrite_front,
  drop-overwrite_behind, read_bytes, put_uint32, uint32, uint32-put_uint32,
}
use go_merklelog.Bloom.Header.{
  HeaderV1, magic_v1, checked, decode_header, decode_version, decode_fields, write_header,
  encode_header,
}

-- A header that the encoder accepts and whose fields have their widths.
pub record IsHeader (h : HeaderV1) : Type 0 where
  pub bit_order_lsb0 : h.bit_order ≡ 0
  pub some_k : h.k ≢ 0
  pub some_bits : h.m_bits ≢ 0
  pub m_bits_width : h.m_bits < 0x1_0000_0000
  pub n_inserted_width : h.n_inserted < 0x1_0000_0000

-- The header as one string of bytes.
abbrev pub encoded : HeaderV1 → Bytes
encoded h =
    0x42
    ∷ 0x4c
    ∷ 0x4d
    ∷ 0x31
    ∷ 1
    ∷ h.bit_order
    ∷ h.k
    ∷ 4
    ∷ (put_uint32 h.m_bits ++ put_uint32 h.n_inserted ++ zeros 16)

pub write_header-eq :
    (region : Bytes) (h : HeaderV1)
    → 32 ≤ length region
    → write_header region h ≡ encoded h ++ drop 32 region
unfolding write_header put_uint32
write_header-eq region h long =
    rw
      (
        overwrite_join region 0 4 magic_v1 (1 ∷ []) refl,
        overwrite_join region 0 5 _ (h.bit_order ∷ []) refl,
        overwrite_join region 0 6 _ (h.k ∷ []) refl,
        overwrite_join region 0 7 _ (4 ∷ []) refl,
        overwrite_join region 0 8 _ (put_uint32 h.m_bits) refl,
        overwrite_join region 0 12 _ (put_uint32 h.n_inserted) refl,
        overwrite_join region 0 16 _ (zeros 16) refl,
      )
      (overwrite_front region (encoded h) long)

pub length-write_header :
    (region : Bytes) (h : HeaderV1) → length (write_header region h) ≡ length region
unfolding write_header
length-write_header region h =
    rw
      (
        length-overwrite _ 16 (zeros 16),
        length-overwrite _ 12 (put_uint32 h.n_inserted),
        length-overwrite _ 8 (put_uint32 h.m_bits),
        length-overwrite _ 7 (4 ∷ []),
        length-overwrite _ 6 (h.k ∷ []),
        length-overwrite _ 5 (h.bit_order ∷ []),
        length-overwrite _ 4 (1 ∷ []),
        length-overwrite region 0 magic_v1,
      )
      refl

decode-encoded :
    (h : HeaderV1) (rest : Bytes) → IsHeader h → decode_header (encoded h ++ rest) ≡ ok (some h)
unfolding decode_header decode_version decode_fields read_bytes bytes_equal put_uint32 checked
decode-encoded h rest p =
    let whole : length (encoded h) ≡ 32 = refl in
    let long : 32 ≤ length (encoded h ++ rest) =
      omega (arith, length-append (encoded h) rest, whole) in
    let back : uint32 (take 4 (drop 12 (encoded h ++ rest))) ≡ h.n_inserted =
      uint32-put_uint32 h.n_inserted p.n_inserted_width in
    let lsb0 : (h.bit_order == 0) ≡ true = (==_iff h.bit_order 0).1 p.bit_order_lsb0 in
    rw
      (
        le→ltb (length (encoded h ++ rest)) 32 long,
        le→leb 4 (length (encoded h ++ rest)) (omega arith),
        le→leb 12 (length (encoded h ++ rest)) (omega arith),
        le→leb 16 (length (encoded h ++ rest)) (omega arith),
        uint32-put_uint32 h.m_bits p.m_bits_width,
      )
      (rw (back, lsb0, neq→== h.k 0 p.some_k, neq→== h.m_bits 0 p.some_bits) refl)

-- Bytes behind the header stay.
pub drop-write_header :
    (region : Bytes) (h : HeaderV1) (lo : ℕ)
    → 32 ≤ lo
    → drop lo (write_header region h) ≡ drop lo region
unfolding write_header put_uint32
drop-write_header region h lo far =
    rw
      (
        drop-overwrite_behind _ lo 16 (zeros 16) (omega arith),
        drop-overwrite_behind _ lo 12 (put_uint32 h.n_inserted) (omega arith),
        drop-overwrite_behind _ lo 8 (put_uint32 h.m_bits) (omega arith),
        drop-overwrite_behind _ lo 7 (4 ∷ []) (omega arith),
        drop-overwrite_behind _ lo 6 (h.k ∷ []) (omega arith),
        drop-overwrite_behind _ lo 5 (h.bit_order ∷ []) (omega arith),
        drop-overwrite_behind _ lo 4 (1 ∷ []) (omega arith),
        drop-overwrite_behind region lo 0 magic_v1 (omega arith),
      )
      refl

pub encode_header-eq :
    (region : Bytes) (h : HeaderV1)
    → 32 ≤ length region
    → IsHeader h
    → encode_header region h ≡ (ok tt, write_header region h)
unfolding encode_header
encode_header-eq region h long p =
    rw
      (
        le→ltb (length region) 32 long,
        (==_iff h.bit_order 0).1 p.bit_order_lsb0,
        neq→== h.k 0 p.some_k,
        neq→== h.m_bits 0 p.some_bits,
      )
      refl

pub decode_header-write_header :
    (region : Bytes) (h : HeaderV1)
    → 32 ≤ length region
    → IsHeader h
    → decode_header (write_header region h) ≡ ok (some h)
decode_header-write_header region h long p =
    ap decode_header (write_header-eq region h long) ∙ decode-encoded h (drop 32 region) p

-- `DecodeHeaderV1` reads back what `EncodeHeaderV1` has written into a region that is long enough,
-- and the bytes behind the header and the length stay.
pub decode_header-encode_header :
    (region : Bytes) (h : HeaderV1)
    → 32 ≤ length region
    → IsHeader h
    → (region' : Bytes) × (encode_header region h ≡ (ok tt, region'))
      × (decode_header region' ≡ ok (some h))
      × (drop 32 region' ≡ drop 32 region)
      × (length region' ≡ length region)
decode_header-encode_header region h long p = (
  write_header region h,
  encode_header-eq region h long p,
  decode_header-write_header region h long p,
  drop-write_header region h 32 (omega arith),
  length-write_header region h,
)
