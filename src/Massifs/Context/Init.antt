-- ===== src/Massifs/Context/Init.antt =====
-- `initIndexV2` (massifs/indexinit_v2.go) on a new context: the index is initialised, and nothing else
-- changes.
use go_merklelog.Base.{ℕ, ◌+◌, ◌*◌, ◌/◌, ◌%◌, ◌^◌, ◌≤◌, ◌<◌, ◌≡◌, ◌≢◌, refl, ◌∙◌, length, arith}
use go_merklelog.Base.{word, ltb, ◌==◌, true, false, le→ltb, neq→==, ==_iff, add64, mul64}
use native.Mathlib.Nat.{mul-div_cancel}
use go_merklelog.Base.Buffers.{
  Bytes, zeros, take, drop, overwrite, length-overwrite, length-take-drop,
}
use go_merklelog.Base.Results.{ok}
use go_merklelog.Bloom.Sizing.{check_bpe, m_bits_v1, m_bits_safe_cast, region_bytes, bitset_bytes}
use go_merklelog.Bloom.Header.{HeaderV1, encode_header, write_header}
use go_merklelog.Bloom.Filter.{init_v1, init_m_bits}
use go_merklelog.Urkle.Sizing.{leaf_count_for_massif_height}
use go_merklelog.Massifs.Context.{MassifContext}
use go_merklelog.Massifs.Context.Append.{init_bloom, init_region, init_index_v2}
use go_merklelog.Massifs.Context.Regions.{m_bits_lem, region_lem}

-- The size of the index is worked out as in `InitV1`.
init_m_bits_lem :
    (n : ℕ) → 0 < n → n ≤ 2 ^ 28 → init_m_bits n 10 (region_bytes (10 * n)) ≡ ok (10 * n)
unfolding init_m_bits check_bpe m_bits_v1 m_bits_safe_cast mul64 region_bytes
init_m_bits_lem n some_leaf few =
    let exact : 10 * n % word ≡ 10 * n = omega arith in
    let tenth : 10 * n / n ≡ 10 = mul-div_cancel 10 some_leaf in rw (exact, tenth) (ground arith)

length-write_header :
    (region : Bytes) (h : HeaderV1) → length (write_header region h) ≡ length region
unfolding write_header
length-write_header region h = simp length-overwrite refl

-- `InitV1` on a region of the size for `n` leaves succeeds and keeps the region's size.
init_v1_lem :
    (n : ℕ) (region : Bytes)
    → 0 < n
    → n ≤ 2 ^ 28
    → length region ≡ region_bytes (10 * n)
    → (region' : Bytes) × (init_v1 region n 10 7 ≡ (ok tt, region'))
      × (length region' ≡ length region)
unfolding init_v1 encode_header
init_v1_lem n region some_leaf few size =
    let cleared = overwrite region 0 (zeros (32 + 4 * bitset_bytes (10 * n))) in
    let header : HeaderV1 = record { bit_order = 0; k = 7; m_bits = 10 * n; n_inserted = 0 } in
    let room : ltb (length cleared) 32 ≡ false = le→ltb (length cleared) 32 (
      omega (
        arith,
        length-overwrite region 0 (zeros (32 + 4 * bitset_bytes (10 * n))),
        size,
        region_lem n some_leaf few,
      )) in
    let some_bits : (10 * n == 0) ≡ false = neq→== (10 * n) 0 (λ e. absurd (omega arith)) in
    (
      write_header cleared header,
      rw (size, init_m_bits_lem n some_leaf few, room, some_bits) refl,
      length-write_header cleared header
          ∙ length-overwrite region 0 (zeros (32 + 4 * bitset_bytes (10 * n))),
    )

-- `initIndexV2` on a new context of version 2 succeeds, and keeps all but the bytes of the index.
pub init_index_v2_lem :
    (mc : MassifContext) (n : ℕ)
    → mc.start.version ≡ 2
    → mc.start.massif_height ≢ 0
    → leaf_count_for_massif_height mc.start.massif_height ≡ n
    → 0 < n
    → n ≤ 2 ^ 28
    → 256 + region_bytes (10 * n) ≤ length mc.data_bytes
    → (b : Bytes) × (init_index_v2 mc
        ≡ (ok tt, record mc { data_bytes = overwrite mc.data_bytes 256 b }))
unfolding init_index_v2 init_region init_bloom add64
init_index_v2_lem mc n version some_height counted some_leaf few there =
    let is_current : (mc.start.version == 2) ≡ true = (==_iff mc.start.version 2).1 version in
    let is_some_height : (mc.start.massif_height == 0) ≡ false =
      neq→== mc.start.massif_height 0 some_height in
    let size = region_bytes (10 * n) in
    let exact : (256 + size) % word ≡ 256 + size = omega (arith, region_lem n some_leaf few) in
    let room = le→ltb (length mc.data_bytes) (256 + size) there in
    let new =
      init_v1_lem n (take size (drop 256 mc.data_bytes)) some_leaf few
        (length-take-drop mc.data_bytes 256 size there) in
    (
      new.0,
      simp (is_current, is_some_height, counted, m_bits_lem n some_leaf few, exact, room, new.1)
          refl,
    )
