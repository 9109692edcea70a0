-- ===== src/Bloom/Header/Decoded.antt =====
-- What a header that was decoded is.
use go_merklelog.Base.{
  ℕ, ◌<◌, ◌≤◌, ◌≡◌, ◌≢◌, inl, inr, subst, false, Option, none, some, length, arith,
}
use go_merklelog.Base.{◌==◌, ==_iff, ltb, Bool-cases, ltb→le, bytes_equal}
use go_merklelog.Base.Results.{ok, err_not_ok, eq-ok_of_bind}
use go_merklelog.Base.Buffers.{
  Bytes, zeros, read_byte, read_bytes, AllBytes, read_bytes-AllBytes, uint32-lt,
}
use go_merklelog.Bloom.Sizing.{R, filters}
use go_merklelog.Bloom.Header.{
  HeaderV1, magic_v1, checked, decode_fields, decode_version, decode_header,
}
use go_merklelog.Bloom.Header.Roundtrip.{IsHeader}

empty : {h : HeaderV1} → ◌≡◌ {A = R (Option HeaderV1)} (ok none) (ok (some h)) → ⊥
empty h = cc

some_inj : {g h : HeaderV1} → ◌≡◌ {A = R (Option HeaderV1)} (ok (some g)) (ok (some h)) → g ≡ h
some_inj h = cc

differ : (a b : ℕ) → (a == b) ≡ false → a ≢ b
differ a b e = λ h. ground arith

checked-IsHeader :
    (count : ℕ) (g : HeaderV1) {h : HeaderV1}
    → g.m_bits < 0x1_0000_0000
    → g.n_inserted < 0x1_0000_0000
    → checked count g ≡ ok (some h)
    → IsHeader h
unfolding checked
checked-IsHeader count g hm hn e = elim (Bool-cases (count == filters)) [
  | inr c ↦ absurd (err_not_ok (rw c at e))
  | inl c ↦ elim (Bool-cases (g.bit_order == 0)) [
    | inr o ↦ absurd (err_not_ok (rw (c, o) at e))
    | inl o ↦ elim (Bool-cases (g.k == 0)) [
      | inl k ↦ absurd (err_not_ok (rw (c, o, k) at e))
      | inr k ↦ elim (Bool-cases (g.m_bits == 0)) [
        | inl m ↦ absurd (err_not_ok (rw (c, o, k, m) at e))
        | inr m ↦ subst IsHeader (some_inj (rw (c, o, k, m) at e)) (record {
          bit_order_lsb0 = (==_iff g.bit_order 0).0 o;
          some_k = differ g.k 0 k;
          some_bits = differ g.m_bits 0 m;
          m_bits_width = hm;
          n_inserted_width = hn;
        })
      ]
    ]
  ]
]

decode_fields-IsHeader :
    (region : Bytes) {h : HeaderV1}
    → AllBytes region
    → decode_fields region ≡ ok (some h)
    → IsHeader h
unfolding decode_fields
decode_fields-IsHeader region all e =
    let (bit_order, _, e) = eq-ok_of_bind (read_byte region 5) _ e in
    let (k, _, e) = eq-ok_of_bind (read_byte region 6) _ e in
    let (count, _, e) = eq-ok_of_bind (read_byte region 7) _ e in
    let (m_bits, at_m, e) = eq-ok_of_bind (read_bytes region 8 4) _ e in
    let (n_inserted, at_n, e) = eq-ok_of_bind (read_bytes region 12 4) _ e in
    checked-IsHeader count _ (uint32-lt m_bits (read_bytes-AllBytes region 8 4 all at_m))
      (uint32-lt n_inserted (read_bytes-AllBytes region 12 4 all at_n)) e

decode_version-IsHeader :
    (region : Bytes) {h : HeaderV1}
    → AllBytes region
    → decode_version region ≡ ok (some h)
    → IsHeader h
unfolding decode_version
decode_version-IsHeader region all e =
    let (version, _, e) = eq-ok_of_bind (read_byte region 4) _ e in
    elim (Bool-cases (version == 1)) [
      | inl v ↦ decode_fields-IsHeader region all (rw v at e)
      | inr v ↦ absurd (err_not_ok (rw v at e))
    ]

-- In a region of bytes, a header that `DecodeHeaderV1` returns is one that the encoder accepts, in
-- a region that has room for it.
pub decode_header-IsHeader :
    (region : Bytes) {h : HeaderV1}
    → AllBytes region
    → decode_header region ≡ ok (some h)
    → IsHeader h × (32 ≤ length region)
unfolding decode_header
decode_header-IsHeader region all e = elim (Bool-cases (ltb (length region) 32)) [
  | inl short ↦ absurd (err_not_ok (rw short at e))
  | inr long ↦
      let (magic, _, e) = eq-ok_of_bind (read_bytes region 0 4) _ (rw long at e) in
      let room : 32 ≤ length region = ltb→le (length region) 32 long in
      elim (Bool-cases (bytes_equal magic (zeros 4))) [
        | inl clear ↦ absurd (empty (rw clear at e))
        | inr used ↦ elim (Bool-cases (bytes_equal magic magic_v1)) [
          | inl known ↦ (decode_version-IsHeader region all (rw (used, known) at e), room)
          | inr other ↦ absurd (err_not_ok (rw (used, other) at e))
        ]
      ]
]
