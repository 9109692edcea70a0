-- ===== src/Bloom/Filter/Insertion.antt =====
-- What a successful insertion has read and what it leaves in the region.
use go_merklelog.Base.{
  ℕ, ◌+◌, ◌*◌, ◌%◌, ◌^◌, ◌<◌, ◌≤◌, ◌≡◌, ◌≢◌, inl, inr, refl, sym, ap, subst, ◌∙◌, some, length,
  arith,
}
use go_merklelog.Base.{Bool-cases, Option-cases, ltb, ltb→lt, ltb→le}
use go_merklelog.Base.Results.{
  ok, ok_inj, err_not_ok, panic_not_ok, out_of_fuel_not_ok, Result-cases, eq-ok_of_bind,
}
use go_merklelog.Base.Buffers.{
  Bytes, take, drop, overwrite, AllBytes, take-drop-overwrite, length-overwrite,
  take-drop-overwrite_before, drop-overwrite_behind,
}
use go_merklelog.Bloom.Header.{HeaderV1, decode_header, write_header}
use go_merklelog.Bloom.Header.Roundtrip.{IsHeader, encode_header-eq, drop-write_header}
use go_merklelog.Bloom.Header.Decoded.{decode_header-IsHeader}
use go_merklelog.Bloom.Filter.{
  Bitset, bitset_of, check_arguments, initialized, set_bits, hash_pair, insert_bits, insert_v1,
}
use go_merklelog.Bloom.Filter.Places.{apart}

abbrev pub counted : HeaderV1 → HeaderV1
counted h = record h { n_inserted = (h.n_inserted + 1) % 2 ^ 32 }

pub counted-IsHeader : {h : HeaderV1} → IsHeader h → IsHeader (counted h)
counted-IsHeader p = record {
  bit_order_lsb0 = p.bit_order_lsb0;
  some_k = p.some_k;
  some_bits = p.some_bits;
  m_bits_width = p.m_bits_width;
  n_inserted_width = omega arith;
}

module _ (sha256 : Bytes → Bytes) where
  -- What a successful insertion has read, and the region with the bits.
  pub record InsertedBits (region : Bytes) (f : ℕ) (elem : Bytes) (h : HeaderV1) (mid : Bytes)
      : Type 0 where
    pub arguments : check_arguments f elem ≡ ok tt
    pub header : decode_header region ≡ ok (some h)
    pub bitset : Bitset
    pub found : bitset_of region f h ≡ ok bitset
    pub bytes : Bytes
    pub bits :
        set_bits h.k 0 h.m_bits (hash_pair sha256 f elem).0 (hash_pair sha256 f elem).1 bitset.bytes
        ≡ ok bytes
    pub written : mid ≡ overwrite region bitset.off bytes

  pub initialized-decode :
      (region : Bytes) {h : HeaderV1}
      → initialized region ≡ ok h
      → decode_header region ≡ ok (some h)
  unfolding initialized
  initialized-decode region e =
      let (o, read, e) = eq-ok_of_bind (decode_header region) _ e in
      elim (Option-cases o) [
        | inl nothing ↦ absurd (err_not_ok (rw nothing at e))
        | inr (g, known) ↦
            read ∙ ap ok known ∙ ap (λ (x : HeaderV1). ok (some x)) (ok_inj (rw known at e))
      ]

  insert_bits-parts :
      (region : Bytes) (f : ℕ) (elem : Bytes) {h : HeaderV1} {mid : Bytes}
      → insert_bits sha256 region f elem ≡ ok (h, mid)
      → InsertedBits region f elem h mid
  unfolding insert_bits
  insert_bits-parts region f elem e =
      let (_, arguments, e) = eq-ok_of_bind (check_arguments f elem) _ e in
      let (h, header, e) = eq-ok_of_bind (initialized region) _ e in
      let (bitset, found, e) = eq-ok_of_bind (bitset_of region f h) _ e in
      let (bytes, bits, e) = eq-ok_of_bind (set_bits h.k 0 h.m_bits _ _ bitset.bytes) _ e in
      subst (λ (p : HeaderV1 × Bytes). InsertedBits region f elem p.0 p.1) (ok_inj e)
        (record {
          arguments = arguments;
          header = initialized-decode region header;
          bitset = bitset;
          found = found;
          bytes = bytes;
          bits = bits;
          written = refl;
        })

  pub insert_v1-parts :
      (region : Bytes) (f : ℕ) (elem : Bytes) {region' : Bytes}
      → AllBytes region
      → insert_v1 sha256 region f elem ≡ (ok tt, region')
      → (h : HeaderV1) × (mid : Bytes) × InsertedBits region f elem h mid
        × IsHeader h
        × (32 ≤ length region)
        × (region' ≡ write_header mid (counted h))
  unfolding insert_v1
  insert_v1-parts region f elem all e = elim (Result-cases (insert_bits sha256 region f elem)) [
    | inl ((h, mid), made) ↦
        let parts = insert_bits-parts region f elem made in
        let (header, room) = decode_header-IsHeader region all parts.header in
        let long : 32 ≤ length mid = omega (
          arith,
          room,
          ap length parts.written,
          length-overwrite region parts.bitset.off parts.bytes,
        ) in
        (
          h,
          mid,
          parts,
          header,
          room,
          ap (λ p. p.1)
              (sym (rw made at e)
                ∙ encode_header-eq mid (counted h) long (counted-IsHeader header)),
        )
    | inr (inl (m, refused)) ↦ absurd (err_not_ok (ap (λ p. p.0) (rw refused at e)))
    | inr (inr (inl stopped)) ↦ absurd (panic_not_ok (ap (λ p. p.0) (rw stopped at e)))
    | inr (inr (inr fuel)) ↦ absurd (out_of_fuel_not_ok (ap (λ p. p.0) (rw fuel at e)))
  ]

module _ (region : Bytes) (f n off : ℕ) (bytes : Bytes) (h : HeaderV1) (sized : length bytes ≡ n)
    (place : off ≡ 32 + f * n) (room : off + n ≤ length region) where
  -- The bitset of the filter is what was written, and the others stay.
  pub own_bytes : take n (drop off (write_header (overwrite region off bytes) h)) ≡ bytes
  own_bytes =
      rw (drop-write_header (overwrite region off bytes) h off (omega arith), ← sized)
        (take-drop-overwrite region off bytes (omega arith))

  pub other_bytes :
      (g : ℕ)
      → g ≢ f
      → take n (drop (32 + g * n) (write_header (overwrite region off bytes) h))
        ≡ take n (drop (32 + g * n) region)
  other_bytes g differ =
      rw (drop-write_header (overwrite region off bytes) h (32 + g * n) (omega arith))
        (elim (Bool-cases (ltb g f)) [
          | inl below ↦
              take-drop-overwrite_before region (32 + g * n) n off bytes
                (omega (arith, apart f g n (ltb→lt g f below)))
          | inr above ↦ ap (take n) (
              drop-overwrite_behind region (32 + g * n) off bytes
                (omega (arith, apart g f n (different f g (ltb→le g f above) differ))))
        ])
    where
      different : (a b : ℕ) → a ≤ b → b ≢ a → a < b
      different a b h k = ground arith
