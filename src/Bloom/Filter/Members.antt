-- ===== src/Bloom/Filter/Members.antt =====
-- No false negatives: what is inserted is found, and stays found.
use go_merklelog.Base.{
  ℕ, ◌+◌, ◌*◌, ◌<◌, ◌≤◌, ◌≡◌, ◌≢◌, inl, inr, refl, sym, ap, subst, ◌∙◌, Bool, true, false, Option,
  some, length, arith,
}
use go_merklelog.Base.{◌==◌, ==_iff, Bool-cases}
use go_merklelog.Base.Results.{ok, ◌>>=◌, eq-ok_of_bind}
use go_merklelog.Base.Buffers.{Bytes, take, drop, AllBytes, length-overwrite, length-take-drop}
use go_merklelog.Bloom.Sizing.{R, bitset_bytes}
use go_merklelog.Bloom.Header.{HeaderV1, decode_header, write_header}
use go_merklelog.Bloom.Header.Roundtrip.{IsHeader, decode_header-write_header, length-write_header}
use go_merklelog.Bloom.Filter.{
  Bitset, bitset_of, check_arguments, initialized, hash_pair, insert_v1, maybe_contains_v1,
}
use go_merklelog.Bloom.Filter.Bits.{
  HasBit, AllProbes, set_bits-HasBit_kept, set_bits-AllProbes, length-set_bits,
  test_bits-of_AllProbes, AllProbes-of_test_bits, AllProbes-kept,
}
use go_merklelog.Bloom.Filter.Places.{Located, bitset_of-Located, bitset_of-eq}
use go_merklelog.Bloom.Filter.Insertion.{
  counted, counted-IsHeader, InsertedBits, initialized-decode, insert_v1-parts, own_bytes,
  other_bytes,
}

same_header : {g h : HeaderV1} → ◌≡◌ {A = R (Option HeaderV1)} (ok (some g)) (ok (some h)) → g ≡ h
same_header h = cc

differ : {t : Bool} → t ≡ true → t ≡ false → ⊥
differ p q = cc

pub initialized-of_decode :
    (region : Bytes) {h : HeaderV1} → decode_header region ≡ ok (some h) → initialized region ≡ ok h
unfolding initialized
initialized-of_decode region e = rw e refl

module _ (sha256 : Bytes → Bytes) where
  -- Every bit of the element's probes is set in the filter.
  record Contains (region : Bytes) (g : ℕ) (x : Bytes) (h : HeaderV1) : Type 0 where
    arguments : check_arguments g x ≡ ok tt
    header : decode_header region ≡ ok (some h)
    bitset : Bitset
    found : bitset_of region g h ≡ ok bitset
    all : AllProbes h.m_bits (hash_pair sha256 g x).0 (hash_pair sha256 g x).1 h.k 0 bitset.bytes

  Contains-of :
      (region : Bytes) (g : ℕ) (x : Bytes)
      → maybe_contains_v1 sha256 region g x ≡ ok true
      → (h : HeaderV1) × Contains region g x h
  unfolding maybe_contains_v1
  Contains-of region g x e =
      let (_, arguments, e) = eq-ok_of_bind (check_arguments g x) _ e in
      let (h, header, e) = eq-ok_of_bind (initialized region) _ e in
      let (bitset, found, e) = eq-ok_of_bind (bitset_of region g h) _ e in
      (
        h,
        record {
          arguments = arguments;
          header = initialized-decode sha256 region header;
          bitset = bitset;
          found = found;
          all = AllProbes-of_test_bits h.m_bits _ _ h.k 0 bitset.bytes e;
        },
      )

  maybe_contains_v1-of_Contains :
      (region : Bytes) (g : ℕ) (x : Bytes) (h : HeaderV1)
      → Contains region g x h
      → maybe_contains_v1 sha256 region g x ≡ ok true
  unfolding maybe_contains_v1
  maybe_contains_v1-of_Contains region g x h c =
      rw (c.arguments, initialized-of_decode region c.header, ◌>>=◌)
        (rw (c.found, ◌>>=◌) (test_bits-of_AllProbes h.m_bits _ _ h.k 0 c.bitset.bytes c.all))

  module _ (region : Bytes) (f : ℕ) (elem : Bytes) (h : HeaderV1) (mid : Bytes)
      (parts : InsertedBits sha256 region f elem h mid) (header : IsHeader h)
      (long : 32 ≤ length region) where
    abbrev size : ℕ
    size = bitset_bytes h.m_bits

    abbrev after : Bytes
    after = write_header mid (counted h)

    located : Located region f size parts.bitset
    located = bitset_of-Located region f h parts.found

    length-mid : length mid ≡ length region
    length-mid = ap length parts.written ∙ length-overwrite region parts.bitset.off parts.bytes

    length-bytes : length parts.bytes ≡ size
    length-bytes =
        length-set_bits h.m_bits _ _ h.k 0 parts.bitset.bytes parts.bits
        ∙ ap length located.read
        ∙ length-take-drop region parts.bitset.off size located.room

    -- What the filters hold after the insertion.
    own_after : take size (drop (32 + f * size) after) ≡ parts.bytes
    own_after =
        rw (parts.written, ← located.place)
          (own_bytes region f size parts.bitset.off parts.bytes (counted h) length-bytes
            located.place located.room)

    other_after :
        (g : ℕ)
        → g ≢ f
        → take size (drop (32 + g * size) after) ≡ take size (drop (32 + g * size) region)
    other_after g differ = rw parts.written (
        other_bytes region f size parts.bitset.off parts.bytes (counted h) length-bytes
          located.place located.room g differ)

    -- The test after the insertion is one of the probes' bits in what the filter holds.
    contained :
        (g : ℕ) (x : Bytes)
        → check_arguments g x ≡ ok tt
        → g < 4
        → 32 + g * size + size ≤ length region
        → AllProbes h.m_bits
            (hash_pair sha256 g x).0
            (hash_pair sha256 g x).1
            h.k
            0
            (take size (drop (32 + g * size) after))
        → maybe_contains_v1 sha256 after g x ≡ ok true
    contained g x arguments few room bits =
        maybe_contains_v1-of_Contains after g x (counted h) (record {
          arguments = arguments;
          header =
              decode_header-write_header mid (counted h) (omega (arith, length-mid))
                (counted-IsHeader header);
          bitset = record { off = 32 + g * size; bytes = take size (drop (32 + g * size) after) };
          found =
              bitset_of-eq after g (counted h) few
                (omega (arith, length-write_header mid (counted h), length-mid));
          all = bits;
        })

    inserted_contained : maybe_contains_v1 sha256 after f elem ≡ ok true
    inserted_contained =
        contained f elem parts.arguments located.is_filter
          (omega (arith, located.place, located.room))
          (subst (AllProbes h.m_bits _ _ h.k 0) (sym own_after)
            (set_bits-AllProbes h.m_bits _ _ h.k 0 parts.bitset.bytes parts.bits))

    kept_contained :
        (g : ℕ) (x : Bytes) → Contains region g x h → maybe_contains_v1 sha256 after g x ≡ ok true
    kept_contained g x c =
        let at = bitset_of-Located region g h c.found in
        let held : c.bitset.bytes ≡ take size (drop (32 + g * size) region) =
          at.read ∙ ap (λ o. take size (drop o region)) at.place in
        contained g x c.arguments at.is_filter (omega (arith, at.place, at.room))
          (elim (Bool-cases (g == f)) [
            | inl own ↦
                let here : g ≡ f = (==_iff g f).0 own in
                let same : c.bitset.bytes ≡ parts.bitset.bytes =
                  held
                  ∙ ap (λ k. take size (drop (32 + k * size) region)) here
                  ∙ ap (λ o. take size (drop o region)) (sym located.place)
                  ∙ sym located.read in
                let grown = λ (j : ℕ) (bit : HasBit c.bitset.bytes j).
                  set_bits-HasBit_kept h.m_bits _ _ h.k 0 parts.bitset.bytes j parts.bits
                    (subst (λ b. HasBit b j) same bit) in
                subst (AllProbes h.m_bits _ _ h.k 0)
                  (sym (ap (λ k. take size (drop (32 + k * size) after)) here ∙ own_after))
                  (AllProbes-kept h.m_bits _ _ h.k 0 c.bitset.bytes parts.bytes grown c.all)
            | inr other ↦
                subst (AllProbes h.m_bits _ _ h.k 0)
                  (held ∙ sym (other_after g (λ e. differ ((==_iff g f).1 e) other))) c.all
          ])

  -- An element that `InsertV1` has inserted into a region of bytes is one that `MaybeContainsV1`
  -- finds.
  pub maybe_contains_v1-insert_v1 :
      (region : Bytes) (f : ℕ) (elem : Bytes) {region' : Bytes}
      → AllBytes region
      → insert_v1 sha256 region f elem ≡ (ok tt, region')
      → maybe_contains_v1 sha256 region' f elem ≡ ok true
  maybe_contains_v1-insert_v1 region f elem all e =
      let (h, mid, parts, header, long, written) = insert_v1-parts sha256 region f elem all e in
      rw written (inserted_contained region f elem h mid parts header long)

  -- An element that `MaybeContainsV1` finds in a region of bytes is found after every insertion,
  -- into its own or another filter.
  pub maybe_contains_v1-insert_v1_kept :
      (region : Bytes) (g : ℕ) (x : Bytes) (f : ℕ) (elem : Bytes) {region' : Bytes}
      → AllBytes region
      → maybe_contains_v1 sha256 region g x ≡ ok true
      → insert_v1 sha256 region f elem ≡ (ok tt, region')
      → maybe_contains_v1 sha256 region' g x ≡ ok true
  maybe_contains_v1-insert_v1_kept region g x f elem all there e =
      let (h, mid, parts, header, long, written) = insert_v1-parts sha256 region f elem all e in
      let (h', c) = Contains-of region g x there in
      rw written (
        kept_contained region f elem h mid parts header long g x
          (subst (Contains region g x) (same_header (sym c.header ∙ parts.header)) c))
