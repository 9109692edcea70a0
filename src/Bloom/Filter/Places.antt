-- ===== src/Bloom/Filter/Places.antt =====
-- Where the bitsets lie in a region, and what is read there after an insertion.
use go_merklelog.Base.{
  ℕ, zero, suc, ◌+◌, ◌*◌, ◌^◌, ◌<◌, ◌≤◌, ◌≡◌, inl, inr, refl, ap, subst, length, arith,
}
use go_merklelog.Base.{ltb, Bool-cases, le→leb, ltb→le, le→ltb}
use native.Mathlib.Nat.{mul-le-mul_right}
use go_merklelog.Base.Results.{ok, ok_inj, err_not_ok, eq-ok_of_bind}
use go_merklelog.Base.Buffers.{Bytes, take, drop, read_bytes}
use go_merklelog.Bloom.Sizing.{bitset_bytes, filter_bitset_off}
use go_merklelog.Bloom.Header.{HeaderV1}
use go_merklelog.Bloom.Filter.{Bitset, bitset_of}

-- The offset does not wrap.
filter_bitset_off-eq :
    (g n : ℕ) {off : ℕ} → n ≤ 2 ^ 29 → filter_bitset_off g n ≡ ok off → (g < 4) × (off ≡ 32 + g * n)
unfolding filter_bitset_off
filter_bitset_off-eq zero n small e = (omega arith, omega (arith, ok_inj e))
filter_bitset_off-eq (suc zero) n small e = (omega arith, omega (arith, ok_inj e))
filter_bitset_off-eq (suc (suc zero)) n small e = (omega arith, omega (arith, ok_inj e))
filter_bitset_off-eq (suc (suc (suc zero))) n small e = (omega arith, omega (arith, ok_inj e))
filter_bitset_off-eq (suc (suc (suc (suc g)))) n small e =
    absurd (err_not_ok (rw (le→leb 4 (suc (suc (suc (suc g)))) (omega arith)) at e))

filter_bitset_off-of : (g n : ℕ) → g < 4 → n ≤ 2 ^ 29 → filter_bitset_off g n ≡ ok (32 + g * n)
unfolding filter_bitset_off
filter_bitset_off-of zero n few small = ap ok (omega arith)
filter_bitset_off-of (suc zero) n few small = ap ok (omega arith)
filter_bitset_off-of (suc (suc zero)) n few small = ap ok (omega arith)
filter_bitset_off-of (suc (suc (suc zero))) n few small = ap ok (omega arith)
filter_bitset_off-of (suc (suc (suc (suc g)))) n few small = absurd (omega arith)

-- Two filters do not overlap.
pub apart : (f g n : ℕ) → g < f → g * n + n ≤ f * n
apart f g n h = grind (arith, mul-le-mul_right n h)

pub bitset_bytes-le : (m_bits : ℕ) → bitset_bytes m_bits ≤ 2 ^ 29
unfolding bitset_bytes
bitset_bytes-le m_bits = omega arith

-- What a bitset that was found is.
pub record Located (region : Bytes) (g n : ℕ) (bitset : Bitset) : Type 0 where
  pub is_filter : g < 4
  pub place : bitset.off ≡ 32 + g * n
  pub room : bitset.off + n ≤ length region
  pub read : bitset.bytes ≡ take n (drop bitset.off region)

pub bitset_of-Located :
    (region : Bytes) (g : ℕ) (h : HeaderV1) {bitset : Bitset}
    → bitset_of region g h ≡ ok bitset
    → Located region g (bitset_bytes h.m_bits) bitset
unfolding bitset_of read_bytes
bitset_of-Located region g h e =
    let n = bitset_bytes h.m_bits in
    let (off, at, rest) = eq-ok_of_bind (filter_bitset_off g n) _ e in
    let (few, place) = filter_bitset_off-eq g n (bitset_bytes-le h.m_bits) at in
    elim (Bool-cases (ltb (length region) (off + n))) [
      | inl short ↦ absurd (err_not_ok (rw short at rest))
      | inr fits ↦
          let room : off + n ≤ length region = ltb→le (length region) (off + n) fits in
          let same = ok_inj (rw (fits, le→leb (off + n) (length region) room) at rest) in
          subst (Located region g n) same
            (record { is_filter = few; place = place; room = room; read = refl })
    ]

pub bitset_of-eq :
    (region : Bytes) (g : ℕ) (h : HeaderV1)
    → g < 4
    → 32 + g * bitset_bytes h.m_bits + bitset_bytes h.m_bits ≤ length region
    → bitset_of region g h
      ≡ ok (record {
        off = 32 + g * bitset_bytes h.m_bits;
        bytes = take (bitset_bytes h.m_bits) (drop (32 + g * bitset_bytes h.m_bits) region);
      })
unfolding bitset_of read_bytes
bitset_of-eq region g h few room =
    let n = bitset_bytes h.m_bits in
    rw
      (
        filter_bitset_off-of g n few (bitset_bytes-le h.m_bits),
        le→ltb (length region) (32 + g * n + n) room,
        le→leb (32 + g * n + n) (length region) room,
      )
      refl
