-- ===== src/Bloom/Filter/Bits.antt =====
-- The bits of a bitset: what setting and testing them does.
use Prim.Native.Nat.{bit_and, bit_or}
use go_merklelog.Base.{
  ℕ, zero, suc, ◌+◌, ◌*◌, ◌/◌, ◌%◌, ◌^◌, ◌<◌, ◌≡◌, ◌≢◌, ◌⊎◌, inl, inr, refl, sym, ap, subst, ◌∙◌,
  Bool, true, false, [], ◌∷◌, length, arith,
}
use go_merklelog.Base.{◌==◌, ==_iff, neq→==, Bool-cases}
use go_merklelog.Base.Pow.{pow_pos}
use go_merklelog.Base.Bits.Digits.{digit, digit-bit_or, digit-pow, bit_and-pow}
use go_merklelog.Base.Results.{ok, ◌>>=◌, ok_inj, eq-ok_of_bind}
use go_merklelog.Base.Buffers.{Bytes, read_byte}
use go_merklelog.Bloom.Sizing.{R}
use go_merklelog.Bloom.Filter.{probe, or_byte, set_bits, test_bits}

-- bit `j` of the bitset is there and is set
pub record HasBit (b : Bytes) (j : ℕ) : Type 0 where
  pub byte : ℕ
  pub at : ◌≡◌ {A = R ℕ} (read_byte b (j / 8)) (ok byte)
  pub is_set : digit byte (j % 8) ≡ 1

digit-lt : (x k : ℕ) → digit x k < 2
digit-lt x zero = omega arith
digit-lt x (suc k) = digit-lt (x / 2) k

different : {t : Bool} → t ≡ true → t ≡ false → ⊥
different p q = cc

not_false : ◌≡◌ {A = R Bool} (ok false) (ok true) → ⊥
not_false h = cc

digit-cases : (x k : ℕ) → (digit x k ≡ 0) ⊎ (digit x k ≡ 1)
digit-cases x zero = elim (Bool-cases (x % 2 == 0)) [
  | inl even ↦ inl ((==_iff (x % 2) 0).0 even)
  | inr odd ↦ inr (ground arith)
]
digit-cases x (suc k) = digit-cases (x / 2) k

-- A byte that the mask of bit `k` does not clear has that bit.
digit_of_masked : (x k : ℕ) → (bit_and x (2 ^ k) == 0) ≡ false → digit x k ≡ 1
digit_of_masked x k e = elim (digit-cases x k) [
  | inl clear ↦
      let masked : bit_and x (2 ^ k) ≡ 0 =
        bit_and-pow x k ∙ ap (λ d. d * 2 ^ k) clear ∙ omega arith in
      absurd (different ((==_iff (bit_and x (2 ^ k)) 0).1 masked) e)
  | inr set ↦ set
]

-- The byte that is written has the bits of the mask besides its own, and the others stay.
or_byte-at :
    (b : Bytes) (i mask : ℕ) {b' : Bytes}
    → or_byte b i mask ≡ ok b'
    → (x : ℕ) × (◌≡◌ {A = R ℕ} (read_byte b i) (ok x))
      × (◌≡◌ {A = R ℕ} (read_byte b' i) (ok (bit_or x mask)))
or_byte-at [] i mask e = absurd cc
or_byte-at (x ∷ b) zero mask e = (x, refl, ap (λ c. read_byte c 0) (sym (ok_inj e)))
or_byte-at (x ∷ b) (suc i) mask e =
    let (rest, made, same) = eq-ok_of_bind (or_byte b i mask) (λ c. ok (x ∷ c)) e in
    let (y, old, new) = or_byte-at b i mask made in
    (y, old, ap (λ c. read_byte c (suc i)) (sym (ok_inj same)) ∙ new)

or_byte-elsewhere :
    (b : Bytes) (i j mask : ℕ) {b' : Bytes}
    → i ≢ j
    → or_byte b i mask ≡ ok b'
    → ◌≡◌ {A = R ℕ} (read_byte b' j) (read_byte b j)
or_byte-elsewhere [] i j mask differ e = absurd cc
or_byte-elsewhere (x ∷ b) zero zero mask differ e = absurd (differ refl)
or_byte-elsewhere (x ∷ b) zero (suc j) mask differ e =
    ap (λ c. read_byte c (suc j)) (sym (ok_inj e))
or_byte-elsewhere (x ∷ b) (suc i) zero mask differ e =
    let (rest, made, same) = eq-ok_of_bind (or_byte b i mask) (λ c. ok (x ∷ c)) e in
    ap (λ c. read_byte c 0) (sym (ok_inj same))
or_byte-elsewhere (x ∷ b) (suc i) (suc j) mask differ e =
    let (rest, made, same) = eq-ok_of_bind (or_byte b i mask) (λ c. ok (x ∷ c)) e in
    ap (λ c. read_byte c (suc j)) (sym (ok_inj same))
    ∙ or_byte-elsewhere b i j mask (λ h. differ (ap suc h)) made

pub length-or_byte :
    (b : Bytes) (i mask : ℕ) {b' : Bytes} → or_byte b i mask ≡ ok b' → length b' ≡ length b
length-or_byte [] i mask e = absurd cc
length-or_byte (x ∷ b) zero mask e = ap length (sym (ok_inj e))
length-or_byte (x ∷ b) (suc i) mask e =
    let (rest, made, same) = eq-ok_of_bind (or_byte b i mask) (λ c. ok (x ∷ c)) e in
    ap length (sym (ok_inj same)) ∙ ap suc (length-or_byte b i mask made)

-- A bit that is set stays, and the bit that is set is there.
or_byte-HasBit_kept :
    (b : Bytes) (i j mask : ℕ) {b' : Bytes} → or_byte b i mask ≡ ok b' → HasBit b j → HasBit b' j
or_byte-HasBit_kept b i j mask e bit = elim (Bool-cases (i == j / 8)) [
  | inl same ↦
      let (x, old, new) = or_byte-at b i mask e in
      let here : i ≡ j / 8 = (==_iff i (j / 8)).0 same in
      let its : x ≡ bit.byte = ok_inj (sym old ∙ ap (read_byte b) here ∙ bit.at) in
      record {
        byte = bit_or bit.byte mask;
        at = ap (read_byte _) (sym here) ∙ new ∙ ap (λ y. ok (bit_or y mask)) its;
        is_set =
            omega (arith, digit-bit_or bit.byte mask (j % 8), bit.is_set, digit-lt mask (j % 8));
      }
  | inr other ↦
      let differ : i ≢ j / 8 = λ h. absurd (different ((==_iff i (j / 8)).1 h) other) in
      record {
        byte = bit.byte;
        at = or_byte-elsewhere b i (j / 8) mask differ e ∙ bit.at;
        is_set = bit.is_set;
      }
]

or_byte-HasBit :
    (b : Bytes) (j : ℕ) {b' : Bytes} → or_byte b (j / 8) (2 ^ (j % 8)) ≡ ok b' → HasBit b' j
or_byte-HasBit b j e =
    let (x, _, new) = or_byte-at b (j / 8) (2 ^ (j % 8)) e in
    record {
      byte = bit_or x (2 ^ (j % 8));
      at = new;
      is_set =
          omega
            (arith, digit-bit_or x (2 ^ (j % 8)) (j % 8), digit-pow (j % 8), digit-lt x (j % 8));
    }

module _ (m_bits h1 h2 : ℕ) where
  -- The bits of the `n` probes from `i` on are set.
  abbrev pub AllProbes : ℕ → ℕ → Bytes → Type 0
  AllProbes zero i b = Unit {0}
  AllProbes (suc n) i b = HasBit b (probe m_bits h1 h2 i) × AllProbes n (i + 1) b

  pub set_bits-HasBit_kept :
      (n i : ℕ) (b : Bytes) {b' : Bytes} (j : ℕ)
      → set_bits n i m_bits h1 h2 b ≡ ok b'
      → HasBit b j
      → HasBit b' j
  unfolding set_bits
  set_bits-HasBit_kept zero i b {b'} j e bit = subst (λ c. HasBit c j) (ok_inj e) bit
  set_bits-HasBit_kept (suc n) i b j' e bit =
      let j = probe m_bits h1 h2 i in
      let (next, made, rest) =
        eq-ok_of_bind (or_byte b (j / 8) (2 ^ (j % 8))) (λ c. set_bits n (i + 1) m_bits h1 h2 c)
          e in
      set_bits-HasBit_kept n (i + 1) next j' rest
        (or_byte-HasBit_kept b (j / 8) j' (2 ^ (j % 8)) made bit)

  pub set_bits-AllProbes :
      (n i : ℕ) (b : Bytes) {b' : Bytes} → set_bits n i m_bits h1 h2 b ≡ ok b' → AllProbes n i b'
  unfolding set_bits
  set_bits-AllProbes zero i b e = tt
  set_bits-AllProbes (suc n) i b e =
      let j = probe m_bits h1 h2 i in
      let (next, made, rest) =
        eq-ok_of_bind (or_byte b (j / 8) (2 ^ (j % 8))) (λ c. set_bits n (i + 1) m_bits h1 h2 c)
          e in
      (
        set_bits-HasBit_kept n (i + 1) next j rest (or_byte-HasBit b j made),
        set_bits-AllProbes n (i + 1) next rest,
      )

  pub length-set_bits :
      (n i : ℕ) (b : Bytes) {b' : Bytes}
      → set_bits n i m_bits h1 h2 b ≡ ok b'
      → length b' ≡ length b
  unfolding set_bits
  length-set_bits zero i b e = ap length (sym (ok_inj e))
  length-set_bits (suc n) i b e =
      let j = probe m_bits h1 h2 i in
      let (next, made, rest) =
        eq-ok_of_bind (or_byte b (j / 8) (2 ^ (j % 8))) (λ c. set_bits n (i + 1) m_bits h1 h2 c)
          e in
      length-set_bits n (i + 1) next rest ∙ length-or_byte b (j / 8) (2 ^ (j % 8)) made

  -- The test passes exactly if every probe's bit is set.
  pub test_bits-of_AllProbes :
      (n i : ℕ) (b : Bytes) → AllProbes n i b → test_bits n i m_bits h1 h2 b ≡ ok true
  unfolding test_bits
  test_bits-of_AllProbes zero i b all = refl
  test_bits-of_AllProbes (suc n) i b (bit, rest) =
      let j = probe m_bits h1 h2 i in
      let masked : bit_and bit.byte (2 ^ (j % 8)) ≡ 2 ^ (j % 8) =
        bit_and-pow bit.byte (j % 8) ∙ ap (λ d. d * 2 ^ (j % 8)) bit.is_set ∙ omega arith in
      let some_bit : (bit_and bit.byte (2 ^ (j % 8)) == 0) ≡ false =
        neq→== (bit_and bit.byte (2 ^ (j % 8))) 0
          (λ h. omega (arith, h, masked, pow_pos (j % 8))) in
      rw (bit.at, ◌>>=◌) (rw some_bit (test_bits-of_AllProbes n (i + 1) b rest))

  pub AllProbes-of_test_bits :
      (n i : ℕ) (b : Bytes) → test_bits n i m_bits h1 h2 b ≡ ok true → AllProbes n i b
  unfolding test_bits
  AllProbes-of_test_bits zero i b e = tt
  AllProbes-of_test_bits (suc n) i b e =
      let j = probe m_bits h1 h2 i in
      let (x, read, rest) = eq-ok_of_bind (read_byte b (j / 8)) _ e in
      elim (Bool-cases (bit_and x (2 ^ (j % 8)) == 0)) [
        | inl clear ↦ absurd (not_false (rw clear at rest))
        | inr some_bit ↦ (
          record { byte = x; at = read; is_set = digit_of_masked x (j % 8) some_bit },
          AllProbes-of_test_bits n (i + 1) b (rw some_bit at rest),
        )
      ]

  pub AllProbes-kept :
      (n i : ℕ) (b b' : Bytes)
      → ((j : ℕ) → HasBit b j → HasBit b' j)
      → AllProbes n i b
      → AllProbes n i b'
  AllProbes-kept zero i b b' kept all = tt
  AllProbes-kept (suc n) i b b' kept (bit, rest) =
      (kept _ bit, AllProbes-kept n (i + 1) b b' kept rest)
