-- ===== src/Massifs/Snowflake/Generator.antt =====
-- What `NewIDState` makes, and the progress of a thread that runs alone.

use go_merklelog.Base.{
  ℕ, suc, ◌+◌, ◌-◌, ◌*◌, ◌^◌, ◌<◌, ◌≤◌, ◌≡◌, ◌≢◌, false, ◌&&◌, ◌||◌, inl, inr, refl, ap, sym, subst,
  ◌∙◌, [], ◌∷◌, length, arith,
}
use go_merklelog.Base.{
  ltb, leb, le→leb, lt→leb, neq→==, ◌==◌, Bool-cases, Option-cases, bytes_equal, mask64-eq,
  shl64_exact,
}
use go_merklelog.Base.Bits.{len64}
use go_merklelog.Base.Bits.Fields.{bit_and-le, len64_fits, len64_least}
use native.Mathlib.Nat.{mul-le-mul_right}
use go_merklelog.Base.Pow.{lt-of_pow-lt, pow_add}
use go_merklelog.Base.Buffers.{Bytes, read_bytes, uint16}
use go_merklelog.Base.Results.{ok, err, ◌>>=◌, ok_inj, err_not_ok, eq-ok_of_bind}
use go_merklelog.Massifs.Snowflake.{
  R, generator, IdState, init_state, overloaded, swap, returned, thread_step, again,
}
use go_merklelog.Massifs.Snowflake.Words.{IsGenerator}
use go_merklelog.Massifs.Snowflake.Worker.{
  Net, invert_ip_mask, check_mask, parse_mask, parse_private_ip, and_bytes, short_mask, short_ip,
  and_mask, ip_mask, worker_id_sequence_bits,
}
use go_merklelog.Massifs.Snowflake.Create.{Config, init_time, new_id_state}

-- a mask that `parseMask` accepts, with its low two bytes
record IsMask (mask : Bytes) : Type 0 where
  m2 : ℕ
  m3 : ℕ
  tail : Bytes
  shape : mask ≡ 0 ∷ 0 ∷ m2 ∷ m3 ∷ tail
  m2_byte : m2 ≤ 255
  m3_byte : m3 ≤ 255
  wide : 255 ≤ m2 * 256 + m3

check_mask-IsMask :
    (m0 m1 m2 m3 : ℕ) (tail : Bytes) {mask : Bytes}
    → m2 ≤ 255
    → m3 ≤ 255
    → check_mask (m0 ∷ m1 ∷ m2 ∷ m3 ∷ tail) ≡ ok mask
    → IsMask mask
unfolding check_mask
check_mask-IsMask m0 m1 m2 m3 tail h2 h3 e = elim (Bool-cases (ltb 0 m0 || ltb 0 m1)) [
  | inl wide ↦ absurd (err_not_ok (rw wide at e))
  | inr low ↦ elim (Bool-cases (m2 == 0 && ltb m3 255)) [
    | inl few ↦ absurd (err_not_ok (rw (low, few) at e))
    | inr many ↦
        let same = ok_inj (rw (low, many) at e) in
        record {
          m2 = m2;
          m3 = m3;
          tail = tail;
          shape = sym same ∙ ground arith;
          m2_byte = h2;
          m3_byte = h3;
          wide = ground arith;
        }
  ]
]

invert-IsMask :
    (raw : Bytes) {mask : Bytes}
    → (invert_ip_mask 4 raw >>= λ inverted. check_mask inverted) ≡ ok mask
    → IsMask mask
unfolding invert_ip_mask
invert-IsMask [] e = cc
invert-IsMask (a ∷ []) e = cc
invert-IsMask (a ∷ b ∷ []) e = cc
invert-IsMask (a ∷ b ∷ c ∷ []) e = cc
invert-IsMask (a ∷ b ∷ c ∷ d ∷ tail) e =
    check_mask-IsMask (255 - a) (255 - b) (255 - c) (255 - d) tail (omega arith) (omega arith) e

parse_mask-IsMask :
    (net : Net) (cidr : Bytes) {mask : Bytes} → parse_mask net cidr ≡ ok mask → IsMask mask
unfolding parse_mask
parse_mask-IsMask net cidr e = elim (Option-cases (net.parse_cidr cidr)) [
  | inl refused ↦ absurd (err_not_ok (rw (refused, parse_mask) at e))
  | inr (raw, found) ↦ invert-IsMask raw (rw (found, parse_mask) at e)
]

len64_range : (x : ℕ) → 255 ≤ x → x < 2 ^ 16 → (8 ≤ len64 x) × (len64 x ≤ 16)
len64_range x lo hi =
    let fits = len64_fits x (omega arith) in
    let least = len64_least x (omega arith) in
    (lt-of_pow-lt 7 (len64 x) (omega arith), omega (arith, lt-of_pow-lt (len64 x) 17 (omega arith)))

init_state-ok : (w n : ℕ) → 8 ≤ n → n ≤ 16 → init_state w (24 - n) ≡ ok (generator w (24 - n))
unfolding init_state
init_state-ok w n lo hi =
    let wide : ltb 24 (24 - n) || ltb (24 - (24 - n)) 8 ≡ false = ground arith in
    let narrow : ltb (24 - n) 8 ≡ false = ground arith in rw (wide, narrow) refl

pub generator-IsGenerator :
    (w n : ℕ) → 8 ≤ n → n ≤ 16 → w < 2 ^ n → IsGenerator (generator w (24 - n)) w (24 - n)
generator-IsGenerator w n lo hi fits =
    let back : 24 - (24 - n) ≡ n = omega arith in
    let all : n + (24 - n) ≡ 24 = omega arith in
    let parts : 2 ^ n * 2 ^ (24 - n) ≡ 0x100_0000 =
      sym (pow_add n (24 - n)) ∙ ap (λ (k : ℕ). 2 ^ k) all in
    let times : suc w * 2 ^ (24 - n) ≤ 2 ^ n * 2 ^ (24 - n) =
      mul-le-mul_right (2 ^ (24 - n)) fits in
    let one : suc w * 2 ^ (24 - n) ≡ w * 2 ^ (24 - n) + 2 ^ (24 - n) = grind arith in
    record {
      lowest = omega arith;
      highest = omega arith;
      worker_fits = rw back fits;
      mask = mask64-eq (24 - n) (omega arith);
      worker = shl64_exact w (24 - n) (omega arith) (omega arith);
    }

-- the low two bytes of an address behind a mask are not above those of the mask
and_bytes-le :
    (m2 m3 : ℕ) (tail z : Bytes) {masked : Bytes}
    → ◌≡◌ {A = R Bytes} (read_bytes (and_bytes z (0 ∷ 0 ∷ m2 ∷ m3 ∷ tail)) 2 2) (ok masked)
    → uint16 masked ≤ m2 * 256 + m3
unfolding read_bytes and_bytes uint16
and_bytes-le m2 m3 tail [] e = cc
and_bytes-le m2 m3 tail (a ∷ []) e = cc
and_bytes-le m2 m3 tail (a ∷ b ∷ []) e = cc
and_bytes-le m2 m3 tail (a ∷ b ∷ c ∷ []) e = cc
and_bytes-le m2 m3 tail (a ∷ b ∷ c ∷ d ∷ z) e =
    let full =
      le→leb 4 (length (and_bytes (a ∷ b ∷ c ∷ d ∷ z) (0 ∷ 0 ∷ m2 ∷ m3 ∷ tail))) (omega arith) in
    let same = ok_inj (rw full at e) in
    rw (← same) (omega (arith, bit_and-le m2 c m2 (omega arith), bit_and-le m3 d m3 (omega arith)))

no_bytes : {masked : Bytes} → ◌≡◌ {A = R Bytes} (read_bytes [] 2 2) (ok masked) → ⊥
unfolding read_bytes
no_bytes e = cc

masked-le :
    (m2 m3 : ℕ) (tail ip : Bytes) {masked : Bytes}
    → ◌≡◌ {A = R Bytes} (read_bytes (ip_mask ip (0 ∷ 0 ∷ m2 ∷ m3 ∷ tail)) 2 2) (ok masked)
    → uint16 masked ≤ m2 * 256 + m3
unfolding ip_mask short_mask bytes_equal and_mask
masked-le m2 m3 tail ip e =
    let mask = 0 ∷ 0 ∷ m2 ∷ m3 ∷ tail in
    let z = short_ip ip mask in
    elim (Bool-cases (length z == length mask)) [
      | inl same ↦ and_bytes-le m2 m3 tail z (rw same at e)
      | inr other ↦ absurd (no_bytes (rw other at e))
    ]

low_mask-eq :
    (m2 m3 : ℕ) (tail : Bytes) {low : Bytes}
    → ◌≡◌ {A = R Bytes} (read_bytes (0 ∷ 0 ∷ m2 ∷ m3 ∷ tail) 2 2) (ok low)
    → uint16 low ≡ m2 * 256 + m3
unfolding read_bytes uint16
low_mask-eq m2 m3 tail e =
    let full = le→leb 4 (length (0 ∷ 0 ∷ m2 ∷ m3 ∷ tail)) (omega arith) in
    let same = ok_inj (rw full at e) in rw (← same) (omega arith)

-- What a configuration that the parsers accept gives.
worker_id_sequence_bits-lt :
    (net : Net) (cidr pod_ip : Bytes) {w b : ℕ}
    → worker_id_sequence_bits net cidr pod_ip ≡ ok (w, b)
    → (n : ℕ) × (b ≡ 24 - n) × (8 ≤ n) × (n ≤ 16) × (w < 2 ^ n)
unfolding worker_id_sequence_bits
worker_id_sequence_bits-lt net cidr pod_ip e =
    let (mask, parsed, e1) = eq-ok_of_bind (parse_mask net cidr) _ e in
    let (ip, private, e2) = eq-ok_of_bind (parse_private_ip net pod_ip) _ e1 in
    let (low, low_read, e3) = eq-ok_of_bind (read_bytes mask 2 2) _ e2 in
    let (masked, masked_read, e4) = eq-ok_of_bind (read_bytes (ip_mask ip mask) 2 2) _ e3 in
    let m = parse_mask-IsMask net cidr parsed in
    let pair = ok_inj e4 in
    let low_value : uint16 low ≡ m.m2 * 256 + m.m3 =
      low_mask-eq m.m2 m.m3 m.tail
        (subst (λ x. ◌≡◌ {A = R Bytes} (read_bytes x 2 2) (ok low)) m.shape low_read) in
    let masked_value : uint16 masked ≤ m.m2 * 256 + m.m3 = masked-le m.m2 m.m3 m.tail ip (
      subst (λ x. ◌≡◌ {A = R Bytes} (read_bytes (ip_mask ip x) 2 2) (ok masked)) m.shape
        masked_read) in
    let bounds : (255 ≤ uint16 low) × (uint16 low < 2 ^ 16) =
      (omega (arith, low_value, m.wide), omega (arith, low_value, m.m2_byte, m.m3_byte)) in
    let range = len64_range (uint16 low) bounds.0 bounds.1 in
    (
      len64 (uint16 low),
      sym (ap (λ p. p.1) pair),
      range.0,
      range.1,
      subst (λ u. u < 2 ^ len64 (uint16 low)) (ap (λ p. p.0) pair)
          (omega (arith, len64_fits (uint16 low) (omega (arith, bounds)), masked_value, low_value)),
    )

-- A state that `NewIDState` returns is that of a generator whose worker id and sequence number
-- have fields of their own in the low 24 bits; the checks on the widths never refuse one.
pub new_id_state-IsGenerator :
    (net : Net) (generator_start : ℕ) (cfg : Config) {s : IdState}
    → new_id_state net generator_start cfg ≡ ok s
    → (w : ℕ) × (b : ℕ) × (worker_id_sequence_bits net cfg.worker_cidr cfg.pod_ip ≡ ok (w, b))
      × IsGenerator s w b
unfolding new_id_state
new_id_state-IsGenerator net generator_start cfg e =
    let ((w, b), found, e1) =
      eq-ok_of_bind (worker_id_sequence_bits net cfg.worker_cidr cfg.pod_ip) _ e in
    let (_, timed, e2) = eq-ok_of_bind (init_time generator_start) _ e1 in
    let (n, width, lo, hi, fits) =
      worker_id_sequence_bits-lt net cfg.worker_cidr cfg.pod_ip found in
    let made : init_state w b ≡ ok (generator w b) =
      subst (λ b. init_state w b ≡ ok (generator w b)) (sym width) (init_state-ok w n lo hi) in
    let same : generator w b ≡ _ = ok_inj (sym made ∙ e2) in
    (
      w,
      b,
      found,
      subst (λ s. IsGenerator s w b) same
          (subst (λ b. IsGenerator (generator w b) w b) (sym width)
            (generator-IsGenerator w n lo hi fits)),
    )

init_state-allow_spins : (w b : ℕ) {s : IdState} → init_state w b ≡ ok s → s.allow_spins ≡ 0
unfolding init_state
init_state-allow_spins w b e = ground arith

-- Whatever number of rounds a configuration allows, one swap that is lost ends the call.
pub new_id_state-one_try :
    (net : Net) (generator_start : ℕ) (cfg : Config) (i now last next cell : ℕ) {s : IdState}
    → new_id_state net generator_start cfg ≡ ok s
    → cell ≢ last
    → thread_step s now (swap i last next) cell ≡ (cell, returned (err overloaded))
unfolding new_id_state thread_step again
new_id_state-one_try net generator_start cfg i now last next cell {s} e lost =
    let ((w, b), found, e1) =
      eq-ok_of_bind (worker_id_sequence_bits net cfg.worker_cidr cfg.pod_ip) _ e in
    let (_, timed, e2) = eq-ok_of_bind (init_time generator_start) _ e1 in
    let once : s.allow_spins ≡ 0 = init_state-allow_spins w b e2 in
    let over : leb (i + 1) s.allow_spins ≡ false = rw once (lt→leb (i + 1) 0 (omega arith)) in
    rw (neq→== cell last lost, over) refl
