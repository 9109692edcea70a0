-- ===== src/Massifs/Snowflake/Words.antt =====
-- The fields of an id: the milliseconds, the worker and the sequence number.
use Prim.Native.Nat.{bit_and, bit_or}
use go_merklelog.Base.{
  ℕ, suc, ◌+◌, ◌-◌, ◌*◌, ◌/◌, ◌%◌, ◌^◌, ◌<◌, ◌≤◌, ◌≡◌, inl, inr, ap, subst, ◌≢◌, sym, ◌∙◌, arith,
}
use go_merklelog.Base.{
  ltb, leb, ◌==◌, if◌then◌else◌, add64, shl64, shr64, Bool-cases, leb→lt, ==_iff,
}
use native.Mathlib.Decide.{dec_lt}
use native.Mathlib.Nat.{mul-le-mul_right}
use go_merklelog.Base.Pow.{pow_pos, pow_mono, pow_add}
use go_merklelog.Base.Bits.Fields.{bit_and_field, bit_or_field, bit_or_empty}
use go_merklelog.Base.Results.{ok, ok_inj, err_not_ok}
use go_merklelog.Massifs.Snowflake.{IdState, next_value}

-- a generator of worker `w` with `b` bits of sequence number
pub record IsGenerator (s : IdState) (w b : ℕ) : Type 0 where
  pub lowest : 8 ≤ b
  pub highest : b ≤ 16
  pub worker_fits : w < 2 ^ (24 - b)
  pub mask : s.seq_mask ≡ 2 ^ b - 1
  pub worker : s.masked_worker_id ≡ w * 2 ^ b

-- a word of the generator: the worker's field is empty
pub record IsClean (b x : ℕ) : Type 0 where
  pub is_word : x < 0x1_0000_0000_0000_0000
  pub low : x % 0x100_0000 < 2 ^ b

split_24 : (b : ℕ) → b ≤ 16 → 2 ^ (24 - b) * 2 ^ b ≡ 0x100_0000
split_24 b h =
    let e : 24 - b + b ≡ 24 = omega arith in sym (pow_add (24 - b) b) ∙ ap (λ (k : ℕ). 2 ^ k) e

-- the word as two fields
two_fields : (b x : ℕ) → b ≤ 16 → x ≡ x / 0x100_0000 * 2 ^ (24 - b) * 2 ^ b + x % 0x100_0000
two_fields b x h =
    let e : x / 0x100_0000 * 2 ^ (24 - b) * 2 ^ b ≡ x / 0x100_0000 * 0x100_0000 =
      grind (arith, split_24 b h) in
    omega (arith, e)

last_seq-eq : (b x : ℕ) → b ≤ 16 → IsClean b x → bit_and x (2 ^ b - 1) ≡ x % 0x100_0000
last_seq-eq b x h c =
    ap (λ (t : ℕ). bit_and t (2 ^ b - 1)) (two_fields b x h)
    ∙ bit_and_field b (x / 0x100_0000 * 2 ^ (24 - b)) (x % 0x100_0000) c.low

pub id-eq :
    {s : IdState} {w b : ℕ} (x : ℕ)
    → IsGenerator s w b
    → IsClean b x
    → bit_or x s.masked_worker_id ≡ x + w * 2 ^ b
id-eq {s} {w} {b} x g c =
    let t = x / 0x100_0000 in
    let above : bit_or (t * 2 ^ (24 - b)) w ≡ t * 2 ^ (24 - b) + w =
      bit_or_empty (24 - b) t w g.worker_fits in
    let joined : bit_or (t * 2 ^ (24 - b) * 2 ^ b + x % 0x100_0000) (w * 2 ^ b)
        ≡ (t * 2 ^ (24 - b) + w) * 2 ^ b + x % 0x100_0000 =
      bit_or_field b (t * 2 ^ (24 - b)) w (x % 0x100_0000) c.low
      ∙ ap (λ (u : ℕ). u * 2 ^ b + x % 0x100_0000) above in
    let sum : (t * 2 ^ (24 - b) + w) * 2 ^ b ≡ t * 2 ^ (24 - b) * 2 ^ b + w * 2 ^ b = grind arith in
    ap (λ (u : ℕ). bit_or x u) g.worker
    ∙ (ap (λ (u : ℕ). bit_or u (w * 2 ^ b)) (two_fields b x g.highest)
        ∙ (joined ∙ omega (arith, sum, two_fields b x g.highest)))

field_le : (p q q' r r' : ℕ) → r' < p → q * p + r ≡ q' * p + r' → q ≤ q'
field_le p q q' r r' h e = elim (dec_lt q' q) [
  | yes less ↦
      let step : suc q' * p ≤ q * p = mul-le-mul_right p less in
      let one : suc q' * p ≡ q' * p + p = grind arith in absurd (omega arith)
  | no h ↦ omega arith
]

fields_unique : (p q q' r r' : ℕ) → r < p → r' < p → q * p + r ≡ q' * p + r' → q ≡ q'
fields_unique p q q' r r' h h' e =
    omega (arith, field_le p q q' r r' h' e, field_le p q' q r' r h (sym e))

-- An id names its worker.
pub id-worker :
    {s s' : IdState} {w w' b : ℕ} (x x' : ℕ)
    → IsGenerator s w b
    → IsGenerator s' w' b
    → IsClean b x
    → IsClean b x'
    → x + w * 2 ^ b ≡ x' + w' * 2 ^ b
    → w ≡ w'
id-worker {w = w} {w' = w'} {b = b} x x' g g' c c' e =
    let p = 2 ^ (24 - b) in
    let t = x / 0x100_0000 in
    let t' = x' / 0x100_0000 in
    let sum : (t * p + w) * 2 ^ b ≡ t * p * 2 ^ b + w * 2 ^ b = grind arith in
    let sum' : (t' * p + w') * 2 ^ b ≡ t' * p * 2 ^ b + w' * 2 ^ b = grind arith in
    let above : t * p + w ≡ t' * p + w' =
      fields_unique (2 ^ b) (t * p + w) (t' * p + w') (x % 0x100_0000) (x' % 0x100_0000) c.low
        c'.low (omega (arith, two_fields b x g.highest, two_fields b x' g.highest)) in
    let times : t ≡ t' = fields_unique p t t' w w' g.worker_fits g'.worker_fits above in
    let same : t * p ≡ t' * p = ap (λ (u : ℕ). u * p) times in omega arith

time-IsClean : (b x : ℕ) → IsClean b (shl64 x 24)
unfolding shl64
time-IsClean b x = record { is_word = omega arith; low = omega (arith, pow_pos b) }

count-IsClean :
    (b x : ℕ) → b ≤ 16 → IsClean b x → x % 0x100_0000 ≢ 2 ^ b - 1 → IsClean b (add64 x 1)
unfolding add64
count-IsClean b x h c more =
    let small : 2 ^ b ≤ 2 ^ 16 = pow_mono b 16 h in
    record { is_word = omega arith; low = ground (arith, c.low, c.is_word) }

candidate-IsClean :
    {s : IdState} {w b : ℕ} (now last : ℕ)
    → IsGenerator s w b
    → IsClean b last
    → IsClean b (
        if ltb (shr64 last 24) now
        then shl64 now 24
        else if bit_and last s.seq_mask == s.seq_mask
        then shl64 (add64 (shr64 last 24) 1) 24
        else add64 last 1)
candidate-IsClean {s} {w} {b} now last g c = elim (Bool-cases (ltb (shr64 last 24) now)) [
  | inl later ↦ rw later (time-IsClean b now)
  | inr same ↦ elim (Bool-cases (bit_and last s.seq_mask == s.seq_mask)) [
    | inl full ↦ rw (same, full) (time-IsClean b (add64 (shr64 last 24) 1))
    | inr room ↦
        let seq : bit_and last s.seq_mask ≡ last % 0x100_0000 =
          ap (bit_and last) g.mask ∙ last_seq-eq b last g.highest c in
        rw (same, room)
          (count-IsClean b last g.highest c λ top.
            cc (room, (==_iff (bit_and last s.seq_mask) s.seq_mask).1 (seq ∙ (top ∙ sym g.mask))))
  ]
]

-- A word that follows is clean and larger.
pub next_value-IsClean :
    {s : IdState} {w b : ℕ} (now last : ℕ) {next : ℕ}
    → IsGenerator s w b
    → IsClean b last
    → next_value s now last ≡ ok next
    → (last < next) × IsClean b next
unfolding next_value
next_value-IsClean {s} {w} {b} now last {next} g c e =
    let last_time = shr64 last 24 in
    let last_seq = bit_and last s.seq_mask in
    let candidate : ℕ =
      if ltb last_time now
      then shl64 now 24
      else if last_seq == s.seq_mask
      then shl64 (add64 last_time 1) 24
      else add64 last 1 in
    elim (Bool-cases (leb candidate last)) [
      | inl stuck ↦ absurd (err_not_ok (rw stuck at e))
      | inr larger ↦
          let same : candidate ≡ next = ok_inj (rw larger at e) in
          (
            rw (← same) (leb→lt candidate last larger),
            subst (IsClean b) same (candidate-IsClean now last g c),
          )
    ]
