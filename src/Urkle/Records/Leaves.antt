-- ===== src/Urkle/Records/Leaves.antt =====
-- What `LeafSet` writes is read back, and the other leaf records stay.
use go_merklelog.Base.{
  ℕ, ◌+◌, ◌*◌, ◌^◌, ◌<◌, ◌≤◌, ◌≡◌, ◌≢◌, inl, inr, refl, sym, ap, subst, ◌⊎◌, ◌∙◌, length, arith,
}
use go_merklelog.Base.{◌==◌, ==_iff, leb, ltb, ltb→lt, ltb→le, le→leb, leb→le, Bool-cases}
use go_merklelog.Base.Results.{ok, ok_inj, panic_not_ok, eq-ok_of_bind}
use go_merklelog.Base.Buffers.{
  length-zeros, Bytes, take, drop, zeros, overwrite, read_bytes, write_bytes, put_uint64,
  uint64-put_uint64, length-overwrite, take-drop-overwrite, take-drop-overwrite_before,
  drop-overwrite_behind,
}
use go_merklelog.Urkle.Errors.{R, hash_bytes}
use go_merklelog.Urkle.Records.{leaf_record_offset, leaf_set, leaf_key, leaf_value}

-- A write that succeeds is in range.
write_bytes-eq :
    (b : Bytes) (off : ℕ) (ys : Bytes) {b' : Bytes}
    → ◌≡◌ {A = R Bytes} (write_bytes b off ys) (ok b')
    → (b' ≡ overwrite b off ys) × (off + length ys ≤ length b)
unfolding write_bytes
write_bytes-eq b off ys e = elim (Bool-cases (leb (off + length ys) (length b))) [
  | inl fits ↦ (sym (ok_inj (rw fits at e)), leb→le (off + length ys) (length b) fits)
  | inr over ↦ absurd (panic_not_ok (rw over at e))
]

-- what `LeafSet` writes, in range
record Written (table : Bytes) (ordinal key : ℕ) (value table' : Bytes) : Type 0 where
  sized : length value ≡ 32
  room : leaf_record_offset ordinal + 128 ≤ length table
  same :
      table'
      ≡ overwrite
          (overwrite
            (overwrite table (leaf_record_offset ordinal) (put_uint64 key))
            (leaf_record_offset ordinal + 8)
            value)
          (leaf_record_offset ordinal + 40)
          (zeros 88)

leaf_set-Written :
    (table : Bytes) (ordinal key : ℕ) (value : Bytes) {table' : Bytes}
    → leaf_set table ordinal key value ≡ ok table'
    → Written table ordinal key value table'
unfolding leaf_set
leaf_set-Written table ordinal key value e = elim (Bool-cases (length value == hash_bytes)) [
  | inr other ↦ absurd (panic_not_ok (rw (other, leaf_set) at e))
  | inl sized ↦
      let off = leaf_record_offset ordinal in
      let (one, first, e) =
        eq-ok_of_bind (write_bytes table off (put_uint64 key)) _ (rw (sized, leaf_set) at e) in
      let (two, second, e) = eq-ok_of_bind (write_bytes one (off + 8) value) _ e in
      let (made, room) = write_bytes-eq table off (put_uint64 key) first in
      let (made', room') = write_bytes-eq one (off + 8) value second in
      let (made'', room'') = write_bytes-eq two (off + 40) (zeros 88) e in
      record {
        sized = (==_iff (length value) 32).0 sized;
        room = omega (
          arith,
          room'',
          ap length made',
          length-overwrite one (off + 8) value,
          ap length made,
          length-overwrite table off (put_uint64 key),
          length-zeros 88,
        );
        same =
            made''
            ∙ ap (λ b. overwrite b (off + 40) (zeros 88))
                (made' ∙ ap (λ b. overwrite b (off + 8) value) made);
      }
]

-- what the record holds after the three writes, and what the rest of the table does
module _ (table : Bytes) (off key : ℕ) (value : Bytes) (sized : length value ≡ 32)
    (room : off + 128 ≤ length table) where
  abbrev one : Bytes
  one = overwrite table off (put_uint64 key)

  abbrev two : Bytes
  two = overwrite one (off + 8) value

  abbrev final : Bytes
  final = overwrite two (off + 40) (zeros 88)

  length-final : length final ≡ length table
  length-final =
      length-overwrite two (off + 40) (zeros 88)
      ∙ length-overwrite one (off + 8) value
      ∙ length-overwrite table off (put_uint64 key)

  length-key : length (put_uint64 key) ≡ 8
  unfolding put_uint64
  length-key = refl

  key_bytes : take 8 (drop off final) ≡ put_uint64 key
  key_bytes =
      take-drop-overwrite_before two off 8 (off + 40) (zeros 88) (omega arith)
      ∙ take-drop-overwrite_before one off 8 (off + 8) value (omega arith)
      ∙ subst (λ n. take n (drop off one) ≡ put_uint64 key) length-key
          (take-drop-overwrite table off (put_uint64 key) (omega (arith, length-key)))

  value_bytes : take 32 (drop (off + 8) final) ≡ value
  value_bytes =
      take-drop-overwrite_before two (off + 8) 32 (off + 40) (zeros 88) (omega arith)
      ∙ subst (λ n. take n (drop (off + 8) two) ≡ value) sized
          (take-drop-overwrite one (off + 8) value
            (omega (arith, length-overwrite table off (put_uint64 key))))

  other_bytes :
      (lo n : ℕ)
      → (lo + n ≤ off) ⊎ (off + 128 ≤ lo)
      → take n (drop lo final) ≡ take n (drop lo table)
  other_bytes lo n (inl before) =
      take-drop-overwrite_before two lo n (off + 40) (zeros 88) (omega arith)
      ∙ take-drop-overwrite_before one lo n (off + 8) value (omega arith)
      ∙ take-drop-overwrite_before table lo n off (put_uint64 key) before
  other_bytes lo n (inr behind) = ap (take n) (
      drop-overwrite_behind two lo (off + 40) (zeros 88) (omega (arith, length-zeros 88))
      ∙ drop-overwrite_behind one lo (off + 8) value (omega arith)
      ∙ drop-overwrite_behind table lo off (put_uint64 key) (omega (arith, length-key)))

-- After `LeafSet` succeeds, `LeafKey` and `LeafValue` of that ordinal are the key, below 2 ^ 64,
-- and the value.
pub leaf_key-leaf_set :
    (table : Bytes) (ordinal key : ℕ) (value : Bytes) {table' : Bytes}
    → key < 2 ^ 64
    → leaf_set table ordinal key value ≡ ok table'
    → (leaf_key table' ordinal ≡ ok key) × (leaf_value table' ordinal ≡ ok value)
unfolding leaf_key leaf_value read_bytes
leaf_key-leaf_set table ordinal key value small e =
    let w = leaf_set-Written table ordinal key value e in
    let off = leaf_record_offset ordinal in
    let long = length-final table off key value w.sized w.room in
    rw w.same (
      rw
          (
            le→leb (off + 8) (length (final table off key value w.sized w.room))
                (omega (arith, w.room, long)),
            key_bytes table off key value w.sized w.room,
            uint64-put_uint64 key small,
          )
          refl,
      rw
          (
            le→leb (off + 8 + 32) (length (final table off key value w.sized w.room))
                (omega (arith, w.room, long)),
            value_bytes table off key value w.sized w.room,
          )
          refl,
    )

-- `LeafSet` leaves the key and the value of every other ordinal.
pub leaf_key-leaf_set_other :
    (table : Bytes) (ordinal key : ℕ) (value : Bytes) (other : ℕ) {table' : Bytes}
    → other ≢ ordinal
    → leaf_set table ordinal key value ≡ ok table'
    → (leaf_key table' other ≡ leaf_key table other)
      × (leaf_value table' other ≡ leaf_value table other)
unfolding leaf_key leaf_value read_bytes leaf_record_offset
leaf_key-leaf_set_other table ordinal key value other differ e =
    let w = leaf_set-Written table ordinal key value e in
    let off = leaf_record_offset ordinal in
    let stays = other_bytes table off key value w.sized w.room in
    let apart : (other * 128 + 128 ≤ off) ⊎ (off + 128 ≤ other * 128) =
      records_apart other ordinal differ in
    rw (w.same, length-final table off key value w.sized w.room)
      (
        rw
            (stays (other * 128) 8
              (narrow (other * 128) off (other * 128) 8 (omega arith) (omega arith) apart))
            refl,
        rw
            (stays (other * 128 + 8) 32
              (narrow (other * 128) off (other * 128 + 8) 32 (omega arith) (omega arith) apart))
            refl,
      )
  where
    records_apart : (a b : ℕ) → a ≢ b → (a * 128 + 128 ≤ b * 128) ⊎ (b * 128 + 128 ≤ a * 128)
    records_apart a b differ = elim (Bool-cases (ltb a b)) [
      | inl below ↦ inl (omega (arith, ltb→lt a b below))
      | inr above ↦ inr (omega (arith, strict a b (ltb→le a b above) differ))
    ]
      where
        strict : (a b : ℕ) → b ≤ a → a ≢ b → b < a
        strict a b h k = ground arith

    narrow :
        (start off lo n : ℕ)
        → start ≤ lo
        → lo + n ≤ start + 128
        → (start + 128 ≤ off) ⊎ (off + 128 ≤ start)
        → (lo + n ≤ off) ⊎ (off + 128 ≤ lo)
    narrow start off lo n from until (inl h) = inl (omega arith)
    narrow start off lo n from until (inr h) = inr (omega arith)
