-- ===== src/Urkle/Builder/Recorded.antt =====
-- What an insertion records.
use go_merklelog.Base.{
  ℕ, ◌+◌, ◌%◌, ◌^◌, ◌<◌, ◌≡◌, ◌≢◌, inl, inr, refl, ap, subst, ◌∙◌, length, arith,
}
use go_merklelog.Base.{◌==◌, Bool-cases}
use go_merklelog.Base.Results.{ok, ok_inj, err_not_ok}
use go_merklelog.Base.Buffers.{Bytes}
use go_merklelog.Urkle.Errors.{R, hash_bytes}
use go_merklelog.Urkle.Hash.{hash_leaf}
use go_merklelog.Urkle.Records.{leaf_set, leaf_key, leaf_value}
use go_merklelog.Urkle.Records.Leaves.{leaf_key-leaf_set, leaf_key-leaf_set_other}
use go_merklelog.Urkle.Frontier.{FrontierStateV1}
use go_merklelog.Urkle.Builder.{Builder}
use go_merklelog.Urkle.Builder.Insert.{
  emit_leaf, make_room, check_order, check_capacity, insert_monotone,
}
use go_merklelog.Urkle.Builder.Keeps.{
  Keeps, Keeps-trans, eq-ok_of_call, result_then, set_leaf_table_then, make_room-Keeps,
  emit_leaf-Keeps,
}
use go_merklelog.Base.{◌≤◌, true, false, if◌then◌else◌, ltb, ltb→lt, ltb→le, neq→==, ==_iff}
use go_merklelog.Base.Results.{err}
use go_merklelog.Urkle.Errors.{duplicate_key, out_of_order_key}

module _ (digest : Bytes → Bytes) where
  increasing_of_check :
      (st : FrontierStateV1) (key : ℕ)
      → check_order digest st key ≡ ok tt
      → st.next_leaf ≢ 0
      → st.last_key < key
  unfolding check_order
  increasing_of_check st key e some_leaf = ground arith

  -- What a successful insertion has recorded.
  pub record Recorded (b : Builder) (key : ℕ) (value : Bytes) (ordinal : ℕ) (b' : Builder)
      : Type 0 where
    pub is_next : ordinal ≡ b.st.next_leaf
    pub room : ordinal < b.leaf_cap
    pub increasing : b.st.next_leaf ≢ 0 → b.st.last_key < key
    pub key_recorded : leaf_key b'.leaf_table ordinal ≡ ok key
    pub value_recorded : leaf_value b'.leaf_table ordinal ≡ ok value
    pub others :
        (o : ℕ)
        → o ≢ ordinal
        → (leaf_key b'.leaf_table o ≡ leaf_key b.leaf_table o)
          × (leaf_value b'.leaf_table o ≡ leaf_value b.leaf_table o)
    pub last_key : b'.st.last_key ≡ key
    pub count : b'.st.next_leaf ≡ (ordinal + 1) % 0x1_0000_0000

  room_of_check : (cap n : ℕ) → check_capacity digest cap n ≡ ok tt → n < cap
  unfolding check_capacity
  room_of_check cap n e = ground arith

  finished :
      (b : Builder) (key : ℕ) (value t : Bytes) (last : Builder) (ref : ℕ) {ordinal : ℕ}
      {b' : Builder}
      → key < 2 ^ 64
      → check_order digest b.st key ≡ ok tt
      → check_capacity digest b.leaf_cap b.st.next_leaf ≡ ok tt
      → leaf_set b.leaf_table b.st.next_leaf key value ≡ ok t
      → Keeps (record b { leaf_table = t }) last
      → ◌≡◌ {A = R ℕ × Builder}
          (
            ok b.st.next_leaf,
            record last {
              st = record last.st {
                pending = ref;
                last_key = key;
                next_leaf = (last.st.next_leaf + 1) % 0x1_0000_0000;
              };
            },
          )
          (ok ordinal, b')
      → Recorded b key value ordinal b'
  finished b key value t last ref {b' = b'} small order capacity written kept e =
      let n = b.st.next_leaf in
      let (at_key, at_value) = leaf_key-leaf_set b.leaf_table n key value small written in
      subst (λ o. Recorded b key value o b') (ok_inj (ap (λ p. p.0) e))
        (subst (Recorded b key value n) (ap (λ p. p.1) e) (record {
          is_next = refl;
          room = room_of_check b.leaf_cap n capacity;
          increasing = increasing_of_check b.st key order;
          key_recorded = ap (λ l. leaf_key l n) kept.leaves ∙ at_key;
          value_recorded = ap (λ l. leaf_value l n) kept.leaves ∙ at_value;
          others = λ o differ.
              let (k, v) = leaf_key-leaf_set_other b.leaf_table n key value o differ written in
              (ap (λ l. leaf_key l o) kept.leaves ∙ k, ap (λ l. leaf_value l o) kept.leaves ∙ v);
          last_key = refl;
          count = ap (λ c. (c + 1) % 0x1_0000_0000) kept.next_leaf;
        }))

  -- An insertion of a key below 2 ^ 64 that succeeds returns the next ordinal, inside the capacity,
  -- with a key above the last one; it records the key and the value at that ordinal, leaves those of
  -- every other ordinal, and updates the last key and the count, which wraps on uint32.
  pub insert_monotone-Recorded :
      (b : Builder) (key : ℕ) (value : Bytes) {ordinal : ℕ} {b' : Builder}
      → key < 2 ^ 64
      → insert_monotone digest key value b ≡ (ok ordinal, b')
      → Recorded b key value ordinal b'
  unfolding insert_monotone
  insert_monotone-Recorded b key value small e = elim (Bool-cases (length value == hash_bytes)) [
    | inr other ↦ absurd (err_not_ok (ap (λ p. p.0) (rw (other, insert_monotone) at e)))
    | inl sized ↦
        let e0 = rw (sized, insert_monotone) at e in
        result_then (check_order digest b.st key) _ b e0 λ _ order e1.
          result_then (check_capacity digest b.leaf_cap b.st.next_leaf) _ b e1 λ _ capacity e2.
            set_leaf_table_then (leaf_set b.leaf_table b.st.next_leaf key value) _ b e2
              λ t written e3.
                result_then (hash_leaf digest key b.st.next_leaf value) _
                  (record b { leaf_table = t }) e3
                  λ h _ e4.
                    let placed : Builder = record b { leaf_table = t } in
                    let (_, mid, made, e5) = eq-ok_of_call (make_room digest key placed) _ e4 in
                    let (ref, mid2, emitted, e6) =
                      eq-ok_of_call (emit_leaf digest b.st.next_leaf h mid) _ e5 in
                    let kept =
                      Keeps-trans (make_room-Keeps digest key placed made)
                        (emit_leaf-Keeps digest b.st.next_leaf h mid emitted) in
                    finished b key value t mid2 ref small order capacity written kept e6
  ]

  insert_monotone-refused :
      (b : Builder) (key : ℕ) (value : Bytes)
      → length value ≡ 32
      → b.st.next_leaf ≢ 0
      → key ≤ b.st.last_key
      → insert_monotone digest key value b
        ≡ (err (if key == b.st.last_key then duplicate_key else out_of_order_key), b)
  unfolding insert_monotone check_order
  insert_monotone-refused b key value sized some_leaf low =
      elim (Bool-cases (ltb key b.st.last_key)) [
        | inl below ↦
            let other : (key == b.st.last_key) ≡ false =
              neq→== key b.st.last_key (λ e. omega (arith, e, ltb→lt key b.st.last_key below)) in
            rw ((==_iff (length value) hash_bytes).1 sized, insert_monotone)
              (rw (neq→== b.st.next_leaf 0 some_leaf, below, other) refl)
        | inr level ↦
            let same : (key == b.st.last_key) ≡ true =
              (==_iff key b.st.last_key).1 (omega (arith, low, ltb→le key b.st.last_key level)) in
            rw ((==_iff (length value) hash_bytes).1 sized, insert_monotone)
              (rw (neq→== b.st.next_leaf 0 some_leaf, level, same) refl)
      ]

  -- Behind an insertion of a key that succeeded and did not wrap the count on uint32, every 32 byte
  -- value with a key that is not above that one is refused: the key itself as a duplicate, a lower
  -- one as out of order; the builder stays as the first insertion left it.
  pub insert_monotone-insert_monotone :
      (b : Builder) (key later : ℕ) (value again : Bytes) {ordinal : ℕ} {b' : Builder}
      → key < 2 ^ 64
      → insert_monotone digest key value b ≡ (ok ordinal, b')
      → ordinal + 1 < 2 ^ 32
      → length again ≡ 32
      → later ≤ key
      → insert_monotone digest later again b'
        ≡ (err (if later == key then duplicate_key else out_of_order_key), b')
  insert_monotone-insert_monotone b key later value again {ordinal} {b'} small e room sized low =
      let r = insert_monotone-Recorded b key value small e in
      let some_leaf : b'.st.next_leaf ≢ 0 = λ z. omega (arith, z, r.count) in
      insert_monotone-refused b' later again sized some_leaf (omega (arith, r.last_key))
      ∙ ap (λ k. (err (if later == k then duplicate_key else out_of_order_key), b')) r.last_key
