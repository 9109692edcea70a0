-- ===== src/Urkle/Builder/Keeps.antt =====
-- What the methods of a builder leave as it is.
use go_merklelog.Base.{ℕ, zero, suc, ◌+◌, ◌-◌, ◌≡◌, inl, inr, refl, ap, subst, ◌∙◌, Bool}
use go_merklelog.Base.{◌==◌, leb, ltb, Bool-cases, Option-cases}
use go_merklelog.Base.Results.{ok, err, panic, out_of_fuel, err_not_ok}
use go_merklelog.Base.Buffers.{Bytes}
use go_merklelog.Urkle.Errors.{R}
use go_merklelog.Urkle.Hash.{hash_branch}
use go_merklelog.Urkle.Records.{node_write_leaf, node_write_branch, node_subtree_size, node_hash}
use go_merklelog.Urkle.Frontier.{Frame, frontier_max_depth}
use go_merklelog.Urkle.Builder.{
  Builder, Call, after, ◌>>=◌, result, set_state, set_leaf_table, set_node_store, crit_bit,
  frame_at,
}
use go_merklelog.Urkle.Builder.Insert.{
  subtree_size_of, deeper, emit_leaf, emit_branch, close_frames, open_frame, make_room,
}

-- A call that succeeds has a first part that succeeds.
pub eq-ok_of_call :
    {A B : Type 0} (m : R A × Builder) (f : A → Call B) {x : B} {b' : Builder}
    → after f m ≡ (ok x, b')
    → (a : A) × (mid : Builder) × (m ≡ (ok a, mid)) × (f a mid ≡ (ok x, b'))
eq-ok_of_call (ok a, mid) f e = (a, mid, refl, e)
eq-ok_of_call (err m, mid) f e = absurd (err_not_ok (ap (λ p. p.0) e))
eq-ok_of_call (panic, mid) f e = cc
eq-ok_of_call (out_of_fuel, mid) f e = cc

-- the leaf table, the count of leaves, the last key and the capacities
pub record Keeps (b b' : Builder) : Type 0 where
  pub leaves : b'.leaf_table ≡ b.leaf_table
  pub next_leaf : b'.st.next_leaf ≡ b.st.next_leaf
  pub last_key : b'.st.last_key ≡ b.st.last_key
  pub leaf_cap : b'.leaf_cap ≡ b.leaf_cap

pub Keeps-trans : {a b c : Builder} → Keeps a b → Keeps b c → Keeps a c
Keeps-trans p q = record {
  leaves = q.leaves ∙ p.leaves;
  next_leaf = q.next_leaf ∙ p.next_leaf;
  last_key = q.last_key ∙ p.last_key;
  leaf_cap = q.leaf_cap ∙ p.leaf_cap;
}

Keeps-self : {b : Builder} → Keeps b b
Keeps-self = record { leaves = refl; next_leaf = refl; last_key = refl; leaf_cap = refl }

Keeps-same :
    {A : Type 0} {x y : A} {b b' : Builder}
    → ◌≡◌ {A = R A × Builder} (ok x, b) (ok y, b')
    → Keeps b b'
Keeps-same {b = b} e = subst (Keeps b) (ap (λ p. p.1) e) Keeps-self

result-Keeps :
    {A : Type 0} (r : R A) {x : A} {b b' : Builder} → result r b ≡ (ok x, b') → Keeps b b'
result-Keeps r {b = b} e = subst (Keeps b) (ap (λ p. p.1) e) Keeps-self

set_node_store-Keeps :
    (r : R Bytes) {b b' : Builder} → set_node_store r b ≡ (ok tt, b') → Keeps b b'
set_node_store-Keeps (ok s) {b} e =
    subst (Keeps b) (ap (λ p. p.1) e)
      (record { leaves = refl; next_leaf = refl; last_key = refl; leaf_cap = refl })
set_node_store-Keeps (err m) e = absurd (err_not_ok (ap (λ p. p.0) e))
set_node_store-Keeps panic e = cc
set_node_store-Keeps out_of_fuel e = cc

-- A method that succeeds and begins with a result has one that is `ok`.
pub result_then :
    {A B C : Type 0} (r : R A) (f : A → Call B) (b : Builder) {x : B} {b' : Builder}
    → after f (r, b) ≡ (ok x, b')
    → ((a : A) → r ≡ ok a → f a b ≡ (ok x, b') → C)
    → C
result_then (ok a) f b e then_holds = then_holds a refl e
result_then (err m) f b e then_holds = absurd (err_not_ok (ap (λ p. p.0) e))
result_then panic f b e then_holds = cc
result_then out_of_fuel f b e then_holds = cc

pub set_leaf_table_then :
    {B C : Type 0} (r : R Bytes) (f : Unit {0} → Call B) (b : Builder) {x : B} {b' : Builder}
    → after f (set_leaf_table r b) ≡ (ok x, b')
    → ((t : Bytes) → r ≡ ok t → f tt (record b { leaf_table = t }) ≡ (ok x, b') → C)
    → C
set_leaf_table_then (ok t) f b e then_holds = then_holds t refl e
set_leaf_table_then (err m) f b e then_holds = absurd (err_not_ok (ap (λ p. p.0) e))
set_leaf_table_then panic f b e then_holds = cc
set_leaf_table_then out_of_fuel f b e then_holds = cc

set_node_store_then :
    {B : Type 0} (r : R Bytes) (f : Unit {0} → Call B) (b : Builder) {x : B} {b' : Builder}
    → after f (set_node_store r b) ≡ (ok x, b')
    → ((s : Bytes)
        → f tt (record b { node_store = s }) ≡ (ok x, b')
        → Keeps (record b { node_store = s }) b')
    → Keeps b b'
set_node_store_then (ok s) f b e then_keeps =
    Keeps-trans (record { leaves = refl; next_leaf = refl; last_key = refl; leaf_cap = refl })
      (then_keeps s e)
set_node_store_then (err m) f b e then_keeps = absurd (err_not_ok (ap (λ p. p.0) e))
set_node_store_then panic f b e then_keeps = cc
set_node_store_then out_of_fuel f b e then_keeps = cc

module _ (digest : Bytes → Bytes) where
  pub emit_leaf-Keeps :
      (ordinal : ℕ) (h : Bytes) {ref : ℕ} (b : Builder) {b' : Builder}
      → emit_leaf digest ordinal h b ≡ (ok ref, b')
      → Keeps b b'
  unfolding emit_leaf
  emit_leaf-Keeps ordinal h b e = elim (Bool-cases (leb b.node_cap b.st.next)) [
    | inl full ↦ absurd (err_not_ok (ap (λ p. p.0) (rw (full, emit_leaf) at e)))
    | inr room ↦
        let e1 = rw (room, emit_leaf) at e in
        let stored = set_node_store (node_write_leaf b.node_store b.st.next ordinal h) b in
        let (_, mid, e2, e3) = eq-ok_of_call stored _ e1 in
        Keeps-trans (set_node_store-Keeps (node_write_leaf b.node_store b.st.next ordinal h) e2) (
          subst (Keeps mid) (ap (λ p. p.1) e3)
            (record { leaves = refl; next_leaf = refl; last_key = refl; leaf_cap = refl }))
  ]

  emit_branch-Keeps :
      (bit l r : ℕ) {ref : ℕ} (b : Builder) {b' : Builder}
      → emit_branch digest bit l r b ≡ (ok ref, b')
      → Keeps b b'
  unfolding emit_branch
  emit_branch-Keeps bit l r b e = elim (Bool-cases (leb b.node_cap b.st.next)) [
    | inl full ↦ absurd (err_not_ok (ap (λ p. p.0) (rw (full, emit_branch) at e)))
    | inr room ↦ elim (Bool-cases (ltb 63 bit)) [
      | inl far ↦ absurd (err_not_ok (ap (λ p. p.0) (rw (room, far, emit_branch) at e)))
      | inr near ↦
          let e0 = rw (room, near, emit_branch) at e in
          result_then (node_subtree_size b.node_store l) _ b e0 λ ls _ e1.
            result_then (node_subtree_size b.node_store r) _ b e1 λ rs _ e2.
              result_then (subtree_size_of ls rs) _ b e2 λ size _ e3.
                result_then (node_hash b.node_store l) _ b e3 λ lh _ e4.
                  result_then (node_hash b.node_store r) _ b e4 λ rh _ e5.
                    result_then (hash_branch digest bit lh rh) _ b e5 λ h _ e6.
                      set_node_store_then (node_write_branch b.node_store b.st.next bit rs size h) _
                        b e6
                        λ s e7.
                          subst (Keeps (record b { node_store = s })) (ap (λ p. p.1) e7) (record {
                            leaves = refl;
                            next_leaf = refl;
                            last_key = refl;
                            leaf_cap = refl;
                          })
    ]
  ]

  -- one round that closes the frame `top`
  closing :
      (closes : Frame → Bool) (fuel : ℕ) (b : Builder) (top : Frame) {b' : Builder}
      → after
          (λ br.
            set_state (λ st. record st { pending = br }) >>= λ _. close_frames digest closes fuel)
          (emit_branch digest top.bit top.left b.st.pending
            (record b { st = record b.st { depth = b.st.depth - 1 } }))
        ≡ (ok tt, b')
      → ((b b' : Builder) → close_frames digest closes fuel b ≡ (ok tt, b') → Keeps b b')
      → Keeps b b'
  closing closes fuel b top e rounds =
      let lowered : Builder = record b { st = record b.st { depth = b.st.depth - 1 } } in
      let (br, mid, made, rest) =
        eq-ok_of_call (emit_branch digest top.bit top.left b.st.pending lowered)
          (λ br.
            set_state (λ st. record st { pending = br }) >>= λ _. close_frames digest closes fuel)
          e in
      let grown = emit_branch-Keeps top.bit top.left b.st.pending lowered made in
      let rest_keeps = rounds (record mid { st = record mid.st { pending = br } }) _ rest in
      record {
        leaves = rest_keeps.leaves ∙ grown.leaves;
        next_leaf = rest_keeps.next_leaf ∙ grown.next_leaf;
        last_key = rest_keeps.last_key ∙ grown.last_key;
        leaf_cap = rest_keeps.leaf_cap ∙ grown.leaf_cap;
      }

  pub close_frames-Keeps :
      (closes : Frame → Bool) (fuel : ℕ) (b b' : Builder)
      → close_frames digest closes fuel b ≡ (ok tt, b')
      → Keeps b b'
  unfolding close_frames
  close_frames-Keeps closes zero b b' e = cc
  close_frames-Keeps closes (suc fuel) b b' e = elim (Bool-cases (ltb 0 b.st.depth)) [
    | inr none_open ↦ Keeps-same (rw (none_open, close_frames) at e)
    | inl some_open ↦
        let e1 = rw (some_open, close_frames) at e in
        result_then (frame_at b.st.frames (b.st.depth - 1)) _ b e1 λ top _ e3.
          elim (Bool-cases (closes top)) [
            | inr stays ↦ Keeps-same (rw stays at e3)
            | inl goes ↦ closing closes fuel b top (rw goes at e3) (close_frames-Keeps closes fuel)
          ]
  ]

  open_frame-Keeps :
      (l : ℕ) (b : Builder) {b' : Builder} → open_frame digest l b ≡ (ok tt, b') → Keeps b b'
  unfolding open_frame
  open_frame-Keeps l b e = result_then (deeper l b.st) _ b e λ opens _ e1. elim (Bool-cases opens) [
    | inr shallow ↦ Keeps-same (rw shallow at e1)
    | inl deep ↦ elim (Bool-cases (leb frontier_max_depth b.st.depth)) [
      | inl full ↦ absurd (err_not_ok (ap (λ p. p.0) (rw full at (rw deep at e1))))
      | inr room ↦
          subst (Keeps b) (ap (λ p. p.1) (rw room at (rw deep at e1)))
            (record { leaves = refl; next_leaf = refl; last_key = refl; leaf_cap = refl })
    ]
  ]

  pub make_room-Keeps :
      (key : ℕ) (b : Builder) {b' : Builder} → make_room digest key b ≡ (ok tt, b') → Keeps b b'
  unfolding make_room
  make_room-Keeps key b e = elim (Bool-cases (b.st.next_leaf == 0)) [
    | inl first ↦ Keeps-same (rw (first, make_room) at e)
    | inr later ↦ elim (Option-cases (crit_bit b.st.last_key key)) [
      | inl same ↦ absurd (err_not_ok (ap (λ p. p.0) (rw (same) at (rw (later, make_room) at e))))
      | inr (l, differs) ↦
          let e1 = rw differs at (rw (later, make_room) at e) in
          let (_, mid, closed, opened) =
            eq-ok_of_call (close_frames digest (λ top. ltb l top.bit) (b.st.depth + 1) b)
              (λ _. open_frame digest l) e1 in
          Keeps-trans (close_frames-Keeps (λ top. ltb l top.bit) (b.st.depth + 1) b _ closed)
            (open_frame-Keeps l mid opened)
    ]
  ]
