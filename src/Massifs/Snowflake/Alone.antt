-- ===== src/Massifs/Snowflake/Alone.antt =====
-- A thread that is not interrupted gets an id.
use Prim.Native.Nat.{bit_and, bit_or}
use go_merklelog.Base.{ℕ, ◌-◌, ◌^◌, ◌<◌, ◌≡◌, inl, inr, true, refl, subst, sym, some, arith}
use go_merklelog.Base.{
  get_elem?, ltb, ◌==◌, Bool-cases, lt→leb, ltb→lt, ==_iff, add64, shl64, shr64,
}
use go_merklelog.Base.Results.{ok}
use go_merklelog.Massifs.Snowflake.{
  IdState, spin, swap, returned, loaded, next_value, thread_step, issued_by, System, act, update,
}

time_above : (now last : ℕ) → now < 2 ^ 40 → shr64 last 24 < now → last < shl64 now 24
unfolding shr64 shl64
time_above now last h k = omega arith

bump_above : (last : ℕ) → last < 2 ^ 64 - 2 ^ 24 → last < shl64 (add64 (shr64 last 24) 1) 24
unfolding shr64 shl64 add64
bump_above last k = omega arith

count_above : (last : ℕ) → last < 2 ^ 64 - 2 ^ 24 → last < add64 last 1
unfolding add64
count_above last k = omega arith

-- While the milliseconds fit their 40 bits, there is a next word.
next_value-ok :
    (s : IdState) (now last : ℕ)
    → now < 2 ^ 40
    → last < 2 ^ 64 - 2 ^ 24
    → (next : ℕ) × (next_value s now last ≡ ok next)
unfolding next_value
next_value-ok s now last h k = elim (Bool-cases (ltb (shr64 last 24) now)) [
  | inl later ↦ (
    shl64 now 24,
    rw (later, lt→leb (shl64 now 24) last (time_above now last h (ltb→lt _ now later))) refl,
  )
  | inr same ↦ elim (Bool-cases (bit_and last s.seq_mask == s.seq_mask)) [
    | inl full ↦ (
      shl64 (add64 (shr64 last 24) 1) 24,
      rw (same, full, lt→leb (shl64 (add64 (shr64 last 24) 1) 24) last (bump_above last k)) refl,
    )
    | inr room ↦
        (add64 last 1, rw (same, room, lt→leb (add64 last 1) last (count_above last k)) refl)
  ]
]

-- A thread that makes the two steps of a round with no step of another thread between them, while
-- the clock and the word are inside their 40 bits of milliseconds, returns an id, and it is the
-- newest that was handed out.
pub next_id_alone :
    (s : IdState) (sys : System) (i round now now' : ℕ)
    → sys.pc i ≡ spin round
    → now < 2 ^ 40
    → sys.cell < 2 ^ 64 - 2 ^ 24
    → (id : ℕ) × ((act s i now' (act s i now sys)).pc i ≡ returned (ok id))
      × (get_elem? (act s i now' (act s i now sys)).issued 0 ≡ some id)
unfolding act thread_step issued_by loaded
next_id_alone s sys i round now now' e h k =
    let (next, found) = next_value-ok s now sys.cell h k in
    let self : (i == i) ≡ true = (==_iff i i).1 refl in
    let same : (sys.cell == sys.cell) ≡ true = (==_iff sys.cell sys.cell).1 refl in
    let mid : System = record {
      cell = sys.cell;
      pc = update sys.pc i (swap round sys.cell next);
      issued = sys.issued;
    } in
    let first : act s i now sys ≡ mid = rw (e, found) refl in
    subst
      (λ m.
        (id : ℕ) × ((act s i now' m).pc i ≡ returned (ok id))
        × (get_elem? (act s i now' m).issued 0 ≡ some id))
      (sym first) (bit_or next s.masked_worker_id, rw (self, same) refl, rw (self, same) refl)
