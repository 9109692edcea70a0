-- ===== src/Massifs/Snowflake/Unique.antt =====
-- In every reachable system the ids that were handed out increase, and are those of one worker.

use go_merklelog.Base.{
  ℕ, zero, suc, ◌+◌, ◌*◌, ◌^◌, ◌<◌, ◌≤◌, ◌≡◌, inl, inr, refl, subst, sym, some, List, [], ◌∷◌, ◌++◌,
  arith,
}
use go_merklelog.Base.{◌==◌, leb, Bool-cases, ==_iff, get_elem?}
use go_merklelog.Base.Pow.{pow_pos}
use go_merklelog.Base.Results.{ok, err, panic, out_of_fuel}
use go_merklelog.Massifs.Snowflake.{
  IdState, R, Pc, spin, swap, returned, loaded, again, next_value, thread_step, issued_by, System,
  initial, update, act, Reach, start, later,
}
use go_merklelog.Massifs.Snowflake.Words.{IsGenerator, IsClean, id-eq, next_value-IsClean}

-- A swap that waits has a clean word above the one that it replaces.
abbrev pub IsReady : ℕ → Pc → Type 0
IsReady b (spin i) = Unit {0}
IsReady b (swap i last next) = (last < next) × IsClean b next
IsReady b (returned r) = Unit {0}

-- the list decreases from `top` on, and each is an id of worker `w`
abbrev pub Descending : ℕ → ℕ → ℕ → List ℕ → Type 0
Descending w b top [] = Unit {0}
Descending w b top (x ∷ xs) =
    (x < top) × ((c : ℕ) × IsClean b c × (x ≡ c + w * 2 ^ b)) × Descending w b x xs

Descending-above :
    (w b low top : ℕ) (xs : List ℕ) → low ≤ top → Descending w b low xs → Descending w b top xs
Descending-above w b low top [] h d = tt
Descending-above w b low top (x ∷ xs) h (below, id, rest) = (omega arith, id, rest)

pub record Inv (w b : ℕ) (sys : System) : Type 0 where
  pub clean : IsClean b sys.cell
  pub ready : (i : ℕ) → IsReady b (sys.pc i)
  pub ids : Descending w b (sys.cell + w * 2 ^ b + 1) sys.issued

Inv-initial : (w b : ℕ) → Inv w b initial
Inv-initial w b = record {
  clean = record { is_word = omega arith; low = omega (arith, pow_pos b) };
  ready = λ i. tt;
  ids = tt;
}

IsReady-update :
    (b : ℕ) (pc : ℕ → Pc) (i : ℕ) (p : Pc)
    → ((j : ℕ) → IsReady b (pc j))
    → IsReady b p
    → (j : ℕ) → IsReady b (update pc i p j)
IsReady-update b pc i p all new j = elim (Bool-cases (i == j)) [
  | inl same ↦ rw same new
  | inr other ↦ rw other (all j)
]

loaded-IsReady :
    {b : ℕ} (i cell : ℕ) (r : R ℕ)
    → ((next : ℕ) → r ≡ ok next → (cell < next) × IsClean b next)
    → IsReady b (loaded i cell r)
unfolding loaded
loaded-IsReady i cell (ok next) h = h next refl
loaded-IsReady i cell (err e) h = tt
loaded-IsReady i cell panic h = tt
loaded-IsReady i cell out_of_fuel h = tt

again-IsReady : (b : ℕ) (s : IdState) (i : ℕ) → IsReady b (again s i)
unfolding again
again-IsReady b s i = elim (Bool-cases (leb (i + 1) s.allow_spins)) [
  | inl more ↦ rw more tt
  | inr done ↦ rw done tt
]

module _ {s : IdState} {w b : ℕ} (g : IsGenerator s w b) where
  IsReady-loaded :
      (i cell now : ℕ) → IsClean b cell → IsReady b (loaded i cell (next_value s now cell))
  IsReady-loaded i cell now c =
      loaded-IsReady i cell (next_value s now cell) (λ next e. next_value-IsClean now cell g c e)

  -- One step of a thread, wherever it stands.
  pc_step :
      (now : ℕ) (p : Pc) (cell : ℕ) (issued : List ℕ)
      → IsClean b cell
      → IsReady b p
      → Descending w b (cell + w * 2 ^ b + 1) issued
      → IsClean b (thread_step s now p cell).0
        × IsReady b (thread_step s now p cell).1
        × Descending w b
            ((thread_step s now p cell).0 + w * 2 ^ b + 1)
            (issued_by s p cell ++ issued)
  unfolding thread_step issued_by
  pc_step now (spin i) cell issued c ready ids = (c, IsReady-loaded i cell now c, ids)
  pc_step now (swap i last next) cell issued c (above, next_clean) ids =
      elim (Bool-cases (cell == last)) [
        | inl same ↦
            let e : cell ≡ last = (==_iff cell last).0 same in
            let id = id-eq next g next_clean in
            rw (same, id)
              (
                next_clean,
                tt,
                (
                  omega arith,
                  (next, next_clean, refl),
                  Descending-above w b (cell + w * 2 ^ b + 1) (next + w * 2 ^ b) issued
                      (omega arith) ids,
                ),
              )
        | inr lost ↦ rw lost (c, again-IsReady b s i, ids)
      ]
  pc_step now (returned r) cell issued c ready ids = (c, tt, ids)

  act-Inv : (i now : ℕ) (sys : System) → Inv w b sys → Inv w b (act s i now sys)
  unfolding act
  act-Inv i now sys inv =
      let (clean, ready, ids) =
        pc_step now (sys.pc i) sys.cell sys.issued inv.clean (inv.ready i) inv.ids in
      record {
        clean = clean;
        ready = IsReady-update b sys.pc i (thread_step s now (sys.pc i) sys.cell).1 inv.ready ready;
        ids = ids;
      }

  pub Reach-Inv : {sys : System} → Reach s sys → Inv w b sys
  Reach-Inv start = Inv-initial w b
  Reach-Inv (later {t} r i now e) = subst (Inv w b) (sym e) (act-Inv i now t (Reach-Inv r))

Descending-top :
    (w b top : ℕ) (xs : List ℕ) (j : ℕ) {y : ℕ}
    → Descending w b top xs
    → get_elem? xs j ≡ some y
    → y < top
Descending-top w b top [] j d e = cc
Descending-top w b top (x ∷ xs) zero (below, id, rest) e = ground arith
Descending-top w b top (x ∷ xs) (suc j) (below, id, rest) e =
    omega (arith, Descending-top w b x xs j rest e)

-- A later id, which stands in front, is larger than an earlier one.
pub Descending-lt :
    (w b top : ℕ) (xs : List ℕ) (i j : ℕ) {x y : ℕ}
    → Descending w b top xs
    → i < j
    → get_elem? xs i ≡ some x
    → get_elem? xs j ≡ some y
    → y < x
Descending-lt w b top [] i j d h ei ej = cc
Descending-lt w b top (x ∷ xs) i zero d h ei ej = absurd (omega arith)
Descending-lt w b top (x ∷ xs) (suc i) (suc j) (below, id, rest) h ei ej =
    Descending-lt w b x xs i j rest (omega arith) ei ej
Descending-lt w b top (x ∷ xs) zero (suc j) (below, id, rest) h ei ej =
    ground (arith, Descending-top w b x xs j rest ej)

pub Descending-id :
    (w b top : ℕ) (xs : List ℕ) (j : ℕ) {y : ℕ}
    → Descending w b top xs
    → get_elem? xs j ≡ some y
    → (c : ℕ) × IsClean b c × (y ≡ c + w * 2 ^ b)
Descending-id w b top [] j d e = cc
Descending-id w b top (x ∷ xs) zero (below, (c, clean, id), rest) e = (c, clean, ground arith)
Descending-id w b top (x ∷ xs) (suc j) (below, id, rest) e = Descending-id w b x xs j rest e
