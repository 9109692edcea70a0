-- ===== src/Massifs/Context/NextId.antt =====
-- `NextIDTimestamp` of massifs/indexops_v2.go: an id for the next leaf.
use go_merklelog.Base.{
  ℕ, zero, suc, ◌+◌, ◌<◌, ◌≡◌, ap, ◌∙◌, subst, Bool, true, false, Option, none, some,
}
use go_merklelog.Base.{ltb, if◌then◌else◌, Bool-cases, Option-cases, ltb→lt}
use mathlib.Core.Logic.{inl, inr}
use mathlib.Core.Option.{some_inj}
use go_merklelog.Base.Results.{Result, ok, err, panic, out_of_fuel, ok_inj, err_not_ok}
use go_merklelog.Base.Results
use go_merklelog.Massifs.Snowflake.{
  IdError, overloaded, worker_bit_range, clock_error, sequence_violation, bad_worker_cidr,
  bad_pod_ip, mask_range, milli_epoch_overflow, cidr_error,
}
use go_merklelog.Massifs.Errors.{R, from_id, context_done, id_state_required}
use go_merklelog.Massifs.Context.{MassifContext, get_last_id_timestamp}

-- what `NextIDTimestamp` returns after a call of `NextID`, `none` where it waits and tries again
unfoldable pub id_verdict : ℕ → Result IdError ℕ → Option (R ℕ)
id_verdict last (ok id) = if ltb last id then some (ok id) else none
id_verdict last (err overloaded) = none
id_verdict last (err e) = some (err (from_id e))
id_verdict last panic = some panic
id_verdict last out_of_fuel = some out_of_fuel

-- The results of the calls of `NextID`, and whether the caller has given up at a wait, are arguments:
-- `ids n` and `given_up n` are those of round `n`.
unfoldable pub next_id_loop : ℕ → ℕ → (ℕ → Result IdError ℕ) → (ℕ → Bool) → ℕ → R ℕ
next_id_loop zero last ids given_up n = out_of_fuel
next_id_loop (suc fuel) last ids given_up n = elim (id_verdict last (ids n)) [
  | some r ↦ r
  | none ↦ elim (given_up n) [
    | true ↦ err context_done
    | false ↦ next_id_loop fuel last ids given_up (n + 1)
  ]
]

-- `none` is no generator.
unfoldable pub next_id_timestamp :
    ℕ → Option (ℕ → Result IdError ℕ) → (ℕ → Bool) → MassifContext → R ℕ
next_id_timestamp fuel none given_up mc = err id_state_required
next_id_timestamp fuel (some ids) given_up mc =
    Results.◌>>=◌ (get_last_id_timestamp mc) λ last. next_id_loop fuel last ids given_up 0

id_verdict-new :
    (last : ℕ) (result : Result IdError ℕ) (id : ℕ)
    → id_verdict last result ≡ some (ok id)
    → last < id
unfolding id_verdict
id_verdict-new last (ok i) id e = elim (Bool-cases (ltb last i)) [
  | inl more ↦
      let same : i ≡ id = ok_inj (some_inj.0 (rw more at e)) in
      subst (λ j. last < j) same (ltb→lt last i more)
  | inr less ↦ let f = rw less at e in cc
]
id_verdict-new last (err worker_bit_range) id e = cc
id_verdict-new last (err overloaded) id e = cc
id_verdict-new last (err clock_error) id e = cc
id_verdict-new last (err sequence_violation) id e = cc
id_verdict-new last (err bad_worker_cidr) id e = cc
id_verdict-new last (err bad_pod_ip) id e = cc
id_verdict-new last (err mask_range) id e = cc
id_verdict-new last (err milli_epoch_overflow) id e = cc
id_verdict-new last (err cidr_error) id e = cc
id_verdict-new last panic id e = cc
id_verdict-new last out_of_fuel id e = cc

-- An id that is returned is larger than the last one.
next_id_loop-new :
    (fuel last : ℕ) (ids : ℕ → Result IdError ℕ) (given_up : ℕ → Bool) (n id : ℕ)
    → next_id_loop fuel last ids given_up n ≡ ok id
    → last < id
unfolding next_id_loop
next_id_loop-new zero last ids given_up n id e = cc
next_id_loop-new (suc fuel) last ids given_up n id e =
    elim (Option-cases (id_verdict last (ids n))) [
      | inl waits ↦ elim (Bool-cases (given_up n)) [
        | inl stops ↦ absurd (err_not_ok (rw (next_id_loop, waits, stops) at e))
        | inr goes ↦
            next_id_loop-new fuel last ids given_up (n + 1) id (rw (next_id_loop, waits, goes) at e)
      ]
      | inr (r, ends) ↦
          id_verdict-new last (ids n) id (ends ∙ ap some (rw (next_id_loop, ends) at e))
    ]
