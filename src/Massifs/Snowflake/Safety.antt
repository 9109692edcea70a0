-- ===== src/Massifs/Snowflake/Safety.antt =====
-- The ids of a generator that `NewIDState` made are unique, in one process and across workers.
use go_merklelog.Base.{ℕ, ◌<◌, ◌≡◌, ◌≢◌, some, sym, subst, ◌∙◌, get_elem?}
use go_merklelog.Base.Results.{ok, ok_inj}
use go_merklelog.Massifs.Snowflake.{IdState, System, Reach}
use go_merklelog.Massifs.Snowflake.Words.{IsGenerator, id-worker}
use go_merklelog.Massifs.Snowflake.Unique.{Descending-lt, Descending-id, Reach-Inv}
use go_merklelog.Massifs.Snowflake.Worker.{Net, worker_id_sequence_bits}
use go_merklelog.Massifs.Snowflake.Create.{Config, new_id_state}
use go_merklelog.Massifs.Snowflake.Generator.{new_id_state-IsGenerator}

module _ (net : Net) (generator_start : ℕ) (cfg : Config) where
  -- Whatever the order of the threads' steps and the readings of the clock, an id of a generator
  -- that `NewIDState` made is larger than every id that the generator handed out before it.
  pub ids_increase :
      {s : IdState} {sys : System} (i j : ℕ) {x y : ℕ}
      → new_id_state net generator_start cfg ≡ ok s
      → Reach s sys
      → i < j
      → get_elem? sys.issued i ≡ some x
      → get_elem? sys.issued j ≡ some y
      → y < x
  ids_increase {sys = sys} i j made r h ei ej =
      let (w, b, _, g) = new_id_state-IsGenerator net generator_start cfg made in
      Descending-lt w b _ sys.issued i j (Reach-Inv g r).ids h ei ej

-- Two generators that `NewIDState` made, with different worker ids and equally many bits for the
-- sequence number, hand out no id in common, whatever their threads and clocks do.
pub workers_apart :
    (net net' : Net) (generator_start generator_start' : ℕ) (cfg cfg' : Config) {s s' : IdState}
    {w w' b : ℕ} {sys sys' : System} (i j : ℕ) {x y : ℕ}
    → new_id_state net generator_start cfg ≡ ok s
    → new_id_state net' generator_start' cfg' ≡ ok s'
    → worker_id_sequence_bits net cfg.worker_cidr cfg.pod_ip ≡ ok (w, b)
    → worker_id_sequence_bits net' cfg'.worker_cidr cfg'.pod_ip ≡ ok (w', b)
    → w ≢ w'
    → Reach s sys
    → Reach s' sys'
    → get_elem? sys.issued i ≡ some x
    → get_elem? sys'.issued j ≡ some y
    → x ≢ y
workers_apart net net' t t' cfg cfg' {s} {s'} {w} {w'} {b} {sys} {sys'} i j made made' ids ids'
      other r r' e e' same =
    let (w0, b0, found, g0) = new_id_state-IsGenerator net t cfg made in
    let (w1, b1, found', g1) = new_id_state-IsGenerator net' t' cfg' made' in
    let one : IsGenerator s w b =
      subst (λ p. IsGenerator s p.0 p.1) (ok_inj (sym found ∙ ids)) g0 in
    let two : IsGenerator s' w' b =
      subst (λ p. IsGenerator s' p.0 p.1) (ok_inj (sym found' ∙ ids')) g1 in
    let (c, clean, id) = Descending-id w b _ sys.issued i (Reach-Inv one r).ids e in
    let (c', clean', id') = Descending-id w' b _ sys'.issued j (Reach-Inv two r').ids e' in
    other (id-worker c c' one two clean clean' (sym id ∙ (same ∙ id')))
