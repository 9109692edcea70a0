-- ===== src/Massifs/Snowflake/Create.antt =====
-- massifs/snowflakeid/config.go and `NewIDState` of nextid.go.
use go_merklelog.Base.{ℕ}
use go_merklelog.Base.{ltb, if◌then◌else◌}
use go_merklelog.Base.Buffers.{Bytes}
use go_merklelog.Base.Results.{ok, err, ◌>>=◌}
use go_merklelog.Massifs.Snowflake.{R, IdState, clock_error, init_state}
use go_merklelog.Massifs.Snowflake.Worker.{Net, worker_id_sequence_bits}

pub record Config : Type 0 where
  pub commitment_epoch : ℕ
  pub worker_cidr : Bytes
  pub pod_ip : Bytes
  pub allow_spins : ℕ

-- nanoseconds from the unix epoch to 2261-01-01 01:01:01.000000001
abbrev pub unix_nano_epoch_end_sentinel : ℕ
unix_nano_epoch_end_sentinel = 9183114061000000001

-- `initTime`, for the clock at `generator_start` in nanoseconds from the unix epoch. The start
-- offsets that it stores only serve the readings of the clock.
unfoldable pub init_time : ℕ → R (Unit {0})
init_time generator_start =
    if ltb unix_nano_epoch_end_sentinel generator_start then err clock_error else ok tt

unfoldable pub new_id_state : Net → ℕ → Config → R IdState
new_id_state net generator_start cfg =
    worker_id_sequence_bits net cfg.worker_cidr cfg.pod_ip >>= λ (worker_id, seq_bits).
    init_time generator_start >>= λ _. init_state worker_id seq_bits
