-- ===== src/Massifs/Snowflake/Tests.antt =====
-- Runs of the id generator, and its theorems at concrete inputs.

use go_merklelog.Base.{
  if◌then◌else◌, ℕ, ◌+◌, ◌*◌, ◌^◌, ◌-◌, ◌<◌, ◌≡◌, ◌≢◌, true, refl, some, none, [], ◌∷◌, ◌++◌,
  get_elem?, arith,
}
use go_merklelog.Base.{add64, sub64, shl64, shr64, bytes_equal}
use go_merklelog.Base.Bits.{len64}
use go_merklelog.Base.Buffers.{zeros, read_bytes, uint16}
use go_merklelog.Base.Results.{ok, err, panic, ◌>>=◌}
use go_merklelog.Massifs.Snowflake.{
  IdState, generator, next_value, spin, swap, returned, loaded, again, thread_step, issued_by,
  System, initial, act, Reach, start, later, init_state, overloaded,
}
use go_merklelog.Massifs.Snowflake.Words.{IsGenerator}
use go_merklelog.Massifs.Snowflake.Safety.{ids_increase, workers_apart}
use go_merklelog.Massifs.Snowflake.Worker.{
  Net, worker_id_sequence_bits, parse_mask, parse_private_ip, check_mask, invert_ip_mask, ip_mask,
  short_mask, short_ip, and_mask, and_bytes,
}
use go_merklelog.Massifs.Snowflake.Create.{Config, new_id_state, init_time}
use go_merklelog.Massifs.Snowflake.Generator.{generator-IsGenerator, new_id_state-one_try}
use go_merklelog.Massifs.Snowflake.Alone.{next_id_alone}
use go_merklelog.Massifs.Snowflake.Time.{
  id_unix_milli, id_time_from_unix_time, split_id_timestamp_bytes,
}
use go_merklelog.Massifs.Snowflake.Encoded.{id_unix_milli-id_time_from_unix_time}

-- a generator with 16 bits for its worker
abbrev gen : IdState
gen = generator 5 8

abbrev gen_IsGenerator : IsGenerator gen 5 8
gen_IsGenerator = generator-IsGenerator 5 16 (omega arith) (omega arith) (omega arith)

-- thread 0 loads, thread 1 loads and swaps, thread 0 loses its swap, calls again and gets an id
abbrev contended : System
contended =
    act gen 0 7
      (act gen 0 7 (act gen 0 7 (act gen 0 7 (act gen 1 7 (act gen 1 7 (act gen 0 7 initial))))))

contended-Reach : Reach gen contended
contended-Reach =
    later
      (later
        (later (later (later (later (later start 0 7 refl) 1 7 refl) 1 7 refl) 0 7 refl) 0 7 refl) 0
        7 refl)
      0 7 refl

contended_issued : contended.issued ≡ (7 * 2 ^ 24 + 5 * 2 ^ 8 + 1) ∷ (7 * 2 ^ 24 + 5 * 2 ^ 8) ∷ []
unfolding act thread_step issued_by next_value loaded again add64 sub64 shl64 shr64
contended_issued = refl

contended_idle : contended.pc 3 ≡ spin 0
unfolding act
contended_idle = refl

contended_cell : contended.cell < 2 ^ 64 - 2 ^ 24
unfolding act thread_step next_value loaded again add64 sub64 shl64 shr64
contended_cell = omega arith

next_id_alone_example :
    (id : ℕ) × ((act gen 3 9 (act gen 3 9 contended)).pc 3 ≡ returned (ok id))
    × (get_elem? (act gen 3 9 (act gen 3 9 contended)).issued 0 ≡ some id)
next_id_alone_example =
    next_id_alone gen contended 3 0 9 9 contended_idle (omega arith) contended_cell

-- The network 10.0.0.0/16, the address 10.0.0.5, and every other text refused.
abbrev net : Net
net = record {
  parse_cidr = λ text. if bytes_equal text (1 ∷ []) then some (255 ∷ 255 ∷ 0 ∷ 0 ∷ []) else none;
  parse_ip = λ text.
      if bytes_equal text (2 ∷ [])
      then some (zeros 10 ++ (255 ∷ 255 ∷ 10 ∷ 0 ∷ 0 ∷ 5 ∷ []))
      else none;
  is_private = λ ip. true;
}

abbrev config : Config
config = record { commitment_epoch = 1; worker_cidr = 1 ∷ []; pod_ip = 2 ∷ []; allow_spins = 100 }

net_ids : worker_id_sequence_bits net (1 ∷ []) (2 ∷ []) ≡ ok (5, 8)
unfolding worker_id_sequence_bits parse_mask parse_private_ip check_mask invert_ip_mask ip_mask
    short_mask short_ip and_mask and_bytes bytes_equal read_bytes uint16 len64
net_ids = refl

net_state : new_id_state net 0 config ≡ ok gen
unfolding new_id_state worker_id_sequence_bits parse_mask parse_private_ip check_mask invert_ip_mask
    ip_mask short_mask short_ip and_mask and_bytes bytes_equal read_bytes uint16 len64 init_time
    init_state
net_state = refl

ids_increase_example : 7 * 2 ^ 24 + 5 * 2 ^ 8 < 7 * 2 ^ 24 + 5 * 2 ^ 8 + 1
ids_increase_example =
    ids_increase net 0 config 0 1 net_state contended-Reach (omega arith) (rw contended_issued refl)
      (rw contended_issued refl)

-- the next address of the network
abbrev other_net : Net
other_net = record net {
  parse_ip = λ text.
      if bytes_equal text (2 ∷ [])
      then some (zeros 10 ++ (255 ∷ 255 ∷ 10 ∷ 0 ∷ 0 ∷ 6 ∷ []))
      else none;
}

abbrev other_gen : IdState
other_gen = generator 6 8

other_ids : worker_id_sequence_bits other_net (1 ∷ []) (2 ∷ []) ≡ ok (6, 8)
unfolding worker_id_sequence_bits parse_mask parse_private_ip check_mask invert_ip_mask ip_mask
    short_mask short_ip and_mask and_bytes bytes_equal read_bytes uint16 len64
other_ids = refl

other_state : new_id_state other_net 0 config ≡ ok other_gen
unfolding new_id_state init_time init_state
other_state = rw (other_ids, ◌>>=◌) refl

abbrev other_run : System
other_run = act other_gen 0 7 (act other_gen 0 7 initial)

other_run-Reach : Reach other_gen other_run
other_run-Reach = later (later start 0 7 refl) 0 7 refl

other_issued : other_run.issued ≡ (7 * 2 ^ 24 + 6 * 2 ^ 8) ∷ []
unfolding act thread_step issued_by next_value loaded again add64 sub64 shl64 shr64
other_issued = refl

workers_apart_example : ◌≢◌ {A = ℕ} (7 * 2 ^ 24 + 5 * 2 ^ 8) (7 * 2 ^ 24 + 6 * 2 ^ 8)
workers_apart_example =
    workers_apart net other_net 0 0 config config 1 0 net_state other_state net_ids other_ids
      (λ e. omega arith) contended-Reach other_run-Reach (rw contended_issued refl)
      (rw other_issued refl)

new_id_state-one_try_example : thread_step gen 7 (swap 0 3 4) 5 ≡ (5, returned (err overloaded))
new_id_state-one_try_example =
    new_id_state-one_try net 0 config 0 7 3 4 5 net_state (λ e. omega arith)

id_unix_milli-id_time_from_unix_time_example :
    (id_unix_milli
        (id_time_from_unix_time 2_199_023_255 600).0
        (id_time_from_unix_time 2_199_023_255 600).1
      ≡ ok 1_099_511_627_824)
id_unix_milli-id_time_from_unix_time_example =
    id_unix_milli-id_time_from_unix_time 2_199_023_255 600 (omega arith) (omega arith)

eight_bytes : split_id_timestamp_bytes (zeros 8) ≡ panic
unfolding split_id_timestamp_bytes read_bytes
eight_bytes = refl
