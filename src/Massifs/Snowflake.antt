-- ===== src/Massifs/Snowflake.antt =====
-- massifs/snowflakeid/nextid.go: the id generator. Its state is one word that threads share; a
-- call of `NextID` reads the word, works out the next one and swaps it in, so a thread is a state
-- machine whose steps are the calls on that word. The clock is read at each such step.
pub mod Words
pub mod Unique
pub mod Worker
pub mod Create
pub mod Time
pub mod Safety
pub mod Tests
pub mod Encoded
pub mod Alone
pub mod Generator
use Prim.Native.Nat.{bit_and, bit_or}
use go_merklelog.Base.{ℕ, ◌+◌, ◌-◌, ◌≡◌, ◌||◌, List, [], ◌∷◌, ◌++◌}
use go_merklelog.Base.{ltb, leb, ◌==◌, if◌then◌else◌, add64, sub64, shl64, shr64}
use go_merklelog.Base.Results.{Result, ok, err}

-- The errors of the package, and that of `net.ParseCIDR`, which `parseMask` wraps.
pub data IdError : Type 0 where
  worker_bit_range overloaded clock_error sequence_violation : IdError
  bad_worker_cidr bad_pod_ip mask_range milli_epoch_overflow cidr_error : IdError

abbrev pub R : Type 0 → Type 0
R A = Result IdError A

abbrev pub max_worker_bits : ℕ
max_worker_bits = 24

abbrev pub min_worker_bits : ℕ
min_worker_bits = 8

abbrev pub time_bits : ℕ
time_bits = 40

abbrev pub time_shift : ℕ
time_shift = 24

-- The fields of `IDState` that do not change; `monotonic` is in the system below.
pub record IdState : Type 0 where
  pub allow_spins : ℕ
  pub worker_id_mask : ℕ
  pub masked_worker_id : ℕ
  pub seq_mask : ℕ
  pub seq_bits : ℕ

-- the state that `initState` stores; `NewIDState` leaves the field `allowSpins` at 0
abbrev pub generator : ℕ → ℕ → IdState
generator worker_id seq_bits = record {
  allow_spins = 0;
  worker_id_mask = shl64 (sub64 (shl64 1 (max_worker_bits - seq_bits)) 1) seq_bits;
  masked_worker_id = shl64 worker_id seq_bits;
  seq_mask = sub64 (shl64 1 seq_bits) 1;
  seq_bits = seq_bits;
}

unfoldable pub init_state : ℕ → ℕ → R IdState
init_state worker_id seq_bits =
    if ltb max_worker_bits seq_bits || ltb (max_worker_bits - seq_bits) min_worker_bits
    then err worker_bit_range
    else if ltb seq_bits min_worker_bits
    then err worker_bit_range
    else ok (generator worker_id seq_bits)

-- One round of `NextID`, from the clock and the word that was loaded to the word that replaces it.
unfoldable pub next_value : IdState → ℕ → ℕ → R ℕ
next_value s now last =
    let last_time = shr64 last time_shift in
    let last_seq = bit_and last s.seq_mask in
    let next =
      if ltb last_time now
      then shl64 now time_shift
      else if last_seq == s.seq_mask
      then shl64 (add64 last_time 1) time_shift
      else add64 last 1 in
    if leb next last then err sequence_violation else ok next

-- Where a thread stands in `NextID`: before the reads of round `i`, before the swap of round `i`,
-- or behind the call.
pub data Pc : Type 0 where
  spin : ℕ → Pc
  swap : ℕ → ℕ → ℕ → Pc
  returned : R ℕ → Pc

unfoldable pub loaded : ℕ → ℕ → R ℕ → Pc
loaded i last (ok next) = swap i last next
loaded i last result = returned result

-- the round after a swap that failed
unfoldable pub again : IdState → ℕ → Pc
again s i = if leb (i + 1) s.allow_spins then spin (i + 1) else returned (err overloaded)

-- One step of a thread with the clock at `now`: the word behind the step, and where it stands then.
-- A thread whose call has returned calls `NextID` again.
unfoldable pub thread_step : IdState → ℕ → Pc → ℕ → ℕ × Pc
thread_step s now (spin i) cell = (cell, loaded i cell (next_value s now cell))
thread_step s now (swap i last next) cell =
    if cell == last
    then (next, returned (ok (bit_or next s.masked_worker_id)))
    else (cell, again s i)
thread_step s now (returned result) cell = (cell, spin 0)

-- what a step hands out
unfoldable pub issued_by : IdState → Pc → ℕ → List ℕ
issued_by s (spin i) cell = []
issued_by s (swap i last next) cell =
    if cell == last then bit_or next s.masked_worker_id ∷ [] else []
issued_by s (returned result) cell = []

-- The generator with its threads. `issued` has every id handed out so far, the newest first.
pub record System : Type 0 where
  pub cell : ℕ
  pub pc : ℕ → Pc
  pub issued : List ℕ

abbrev pub initial : System
initial = record { cell = 0; pc = λ i. spin 0; issued = [] }

abbrev pub update : (ℕ → Pc) → ℕ → Pc → ℕ → Pc
update pc i p j = if i == j then p else pc j

-- thread `i` makes a step with the clock at `now`
unfoldable pub act : IdState → ℕ → ℕ → System → System
act s i now sys =
    let (cell, p) = thread_step s now (sys.pc i) sys.cell in
    record {
      cell = cell;
      pc = update sys.pc i p;
      issued = issued_by s (sys.pc i) sys.cell ++ sys.issued;
    }

-- the systems that threads reach, in any order of steps and with any readings of the clock
pub data Reach (s : IdState) : System → Type 0 where
  start : Reach s initial
  later : {t u : System} → Reach s t → (i now : ℕ) → u ≡ act s i now t → Reach s u
