-- ===== src/Massifs/Context.antt =====
-- massifs/massifcontext.go and massifs/peakstack.go: a massif that can be read and appended to. A
-- method with a pointer receiver returns the context behind the call.
pub mod PeakMap
pub mod Stored
pub mod Grow
pub mod Tests
pub mod Regions
pub mod First
pub mod Fill
pub mod Index
pub mod Update
pub mod NextId
pub mod Reads
pub mod Init
pub mod Append
use go_merklelog.Base.{
  ℕ, zero, suc, ◌+◌, ◌-◌, ◌*◌, ◌/◌, ◌%◌, Bool, true, false, ◌||◌, Option, none, some, List, [], ◌∷◌,
  ◌++◌, length,
}
use go_merklelog.Base.{ltb, leb, ◌==◌, if◌then◌else◌, add64, sub64, mul64}
use go_merklelog.Base.Buffers.{Bytes, take, drop, zeros, overwrite, read_bytes, put_uint64, uint64}
use go_merklelog.Base.Results.{ok, err, panic, out_of_fuel}
use go_merklelog.Base.Results
use go_merklelog.Urkle.Sizing.{leaf_count_for_massif_height}
use go_merklelog.Mmr.IndexHeight.{index_height}
use go_merklelog.Mmr.Peaks.{peaks, leaf_count}
use go_merklelog.Massifs.Errors.{
  R, get_index_unavailable, ancestor_stack_invalid, invalid_start_record, log_value_bad_size,
  before_first_leaf, leaf_range,
}
use go_merklelog.Massifs.Layout.{
  value_bytes, log_entry_bytes, max_mmr_height, trie_header_end, index_data_bytes_v2,
  indexed_log_value, range_last_leaf_index,
}
use go_merklelog.Massifs.Start.{MassifStart, massif_current_version}

-- `none` of `next_ancestor` is -1, `none` of `peak_stack_map` is nil.
pub record MassifContext : Type 0 where
  pub data_bytes : Bytes
  pub creating : Bool
  pub start : MassifStart
  pub next_ancestor : Option ℕ
  pub peak_stack_map : Option (List (ℕ × ℕ))

-- a call on a context: how it ends, and the context behind it
abbrev pub Call : Type 0 → Type 0
Call A = MassifContext → R A × MassifContext

abbrev pub after : {A B : Type 0} → (A → Call B) → R A × MassifContext → R B × MassifContext
after f (ok a, mc) = f a mc
after f (err e, mc) = (err e, mc)
after f (panic, mc) = (panic, mc)
after f (out_of_fuel, mc) = (out_of_fuel, mc)

infixl 5 ◌>>=◌
abbrev pub ◌>>=◌ : {A B : Type 0} → Call A → (A → Call B) → Call B
◌>>=◌ m f mc = after f (m mc)

-- a call that reads the context alone
abbrev pub reading : {A : Type 0} → (MassifContext → R A) → Call A
reading f mc = (f mc, mc)

-- the loop of `PeakStackMap` over the peaks from place `i` on
unfoldable pub stack_map_loop : ℕ → ℕ → List ℕ → List (ℕ × ℕ)
stack_map_loop massif_height i [] = []
stack_map_loop massif_height i (ip ∷ peaks_left) =
    let rest = stack_map_loop massif_height (i + 1) peaks_left in
    if ltb (index_height ip) (sub64 massif_height 1) then rest else (ip, i) ∷ rest

unfoldable pub make_peak_stack_map : ℕ → ℕ → Option (List (ℕ × ℕ))
make_peak_stack_map massif_height mmr_index =
    if massif_height == 0 then none else some (stack_map_loop massif_height 0 (peaks mmr_index))

unfoldable pub create_peak_stack_map : Call (Unit {0})
create_peak_stack_map mc =
    let m = make_peak_stack_map mc.start.massif_height mc.start.first_index in
    let mc = record mc { peak_stack_map = m } in
    elim m [ none ↦ (err invalid_start_record, mc) | some entries ↦ (ok tt, mc) ]

-- An error of the size is 0.
unfoldable pub size_or_zero : R ℕ → ℕ
size_or_zero (ok size) = size
size_or_zero result = 0

unfoldable pub index_len : MassifContext → ℕ
index_len mc =
    if mc.start.version == massif_current_version
    then leaf_count_for_massif_height mc.start.massif_height
    else 0

unfoldable pub index_size : MassifContext → ℕ
index_size mc =
    if mc.start.version == massif_current_version
    then if mc.start.massif_height == 0
      then 0
      else size_or_zero (index_data_bytes_v2 (leaf_count_for_massif_height mc.start.massif_height))
    else 0

-- `IndexStart` is `trie_header_end`; `PeakStackStart` is `IndexEnd`
unfoldable pub index_end : MassifContext → ℕ
index_end mc = add64 trie_header_end (index_size mc)

unfoldable pub log_start : MassifContext → ℕ
log_start mc =
    if mc.start.version == 1 || mc.start.version == 2
    then add64 (index_end mc) (value_bytes * max_mmr_height)
    else add64 (index_end mc) (mul64 value_bytes mc.start.peak_stack_len)

-- The empty list is nil.
unfoldable pub get_last_value : MassifContext → Bytes
get_last_value mc =
    if ltb (length mc.data_bytes) value_bytes
    then []
    else drop (length mc.data_bytes - value_bytes) mc.data_bytes

unfoldable pub count : MassifContext → ℕ
count mc = sub64 (length mc.data_bytes) (log_start mc) / log_entry_bytes

unfoldable pub range_count : MassifContext → ℕ
range_count mc = add64 mc.start.first_index (count mc)

unfoldable pub last_leaf_mmr_index : MassifContext → ℕ
last_leaf_mmr_index mc = range_last_leaf_index mc.start.first_index mc.start.massif_height

unfoldable pub get_stacked_peak : ℕ → MassifContext → R Bytes
get_stacked_peak peak_stack_index mc =
    let stack_top = log_start mc in
    let stack_start = index_end mc in
    let value_start = add64 stack_start (mul64 peak_stack_index value_bytes) in
    if ltb stack_top stack_start
    then err ancestor_stack_invalid
    else if ltb stack_top (add64 value_start value_bytes)
    then err ancestor_stack_invalid
    else read_bytes mc.data_bytes value_start value_bytes

unfoldable pub lookup_peak : ℕ → List (ℕ × ℕ) → Option ℕ
lookup_peak i [] = none
lookup_peak i ((ip, place) ∷ entries) = if ip == i then some place else lookup_peak i entries

-- With no map, the stack is read from its top down, one item for each call.
unfoldable pub peak_stack_index : ℕ → Call ℕ
peak_stack_index i mc = elim mc.peak_stack_map [
  | some entries ↦ elim (lookup_peak i entries) [
    | none ↦ (err ancestor_stack_invalid, mc)
    | some place ↦ (ok place, mc)
  ]
  | none ↦ elim mc.next_ancestor [
    | none ↦ (err ancestor_stack_invalid, mc)
    | some zero ↦ (ok 0, record mc { next_ancestor = none })
    | some (suc below) ↦ (ok (suc below), record mc { next_ancestor = some below })
  ]
]

-- `mc.Data[mc.LogStart():]`, which panics where the data is shorter, and the value in it
unfoldable pub get_own : ℕ → MassifContext → R Bytes
get_own i mc =
    if leb (log_start mc) (length mc.data_bytes)
    then indexed_log_value (drop (log_start mc) mc.data_bytes) (sub64 i mc.start.first_index)
    else panic

unfoldable pub get : ℕ → Call Bytes
get i mc =
    if leb mc.start.first_index i
    then (get_own i mc, mc)
    else if mc.start.first_index == 0
    then (err get_index_unavailable, mc)
    else (peak_stack_index i >>= λ place. reading (get_stacked_peak place)) mc

unfoldable pub append : Bytes → Call ℕ
append value mc =
    if length value == value_bytes
    then (let mc = record mc { data_bytes = mc.data_bytes ++ value } in (ok (range_count mc), mc))
    else (err log_value_bad_size, mc)

unfoldable pub set_last_id_timestamp : ℕ → Call (Unit {0})
set_last_id_timestamp id mc =
    let mc = record mc { start = record mc.start { last_id = id } } in
    if leb 16 (length mc.data_bytes)
    then (ok tt, record mc { data_bytes = overwrite mc.data_bytes 8 (put_uint64 id) })
    else (panic, mc)

unfoldable pub get_last_id_timestamp : MassifContext → R ℕ
get_last_id_timestamp mc = Results.◌>>=◌ (read_bytes mc.data_bytes 8 8) λ id. ok (uint64 id)

-- The empty list is nil; data with no bytes is taken as nil, where an empty slice that is not nil
-- would panic.
unfoldable pub get_ancestor_peak_stack : MassifContext → R Bytes
get_ancestor_peak_stack mc =
    let peak_stack_start = index_end mc in
    let peak_stack_end = add64 (index_end mc) (mul64 value_bytes mc.start.peak_stack_len) in
    if peak_stack_start == peak_stack_end
    then ok []
    else if ltb peak_stack_end (add64 peak_stack_start value_bytes)
    then err ancestor_stack_invalid
    else if sub64 peak_stack_end peak_stack_start % value_bytes == 0
    then if length mc.data_bytes == 0
      then err ancestor_stack_invalid
      else read_bytes mc.data_bytes peak_stack_start (sub64 peak_stack_end peak_stack_start)
    else err ancestor_stack_invalid

-- the leaf's number in the massif, from its number in the log
unfoldable pub get_massif_leaf_index : ℕ → MassifContext → R ℕ
get_massif_leaf_index leaf mc =
    let first_leaf_index = leaf_count mc.start.first_index in
    if ltb leaf first_leaf_index
    then err before_first_leaf
    else if leb (leaf_count (range_count mc)) leaf
    then err leaf_range
    else ok (sub64 leaf first_leaf_index)

unfoldable pub massif_leaf_count : MassifContext → ℕ
massif_leaf_count mc = sub64 (leaf_count (range_count mc)) (leaf_count mc.start.first_index)
