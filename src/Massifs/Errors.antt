-- ===== src/Massifs/Errors.antt =====
-- massifs/errors.go and the errors that the massif code makes where they arise.

use go_merklelog.Base.{ℕ}
use go_merklelog.Base.Results.{Result, ok, err, panic, out_of_fuel}
use go_merklelog.Mmr.Errors.{MmrError, from_store}
use go_merklelog.Bloom.Sizing.{BloomError}
use go_merklelog.Massifs.Snowflake.{IdError}
use go_merklelog.Urkle.Errors.{UrkleError}

-- the errors of an object store (massifs/storage) that the code tells apart, and the others
pub data StorageError : Type 0 where
  does_not_exist log_empty : StorageError
  other : ℕ → StorageError

pub data MassifError : Type 0 where
  get_index_unavailable before_first_leaf massif_data_length_invalid leaf_range : MassifError
  massif_full ancestor_stack_invalid state_root_missing : MassifError
  state_size_before_massif_start consistency_proof_check inconsistent_state : MassifError
  fixed_header_bad_type log_value_bad_size : MassifError
  index_size_overflow region_out_of_range unsupported_version invalid_massif_height : MassifError
  bad_value_size start_word_out_of_range extra_data_too_large leaf_ordinal_mismatch : MassifError
  invalid_start_record : MassifError
  leaf_count_too_large : MassifError
  id_state_required context_done : MassifError
  from_id : IdError → MassifError
  from_storage : StorageError → MassifError
  from_mmr : MmrError → MassifError
  from_bloom : BloomError → MassifError
  from_urkle : UrkleError → MassifError

abbrev pub R {ℓ} : Type ℓ → Type ℓ
R A = Result MassifError A

-- the result of a call into another package
abbrev pub lift {ℓ} : {E : Type 0} {A : Type ℓ} → (E → MassifError) → Result E A → R A
lift f (ok a) = ok a
lift f (err e) = err (f e)
lift f panic = panic
lift f out_of_fuel = out_of_fuel

-- an error of `Get` or `Append` as the mmr package returns it
abbrev pub as_store : {A : Type 0} → R A → Result MmrError A
as_store (ok a) = ok a
as_store (err (from_mmr e)) = err e
as_store (err log_value_bad_size) = err (from_store 1)
as_store (err get_index_unavailable) = err (from_store 2)
as_store (err ancestor_stack_invalid) = err (from_store 3)
as_store (err e) = err (from_store 0)
as_store panic = panic
as_store out_of_fuel = out_of_fuel
