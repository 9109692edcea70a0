-- ===== src/Mmr/Errors.antt =====
-- The error values of the mmr package, and a call that reads and writes a store.
use go_merklelog.Base.{ℕ}
use go_merklelog.Base.Results.{Result, ok, err, panic, out_of_fuel}

-- `from_store` is an error that the caller's store returned.
pub data MmrError : Type 0 where
  index_out_of_range peak_list_too_short accumulator_proof_len : MmrError
  consistency_check verify_inclusion_failed : MmrError
  from_store : ℕ → MmrError

abbrev pub R : Type 0 → Type 0
R A = Result MmrError A

-- a call on a store of type `S`: how it ends, and the store behind it
abbrev pub StoreCall : Type 0 → Type 0 → Type 0
StoreCall S A = S → R A × S

abbrev pub after : {S A B : Type 0} → (A → StoreCall S B) → R A × S → R B × S
after f (ok a, s) = f a s
after f (err e, s) = (err e, s)
after f (panic, s) = (panic, s)
after f (out_of_fuel, s) = (out_of_fuel, s)

infixl 5 ◌>>=◌
abbrev pub ◌>>=◌ : {S A B : Type 0} → StoreCall S A → (A → StoreCall S B) → StoreCall S B
◌>>=◌ m f s = after f (m s)
