-- ===== src/Massifs/Reader.antt =====
-- massifs/massifreader.go and massifs/massifappendcontext.go: contexts from an object store, and back.
-- The store is a parameter: what its calls return, and the store behind them.
pub mod Committed
mod Tests
use go_merklelog.Base.{ℕ, Bool, false, some, none, length}
use go_merklelog.Base.{leb, ◌==◌, if◌then◌else◌}
use go_merklelog.Base.Buffers.{Bytes}
use go_merklelog.Base.Results.{Result, ok, err, panic, out_of_fuel}
use go_merklelog.Base.Results
use go_merklelog.Massifs.Errors.{R, does_not_exist, log_empty, from_storage, unsupported_version}
use go_merklelog.Massifs.Layout.{start_header_size}
use go_merklelog.Massifs.Start.{make_massif_start, massif_current_version}
use go_merklelog.Massifs.Context.{MassifContext, create_peak_stack_map}
use go_merklelog.Massifs.Context.Append.{
  init_append_context, create_first_massif_context, check_commit,
}

-- a call on a store of type `W`
abbrev pub StoreCall : Type 0 → Type 0 → Type 0
StoreCall W A = W → R A × W

abbrev pub after : {W A B : Type 0} → (A → StoreCall W B) → R A × W → R B × W
after f (ok a, w) = f a w
after f (err e, w) = (err e, w)
after f (panic, w) = (panic, w)
after f (out_of_fuel, w) = (out_of_fuel, w)

infixl 5 ◌>>=◌
abbrev pub ◌>>=◌ : {W A B : Type 0} → StoreCall W A → (A → StoreCall W B) → StoreCall W B
◌>>=◌ m f w = after f (m w)

abbrev pub without_store : {W A : Type 0} → R A → StoreCall W A
without_store r w = (r, w)

-- `massif_read` is `MassifReadN` with no limit; the data that `massif_data` returns may be the start.
pub record ObjectReader (W : Type 0) : Type 0 where
  pub head_index : StoreCall W ℕ
  pub massif_data : ℕ → StoreCall W Bytes
  pub massif_read : ℕ → StoreCall W Bytes

-- `put index data creating`: where `creating`, a massif that exists is an error
pub record ObjectWriter (W : Type 0) : Type 0 where
  pub put : ℕ → Bytes → Bool → StoreCall W (Unit {0})

-- a context with its peak map, or the error of the map
abbrev with_map : R (Unit {0}) × MassifContext → R MassifContext
with_map (r, mc) = Results.◌>>=◌ r λ _. ok mc

unfoldable pub context_of_data : Bytes → R MassifContext
context_of_data b = Results.◌>>=◌ (make_massif_start b) λ start. with_map (
    create_peak_stack_map (record {
      data_bytes = b;
      creating = false;
      start = start;
      next_ancestor = some 0;
      peak_stack_map = none;
    }))

-- A massif 0 that does not exist is an empty log.
unfoldable pub massif_error : {A : Type 0} → ℕ → R A → R A
massif_error i (err (from_storage does_not_exist)) =
    if i == 0 then err (from_storage log_empty) else err (from_storage does_not_exist)
massif_error i r = r

module _ {W : Type 0} (reader : ObjectReader W) where
  -- all of the data, where the store had no more than the start
  unfoldable pub whole_data : ℕ → Bytes → StoreCall W Bytes
  whole_data i b w = if leb (length b) start_header_size then reader.massif_read i w else (ok b, w)

  unfoldable pub get_massif_context : ℕ → StoreCall W MassifContext
  get_massif_context i =
      (λ w. let (r, w) = reader.massif_data i w in (massif_error i r, w)) >>= λ b.
      whole_data i b >>= λ b. without_store (context_of_data b)

  unfoldable pub get_massif_head_context : StoreCall W MassifContext
  get_massif_head_context = reader.head_index >>= λ i. get_massif_context i

  -- the head as a context to append to
  unfoldable pub prepared : MassifContext → R MassifContext
  prepared mc =
      if mc.start.version == massif_current_version
      then with_map (init_append_context mc)
      else err unsupported_version

  unfoldable pub append_context : ℕ → ℕ → R MassifContext → R MassifContext
  append_context epoch massif_height (ok mc) = prepared mc
  append_context epoch massif_height (err (from_storage log_empty)) =
      create_first_massif_context epoch massif_height
  append_context epoch massif_height r = r

  unfoldable pub get_append_context : ℕ → ℕ → StoreCall W MassifContext
  get_append_context epoch massif_height w =
      let (r, w) = get_massif_head_context w in (append_context epoch massif_height r, w)

-- A massif that is over full is not written; the context is no longer new, whatever the write returns.
unfoldable pub commit_context :
    {W : Type 0} → ObjectWriter W → MassifContext → W → R (Unit {0}) × MassifContext × W
commit_context {W = W} writer mc w = committed (check_commit mc)
  where
    committed : R (Unit {0}) → R (Unit {0}) × MassifContext × W
    committed (ok done) =
        let (r, w) = writer.put mc.start.massif_index mc.data_bytes mc.creating w in
        (r, record mc { creating = false }, w)
    committed r = (r, mc, w)
