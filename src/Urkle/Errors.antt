-- ===== src/Urkle/Errors.antt =====
-- urkle/types.go and urkle/ordinal.go: constants, node kinds and errors.
use go_merklelog.Base.{ℕ}
use go_merklelog.Base.Results.{Result}

pub data UrkleError : Type 0 where
  bad_hash_size : UrkleError
  bad_value_size : UrkleError
  leaf_table_bad_size : UrkleError
  node_store_bad_size : UrkleError
  frontier_bad_size : UrkleError
  frontier_bad_magic : UrkleError
  frontier_bad_version : UrkleError
  frontier_bad_state : UrkleError
  out_of_order_key : UrkleError
  duplicate_key : UrkleError
  invalid_node_kind : UrkleError
  invalid_branch_bit : UrkleError
  invalid_subtree_size : UrkleError
  invalid_right_span : UrkleError
  invalid_leaf_ordinal : UrkleError
  leaf_ordinal_does_not_fit : UrkleError
  empty_trie : UrkleError
  key_not_found : UrkleError
  key_present : UrkleError
  verify_inclusion_failed : UrkleError
  verify_exclusion_failed : UrkleError
  leaf_ordinal_not_present : UrkleError

abbrev pub R {ℓ} : Type ℓ → Type ℓ
R A = Result UrkleError A

abbrev pub hash_bytes : ℕ
hash_bytes = 32

-- `NoRef`
abbrev pub no_ref : ℕ
no_ref = 0xffff_ffff
