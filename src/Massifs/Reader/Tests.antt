-- ===== src/Massifs/Reader/Tests.antt =====
-- A store of objects, and what is committed to it and read back.
use go_merklelog.Base.{ℕ, ◌≡◌, refl, sym, ap, ◌∙◌, true, false, none, [], ◌++◌, arith}
use go_merklelog.Base.{◌==◌, ==_iff, if◌then◌else◌, add64, sub64, mul64, shl64, shr64}
use go_merklelog.Base.Bits.{len64, ones_count64, trailing_zeros64}
use go_merklelog.Base.Buffers.{Bytes, zeros, put_uint16, put_uint32, put_uint64}
use go_merklelog.Base.Results.{ok, ok_inj}
use go_merklelog.Massifs.Errors.{R}
use go_merklelog.Massifs.Start.{MassifStart, marshal_binary, encode_massif_start}
use go_merklelog.Massifs.Context.{
  MassifContext, range_count, count, log_start, index_end, index_size, size_or_zero,
}
use go_merklelog.Massifs.Layout.{index_data_bytes_v2, bloom_m_bits_v1_for_leaf_count}
use go_merklelog.Mmr.IndexHeight.{height_size}
use go_merklelog.Mmr.Leaves.{mmr_index, mmr_index_loop, spur_height_leaf}
use go_merklelog.Bloom.Sizing.{m_bits_v1, m_bits_safe_cast, region_bytes, bitset_bytes}
use go_merklelog.Urkle.Sizing.{leaf_count_for_massif_height, leaf_table_bytes, node_store_bytes}
use go_merklelog.Urkle.Builder.{node_count_max}
use go_merklelog.Massifs.Context.Append.{check_commit}
use go_merklelog.Massifs.Reader.{ObjectReader, ObjectWriter, get_massif_context, commit_context}
use go_merklelog.Massifs.Reader.Committed.{
  IsStore, read_in_full, read_back, get_massif_context-commit_context,
}

abbrev Objects : Type 0
Objects = ℕ → Bytes

abbrev replaced : ℕ → Bytes → Objects → Objects
replaced i b objects j = if j == i then b else objects j

-- the objects, and what was read of them; a put leaves what was read
abbrev Cached : Type 0
Cached = Objects × Objects

abbrev reader : ObjectReader Cached
reader = record {
  head_index = λ w. (ok 0, w);
  massif_data = λ i w. (ok (w.1 i), w);
  massif_read = λ i w. (ok (w.0 i), (w.0, replaced i (w.0 i) w.1));
}

abbrev writer : ObjectWriter Cached
writer = record { put = λ i b creating w. (ok tt, (replaced i b w.0, w.1)) }

replaced-same : (i : ℕ) (b : Bytes) (objects : Objects) → replaced i b objects i ≡ b
replaced-same i b objects = rw ((==_iff i i).1 refl) refl

stored_bytes :
    (i : ℕ) (b : Bytes) (w w' : Cached)
    → ◌≡◌ {A = R (Unit {0}) × Cached} (ok tt, (replaced i b w.0, w.1)) (ok tt, w')
    → w'.0 i ≡ b
stored_bytes i b w w' e = ap (λ r. r.1.0 i) (sym e) ∙ replaced-same i b w.0

read_bytes_of :
    (i : ℕ) (b : Bytes) (w w' : Cached)
    → ◌≡◌ {A = R Bytes × Cached} (ok (w.0 i), (w.0, replaced i (w.0 i) w.1)) (ok b, w')
    → (w'.0 i ≡ b) × (w'.1 i ≡ b)
read_bytes_of i b w w' e =
    let same : w.0 i ≡ b = ok_inj (ap (λ r. r.0) e) in
    (
      ap (λ r. r.1.0 i) (sym e) ∙ same,
      ap (λ r. r.1.1 i) (sym e) ∙ (replaced-same i (w.0 i) w.1 ∙ same),
    )

store : IsStore reader writer
store = record {
  reads_put = λ i b creating w w' e. (
    (w'.0, replaced i (w'.0 i) w'.1),
    ap (λ c. (ok c, (w'.0, replaced i (w'.0 i) w'.1))) (stored_bytes i b w w' e),
  );
  reads_again = λ i b w w' e. (
    (w'.0, replaced i (w'.0 i) w'.1),
    ap (λ c. (ok c, (w'.0, replaced i (w'.0 i) w'.1))) (read_bytes_of i b w w' e).0,
  );
  cached = λ i b w w' e. ap (λ c. (ok c, w')) (read_bytes_of i b w w' e).1;
}

-- a new massif of one leaf with no node in it
abbrev fresh : MassifContext
fresh = record {
  data_bytes = marshal_binary one ++ zeros 2824;
  creating = true;
  start = one;
  next_ancestor = none;
  peak_stack_map = none;
}
  where
    one : MassifStart
    one = record {
      reserved = 0;
      massif_height = 1;
      data_epoch = 0;
      version = 2;
      commitment_epoch = 1;
      massif_index = 0;
      first_index = 0;
      last_id = 0;
      peak_stack_len = 0;
    }

fresh-check_commit : check_commit fresh ≡ ok tt
unfolding check_commit height_size mmr_index mmr_index_loop spur_height_leaf trailing_zeros64
    range_count count log_start index_end index_size size_or_zero index_data_bytes_v2
    bloom_m_bits_v1_for_leaf_count leaf_count_for_massif_height m_bits_v1 m_bits_safe_cast
    region_bytes bitset_bytes leaf_table_bytes node_store_bytes node_count_max add64 sub64 mul64
    shl64 shr64 len64 ones_count64 marshal_binary encode_massif_start put_uint16 put_uint32
    put_uint64
fresh-check_commit = refl

-- what is left in the cache of an object that was longer than a start
abbrev stale : Cached
stale = ((λ i. []), (λ i. zeros 300))

abbrev put_fresh : Cached
put_fresh = (replaced 0 fresh.data_bytes stale.0, stale.1)

abbrev read_fresh : Cached
read_fresh = (put_fresh.0, replaced 0 fresh.data_bytes stale.1)

get_massif_context-commit_context_example :
    (commit_context writer fresh stale ≡ (ok tt, record fresh { creating = false }, put_fresh))
    × (end : Cached) × (get_massif_context reader 0 read_fresh ≡ (ok (read_back fresh), end))
get_massif_context-commit_context_example =
    get_massif_context-commit_context reader writer store fresh (zeros 2824) stale put_fresh
      read_fresh
      (record {
        last_id = omega arith;
        version = omega arith;
        commitment_epoch = omega arith;
        massif_index = omega arith;
      })
      (λ e. omega arith) refl fresh-check_commit refl (read_in_full fresh.data_bytes refl)
