-- ===== src/Bloom/Sizing.antt =====
-- bloom/types.go and bloom/sizing.go: constants, errors, and sizes on uint32 and uint64.
use go_merklelog.Base.{ℕ, ◌+◌, ◌*◌, ◌/◌, ◌%◌, ◌^◌, ◌<◌, ◌||◌, arith}
use go_merklelog.Base.{◌==◌, ltb, leb, if◌then◌else◌, mul64}
use go_merklelog.Base.Results.{Result, ok, err}

pub data BloomError : Type 0 where
  bad_elem_size : BloomError
  bad_filter_index : BloomError
  bad_region_size : BloomError
  not_initialized : BloomError
  bad_magic : BloomError
  bad_version : BloomError
  bad_bit_order : BloomError
  bad_k : BloomError
  bad_filters : BloomError
  bad_m_bits : BloomError
  m_bits_overflow : BloomError

abbrev pub R {ℓ} : Type ℓ → Type ℓ
R A = Result BloomError A

abbrev pub value_bytes : ℕ
value_bytes = 32

abbrev pub filters : ℕ
filters = 4

abbrev pub header_bytes : ℕ
header_bytes = 32

abbrev pub max_uint32 : ℕ
max_uint32 = 0xffff_ffff

unfoldable pub check_bpe : ℕ → R (Unit {0})
check_bpe bits_per_element =
    if bits_per_element == 0
    then err bad_m_bits
    else if ltb max_uint32 bits_per_element
    then err m_bits_overflow
    else ok tt

unfoldable pub m_bits_v1 : ℕ → ℕ → ℕ
m_bits_v1 leaf_count bits_per_element = mul64 bits_per_element leaf_count

unfoldable pub m_bits_safe_cast : ℕ → ℕ
m_bits_safe_cast m_bits = if m_bits == 0 || ltb max_uint32 m_bits then 0 else m_bits

-- The sum wraps on uint32.
unfoldable pub bitset_bytes : ℕ → ℕ
bitset_bytes m_bits = (m_bits + 7) % 2 ^ 32 / 8

unfoldable pub region_bytes : ℕ → ℕ
region_bytes m_bits = header_bytes + filters * bitset_bytes m_bits

unfoldable pub filter_bitset_off : ℕ → ℕ → R ℕ
filter_bitset_off filter_idx bytes =
    if leb filters filter_idx
    then err bad_filter_index
    else ok ((header_bytes + filter_idx * bytes % 2 ^ 32) % 2 ^ 32)

-- Where the sum does not wrap, the bitset of a filter has a byte for every bit.
pub bitset_bytes-covers :
    (m_bits j : ℕ) → m_bits + 7 < 2 ^ 32 → j < m_bits → j / 8 < bitset_bytes m_bits
unfolding bitset_bytes
bitset_bytes-covers m_bits j fits h = omega arith
