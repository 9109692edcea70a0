-- ===== src/Massifs/Start.antt =====
-- massifs/massifstart.go: the record at the front of a massif.
pub mod Roundtrip
pub mod Front
use go_merklelog.Base.{ℕ, ◌+◌, ◌*◌, ◌/◌, ◌++◌, [], ◌∷◌, length}
use go_merklelog.Base.{ltb, if◌then◌else◌, add64, sub64, mul64, shl64}
use go_merklelog.Base.Buffers.{
  Bytes, zeros, overwrite, read_byte, read_bytes, put_uint16, put_uint32, put_uint64, uint16,
  uint32, uint64,
}
use go_merklelog.Base.Results.{Result, ok, err, panic, out_of_fuel, ◌>>=◌}
use go_merklelog.Mmr.Leaves.{mmr_index, leaf_minus_spur_sum}
use go_merklelog.Massifs.Errors.{R, fixed_header_bad_type}
use go_merklelog.Massifs.Layout.{value_bytes, start_header_size}

abbrev pub massif_current_version : ℕ
massif_current_version = 2

pub record MassifStart : Type 0 where
  pub reserved : ℕ
  pub massif_height : ℕ
  pub data_epoch : ℕ
  pub version : ℕ
  pub commitment_epoch : ℕ
  pub massif_index : ℕ
  pub first_index : ℕ
  pub last_id : ℕ
  pub peak_stack_len : ℕ

unfoldable pub new_massif_start : ℕ → ℕ → ℕ → ℕ → ℕ → MassifStart
new_massif_start last_id commitment_epoch massif_height massif_index first_index = record {
  reserved = 0;
  massif_height = massif_height;
  data_epoch = 0;
  version = massif_current_version;
  commitment_epoch = commitment_epoch;
  massif_index = massif_index;
  first_index = first_index;
  last_id = last_id;
  peak_stack_len = 0;
}

unfoldable pub massif_first_leaf : ℕ → ℕ → ℕ
massif_first_leaf massif_height massif_index =
    let m = sub64 (shl64 1 massif_height) 1 in
    let f = add64 m 1 / 2 in mmr_index (mul64 f massif_index)

unfoldable pub encode_massif_start : ℕ → ℕ → ℕ → ℕ → ℕ → Bytes
encode_massif_start last_id version epoch massif_height massif_index =
    let start = zeros start_header_size in
    let start = overwrite start 8 (put_uint64 last_id) in
    let start = overwrite start 21 (put_uint16 version) in
    let start = overwrite start 23 (put_uint32 epoch) in
    let start = overwrite start 27 (massif_height ∷ []) in
    overwrite start 28 (put_uint32 massif_index)

-- `MarshalBinary`
unfoldable pub marshal_binary : MassifStart → Bytes
marshal_binary ms =
    encode_massif_start ms.last_id ms.version ms.commitment_epoch ms.massif_height ms.massif_index

-- The fields that the bytes determine; `data_epoch` stays as it was.
unfoldable pub read_fields : ℕ → Bytes → R MassifStart
read_fields data_epoch start = read_bytes start 0 8 >>= λ reserved.
    read_bytes start 8 8 >>= λ last_id. read_bytes start 21 2 >>= λ version.
    read_bytes start 23 4 >>= λ epoch. read_byte start 27 >>= λ massif_height.
    read_bytes start 28 4 >>= λ massif_index. ok (record {
      reserved = uint64 reserved;
      massif_height = massif_height;
      data_epoch = data_epoch;
      version = uint16 version;
      commitment_epoch = uint32 epoch;
      massif_index = uint32 massif_index;
      first_index = massif_first_leaf massif_height (uint32 massif_index);
      last_id = uint64 last_id;
      peak_stack_len = leaf_minus_spur_sum (uint32 massif_index);
    })

-- The data that is too short panics.
unfoldable pub make_massif_start : Bytes → R MassifStart
make_massif_start start = if ltb (length start) value_bytes then panic else read_fields 0 start

unfoldable pub decode_massif_start : MassifStart → Bytes → R MassifStart
decode_massif_start ms start =
    if ltb (length start) value_bytes
    then err fixed_header_bad_type
    else read_fields ms.data_epoch start
