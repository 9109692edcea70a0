-- ===== src/Massifs/Start/Roundtrip.antt =====
-- The start record of a massif (massifs/massifstart.go) is read as it was written.
use go_merklelog.Base.{ℕ, ◌^◌, ◌<◌, ◌≡◌, refl, arith}
use go_merklelog.Base.Buffers.{
  read_bytes, put_uint16, put_uint32, put_uint64, uint16-put_uint16, uint32-put_uint32,
  uint64-put_uint64,
}
use go_merklelog.Base.Results.{ok}
use go_merklelog.Mmr.Leaves.{leaf_minus_spur_sum}
use go_merklelog.Massifs.Start.{
  MassifStart, marshal_binary, encode_massif_start, read_fields, decode_massif_start,
  make_massif_start, massif_first_leaf,
}

-- the fields of the record have their widths
pub record Fits (ms : MassifStart) : Type 0 where
  pub last_id : ms.last_id < 2 ^ 64
  pub version : ms.version < 2 ^ 16
  pub commitment_epoch : ms.commitment_epoch < 2 ^ 32
  pub massif_index : ms.massif_index < 2 ^ 32

-- what the record's bytes do not hold is worked out or 0
abbrev pub reread : ℕ → MassifStart → MassifStart
reread data_epoch ms = record ms {
  reserved = 0;
  data_epoch = data_epoch;
  first_index = massif_first_leaf ms.massif_height ms.massif_index;
  peak_stack_len = leaf_minus_spur_sum ms.massif_index;
}

pub read_fields-marshal_binary :
    (data_epoch : ℕ) (ms : MassifStart)
    → Fits ms
    → read_fields data_epoch (marshal_binary ms) ≡ ok (reread data_epoch ms)
unfolding read_fields marshal_binary encode_massif_start put_uint64 put_uint32 put_uint16 read_bytes
read_fields-marshal_binary data_epoch ms fits =
    rw
      (
        uint64-put_uint64 0 (omega arith),
        uint16-put_uint16 ms.version fits.version,
        uint32-put_uint32 ms.commitment_epoch fits.commitment_epoch,
        uint32-put_uint32 ms.massif_index fits.massif_index,
        uint64-put_uint64 ms.last_id fits.last_id,
      )
      refl

-- A start record with fields of their widths is read as it was written, by either function: the id,
-- version, epoch, height and index are those that were written, the first node and the length of the
-- stack are those of that massif, and the reserved field is 0.
pub decode_massif_start-marshal_binary :
    (ms before : MassifStart)
    → Fits ms
    → (decode_massif_start before (marshal_binary ms) ≡ ok (reread before.data_epoch ms))
      × (make_massif_start (marshal_binary ms) ≡ ok (reread 0 ms))
unfolding decode_massif_start make_massif_start marshal_binary encode_massif_start put_uint64
    put_uint32 put_uint16
decode_massif_start-marshal_binary ms before fits =
    (read_fields-marshal_binary before.data_epoch ms fits, read_fields-marshal_binary 0 ms fits)
