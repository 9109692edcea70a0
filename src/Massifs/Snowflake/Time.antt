-- ===== src/Massifs/Snowflake/Time.antt =====
-- massifs/snowflakeid/idtime.go and massifs/idtimestamp.go: the time in an id, and an id with its
-- epoch as bytes.
use go_merklelog.Base.{ℕ, ◌-◌, ◌*◌, ◌/◌, ◌%◌, ◌^◌, [], ◌∷◌, length}
use go_merklelog.Base.{ltb, leb, if◌then◌else◌, add64, sub64, mul64, shl64, shr64}
use go_merklelog.Base.Buffers.{Bytes, read_byte, read_bytes, put_uint64, uint64}
use go_merklelog.Base.Results.{Result, ok, err, ◌>>=◌}
use go_merklelog.Massifs.Snowflake.{R, time_shift, milli_epoch_overflow}

unfoldable pub epoch_ms : ℕ → ℕ
epoch_ms epoch = epoch * (2 ^ 40 - 1)

-- `uint32(id & ^TimeMask)`, which `binary` writes and reads back
unfoldable pub id_milli_split : ℕ → ℕ × ℕ
id_milli_split id = (shr64 id time_shift, id % 2 ^ 24)

unfoldable pub id_unix_milli : ℕ → ℕ → R ℕ
id_unix_milli id epoch =
    let ms = (id_milli_split id).0 in
    let start_ms = epoch_ms epoch in
    if ltb 0x7fff_ffff_ffff_ffff (add64 ms start_ms)
    then err milli_epoch_overflow
    else ok (add64 start_ms ms)

pub data IdTimestampError : Type 0 where
  bytes_too_short epoch_too_large : IdTimestampError

-- `IDToTimeParts`, seconds and milliseconds; the last part is the low 24 bits as three bytes
unfoldable pub id_to_time_parts : ℕ → ℕ × ℕ × Bytes
id_to_time_parts id =
    let ms = shr64 id time_shift in
    (ms / 1000, ms % 1000, (id / 2 ^ 16 % 256) ∷ (id / 2 ^ 8 % 256) ∷ (id % 256) ∷ [])

-- `seconds` and `ms` are not negative
unfoldable pub id_time_from_unix_time : ℕ → ℕ → ℕ × ℕ
id_time_from_unix_time seconds ms =
    let ms = if leb 1000 ms then 999 else ms in
    let unix_ms = mul64 seconds 1000 in
    let epoch = unix_ms / epoch_ms 1 % 256 in
    let unix_ms = add64 unix_ms ms in
    let unix_ms = sub64 unix_ms (epoch_ms epoch) in (shl64 unix_ms time_shift, epoch)

unfoldable pub id_timestamp_bytes : ℕ → ℕ → Bytes
id_timestamp_bytes id epoch = epoch ∷ put_uint64 id

unfoldable pub split_id_timestamp_bytes : Bytes → Result IdTimestampError (ℕ × ℕ)
split_id_timestamp_bytes b =
    if ltb (length b) 8
    then err bytes_too_short
    else read_bytes b 1 8 >>= λ id.
        if ltb 9 (length b)
        then err epoch_too_large
        else read_byte b 0 >>= λ epoch. ok (uint64 id, epoch)
