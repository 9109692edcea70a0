-- ===== src/Massifs/Snowflake/Encoded.antt =====
-- Round trips of id timestamps, and the bytes and times that have none.
use go_merklelog.Base.{ℕ, ◌+◌, ◌-◌, ◌*◌, ◌/◌, ◌%◌, ◌^◌, ◌<◌, ◌≡◌, refl, ap, ◌∙◌, length, arith}
use go_merklelog.Base.{word, ltb, if◌then◌else◌, lt→leb, le→ltb, add64, sub64, mul64, shl64, shr64}
use go_merklelog.Base.Buffers.{Bytes, read_bytes, put_uint64, uint64-put_uint64}
use go_merklelog.Base.Results.{ok, panic, ◌>>=◌}
use go_merklelog.Massifs.Snowflake.Time.{
  epoch_ms, id_milli_split, id_unix_milli, id_time_from_unix_time, id_timestamp_bytes,
  split_id_timestamp_bytes,
}

-- An id and its epoch are read back from the nine bytes.
pub split_id_timestamp_bytes-id_timestamp_bytes :
    (id epoch : ℕ)
    → id < 2 ^ 64
    → split_id_timestamp_bytes (id_timestamp_bytes id epoch) ≡ ok (id, epoch)
unfolding split_id_timestamp_bytes id_timestamp_bytes read_bytes put_uint64
split_id_timestamp_bytes-id_timestamp_bytes id epoch h =
    ap (λ u. ok (u, epoch)) (uint64-put_uint64 id h)

-- On eight bytes, which pass the check of the length, the read of the id panics.
pub split_id_timestamp_bytes-panic : (b : Bytes) → length b ≡ 8 → split_id_timestamp_bytes b ≡ panic
unfolding split_id_timestamp_bytes read_bytes
split_id_timestamp_bytes-panic b h =
    rw (le→ltb (length b) 8 (omega arith), lt→leb (1 + 8) (length b) (omega arith), ◌>>=◌) refl

id_unix_milli-shl64 :
    (m epoch : ℕ)
    → m < 2 ^ 41
    → epoch < 256
    → id_unix_milli (shl64 m 24) epoch ≡ ok (epoch * (2 ^ 40 - 1) + m % 2 ^ 40)
unfolding id_unix_milli id_milli_split epoch_ms shl64 shr64 add64
id_unix_milli-shl64 m epoch h k =
    let ms : m * 2 ^ 24 % word / 2 ^ 24 ≡ m % 2 ^ 40 = omega arith in rw ms (ground arith)

id_time_from_unix_time-eq :
    (seconds ms : ℕ)
    → ms < 1000
    → seconds * 1000 < 256 * (2 ^ 40 - 1)
    → id_time_from_unix_time seconds ms
      ≡ (shl64 (seconds * 1000 % (2 ^ 40 - 1) + ms) 24, seconds * 1000 / (2 ^ 40 - 1))
unfolding id_time_from_unix_time epoch_ms mul64 add64 sub64
id_time_from_unix_time-eq seconds ms h k =
    let unix : seconds * 1000 % word ≡ seconds * 1000 = omega arith in
    let epoch : seconds * 1000 / (2 ^ 40 - 1) % 256 ≡ seconds * 1000 / (2 ^ 40 - 1) = omega arith in
    rw (lt→leb 1000 ms h, unix, epoch)
      (ap (λ (u : ℕ). (shl64 u 24, seconds * 1000 / (2 ^ 40 - 1))) (omega arith))

-- For times inside 256 epochs, the time of an id that was made from a time is that time, and is
-- 2 ^ 40 milliseconds early exactly where the milliseconds in the epoch, which are over 40 bits in
-- the last second of an epoch, have wrapped.
pub id_unix_milli-id_time_from_unix_time :
    (seconds ms : ℕ)
    → ms < 1000
    → seconds * 1000 < 256 * (2 ^ 40 - 1)
    → id_unix_milli (id_time_from_unix_time seconds ms).0 (id_time_from_unix_time seconds ms).1
      ≡ ok (
          if ltb (seconds * 1000 % (2 ^ 40 - 1) + ms) (2 ^ 40)
          then seconds * 1000 + ms
          else seconds * 1000 + ms - 2 ^ 40)
id_unix_milli-id_time_from_unix_time seconds ms h k =
    let r = seconds * 1000 % (2 ^ 40 - 1) + ms in
    let e = seconds * 1000 / (2 ^ 40 - 1) in
    rw (id_time_from_unix_time-eq seconds ms h k)
      (id_unix_milli-shl64 r e (omega arith) (omega arith) ∙ ap ok (ground arith))
