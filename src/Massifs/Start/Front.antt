-- ===== src/Massifs/Start/Front.antt =====
-- The start record of a massif (massifs/massifstart.go) is read from the front of longer data.
use go_merklelog.Base.{ℕ, zero, suc, ◌+◌, ◌≤◌, ◌≡◌, refl, [], ◌∷◌, ◌++◌, length, arith}
use go_merklelog.Base.{le→leb, le→ltb, length-append}
use go_merklelog.Base.Buffers.{Bytes, drop, length-overwrite, read_bytes, read_byte}
use go_merklelog.Base.Buffers.Values.{take-append, drop-append, length-drop}
use go_merklelog.Base.Results.{ok}
use go_merklelog.Massifs.Errors.{R}
use go_merklelog.Massifs.Start.{
  MassifStart, marshal_binary, encode_massif_start, read_fields, make_massif_start,
}
use go_merklelog.Massifs.Start.Roundtrip.{Fits, reread, read_fields-marshal_binary}

read_bytes-front :
    (a rest : Bytes) (off n : ℕ)
    → off + n ≤ length a
    → ◌≡◌ {A = R Bytes} (read_bytes (a ++ rest) off n) (read_bytes a off n)
unfolding read_bytes
read_bytes-front a rest off n h =
    let long : off + n ≤ length (a ++ rest) = omega (arith, length-append a rest) in
    rw
      (
        le→leb (off + n) (length (a ++ rest)) long,
        le→leb (off + n) (length a) h,
        drop-append off a rest (omega arith),
        take-append n (drop off a) rest (omega (arith, length-drop off a (omega arith))),
      )
      refl

read_byte-front :
    (a rest : Bytes) (i : ℕ)
    → i + 1 ≤ length a
    → ◌≡◌ {A = R ℕ} (read_byte (a ++ rest) i) (read_byte a i)
read_byte-front [] rest i h = absurd (omega arith)
read_byte-front (x ∷ a) rest zero h = refl
read_byte-front (x ∷ a) rest (suc i) h = read_byte-front a rest i (omega arith)

read_fields-front :
    (data_epoch : ℕ) (a rest : Bytes)
    → 32 ≤ length a
    → read_fields data_epoch (a ++ rest) ≡ read_fields data_epoch a
unfolding read_fields
read_fields-front data_epoch a rest h =
    rw
      (
        read_bytes-front a rest 0 8 (omega arith),
        read_bytes-front a rest 8 8 (omega arith),
        read_bytes-front a rest 21 2 (omega arith),
        read_bytes-front a rest 23 4 (omega arith),
        read_byte-front a rest 27 (omega arith),
        read_bytes-front a rest 28 4 (omega arith),
      )
      refl

pub length-marshal_binary : (ms : MassifStart) → length (marshal_binary ms) ≡ 256
unfolding marshal_binary encode_massif_start
length-marshal_binary ms = simp length-overwrite refl

-- Data that begins with the bytes of a start record is read as that record.
pub make_massif_start-front :
    (ms : MassifStart) (rest : Bytes)
    → Fits ms
    → make_massif_start (marshal_binary ms ++ rest) ≡ ok (reread 0 ms)
unfolding make_massif_start
make_massif_start-front ms rest fits =
    let h : 32 ≤ length (marshal_binary ms) = omega (arith, length-marshal_binary ms) in
    rw
      (
        le→ltb (length (marshal_binary ms ++ rest)) 32
            (omega (arith, length-append (marshal_binary ms) rest)),
        read_fields-front 0 (marshal_binary ms) rest h,
      )
      (read_fields-marshal_binary 0 ms fits)
