-- ===== src/Urkle/Frontier/Frames.antt =====
-- The frames of a frontier and the bytes they are written as.
use go_merklelog.Base.{
  ℕ, zero, suc, ◌+◌, ◌*◌, ◌^◌, ◌<◌, ◌≡◌, refl, sym, ap, ◌∙◌, List, [], ◌∷◌, ◌++◌, length, arith,
}
use go_merklelog.Base.{le→leb, length-append}
use mathlib.Core.List.{append-nil, append_assoc}
use go_merklelog.Base.Results.{ok, ◌>>=◌}
use go_merklelog.Base.Buffers.{
  Bytes, take, drop, overwrite, overwrite_join, read_byte, read_bytes, put_uint32,
  uint32-put_uint32,
}
use go_merklelog.Urkle.Errors.{R}
use go_merklelog.Urkle.Frontier.{Frame, write_frames, read_frames}

-- the bytes of the frames
abbrev pub frame_bytes : List Frame → Bytes
frame_bytes [] = []
frame_bytes (f ∷ frames) = (f.bit ∷ 0 ∷ 0 ∷ 0 ∷ []) ++ (put_uint32 f.left ++ frame_bytes frames)

pub length-put_uint32 : (v : ℕ) → length (put_uint32 v) ≡ 4
unfolding put_uint32
length-put_uint32 v = refl

pub write_frames-eq :
    (b pre : Bytes) (off : ℕ) (frames : List Frame)
    → off ≡ length pre
    → write_frames (overwrite b 0 pre) off frames ≡ overwrite b 0 (pre ++ frame_bytes frames)
unfolding write_frames
write_frames-eq b pre off [] e = ap (overwrite b 0) (sym (append-nil pre))
write_frames-eq b pre off (f ∷ frames) e =
    let head = f.bit ∷ 0 ∷ 0 ∷ 0 ∷ [] in
    let first = overwrite_join b 0 off pre head (omega arith) in
    let second =
      overwrite_join b 0 (off + 4) (pre ++ head) (put_uint32 f.left)
        (omega (arith, length-append pre head)) in
    rw (first, second)
      (write_frames-eq b ((pre ++ head) ++ put_uint32 f.left) (off + 8) frames (
          omega (
            arith,
            length-append (pre ++ head) (put_uint32 f.left),
            length-append pre head,
            length-put_uint32 f.left,
          ))
        ∙ ap (overwrite b 0) (
            append_assoc (pre ++ head) (put_uint32 f.left) (frame_bytes frames)
            ∙ append_assoc pre head (put_uint32 f.left ++ frame_bytes frames)))

-- reads behind a prefix
read_byte-behind :
    (pre : Bytes) (x : ℕ) (rest : Bytes) (off : ℕ)
    → off ≡ length pre
    → ◌≡◌ {A = R ℕ} (read_byte (pre ++ x ∷ rest) off) (ok x)
read_byte-behind [] x rest zero e = refl
read_byte-behind [] x rest (suc off) e = absurd (omega arith)
read_byte-behind (y ∷ pre) x rest zero e = absurd (omega arith)
read_byte-behind (y ∷ pre) x rest (suc off) e = read_byte-behind pre x rest off (omega arith)

take-drop-behind :
    (pre xs rest : Bytes) (off n : ℕ)
    → off ≡ length pre
    → n ≡ length xs
    → take n (drop off (pre ++ (xs ++ rest))) ≡ xs
take-drop-behind [] [] rest zero zero e k = refl
take-drop-behind [] [] rest zero (suc n) e k = absurd (omega arith)
take-drop-behind [] (x ∷ xs) rest zero zero e k = absurd (omega arith)
take-drop-behind [] (x ∷ xs) rest zero (suc n) e k =
    ap (◌∷◌ x) (take-drop-behind [] xs rest zero n refl (omega arith))
take-drop-behind [] xs rest (suc off) n e k = absurd (omega arith)
take-drop-behind (y ∷ pre) xs rest zero n e k = absurd (omega arith)
take-drop-behind (y ∷ pre) xs rest (suc off) n e k =
    take-drop-behind pre xs rest off n (omega arith) k

read_bytes-behind :
    (pre xs rest : Bytes) (off n : ℕ)
    → off ≡ length pre
    → n ≡ length xs
    → ◌≡◌ {A = R Bytes} (read_bytes (pre ++ (xs ++ rest)) off n) (ok xs)
unfolding read_bytes
read_bytes-behind pre xs rest off n e k =
    rw
      (
        le→leb (off + n) (length (pre ++ (xs ++ rest)))
            (omega (arith, length-append pre (xs ++ rest), length-append xs rest)),
        take-drop-behind pre xs rest off n e k,
      )
      refl

-- every left ref has 32 bits
abbrev pub AllRefs : List Frame → Type 0
AllRefs [] = Unit {0}
AllRefs (f ∷ frames) = (f.left < 2 ^ 32) × AllRefs frames

pub read_frames-frame_bytes :
    (n : ℕ) (pre : Bytes) (frames : List Frame) (rest : Bytes) (off : ℕ)
    → off ≡ length pre
    → n ≡ length frames
    → AllRefs frames
    → read_frames n (pre ++ (frame_bytes frames ++ rest)) off ≡ ok frames
unfolding read_frames
read_frames-frame_bytes zero pre [] rest off e k refs = refl
read_frames-frame_bytes zero pre (f ∷ frames) rest off e k refs = absurd (omega arith)
read_frames-frame_bytes (suc n) pre [] rest off e k refs = absurd (omega arith)
read_frames-frame_bytes (suc n) pre (f ∷ frames) rest off e k (ref, refs) =
    let head = f.bit ∷ 0 ∷ 0 ∷ 0 ∷ [] in
    let w = put_uint32 f.left in
    let fb = frame_bytes frames in
    let split : pre ++ (frame_bytes (f ∷ frames) ++ rest) ≡ (pre ++ head) ++ (w ++ (fb ++ rest)) =
      ap (λ l. pre ++ (head ++ l)) (append_assoc w fb rest)
      ∙ sym (append_assoc pre head (w ++ (fb ++ rest))) in
    let split' : pre ++ (frame_bytes (f ∷ frames) ++ rest) ≡ ((pre ++ head) ++ w) ++ (fb ++ rest) =
      split ∙ sym (append_assoc (pre ++ head) w (fb ++ rest)) in
    let left : read_bytes (pre ++ (frame_bytes (f ∷ frames) ++ rest)) (off + 4) 4 ≡ ok w =
      ap (λ l. read_bytes l (off + 4) 4) split
      ∙ read_bytes-behind (pre ++ head) w (fb ++ rest) (off + 4) 4
          (omega (arith, length-append pre head)) (sym (length-put_uint32 f.left)) in
    let rest_read : read_frames n (pre ++ (frame_bytes (f ∷ frames) ++ rest)) (off + 8)
        ≡ ok frames =
      ap (λ l. read_frames n l (off + 8)) split'
      ∙ read_frames-frame_bytes n ((pre ++ head) ++ w) frames rest (off + 8)
          (omega (
            arith,
            length-append (pre ++ head) w,
            length-append pre head,
            length-put_uint32 f.left,
          ))
          (omega arith) refs in
    rw (read_byte-behind pre f.bit ((0 ∷ 0 ∷ 0 ∷ []) ++ ((w ++ fb) ++ rest)) off e, ◌>>=◌)
      (rw (left, ◌>>=◌) (rw (rest_read, uint32-put_uint32 f.left ref, ◌>>=◌) refl))

pub length-frame_bytes : (frames : List Frame) → length (frame_bytes frames) ≡ 8 * length frames
length-frame_bytes [] = refl
length-frame_bytes (f ∷ frames) = omega (
  arith,
  length-append (put_uint32 f.left) (frame_bytes frames),
  length-put_uint32 f.left,
  length-frame_bytes frames,
)
