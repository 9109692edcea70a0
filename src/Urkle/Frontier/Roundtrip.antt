-- ===== src/Urkle/Frontier/Roundtrip.antt =====
-- A frontier that is encoded is decoded again.
use go_merklelog.Base.{
  ℕ, ◌+◌, ◌*◌, ◌^◌, ◌<◌, ◌≤◌, ◌≡◌, refl, sym, ◌∙◌, false, ◌&&◌, some, [], ◌∷◌, ◌++◌, length, arith,
}
use go_merklelog.Base.{◌==◌, ltb, le→leb, le→ltb, if◌then◌else◌, length-append, bytes_equal}
use mathlib.Core.List.{append_assoc}
use go_merklelog.Base.Results.{ok, ◌>>=◌}
use go_merklelog.Base.Buffers.{
  Bytes, take, drop, overwrite, overwrite_join, overwrite_front, read_byte, read_bytes, put_uint32,
  put_uint64, uint32-put_uint32, uint64-put_uint64,
}
use go_merklelog.Urkle.Errors.{R, no_ref}
use go_merklelog.Urkle.Frontier.Frames.{
  AllRefs, frame_bytes, write_frames-eq, read_frames-frame_bytes, length-frame_bytes,
}
use go_merklelog.Urkle.Frontier.{
  FrontierStateV1, frontier_magic, encode_frontier, read_frames, decode_state, decode_version,
  decode_frontier,
}

-- the state's 32 bytes before the frames
abbrev head_bytes : FrontierStateV1 → Bytes
head_bytes st =
    let front = frontier_magic ++ (1 ∷ 64 ∷ 0 ∷ 0 ∷ []) in
    let keys = (front ++ put_uint64 st.last_key) ++ put_uint32 st.pending in
    ((keys ++ put_uint32 st.next) ++ (st.depth ∷ 0 ∷ 0 ∷ 0 ∷ [])) ++ put_uint32 st.next_leaf

pending_word : (p : ℕ) → (if p == no_ref then 0xffff_ffff else p) ≡ p
pending_word p = ground arith

encode_frontier-eq :
    (dst : Bytes) (st : FrontierStateV1)
    → 544 ≤ length dst
    → encode_frontier dst st ≡ (ok tt, overwrite dst 0 (head_bytes st ++ frame_bytes st.frames))
unfolding encode_frontier put_uint32 put_uint64
encode_frontier-eq dst st long =
    let front = frontier_magic ++ (1 ∷ 64 ∷ 0 ∷ 0 ∷ []) in
    let keyed = front ++ put_uint64 st.last_key in
    let pended = keyed ++ put_uint32 st.pending in
    let nexted = pended ++ put_uint32 st.next in
    let deep = nexted ++ (st.depth ∷ 0 ∷ 0 ∷ 0 ∷ []) in
    rw
      (
        le→ltb (length dst) 544 long,
        pending_word st.pending,
        overwrite_join dst 0 4 frontier_magic (1 ∷ 64 ∷ 0 ∷ 0 ∷ []) refl,
        overwrite_join dst 0 8 front (put_uint64 st.last_key) refl,
        overwrite_join dst 0 16 keyed (put_uint32 st.pending) refl,
        overwrite_join dst 0 20 pended (put_uint32 st.next) refl,
        overwrite_join dst 0 24 nexted (st.depth ∷ 0 ∷ 0 ∷ 0 ∷ []) refl,
        overwrite_join dst 0 28 deep (put_uint32 st.next_leaf) refl,
        write_frames-eq dst (head_bytes st) 32 st.frames refl,
      )
      refl

-- the fields have their widths, and a frontier below the root has a node to attach
pub record IsFrontierState (st : FrontierStateV1) : Type 0 where
  pub last_key_width : st.last_key < 2 ^ 64
  pub pending_width : st.pending < 2 ^ 32
  pub next_width : st.next < 2 ^ 32
  pub next_leaf_width : st.next_leaf < 2 ^ 32
  pub depth_bound : st.depth ≤ 64
  pub some_pending : (ltb 0 st.depth && st.pending == no_ref) ≡ false
  pub all_frames : length st.frames ≡ 64
  pub refs : AllRefs st.frames

abbrev Reads : Bytes → ℕ → ℕ → Bytes → Type 0
Reads src off n xs = ◌≡◌ {A = R Bytes} (read_bytes src off n) (ok xs)

read_bytes-take :
    (src : Bytes) (off n : ℕ)
    → off + n ≤ length src
    → ◌≡◌ {A = R Bytes} (read_bytes src off n) (ok (take n (drop off src)))
unfolding read_bytes
read_bytes-take src off n h = rw (le→leb (off + n) (length src) h) refl

length-string :
    (st : FrontierStateV1)
    → length (head_bytes st ++ frame_bytes st.frames) ≡ 32 + 8 * length st.frames
unfolding put_uint32 put_uint64
length-string st = omega (arith, length-frame_bytes st.frames)

-- the state from what the reads return
decode_state-eq :
    (src : Bytes) (st : FrontierStateV1)
    → IsFrontierState st
    → Reads src 8 8 (put_uint64 st.last_key)
    → Reads src 16 4 (put_uint32 st.pending)
    → Reads src 20 4 (put_uint32 st.next)
    → ◌≡◌ {A = R ℕ} (read_byte src 24) (ok st.depth)
    → Reads src 28 4 (put_uint32 st.next_leaf)
    → read_frames 64 src 32 ≡ ok st.frames
    → decode_state src ≡ ok (some st)
unfolding decode_state
decode_state-eq src st good key pending next depth leaf frames =
    rw (key, ◌>>=◌)
      (rw (pending, ◌>>=◌)
        (rw (next, ◌>>=◌)
          (rw (depth, ◌>>=◌)
            (rw (leaf, uint32-put_uint32 st.pending good.pending_width, ◌>>=◌)
              (rw
                (
                  pending_word st.pending,
                  le→ltb 64 st.depth good.depth_bound,
                  good.some_pending,
                  frames,
                  uint64-put_uint64 st.last_key good.last_key_width,
                  uint32-put_uint32 st.next good.next_width,
                  uint32-put_uint32 st.next_leaf good.next_leaf_width,
                  ◌>>=◌,
                )
                refl)))))

decode_frontier-bytes :
    (st : FrontierStateV1) (rest : Bytes)
    → IsFrontierState st
    → decode_frontier (head_bytes st ++ (frame_bytes st.frames ++ rest)) ≡ ok (some st)
unfolding decode_frontier decode_version put_uint32 put_uint64 bytes_equal
decode_frontier-bytes st rest good =
    let src = head_bytes st ++ (frame_bytes st.frames ++ rest) in
    let long : 544 ≤ length src = omega (
      arith,
      length-append (frame_bytes st.frames) rest,
      length-frame_bytes st.frames,
      good.all_frames,
    ) in
    let state : decode_state src ≡ ok (some st) =
      decode_state-eq src st good (read_bytes-take src 8 8 (omega (arith, long)))
        (read_bytes-take src 16 4 (omega (arith, long)))
        (read_bytes-take src 20 4 (omega (arith, long))) refl
        (read_bytes-take src 28 4 (omega (arith, long)))
        (read_frames-frame_bytes 64 (head_bytes st) st.frames rest 32 refl (sym good.all_frames)
          good.refs) in
    rw (le→ltb (length src) 544 long, read_bytes-take src 0 4 (omega (arith, long)), ◌>>=◌)
      (rw (state) refl)

-- A frontier whose last key is below 2 ^ 64, whose refs and count of leaves are below 2 ^ 32, whose
-- depth is at most 64, that has its 64 frames and that has a node to attach when its depth is not 0,
-- is encoded into any block of 544 bytes or more, and is decoded again from that block.
pub decode_frontier-encode_frontier :
    (dst : Bytes) (st : FrontierStateV1)
    → 544 ≤ length dst
    → IsFrontierState st
    → ((encode_frontier dst st).0 ≡ ok tt)
      × (decode_frontier ((encode_frontier dst st).1) ≡ ok (some st))
decode_frontier-encode_frontier dst st long good =
    let string = head_bytes st ++ frame_bytes st.frames in
    let short : length string ≤ length dst =
      omega (arith, long, length-string st, good.all_frames) in
    let front : overwrite dst 0 string
        ≡ head_bytes st ++ (frame_bytes st.frames ++ drop (length string) dst) =
      overwrite_front dst string short
      ∙ append_assoc (head_bytes st) (frame_bytes st.frames) (drop (length string) dst) in
    rw (encode_frontier-eq dst st long)
      (refl, rw (front) (decode_frontier-bytes st (drop (length string) dst) good))
