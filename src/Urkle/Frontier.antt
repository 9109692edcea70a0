-- ===== src/Urkle/Frontier.antt =====
-- urkle/frontier.go: the state of a builder, and its encoding in a block of bytes. `frames` is the
-- array of 64 frames. A block that is shorter is refused before any access.
pub mod Frames
pub mod Roundtrip
pub mod Decoded
use go_merklelog.Base.{ℕ, zero, suc, ◌+◌, ◌*◌, ◌&&◌, Option, none, some, List, [], ◌∷◌, length}
use go_merklelog.Base.{◌==◌, ltb, if◌then◌else◌, bytes_equal}
use go_merklelog.Base.Results.{ok, err, ◌>>=◌}
use go_merklelog.Base.Buffers.{
  Bytes, zeros, overwrite, read_byte, read_bytes, put_uint32, put_uint64, uint32, uint64,
}
use go_merklelog.Urkle.Errors.{
  R, no_ref, frontier_bad_size, frontier_bad_magic, frontier_bad_version, frontier_bad_state,
}

abbrev pub frontier_max_depth : ℕ
frontier_max_depth = 64

abbrev pub frontier_state_bytes : ℕ
frontier_state_bytes = 32 + frontier_max_depth * 8

-- "FNT1"
abbrev pub frontier_magic : Bytes
frontier_magic = 0x46 ∷ 0x4e ∷ 0x54 ∷ 0x31 ∷ []

pub record Frame : Type 0 where
  pub bit : ℕ
  pub left : ℕ

pub record FrontierStateV1 : Type 0 where
  pub last_key : ℕ
  pub pending : ℕ
  pub next : ℕ
  pub next_leaf : ℕ
  pub depth : ℕ
  pub frames : List Frame

-- the loop over the frames
unfoldable pub write_frames : Bytes → ℕ → List Frame → Bytes
write_frames dst off [] = dst
write_frames dst off (f ∷ frames) =
    let dst = overwrite dst off (f.bit ∷ 0 ∷ 0 ∷ 0 ∷ []) in
    let dst = overwrite dst (off + 4) (put_uint32 f.left) in write_frames dst (off + 8) frames

unfoldable pub encode_frontier : Bytes → FrontierStateV1 → R (Unit {0}) × Bytes
encode_frontier dst st =
    if ltb (length dst) frontier_state_bytes
    then (err frontier_bad_size, dst)
    else let p = if st.pending == no_ref then 0xffff_ffff else st.pending in
      let dst = overwrite dst 0 frontier_magic in
      let dst = overwrite dst 4 (1 ∷ 64 ∷ 0 ∷ 0 ∷ []) in
      let dst = overwrite dst 8 (put_uint64 st.last_key) in
      let dst = overwrite dst 16 (put_uint32 p) in
      let dst = overwrite dst 20 (put_uint32 st.next) in
      let dst = overwrite dst 24 (st.depth ∷ 0 ∷ 0 ∷ 0 ∷ []) in
      let dst = overwrite dst 28 (put_uint32 st.next_leaf) in (ok tt, write_frames dst 32 st.frames)

-- `n` frames from `off` on
unfoldable pub read_frames : ℕ → Bytes → ℕ → R (List Frame)
read_frames zero src off = ok []
read_frames (suc n) src off = read_byte src off >>= λ bit. read_bytes src (off + 4) 4 >>= λ left.
    read_frames n src (off + 8) >>= λ frames. ok (record { bit = bit; left = uint32 left } ∷ frames)

-- the fields behind the version
unfoldable pub decode_state : Bytes → R (Option FrontierStateV1)
decode_state src = read_bytes src 8 8 >>= λ last_key. read_bytes src 16 4 >>= λ pending.
    read_bytes src 20 4 >>= λ next. read_byte src 24 >>= λ depth.
    read_bytes src 28 4 >>= λ next_leaf.
    let p = uint32 pending in
    let pending = if p == 0xffff_ffff then no_ref else p in
    if ltb frontier_max_depth depth
    then err frontier_bad_state
    else if ltb 0 depth && pending == no_ref
    then err frontier_bad_state
    else read_frames frontier_max_depth src 32 >>= λ frames. ok (
        some (record {
          last_key = uint64 last_key;
          pending = pending;
          next = uint32 next;
          next_leaf = uint32 next_leaf;
          depth = depth;
          frames = frames;
        }))

unfoldable pub decode_version : Bytes → R (Option FrontierStateV1)
decode_version src = read_byte src 4 >>= λ version.
    if version == 1 then decode_state src else err frontier_bad_version

-- `none` is the block that is not initialized.
unfoldable pub decode_frontier : Bytes → R (Option FrontierStateV1)
decode_frontier src =
    if ltb (length src) frontier_state_bytes
    then err frontier_bad_size
    else read_bytes src 0 4 >>= λ magic.
        if bytes_equal magic (zeros 4)
        then ok none
        else if bytes_equal magic frontier_magic
        then decode_version src
        else err frontier_bad_magic
