-- ===== src/Urkle/Frontier/Decoded.antt =====
-- What `DecodeFrontierV1` accepts: its states are inside the bounds.
use go_merklelog.Base.{
  ℕ, zero, suc, ◌+◌, ◌≤◌, ◌≡◌, refl, sym, ap, ◌∙◌, Bool, true, false, ◌&&◌, Option, none, some,
  List, length,
}
use go_merklelog.Base.{subst, ◌==◌, ltb, ltb→le, if◌then◌else◌, bytes_equal}
use go_merklelog.Base.Results.{ok, err, ◌>>=◌, ok_inj, err_not_ok, eq-ok_of_bind}
use go_merklelog.Base.Buffers.{Bytes, zeros, read_byte, read_bytes, uint32}
use go_merklelog.Urkle.Errors.{R, UrkleError, no_ref}
use go_merklelog.Urkle.Frontier.{
  Frame, FrontierStateV1, frontier_magic, read_frames, decode_state, decode_version,
  decode_frontier,
}

bind_then :
    {A B C : Type 0} (r : R A) (f : A → R B) {b : B}
    → (r >>= f) ≡ ok b
    → ((a : A) → r ≡ ok a → f a ≡ ok b → C)
    → C
bind_then r f e then_holds =
    let (a, first, second) = eq-ok_of_bind r f e in then_holds a first second

-- a guard in front of a call that succeeds
guard_then :
    {B C : Type 0} (test : Bool) (m : UrkleError) (r : R B) {b : B}
    → (if test then err m else r) ≡ ok b
    → (test ≡ false → r ≡ ok b → C)
    → C
guard_then true m r e then_holds = absurd (err_not_ok e)
guard_then false m r e then_holds = then_holds refl e

length-read_frames :
    (n : ℕ) (src : Bytes) (off : ℕ) {frames : List Frame}
    → read_frames n src off ≡ ok frames
    → length frames ≡ n
unfolding read_frames
length-read_frames zero src off e = ap length (sym (ok_inj e))
length-read_frames (suc n) src off e = bind_then (read_byte src off) _ e λ bit _ e0.
    bind_then (read_bytes src (off + 4) 4) _ e0 λ left _ e1.
      bind_then (read_frames n src (off + 8)) _ e1 λ frames more e2.
        ap length (sym (ok_inj e2)) ∙ ap suc (length-read_frames n src (off + 8) more)

-- the state's fields are inside the bounds
pub record InBounds (st : FrontierStateV1) : Type 0 where
  pub depth_bound : st.depth ≤ 64
  pub some_pending : (ltb 0 st.depth && st.pending == no_ref) ≡ false
  pub all_frames : length st.frames ≡ 64

some_inj : {A : Type 0} {a b : A} → ◌≡◌ {A = R (Option A)} (ok (some a)) (ok (some b)) → a ≡ b
some_inj e = cc

decode_state-InBounds :
    (src : Bytes) {st : FrontierStateV1} → decode_state src ≡ ok (some st) → InBounds st
unfolding decode_state
decode_state-InBounds src e = bind_then (read_bytes src 8 8) _ e λ key _ e0.
    bind_then (read_bytes src 16 4) _ e0 λ pending _ e1.
      bind_then (read_bytes src 20 4) _ e1 λ next _ e2.
        bind_then (read_byte src 24) _ e2 λ depth _ e3.
          bind_then (read_bytes src 28 4) _ e3 λ leaf _ e4.
            guard_then (ltb 64 depth) _ _ e4 λ shallow e5.
              guard_then
                (ltb 0 depth
                  && (if uint32 pending == 0xffff_ffff then no_ref else uint32 pending) == no_ref)
                _ _ e5
                λ attached e6. bind_then (read_frames 64 src 32) _ e6 λ frames read e7.
                  subst InBounds (some_inj e7) (record {
                    depth_bound = ltb→le 64 depth shallow;
                    some_pending = attached;
                    all_frames = length-read_frames 64 src 32 read;
                  })

magic_known :
    {A : Type 0} (zeroed known : Bool) (r : R (Option A)) (m : UrkleError) {a : A}
    → (if zeroed then ok none else if known then r else err m) ≡ ok (some a)
    → r ≡ ok (some a)
magic_known true known r m h = cc
magic_known false true r m h = h
magic_known false false r m h = cc

test_passed :
    {A : Type 0} (test : Bool) (r : R A) (m : UrkleError) {a : A}
    → (if test then r else err m) ≡ ok a
    → r ≡ ok a
test_passed true r m h = h
test_passed false r m h = cc

-- A block that is decoded to a state has a depth of at most 64, a node to attach when the depth is
-- not 0, and 64 frames.
pub decode_frontier-InBounds :
    (src : Bytes) {st : FrontierStateV1} → decode_frontier src ≡ ok (some st) → InBounds st
unfolding decode_frontier decode_version
decode_frontier-InBounds src e = guard_then (ltb (length src) 544) _ _ e λ long e0.
    bind_then (read_bytes src 0 4) _ e0 λ magic _ e1.
      let known =
        magic_known (bytes_equal magic (zeros 4)) (bytes_equal magic frontier_magic) _ _ e1 in
      bind_then (read_byte src 4) _ known
        λ version _ e2. decode_state-InBounds src (test_passed (version == 1) _ _ e2)
