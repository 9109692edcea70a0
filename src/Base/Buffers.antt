-- ===== src/Base/Buffers.antt =====
-- Go's byte slices: what `b[lo:hi]`, `b[i]`, `copy`, `clear` and the big-endian functions of
-- encoding/binary do on a slice that is as long as its backing array. An index out of range panics.
pub mod Values
use Prim.Native.Nat.{ℕ, zero, suc, ◌+◌, ◌*◌, ◌/◌, ◌%◌, ◌^◌, ◌<◌, ◌≤◌}
use mathlib.Core.Path.{◌≡◌, refl, ap, subst}
use mathlib.Core.Logic.{inl, inr}
use mathlib.Core.List.{List, [], ◌∷◌, ◌++◌}
use native.Mathlib.Omega.{arith}
use go_merklelog.Base.Tests.{leb, Bool-cases, if◌then◌else◌}
use go_merklelog.Base.Lists.{length}
use go_merklelog.Base.Results.{Result, ok, panic, ok_inj, panic_not_ok}

abbrev pub Bytes : Type 0
Bytes = List ℕ

-- the parts of a list before and from index `n`
abbrev pub take : ℕ → Bytes → Bytes
take zero b = []
take (suc n) [] = []
take (suc n) (x ∷ b) = x ∷ take n b

abbrev pub drop : ℕ → Bytes → Bytes
drop zero b = b
drop (suc n) [] = []
drop (suc n) (x ∷ b) = drop n b

-- `make([]byte, n)`
abbrev pub zeros : ℕ → Bytes
zeros zero = []
zeros (suc n) = 0 ∷ zeros n

-- the bytes with `ys` written over those from index `off` on
abbrev pub overwrite : Bytes → ℕ → Bytes → Bytes
overwrite [] off ys = []
overwrite (x ∷ b) zero [] = x ∷ b
overwrite (x ∷ b) zero (y ∷ ys) = y ∷ overwrite b zero ys
overwrite (x ∷ b) (suc off) ys = x ∷ overwrite b off ys

module _ {κ} {E : Type κ} where
  -- `b[off : off+n]`, read
  unfoldable pub read_bytes : Bytes → ℕ → ℕ → Result E Bytes
  read_bytes b off n = if leb (off + n) (length b) then ok (take n (drop off b)) else panic

  -- `copy(b[off : off+len(ys)], ys)`
  unfoldable pub write_bytes : Bytes → ℕ → Bytes → Result E Bytes
  write_bytes b off ys = if leb (off + length ys) (length b) then ok (overwrite b off ys) else panic

  -- `b[i]`, read
  abbrev pub read_byte : Bytes → ℕ → Result E ℕ
  read_byte [] i = panic
  read_byte (x ∷ b) zero = ok x
  read_byte (x ∷ b) (suc i) = read_byte b i

-- `binary.BigEndian.PutUint32` and `binary.BigEndian.PutUint64`
unfoldable pub put_uint32 : ℕ → Bytes
put_uint32 v = (v / 2 ^ 24 % 256) ∷ (v / 2 ^ 16 % 256) ∷ (v / 2 ^ 8 % 256) ∷ (v % 256) ∷ []

unfoldable pub put_uint64 : ℕ → Bytes
put_uint64 v =
    (v / 2 ^ 56 % 256)
    ∷ (v / 2 ^ 48 % 256)
    ∷ (v / 2 ^ 40 % 256)
    ∷ (v / 2 ^ 32 % 256)
    ∷ (v / 2 ^ 24 % 256)
    ∷ (v / 2 ^ 16 % 256)
    ∷ (v / 2 ^ 8 % 256)
    ∷ (v % 256)
    ∷ []

-- `binary.BigEndian.Uint32` and `binary.BigEndian.Uint64`, of the first bytes of a slice
abbrev read_digits : ℕ → ℕ → Bytes → ℕ
read_digits zero acc b = acc
read_digits (suc n) acc [] = acc
read_digits (suc n) acc (x ∷ b) = read_digits n (acc * 256 + x) b

-- `binary.BigEndian.PutUint16` and `binary.BigEndian.Uint16`
unfoldable pub put_uint16 : ℕ → Bytes
put_uint16 v = (v / 2 ^ 8 % 256) ∷ (v % 256) ∷ []

unfoldable pub uint16 : Bytes → ℕ
uint16 b = read_digits 2 0 b

unfoldable pub uint32 : Bytes → ℕ
uint32 b = read_digits 4 0 b

unfoldable pub uint64 : Bytes → ℕ
uint64 b = read_digits 8 0 b

pub uint16-put_uint16 : (v : ℕ) → v < 2 ^ 16 → uint16 (put_uint16 v) ≡ v
unfolding uint16 put_uint16
uint16-put_uint16 v h = omega arith

pub uint32-put_uint32 : (v : ℕ) → v < 2 ^ 32 → uint32 (put_uint32 v) ≡ v
unfolding uint32 put_uint32
uint32-put_uint32 v h = omega arith

pub uint64-put_uint64 : (v : ℕ) → v < 2 ^ 64 → uint64 (put_uint64 v) ≡ v
unfolding uint64 put_uint64
uint64-put_uint64 v h = omega arith

pub length-overwrite : (b : Bytes) (off : ℕ) (ys : Bytes) → length (overwrite b off ys) ≡ length b
length-overwrite [] off ys = refl
length-overwrite (x ∷ b) zero [] = refl
length-overwrite (x ∷ b) zero (y ∷ ys) = ap suc (length-overwrite b zero ys)
length-overwrite (x ∷ b) (suc off) ys = ap suc (length-overwrite b off ys)

pub length-zeros : (n : ℕ) → length (zeros n) ≡ n
length-zeros zero = refl
length-zeros (suc n) = ap suc (length-zeros n)

-- Two writes one behind the other are one write.
pub overwrite_join :
    (b : Bytes) (off behind : ℕ) (xs ys : Bytes)
    → behind ≡ off + length xs
    → overwrite (overwrite b off xs) behind ys ≡ overwrite b off (xs ++ ys)
overwrite_join [] off behind xs ys e = refl
overwrite_join (x ∷ b) zero zero [] ys e = refl
overwrite_join (x ∷ b) zero (suc behind) [] ys e = absurd (omega arith)
overwrite_join (x ∷ b) zero zero (z ∷ xs) ys e = absurd (omega arith)
overwrite_join (x ∷ b) zero (suc behind) (z ∷ xs) ys e =
    ap (◌∷◌ z) (overwrite_join b zero behind xs ys (omega arith))
overwrite_join (x ∷ b) (suc off) zero xs ys e = absurd (omega arith)
overwrite_join (x ∷ b) (suc off) (suc behind) xs ys e =
    ap (◌∷◌ x) (overwrite_join b off behind xs ys (omega arith))

pub overwrite_front :
    (b ys : Bytes) → length ys ≤ length b → overwrite b 0 ys ≡ ys ++ drop (length ys) b
overwrite_front [] [] h = refl
overwrite_front [] (y ∷ ys) h = absurd (omega arith)
overwrite_front (x ∷ b) [] h = refl
overwrite_front (x ∷ b) (y ∷ ys) h = ap (◌∷◌ y) (overwrite_front b ys (omega arith))

-- What was written is read back.
pub take-drop-overwrite :
    (b : Bytes) (off : ℕ) (ys : Bytes)
    → off + length ys ≤ length b
    → take (length ys) (drop off (overwrite b off ys)) ≡ ys
take-drop-overwrite [] zero [] h = refl
take-drop-overwrite [] zero (y ∷ ys) h = absurd (omega arith)
take-drop-overwrite [] (suc off) ys h = absurd (omega arith)
take-drop-overwrite (x ∷ b) zero [] h = refl
take-drop-overwrite (x ∷ b) zero (y ∷ ys) h =
    ap (◌∷◌ y) (take-drop-overwrite b zero ys (omega arith))
take-drop-overwrite (x ∷ b) (suc off) ys h = take-drop-overwrite b off ys (omega arith)

-- Bytes elsewhere stay.
pub take-drop-overwrite_before :
    (b : Bytes) (lo n off : ℕ) (ys : Bytes)
    → lo + n ≤ off
    → take n (drop lo (overwrite b off ys)) ≡ take n (drop lo b)
take-drop-overwrite_before [] lo n off ys h = refl
take-drop-overwrite_before (x ∷ b) zero zero off ys h = refl
take-drop-overwrite_before (x ∷ b) zero (suc n) zero ys h = absurd (omega arith)
take-drop-overwrite_before (x ∷ b) zero (suc n) (suc off) ys h =
    ap (◌∷◌ x) (take-drop-overwrite_before b zero n off ys (omega arith))
take-drop-overwrite_before (x ∷ b) (suc lo) n zero ys h = absurd (omega arith)
take-drop-overwrite_before (x ∷ b) (suc lo) n (suc off) ys h =
    take-drop-overwrite_before b lo n off ys (omega arith)

pub drop-overwrite_behind :
    (b : Bytes) (lo off : ℕ) (ys : Bytes)
    → off + length ys ≤ lo
    → drop lo (overwrite b off ys) ≡ drop lo b
drop-overwrite_behind [] lo off ys h = refl
drop-overwrite_behind (x ∷ b) lo zero [] h = refl
drop-overwrite_behind (x ∷ b) zero zero (y ∷ ys) h = absurd (omega arith)
drop-overwrite_behind (x ∷ b) (suc lo) zero (y ∷ ys) h =
    drop-overwrite_behind b lo zero ys (omega arith)
drop-overwrite_behind (x ∷ b) zero (suc off) ys h = absurd (omega arith)
drop-overwrite_behind (x ∷ b) (suc lo) (suc off) ys h =
    drop-overwrite_behind b lo off ys (omega arith)

-- every number is a byte
abbrev pub AllBytes : Bytes → Type 0
AllBytes [] = Unit {0}
AllBytes (x ∷ b) = (x < 256) × AllBytes b

pub take-AllBytes : (n : ℕ) (b : Bytes) → AllBytes b → AllBytes (take n b)
take-AllBytes zero b all = tt
take-AllBytes (suc n) [] all = tt
take-AllBytes (suc n) (x ∷ b) (h, all) = (h, take-AllBytes n b all)

pub drop-AllBytes : (n : ℕ) (b : Bytes) → AllBytes b → AllBytes (drop n b)
drop-AllBytes zero b all = all
drop-AllBytes (suc n) [] all = tt
drop-AllBytes (suc n) (x ∷ b) (h, all) = drop-AllBytes n b all

pub overwrite-AllBytes :
    (b : Bytes) (off : ℕ) (ys : Bytes) → AllBytes b → AllBytes ys → AllBytes (overwrite b off ys)
overwrite-AllBytes [] off ys all new = tt
overwrite-AllBytes (x ∷ b) zero [] all new = all
overwrite-AllBytes (x ∷ b) zero (y ∷ ys) (h, all) (k, new) =
    (k, overwrite-AllBytes b zero ys all new)
overwrite-AllBytes (x ∷ b) (suc off) ys (h, all) new = (h, overwrite-AllBytes b off ys all new)

pub put_uint32-AllBytes : (v : ℕ) → AllBytes (put_uint32 v)
unfolding put_uint32
put_uint32-AllBytes v = (omega arith, (omega arith, (omega arith, (omega arith, tt))))

-- Four bytes are a 32-bit number.
pub uint32-lt : (b : Bytes) → AllBytes b → uint32 b < 2 ^ 32
unfolding uint32
uint32-lt [] all = omega arith
uint32-lt (a ∷ []) (ha, _) = omega arith
uint32-lt (a ∷ b ∷ []) (ha, (hb, _)) = omega arith
uint32-lt (a ∷ b ∷ c ∷ []) (ha, (hb, (hc, _))) = omega arith
uint32-lt (a ∷ b ∷ c ∷ d ∷ rest) (ha, (hb, (hc, (hd, _)))) = omega arith

pub read_bytes-AllBytes {κ} :
    {E : Type κ} (b : Bytes) (off n : ℕ) {c : Bytes}
    → AllBytes b
    → ◌≡◌ {A = Result E Bytes} (read_bytes b off n) (ok c)
    → AllBytes c
unfolding read_bytes
read_bytes-AllBytes b off n all e = elim (Bool-cases (leb (off + n) (length b))) [
  | inl fits ↦
      subst AllBytes (ok_inj (rw fits at e))
        (take-AllBytes n (drop off b) (drop-AllBytes off b all))
  | inr short ↦ absurd (panic_not_ok (rw short at e))
]

pub length-take-drop :
    (b : Bytes) (off n : ℕ) → off + n ≤ length b → length (take n (drop off b)) ≡ n
length-take-drop [] off zero h = omega arith
length-take-drop [] off (suc n) h = absurd (omega arith)
length-take-drop (x ∷ b) zero zero h = refl
length-take-drop (x ∷ b) zero (suc n) h = ap suc (length-take-drop b zero n (omega arith))
length-take-drop (x ∷ b) (suc off) n h = length-take-drop b off n (omega arith)
