-- ===== src/Base/Buffers/Values.antt =====
-- Byte slices that are values of 32 bytes, one behind the other.
use Prim.Native.Nat.{ℕ, zero, suc, ◌+◌, ◌*◌, ◌<◌, ◌≤◌}
use mathlib.Core.Path.{◌≡◌, refl, sym, ap, ◌∙◌}
use mathlib.Core.Option.{some}
use mathlib.Core.List.{List, [], ◌∷◌, ◌++◌}
use native.Mathlib.Omega.{arith}
use go_merklelog.Base.Lists.{length, get_elem?}
use go_merklelog.Base.Buffers.{Bytes, take, drop}

-- the first `n` values
abbrev pub values : ℕ → Bytes → List Bytes
values zero b = []
values (suc n) b = take 32 b ∷ values n (drop 32 b)

pub length-values : (n : ℕ) (b : Bytes) → length (values n b) ≡ n
length-values zero b = refl
length-values (suc n) b = ap suc (length-values n (drop 32 b))

drop_none : (n : ℕ) → drop n [] ≡ []
drop_none zero = refl
drop_none (suc n) = refl

pub drop-drop : (n m : ℕ) (b : Bytes) → drop m (drop n b) ≡ drop (n + m) b
drop-drop zero m b = ap (λ k. drop k b) (omega arith)
drop-drop (suc n) m [] = drop_none m ∙ sym (drop_none (suc n + m))
drop-drop (suc n) m (x ∷ b) =
    let e : suc (n + m) ≡ suc n + m = omega arith in drop-drop n m b ∙ ap (λ k. drop k (x ∷ b)) e

pub take-append : (n : ℕ) (b c : Bytes) → n ≤ length b → take n (b ++ c) ≡ take n b
take-append zero b c h = refl
take-append (suc n) [] c h = absurd (omega arith)
take-append (suc n) (x ∷ b) c h = ap (◌∷◌ x) (take-append n b c (omega arith))

pub drop-append : (n : ℕ) (b c : Bytes) → n ≤ length b → drop n (b ++ c) ≡ drop n b ++ c
drop-append zero b c h = refl
drop-append (suc n) [] c h = absurd (omega arith)
drop-append (suc n) (x ∷ b) c h = drop-append n b c (omega arith)

pub length-drop : (n : ℕ) (b : Bytes) → n ≤ length b → length (drop n b) + n ≡ length b
length-drop zero b h = omega arith
length-drop (suc n) [] h = absurd (omega arith)
length-drop (suc n) (x ∷ b) h = omega (arith, length-drop n b (omega arith))

take_all : (b : Bytes) (n : ℕ) → length b ≡ n → take n b ≡ b
take_all [] zero h = refl
take_all [] (suc n) h = refl
take_all (x ∷ b) zero h = absurd (omega arith)
take_all (x ∷ b) (suc n) h = ap (◌∷◌ x) (take_all b n (omega arith))

pub get_elem?-values :
    (n k : ℕ) (b : Bytes) → k < n → get_elem? (values n b) k ≡ some (take 32 (drop (k * 32) b))
get_elem?-values zero k b h = absurd (omega arith)
get_elem?-values (suc n) zero b h = refl
get_elem?-values (suc n) (suc k) b h =
    get_elem?-values n k (drop 32 b) (omega arith)
    ∙ ap (λ c. some (take 32 c)) (drop-drop 32 (k * 32) b)
    ∙ ap (λ j. some (take 32 (drop j b))) (omega arith)

-- A value appended to the bytes is one more value at the end.
pub values-append :
    (n : ℕ) (b v : Bytes)
    → length b ≡ n * 32
    → length v ≡ 32
    → values (suc n) (b ++ v) ≡ values n b ++ v ∷ []
values-append zero [] v e size = ap (λ w. w ∷ []) (take_all v 32 size)
values-append zero (x ∷ b) v e size = absurd (omega arith)
values-append (suc n) b v e size =
    rw (take-append 32 b v (omega arith), drop-append 32 b v (omega arith), values)
      (ap (◌∷◌ (take 32 b))
        (values-append n (drop 32 b) v (omega (arith, length-drop 32 b (omega arith))) size))

-- Bytes that are appended change nothing before them.
pub take-drop-append :
    (n off : ℕ) (b c : Bytes)
    → off + n ≤ length b
    → take n (drop off (b ++ c)) ≡ take n (drop off b)
take-drop-append n off b c h =
    ap (take n) (drop-append off b c (omega arith))
    ∙ take-append n (drop off b) c (omega (arith, length-drop off b (omega arith)))
