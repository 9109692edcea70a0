-- ===== src/Base/Digests.antt =====
-- A digest as a function of bytes: what equal digests show.

use mathlib.Core.Path.{◌≡◌, refl, sym, ap, ap₂, ◌∙◌}
use mathlib.Core.Logic.{◌≢◌, ◌⊎◌, inl, inr}
use mathlib.Core.Bool.{true, false}
use mathlib.Core.List.{[], ◌∷◌, ◌++◌}
use native.Mathlib.Omega.{arith}
use go_merklelog.Base.Tests.{Bool-cases}
use go_merklelog.Base.Lists.{length, bytes_equal, bytes_equal_self, eq_of_bytes_equal}
use go_merklelog.Base.Buffers.{Bytes}

-- two different inputs with the same digest
pub record Collision (digest : Bytes → Bytes) : Type 0 where
  pub left : Bytes
  pub right : Bytes
  pub differ : left ≢ right
  pub same_digest : digest left ≡ digest right

pub append_cancel : (a b c d : Bytes) → length a ≡ length b → a ++ c ≡ b ++ d → (a ≡ b) × (c ≡ d)
append_cancel [] [] c d e h = (refl, h)
append_cancel [] (y ∷ b) c d e h = absurd (omega arith)
append_cancel (x ∷ a) [] c d e h = absurd (omega arith)
append_cancel (x ∷ a) (y ∷ b) c d e h =
    let rest = append_cancel a b c d (omega arith) (ap tail h) in
    (ap₂ ◌∷◌ (head_eq h) rest.0, rest.1)
  where
    tail : Bytes → Bytes
    tail [] = []
    tail (x ∷ l) = l

    head_eq : x ∷ (a ++ c) ≡ y ∷ (b ++ d) → x ≡ y
    head_eq h = cc

true_ne_false : true ≢ false
true_ne_false h = cc

module _ (digest : Bytes → Bytes) where
  pub digest_binds : (x y : Bytes) → digest x ≡ digest y → (x ≡ y) ⊎ Collision digest
  digest_binds x y h = elim (Bool-cases (bytes_equal x y)) [
    | inl e ↦ inl (eq_of_bytes_equal x y e)
    | inr d ↦ inr (record {
      left = x;
      right = y;
      differ =
          λ e. true_ne_false (sym (bytes_equal_self y) ∙ ap (λ z. bytes_equal z y) (sym e) ∙ d);
      same_digest = h;
    })
  ]
