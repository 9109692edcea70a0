-- ===== src/Base/Results.antt =====
-- How a call ends: Go's (value, error) pair, with run-time panics and the model's fuel.

use mathlib.Core.Path.{◌≡◌, refl}
use mathlib.Core.Logic.{◌⊎◌, inl, inr}

pub data Result {ℓ κ} (E : Type κ) (A : Type ℓ) : Type (ℓ ⊔ κ) where
  ok : A → Result E A
  err : E → Result E A
  panic : Result E A
  out_of_fuel : Result E A

infixl 5 ◌>>=◌
abbrev pub ◌>>=◌ {ℓ ℓ' κ} :
    {E : Type κ} {A : Type ℓ} {B : Type ℓ'} → Result E A → (A → Result E B) → Result E B
ok a >>= f = f a
err e >>= f = err e
panic >>= f = panic
out_of_fuel >>= f = out_of_fuel

pub ok_inj {ℓ κ} : {E : Type κ} {A : Type ℓ} {a b : A} → ◌≡◌ {A = Result E A} (ok a) (ok b) → a ≡ b
ok_inj h = cc

pub err_not_ok {ℓ κ} :
    {E : Type κ} {A : Type ℓ} {e : E} {a : A} → ◌≡◌ {A = Result E A} (err e) (ok a) → ⊥
err_not_ok h = cc

pub panic_not_ok {ℓ κ} : {E : Type κ} {A : Type ℓ} {a : A} → ◌≡◌ {A = Result E A} panic (ok a) → ⊥
panic_not_ok h = cc

-- A bind that succeeds has a first part that succeeds.
pub eq-ok_of_bind {ℓ ℓ' κ} :
    {E : Type κ} {A : Type ℓ} {B : Type ℓ'} (m : Result E A) (f : A → Result E B) {b : B}
    → (m >>= f) ≡ ok b
    → (a : A) × (m ≡ ok a) × (f a ≡ ok b)
eq-ok_of_bind (ok a) f h = (a, refl, h)
eq-ok_of_bind (err e) f h = cc
eq-ok_of_bind panic f h = cc
eq-ok_of_bind out_of_fuel f h = cc

-- Every result, with its equation.
pub Result-cases {ℓ κ} :
    {E : Type κ} {A : Type ℓ} (m : Result E A)
    → ((a : A) × (m ≡ ok a)) ⊎ ((e : E) × (m ≡ err e)) ⊎ (m ≡ panic) ⊎ (m ≡ out_of_fuel)
Result-cases (ok a) = inl (a, refl)
Result-cases (err e) = inr (inl (e, refl))
Result-cases panic = inr (inr (inl refl))
Result-cases out_of_fuel = inr (inr (inr refl))

pub out_of_fuel_not_ok {ℓ κ} :
    {E : Type κ} {A : Type ℓ} {a : A} → ◌≡◌ {A = Result E A} out_of_fuel (ok a) → ⊥
out_of_fuel_not_ok h = cc
