-- ===== src/Base/Results.antt =====
-- A computation that may throw.
use mathlib.Core.Path.{◌≡◌, refl}
use mathlib.Core.Logic.{◌⊎◌, inl, inr}

pub data Result {ℓ κ} (Thrown : Type ℓ) (Value : Type κ) : Type (ℓ ⊔ κ) where
  err : Thrown → Result Thrown Value
  ok : Value → Result Thrown Value

infixl 5 ◌>>=◌
abbrev pub ◌>>=◌ {ℓ κ μ} :
    {Thrown : Type ℓ} {Value : Type κ} {Next : Type μ}
    → Result Thrown Value
    → (Value → Result Thrown Next)
    → Result Thrown Next
err thrown >>= next = err thrown
ok value >>= next = next value

module _ {ℓ κ μ} {Thrown : Type ℓ} {Value : Type κ} {Next : Type μ} where
  -- A chain that returns has a first part that does.
  pub >>=-eq-ok :
      (first : Result Thrown Value) (next : Value → Result Thrown Next) {result : Next}
      → (first >>= next) ≡ ok result
      → (value : Value) × (first ≡ ok value) × (next value ≡ ok result)
  >>=-eq-ok (err thrown) next h = cc
  >>=-eq-ok (ok value) next h = (value, refl, h)

pub Result-cases {ℓ κ} :
    {Thrown : Type ℓ} {Value : Type κ} (r : Result Thrown Value)
    → ((value : Value) × (r ≡ ok value)) ⊎ ((thrown : Thrown) × (r ≡ err thrown))
Result-cases (err thrown) = inr (thrown, refl)
Result-cases (ok value) = inl (value, refl)
