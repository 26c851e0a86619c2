-- ===== src/Base/Decimal.antt =====
-- `${n}` for a natural number: its decimal digits. The recursion takes fuel, and `n + 1` is enough.
use Prim.Native.Nat.{ℕ, zero, suc, ◌+◌, ◌/◌, ◌%◌, ◌<◌}
use mathlib.Core.Path.{◌≡◌}
use mathlib.Core.List.{[], ◌∷◌, ◌++◌}
use native.Mathlib.Omega.{arith}
use script_jail.Base.Tests.{ltb, if◌then◌else◌}
use script_jail.Base.Texts.{Text}

decimal_from : ℕ → ℕ → Text
decimal_from zero n = []
decimal_from (suc fuel) n =
    let rest = decimal_from fuel (n / 10) in
    if ltb n 10 then (b'0' + n) ∷ [] else rest ++ (b'0' + n % 10) ∷ []

unfoldable pub decimal : ℕ → Text
unfolding decimal_from
decimal n = decimal_from (suc n) n

-- With enough fuel the digits do not depend on it.
decimal_from_fuel : (f g n : ℕ) → n < f → n < g → decimal_from f n ≡ decimal_from g n
unfolding decimal_from
decimal_from_fuel zero g n h k = elim h [ ]
decimal_from_fuel (suc f) zero n h k = elim k [ ]
decimal_from_fuel (suc f) (suc g) n h k = ground (arith, decimal_from_fuel f g (n / 10))

-- The digits of a number are those of its tenth and its last digit.
pub decimal_step :
    (n : ℕ)
    → decimal n ≡ (if ltb n 10 then (b'0' + n) ∷ [] else decimal (n / 10) ++ (b'0' + n % 10) ∷ [])
unfolding decimal
decimal_step n = ground (arith, decimal_from_fuel n (suc (n / 10)) (n / 10))
