-- ===== src/Prelude/Decimal.antt =====
-- `%d` of package fmt for a number that is not negative.
use Prim.Native.Nat.{ℕ, zero, suc, ◌+◌, ◌/◌, ◌%◌}
use mathlib.Core.Path.{◌≡◌, refl}
use mathlib.Core.List.{[], ◌∷◌, ◌++◌}
use dire_agent.Prelude.Tests.{ltb, if◌then◌else◌}
use dire_agent.Prelude.Text.{Text, codes}

-- The fuel bounds the digits.
digits : ℕ → ℕ → Text
digits zero n = []
digits (suc f) n =
    let front = digits f (n / 10) in
    if ltb n 10 then (b'0' + n) ∷ [] else front ++ ((b'0' + n % 10) ∷ [])

-- A number has fewer digits than it counts units, so the fuel is enough.
unfoldable pub decimal : ℕ → Text
unfolding digits
decimal n = digits (suc n) n

decimal_test : decimal 207 ≡ codes "207"
unfolding decimal
decimal_test = refl
