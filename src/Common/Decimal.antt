-- ===== src/Common/Decimal.antt =====
-- The text of a natural number in base 10.
use Prim.Native.Nat.{ℕ, zero, suc, ◌/◌, ◌%◌}
use Prim.Native.String
use Prim.Native.String.{String}
use mathlib.Core.Path.{◌≡◌, refl}
use mathlib.Core.Option.{get_or}
use mathlib.Core.List.{[], ◌∷◌}
use quorvel.Common.Tests.{ltb, if◌then◌else◌}
use quorvel.Common.Lists.{get_elem?}

digit : ℕ → String
digit n = get_or (get_elem? ("0" ∷ "1" ∷ "2" ∷ "3" ∷ "4" ∷ "5" ∷ "6" ∷ "7" ∷ "8" ∷ "9" ∷ []) n) ""

-- A number has no more digits than its value and one.
decimal_from : ℕ → ℕ → String → String
decimal_from zero n done = done
decimal_from (suc fuel) n done =
    let longer = String.◌++◌ (digit (n % 10)) done in
    let rest = decimal_from fuel (n / 10) longer in if ltb n 10 then longer else rest

unfoldable pub decimal : ℕ → String
unfolding decimal_from digit
decimal n = decimal_from (suc n) n ""

decimal-1024 : decimal 1024 ≡ "1024"
unfolding decimal
decimal-1024 = refl
