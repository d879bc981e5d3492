-- ===== src/Base/Text.antt =====
-- Texts as lists of code units, and a number in decimal.
use Prim.Native.Char.{code}
use Prim.Native.Nat.{ℕ, zero, suc, ◌+◌, ◌/◌, ◌%◌}
use Prim.Native.String.{String}
use mathlib.Core.List.{List, [], ◌∷◌, ◌++◌}
use ai_distributed_workflow.Base.Tests.{ltb, if◌then◌else◌}

-- The code units of an ASCII text.
unfoldable pub codes : String → List ℕ
codes String.[] = []
codes (String.◌∷◌ c s) = code c ∷ codes s

decimal_fuel : ℕ → ℕ → List ℕ
decimal_fuel zero n = []
decimal_fuel (suc fuel) n =
    let rest = decimal_fuel fuel (n / 10) in
    let digit : List ℕ = (48 + n % 10) ∷ [] in if ltb n 10 then digit else rest ++ digit

-- `${n}`: a number has fewer digits than its value plus one.
unfoldable pub decimal : ℕ → List ℕ
unfolding decimal_fuel
decimal n = decimal_fuel (suc n) n
