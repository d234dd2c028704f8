-- ===== src/Base/Text.antt =====
-- Go's `strings.Split` at a separator of one character, and `strconv.Itoa` of a number from 0 on.
pub mod Laws
use Prim.Native.Nat.{◌/◌, ◌%◌}
use Prim.Native.Char.{Char, code}
use native.Mathlib.Decide.{ℕ_discrete, dec_lt}
use mathlib.Core.Logic.{ite}
use kyuubi_operator.Base.{ℕ, zero, suc, String, ◌<>◌, List, [], ◌∷◌}

abbrev pub cons_head : Char → List String → List String
cons_head c [] = String.◌∷◌ c String.[] ∷ []
cons_head c (piece ∷ rest) = String.◌∷◌ c piece ∷ rest

-- The separator is given by its code.
unfoldable pub split : ℕ → String → List String
split sep String.[] = "" ∷ []
split sep (String.◌∷◌ c s) =
    let rest = split sep s in ite (ℕ_discrete (code c) sep) ("" ∷ rest) (cons_head c rest)

digit : ℕ → String
digit zero = "0"
digit (suc zero) = "1"
digit (suc (suc zero)) = "2"
digit (suc (suc (suc zero))) = "3"
digit (suc (suc (suc (suc zero)))) = "4"
digit (suc (suc (suc (suc (suc zero))))) = "5"
digit (suc (suc (suc (suc (suc (suc zero)))))) = "6"
digit (suc (suc (suc (suc (suc (suc (suc zero))))))) = "7"
digit (suc (suc (suc (suc (suc (suc (suc (suc zero)))))))) = "8"
digit _ = "9"

-- The number has no more digits than the fuel.
itoa_fuel : ℕ → ℕ → String
unfolding digit dec_lt
itoa_fuel zero n = ""
itoa_fuel (suc f) n =
    let front = itoa_fuel f (n / 10) in ite (dec_lt n 10) (digit n) (front <> digit (n % 10))

unfoldable pub itoa : ℕ → String
unfolding itoa_fuel
itoa n = itoa_fuel (suc n) n
