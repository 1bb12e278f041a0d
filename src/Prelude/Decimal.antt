-- ===== src/Prelude/Decimal.antt =====
-- `n.toString()` for a natural number.
use Prim.Native.Nat.{ℕ, zero, suc, ◌/◌, ◌%◌}
use Prim.Native.String
use Prim.Native.String.{String}
use vda_5050_lib_2_0_0_js.Prelude.Tests.{eqb, if◌then◌else◌}

abbrev digit : ℕ → String
digit n =
    if eqb n 0
    then "0"
    else if eqb n 1
    then "1"
    else if eqb n 2
    then "2"
    else if eqb n 3
    then "3"
    else if eqb n 4
    then "4"
    else if eqb n 5
    then "5"
    else if eqb n 6
    then "6"
    else if eqb n 7
    then "7"
    else if eqb n 8
    then "8"
    else "9"

-- A number has fewer digits than rounds are given: each round divides by ten.
digits_before : ℕ → ℕ → String → String
digits_before zero n rest = rest
digits_before (suc rounds) n rest =
    let longer = digits_before rounds (n / 10) (String.◌++◌ (digit (n % 10)) rest) in
    if eqb (n / 10) 0 then String.◌++◌ (digit (n % 10)) rest else longer

unfoldable pub decimal : ℕ → String
unfolding digits_before
decimal n = digits_before (suc n) n ""
