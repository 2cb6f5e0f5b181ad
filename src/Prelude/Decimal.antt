-- ===== src/Prelude/Decimal.antt =====
-- `str(n)` of a number: its decimal digits.
use Prim.Native.Nat.{ℕ, zero, suc, ◌/◌, ◌%◌}
use Prim.Native.String.{String, ◌++◌}
use mathlib.Core.Path.{◌≡◌, refl}
use converse_os.Prelude.Tests.{ltb, if◌then◌else◌, nat_eq, ◌==◌}

digit : ℕ → String
digit d =
    if d == 0
    then "0"
    else if d == 1
    then "1"
    else if d == 2
    then "2"
    else if d == 3
    then "3"
    else if d == 4
    then "4"
    else if d == 5
    then "5"
    else if d == 6
    then "6"
    else if d == 7
    then "7"
    else if d == 8
    then "8"
    else "9"

-- one digit for each unit of fuel; `suc n` is enough, since `n / 10 < n` for `n` of two digits
digits : ℕ → ℕ → String
digits zero n = ""
digits (suc f) n =
    let rest = digits f (n / 10) ++ digit (n % 10) in if ltb n 10 then digit n else rest

unfoldable pub decimal : ℕ → String
unfolding digits digit
decimal n = digits (suc n) n

decimal_test : decimal 9057 ≡ "9057"
unfolding decimal
decimal_test = refl
