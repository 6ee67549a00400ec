-- ===== src/Plan/Text.antt =====
-- The parts of Python's f-strings that the planner uses.
use Prim.Native.String.{◌++◌}
use region_sensitivity.Prelude.{ℕ, zero, suc, ◌/◌, ◌%◌, String, ltb, ◌==◌, if◌then◌else◌}

unfoldable pub digit : ℕ → String
digit n =
    if n == 0
    then "0"
    else if n == 1
    then "1"
    else if n == 2
    then "2"
    else if n == 3
    then "3"
    else if n == 4
    then "4"
    else if n == 5
    then "5"
    else if n == 6
    then "6"
    else if n == 7
    then "7"
    else if n == 8
    then "8"
    else "9"

-- The digits of `n`, most significant first; `n + 1` rounds are enough.
unfoldable pub digits : ℕ → ℕ → String
unfolding digit
digits zero n = ""
digits (suc fuel) n =
    let front = digits fuel (n / 10) in if ltb n 10 then digit n else front ++ digit (n % 10)

-- `str(n)`
unfoldable pub decimal : ℕ → String
unfolding digits
decimal n = digits (suc n) n

abbrev pub join : String → String → String
join s t = s ++ t
