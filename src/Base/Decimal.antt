-- ===== src/Base/Decimal.antt =====
-- `str(n)` of a natural number.
use Prim.Native.Nat.{ℕ, zero, suc, ◌/◌, ◌%◌}
use Prim.Native.String.{String, ◌++◌ as ◌<>◌}
use mathlib.Core.Path.{◌≡◌, refl}
use pidprobe.Base.Tests.{◌==◌, if◌then◌else◌}

digit : ℕ → String
digit n =
    if n == 0
    then "0"
    else if n == 1
    then "1"
    else if n == 2
    then "2"
    else if n == 3
    then "3"
    else if n == 4
    then "4"
    else if n == 5
    then "5"
    else if n == 6
    then "6"
    else if n == 7
    then "7"
    else if n == 8
    then "8"
    else "9"

show_fuel : ℕ → ℕ → String → String
unfolding digit
show_fuel zero n acc = acc
show_fuel (suc fuel) n acc =
    let acc' = digit (n % 10) <> acc in
    let more = show_fuel fuel (n / 10) acc' in if n / 10 == 0 then acc' else more

-- A number has at most as many digits as its value and one more.
unfoldable pub show : ℕ → String
unfolding show_fuel
show n = show_fuel (suc n) n ""

show_example : show 12045 ≡ "12045"
unfolding show
show_example = refl
