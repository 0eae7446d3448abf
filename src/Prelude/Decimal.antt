-- ===== src/Prelude/Decimal.antt =====
-- strconv.FormatUint in base 10.
use Prim.Native.Nat.{ℕ, zero, suc, ◌/◌, ◌%◌}
use Prim.Native.String.{String, ◌++◌ as ◌<>◌}
use mathlib.Core.Path.{◌≡◌, refl}
use deployd.Prelude.Tests.{ltb, nat_beq, if◌then◌else◌}

abbrev pub digit : ℕ → String
digit d =
    if nat_beq d 0
    then "0"
    else if nat_beq d 1
    then "1"
    else if nat_beq d 2
    then "2"
    else if nat_beq d 3
    then "3"
    else if nat_beq d 4
    then "4"
    else if nat_beq d 5
    then "5"
    else if nat_beq d 6
    then "6"
    else if nat_beq d 7
    then "7"
    else if nat_beq d 8
    then "8"
    else "9"

-- A number has no more digits than the fuel, which is one above it.
unfoldable pub format_on : ℕ → ℕ → String
format_on zero n = ""
format_on (suc fuel) n =
    let front = format_on fuel (n / 10) in if ltb n 10 then digit n else front <> digit (n % 10)

unfoldable pub format_uint : ℕ → String
unfolding format_on
format_uint n = format_on (suc n) n

format_uint_test : format_uint 1203 ≡ "1203"
unfolding format_uint
format_uint_test = refl
