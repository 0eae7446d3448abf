-- ===== src/Prelude/Int.antt =====
-- Go's `int` and `uint` are 64 bits wide. A `uint` is a number below 2 ^ 64; `int(u)` reads its bits
-- as a signed number.
use Prim.Native.Nat.{ℕ, ◌+◌, ◌-◌, ◌%◌, ◌^◌, ◌≤◌}
use mathlib.Core.Bool.{Bool, true}
use mathlib.Core.Path.{◌≡◌}
use native.Mathlib.Omega.{arith}
use deployd.Prelude.Tests.{ltb, leb, if◌then◌else◌}

-- `negsuc n` is -(n + 1).
pub data ℤ : Type 0 where
  pos : ℕ → ℤ
  negsuc : ℕ → ℤ

abbrev pub max_int : ℕ
max_int = 2 ^ 63 - 1

-- int(u)
abbrev pub to_int : ℕ → ℤ
to_int u = if leb u max_int then pos u else negsuc (2 ^ 64 - u - 1)

-- u++
abbrev pub uint_incr : ℕ → ℕ
uint_incr u = (u + 1) % 2 ^ 64

-- i < len(xs)
abbrev pub lt_len : ℤ → ℕ → Bool
lt_len (pos i) n = ltb i n
lt_len (negsuc i) n = true

-- Below the bound of `int` the conversion and the increment are exact.
pub to_int_small : (u : ℕ) → u ≤ max_int → to_int u ≡ pos u
to_int_small u h = ground arith

pub uint_incr_small : (u : ℕ) → u ≤ max_int → uint_incr u ≡ u + 1
uint_incr_small u h = omega arith
