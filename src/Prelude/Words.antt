-- ===== src/Prelude/Words.antt =====
-- Machine words as native numbers: a 64-bit word is a number below 2 ^ 64, and a signed one is read
-- from its bit pattern, so that `+`, `-` and `*` of Go are these.
use Prim.Native.Nat.{ℕ, ◌+◌, ◌-◌, ◌*◌, ◌%◌, ◌^◌, bit_and}
use mathlib.Core.Bool.{Bool}
use damon.Prelude.Tests.{ltb}

abbrev pub word64 : ℕ
word64 = 2 ^ 64

abbrev pub add64 : ℕ → ℕ → ℕ
add64 a b = (a + b) % 2 ^ 64

abbrev pub sub64 : ℕ → ℕ → ℕ
sub64 a b = (a + 2 ^ 64 - b) % 2 ^ 64

abbrev pub mul64 : ℕ → ℕ → ℕ
mul64 a b = (a * b) % 2 ^ 64

-- `v & mask > 0`
abbrev pub has_flag : ℕ → ℕ → Bool
has_flag v mask = ltb 0 (bit_and v mask)
