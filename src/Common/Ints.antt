-- ===== src/Common/Ints.antt =====
-- Go's `int` as a 64-bit word.
use Prim.Native.Nat.{ℕ, ◌+◌, ◌-◌, ◌%◌, ◌^◌}
use mathlib.Core.Bool.{Bool}
use mr_and_raft.Common.Tests.{leb}

-- `x + y`, `x - y` and `x >= y` of `int`s
abbrev pub add_int : ℕ → ℕ → ℕ
add_int x y = (x + y) % 2 ^ 64

abbrev pub sub_int : ℕ → ℕ → ℕ
sub_int x y = (x + (2 ^ 64 - y)) % 2 ^ 64

abbrev pub ge_int : ℕ → ℕ → Bool
ge_int x y = leb ((y + 2 ^ 63) % 2 ^ 64) ((x + 2 ^ 63) % 2 ^ 64)
