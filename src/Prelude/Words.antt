-- ===== src/Prelude/Words.antt =====
-- Machine words: `uint` and `int` as 32-bit patterns, `uint64` as 64-bit patterns.
use Prim.Native.Nat.{ℕ, ◌+◌, ◌-◌, ◌%◌, ◌^◌}
use mathlib.Core.Bool.{Bool}
use fog_os.Prelude.Tests.{ltb, leb, if◌then◌else◌}

-- `x + y`, `x - y` and `x * y` of two 32-bit words.
abbrev pub add32 : ℕ → ℕ → ℕ
add32 x y = (x + y) % 2 ^ 32

abbrev pub sub32 : ℕ → ℕ → ℕ
sub32 x y = (x + 2 ^ 32 - y) % 2 ^ 32

-- `x < 0`, for an `int`.
abbrev pub is_neg : ℕ → Bool
is_neg x = leb (2 ^ 31) x

-- `x < y`, for two values of type `int`: the patterns are compared with the sign bit turned over.
abbrev pub slt : ℕ → ℕ → Bool
slt x y = ltb ((x + 2 ^ 31) % 2 ^ 32) ((y + 2 ^ 31) % 2 ^ 32)

abbrev pub add64 : ℕ → ℕ → ℕ
add64 x y = (x + y) % 2 ^ 64

abbrev pub sub64 : ℕ → ℕ → ℕ
sub64 x y = (x + 2 ^ 64 - y) % 2 ^ 64

-- How often `for (i = 0; i < n; i++)` runs, for an `int` `n`.
abbrev pub rounds : ℕ → ℕ
rounds n = if is_neg n then 0 else n
