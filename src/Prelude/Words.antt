-- ===== src/Prelude/Words.antt =====
-- C integers as bit patterns: uint32_t, size_t (64 bits) and int (32 bits, two's complement).
use Prim.Native.Nat.{ℕ, ◌+◌, ◌-◌, ◌%◌, ◌^◌, ◌≤◌, ◌<◌}
use mathlib.Core.Path.{◌≡◌}
use native.Mathlib.Omega.{arith}
use mathlib.Core.Bool.{Bool}
use make_the_american_great.Prelude.Tests.{ltb, if◌then◌else◌}

-- Conversion to uint32_t, and to the bit pattern of an int.
abbrev pub u32 : ℕ → ℕ
u32 a = a % 2 ^ 32

-- Conversion to size_t.
abbrev pub u64 : ℕ → ℕ
u64 a = a % 2 ^ 64

-- a - b in uint32_t or int, and in size_t.
abbrev pub sub32 : ℕ → ℕ → ℕ
sub32 a b = (a + 2 ^ 32 - b) % 2 ^ 32

abbrev pub sub64 : ℕ → ℕ → ℕ
sub64 a b = (a + 2 ^ 64 - b) % 2 ^ 64

-- a < b for two ints given by their bit patterns.
abbrev pub lt_int : ℕ → ℕ → Bool
lt_int a b = ltb ((a + 2 ^ 31) % 2 ^ 32) ((b + 2 ^ 31) % 2 ^ 32)

-- The conversion of an int to size_t extends the sign.
unfoldable pub int_to_size : ℕ → ℕ
int_to_size a = if ltb a (2 ^ 31) then a else a + 2 ^ 64 - 2 ^ 32

pub int_to_size-eq : (a : ℕ) → a < 2 ^ 31 → int_to_size a ≡ a
unfolding int_to_size
int_to_size-eq a h = ground arith

pub sub32-eq : (a b : ℕ) → b ≤ a → a < 2 ^ 32 → sub32 a b ≡ a - b
sub32-eq a b h k = omega arith
