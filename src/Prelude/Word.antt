-- ===== src/Prelude/Word.antt =====
-- Unsigned machine arithmetic: values are plain numbers, and each operation writes its wrap-around.
use mathlib.Core.Bool.{Bool}
use tcp_archive.Prelude.Tests.{leb}
use Prim.Native.Nat.{ℕ, ◌+◌, ◌-◌, ◌%◌}

abbrev pub u8 : ℕ → ℕ
u8 x = x % 256

abbrev pub u16 : ℕ → ℕ
u16 x = x % 65536

abbrev pub u32 : ℕ → ℕ
u32 x = x % 4294967296

-- `uint32_t` addition and subtraction.
abbrev pub add32 : ℕ → ℕ → ℕ
add32 a b = u32 (a + b)

abbrev pub sub32 : ℕ → ℕ → ℕ
sub32 a b = u32 (a + 4294967296 - u32 b)

-- `a <= b` on two `int`s given as 32-bit patterns, and `a + b` on them.
abbrev pub int_leb : ℕ → ℕ → Bool
int_leb a b = leb ((a + 2147483648) % 4294967296) ((b + 2147483648) % 4294967296)
