-- ===== src/Base/Words.antt =====
-- Unsigned machine words: the modulus of a width, wrapping sums and differences, and the largest
-- values that the source uses as marks.
use Prim.Native.Nat.{ℕ, ◌+◌, ◌-◌, ◌%◌, ◌^◌, ◌<◌}
use mathlib.Core.Path.{◌≡◌}
use native.Mathlib.Omega.{arith}

abbrev pub u16_mod : ℕ
u16_mod = 2 ^ 16

abbrev pub u32_mod : ℕ
u32_mod = 2 ^ 32

abbrev pub u64_mod : ℕ
u64_mod = 2 ^ 64

abbrev pub uint32_max : ℕ
uint32_max = 2 ^ 32 - 1

abbrev pub uint64_max : ℕ
uint64_max = 2 ^ 64 - 1

abbrev pub add32 : ℕ → ℕ → ℕ
add32 a b = (a + b) % u32_mod

abbrev pub sub32 : ℕ → ℕ → ℕ
sub32 a b = (a + u32_mod - b) % u32_mod

abbrev pub add64 : ℕ → ℕ → ℕ
add64 a b = (a + b) % u64_mod

abbrev pub sub64 : ℕ → ℕ → ℕ
sub64 a b = (a + u64_mod - b) % u64_mod

pub add64-lt : (a b : ℕ) → add64 a b < u64_mod
add64-lt a b = omega arith

-- The difference of two counters is the distance between them, also when the larger has wrapped.
pub sub64-add64 : (a n : ℕ) → a < u64_mod → n < u64_mod → sub64 (add64 a n) a ≡ n
sub64-add64 a n h k = omega arith
