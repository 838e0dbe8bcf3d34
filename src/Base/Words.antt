-- ===== src/Base/Words.antt =====
-- Machine words as native numbers below a power of two, and the kernel's rounding macros.
use Prim.Native.Nat.{ℕ, ◌+◌, ◌-◌, ◌*◌, ◌/◌, ◌%◌, ◌^◌}
use mathlib.Core.Bool.{Bool}
use headless_testing.Base.Tests.{◌==◌}

-- An `int` is its 32-bit pattern: `++` and `--` wrap.
abbrev pub inc32 : ℕ → ℕ
inc32 x = (x + 1) % 2 ^ 32

abbrev pub dec32 : ℕ → ℕ
dec32 x = (x + (2 ^ 32 - 1)) % 2 ^ 32

-- `size_t` and pointers are 64-bit.
abbrev pub add64 : ℕ → ℕ → ℕ
add64 a b = (a + b) % 2 ^ 64

abbrev pub sub64 : ℕ → ℕ → ℕ
sub64 a b = (a + (2 ^ 64 - b)) % 2 ^ 64

-- `ALIGN(x, sizeof(void *))`
abbrev pub align8 : ℕ → ℕ
align8 x = (add64 x 7) / 8 * 8

abbrev pub page_size : ℕ
page_size = 4096

-- `x & PAGE_MASK`
abbrev pub page_mask : ℕ → ℕ
page_mask x = x / page_size * page_size

-- `PAGE_ALIGN(x)`
abbrev pub page_align : ℕ → ℕ
page_align x = page_mask (add64 x (page_size - 1))

-- `PAGE_ALIGNED(x)`
abbrev pub page_aligned : ℕ → Bool
page_aligned x = x % page_size == 0
