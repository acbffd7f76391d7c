-- ===== src/Base/Word.antt =====
-- Casts to the fixed widths, shifts and complements. A word is a native number below `2 ^ w`.
use Prim.Native.Nat.{ℕ, ◌-◌, ◌*◌, ◌/◌, ◌%◌, ◌^◌}

abbrev pub u8 : ℕ → ℕ
u8 n = n % 2 ^ 8

abbrev pub u16 : ℕ → ℕ
u16 n = n % 2 ^ 16

abbrev pub u32 : ℕ → ℕ
u32 n = n % 2 ^ 32

infixl 75 ◌<<<◌ ◌>>>◌
abbrev pub ◌<<<◌ : ℕ → ℕ → ℕ
x <<< k = x * 2 ^ k

abbrev pub ◌>>>◌ : ℕ → ℕ → ℕ
x >>> k = x / 2 ^ k

-- `~x` of a `uint32_t`.
unfoldable pub not32 : ℕ → ℕ
not32 x = 2 ^ 32 - 1 - u32 x

-- The `uint32_t` that -1 converts to.
abbrev pub all_ones : ℕ
all_ones = 2 ^ 32 - 1
