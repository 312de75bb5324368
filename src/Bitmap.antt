-- ===== src/Bitmap.antt =====
-- The bitmap helpers of kernel/fs.c, which kernel/pmm.c has as well. A bitmap is an array of
-- bytes; bit `i` is bit `i % 8` of byte `i / 8`.
pub mod Byte
pub mod Laws
pub mod Count
use seng21213_os_se.Base.{ℕ, ◌-◌, ◌*◌, ◌/◌, ◌%◌, ◌^◌, Bool, not, bit_and, bit_or, ◌==◌, update}

abbrev pub Bitmap : Type 0
Bitmap = ℕ → ℕ

-- `byte & (1 << k)`, as a condition.
unfoldable pub test_bit : ℕ → ℕ → Bool
test_bit byte k = not (bit_and byte (2 ^ k) == 0)

-- `byte |= (1 << k)`, stored in a byte.
unfoldable pub set_bit : ℕ → ℕ → ℕ
set_bit byte k = bit_or byte (2 ^ k) % 256

-- `byte &= ~(1 << k)`, stored in a byte; the complement is that of a 32-bit integer.
unfoldable pub clear_bit : ℕ → ℕ → ℕ
clear_bit byte k = bit_and byte (2 ^ 32 - 1 - 2 ^ k) % 256

unfoldable pub bitmap_test : Bitmap → ℕ → Bool
bitmap_test bitmap bit = test_bit (bitmap (bit / 8)) (bit % 8)

unfoldable pub bitmap_set : Bitmap → ℕ → Bitmap
bitmap_set bitmap bit = update bitmap (bit / 8) (set_bit (bitmap (bit / 8)) (bit % 8))

unfoldable pub bitmap_clear : Bitmap → ℕ → Bitmap
bitmap_clear bitmap bit = update bitmap (bit / 8) (clear_bit (bitmap (bit / 8)) (bit % 8))
