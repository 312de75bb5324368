-- ===== src/Bitmap/Laws.antt =====
-- What the bitmap operations do to each bit.
use seng21213_os_se.Base.{ℕ, ◌/◌, ◌%◌, ◌<◌, ◌≡◌, true, false, arith, ◌==◌, if◌then◌else◌}
use seng21213_os_se.Bitmap.{Bitmap, set_bit, clear_bit, bitmap_test, bitmap_set, bitmap_clear}
use seng21213_os_se.Bitmap.Byte.{test_bit-set_bit, test_bit-clear_bit}

-- Every element of the array is a byte.
abbrev pub IsBytes : Bitmap → Type 0
IsBytes b = (i : ℕ) → b i < 256

pub bitmap_set-IsBytes : (b : Bitmap) (i : ℕ) → IsBytes b → IsBytes (bitmap_set b i)
unfolding bitmap_set set_bit
bitmap_set-IsBytes b i h j = ground (arith, h j)

pub bitmap_clear-IsBytes : (b : Bitmap) (i : ℕ) → IsBytes b → IsBytes (bitmap_clear b i)
unfolding bitmap_clear clear_bit
bitmap_clear-IsBytes b i h j = ground (arith, h j)

pub bitmap_test-set :
    (b : Bitmap) (i j : ℕ)
    → IsBytes b
    → bitmap_test (bitmap_set b i) j ≡ (if i == j then true else bitmap_test b j)
unfolding bitmap_test bitmap_set
bitmap_test-set b i j h = ground (arith, h (i / 8), test_bit-set_bit (b (i / 8)) (i % 8) (j % 8))

pub bitmap_test-clear :
    (b : Bitmap) (i j : ℕ)
    → IsBytes b
    → bitmap_test (bitmap_clear b i) j ≡ (if i == j then false else bitmap_test b j)
unfolding bitmap_test bitmap_clear
bitmap_test-clear b i j h =
    ground (arith, h (i / 8), test_bit-clear_bit (b (i / 8)) (i % 8) (j % 8))
