-- ===== src/Bitmap/Count.antt =====
-- The number of clear bits below a bound.
use seng21213_os_se.Base.{ℕ, zero, suc, ◌+◌, ◌≤◌, ◌<◌, ◌≡◌, refl, true, false, arith, if◌then◌else◌}
use seng21213_os_se.Bitmap.{Bitmap, bitmap_test, bitmap_set, bitmap_clear}
use seng21213_os_se.Bitmap.Laws.{IsBytes, bitmap_test-set, bitmap_test-clear}

unfoldable pub clear_count : ℕ → Bitmap → ℕ
clear_count zero b = 0
clear_count (suc n) b = (if bitmap_test b n then 0 else 1) + clear_count n b

pub clear_count-le : (n : ℕ) (b : Bitmap) → clear_count n b ≤ n
unfolding clear_count
clear_count-le zero b = omega arith
clear_count-le (suc n) b = ground (arith, clear_count-le n b)

clear_count-set_above :
    (n : ℕ) (b : Bitmap) (i : ℕ)
    → IsBytes b
    → n ≤ i
    → clear_count n (bitmap_set b i) ≡ clear_count n b
unfolding clear_count
clear_count-set_above zero b i h le = refl
clear_count-set_above (suc n) b i h le =
    ground (arith, bitmap_test-set b i n h, clear_count-set_above n b i h)

-- Setting a clear bit below the bound takes one from the count.
pub clear_count-set :
    (n : ℕ) (b : Bitmap) (i : ℕ)
    → IsBytes b
    → i < n
    → bitmap_test b i ≡ false
    → clear_count n (bitmap_set b i) + 1 ≡ clear_count n b
unfolding clear_count
clear_count-set zero b i h lt e = absurd (omega arith)
clear_count-set (suc n) b i h lt e =
    ground (arith, bitmap_test-set b i n h, clear_count-set n b i h, clear_count-set_above n b i h)

clear_count-clear_above :
    (n : ℕ) (b : Bitmap) (i : ℕ)
    → IsBytes b
    → n ≤ i
    → clear_count n (bitmap_clear b i) ≡ clear_count n b
unfolding clear_count
clear_count-clear_above zero b i h le = refl
clear_count-clear_above (suc n) b i h le =
    ground (arith, bitmap_test-clear b i n h, clear_count-clear_above n b i h)

-- Clearing a set bit below the bound adds one to the count.
pub clear_count-clear :
    (n : ℕ) (b : Bitmap) (i : ℕ)
    → IsBytes b
    → i < n
    → bitmap_test b i ≡ true
    → clear_count n (bitmap_clear b i) ≡ clear_count n b + 1
unfolding clear_count
clear_count-clear zero b i h lt e = absurd (omega arith)
clear_count-clear (suc n) b i h lt e =
    ground
      (arith, bitmap_test-clear b i n h, clear_count-clear n b i h, clear_count-clear_above n b i h)

pub clear_count_all_set :
    (n : ℕ) (b : Bitmap) → ((i : ℕ) → i < n → bitmap_test b i ≡ true) → clear_count n b ≡ 0
unfolding clear_count
clear_count_all_set zero b h = refl
clear_count_all_set (suc n) b h =
    ground (arith, h n, clear_count_all_set n b (λ i lt. h i (omega arith)))

pub clear_count_all_clear :
    (n : ℕ) (b : Bitmap) → ((i : ℕ) → i < n → bitmap_test b i ≡ false) → clear_count n b ≡ n
unfolding clear_count
clear_count_all_clear zero b h = refl
clear_count_all_clear (suc n) b h =
    ground (arith, h n, clear_count_all_clear n b (λ i lt. h i (omega arith)))
