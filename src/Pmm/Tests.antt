-- ===== src/Pmm/Tests.antt =====
-- The allocator on a machine with three usable frames above the first megabyte, and its theorems
-- there.
use seng21213_os_se.Base.{ℕ, ◌+◌, ◌*◌, ◌≤◌, ◌<◌, ◌≡◌, ◌⊎◌, refl, true, false, List, [], ◌∷◌, arith}
use seng21213_os_se.Bitmap.{test_bit, set_bit, clear_bit, bitmap_test, bitmap_set, bitmap_clear}
use seng21213_os_se.Pmm.{
  E820Entry, Pmm, frame_size, max_frames, low_frames, pmm_init, pmm_alloc_frame, pmm_free_frame,
  pmm_free_frames, pmm_used_frames, pmm_total_frames, add_regions, add_region, free_range, free_one,
  reserve_range, reserve_one, alloc_from,
}
use seng21213_os_se.Pmm.Init.{IsValid, pmm_init_bits, pmm_init-IsValid}
use seng21213_os_se.Pmm.Alloc.{pmm_alloc_frame_lem}
use seng21213_os_se.Pmm.Free.{free-alloc}

abbrev small_map : List E820Entry
small_map =
    record { base = 0x9fc00; len = 0x400; kind = 2 }
    ∷ record { base = 0x100000; len = 0x3800; kind = 1 }
    ∷ []

abbrev small : Pmm
small = pmm_init small_map

small_free : pmm_free_frames small ≡ 3
unfolding pmm_free_frames pmm_init add_regions add_region free_range free_one reserve_range
    reserve_one bitmap_test bitmap_set bitmap_clear test_bit set_bit clear_bit
small_free = refl

first_address : (pmm_alloc_frame small).0 ≡ 0x100000
unfolding pmm_alloc_frame alloc_from pmm_init add_regions add_region free_range free_one
    reserve_range reserve_one bitmap_test bitmap_set bitmap_clear test_bit set_bit clear_bit
first_address = refl

small-IsValid : IsValid small
small-IsValid = (pmm_init-IsValid small_map).0

pmm_init_bits_example : bitmap_test (pmm_init small_map).bitmap 258 ≡ false
pmm_init_bits_example = pmm_init_bits small_map 258 (omega arith)

free-alloc_example :
    let (addr, t) = pmm_alloc_frame small in
    let u = pmm_free_frame addr t in
    ((g : ℕ) → bitmap_test u.bitmap g ≡ bitmap_test small.bitmap g)
    × (pmm_used_frames u ≡ pmm_used_frames small)
    × (pmm_total_frames u ≡ pmm_total_frames small)
free-alloc_example = free-alloc small-IsValid (omega (arith, small_free))

pmm_alloc_frame_lem_example :
    ((f : ℕ) × ((pmm_alloc_frame small).0 ≡ f * frame_size)
      × (low_frames ≤ f)
      × (f < max_frames)
      × (bitmap_test small.bitmap f ≡ false)
      × (bitmap_test (pmm_alloc_frame small).1.bitmap f ≡ true)
      × (pmm_free_frames (pmm_alloc_frame small).1 + 1 ≡ pmm_free_frames small))
    ⊎ (((pmm_alloc_frame small).0 ≡ 0) × (pmm_free_frames small ≡ 0))
pmm_alloc_frame_lem_example = pmm_alloc_frame_lem small-IsValid

-- After one allocation frame 256 is in use.
abbrev one_used : Pmm
one_used = (pmm_alloc_frame small).1

one_used_lem : (bitmap_test one_used.bitmap 256 ≡ true) × (one_used.used_frames_count ≡ 1)
unfolding pmm_alloc_frame alloc_from pmm_init add_regions add_region free_range free_one
    reserve_range reserve_one bitmap_test bitmap_set bitmap_clear test_bit set_bit clear_bit
one_used_lem = (refl, refl)
