-- ===== src/Pmm/Alloc.antt =====
-- `pmm_alloc_frame`: first fit, its failure, and the invariant.
use seng21213_os_se.Base.{
  ℕ, zero, suc, ◌+◌, ◌*◌, ◌%◌, ◌^◌, ◌≤◌, ◌<◌, ◌≡◌, refl, true, false, arith, add32, Bool-cases, inl,
  inr, ◌⊎◌,
}
use seng21213_os_se.Bitmap.{bitmap_test, bitmap_set}
use seng21213_os_se.Bitmap.Laws.{bitmap_set-IsBytes, bitmap_test-set}
use seng21213_os_se.Bitmap.Count.{clear_count, clear_count-set, clear_count_all_set}
use seng21213_os_se.Pmm.{
  Pmm, frame_size, max_frames, low_frames, alloc_from, pmm_alloc_frame, pmm_free_frames,
}
use seng21213_os_se.Pmm.Init.{IsValid}

-- The state in which frame `f` has been taken.
abbrev pub take_frame : ℕ → Pmm → Pmm
take_frame f s = record s {
  bitmap = bitmap_set s.bitmap f;
  used_frames_count = add32 s.used_frames_count 1;
}

-- The outcome of a search of [lo, hi): the least clear frame is taken, or there is none.
pub data Search (lo hi : ℕ) (s : Pmm) (out : ℕ × Pmm) : Type 0 where
  found :
      (f : ℕ)
      → lo ≤ f
      → f < hi
      → bitmap_test s.bitmap f ≡ false
      → ((g : ℕ) → lo ≤ g → g < f → bitmap_test s.bitmap g ≡ true)
      → out ≡ (f * frame_size % 2 ^ 32, take_frame f s)
      → Search lo hi s out
  full :
      ((g : ℕ) → lo ≤ g → g < hi → bitmap_test s.bitmap g ≡ true)
      → out ≡ (0, s)
      → Search lo hi s out

Search-next :
    {lo hi : ℕ} {s : Pmm} {out : ℕ × Pmm}
    → bitmap_test s.bitmap lo ≡ true
    → Search (lo + 1) hi s out
    → Search lo hi s out
Search-next {lo} {s} e (found f le lt clear least o) =
    found f (omega arith) lt clear (λ g p q. first g p (omega arith)) o
  where
    first : (g : ℕ) → lo ≤ g → g < f → bitmap_test s.bitmap g ≡ true
    first g p q = ground (arith, least g)
Search-next {lo} {hi} {s} e (full none_left o) = full (λ g p q. ground (arith, none_left g)) o

alloc_from-Search : (n lo hi : ℕ) (s : Pmm) → lo + n ≡ hi → Search lo hi s (alloc_from n lo s)
unfolding alloc_from
alloc_from-Search zero lo hi s e = full (λ g p q. absurd (omega arith)) refl
alloc_from-Search (suc n) lo hi s e = elim (Bool-cases (bitmap_test s.bitmap lo)) [
  | inl used ↦ rw used (Search-next used (alloc_from-Search n (lo + 1) hi s (omega arith)))
  | inr clear ↦
      rw clear (found lo (omega arith) (omega arith) clear (λ g p q. absurd (omega arith)) refl)
]

-- `pmm_alloc_frame` takes the least free frame, returns its address and counts it, or finds
-- every frame in use, returns 0 and changes nothing.
pub pmm_alloc_frame-Search : (s : Pmm) → Search 0 max_frames s (pmm_alloc_frame s)
unfolding pmm_alloc_frame
pmm_alloc_frame-Search s = alloc_from-Search max_frames 0 max_frames s refl

-- In a valid state `pmm_free_frames` is the number of clear bits.
pub free_frames-clear_count :
    {s : Pmm} → IsValid s → pmm_free_frames s ≡ clear_count max_frames s.bitmap
unfolding pmm_free_frames
free_frames-clear_count v = ground (arith, v.counted)

take_frame-IsValid :
    {s : Pmm} (f : ℕ)
    → IsValid s
    → f < max_frames
    → bitmap_test s.bitmap f ≡ false
    → IsValid (take_frame f s)
take_frame-IsValid {s} f v lt clear =
    let less = clear_count-set max_frames s.bitmap f v.bytes lt clear in
    record {
      bytes = bitmap_set-IsBytes s.bitmap f v.bytes;
      counted = omega (arith, less, v.counted, v.total_le);
      total_le = v.total_le;
      low = λ g lt. ground (arith, v.low g lt, bitmap_test-set s.bitmap f g v.bytes);
    }

-- `pmm_alloc_frame` keeps the invariant, whether it succeeds or not.
pub pmm_alloc_frame-IsValid : {s : Pmm} → IsValid s → IsValid (pmm_alloc_frame s).1
pmm_alloc_frame-IsValid {s} v = elim (pmm_alloc_frame-Search s) [
  | found f le lt clear least o ↦ rw o (take_frame-IsValid f v lt clear)
  | full none_left o ↦ rw o v
]

-- In a valid state `pmm_alloc_frame` either returns the address of a frame of the bitmap above the
-- first megabyte that was free and is in use afterwards, with one free frame less, or it returns
-- 0, no frame being free.
pub pmm_alloc_frame_lem :
    {s : Pmm}
    → IsValid s
    → ((f : ℕ) × ((pmm_alloc_frame s).0 ≡ f * frame_size)
        × (low_frames ≤ f)
        × (f < max_frames)
        × (bitmap_test s.bitmap f ≡ false)
        × (bitmap_test (pmm_alloc_frame s).1.bitmap f ≡ true)
        × (pmm_free_frames (pmm_alloc_frame s).1 + 1 ≡ pmm_free_frames s))
      ⊎ (((pmm_alloc_frame s).0 ≡ 0) × (pmm_free_frames s ≡ 0))
pmm_alloc_frame_lem {s} v = elim (pmm_alloc_frame-Search s) [
  | found f le lt clear least o ↦ rw o (
      inl (
        f,
        omega arith,
        ground (arith, v.low f),
        lt,
        clear,
        ground (arith, bitmap_test-set s.bitmap f f v.bytes),
        omega (
          arith,
          free_frames-clear_count v,
          free_frames-clear_count (take_frame-IsValid f v lt clear),
          clear_count-set max_frames s.bitmap f v.bytes lt clear,
        ),
      ))
  | full none_left o ↦ rw o (
      inr (
        refl,
        omega (
          arith,
          free_frames-clear_count v,
          clear_count_all_set max_frames s.bitmap (λ g lt. none_left g (omega arith) lt),
        ),
      ))
]
