-- ===== src/Pmm/Free.antt =====
-- `pmm_free_frame`: what it ignores, what it gives back, and that it undoes an allocation.
use seng21213_os_se.Base.{
  ℕ, ◌+◌, ◌-◌, ◌*◌, ◌/◌, ◌%◌, ◌≤◌, ◌<◌, ◌≡◌, refl, true, false, not, ◌||◌, arith, ◌==◌, leb, ◌≢◌,
  ◌^◌, add32,
}
use seng21213_os_se.Bitmap.{bitmap_test, bitmap_set, bitmap_clear}
use seng21213_os_se.Bitmap.Laws.{
  bitmap_set-IsBytes, bitmap_clear-IsBytes, bitmap_test-set, bitmap_test-clear,
}
use seng21213_os_se.Bitmap.Count.{clear_count-set, clear_count-clear, clear_count_all_set}
use seng21213_os_se.Pmm.{
  Pmm, frame_size, max_frames, low_frames, pmm_alloc_frame, pmm_free_frame, pmm_free_frames,
  pmm_used_frames, pmm_total_frames,
}
use seng21213_os_se.Pmm.Init.{IsValid}
use seng21213_os_se.Pmm.Alloc.{
  take_frame, found, full, pmm_alloc_frame-Search, free_frames-clear_count,
}

-- `pmm_free_frame` changes nothing when it is given 0, an address that is not a multiple of the
-- frame size, one past the bitmap, or the address of a frame that is free already.
pub pmm_free_frame_ignored :
    (p : ℕ) (s : Pmm)
    → ((p == 0)
        || (not (p % frame_size == 0)
            || (leb max_frames (p / frame_size) || not (bitmap_test s.bitmap (p / frame_size)))))
      ≡ true
    → pmm_free_frame p s ≡ s
unfolding pmm_free_frame
pmm_free_frame_ignored p s h = ground arith

-- The state in which frame `f` has been given back.
abbrev pub give_frame : ℕ → Pmm → Pmm
give_frame f s = record s {
  bitmap = bitmap_clear s.bitmap f;
  used_frames_count = s.used_frames_count - 1;
}

pub pmm_free_frame-give :
    (s : Pmm) (f : ℕ)
    → 0 < f
    → f < max_frames
    → bitmap_test s.bitmap f ≡ true
    → 0 < s.used_frames_count
    → pmm_free_frame (f * frame_size) s ≡ give_frame f s
unfolding pmm_free_frame
pmm_free_frame-give s f pos lt used some_used =
    let e : f * frame_size / frame_size ≡ f = omega arith in
    let z : (f * frame_size == 0) ≡ false = ground arith in
    let m : (f * frame_size % frame_size == 0) ≡ true = ground arith in
    rw (z, m, e, used) (ground arith)

-- In a valid state, freeing a frame in use above the first megabyte, while some allocation is
-- outstanding, keeps the invariant, leaves the frame free, and adds one to the free frames.
pub pmm_free_frame_lem :
    {s : Pmm} (f : ℕ)
    → IsValid s
    → low_frames ≤ f
    → f < max_frames
    → bitmap_test s.bitmap f ≡ true
    → 0 < s.used_frames_count
    → IsValid (pmm_free_frame (f * frame_size) s)
      × (bitmap_test (pmm_free_frame (f * frame_size) s).bitmap f ≡ false)
      × (pmm_free_frames (pmm_free_frame (f * frame_size) s) ≡ pmm_free_frames s + 1)
pmm_free_frame_lem {s} f v le lt used some_used =
    let more = clear_count-clear max_frames s.bitmap f v.bytes lt used in
    let given : IsValid (give_frame f s) = record {
      bytes = bitmap_clear-IsBytes s.bitmap f v.bytes;
      counted = omega (arith, more, v.counted);
      total_le = v.total_le;
      low = λ g lt. ground (arith, v.low g lt, bitmap_test-clear s.bitmap f g v.bytes);
    } in
    rw (pmm_free_frame-give s f (omega arith) lt used some_used) (
      given,
      ground (arith, bitmap_test-clear s.bitmap f f v.bytes),
      omega (arith, free_frames-clear_count v, free_frames-clear_count given, more),
    )

-- Freeing the frame that `pmm_alloc_frame` has just returned restores every bit and both
-- counters, in a valid state with a free frame.
pub free-alloc :
    {s : Pmm}
    → IsValid s
    → pmm_free_frames s ≢ 0
    → let (addr, t) = pmm_alloc_frame s in
      let u = pmm_free_frame addr t in
      ((g : ℕ) → bitmap_test u.bitmap g ≡ bitmap_test s.bitmap g)
      × (pmm_used_frames u ≡ pmm_used_frames s)
      × (pmm_total_frames u ≡ pmm_total_frames s)
unfolding pmm_used_frames pmm_total_frames
free-alloc {s} v some_free = elim (pmm_alloc_frame-Search s) [
  | full none_left o ↦
      let none_free =
        clear_count_all_set max_frames s.bitmap (λ g lt. none_left g (omega arith) lt) in
      absurd (some_free (omega (arith, free_frames-clear_count v, none_free)))
  | found f le lt clear least o ↦
      let addr : f * frame_size % 2 ^ 32 ≡ f * frame_size = omega arith in
      let pos : low_frames ≤ f = ground (arith, v.low f) in
      let one = clear_count-set max_frames s.bitmap f v.bytes lt clear in
      let used : add32 s.used_frames_count 1 ≡ s.used_frames_count + 1 =
        omega (arith, one, v.counted, v.total_le) in
      let hit = bitmap_test-set s.bitmap f f v.bytes in
      let bytes = bitmap_set-IsBytes s.bitmap f v.bytes in
      rw
        (
          o,
          addr,
          pmm_free_frame-give (take_frame f s) f (omega arith) lt (ground (arith, hit))
              (omega arith),
        )
        (
          λ g. ground (
            arith,
            bitmap_test-clear (bitmap_set s.bitmap f) f g bytes,
            bitmap_test-set s.bitmap f g v.bytes,
          ),
          omega arith,
          refl,
        )
]
