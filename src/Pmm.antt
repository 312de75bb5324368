-- ===== src/Pmm.antt =====
-- kernel/pmm.c: the allocator of 4 KB physical frames. The bitmap has a bit for each frame, set
-- if the frame is in use; the E820 map, which the boot loader leaves in memory, is a list.
pub mod Init
pub mod Alloc
pub mod Free
mod Tests
use seng21213_os_se.Base.{
  ℕ, zero, suc, ◌+◌, ◌-◌, ◌*◌, ◌/◌, ◌%◌, ◌^◌, List, [], ◌∷◌, ◌==◌, ltb, leb, if◌then◌else◌, add32,
  not,
}
use seng21213_os_se.Bitmap.{Bitmap, bitmap_test, bitmap_set, bitmap_clear}

abbrev pub frame_size : ℕ
frame_size = 4096

abbrev pub max_frames : ℕ
max_frames = 32768

-- `e820_entry_t`. `base` and `len` are 64 bits wide; the field `acpi` is not read.
pub record E820Entry : Type 0 where
  pub base : ℕ
  pub len : ℕ
  pub kind : ℕ

-- The variables of the module.
pub record Pmm : Type 0 where
  pub bitmap : Bitmap
  pub total_frames_count : ℕ
  pub used_frames_count : ℕ

-- The first frame that lies wholly above `start`.
pub first_frame : ℕ → ℕ
first_frame start = (start + frame_size - 1) / frame_size % 2 ^ 32

-- The end of the region, cut at 4 GB, in whole frames, cut at the size of the bitmap.
pub last_frame : ℕ → ℕ
last_frame end =
    let cut = if ltb (2 ^ 32) end then 2 ^ 32 else end in
    let last = cut / frame_size % 2 ^ 32 in if ltb max_frames last then max_frames else last

-- The body of the loop that marks the frames of a usable region as free.
pub free_one : ℕ → Pmm → Pmm
free_one frame s =
    if bitmap_test s.bitmap frame
    then record s {
      bitmap = bitmap_clear s.bitmap frame;
      total_frames_count = add32 s.total_frames_count 1;
    }
    else s

-- `n` rounds of that loop, from `frame` on.
pub free_range : ℕ → ℕ → Pmm → Pmm
free_range zero frame s = s
free_range (suc n) frame s = free_range n (frame + 1) (free_one frame s)

-- One round of the loop over the E820 map.
pub add_region : E820Entry → Pmm → Pmm
unfolding first_frame last_frame
add_region e s =
    if not (e.kind == 1)
    then s
    else if leb (2 ^ 32) e.base
    then s
    else let first = first_frame e.base in
      free_range (last_frame ((e.base + e.len) % 2 ^ 64) - first) first s

pub add_regions : List E820Entry → Pmm → Pmm
add_regions [] s = s
add_regions (e ∷ es) s = add_regions es (add_region e s)

-- The body of the loop that reserves low memory.
pub reserve_one : ℕ → Pmm → Pmm
reserve_one frame s =
    if not (bitmap_test s.bitmap frame)
    then record s {
      bitmap = bitmap_set s.bitmap frame;
      total_frames_count =
          if ltb 0 s.total_frames_count then s.total_frames_count - 1 else s.total_frames_count;
    }
    else s

pub reserve_range : ℕ → ℕ → Pmm → Pmm
reserve_range zero frame s = s
reserve_range (suc n) frame s = reserve_range n (frame + 1) (reserve_one frame s)

-- 1 MB in frames.
abbrev pub low_frames : ℕ
low_frames = 0x100000 / frame_size

abbrev pub all_used : Pmm
all_used = record { bitmap = λ _. 0xff; total_frames_count = 0; used_frames_count = 0 }

pub pmm_init : List E820Entry → Pmm
pmm_init entries = record (reserve_range low_frames 0 (add_regions entries all_used)) {
  used_frames_count = 0;
}

-- `n` rounds of the search of `pmm_alloc_frame`, from `frame` on.
pub alloc_from : ℕ → ℕ → Pmm → ℕ × Pmm
alloc_from zero frame s = (0, s)
alloc_from (suc n) frame s =
    let rest = alloc_from n (frame + 1) s in
    let taken = record s {
      bitmap = bitmap_set s.bitmap frame;
      used_frames_count = add32 s.used_frames_count 1;
    } in
    if not (bitmap_test s.bitmap frame) then (frame * frame_size % 2 ^ 32, taken) else rest

pub pmm_alloc_frame : Pmm → ℕ × Pmm
pmm_alloc_frame s = alloc_from max_frames 0 s

pub pmm_free_frame : ℕ → Pmm → Pmm
pmm_free_frame paddr s =
    if paddr == 0
    then s
    else if not (paddr % frame_size == 0)
    then s
    else let frame = paddr / frame_size in
      if leb max_frames frame
      then s
      else if bitmap_test s.bitmap frame
      then record s {
        bitmap = bitmap_clear s.bitmap frame;
        used_frames_count =
            if ltb 0 s.used_frames_count then s.used_frames_count - 1 else s.used_frames_count;
      }
      else s

unfoldable pub pmm_total_frames : Pmm → ℕ
pmm_total_frames s = s.total_frames_count

unfoldable pub pmm_used_frames : Pmm → ℕ
pmm_used_frames s = s.used_frames_count

pub pmm_free_frames : Pmm → ℕ
pmm_free_frames s =
    if leb s.used_frames_count s.total_frames_count
    then s.total_frames_count - s.used_frames_count
    else 0
