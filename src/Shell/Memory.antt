-- ===== src/Shell/Memory.antt =====
-- The self-test of `cmd_meminfo` in kernel/kernel.c over kernel/pmm.c.
use seng21213_os_se.Base.{
  ℕ, zero, suc, ◌+◌, ◌*◌, ◌≤◌, ◌<◌, ◌≡◌, ◌⊎◌, inl, inr, refl, ap, Bool, true, false, ◌||◌, List, [],
  ◌∷◌, length, arith, ◌==◌, if◌then◌else◌, ltb,
}
use seng21213_os_se.Bitmap.{bitmap_test}
use seng21213_os_se.Bitmap.Laws.{bitmap_test-set, bitmap_test-clear}
use seng21213_os_se.Bitmap.Count.{clear_count-set}
use seng21213_os_se.Pmm.{
  Pmm, frame_size, max_frames, low_frames, pmm_alloc_frame, pmm_free_frame, pmm_used_frames,
  pmm_total_frames, pmm_free_frames,
}
use seng21213_os_se.Pmm.Init.{IsValid}
use seng21213_os_se.Pmm.Alloc.{
  take_frame, found, full, pmm_alloc_frame-Search, pmm_alloc_frame-IsValid, pmm_alloc_frame_lem,
}
use seng21213_os_se.Pmm.Free.{pmm_free_frame-give, pmm_free_frame_lem}

-- `n` rounds of the loop that allocates: the addresses in order, and the state.
unfoldable pub alloc_frames : ℕ → Pmm → List ℕ × Pmm
alloc_frames zero s = ([], s)
alloc_frames (suc n) s =
    let a = pmm_alloc_frame s in
    let rest = alloc_frames n a.1 in if a.0 == 0 then ([], a.1) else (a.0 ∷ rest.0, rest.1)

-- The loop that frees, from the first address on.
unfoldable pub free_frames : List ℕ → Pmm → Pmm
free_frames [] s = s
free_frames (a ∷ frames) s = free_frames frames (pmm_free_frame a s)

-- The numbers that `cmd_meminfo` prints, and whether the self-test passes.
pub record MemInfo : Type 0 where
  pub total : ℕ
  pub used : ℕ
  pub free : ℕ
  pub allocated : ℕ
  pub used_after_alloc : ℕ
  pub used_after_free : ℕ
  pub pass : Bool

unfoldable pub cmd_meminfo : Pmm → MemInfo × Pmm
cmd_meminfo s =
    let a = alloc_frames 100 s in
    let t = free_frames a.0 a.1 in
    (
      record {
        total = pmm_total_frames s;
        used = pmm_used_frames s;
        free = pmm_free_frames s;
        allocated = length a.0;
        used_after_alloc = pmm_used_frames a.1;
        used_after_free = pmm_used_frames t;
        pass = pmm_used_frames t == pmm_used_frames s;
      },
      t,
    )

-- The frame is one of those at the addresses.
abbrev holds : List ℕ → ℕ → Bool
holds [] g = false
holds (a ∷ frames) g = (a == g * frame_size) || holds frames g

-- From `s` to `t` the frames have been taken (`b` is true) or given back, and no other bit changes.
record Moves (b : Bool) (frames : List ℕ) (s t : Pmm) : Type 0 where
  valid : IsValid t
  bits : (g : ℕ) → bitmap_test t.bitmap g ≡ (if holds frames g then b else bitmap_test s.bitmap g)
  total : t.total_frames_count ≡ s.total_frames_count

-- Distinct frames above the first megabyte, all in use.
abbrev Owned : List ℕ → Pmm → Type 0
Owned [] s = Unit {0}
Owned (a ∷ frames) s =
    (f : ℕ) × (a ≡ f * frame_size)
    × (low_frames ≤ f)
    × (f < max_frames)
    × (bitmap_test s.bitmap f ≡ true)
    × (holds frames f ≡ false)
    × Owned frames s

alloc_step :
    {s : Pmm}
    → IsValid s
    → ((f : ℕ) × ((pmm_alloc_frame s).0 ≡ f * frame_size)
        × (low_frames ≤ f)
        × (f < max_frames)
        × (bitmap_test s.bitmap f ≡ false)
        × ((pmm_alloc_frame s).1.used_frames_count ≡ s.used_frames_count + 1)
        × Moves true (f * frame_size ∷ []) s (pmm_alloc_frame s).1)
      ⊎ (((pmm_alloc_frame s).0 ≡ 0) × ((pmm_alloc_frame s).1 ≡ s))
alloc_step {s} v =
    let valid = pmm_alloc_frame-IsValid v in
    elim (pmm_alloc_frame-Search s) [
      | full none_left o ↦ inr (rw o (refl, refl))
      | found f le lt clear least o ↦
          let less = clear_count-set max_frames s.bitmap f v.bytes lt clear in
          let valid' : IsValid (take_frame f s) = rw (← (ap (λ r. r.1) o)) valid in
          rw o (
            inl (
              f,
              omega arith,
              ground (arith, v.low f),
              lt,
              clear,
              omega (arith, less, v.counted, v.total_le),
              record {
                valid = valid';
                bits = λ g. ground (arith, bitmap_test-set s.bitmap f g v.bytes);
                total = refl;
              },
            ))
    ]

free_step :
    {s : Pmm} (f : ℕ)
    → IsValid s
    → low_frames ≤ f
    → f < max_frames
    → bitmap_test s.bitmap f ≡ true
    → 0 < s.used_frames_count
    → ((pmm_free_frame (f * frame_size) s).used_frames_count + 1 ≡ s.used_frames_count)
      × Moves false (f * frame_size ∷ []) s (pmm_free_frame (f * frame_size) s)
free_step {s} f v le lt used some_used =
    let e = pmm_free_frame-give s f (omega arith) lt used some_used in
    let valid = (pmm_free_frame_lem f v le lt used some_used).0 in
    rw e (
      omega arith,
      record {
        valid = rw (← e) valid;
        bits = λ g. ground (arith, bitmap_test-clear s.bitmap f g v.bytes);
        total = refl;
      },
    )

-- The frames of the list were free at the start, and are owned at the end.
alloc_frames_lem :
    (n : ℕ) {s : Pmm}
    → IsValid s
    → Moves true (alloc_frames n s).0 s (alloc_frames n s).1
      × Owned (alloc_frames n s).0 (alloc_frames n s).1
      × ((g : ℕ) → holds (alloc_frames n s).0 g ≡ true → bitmap_test s.bitmap g ≡ false)
      × ((alloc_frames n s).1.used_frames_count ≡ s.used_frames_count + length (alloc_frames n s).0)
unfolding alloc_frames
alloc_frames_lem zero v = (
  record { valid = v; bits = λ g. refl; total = refl },
  tt,
  λ g h. absurd (ground arith),
  omega arith,
)
alloc_frames_lem (suc n) {s} v = elim (alloc_step v) [
  | inr o ↦
      rw (o.0, o.1)
        (
          record { valid = v; bits = λ g. refl; total = refl },
          tt,
          λ g h. absurd (ground arith),
          omega arith,
        )
  | inl (f, addr, le, lt, clear, used, m) ↦
      let ih = alloc_frames_lem n m.valid in
      let nz : (f * frame_size == 0) ≡ false = ground arith in
      rw (addr, nz)
        (
          record {
            valid = ih.0.valid;
            bits = λ g. ground (arith, ih.0.bits g, m.bits g);
            total = omega (arith, ih.0.total, m.total);
          },
          (
            f,
            refl,
            le,
            lt,
            ground (arith, ih.0.bits f, m.bits f),
            ground (arith, ih.2 f, m.bits f),
            ih.1,
          ),
          λ g h. ground (arith, ih.2 g, m.bits g),
          omega (arith, ih.3),
        )
]

-- The loop allocates as many frames as it has rounds, or all that are free.
alloc_frames-free :
    (n : ℕ) {s : Pmm}
    → IsValid s
    → length (alloc_frames n s).0 ≡ (if ltb n (pmm_free_frames s) then n else pmm_free_frames s)
unfolding alloc_frames
alloc_frames-free zero {s} v = ground arith
alloc_frames-free (suc n) {s} v =
    let ih = alloc_frames-free n (pmm_alloc_frame-IsValid v) in
    elim (pmm_alloc_frame_lem v) [
      | inl (f, addr, le, lt, clear, set, fewer) ↦
          let nz : (f * frame_size == 0) ≡ false = ground arith in
          rw (addr, nz) (ground (arith, ih, fewer))
      | inr (failed, none_free) ↦ rw failed (ground (arith, none_free))
    ]

Owned-kept :
    (frames : List ℕ) (f : ℕ) {s t : Pmm}
    → holds frames f ≡ false
    → Moves false (f * frame_size ∷ []) s t
    → Owned frames s
    → Owned frames t
Owned-kept [] f apart m o = tt
Owned-kept (a ∷ frames) f apart m (g, addr, le, lt, used, fresh, rest) =
    (g, addr, le, lt, ground (arith, m.bits g), fresh, Owned-kept frames f (ground arith) m rest)

free_frames_lem :
    (frames : List ℕ) {s : Pmm}
    → IsValid s
    → Owned frames s
    → length frames ≤ s.used_frames_count
    → Moves false frames s (free_frames frames s)
      × ((free_frames frames s).used_frames_count + length frames ≡ s.used_frames_count)
unfolding free_frames
free_frames_lem [] v o le = (record { valid = v; bits = λ g. refl; total = refl }, omega arith)
free_frames_lem (a ∷ frames) {s} v (f, addr, low, lt, used, fresh, rest) le =
    let (one, m) = free_step f v low lt used (omega arith) in
    let ih = free_frames_lem frames m.valid (Owned-kept frames f fresh m rest) (omega arith) in
    rw addr (
      record {
        valid = ih.0.valid;
        bits = λ g. ground (arith, ih.0.bits g, m.bits g);
        total = omega (arith, ih.0.total, m.total);
      },
      omega (arith, ih.1),
    )

-- In a valid state the self-test of `cmd_meminfo` allocates 100 frames, or all that are free if
-- there are fewer, counts each of them as used, gives each back, and leaves every bit, both
-- counters and the invariant as they were. It passes in either case, also with fewer than 100 frames
-- allocated, or none.
pub cmd_meminfo-pass :
    {s : Pmm}
    → IsValid s
    → let (info, t) = cmd_meminfo s in
      (info.pass ≡ true)
      × (info.allocated ≡ (if ltb 100 info.free then 100 else info.free))
      × (info.used_after_alloc ≡ info.used + info.allocated)
      × (info.used_after_free ≡ info.used)
      × ((g : ℕ) → bitmap_test t.bitmap g ≡ bitmap_test s.bitmap g)
      × (pmm_total_frames t ≡ pmm_total_frames s)
      × IsValid t
unfolding cmd_meminfo pmm_used_frames pmm_total_frames
cmd_meminfo-pass {s} v =
    let a = alloc_frames_lem 100 v in
    let f = free_frames_lem (alloc_frames 100 s).0 a.0.valid a.1 (omega (arith, a.3)) in
    let back : (free_frames (alloc_frames 100 s).0 (alloc_frames 100 s).1).used_frames_count
        ≡ s.used_frames_count =
      omega (arith, a.3, f.1) in
    (
      ground (arith, back),
      alloc_frames-free 100 v,
      a.3,
      back,
      λ g. ground (arith, f.0.bits g, a.0.bits g, a.2 g),
      omega (arith, f.0.total, a.0.total),
      f.0.valid,
    )
