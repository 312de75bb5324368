-- ===== src/Pmm/Init.antt =====
-- `pmm_init`: which frames are free afterwards, and how many.
use seng21213_os_se.Base.{
  ℕ, zero, suc, ◌+◌, ◌-◌, ◌*◌, ◌%◌, ◌^◌, ◌≤◌, ◌<◌, ◌≡◌, refl, Bool, true, false, not, ◌&&◌, ◌||◌,
  List, [], ◌∷◌, arith, ◌==◌, ltb, leb, if◌then◌else◌, Bool-cases, sym, inl, inr,
}
use native.Mathlib.Decide.{dec_lt}
use seng21213_os_se.Bitmap.{bitmap_test}
use seng21213_os_se.Bitmap.Laws.{
  IsBytes, bitmap_set-IsBytes, bitmap_clear-IsBytes, bitmap_test-set, bitmap_test-clear,
}
use seng21213_os_se.Bitmap.Byte.{full_byte}
use seng21213_os_se.Bitmap.Count.{
  clear_count, clear_count-le, clear_count-set, clear_count-clear, clear_count_all_set,
}
use seng21213_os_se.Pmm.{
  E820Entry, Pmm, frame_size, max_frames, low_frames, first_frame, last_frame, free_one, free_range,
  add_region, add_regions, reserve_one, reserve_range, all_used, pmm_init,
}

-- The total counts the clear bits.
pub record IsCounted (s : Pmm) : Type 0 where
  pub bytes : IsBytes s.bitmap
  pub counted : s.total_frames_count ≡ clear_count max_frames s.bitmap

-- The step from `s` to `t` leaves the invariant, and sets the bits of [lo, hi) to `v`.
record Fills (v : Bool) (lo hi : ℕ) (s t : Pmm) : Type 0 where
  kept : IsCounted t
  bits :
      (f : ℕ)
      → bitmap_test t.bitmap f ≡ (if leb lo f && ltb f hi then v else bitmap_test s.bitmap f)

free_one-Fills :
    (i : ℕ) (s : Pmm) → IsCounted s → i < max_frames → Fills false i (i + 1) s (free_one i s)
unfolding free_one
free_one-Fills i s c lt = record {
  kept = record {
    bytes = ground (arith, bitmap_clear-IsBytes s.bitmap i c.bytes);
    counted = ground (
      arith,
      clear_count-clear max_frames s.bitmap i c.bytes lt,
      clear_count-le max_frames s.bitmap,
    );
  };
  bits = λ f. ground (arith, bitmap_test-clear s.bitmap i f c.bytes);
}

reserve_one-Fills :
    (i : ℕ) (s : Pmm) → IsCounted s → i < max_frames → Fills true i (i + 1) s (reserve_one i s)
unfolding reserve_one
reserve_one-Fills i s c lt = record {
  kept = record {
    bytes = ground (arith, bitmap_set-IsBytes s.bitmap i c.bytes);
    counted = ground (arith, clear_count-set max_frames s.bitmap i c.bytes lt);
  };
  bits = λ f. ground (arith, bitmap_test-set s.bitmap i f c.bytes);
}

-- Two adjacent fills with one value are a fill.
Fills-trans :
    {v : Bool} {a b c : ℕ} {s t u : Pmm}
    → a ≤ b
    → b ≤ c
    → Fills v a b s t
    → Fills v b c t u
    → Fills v a c s u
Fills-trans ab bc p q = record { kept = q.kept; bits = λ f. ground (arith, p.bits f, q.bits f) }

Fills-none : (v : Bool) (i : ℕ) (s : Pmm) → IsCounted s → Fills v i i s s
Fills-none v i s c = record { kept = c; bits = λ f. ground arith }

free_range-Fills :
    (n i j : ℕ) (s : Pmm)
    → i + n ≡ j
    → j ≤ max_frames
    → IsCounted s
    → Fills false i j s (free_range n i s)
unfolding free_range
free_range-Fills zero i j s e le c =
    let e' : i ≡ j = omega arith in rw (← e') (Fills-none false i s c)
free_range-Fills (suc n) i j s e le c =
    let one = free_one-Fills i s c (omega arith) in
    Fills-trans (omega arith) (omega arith) one
      (free_range-Fills n (i + 1) j (free_one i s) (omega arith) le one.kept)

reserve_range-Fills :
    (n i j : ℕ) (s : Pmm)
    → i + n ≡ j
    → j ≤ max_frames
    → IsCounted s
    → Fills true i j s (reserve_range n i s)
unfolding reserve_range
reserve_range-Fills zero i j s e le c =
    let e' : i ≡ j = omega arith in rw (← e') (Fills-none true i s c)
reserve_range-Fills (suc n) i j s e le c =
    let one = reserve_one-Fills i s c (omega arith) in
    Fills-trans (omega arith) (omega arith) one
      (reserve_range-Fills n (i + 1) j (reserve_one i s) (omega arith) le one.kept)

-- A usable region holds the whole of frame `f`.
abbrev pub holds_frame : E820Entry → ℕ → Bool
holds_frame e f =
    (e.kind == 1)
    && (leb e.base (f * frame_size) && leb ((f + 1) * frame_size) ((e.base + e.len) % 2 ^ 64))

abbrev pub any_holds : List E820Entry → ℕ → Bool
any_holds [] f = false
any_holds (e ∷ es) f = holds_frame e f || any_holds es f

-- What one region, and then the map, does to the bitmap.
record Opens (free : ℕ → Bool) (s t : Pmm) : Type 0 where
  kept : IsCounted t
  bits :
      (f : ℕ)
      → f < max_frames
      → bitmap_test t.bitmap f ≡ (if free f then false else bitmap_test s.bitmap f)

Opens-nothing :
    (free : ℕ → Bool) (s : Pmm)
    → IsCounted s
    → ((f : ℕ) → f < max_frames → free f ≡ false)
    → Opens free s s
Opens-nothing free s c never = record { kept = c; bits = λ f lt. ground (arith, never f lt) }

first_frame-le :
    (start f : ℕ) → start < 2 ^ 32 → leb (first_frame start) f ≡ leb start (f * frame_size)
unfolding first_frame
first_frame-le start f h = ground arith

last_frame-lt :
    (end f : ℕ) → f < max_frames → ltb f (last_frame end) ≡ leb ((f + 1) * frame_size) end
unfolding last_frame
last_frame-lt end f h = ground arith

last_frame-le : (end : ℕ) → last_frame end ≤ max_frames
unfolding last_frame
last_frame-le end = ground arith

range-Opens :
    (e : E820Entry) (s : Pmm) (lo hi : ℕ)
    → hi ≤ max_frames
    → IsCounted s
    → ((f : ℕ) → f < max_frames → holds_frame e f ≡ (leb lo f && ltb f hi))
    → Opens (holds_frame e) s (free_range (hi - lo) lo s)
unfolding free_range
range-Opens e s lo hi le c same = elim (dec_lt lo hi) [
  | yes p ↦
      let fill = free_range-Fills (hi - lo) lo hi s (omega arith) le c in
      record { kept = fill.kept; bits = λ f lt. ground (arith, fill.bits f, same f lt) }
  | no p ↦
      let e' : hi - lo ≡ 0 = omega arith in
      rw e' (Opens-nothing (holds_frame e) s c (λ f lt. ground (arith, same f lt)))
]

add_region-Opens :
    (e : E820Entry) (s : Pmm) → IsCounted s → Opens (holds_frame e) s (add_region e s)
unfolding add_region
add_region-Opens e s c = elim (Bool-cases (e.kind == 1)) [
  | inr other ↦ rw other (Opens-nothing (holds_frame e) s c (λ f lt. ground arith))
  | inl usable ↦ elim (Bool-cases (leb (2 ^ 32) e.base)) [
    | inl high ↦ rw (usable, high) (Opens-nothing (holds_frame e) s c (λ f lt. ground arith))
    | inr low ↦
        rw (usable, low)
          (range-Opens e s (first_frame e.base) (last_frame ((e.base + e.len) % 2 ^ 64))
            (last_frame-le ((e.base + e.len) % 2 ^ 64)) c
            (λ f lt.
              ground (arith, first_frame-le e.base f, last_frame-lt ((e.base + e.len) % 2 ^ 64) f)))
  ]
]

add_regions-Opens :
    (es : List E820Entry) (s : Pmm) → IsCounted s → Opens (any_holds es) s (add_regions es s)
unfolding add_regions
add_regions-Opens [] s c = Opens-nothing (any_holds []) s c (λ f lt. refl)
add_regions-Opens (e ∷ es) s c =
    let one = add_region-Opens e s c in
    let rest = add_regions-Opens es (add_region e s) one.kept in
    record { kept = rest.kept; bits = λ f lt. ground (arith, one.bits f, rest.bits f) }

all_used_bit : (f : ℕ) → bitmap_test all_used.bitmap f ≡ true
unfolding bitmap_test
all_used_bit f = full_byte (f % 8) (omega arith)

all_used-IsCounted : IsCounted all_used
all_used-IsCounted = record {
  bytes = λ i. omega arith;
  counted = sym (clear_count_all_set max_frames all_used.bitmap (λ i lt. all_used_bit i));
}

pmm_init-Opened :
    (es : List E820Entry)
    → (t : Pmm) × Opens (any_holds es) all_used t
      × Fills true 0 low_frames t (pmm_init es)
      × ((pmm_init es).used_frames_count ≡ 0)
unfolding pmm_init
pmm_init-Opened es =
    let opened = add_regions-Opens es all_used all_used-IsCounted in
    let low =
      reserve_range-Fills low_frames 0 low_frames _ (omega arith) (omega arith) opened.kept in
    (
      add_regions es all_used,
      opened,
      record {
        kept = record { bytes = low.kept.bytes; counted = low.kept.counted };
        bits = low.bits;
      },
      refl,
    )

-- After `pmm_init` a frame within the bitmap is free exactly when it lies above the first
-- megabyte and wholly inside some usable region of the E820 map.
pub pmm_init_bits :
    (es : List E820Entry) (f : ℕ)
    → f < max_frames
    → bitmap_test (pmm_init es).bitmap f ≡ (if ltb f low_frames then true else not (any_holds es f))
pmm_init_bits es f lt =
    let (t, opened, low, unused) = pmm_init-Opened es in
    ground (arith, low.bits f, opened.bits f lt, all_used_bit f)

-- What holds between the calls: the counters account for every frame of the bitmap, and low
-- memory is never free.
pub record IsValid (s : Pmm) : Type 0 where
  pub bytes : IsBytes s.bitmap
  pub counted : s.used_frames_count + clear_count max_frames s.bitmap ≡ s.total_frames_count
  pub total_le : s.total_frames_count ≤ max_frames
  pub low : (f : ℕ) → f < low_frames → bitmap_test s.bitmap f ≡ true

-- `pmm_init` establishes the invariant for every E820 map, with no frame in use.
pub pmm_init-IsValid :
    (es : List E820Entry) → IsValid (pmm_init es) × ((pmm_init es).used_frames_count ≡ 0)
pmm_init-IsValid es =
    let (t, opened, low, unused) = pmm_init-Opened es in
    (
      record {
        bytes = low.kept.bytes;
        counted = omega (arith, low.kept.counted);
        total_le = omega (arith, low.kept.counted, clear_count-le max_frames (pmm_init es).bitmap);
        low = λ f lt. ground (arith, low.bits f);
      },
      unused,
    )
