-- ===== src/Shell/Buffer/Tests.antt =====
-- The semaphore demonstration, run: the threads in slots 4, 5 and 6, each item consumed at once.
use seng21213_os_se.Base.{ℕ, ◌+◌, ◌*◌, ◌≤◌, ◌<◌, ◌≡◌, ◌⊎◌, refl, [], update, arith}
use seng21213_os_se.Sync.Semaphore.Count.{units, down, up}
use seng21213_os_se.Shell.Buffer.{
  buffer_size, produced_each, consumed, Pc, at_top, locked, counted, finished, Produces, Consumes,
  System, Turn, of_first, of_second, of_consumer, AtomicRuns, begin, further,
}
use seng21213_os_se.Shell.Buffer.Safe.{AtomicRuns-bounds}
use seng21213_os_se.Shell.Buffer.Ends.{left_of, AtomicRuns-sem_done}

abbrev nothing : ℕ → ℕ
nothing n = 0

-- The buffer is empty and nobody is inside.
abbrev quiet : (ℕ → ℕ) → ℕ → Pc → Pc → Pc → System
quiet buf d p q r = record {
  shared = record {
    empty_sem = units 4 [];
    full_sem = units 0 [];
    buffer_mutex = units 1 [];
    buffer = buf;
    buffer_count = 0;
    sem_done = d;
  };
  first = p;
  second = q;
  consumer = r;
}

abbrev Reached : System → Type 0
Reached = AtomicRuns 4 5 6 nothing

-- The producers have put one item into the buffer.
abbrev holding : (ℕ → ℕ) → ℕ → Pc → Pc → Pc → System
holding buf d p q r = record {
  shared = record {
    empty_sem = units 3 [];
    full_sem = units 1 [];
    buffer_mutex = units 1 [];
    buffer = buf;
    buffer_count = 1;
    sem_done = d;
  };
  first = p;
  second = q;
  consumer = r;
}

module _ {buf : ℕ → ℕ} {d i : ℕ} {p r : Pc} (lt : i < produced_each) where
  first_item :
      Reached (quiet buf d (at_top i) p r)
      → Reached (holding (update buf 0 (1 * 100 + i)) d (at_top (i + 1)) p r)
  unfolding down up
  first_item r0 =
      let r1 = further r0 (of_first (Produces.wait_empty lt)) in
      let r2 = further r1 (of_first (Produces.got_empty refl)) in
      let r3 = further r2 (of_first Produces.wait_mutex) in
      let r4 = further r3 (of_first (Produces.got_mutex refl)) in
      let r5 = further r4 (of_first Produces.write) in
      let r6 = further r5 (of_first Produces.load) in
      let r7 = further r6 (of_first Produces.store) in
      let r8 = further r7 (of_first Produces.fetch) in
      let r9 = further r8 (of_first Produces.signal_mutex) in
      further r9 (of_first Produces.signal_full)

  second_item :
      Reached (quiet buf d p (at_top i) r)
      → Reached (holding (update buf 0 (2 * 100 + i)) d p (at_top (i + 1)) r)
  unfolding down up
  second_item r0 =
      let r1 = further r0 (of_second (Produces.wait_empty lt)) in
      let r2 = further r1 (of_second (Produces.got_empty refl)) in
      let r3 = further r2 (of_second Produces.wait_mutex) in
      let r4 = further r3 (of_second (Produces.got_mutex refl)) in
      let r5 = further r4 (of_second Produces.write) in
      let r6 = further r5 (of_second Produces.load) in
      let r7 = further r6 (of_second Produces.store) in
      let r8 = further r7 (of_second Produces.fetch) in
      let r9 = further r8 (of_second Produces.signal_mutex) in
      further r9 (of_second Produces.signal_full)

take_item :
    {buf : ℕ → ℕ} {d j : ℕ} {p q : Pc}
    → j < consumed
    → Reached (holding buf d p q (at_top j))
    → Reached (quiet buf d p q (at_top (j + 1)))
unfolding down up
take_item lt r0 =
    let r1 = further r0 (of_consumer (Consumes.wait_full lt)) in
    let r2 = further r1 (of_consumer (Consumes.got_full refl)) in
    let r3 = further r2 (of_consumer Consumes.wait_mutex) in
    let r4 = further r3 (of_consumer (Consumes.got_mutex refl)) in
    let r5 = further r4 (of_consumer Consumes.load) in
    let r6 = further r5 (of_consumer Consumes.store) in
    let r7 = further r6 (of_consumer Consumes.fetch) in
    let r8 = further r7 (of_consumer Consumes.signal_mutex) in
    further r8 (of_consumer Consumes.signal_empty)

-- Whatever the buffer holds.
abbrev Quiet : ℕ → Pc → Pc → Pc → Type 0
Quiet d p q r = (buf : ℕ → ℕ) × Reached (quiet buf d p q r)

first_round :
    {d i j : ℕ} {q : Pc}
    → i < produced_each
    → j < consumed
    → Quiet d (at_top i) q (at_top j)
    → Quiet d (at_top (i + 1)) q (at_top (j + 1))
first_round {i = i} lt lt' (buf, r) = (update buf 0 (1 * 100 + i), take_item lt' (first_item lt r))

second_round :
    {d i j : ℕ} {p : Pc}
    → i < produced_each
    → j < consumed
    → Quiet d p (at_top i) (at_top j)
    → Quiet d p (at_top (i + 1)) (at_top (j + 1))
second_round {i = i} lt lt' (buf, r) =
    (update buf 0 (2 * 100 + i), take_item lt' (second_item lt r))

first_half : Quiet 1 finished (at_top 0) (at_top 5)
first_half =
    let q0 : Quiet 0 (at_top 0) (at_top 0) (at_top 0) = (nothing, begin) in
    let q1 : Quiet 0 (at_top 1) (at_top 0) (at_top 1) =
      first_round (omega arith) (omega arith) q0 in
    let q2 : Quiet 0 (at_top 2) (at_top 0) (at_top 2) =
      first_round (omega arith) (omega arith) q1 in
    let q3 : Quiet 0 (at_top 3) (at_top 0) (at_top 3) =
      first_round (omega arith) (omega arith) q2 in
    let q4 : Quiet 0 (at_top 4) (at_top 0) (at_top 4) =
      first_round (omega arith) (omega arith) q3 in
    let q5 : Quiet 0 (at_top 5) (at_top 0) (at_top 5) =
      first_round (omega arith) (omega arith) q4 in
    (q5.0, further q5.1 (of_first (Produces.finish (omega arith))))

all_finished : Quiet 3 finished finished finished
all_finished =
    let q0 = first_half in
    let q1 : Quiet 1 finished (at_top 1) (at_top 6) = second_round (omega arith) (omega arith) q0 in
    let q2 : Quiet 1 finished (at_top 2) (at_top 7) = second_round (omega arith) (omega arith) q1 in
    let q3 : Quiet 1 finished (at_top 3) (at_top 8) = second_round (omega arith) (omega arith) q2 in
    let q4 : Quiet 1 finished (at_top 4) (at_top 9) = second_round (omega arith) (omega arith) q3 in
    let q5 : Quiet 1 finished (at_top 5) (at_top 10) =
      second_round (omega arith) (omega arith) q4 in
    let last = further q5.1 (of_second (Produces.finish (omega arith))) in
    (q5.0, further last (of_consumer (Consumes.finish (omega arith))))

abbrev end_state : System
end_state = quiet all_finished.0 3 finished finished finished

abbrev one_made : System
one_made = holding (update nothing 0 100) 0 (at_top 1) (at_top 0) (at_top 0)

one_made-Reached : Reached one_made
one_made-Reached = first_item (omega arith) begin

AtomicRuns-bounds_example :
    (one_made.shared.buffer_count ≤ buffer_size)
    × ((i : ℕ)
        → (one_made.first ≡ locked i) ⊎ (one_made.second ≡ locked i)
        → one_made.shared.buffer_count < buffer_size)
    × ((i : ℕ)
        → (one_made.first ≡ counted i) ⊎ (one_made.second ≡ counted i)
        → 0 < one_made.shared.buffer_count)
    × ((i : ℕ) → one_made.consumer ≡ counted i → one_made.shared.buffer_count < buffer_size)
AtomicRuns-bounds_example =
    AtomicRuns-bounds (omega arith) (omega arith) (omega arith) one_made-Reached

AtomicRuns-sem_done_example :
    ((one_made.shared.sem_done ≡ 3) ⊎ ((t : System) × Turn 4 5 6 one_made t))
    × ((t : System) → Turn 4 5 6 one_made t → left_of t < left_of one_made)
AtomicRuns-sem_done_example =
    AtomicRuns-sem_done (omega arith) (omega arith) (omega arith) one_made-Reached
