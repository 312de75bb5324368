-- ===== src/Shell/Buffer.antt =====
-- The semaphore demonstration of kernel/kernel.c: `sem_producer` in two threads and `sem_consumer`
-- in a third, `cmd_semdemo` waiting, as long as no timer interrupt comes inside a call of `sem_wait`
-- (but where it yields) or of `sem_signal`, or inside `sem_done++`. The kernel does not enforce
-- that: these run with interrupts enabled, and an interrupt inside them can lose a unit. Elsewhere
-- a thread may be interrupted between any two accesses to what they share. The semaphores are the
-- units of Sync/Semaphore/Count: uninterrupted, a call of `sem_wait` is `down`, and returns when
-- the thread is not queued; a call of `sem_signal` is `up`.
pub mod Counts
pub mod Inv
pub mod Produce
pub mod Consume
pub mod Safe
pub mod Ends
mod Tests
use seng21213_os_se.Base.{ℕ, ◌+◌, ◌*◌, ◌≤◌, ◌<◌, ◌≡◌, false, none, some, [], add32, update}
use seng21213_os_se.Task.Ring.{mem}
use seng21213_os_se.Sync.Semaphore.Count.{Units, units, down, up}

abbrev pub buffer_size : ℕ
buffer_size = 4

-- The rounds of a producer and of the consumer.
abbrev pub produced_each : ℕ
produced_each = 5

abbrev pub consumed : ℕ
consumed = 10

-- `empty_sem`, `full_sem`, `buffer_mutex`, `buffer`, `buffer_count` and `sem_done`.
pub record Shared : Type 0 where
  pub empty_sem : Units
  pub full_sem : Units
  pub buffer_mutex : Units
  pub buffer : ℕ → ℕ
  pub buffer_count : ℕ
  pub sem_done : ℕ

-- Where a thread stands in round `i`.
pub data Pc : Type 0 where
  at_top : (i : ℕ) → Pc  -- at the head of the loop
  in_first : (i : ℕ) → Pc  -- in the `sem_wait` for a slot
  passed : (i : ℕ) → Pc
  in_mutex : (i : ℕ) → Pc  -- in the `sem_wait` for the mutex
  locked : (i : ℕ) → Pc
  written : (i : ℕ) → Pc  -- the producer has stored its item
  loaded : (i n : ℕ) → Pc  -- it has read `buffer_count`
  counted : (i : ℕ) → Pc  -- it has stored `buffer_count`
  fetched : (i item : ℕ) → Pc  -- it has read the item that it prints
  released : (i : ℕ) → Pc  -- before the last `sem_signal`
  finished : Pc  -- in `thread_exit`

-- A step of a producer with the number `id` in thread `c`. A call of a function of a semaphore, up
-- to its yield, and `sem_done++` are one step each: no interrupt comes inside them. It prints `buffer[buffer_count - 1]`;
-- the index adds 2 ^ 32 - 1.
pub data Produces (c id : ℕ) (s : Shared) : Pc → Shared → Pc → Type 0 where
  wait_empty :
      {i : ℕ}
      → i < produced_each
      → Produces c id s
          (at_top i)
          (record s { empty_sem = down c s.empty_sem.left s.empty_sem.queue })
          (in_first i)
  got_empty : {i : ℕ} → mem c s.empty_sem.queue ≡ false → Produces c id s (in_first i) s (passed i)
  wait_mutex :
      {i : ℕ}
      → Produces c id s
          (passed i)
          (record s { buffer_mutex = down c s.buffer_mutex.left s.buffer_mutex.queue })
          (in_mutex i)
  got_mutex :
      {i : ℕ} → mem c s.buffer_mutex.queue ≡ false → Produces c id s (in_mutex i) s (locked i)
  write :
      {i : ℕ}
      → Produces c id s
          (locked i)
          (record s { buffer = update s.buffer s.buffer_count (id * 100 + i) })
          (written i)
  load : {i : ℕ} → Produces c id s (written i) s (loaded i s.buffer_count)
  store :
      {i n : ℕ} → Produces c id s (loaded i n) (record s { buffer_count = add32 n 1 }) (counted i)
  fetch :
      {i : ℕ}
      → Produces c id s (counted i) s (fetched i (s.buffer (add32 s.buffer_count 0xffffffff)))
  signal_mutex :
      {i item : ℕ}
      → Produces c id s
          (fetched i item)
          (record s { buffer_mutex = up s.buffer_mutex.left s.buffer_mutex.queue })
          (released i)
  signal_full :
      {i : ℕ}
      → Produces c id s
          (released i)
          (record s { full_sem = up s.full_sem.left s.full_sem.queue })
          (at_top (i + 1))
  finish :
      {i : ℕ}
      → produced_each ≤ i
      → Produces c id s (at_top i) (record s { sem_done = add32 s.sem_done 1 }) finished

-- A step of the consumer in thread `c`, with the same calls as one step each. `buffer_count--` adds 2 ^ 32 - 1.
pub data Consumes (c : ℕ) (s : Shared) : Pc → Shared → Pc → Type 0 where
  wait_full :
      {i : ℕ}
      → i < consumed
      → Consumes c s
          (at_top i)
          (record s { full_sem = down c s.full_sem.left s.full_sem.queue })
          (in_first i)
  got_full : {i : ℕ} → mem c s.full_sem.queue ≡ false → Consumes c s (in_first i) s (passed i)
  wait_mutex :
      {i : ℕ}
      → Consumes c s
          (passed i)
          (record s { buffer_mutex = down c s.buffer_mutex.left s.buffer_mutex.queue })
          (in_mutex i)
  got_mutex : {i : ℕ} → mem c s.buffer_mutex.queue ≡ false → Consumes c s (in_mutex i) s (locked i)
  load : {i : ℕ} → Consumes c s (locked i) s (loaded i s.buffer_count)
  store :
      {i n : ℕ}
      → Consumes c s (loaded i n) (record s { buffer_count = add32 n 0xffffffff }) (counted i)
  fetch : {i : ℕ} → Consumes c s (counted i) s (fetched i (s.buffer s.buffer_count))
  signal_mutex :
      {i item : ℕ}
      → Consumes c s
          (fetched i item)
          (record s { buffer_mutex = up s.buffer_mutex.left s.buffer_mutex.queue })
          (released i)
  signal_empty :
      {i : ℕ}
      → Consumes c s
          (released i)
          (record s { empty_sem = up s.empty_sem.left s.empty_sem.queue })
          (at_top (i + 1))
  finish :
      {i : ℕ}
      → consumed ≤ i
      → Consumes c s (at_top i) (record s { sem_done = add32 s.sem_done 1 }) finished

-- The shared state, and where the two producers and the consumer stand.
pub record System : Type 0 where
  pub shared : Shared
  pub first : Pc
  pub second : Pc
  pub consumer : Pc

-- A step of one of the threads, which `thread_create` has given the slots `a`, `b` and `c`.
pub data Turn (a b c : ℕ) (s : System) : System → Type 0 where
  of_first :
      {t : Shared} {p : Pc}
      → Produces a 1 s.shared s.first t p
      → Turn a b c s (record s { shared = t; first = p })
  of_second :
      {t : Shared} {p : Pc}
      → Produces b 2 s.shared s.second t p
      → Turn a b c s (record s { shared = t; second = p })
  of_consumer :
      {t : Shared} {p : Pc}
      → Consumes c s.shared s.consumer t p
      → Turn a b c s (record s { shared = t; consumer = p })

-- After `cmd_semdemo` has created the threads; `old` is what the buffer held.
abbrev pub started : (ℕ → ℕ) → System
started old = record {
  shared = record {
    empty_sem = units buffer_size [];
    full_sem = units 0 [];
    buffer_mutex = units 1 [];
    buffer = old;
    buffer_count = 0;
    sem_done = 0;
  };
  first = at_top 0;
  second = at_top 0;
  consumer = at_top 0;
}

-- What can be reached if no interrupt comes inside a call of a semaphore or inside `sem_done++`.
pub data AtomicRuns (a b c : ℕ) (old : ℕ → ℕ) : System → Type 0 where
  begin : AtomicRuns a b c old (started old)
  further : {s t : System} → AtomicRuns a b c old s → Turn a b c s t → AtomicRuns a b c old t
