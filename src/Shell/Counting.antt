-- ===== src/Shell/Counting.antt =====
-- The mutex demonstration of kernel/kernel.c: `mutex_thread` in two threads, `cmd_mutexdemo`
-- waiting, as long as no timer interrupt comes inside a call of `mutex_lock` (but where it yields)
-- or of `mutex_unlock`, or inside `mutex_done++`. The kernel does not enforce that: these run with
-- interrupts enabled, and an interrupt inside them can lose an update. Elsewhere a thread may be
-- interrupted between any two accesses to what they share. The mutex is the lock of
-- Sync/Mutex/Spec: uninterrupted, calls of `mutex_lock` and `mutex_unlock` are its `acquire` and
-- `release`.
pub mod Inv
pub mod Ends
use seng21213_os_se.Base.{ℕ, ◌+◌, ◌≤◌, ◌<◌, ◌≡◌, Option, none, some, add32}
use seng21213_os_se.Sync.Mutex.Spec.{Lock, free, held, acquire, release}

abbrev pub race_iterations : ℕ
race_iterations = 1000

-- `myglobal_mutex`, `myglobal` and `mutex_done`.
pub record Shared : Type 0 where
  pub lock : Lock
  pub myglobal : ℕ
  pub mutex_done : ℕ

-- Where a thread stands in round `i` of `mutex_thread`.
pub data Pc : Type 0 where
  at_top : (i : ℕ) → Pc  -- at the head of the loop
  in_lock : (i : ℕ) → Pc  -- in `mutex_lock`, which returns when the thread is the owner
  locked : (i : ℕ) → Pc
  loaded : (i temp : ℕ) → Pc  -- in `scheduler_yield`
  stored : (i : ℕ) → Pc  -- before `mutex_unlock`
  finished : Pc  -- in `thread_exit`

abbrev pub owner : Lock → Option ℕ
owner free = none
owner (held o q) = some o

-- A step of thread `c`. A call of a function of the mutex, up to its yield, and `mutex_done++` are
-- one step each: no interrupt comes inside them.
pub data Move (c : ℕ) (s : Shared) : Pc → Shared → Pc → Type 0 where
  call_lock :
      {i : ℕ}
      → i < race_iterations
      → Move c s (at_top i) (record s { lock = acquire c s.lock }) (in_lock i)
  return_lock : {i : ℕ} → owner s.lock ≡ some c → Move c s (in_lock i) s (locked i)
  load : {i : ℕ} → Move c s (locked i) s (loaded i s.myglobal)
  store : {i temp : ℕ} → Move c s (loaded i temp) (record s { myglobal = add32 temp 1 }) (stored i)
  unlock : {i : ℕ} → Move c s (stored i) (record s { lock = release c s.lock }) (at_top (i + 1))
  finish :
      {i : ℕ}
      → race_iterations ≤ i
      → Move c s (at_top i) (record s { mutex_done = add32 s.mutex_done 1 }) finished

-- The shared state, and where the two threads stand.
pub record System : Type 0 where
  pub shared : Shared
  pub first : Pc
  pub second : Pc

-- A step of one of the threads, which `thread_create` has given the slots `a` and `b`.
pub data Turn (a b : ℕ) (s : System) : System → Type 0 where
  of_first :
      {t : Shared} {p : Pc}
      → Move a s.shared s.first t p
      → Turn a b s (record { shared = t; first = p; second = s.second })
  of_second :
      {t : Shared} {p : Pc}
      → Move b s.shared s.second t p
      → Turn a b s (record { shared = t; first = s.first; second = p })

-- After `cmd_mutexdemo` has created the threads.
abbrev pub started : System
started = record {
  shared = record { lock = free; myglobal = 0; mutex_done = 0 };
  first = at_top 0;
  second = at_top 0;
}

-- What can be reached if no interrupt comes inside a call of the mutex or inside `mutex_done++`.
pub data AtomicRuns (a b : ℕ) : System → Type 0 where
  begin : AtomicRuns a b started
  further : {s t : System} → AtomicRuns a b s → Turn a b s t → AtomicRuns a b t
