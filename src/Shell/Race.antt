-- ===== src/Shell/Race.antt =====
-- The race demonstration of kernel/kernel.c: `race_thread` in two threads, `cmd_race` waiting. A
-- thread may be interrupted between its read and its write, where it also yields; `race_done++` is
-- one step.
pub mod Bounds
mod Tests
use seng21213_os_se.Base.{ℕ, ◌+◌, ◌≤◌, ◌<◌, add32}
use seng21213_os_se.Shell.Counting.{race_iterations}

-- `myglobal` and `race_done`.
pub record Shared : Type 0 where
  pub myglobal : ℕ
  pub race_done : ℕ

-- Where a thread stands in round `i` of `race_thread`.
pub data Pc : Type 0 where
  at_top : (i : ℕ) → Pc  -- at the head of the loop
  loaded : (i temp : ℕ) → Pc  -- in `scheduler_yield`
  finished : Pc  -- in `thread_exit`

-- A step of a thread.
pub data Move (s : Shared) : Pc → Shared → Pc → Type 0 where
  load : {i : ℕ} → i < race_iterations → Move s (at_top i) s (loaded i s.myglobal)
  store :
      {i temp : ℕ} → Move s (loaded i temp) (record s { myglobal = add32 temp 1 }) (at_top (i + 1))
  finish :
      {i : ℕ}
      → race_iterations ≤ i
      → Move s (at_top i) (record s { race_done = add32 s.race_done 1 }) finished

-- The shared state, and where the two threads stand.
pub record System : Type 0 where
  pub shared : Shared
  pub first : Pc
  pub second : Pc

pub data Turn (s : System) : System → Type 0 where
  of_first :
      {t : Shared} {p : Pc}
      → Move s.shared s.first t p
      → Turn s (record { shared = t; first = p; second = s.second })
  of_second :
      {t : Shared} {p : Pc}
      → Move s.shared s.second t p
      → Turn s (record { shared = t; first = s.first; second = p })

-- After `cmd_race` has created the threads.
abbrev pub started : System
started = record {
  shared = record { myglobal = 0; race_done = 0 };
  first = at_top 0;
  second = at_top 0;
}

pub data Runs : System → Type 0 where
  begin : Runs started
  further : {s t : System} → Runs s → Turn s t → Runs t
