-- ===== src/Process/Tests.antt =====
-- The process table of the demonstration kernel, and its theorems there.
use seng21213_os_se.Base.{◌+◌, ◌≡◌, refl, some, [], ◌∷◌, arith, pos}
use seng21213_os_se.Task.{Kernel, max_processes}
use seng21213_os_se.Scheduler.Queue.{IsSched}
use seng21213_os_se.Process.{proc_create, proc_kill, make_zombie}
use seng21213_os_se.Process.Kill.{proc_kill_lem}
use seng21213_os_se.Process.Table.{upto, IsProcTable, IsStarted, proc_create_lem}
use seng21213_os_se.Demo.{demo_kernel, demo_layout, demo-IsSched, two}

demo-IsProcTable : IsProcTable 2 demo_kernel
demo-IsProcTable = record {
  n_le = omega arith;
  pids = λ i lt. ground arith;
  free = λ i le lt. ground arith;
  next = refl;
}

abbrev full_kernel : Kernel
full_kernel = record demo_kernel {
  pcb_table = λ i. record (demo_kernel.pcb_table i) { pid = i + 1 };
  next_pid = 17;
}

full-IsProcTable : IsProcTable max_processes full_kernel
full-IsProcTable = record {
  n_le = omega arith;
  pids = λ i lt. refl;
  free = λ i le lt. absurd (omega arith);
  next = refl;
}

-- "b", entered at 0x4000
proc_create_lem_example :
    (k' : Kernel) × (proc_create demo_layout (98 ∷ []) 0x4000 demo_kernel ≡ some (some 2, k'))
    × IsProcTable 3 k'
    × IsSched (upto 3) two k'
    × IsStarted demo_layout (98 ∷ []) 0x4000 2 demo_kernel k'
proc_create_lem_example =
    proc_create_lem demo_layout (98 ∷ []) 0x4000 demo-IsProcTable demo-IsSched (omega arith)

-- The second process is killed while the first runs.
proc_kill_lem_example :
    (k' : Kernel) × (proc_kill 0xbeef 2 demo_kernel ≡ some (pos 1, k'))
    × (k' ≡ make_zombie 1 demo_kernel)
    × IsSched two two k'
proc_kill_lem_example =
    proc_kill_lem 0xbeef demo-IsProcTable 2 demo-IsSched (omega arith) (omega arith) (λ lt e. cc)
