-- ===== src/Threads/Tests.antt =====
-- The creation of a third thread on the demonstration kernel.
use seng21213_os_se.Base.{◌≡◌, refl, some, arith}
use seng21213_os_se.Task.{Kernel}
use seng21213_os_se.Scheduler.Queue.{IsSched}
use seng21213_os_se.Process.Table.{upto}
use seng21213_os_se.Threads.{thread_create}
use seng21213_os_se.Threads.Create.{IsThreadTable, IsThreadStarted, thread_create_lem}
use seng21213_os_se.Demo.{demo_kernel, demo_layout, demo-IsSched, two}

demo-IsThreadTable : IsThreadTable 2 demo_kernel
demo-IsThreadTable = record {
  n_le = omega arith;
  tids = λ i lt. ground arith;
  used = λ i lt. ground arith;
  free = λ i le lt. ground arith;
  next = refl;
}

thread_create_lem_example :
    (k' : Kernel) × (thread_create demo_layout (some 0x5000) 9 demo_kernel ≡ some (some 2, k'))
    × IsThreadTable 3 k'
    × IsSched two (upto 3) k'
    × IsThreadStarted demo_layout 0x5000 9 2 demo_kernel k'
thread_create_lem_example =
    thread_create_lem demo_layout 0x5000 9 demo-IsThreadTable demo-IsSched (omega arith)
