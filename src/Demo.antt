-- ===== src/Demo.antt =====
-- A small kernel for the examples: processes 0 and 1 are READY, thread 0 runs and thread 1 is
-- READY.
use seng21213_os_se.Base.{
  ℕ, ◌+◌, refl, false, none, some, List, [], ◌∷◌, arith, ◌==◌, ltb, if◌then◌else◌, Ptr,
}
use seng21213_os_se.Task.{ProcState, ThreadState, Kind, Pcb, Thread, Kernel, Layout}
use seng21213_os_se.Scheduler.Queue.{IsSched}

-- The ring of slots 0 and 1.
abbrev pub two_ring : ℕ → Ptr
two_ring i = if i == 0 then some 1 else if i == 1 then some 0 else none

abbrev pub demo_pcb : ℕ → Pcb
demo_pcb i = record {
  pid = if ltb i 2 then i + 1 else 0;
  state = ProcState.ready;
  name = 112 ∷ 0 ∷ [];
  esp = 0x9000 + i;
  stack_top = 0xa000;
  entry = 0x1000;
  total_ticks = 0;
  next = two_ring i;
}

abbrev pub demo_thread : ℕ → Thread
demo_thread i = record {
  tid = if ltb i 2 then i + 1 else 0;
  state =
      if i == 0
      then ThreadState.running
      else if i == 1
      then ThreadState.ready
      else ThreadState.unused;
  esp = 0xb000 + i;
  entry = 0x2000;
  arg = 0;
  owner = some 0;
  stack_top = 0xc000;
  next = two_ring i;
  wait_next = none;
}

abbrev pub demo_kernel : Kernel
demo_kernel = record {
  pcb_table = demo_pcb;
  current_proc = some 0;
  next_pid = 3;
  thread_table = demo_thread;
  next_tid = 3;
  current_thread = some 0;
  ready_head = some 0;
  current = some 0;
  thread_head = some 0;
  current_sched_thread = some 0;
  current_kind = Kind.thread;
  prefer_thread = false;
  system_ticks = 7;
  words = λ _. 0;
}

abbrev pub demo_layout : Layout
demo_layout = record { process_stacks = 0x10000; thread_stacks = 0x20000; thread_return = 0x3000 }

abbrev pub two : List ℕ
two = 0 ∷ 1 ∷ []

pub demo-IsSched : IsSched two two demo_kernel
demo-IsSched = record {
  procs = ((refl, (refl, refl)), (refl, (refl, tt)));
  threads = ((refl, (refl, refl)), (refl, (refl, tt)));
  procs_le = omega arith;
  threads_le = omega arith;
  current_in = refl;
  current_thread_in = refl;
  proc_alone = λ i e. cc;
  thread_alone = λ i e. ground arith;
}
