-- ===== src/Scheduler.antt =====
-- kernel/scheduler.c: the round-robin run queues and the timer interrupt. A step is `none` where
-- the source would follow a NULL pointer or loop for ever; the walks of a queue get as much fuel
-- as its table has slots.
pub mod Queue
pub mod Pick
pub mod Irq
pub mod Keeps
pub mod Wait
pub mod Hardware
mod Tests
use seng21213_os_se.Base.{
  ℕ, ◌+◌, Bool, true, false, not, ◌&&◌, Option, none, some, ◌>>=◌, if◌then◌else◌, Ptr, add32,
}
use seng21213_os_se.Task.{
  ProcState, ThreadState, Kind, Pcb, Thread, Kernel, max_processes, max_threads, set_proc,
  set_thread, proc_ready, proc_running, thread_ready, thread_running, thread_blocked, proc_next,
  thread_next, proc_set_current, thread_set_current,
}
use seng21213_os_se.Task.Ring.{last_from, find_next}

pub scheduler_add_process : Ptr → Kernel → Option Kernel
scheduler_add_process none k = some k
scheduler_add_process (some p) k = elim k.ready_head [
  | none ↦
      some
        (set_proc (record k { ready_head = some p }) p (record (k.pcb_table p) { next = some p }))
  | some h ↦ do
    last ← last_from max_processes (proc_next k) (some h) h
    let linked = set_proc k last (record (k.pcb_table last) { next = some p })
    some (set_proc linked p (record (linked.pcb_table p) { next = some h }))
]

pub scheduler_add_thread : Ptr → Kernel → Option Kernel
scheduler_add_thread none k = some k
scheduler_add_thread (some t) k = elim k.thread_head [
  | none ↦ some (
      set_thread (record k { thread_head = some t }) t
        (record (k.thread_table t) { next = some t }))
  | some h ↦ do
    last ← last_from max_threads (thread_next k) (some h) h
    let linked = set_thread k last (record (k.thread_table last) { next = some t })
    some (set_thread linked t (record (linked.thread_table t) { next = some h }))
]

unfoldable pub scheduler_block_thread : Ptr → Kernel → Kernel
scheduler_block_thread none k = k
scheduler_block_thread (some t) k =
    set_thread k t (record (k.thread_table t) { state = ThreadState.blocked })

unfoldable pub scheduler_unblock_thread : Ptr → Kernel → Kernel
scheduler_unblock_thread none k = k
scheduler_unblock_thread (some t) k =
    if thread_blocked (k.thread_table t).state
    then set_thread k t (record (k.thread_table t) { state = ThreadState.ready })
    else k

-- The variables only: the interrupt table and the two devices are set up by port output.
unfoldable pub scheduler_init : Kernel → Kernel
scheduler_init k = record k {
  ready_head = none;
  current = none;
  thread_head = none;
  current_sched_thread = none;
  current_kind = Kind.boot;
  prefer_thread = false;
  system_ticks = 0;
}

pub find_next_process : Kernel → Option Ptr
find_next_process k =
    find_next max_processes (proc_next k) (λ i. proc_ready (k.pcb_table i).state) k.ready_head
      k.current

pub find_next_thread : Kernel → Option Ptr
find_next_thread k =
    find_next max_threads (thread_next k) (λ i. thread_ready (k.thread_table i).state) k.thread_head
      k.current_sched_thread

-- The interrupted process: its stack pointer, its tick, and RUNNING to READY.
abbrev pub saved_proc : ℕ → Pcb → Pcb
saved_proc esp p = record p {
  esp = esp;
  total_ticks = add32 p.total_ticks 1;
  state = if proc_running p.state then ProcState.ready else p.state;
}

abbrev pub saved_thread : ℕ → Thread → Thread
saved_thread esp t = record t {
  esp = esp;
  state = if thread_running t.state then ThreadState.ready else t.state;
}

-- The first part of `scheduler_irq`: it saves the context that runs.
pub save_context : ℕ → Kernel → Kernel
save_context esp k = elim k.current_kind [
  | Kind.boot ↦ k
  | Kind.process ↦ elim k.current [
    | none ↦ k
    | some c ↦ set_proc k c (saved_proc esp (k.pcb_table c))
  ]
  | Kind.thread ↦ elim k.current_sched_thread [
    | none ↦ k
    | some c ↦ set_thread k c (saved_thread esp (k.thread_table c))
  ]
]

-- The second part: the next thread and the next process, of which at most one is not NULL.
pub pick_next : Kernel → Option (Ptr × Ptr)
pick_next k =
    if k.prefer_thread
    then (do
      t ← find_next_thread k
      elim t [ some i ↦ some (some i, none) | none ↦ (do p ← find_next_process k; some (none, p)) ])
    else (do
      p ← find_next_process k
      elim p [ some i ↦ some (none, some i) | none ↦ (do t ← find_next_thread k; some (t, none)) ])

-- The third part: it makes the choice the running context and returns its stack pointer.
pub run_thread : ℕ → Kernel → ℕ × Kernel
unfolding thread_set_current proc_set_current
run_thread i k =
    let k' =
      set_thread (record k { current_sched_thread = some i; current_kind = Kind.thread }) i
        (record (k.thread_table i) { state = ThreadState.running }) in
    (
      (k.thread_table i).esp,
      proc_set_current (k.thread_table i).owner (thread_set_current (some i) k'),
    )

pub run_process : ℕ → Kernel → ℕ × Kernel
unfolding thread_set_current proc_set_current
run_process i k =
    let k' =
      set_proc (record k { current = some i; current_kind = Kind.process }) i
        (record (k.pcb_table i) { state = ProcState.running }) in
    ((k.pcb_table i).esp, thread_set_current none (proc_set_current (some i) k'))

pub dispatch : ℕ → Ptr × Ptr → Kernel → ℕ × Kernel
unfolding run_thread run_process
dispatch esp (some t, p) k = run_thread t k
dispatch esp (none, some p) k = run_process p k
dispatch esp (none, none) k = (esp, k)

pub scheduler_irq : ℕ → Kernel → Option (ℕ × Kernel)
scheduler_irq saved_esp k =
    let k' = save_context saved_esp (record k { system_ticks = add32 k.system_ticks 1 }) in
    do
      choice ← pick_next k'
      some (dispatch saved_esp choice (record k' { prefer_thread = not k'.prefer_thread }))

-- `int $0x20`: the same handler; `esp` is the stack pointer that the interrupt saves.
unfoldable pub scheduler_yield : ℕ → Kernel → Option Kernel
scheduler_yield esp k = do (esp', k') ← scheduler_irq esp k; some k'

unfoldable pub scheduler_ticks : Kernel → ℕ
scheduler_ticks k = k.system_ticks
