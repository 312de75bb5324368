-- ===== src/Task.antt =====
-- The state that kernel/process.c, kernel/thread.c and kernel/scheduler.c share: the two tables,
-- the two run queues and the current context. A pointer into a table is the index of its slot.
pub mod Ring
use seng21213_os_se.Base.{ℕ, Bool, true, false, Ptr, List, update}

-- `proc_state_t`
pub data ProcState : Type 0 where
  ready running blocked zombie : ProcState

-- `thread_state_t`
pub data ThreadState : Type 0 where
  unused ready running blocked terminated : ThreadState

-- What is on the CPU: `SCHED_NONE`, `SCHED_PROCESS` or `SCHED_THREAD`.
pub data Kind : Type 0 where
  boot process thread : Kind

-- `pcb_t`. `entry` is a code address.
pub record Pcb : Type 0 where
  pub pid : ℕ
  pub state : ProcState
  pub name : List ℕ
  pub esp : ℕ
  pub stack_top : ℕ
  pub entry : ℕ
  pub total_ticks : ℕ
  pub next : Ptr

-- `thread_t`. `entry` and `arg` are addresses.
pub record Thread : Type 0 where
  pub tid : ℕ
  pub state : ThreadState
  pub esp : ℕ
  pub entry : ℕ
  pub arg : ℕ
  pub owner : Ptr
  pub stack_top : ℕ
  pub next : Ptr
  pub wait_next : Ptr

-- The variables of the three files. `words` is the memory that holds the stacks, by the address
-- of each 32-bit word.
pub record Kernel : Type 0 where
  pub pcb_table : ℕ → Pcb
  pub current_proc : Ptr
  pub next_pid : ℕ
  pub thread_table : ℕ → Thread
  pub next_tid : ℕ
  pub current_thread : Ptr
  pub ready_head : Ptr
  pub current : Ptr
  pub thread_head : Ptr
  pub current_sched_thread : Ptr
  pub current_kind : Kind
  pub prefer_thread : Bool
  pub system_ticks : ℕ
  pub words : ℕ → ℕ

-- Where the linker places the stacks and `thread_return`.
pub record Layout : Type 0 where
  pub process_stacks : ℕ
  pub thread_stacks : ℕ
  pub thread_return : ℕ

abbrev pub max_processes : ℕ
max_processes = 16

abbrev pub max_threads : ℕ
max_threads = 32

abbrev pub stack_size : ℕ
stack_size = 4096

abbrev pub set_proc : Kernel → ℕ → Pcb → Kernel
set_proc k i p = record k { pcb_table = update k.pcb_table i p }

abbrev pub set_thread : Kernel → ℕ → Thread → Kernel
set_thread k i t = record k { thread_table = update k.thread_table i t }

-- `state == PROC_STATE_READY` and the other comparisons of a state.
abbrev pub proc_ready : ProcState → Bool
proc_ready ProcState.ready = true
proc_ready _ = false

abbrev pub proc_running : ProcState → Bool
proc_running ProcState.running = true
proc_running _ = false

abbrev pub thread_ready : ThreadState → Bool
thread_ready ThreadState.ready = true
thread_ready _ = false

abbrev pub thread_running : ThreadState → Bool
thread_running ThreadState.running = true
thread_running _ = false

abbrev pub thread_blocked : ThreadState → Bool
thread_blocked ThreadState.blocked = true
thread_blocked _ = false

abbrev pub thread_unused : ThreadState → Bool
thread_unused ThreadState.unused = true
thread_unused _ = false

abbrev pub proc_next : Kernel → ℕ → Ptr
proc_next k i = (k.pcb_table i).next

abbrev pub thread_next : Kernel → ℕ → Ptr
thread_next k i = (k.thread_table i).next

-- `proc_current` and `proc_set_current` of process.c, and their like in thread.c.
unfoldable pub proc_current : Kernel → Ptr
proc_current k = k.current_proc

unfoldable pub proc_set_current : Ptr → Kernel → Kernel
proc_set_current p k = record k { current_proc = p }

unfoldable pub thread_current : Kernel → Ptr
thread_current k = k.current_thread

unfoldable pub thread_set_current : Ptr → Kernel → Kernel
thread_set_current t k = record k { current_thread = t }
