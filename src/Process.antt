-- ===== src/Process.antt =====
-- kernel/process.c: the process table. A string argument is the list of its characters before the
-- NUL. The value `esp` that some functions take is the stack pointer that their yield saves.
pub mod Table
pub mod Kill
pub mod Listing
mod Tests
use seng21213_os_se.Base.{
  ℕ, zero, suc, ◌+◌, ◌-◌, ◌*◌, ◌≡◌, Bool, true, false, Option, none, some, List, [], ◌∷◌, ◌>>=◌,
  ◌==◌, if◌then◌else◌, Ptr, same_ptr, set, replicate, update, add32, find_first, ℤ, pos, minus_one,
}
use seng21213_os_se.Task.{
  ProcState, Kernel, Pcb, Layout, max_processes, stack_size, set_proc, proc_current,
}
use seng21213_os_se.Scheduler.{scheduler_add_process, scheduler_yield}

pub find_free_pcb : Kernel → Ptr
find_free_pcb k = find_first max_processes 0 (λ i. (k.pcb_table i).pid == 0)

-- `*--sp = v`, for the values in order: the final stack pointer and memory.
unfoldable pub push_all : List ℕ → ℕ → (ℕ → ℕ) → ℕ × (ℕ → ℕ)
push_all [] sp words = (sp, words)
push_all (v ∷ vs) sp words = push_all vs (sp - 4) (update words (sp - 4) v)

-- The loop that copies a name, with `n` rounds left at index `i`, and the NUL behind it.
pub copy_name : ℕ → ℕ → List ℕ → List ℕ → List ℕ
copy_name zero i src dst = set dst i 0
copy_name (suc n) i [] dst = set dst i 0
copy_name (suc n) i (c ∷ src) dst =
    let rest = copy_name n (i + 1) src (set dst i c) in if c == 0 then set dst i 0 else rest

-- A slot of the table as `proc_init` leaves it; the other 31 bytes of the name stay as they are.
abbrev pub free_pcb : Pcb → Pcb
free_pcb p = record p {
  pid = 0;
  state = ProcState.zombie;
  name = set p.name 0 0;
  esp = 0;
  stack_top = 0;
  entry = 0;
  total_ticks = 0;
  next = none;
}

-- The loop of `proc_init`, from slot `i` on.
unfoldable pub clear_procs : ℕ → ℕ → Kernel → Kernel
clear_procs zero i k = k
clear_procs (suc n) i k = clear_procs n (i + 1) (set_proc k i (free_pcb (k.pcb_table i)))

unfoldable pub proc_init : Kernel → Kernel
proc_init k = record (clear_procs max_processes 0 k) { current_proc = none; next_pid = 1 }

-- The words that start a process: EFLAGS, CS, EIP, and the eight registers that POPAD restores.
abbrev pub process_frame : ℕ → List ℕ
process_frame entry = 0x202 ∷ 0x08 ∷ entry ∷ replicate 8 0

abbrev pub stack_top_of : ℕ → ℕ → ℕ
stack_top_of base slot = base + slot * stack_size + stack_size

-- The new process in its slot, before it is queued.
abbrev pub fill_pcb : Layout → List ℕ → ℕ → ℕ → Kernel → Kernel
fill_pcb lay name entry slot k =
    let top = stack_top_of lay.process_stacks slot in
    let (sp, words) = push_all (process_frame entry) top k.words in
    set_proc (record k { next_pid = add32 k.next_pid 1; words = words }) slot
      (record (k.pcb_table slot) {
        pid = k.next_pid;
        state = ProcState.ready;
        entry = entry;
        total_ticks = 0;
        next = none;
        stack_top = top;
        esp = sp;
        name = copy_name 31 0 name (k.pcb_table slot).name;
      })

pub proc_create : Layout → List ℕ → ℕ → Kernel → Option (Ptr × Kernel)
proc_create lay name entry k = elim (find_free_pcb k) [
  | none ↦ some (none, k)
  | some slot ↦ do
    k' ← scheduler_add_process (some slot) (fill_pcb lay name entry slot k)
    some (some slot, k')
]

pub proc_find : ℕ → Kernel → Ptr
proc_find pid k = find_first max_processes 0 (λ i. (k.pcb_table i).pid == pid)

abbrev pub make_zombie : ℕ → Kernel → Kernel
make_zombie p k = set_proc k p (record (k.pcb_table p) { state = ProcState.zombie })

pub proc_exit : ℕ → Kernel → Option Kernel
proc_exit esp k = elim k.current_proc [
  | none ↦ some k
  | some p ↦ scheduler_yield esp (make_zombie p k)
]

-- 1 if the process was killed, 0 if there is none, -1 for the shell.
pub proc_kill : ℕ → ℕ → Kernel → Option (ℤ × Kernel)
proc_kill esp pid k = elim (proc_find pid k) [
  | none ↦ some (pos 0, k)
  | some p ↦
      if (k.pcb_table p).pid == 1
      then some (minus_one, k)
      else if same_ptr k.current_proc (some p)
      then (do k' ← scheduler_yield esp (make_zombie p k); some (pos 1, k'))
      else some (pos 1, make_zombie p k)
]
