-- ===== src/Process/Table.antt =====
-- The process table: which slots are taken, and what creating a process does.
use seng21213_os_se.Base.{
  ℕ, zero, suc, ◌+◌, ◌*◌, ◌≤◌, ◌<◌, ◌≡◌, refl, none, some, List, [], ◌∷◌, ◌++◌, arith, ◌==◌, ltb,
  leb, ◌&&◌, if◌then◌else◌, length, length-append, update, find_first-First, first, nowhere, ◌⊎◌,
}
use seng21213_os_se.Task.{
  ProcState, Kernel, Layout, max_processes, stack_size, set_proc, proc_next, thread_next,
}
use seng21213_os_se.Task.Ring.{mem, IsRing}
use seng21213_os_se.Task.Ring.Laws.{mem-append, IsRing-ext, IsRing-update, PtrIn-append}
use seng21213_os_se.Scheduler.{scheduler_add_process}
use seng21213_os_se.Scheduler.Queue.{IsSched, QueuedProc, add_process-Queued}
use seng21213_os_se.Process.{
  find_free_pcb, push_all, proc_init, proc_create, fill_pcb, process_frame, stack_top_of, copy_name,
  clear_procs, free_pcb,
}

-- The indices below a bound, in order.
abbrev pub upto : ℕ → List ℕ
upto zero = []
upto (suc n) = upto n ++ (n ∷ [])

pub mem-upto : (i n : ℕ) → mem i (upto n) ≡ ltb i n
mem-upto i zero = ground arith
mem-upto i (suc n) = ground (arith, mem-append i (upto n) (n ∷ []), mem-upto i n)

pub length-upto : (n : ℕ) → length (upto n) ≡ n
length-upto zero = refl
length-upto (suc n) = omega (arith, length-append (upto n) (n ∷ []), length-upto n)

-- `n` processes have been created: they fill the first slots in order, and slot `i` has PID
-- `i + 1`. A PCB is never given back.
pub record IsProcTable (n : ℕ) (k : Kernel) : Type 0 where
  pub n_le : n ≤ max_processes
  pub pids : (i : ℕ) → i < n → (k.pcb_table i).pid ≡ i + 1
  pub free : (i : ℕ) → n ≤ i → i < max_processes → (k.pcb_table i).pid ≡ 0
  pub next : k.next_pid ≡ n + 1

-- A free PCB is the next slot, or there is none.
find_free_pcb_lem :
    {n : ℕ} {k : Kernel}
    → IsProcTable n k
    → find_free_pcb k ≡ (if ltb n max_processes then some n else none)
unfolding find_free_pcb
find_free_pcb_lem {n} {k} v =
    elim (find_first-First max_processes 0 max_processes (λ i. (k.pcb_table i).pid == 0) refl) [
      | first i le lt hit least o ↦ rw o (ground (arith, v.pids i, least n, v.free n))
      | nowhere miss o ↦ rw o (ground (arith, miss n, v.free n))
    ]

-- What a created process looks like: READY, with the first 31 characters of its name, and a stack
-- inside its own slot from which POPAD and IRETD start `entry` with interrupts enabled.
pub record IsStarted (lay : Layout) (name : List ℕ) (entry slot : ℕ) (k k' : Kernel) : Type 0 where
  pub state : (k'.pcb_table slot).state ≡ ProcState.ready
  pub ticks : (k'.pcb_table slot).total_ticks ≡ 0
  pub named : (k'.pcb_table slot).name ≡ copy_name 31 0 name (k.pcb_table slot).name
  pub frame : (k'.pcb_table slot).esp + 44 ≡ stack_top_of lay.process_stacks slot
  pub eip : k'.words ((k'.pcb_table slot).esp + 32) ≡ entry
  pub cs : k'.words ((k'.pcb_table slot).esp + 36) ≡ 0x08
  pub eflags : k'.words ((k'.pcb_table slot).esp + 40) ≡ 0x202
  pub registers : (r : ℕ) → r < 8 → k'.words ((k'.pcb_table slot).esp + 4 * r) ≡ 0
  pub outside :
      (a : ℕ)
      → (a < lay.process_stacks + slot * stack_size)
        ⊎ (lay.process_stacks + (slot + 1) * stack_size ≤ a)
      → k'.words a ≡ k.words a

push_frame :
    (entry top : ℕ) (words : ℕ → ℕ)
    → 44 ≤ top
    → let (sp, w) = push_all (process_frame entry) top words in
      (sp + 44 ≡ top)
      × (w (sp + 32) ≡ entry)
      × (w (sp + 36) ≡ 0x08)
      × (w (sp + 40) ≡ 0x202)
      × ((r : ℕ) → r < 8 → w (sp + 4 * r) ≡ 0)
      × ((a : ℕ) → (a + 44 < top) ⊎ (top ≤ a) → w a ≡ words a)
unfolding push_all
push_frame entry top words h = (
  omega arith,
  ground arith,
  ground arith,
  ground arith,
  λ r lt. ground arith,
  λ a out. ground arith,
)

module _ {n : ℕ} {ts : List ℕ} {k : Kernel} (lay : Layout) (name : List ℕ) (entry : ℕ)
    (v : IsProcTable n k) (s : IsSched (upto n) ts k) where
  abbrev filled : Kernel
  filled = fill_pcb lay name entry n k

  filled-IsRing : IsRing (proc_next filled) filled.ready_head (upto n)
  filled-IsRing =
      IsRing-ext (update (proc_next k) n none) (proc_next filled) k.ready_head k.ready_head (upto n)
        (λ i. ground arith) refl
        (IsRing-update (proc_next k) n none k.ready_head (upto n) s.procs
          (ground (arith, mem-upto n n)))

  pub queued :
      (k' : Kernel) × (scheduler_add_process (some n) filled ≡ some k')
      × QueuedProc n (upto n) filled k'
  queued =
      add_process-Queued n (upto n) filled filled-IsRing s.procs_le (ground (arith, mem-upto n n))

  module _ {k' : Kernel} (q : QueuedProc n (upto n) filled k') (room : n < max_processes) where
    created-IsProcTable : IsProcTable (n + 1) k'
    created-IsProcTable = record {
      n_le = omega arith;
      pids = λ i lt. ground (arith, q.relinked i, v.pids i, v.next);
      free = λ i le lt. ground (arith, q.relinked i, v.free i);
      next = ground (arith, q.rest, v.next);
    }

    created-IsSched : IsSched (upto (suc n)) ts k'
    created-IsSched = record {
      procs = q.ring;
      threads =
          IsRing-ext (thread_next k) (thread_next k') k.thread_head k'.thread_head ts
            (λ i. ground (arith, q.rest)) (ground (arith, q.rest)) s.threads;
      procs_le = omega (arith, length-append (upto n) (n ∷ []), length-upto n);
      threads_le = s.threads_le;
      current_in =
          let e : k'.current ≡ k.current = ground (arith, q.rest) in
          rw e (PtrIn-append k.current (upto n) (n ∷ []) s.current_in);
      current_thread_in = ground (arith, q.rest, s.current_thread_in);
      proc_alone = λ i e. ground (arith, q.relinked i, q.rest, s.proc_alone i);
      thread_alone = λ i e. ground (arith, q.rest, s.thread_alone i);
    }

    created-IsStarted : IsStarted lay name entry n k k'
    created-IsStarted =
        let (sp44, eip, cs, eflags, regs, outside) =
          push_frame entry (stack_top_of lay.process_stacks n) k.words (omega arith) in
        record {
          state = ground (arith, q.relinked n);
          ticks = ground (arith, q.relinked n);
          named = ground (arith, q.relinked n);
          frame = ground (arith, q.relinked n, sp44);
          eip = ground (arith, q.relinked n, q.rest, eip);
          cs = ground (arith, q.relinked n, q.rest, cs);
          eflags = ground (arith, q.relinked n, q.rest, eflags);
          registers = λ r lt. ground (arith, q.relinked n, q.rest, regs r lt);
          outside = λ a out. ground (arith, q.rest, outside a);
        }

  -- On well-formed queues that hold the first `n` of sixteen slots, the others being free,
  -- `proc_create` ends and returns slot `n`, whose process has PID `n + 1` and is
  -- ready to start; the run queue gains it at the end, and stays well formed.
  pub proc_create_lem :
      n < max_processes
      → (k' : Kernel) × (proc_create lay name entry k ≡ some (some n, k'))
        × IsProcTable (n + 1) k'
        × IsSched (upto (suc n)) ts k'
        × IsStarted lay name entry n k k'
  unfolding proc_create
  proc_create_lem room =
      let (k', e, q) = queued in
      let slot : find_free_pcb k ≡ some n = ground (arith, find_free_pcb_lem v) in
      (
        k',
        rw (slot, proc_create, e),
        created-IsProcTable q room,
        created-IsSched q room,
        created-IsStarted q room,
      )

-- With all sixteen slots taken `proc_create` returns NULL and changes nothing.
proc_create_full :
    {k : Kernel} (lay : Layout) (name : List ℕ) (entry : ℕ)
    → IsProcTable max_processes k
    → proc_create lay name entry k ≡ some (none, k)
unfolding proc_create
proc_create_full {k} lay name entry v =
    let slot : find_free_pcb k ≡ none = ground (arith, find_free_pcb_lem v) in
    rw (slot, proc_create)

-- The loop of `proc_init` from slot `i` on frees the slots that it passes.
clear_procs-pid :
    (r i j : ℕ) (k : Kernel) (x : ℕ)
    → i + r ≡ j
    → ((clear_procs r i k).pcb_table x).pid
      ≡ (if leb i x && ltb x j then 0 else (k.pcb_table x).pid)
unfolding clear_procs
clear_procs-pid zero i j k x e = ground arith
clear_procs-pid (suc r) i j k x e =
    let ih = clear_procs-pid r (i + 1) j (set_proc k i (free_pcb (k.pcb_table i))) x in
    ground (arith, ih)

proc_init-pid : (k : Kernel) (i : ℕ) → i < max_processes → ((proc_init k).pcb_table i).pid ≡ 0
unfolding proc_init
proc_init-pid k i lt = ground (arith, clear_procs-pid max_processes 0 max_processes k i)

proc_init-next_pid : (k : Kernel) → (proc_init k).next_pid ≡ 1
unfolding proc_init
proc_init-next_pid k = refl

-- `proc_init` empties the table, whatever it held.
pub proc_init-IsProcTable : (k : Kernel) → IsProcTable 0 (proc_init k)
proc_init-IsProcTable k = record {
  n_le = omega arith;
  pids = λ i lt. absurd (omega arith);
  free = λ i le lt. proc_init-pid k i lt;
  next = proc_init-next_pid k;
}
