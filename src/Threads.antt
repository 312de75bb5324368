-- ===== src/Threads.antt =====
-- kernel/thread.c: the thread table. `fn` is NULL or the address of the function that the thread
-- runs; `esp` is the stack pointer that the yield saves.
pub mod Create
pub mod Listing
mod Tests
use seng21213_os_se.Base.{
  ℕ, zero, suc, ◌+◌, ◌*◌, Option, none, some, List, ◌∷◌, ◌>>=◌, Ptr, replicate, add32, find_first,
}
use seng21213_os_se.Task.{
  ThreadState, Kernel, Thread, Layout, max_threads, stack_size, set_thread, proc_current,
  thread_unused,
}
use seng21213_os_se.Scheduler.{scheduler_add_thread, scheduler_yield}
use seng21213_os_se.Process.{push_all}

unfoldable pub find_free_thread : Kernel → Ptr
find_free_thread k = find_first max_threads 0 (λ i. thread_unused (k.thread_table i).state)

abbrev pub free_thread : Thread
free_thread = record {
  tid = 0;
  state = ThreadState.unused;
  esp = 0;
  entry = 0;
  arg = 0;
  owner = none;
  stack_top = 0;
  next = none;
  wait_next = none;
}

-- The loop of `thread_init`, from slot `i` on.
unfoldable pub clear_threads : ℕ → ℕ → Kernel → Kernel
clear_threads zero i k = k
clear_threads (suc n) i k = clear_threads n (i + 1) (set_thread k i free_thread)

unfoldable pub thread_init : Kernel → Kernel
thread_init k = record (clear_threads max_threads 0 k) { next_tid = 1; current_thread = none }

-- The words that start a thread: the argument and the return address of `fn(arg)`, then EFLAGS,
-- CS, EIP, and the eight registers that POPAD restores.
abbrev pub thread_frame : Layout → ℕ → ℕ → List ℕ
thread_frame lay fn arg = arg ∷ lay.thread_return ∷ 0x202 ∷ 0x08 ∷ fn ∷ replicate 8 0

abbrev pub thread_stack_top : Layout → ℕ → ℕ
thread_stack_top lay slot = lay.thread_stacks + slot * stack_size + stack_size

-- The new thread in its slot, before it is queued.
abbrev pub fill_thread : Layout → ℕ → ℕ → ℕ → Kernel → Kernel
fill_thread lay fn arg slot k =
    let top = thread_stack_top lay slot in
    let (sp, words) = push_all (thread_frame lay fn arg) top k.words in
    set_thread (record k { next_tid = add32 k.next_tid 1; words = words }) slot
      (record {
        tid = k.next_tid;
        state = ThreadState.ready;
        esp = sp;
        entry = fn;
        arg = arg;
        owner = proc_current k;
        stack_top = top;
        next = none;
        wait_next = none;
      })

unfoldable pub thread_create : Layout → Option ℕ → ℕ → Kernel → Option (Ptr × Kernel)
thread_create lay none arg k = some (none, k)
thread_create lay (some fn) arg k = elim (find_free_thread k) [
  | none ↦ some (none, k)
  | some slot ↦ do
    k' ← scheduler_add_thread (some slot) (fill_thread lay fn arg slot k)
    some (some slot, k')
]

unfoldable pub thread_exit : ℕ → Kernel → Option Kernel
thread_exit esp k = elim k.current_thread [
  | none ↦ some k
  | some t ↦
      scheduler_yield esp
        (set_thread k t (record (k.thread_table t) { state = ThreadState.terminated }))
]
