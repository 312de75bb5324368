-- ===== src/Threads/Create.antt =====
-- `thread_create` and `thread_init` on a table whose first slots have been given out.
use seng21213_os_se.Base.{
  ℕ, zero, suc, ◌+◌, ◌*◌, ◌≤◌, ◌<◌, ◌≡◌, ◌⊎◌, refl, true, false, none, some, List, [], ◌∷◌, arith,
  ltb, leb, ◌&&◌, if◌then◌else◌, find_first-First, first, nowhere, length-append, update,
}
use seng21213_os_se.Task.{
  ThreadState, Kernel, Layout, max_threads, stack_size, proc_next, thread_next, thread_unused,
  set_thread, proc_current,
}
use seng21213_os_se.Task.Ring.{IsRing}
use seng21213_os_se.Task.Ring.Laws.{IsRing-ext, IsRing-update, PtrIn-append}
use seng21213_os_se.Scheduler.{scheduler_add_thread}
use seng21213_os_se.Scheduler.Queue.{IsSched, QueuedThread, add_thread-Queued}
use seng21213_os_se.Process.{push_all}
use seng21213_os_se.Process.Table.{upto, mem-upto, length-upto}
use seng21213_os_se.Threads.{
  find_free_thread, free_thread, clear_threads, thread_init, thread_frame, thread_stack_top,
  fill_thread, thread_create,
}

-- `n` threads have been created: they fill the first slots in order, and slot `i` has TID `i + 1`.
-- A slot is never given back.
pub record IsThreadTable (n : ℕ) (k : Kernel) : Type 0 where
  pub n_le : n ≤ max_threads
  pub tids : (i : ℕ) → i < n → (k.thread_table i).tid ≡ i + 1
  pub used : (i : ℕ) → i < n → thread_unused (k.thread_table i).state ≡ false
  pub free : (i : ℕ) → n ≤ i → i < max_threads → thread_unused (k.thread_table i).state ≡ true
  pub next : k.next_tid ≡ n + 1

find_free_thread_lem :
    {n : ℕ} {k : Kernel}
    → IsThreadTable n k
    → find_free_thread k ≡ (if ltb n max_threads then some n else none)
unfolding find_free_thread
find_free_thread_lem {n} {k} v =
    elim (find_first-First max_threads 0 max_threads (λ i. thread_unused (k.thread_table i).state)
      refl) [
        | first i le lt hit least o ↦ rw o (ground (arith, v.used i, least n, v.free n))
        | nowhere miss o ↦ rw o (ground (arith, miss n, v.free n))
      ]

-- A created thread: READY, owned by the current process, with a stack inside its own slot from
-- which POPAD and IRETD start `fn` with interrupts enabled, as called with `arg` from
-- `thread_return`.
pub record IsThreadStarted (lay : Layout) (fn arg slot : ℕ) (k k' : Kernel) : Type 0 where
  pub state : (k'.thread_table slot).state ≡ ThreadState.ready
  pub owner : (k'.thread_table slot).owner ≡ proc_current k
  pub frame : (k'.thread_table slot).esp + 52 ≡ thread_stack_top lay slot
  pub eip : k'.words ((k'.thread_table slot).esp + 32) ≡ fn
  pub cs : k'.words ((k'.thread_table slot).esp + 36) ≡ 0x08
  pub eflags : k'.words ((k'.thread_table slot).esp + 40) ≡ 0x202
  pub return_to : k'.words ((k'.thread_table slot).esp + 44) ≡ lay.thread_return
  pub argument : k'.words ((k'.thread_table slot).esp + 48) ≡ arg
  pub outside :
      (a : ℕ)
      → (a < lay.thread_stacks + slot * stack_size)
        ⊎ (lay.thread_stacks + (slot + 1) * stack_size ≤ a)
      → k'.words a ≡ k.words a

push_thread_frame :
    (lay : Layout) (fn arg top : ℕ) (words : ℕ → ℕ)
    → 52 ≤ top
    → let (sp, w) = push_all (thread_frame lay fn arg) top words in
      (sp + 52 ≡ top)
      × (w (sp + 32) ≡ fn)
      × (w (sp + 36) ≡ 0x08)
      × (w (sp + 40) ≡ 0x202)
      × (w (sp + 44) ≡ lay.thread_return)
      × (w (sp + 48) ≡ arg)
      × ((a : ℕ) → (a + 52 < top) ⊎ (top ≤ a) → w a ≡ words a)
unfolding push_all
push_thread_frame lay fn arg top words h = (
  omega arith,
  ground arith,
  ground arith,
  ground arith,
  ground arith,
  ground arith,
  λ a out. ground arith,
)

module _ {n : ℕ} {ps : List ℕ} {k : Kernel} (lay : Layout) (fn arg : ℕ) (v : IsThreadTable n k)
    (s : IsSched ps (upto n) k) where
  abbrev filled_thread : Kernel
  filled_thread = fill_thread lay fn arg n k

  filled_thread-IsRing : IsRing (thread_next filled_thread) filled_thread.thread_head (upto n)
  filled_thread-IsRing =
      IsRing-ext (update (thread_next k) n none) (thread_next filled_thread) k.thread_head
        k.thread_head (upto n) (λ i. ground arith) refl
        (IsRing-update (thread_next k) n none k.thread_head (upto n) s.threads
          (ground (arith, mem-upto n n)))

  queued_thread :
      (k' : Kernel) × (scheduler_add_thread (some n) filled_thread ≡ some k')
      × QueuedThread n (upto n) filled_thread k'
  queued_thread =
      add_thread-Queued n (upto n) filled_thread filled_thread-IsRing s.threads_le
        (ground (arith, mem-upto n n))

  module _ {k' : Kernel} (q : QueuedThread n (upto n) filled_thread k')
      (room : n < max_threads) where
    created-IsThreadTable : IsThreadTable (n + 1) k'
    created-IsThreadTable = record {
      n_le = omega arith;
      tids = λ i lt. ground (arith, q.relinked i, v.tids i, v.next);
      used = λ i lt. ground (arith, q.relinked i, v.used i);
      free = λ i le lt. ground (arith, q.relinked i, v.free i);
      next = ground (arith, q.rest, v.next);
    }

    thread-IsSched : IsSched ps (upto (suc n)) k'
    thread-IsSched = record {
      threads = q.ring;
      procs =
          IsRing-ext (proc_next k) (proc_next k') k.ready_head k'.ready_head ps
            (λ i. ground (arith, q.rest)) (ground (arith, q.rest)) s.procs;
      threads_le = omega (arith, length-append (upto n) (n ∷ []), length-upto n);
      procs_le = s.procs_le;
      current_thread_in =
          let e : k'.current_sched_thread ≡ k.current_sched_thread = ground (arith, q.rest) in
          rw e (PtrIn-append k.current_sched_thread (upto n) (n ∷ []) s.current_thread_in);
      current_in = ground (arith, q.rest, s.current_in);
      thread_alone = λ i e. ground (arith, q.relinked i, q.rest, s.thread_alone i);
      proc_alone = λ i e. ground (arith, q.rest, s.proc_alone i);
    }

    created-IsThreadStarted : IsThreadStarted lay fn arg n k k'
    created-IsThreadStarted =
        let (sp52, eip, cs, eflags, ret, argument, outside) =
          push_thread_frame lay fn arg (thread_stack_top lay n) k.words (omega arith) in
        record {
          state = ground (arith, q.relinked n);
          owner = ground (arith, q.relinked n);
          frame = ground (arith, q.relinked n, sp52);
          eip = ground (arith, q.relinked n, q.rest, eip);
          cs = ground (arith, q.relinked n, q.rest, cs);
          eflags = ground (arith, q.relinked n, q.rest, eflags);
          return_to = ground (arith, q.relinked n, q.rest, ret);
          argument = ground (arith, q.relinked n, q.rest, argument);
          outside = λ a out. ground (arith, q.rest, outside a);
        }

  -- On well-formed queues that hold the first `n` of 32 thread slots, the others being unused,
  -- `thread_create` of a function ends and returns slot `n`, whose thread has TID `n + 1` and is
  -- ready to start; the run queue gains it at the end, and stays well formed.
  pub thread_create_lem :
      n < max_threads
      → (k' : Kernel) × (thread_create lay (some fn) arg k ≡ some (some n, k'))
        × IsThreadTable (n + 1) k'
        × IsSched ps (upto (suc n)) k'
        × IsThreadStarted lay fn arg n k k'
  unfolding thread_create
  thread_create_lem room =
      let (k', e, q) = queued_thread in
      let slot : find_free_thread k ≡ some n = ground (arith, find_free_thread_lem v) in
      (
        k',
        rw (slot, thread_create, e) refl,
        created-IsThreadTable q room,
        thread-IsSched q room,
        created-IsThreadStarted q room,
      )

clear_threads-slot :
    (r i j : ℕ) (k : Kernel) (x : ℕ)
    → i + r ≡ j
    → (clear_threads r i k).thread_table x
      ≡ (if leb i x && ltb x j then free_thread else k.thread_table x)
unfolding clear_threads
clear_threads-slot zero i j k x e = ground arith
clear_threads-slot (suc r) i j k x e =
    let ih = clear_threads-slot r (i + 1) j (set_thread k i free_thread) x in ground (arith, ih)

-- `thread_init` empties the table, whatever it held.
thread_init-IsThreadTable : (k : Kernel) → IsThreadTable 0 (thread_init k)
unfolding thread_init
thread_init-IsThreadTable k = record {
  n_le = omega arith;
  tids = λ i lt. absurd (omega arith);
  used = λ i lt. absurd (omega arith);
  free = λ i le lt. ground (arith, clear_threads-slot max_threads 0 max_threads k i);
  next = refl;
}
