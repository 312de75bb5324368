-- ===== src/Scheduler/Queue.antt =====
-- The run queues: what holds of them between the calls, and what adding to them does.
use seng21213_os_se.Base.{ℕ, ◌≤◌, ◌≡◌, refl, false, some, List, [], ◌∷◌, ◌++◌, arith, length, ◌>>=◌}
use seng21213_os_se.Task.{
  ProcState, ThreadState, Kind, Kernel, max_processes, max_threads, proc_next, thread_next,
  set_proc, set_thread,
}
use seng21213_os_se.Task.Ring.{mem, IsRing, last_of, last_from, last_from-last}
use seng21213_os_se.Task.Ring.Laws.{insert_after, insert-IsRing, IsRing-ext, PtrIn}
use seng21213_os_se.Scheduler.{scheduler_add_process, scheduler_add_thread}

-- `ps` and `ts` are the queued processes and threads in the order of their rings. Only the context
-- on the CPU is RUNNING.
pub record IsSched (ps ts : List ℕ) (k : Kernel) : Type 0 where
  pub procs : IsRing (proc_next k) k.ready_head ps
  pub threads : IsRing (thread_next k) k.thread_head ts
  pub procs_le : length ps ≤ max_processes
  pub threads_le : length ts ≤ max_threads
  pub current_in : PtrIn k.current ps
  pub current_thread_in : PtrIn k.current_sched_thread ts
  pub proc_alone :
      (i : ℕ)
      → (k.pcb_table i).state ≡ ProcState.running
      → (k.current_kind ≡ Kind.process) × (k.current ≡ some i)
  pub thread_alone :
      (i : ℕ)
      → (k.thread_table i).state ≡ ThreadState.running
      → (k.current_kind ≡ Kind.thread) × (k.current_sched_thread ≡ some i)

-- The step from `k` to `k'` links process `p` at the end of its ring, and changes nothing but the
-- `next` pointers of that ring and its head.
pub record QueuedProc (p : ℕ) (ps : List ℕ) (k k' : Kernel) : Type 0 where
  pub ring : IsRing (proc_next k') k'.ready_head (ps ++ (p ∷ []))
  pub relinked : (i : ℕ) → k'.pcb_table i ≡ record (k.pcb_table i) { next = proc_next k' i }
  pub rest : k' ≡ record k { pcb_table = k'.pcb_table; ready_head = k'.ready_head }

pub record QueuedThread (t : ℕ) (ts : List ℕ) (k k' : Kernel) : Type 0 where
  pub ring : IsRing (thread_next k') k'.thread_head (ts ++ (t ∷ []))
  pub relinked : (i : ℕ) → k'.thread_table i ≡ record (k.thread_table i) { next = thread_next k' i }
  pub rest : k' ≡ record k { thread_table = k'.thread_table; thread_head = k'.thread_head }

-- `scheduler_add_process` terminates on a ring that fits the table, follows no NULL pointer, and
-- links a process that is not queued at the end, changing no other field of any process.
pub add_process-Queued :
    (p : ℕ) (ps : List ℕ) (k : Kernel)
    → IsRing (proc_next k) k.ready_head ps
    → length ps ≤ max_processes
    → mem p ps ≡ false
    → (k' : Kernel) × (scheduler_add_process (some p) k ≡ some k') × QueuedProc p ps k k'
unfolding scheduler_add_process
add_process-Queued p [] k r le out =
    let first =
      set_proc (record k { ready_head = some p }) p (record (k.pcb_table p) { next = some p }) in
    let linked : proc_next first p ≡ some p = ground arith in
    (
      first,
      rw r,
      record { ring = ((refl, linked), (refl, tt)); relinked = λ i. ground arith; rest = refl },
    )
add_process-Queued p (h ∷ ys) k (c, d) le out =
    let last = last_of h ys in
    let head : k.ready_head ≡ some h = c.0 in
    let walk : last_from max_processes (proc_next k) (some h) h ≡ some last =
      last_from-last max_processes (proc_next k) h h ys (rw head at c.1) d.0 (omega arith) in
    let linked = set_proc k last (record (k.pcb_table last) { next = some p }) in
    let after = set_proc linked p (record (linked.pcb_table p) { next = some h }) in
    let old : IsRing (proc_next k) (some h) (h ∷ ys) = ((refl, rw head at c.1), d) in
    (
      after,
      rw (head, walk, ◌>>=◌),
      record {
        ring =
            IsRing-ext (insert_after (proc_next k) last p h) (proc_next after) (some h) k.ready_head
              (h ∷ (ys ++ (p ∷ []))) (λ i. ground arith) head
              (insert-IsRing (proc_next k) h p ys old out);
        relinked = λ i. ground arith;
        rest = refl;
      },
    )

-- `scheduler_add_thread` terminates on a ring that fits the table, follows no NULL pointer, and
-- links a thread that is not queued at the end, changing no other field of any thread.
pub add_thread-Queued :
    (p : ℕ) (ps : List ℕ) (k : Kernel)
    → IsRing (thread_next k) k.thread_head ps
    → length ps ≤ max_threads
    → mem p ps ≡ false
    → (k' : Kernel) × (scheduler_add_thread (some p) k ≡ some k') × QueuedThread p ps k k'
unfolding scheduler_add_thread
add_thread-Queued p [] k r le out =
    let first =
      set_thread (record k { thread_head = some p }) p
        (record (k.thread_table p) { next = some p }) in
    let linked : thread_next first p ≡ some p = ground arith in
    (
      first,
      rw r,
      record { ring = ((refl, linked), (refl, tt)); relinked = λ i. ground arith; rest = refl },
    )
add_thread-Queued p (h ∷ ys) k (c, d) le out =
    let last = last_of h ys in
    let head : k.thread_head ≡ some h = c.0 in
    let walk : last_from max_threads (thread_next k) (some h) h ≡ some last =
      last_from-last max_threads (thread_next k) h h ys (rw head at c.1) d.0 (omega arith) in
    let linked = set_thread k last (record (k.thread_table last) { next = some p }) in
    let after = set_thread linked p (record (linked.thread_table p) { next = some h }) in
    let old : IsRing (thread_next k) (some h) (h ∷ ys) = ((refl, rw head at c.1), d) in
    (
      after,
      rw (head, walk, ◌>>=◌),
      record {
        ring =
            IsRing-ext (insert_after (thread_next k) last p h) (thread_next after) (some h)
              k.thread_head (h ∷ (ys ++ (p ∷ []))) (λ i. ground arith) head
              (insert-IsRing (thread_next k) h p ys old out);
        relinked = λ i. ground arith;
        rest = refl;
      },
    )
