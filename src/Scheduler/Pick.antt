-- ===== src/Scheduler/Pick.antt =====
-- The round-robin choice: what the two searches find on well-formed queues, and that they end.
use seng21213_os_se.Base.{ℕ, ◌≡◌, Bool, none, some, List, Ptr, if◌then◌else◌, is_some, arith}
use seng21213_os_se.Task.{
  Kernel, max_processes, max_threads, proc_next, thread_next, proc_ready, thread_ready,
}
use seng21213_os_se.Task.Ring.{first_ready}
use seng21213_os_se.Task.Ring.Laws.{search_order, find_next-first}
use seng21213_os_se.Scheduler.{find_next_process, find_next_thread, pick_next}
use seng21213_os_se.Scheduler.Queue.{IsSched}

abbrev pub is_ready_proc : Kernel → ℕ → Bool
is_ready_proc k i = proc_ready (k.pcb_table i).state

abbrev pub is_ready_thread : Kernel → ℕ → Bool
is_ready_thread k i = thread_ready (k.thread_table i).state

-- The specification of the two searches.
abbrev pub next_proc : Kernel → List ℕ → Ptr
next_proc k ps = first_ready (is_ready_proc k) (search_order k.current ps)

abbrev pub next_thread : Kernel → List ℕ → Ptr
next_thread k ts = first_ready (is_ready_thread k) (search_order k.current_sched_thread ts)

-- The choice: the preferred kind first, the other kind if that has no READY member.
abbrev pub pick_one : Bool → Ptr → Ptr → Ptr × Ptr
pick_one b t p =
    if b then (t, if is_some t then none else p) else (if is_some p then none else t, p)

module _ {ps ts : List ℕ} {k : Kernel} (v : IsSched ps ts k) where
  -- On well-formed queues `find_next_process` ends, and finds the first READY process in the
  -- cyclic order that begins behind the current process, which comes last; it finds NULL only if
  -- no queued process is READY.
  pub find_next_process-first : find_next_process k ≡ some (next_proc k ps)
  unfolding find_next_process
  find_next_process-first =
      find_next-first max_processes (proc_next k) (is_ready_proc k) k.ready_head k.current ps
        v.procs v.current_in v.procs_le

  -- On well-formed queues `find_next_thread` ends, and finds the first READY thread in the cyclic
  -- order that begins behind the current thread, which comes last; it finds NULL only if no queued
  -- thread is READY.
  pub find_next_thread-first : find_next_thread k ≡ some (next_thread k ts)
  unfolding find_next_thread
  find_next_thread-first =
      find_next-first max_threads (thread_next k) (is_ready_thread k) k.thread_head
        k.current_sched_thread ts v.threads v.current_thread_in v.threads_le

  abbrev pub choice : Ptr × Ptr
  choice = pick_one k.prefer_thread (next_thread k ts) (next_proc k ps)

  pub pick_next-choice : pick_next k ≡ some choice
  unfolding pick_next
  pick_next-choice = ground (arith, find_next_process-first, find_next_thread-first)
