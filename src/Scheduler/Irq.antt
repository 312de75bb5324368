-- ===== src/Scheduler/Irq.antt =====
-- The timer interrupt on well-formed queues: it ends, keeps them well formed, and makes the
-- round-robin choice the one running context.
use seng21213_os_se.Base.{
  ℕ, ◌≡◌, refl, Bool, true, false, not, none, some, List, Ptr, arith, add32, ◌⊎◌, inl, inr, ◌≢◌,
  sym, ◌∙◌,
}
use seng21213_os_se.Task.{ProcState, ThreadState, Kind, Kernel, proc_next, thread_next}
use seng21213_os_se.Task.Ring.{mem}
use seng21213_os_se.Task.Ring.Laws.{IsRing-ext, search_order, first_ready-some, mem-search_order}
use seng21213_os_se.Scheduler.{save_context, run_thread, run_process, dispatch, scheduler_irq}
use seng21213_os_se.Scheduler.Queue.{IsSched}
use seng21213_os_se.Scheduler.Pick.{next_proc, next_thread, pick_one, choice, pick_next-choice}

-- Nothing is marked RUNNING.
pub record IsIdle (k : Kernel) : Type 0 where
  pub procs : (i : ℕ) → (k.pcb_table i).state ≢ ProcState.running
  pub threads : (i : ℕ) → (k.thread_table i).state ≢ ThreadState.running

module _ {ps ts : List ℕ} {k : Kernel} (esp : ℕ) (v : IsSched ps ts k) where
  save_context-IsIdle : IsIdle (save_context esp k)
  unfolding save_context
  save_context-IsIdle = record {
    procs = λ i e. ground (arith, v.proc_alone i);
    threads = λ i e. ground (arith, v.thread_alone i);
  }

  save_context-IsSched : IsSched ps ts (save_context esp k)
  unfolding save_context
  save_context-IsSched = record {
    procs =
        IsRing-ext (proc_next k) (proc_next (save_context esp k)) k.ready_head
          (save_context esp k).ready_head ps (λ i. ground arith) (ground arith) v.procs;
    threads =
        IsRing-ext (thread_next k) (thread_next (save_context esp k)) k.thread_head
          (save_context esp k).thread_head ts (λ i. ground arith) (ground arith) v.threads;
    procs_le = v.procs_le;
    threads_le = v.threads_le;
    current_in = ground (arith, v.current_in);
    current_thread_in = ground (arith, v.current_thread_in);
    proc_alone = λ i e. absurd (save_context-IsIdle.procs i e);
    thread_alone = λ i e. absurd (save_context-IsIdle.threads i e);
  }

module _ {ps ts : List ℕ} {k : Kernel} (v : IsSched ps ts k) (idle : IsIdle k) where
  run_thread-IsSched : (i : ℕ) → mem i ts ≡ true → IsSched ps ts (run_thread i k).1
  unfolding run_thread
  run_thread-IsSched i m = record {
    procs = v.procs;
    threads =
        IsRing-ext (thread_next k) (thread_next (run_thread i k).1) k.thread_head k.thread_head ts
          (λ j. ground arith) refl v.threads;
    procs_le = v.procs_le;
    threads_le = v.threads_le;
    current_in = v.current_in;
    current_thread_in = m;
    proc_alone = λ j e. absurd (idle.procs j e);
    thread_alone = λ j e. ground (arith, idle.threads j);
  }

  run_process-IsSched : (i : ℕ) → mem i ps ≡ true → IsSched ps ts (run_process i k).1
  unfolding run_process
  run_process-IsSched i m = record {
    procs =
        IsRing-ext (proc_next k) (proc_next (run_process i k).1) k.ready_head k.ready_head ps
          (λ j. ground arith) refl v.procs;
    threads = v.threads;
    procs_le = v.procs_le;
    threads_le = v.threads_le;
    current_in = m;
    current_thread_in = v.current_thread_in;
    proc_alone = λ j e. ground (arith, idle.procs j);
    thread_alone = λ j e. absurd (idle.threads j e);
  }

-- The state from which the interrupt chooses: the tick is counted and the context is saved.
abbrev pub saved : ℕ → Kernel → Kernel
saved esp k = save_context esp (record k { system_ticks = add32 k.system_ticks 1 })

-- The state that is dispatched: the preference is toggled.
abbrev pub toggled : ℕ → Kernel → Kernel
toggled esp k = record (saved esp k) { prefer_thread = not (saved esp k).prefer_thread }

-- What the interrupt does, for the choice that it makes: the chosen context alone is RUNNING and
-- its saved stack pointer is returned; with nothing READY the interrupted context goes on.
pub data Outcome (esp : ℕ) (ps ts : List ℕ) (k : Kernel) (esp' : ℕ) (k' : Kernel) : Type 0 where
  thread :
      (t : ℕ)
      → next_thread (saved esp k) ts ≡ some t
      → (k.prefer_thread ≡ true) ⊎ (next_proc (saved esp k) ps ≡ none)
      → esp' ≡ ((saved esp k).thread_table t).esp
      → (k'.thread_table t).state ≡ ThreadState.running
      → k'.current_kind ≡ Kind.thread
      → k'.current_thread ≡ some t
      → k'.current_proc ≡ ((saved esp k).thread_table t).owner
      → Outcome esp ps ts k esp' k'
  process :
      (p : ℕ)
      → next_proc (saved esp k) ps ≡ some p
      → (k.prefer_thread ≡ false) ⊎ (next_thread (saved esp k) ts ≡ none)
      → esp' ≡ ((saved esp k).pcb_table p).esp
      → (k'.pcb_table p).state ≡ ProcState.running
      → k'.current_kind ≡ Kind.process
      → k'.current_thread ≡ none
      → k'.current_proc ≡ some p
      → Outcome esp ps ts k esp' k'
  nothing :
      next_proc (saved esp k) ps ≡ none
      → next_thread (saved esp k) ts ≡ none
      → esp' ≡ esp
      → k' ≡ toggled esp k
      → Outcome esp ps ts k esp' k'

module _ {ps ts : List ℕ} {k : Kernel} (esp : ℕ) (v : IsSched ps ts k) where
  ticked : IsSched ps ts (record k { system_ticks = add32 k.system_ticks 1 })
  ticked = record {
    procs = v.procs;
    threads = v.threads;
    procs_le = v.procs_le;
    threads_le = v.threads_le;
    current_in = v.current_in;
    current_thread_in = v.current_thread_in;
    proc_alone = v.proc_alone;
    thread_alone = v.thread_alone;
  }

  pub saved-IsSched : IsSched ps ts (saved esp k)
  saved-IsSched = save_context-IsSched esp ticked

  toggled-IsSched : IsSched ps ts (toggled esp k)
  toggled-IsSched = record {
    procs = saved-IsSched.procs;
    threads = saved-IsSched.threads;
    procs_le = v.procs_le;
    threads_le = v.threads_le;
    current_in = saved-IsSched.current_in;
    current_thread_in = saved-IsSched.current_thread_in;
    proc_alone = saved-IsSched.proc_alone;
    thread_alone = saved-IsSched.thread_alone;
  }

  toggled-IsIdle : IsIdle (toggled esp k)
  toggled-IsIdle = record {
    procs = (save_context-IsIdle esp ticked).procs;
    threads = (save_context-IsIdle esp ticked).threads;
  }

  prefer-saved : (saved esp k).prefer_thread ≡ k.prefer_thread
  unfolding save_context
  prefer-saved = ground arith

  abbrev pub chosen : Ptr × Ptr
  chosen = choice saved-IsSched

  pub scheduler_irq-dispatch : scheduler_irq esp k ≡ some (dispatch esp chosen (toggled esp k))
  unfolding scheduler_irq
  scheduler_irq-dispatch = rw (pick_next-choice saved-IsSched)

  ready_thread_in : (t : ℕ) → next_thread (saved esp k) ts ≡ some t → mem t ts ≡ true
  ready_thread_in t e = ground (
    arith,
    first_ready-some _ (search_order (saved esp k).current_sched_thread ts) t e,
    mem-search_order t (saved esp k).current_sched_thread ts,
  )

  ready_proc_in : (p : ℕ) → next_proc (saved esp k) ps ≡ some p → mem p ps ≡ true
  ready_proc_in p e = ground (
    arith,
    first_ready-some _ (search_order (saved esp k).current ps) p e,
    mem-search_order p (saved esp k).current ps,
  )

  abbrev pub Done : Ptr × Ptr → Type 0
  Done c =
      let (esp', k') = dispatch esp c (toggled esp k) in
      IsSched ps ts k' × Outcome esp ps ts k esp' k'

  Done-thread :
      (t : ℕ)
      → next_thread (saved esp k) ts ≡ some t
      → (k.prefer_thread ≡ true) ⊎ (next_proc (saved esp k) ps ≡ none)
      → Done (some t, none)
  unfolding dispatch
  Done-thread t e why = (
    run_thread-IsSched toggled-IsSched toggled-IsIdle t (ready_thread_in t e),
    thread t e why refl (ground arith) refl refl refl,
  )

  Done-process :
      (p : ℕ)
      → next_proc (saved esp k) ps ≡ some p
      → (k.prefer_thread ≡ false) ⊎ (next_thread (saved esp k) ts ≡ none)
      → Done (none, some p)
  unfolding dispatch
  Done-process p e why = (
    run_process-IsSched toggled-IsSched toggled-IsIdle p (ready_proc_in p e),
    process p e why refl (ground arith) refl refl refl,
  )

  Done-nothing :
      next_proc (saved esp k) ps ≡ none → next_thread (saved esp k) ts ≡ none → Done (none, none)
  unfolding dispatch
  Done-nothing ep et = (toggled-IsSched, nothing ep et refl refl)

  by_choice :
      (b : Bool) (t p : Ptr)
      → (saved esp k).prefer_thread ≡ b
      → next_thread (saved esp k) ts ≡ t
      → next_proc (saved esp k) ps ≡ p
      → Done (pick_one b t p)
  by_choice true (some t) p eb et ep = Done-thread t et (inl (sym prefer-saved ∙ eb))
  by_choice true none (some p) eb et ep = Done-process p ep (inr et)
  by_choice true none none eb et ep = Done-nothing ep et
  by_choice false t (some p) eb et ep = Done-process p ep (inl (sym prefer-saved ∙ eb))
  by_choice false (some t) none eb et ep = Done-thread t et (inr ep)
  by_choice false none none eb et ep = Done-nothing ep et

  pub chosen-Done : Done chosen
  chosen-Done =
      by_choice (saved esp k).prefer_thread (next_thread (saved esp k) ts)
        (next_proc (saved esp k) ps) refl refl refl

  -- On well-formed queues the timer interrupt ends, keeps the queues well formed with at most one
  -- RUNNING context, and has the outcome of the round-robin choice, on each of its branches.
  pub scheduler_irq-Outcome :
      (esp' : ℕ) × (k' : Kernel) × (scheduler_irq esp k ≡ some (esp', k'))
      × IsSched ps ts k'
      × Outcome esp ps ts k esp' k'
  scheduler_irq-Outcome =
      let (sched, outcome) = chosen-Done in
      let (esp', k') = dispatch esp chosen (toggled esp k) in
      (esp', k', scheduler_irq-dispatch, sched, outcome)
