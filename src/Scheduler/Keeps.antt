-- ===== src/Scheduler/Keeps.antt =====
-- What the timer interrupt leaves alone: the state of contexts that are neither READY nor RUNNING,
-- and every field of a control block but its state, its saved stack pointer and its ticks.
use seng21213_os_se.Base.{
  ℕ, ◌≡◌, refl, ap, Bool, true, false, none, some, List, Ptr, arith, ◌∙◌, add32,
}
use seng21213_os_se.Task.{
  Kernel, Thread, Pcb, proc_ready, proc_running, thread_ready, thread_running,
}
use seng21213_os_se.Task.Ring.Laws.{search_order, first_ready-some}
use seng21213_os_se.Scheduler.{save_context, run_thread, run_process, dispatch, scheduler_yield}
use seng21213_os_se.Scheduler.Queue.{IsSched}
use seng21213_os_se.Scheduler.Pick.{
  next_proc, next_thread, pick_one, is_ready_thread, is_ready_proc,
}
use seng21213_os_se.Scheduler.Irq.{saved, toggled, chosen, scheduler_irq-dispatch, chosen-Done}

-- From `k` to `k'`: whatever is BLOCKED, TERMINATED or a zombie stays so, and only the
-- state, the saved stack pointer and the ticks of a control block can change.
pub record Keeps (k k' : Kernel) : Type 0 where
  pub wait_next : (i : ℕ) → (k'.thread_table i).wait_next ≡ (k.thread_table i).wait_next
  pub thread :
      (i : ℕ)
      → k'.thread_table i ≡ record (k.thread_table i) {
        state = (k'.thread_table i).state;
        esp = (k'.thread_table i).esp;
      }
  pub process :
      (i : ℕ)
      → k'.pcb_table i ≡ record (k.pcb_table i) {
        state = (k'.pcb_table i).state;
        esp = (k'.pcb_table i).esp;
        total_ticks = (k'.pcb_table i).total_ticks;
      }
  pub asleep :
      (i : ℕ)
      → thread_ready (k.thread_table i).state ≡ false
      → thread_running (k.thread_table i).state ≡ false
      → (k'.thread_table i).state ≡ (k.thread_table i).state
  pub dead :
      (i : ℕ)
      → proc_ready (k.pcb_table i).state ≡ false
      → proc_running (k.pcb_table i).state ≡ false
      → (k'.pcb_table i).state ≡ (k.pcb_table i).state

pub Keeps-trans : {k l m : Kernel} → Keeps k l → Keeps l m → Keeps k m
Keeps-trans {k} {l} {m} a b = record {
  wait_next = λ i. b.wait_next i ∙ a.wait_next i;
  thread = λ i.
      b.thread i
      ∙ ap {A = Thread} {B = Thread}
          (λ t. record t { state = (m.thread_table i).state; esp = (m.thread_table i).esp })
          (a.thread i);
  process = λ i.
      b.process i
      ∙ ap {A = Pcb} {B = Pcb}
          (λ t. record t {
            state = (m.pcb_table i).state;
            esp = (m.pcb_table i).esp;
            total_ticks = (m.pcb_table i).total_ticks;
          })
          (a.process i);
  asleep = λ i r u. let e = a.asleep i r u in b.asleep i (rw e r) (rw e u) ∙ e;
  dead = λ i r u. let e = a.dead i r u in b.dead i (rw e r) (rw e u) ∙ e;
}

save_context-Keeps : (esp : ℕ) (k : Kernel) → Keeps k (save_context esp k)
unfolding save_context
save_context-Keeps esp k = record {
  wait_next = λ i. ground arith;
  thread = λ i. ground arith;
  process = λ i. ground arith;
  asleep = λ i r u. ground arith;
  dead = λ i r u. ground arith;
}

toggled-Keeps : (esp : ℕ) (k : Kernel) → Keeps k (toggled esp k)
toggled-Keeps esp k =
    let s = save_context-Keeps esp (record k { system_ticks = add32 k.system_ticks 1 }) in
    record {
      wait_next = s.wait_next;
      thread = s.thread;
      process = s.process;
      asleep = s.asleep;
      dead = s.dead;
    }

run_thread-Keeps :
    (t : ℕ) (k : Kernel) → thread_ready (k.thread_table t).state ≡ true → Keeps k (run_thread t k).1
unfolding run_thread
run_thread-Keeps t k ready = record {
  wait_next = λ i. ground arith;
  thread = λ i. ground arith;
  process = λ i. refl;
  asleep = λ i r u. ground arith;
  dead = λ i r u. refl;
}

run_process-Keeps :
    (p : ℕ) (k : Kernel) → proc_ready (k.pcb_table p).state ≡ true → Keeps k (run_process p k).1
unfolding run_process
run_process-Keeps p k ready = record {
  wait_next = λ i. refl;
  thread = λ i. refl;
  process = λ i. ground arith;
  asleep = λ i r u. refl;
  dead = λ i r u. ground arith;
}

-- The two parts of the choice are ready.
chosen_thread : (b : Bool) (nt np p : Ptr) (t : ℕ) → pick_one b nt np ≡ (some t, p) → nt ≡ some t
chosen_thread true nt np p t e = ground arith
chosen_thread false nt none p t e = ground arith
chosen_thread false nt (some q) p t e = ground arith

chosen_process : (b : Bool) (nt np : Ptr) (p : ℕ) → pick_one b nt np ≡ (none, some p) → np ≡ some p
chosen_process true none np p e = ground arith
chosen_process true (some t) np p e = ground arith
chosen_process false nt np p e = ground arith

module _ {ps ts : List ℕ} {k : Kernel} (esp : ℕ) (v : IsSched ps ts k) where
  dispatch-Keeps : (c : Ptr × Ptr) → chosen esp v ≡ c → Keeps k (dispatch esp c (toggled esp k)).1
  unfolding dispatch
  dispatch-Keeps (none, none) e = toggled-Keeps esp k
  dispatch-Keeps (some t, p) e =
      let nt =
        chosen_thread (saved esp k).prefer_thread (next_thread (saved esp k) ts)
          (next_proc (saved esp k) ps) p t e in
      let ready =
        first_ready-some (is_ready_thread (saved esp k))
          (search_order (saved esp k).current_sched_thread ts) t nt in
      Keeps-trans (toggled-Keeps esp k) (run_thread-Keeps t (toggled esp k) ready.0)
  dispatch-Keeps (none, some p) e =
      let np =
        chosen_process (saved esp k).prefer_thread (next_thread (saved esp k) ts)
          (next_proc (saved esp k) ps) p e in
      let ready =
        first_ready-some (is_ready_proc (saved esp k)) (search_order (saved esp k).current ps) p
          np in
      Keeps-trans (toggled-Keeps esp k) (run_process-Keeps p (toggled esp k) ready.0)

  -- The yield of a well-formed kernel ends, keeps the queues well formed, and keeps the state of
  -- every context that is neither READY nor RUNNING. Of a thread it changes at most the state and
  -- the saved stack pointer, of a process at most these and the ticks: identities, links and the
  -- wait queues stay.
  pub scheduler_yield-Keeps :
      (k' : Kernel) × (scheduler_yield esp k ≡ some k') × IsSched ps ts k' × Keeps k k'
  unfolding scheduler_yield
  scheduler_yield-Keeps = (
    (dispatch esp (chosen esp v) (toggled esp k)).1,
    rw (scheduler_irq-dispatch esp v),
    (chosen-Done esp v).0,
    dispatch-Keeps (chosen esp v) refl,
  )
