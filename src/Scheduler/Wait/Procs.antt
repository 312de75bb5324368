-- ===== src/Scheduler/Wait/Procs.antt =====
-- How long a READY process waits for the CPU.
use mathlib.Core.Option.{some-injective}
use mathlib.Core.Path.{subst}
use seng21213_os_se.Base.{
  ◌≤◌, ℕ, suc, ◌*◌, ◌<◌, ◌≡◌, ◌≢◌, refl, sym, ◌∙◌, ap, Bool, true, false, not, none, some, List,
  Ptr, arith, length,
}
use seng21213_os_se.Task.{ProcState, Kernel}
use seng21213_os_se.Task.Ring.{mem}
use seng21213_os_se.Task.Ring.Laws.{search_order, mem-search_order, first_ready-none}
use seng21213_os_se.Task.Ring.Order.{index, passed_over-earlier}
use seng21213_os_se.Scheduler.{save_context, dispatch, run_thread, run_process, scheduler_irq}
use seng21213_os_se.Scheduler.Queue.{IsSched}
use seng21213_os_se.Scheduler.Pick.{next_proc, next_thread, pick_one, is_ready_proc}
use seng21213_os_se.Scheduler.Irq.{saved, toggled, chosen, scheduler_irq-dispatch}
use seng21213_os_se.Scheduler.Wait.{rank, ring-Distinct, rank-lt}

-- The interrupt has not run process `a`, and has lowered its rank.
abbrev LoweredProc : ℕ → List ℕ → Kernel → ℕ × Kernel → Type 0
LoweredProc a ps k (esp', k') =
    (k'.pcb_table a).state ≢ ProcState.running
    → rank a ps k'.current (not k'.prefer_thread) < rank a ps k.current (not k.prefer_thread)

module _ {ps ts : List ℕ} {k : Kernel} (esp a : ℕ) (v : IsSched ps ts k) where
  kept_proc : (k.pcb_table a).state ≡ ProcState.ready → is_ready_proc (saved esp k) a ≡ true
  unfolding save_context
  kept_proc r = ground (arith, r)

  same_proc : (saved esp k).current ≡ k.current
  unfolding save_context
  same_proc = ground arith

  same_prefer : (saved esp k).prefer_thread ≡ k.prefer_thread
  unfolding save_context
  same_prefer = ground arith

  -- The process that is chosen before `a` makes `a` come earlier.
  proc_earlier :
      (t : ℕ)
      → (k.pcb_table a).state ≡ ProcState.ready
      → mem a ps ≡ true
      → next_proc (saved esp k) ps ≡ some t
      → t ≢ a
      → index a (search_order (some t) ps) < index a (search_order k.current ps)
  proc_earlier t r m e other =
      passed_over-earlier (is_ready_proc (saved esp k)) k.current ps t a
        (ring-Distinct _ _ ps v.procs) v.current_in (rw same_proc at e) (kept_proc r) m other

  abbrev Lowers : Ptr × Ptr → Type 0
  Lowers c = LoweredProc a ps k (dispatch esp c (toggled esp k))

  Lowers-proc :
      (t : ℕ)
      → (k.pcb_table a).state ≡ ProcState.ready
      → mem a ps ≡ true
      → next_proc (saved esp k) ps ≡ some t
      → Lowers (none, some t)
  unfolding dispatch run_process
  Lowers-proc t r m e out =
      let other : t ≢ a = λ same. out (ground (arith, same)) in
      ground (arith, proc_earlier t r m e other)

  Lowers-by_choice :
      (b : Bool) (t p : Ptr)
      → (k.pcb_table a).state ≡ ProcState.ready
      → mem a ps ≡ true
      → (saved esp k).prefer_thread ≡ b
      → next_proc (saved esp k) ps ≡ p
      → Lowers (pick_one b t p)
  unfolding dispatch run_thread
  Lowers-by_choice false t (some p) r m eb ep = Lowers-proc p r m ep
  Lowers-by_choice true none (some p) r m eb ep = Lowers-proc p r m ep
  Lowers-by_choice true (some t) p r m eb ep = λ out. ground (arith, eb, same_proc, same_prefer)
  Lowers-by_choice b t none r m eb ep = absurd (
      ground (
        arith,
        kept_proc r,
        first_ready-none (is_ready_proc (saved esp k)) (search_order (saved esp k).current ps) a ep
            (ground (arith, mem-search_order a (saved esp k).current ps)),
      ))

  proc_tick : (k.pcb_table a).state ≡ ProcState.ready → mem a ps ≡ true → Lowers (chosen esp v)
  proc_tick r m =
      Lowers-by_choice (saved esp k).prefer_thread (next_thread (saved esp k) ts)
        (next_proc (saved esp k) ps) r m refl refl

-- What runs between two interrupts may do all that keeps the queues well formed, process `a` READY,
-- and what the round robin has stored.
pub record ProcWaits (ps ts : List ℕ) (a : ℕ) (k k' : Kernel) : Type 0 where
  pub sched : IsSched ps ts k'
  pub ready : (k'.pcb_table a).state ≡ ProcState.ready
  pub place : k'.current ≡ k.current
  pub preferred : k'.prefer_thread ≡ k.prefer_thread

-- `n` timer interrupts, the first of them in `k`, none of which runs process `a`.
pub data ProcUnserved (ps ts : List ℕ) (a : ℕ) : ℕ → Kernel → Type 0 where
  none_yet : {k : Kernel} → ProcUnserved ps ts a 0 k
  passed_over :
      {n : ℕ} {k k' k'' : Kernel} (esp esp' : ℕ)
      → scheduler_irq esp k ≡ some (esp', k')
      → (k'.pcb_table a).state ≢ ProcState.running
      → ProcWaits ps ts a k' k''
      → ProcUnserved ps ts a n k''
      → ProcUnserved ps ts a (suc n) k

proc_tick_irq :
    {ps ts : List ℕ} {k k' : Kernel} (esp esp' a : ℕ)
    → IsSched ps ts k
    → (k.pcb_table a).state ≡ ProcState.ready
    → mem a ps ≡ true
    → scheduler_irq esp k ≡ some (esp', k')
    → (k'.pcb_table a).state ≢ ProcState.running
    → rank a ps k'.current (not k'.prefer_thread) < rank a ps k.current (not k.prefer_thread)
proc_tick_irq {ps = ps} {k = k} esp esp' a v r m e out =
    subst (λ o. LoweredProc a ps k o) (some-injective _ _ (sym (scheduler_irq-dispatch esp v) ∙ e))
      (proc_tick esp a v r m) out

proc_rank :
    {ps ts : List ℕ} (a : ℕ) {k : Kernel} {n : ℕ}
    → IsSched ps ts k
    → (k.pcb_table a).state ≡ ProcState.ready
    → mem a ps ≡ true
    → ProcUnserved ps ts a n k
    → n ≤ rank a ps k.current (not k.prefer_thread)
proc_rank a v r m none_yet = omega arith
proc_rank {ps = ps} a v r m (passed_over {k' = k'} {k'' = k''} esp esp' e out w u) =
    let less = proc_tick_irq esp esp' a v r m e out in
    let rest = proc_rank a w.sched w.ready m u in
    omega (
      arith,
      less,
      rest,
      ap (λ c. rank a ps c (not k''.prefer_thread)) w.place,
      ap (λ b. rank a ps k'.current (not b)) w.preferred,
    )

-- A READY process of well-formed queues waits less than two rounds for the CPU: fewer than twice as
-- many timer interrupts as processes are queued follow one another without running it, if what runs
-- between them keeps the queues well formed, the process READY, and the stored place and preference
-- of the round robin.
pub ProcUnserved-lt :
    {ps ts : List ℕ} {k : Kernel} (n a : ℕ)
    → IsSched ps ts k
    → (k.pcb_table a).state ≡ ProcState.ready
    → mem a ps ≡ true
    → ProcUnserved ps ts a n k
    → n < 2 * length ps
ProcUnserved-lt {ps = ps} {k = k} n a v r m u =
    omega (arith, proc_rank a v r m u, rank-lt a ps k.current (not k.prefer_thread) m)
