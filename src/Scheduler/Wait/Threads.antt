-- ===== src/Scheduler/Wait/Threads.antt =====
-- How long a READY thread waits for the CPU.
use mathlib.Core.Option.{some-injective}
use mathlib.Core.Path.{subst}
use seng21213_os_se.Base.{
  ◌≤◌, ℕ, suc, ◌*◌, ◌<◌, ◌≡◌, ◌≢◌, refl, sym, ◌∙◌, ap, Bool, true, false, none, some, List, Ptr,
  arith, length,
}
use seng21213_os_se.Task.{ThreadState, Kernel}
use seng21213_os_se.Task.Ring.{mem}
use seng21213_os_se.Task.Ring.Laws.{search_order, mem-search_order, first_ready-none}
use seng21213_os_se.Task.Ring.Order.{index, passed_over-earlier}
use seng21213_os_se.Scheduler.{save_context, dispatch, run_thread, run_process, scheduler_irq}
use seng21213_os_se.Scheduler.Queue.{IsSched}
use seng21213_os_se.Scheduler.Pick.{next_proc, next_thread, pick_one, is_ready_thread}
use seng21213_os_se.Scheduler.Irq.{saved, toggled, chosen, scheduler_irq-dispatch}
use seng21213_os_se.Scheduler.Wait.{rank, ring-Distinct, rank-lt}

-- The interrupt has not run thread `a`, and has lowered its rank.
abbrev LoweredThread : ℕ → List ℕ → Kernel → ℕ × Kernel → Type 0
LoweredThread a ts k (esp', k') =
    (k'.thread_table a).state ≢ ThreadState.running
    → rank a ts k'.current_sched_thread k'.prefer_thread
      < rank a ts k.current_sched_thread k.prefer_thread

module _ {ps ts : List ℕ} {k : Kernel} (esp a : ℕ) (v : IsSched ps ts k) where
  kept_thread :
      (k.thread_table a).state ≡ ThreadState.ready → is_ready_thread (saved esp k) a ≡ true
  unfolding save_context
  kept_thread r = ground (arith, r)

  same_thread : (saved esp k).current_sched_thread ≡ k.current_sched_thread
  unfolding save_context
  same_thread = ground arith

  same_prefer : (saved esp k).prefer_thread ≡ k.prefer_thread
  unfolding save_context
  same_prefer = ground arith

  -- The thread that is chosen before `a` makes `a` come earlier.
  thread_earlier :
      (t : ℕ)
      → (k.thread_table a).state ≡ ThreadState.ready
      → mem a ts ≡ true
      → next_thread (saved esp k) ts ≡ some t
      → t ≢ a
      → index a (search_order (some t) ts) < index a (search_order k.current_sched_thread ts)
  thread_earlier t r m e other =
      passed_over-earlier (is_ready_thread (saved esp k)) k.current_sched_thread ts t a
        (ring-Distinct _ _ ts v.threads) v.current_thread_in (rw same_thread at e) (kept_thread r) m
        other

  abbrev Lowers : Ptr × Ptr → Type 0
  Lowers c = LoweredThread a ts k (dispatch esp c (toggled esp k))

  Lowers-thread :
      (t : ℕ)
      → (k.thread_table a).state ≡ ThreadState.ready
      → mem a ts ≡ true
      → next_thread (saved esp k) ts ≡ some t
      → Lowers (some t, none)
  unfolding dispatch run_thread
  Lowers-thread t r m e out =
      let other : t ≢ a = λ same. out (ground (arith, same)) in
      ground (arith, thread_earlier t r m e other)

  Lowers-by_choice :
      (b : Bool) (t p : Ptr)
      → (k.thread_table a).state ≡ ThreadState.ready
      → mem a ts ≡ true
      → (saved esp k).prefer_thread ≡ b
      → next_thread (saved esp k) ts ≡ t
      → Lowers (pick_one b t p)
  unfolding dispatch run_process
  Lowers-by_choice true (some t) p r m eb et = Lowers-thread t r m et
  Lowers-by_choice false (some t) none r m eb et = Lowers-thread t r m et
  Lowers-by_choice false t (some p) r m eb et = λ out. ground (arith, eb, same_thread, same_prefer)
  Lowers-by_choice b none p r m eb et = absurd (
      ground (
        arith,
        kept_thread r,
        first_ready-none (is_ready_thread (saved esp k))
            (search_order (saved esp k).current_sched_thread ts) a et
            (ground (arith, mem-search_order a (saved esp k).current_sched_thread ts)),
      ))

  thread_tick :
      (k.thread_table a).state ≡ ThreadState.ready → mem a ts ≡ true → Lowers (chosen esp v)
  thread_tick r m =
      Lowers-by_choice (saved esp k).prefer_thread (next_thread (saved esp k) ts)
        (next_proc (saved esp k) ps) r m refl refl

-- What runs between two interrupts may do all that keeps the queues well formed, thread `a` READY,
-- and what the round robin has stored.
pub record ThreadWaits (ps ts : List ℕ) (a : ℕ) (k k' : Kernel) : Type 0 where
  pub sched : IsSched ps ts k'
  pub ready : (k'.thread_table a).state ≡ ThreadState.ready
  pub place : k'.current_sched_thread ≡ k.current_sched_thread
  pub preferred : k'.prefer_thread ≡ k.prefer_thread

-- `n` timer interrupts, the first of them in `k`, none of which runs thread `a`.
pub data ThreadUnserved (ps ts : List ℕ) (a : ℕ) : ℕ → Kernel → Type 0 where
  none_yet : {k : Kernel} → ThreadUnserved ps ts a 0 k
  passed_over :
      {n : ℕ} {k k' k'' : Kernel} (esp esp' : ℕ)
      → scheduler_irq esp k ≡ some (esp', k')
      → (k'.thread_table a).state ≢ ThreadState.running
      → ThreadWaits ps ts a k' k''
      → ThreadUnserved ps ts a n k''
      → ThreadUnserved ps ts a (suc n) k

thread_tick_irq :
    {ps ts : List ℕ} {k k' : Kernel} (esp esp' a : ℕ)
    → IsSched ps ts k
    → (k.thread_table a).state ≡ ThreadState.ready
    → mem a ts ≡ true
    → scheduler_irq esp k ≡ some (esp', k')
    → (k'.thread_table a).state ≢ ThreadState.running
    → rank a ts k'.current_sched_thread k'.prefer_thread
      < rank a ts k.current_sched_thread k.prefer_thread
thread_tick_irq {ts = ts} {k = k} esp esp' a v r m e out =
    subst (λ o. LoweredThread a ts k o)
      (some-injective _ _ (sym (scheduler_irq-dispatch esp v) ∙ e)) (thread_tick esp a v r m) out

thread_rank :
    {ps ts : List ℕ} (a : ℕ) {k : Kernel} {n : ℕ}
    → IsSched ps ts k
    → (k.thread_table a).state ≡ ThreadState.ready
    → mem a ts ≡ true
    → ThreadUnserved ps ts a n k
    → n ≤ rank a ts k.current_sched_thread k.prefer_thread
thread_rank a v r m none_yet = omega arith
thread_rank {ts = ts} a v r m (passed_over {k' = k'} {k'' = k''} esp esp' e out w u) =
    let less = thread_tick_irq esp esp' a v r m e out in
    let rest = thread_rank a w.sched w.ready m u in
    omega (
      arith,
      less,
      rest,
      ap (λ c. rank a ts c k''.prefer_thread) w.place,
      ap (λ b. rank a ts k'.current_sched_thread b) w.preferred,
    )

-- A READY thread of well-formed queues waits less than two rounds for the CPU: fewer than twice as
-- many timer interrupts as threads are queued follow one another without running it, if what runs
-- between them keeps the queues well formed, the thread READY, and the stored place and preference
-- of the round robin.
pub ThreadUnserved-lt :
    {ps ts : List ℕ} {k : Kernel} (n a : ℕ)
    → IsSched ps ts k
    → (k.thread_table a).state ≡ ThreadState.ready
    → mem a ts ≡ true
    → ThreadUnserved ps ts a n k
    → n < 2 * length ts
ThreadUnserved-lt {ts = ts} {k = k} n a v r m u =
    omega (arith, thread_rank a v r m u, rank-lt a ts k.current_sched_thread k.prefer_thread m)
