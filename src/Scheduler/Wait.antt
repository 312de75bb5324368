-- ===== src/Scheduler/Wait.antt =====
-- How long a READY context of the run queues waits for the CPU: timer interrupts one after another,
-- with anything between two of them that keeps the queues and what the round robin has stored.
pub mod Threads
pub mod Procs
use mathlib.Core.Option.{some-injective}
use mathlib.Core.Path.{subst}
use seng21213_os_se.Base.{
  ◌≤◌, ℕ, zero, suc, ◌+◌, ◌*◌, ◌<◌, ◌≡◌, ◌≢◌, refl, sym, ◌∙◌, ap, Bool, true, false, not, none,
  some, List, [], ◌∷◌, Ptr, arith, ◌==◌, length, if◌then◌else◌,
}
use seng21213_os_se.Task.{ProcState, ThreadState, Kernel}
use seng21213_os_se.Task.Ring.{mem, Distinct, IsRing, first_ready}
use seng21213_os_se.Task.Ring.Laws.{
  search_order, mem-search_order, first_ready-some, first_ready-none, PtrIn, length-turn,
}
use seng21213_os_se.Task.Ring.Order.{index, index-lt, passed_over-earlier}
use seng21213_os_se.Scheduler.{save_context, dispatch, run_thread, run_process, scheduler_irq}
use seng21213_os_se.Scheduler.Queue.{IsSched}
use seng21213_os_se.Scheduler.Pick.{
  next_proc, next_thread, pick_one, is_ready_thread, is_ready_proc,
}
use seng21213_os_se.Scheduler.Irq.{saved, toggled, chosen, scheduler_irq-dispatch, saved-IsSched}

-- Twice the contexts of the kind before `a` in the search from behind `c`, and one more for the
-- turn of the other kind.
abbrev pub rank : ℕ → List ℕ → Ptr → Bool → ℕ
rank a xs c preferred = 2 * index a (search_order c xs) + (if preferred then 0 else 1)

pub ring-Distinct : (next : ℕ → Ptr) (head : Ptr) (xs : List ℕ) → IsRing next head xs → Distinct xs
ring-Distinct next head [] r = tt
ring-Distinct next head (x ∷ xs) r = r.1

length-search_order : (c : Ptr) (xs : List ℕ) → length (search_order c xs) ≡ length xs
length-search_order none xs = refl
length-search_order (some c) xs = ground (arith, length-turn c [] xs)

pub rank-lt :
    (a : ℕ) (xs : List ℕ) (c : Ptr) (b : Bool) → mem a xs ≡ true → rank a xs c b < 2 * length xs
rank-lt a xs c b m =
    ground
      (arith, index-lt a (search_order c xs), mem-search_order a c xs, length-search_order c xs)
