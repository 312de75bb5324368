-- ===== src/Sync/Wait/Park.antt =====
-- Joining a wait queue: what a blocked `mutex_lock` and a blocked `sem_wait` do.
use seng21213_os_se.Base.{ℕ, ◌≡◌, refl, false, some, List, [], ◌∷◌, ◌++◌, arith, Ptr, ◌∙◌}
use seng21213_os_se.Task.{Kernel}
use seng21213_os_se.Task.Ring.{mem}
use seng21213_os_se.Task.Ring.Laws.{mem-append}
use seng21213_os_se.Scheduler.{scheduler_block_thread, scheduler_yield}
use seng21213_os_se.Scheduler.Queue.{IsSched}
use seng21213_os_se.Scheduler.Keeps.{scheduler_yield-Keeps}
use seng21213_os_se.Sync.Wait.{Links, enqueue}
use seng21213_os_se.Sync.Wait.Laws.{
  IsWaiting, AllBlocked, IsQuiet, IsQuiet-trans, IsQuiet-IsSched, IsWaiting-ext, enqueue-IsWaiting,
}

-- What the queue looks like once thread `c` has joined it and has given up the CPU.
pub record IsParked (k' : Kernel) (head tail : Ptr) (xs ps ts : List ℕ) : Type 0 where
  pub waiting : IsWaiting k' head tail xs
  pub blocked : AllBlocked k' xs
  pub sched : IsSched ps ts k'

block_thread-IsQuiet : (c : ℕ) (k : Kernel) → IsQuiet k (scheduler_block_thread (some c) k)
unfolding scheduler_block_thread
block_thread-IsQuiet c k = record {
  rest = refl;
  next = λ j. ground arith;
  not_run = λ j e. ground arith;
}

-- The path that `mutex_lock` and `sem_wait` share: join the queue, be BLOCKED, yield. It ends, the
-- caller is last in the queue, and everyone in the queue is BLOCKED afterwards.
pub park :
    {ps ts : List ℕ} {k : Kernel} (esp c : ℕ) (head tail : Ptr) (xs : List ℕ)
    → IsSched ps ts k
    → IsWaiting k head tail xs
    → AllBlocked k xs
    → mem c xs ≡ false
    → (l : Links) × (k' : Kernel) × (enqueue c head tail k ≡ some l)
      × (scheduler_yield esp (scheduler_block_thread (some c) l.kernel) ≡ some k')
      × IsParked k' l.head l.tail (xs ++ (c ∷ [])) ps ts
unfolding scheduler_block_thread
park {ps} {ts} {k} esp c head tail xs s w blocked out =
    let (l, e, w', quiet, states) = enqueue-IsWaiting c k head tail xs w out in
    let b = scheduler_block_thread (some c) l.kernel in
    let sched = IsQuiet-IsSched (IsQuiet-trans quiet (block_thread-IsQuiet c l.kernel)) s in
    let (k', ye, s', keeps) = scheduler_yield-Keeps esp sched in
    let asleep : AllBlocked b (xs ++ (c ∷ [])) =
      λ i m. ground (arith, mem-append i xs (c ∷ []), blocked i, states i) in
    (
      l,
      k',
      e,
      ye,
      record {
        waiting =
            IsWaiting-ext l.kernel k' l.head l.tail (xs ++ (c ∷ []))
              (λ i. keeps.wait_next i ∙ ground arith) w';
        blocked = λ i m. ground (arith, asleep i m, keeps.asleep i);
        sched = s';
      },
    )
