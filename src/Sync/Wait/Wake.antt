-- ===== src/Sync/Wait/Wake.antt =====
-- Leaving a wait queue: what `mutex_unlock` and `sem_signal` do when a thread waits.
use seng21213_os_se.Base.{ℕ, ◌≡◌, some, none, ◌==◌, if◌then◌else◌, List, [], ◌∷◌, arith, Ptr}
use seng21213_os_se.Task.{Kernel, ThreadState}
use seng21213_os_se.Scheduler.{scheduler_unblock_thread}
use seng21213_os_se.Scheduler.Queue.{IsSched}
use seng21213_os_se.Sync.Wait.{Links, dequeue}
use seng21213_os_se.Sync.Wait.Laws.{
  IsWaiting, AllBlocked, IsQuiet, IsQuiet-trans, IsQuiet-IsSched, IsWaiting-ext, dequeue-IsWaiting,
}

unblock_thread-IsQuiet : (c : ℕ) (k : Kernel) → IsQuiet k (scheduler_unblock_thread (some c) k)
unfolding scheduler_unblock_thread
unblock_thread-IsQuiet c k = record {
  rest = ground arith;
  next = λ j. ground arith;
  not_run = λ j e. ground arith;
}

-- What remains when the first waiting thread `h` has been taken off the queue and woken.
pub record IsWoken (h : ℕ) (k' : Kernel) (l : Links) (xs ps ts : List ℕ) : Type 0 where
  pub waiting : IsWaiting k' l.head l.tail xs
  pub blocked : AllBlocked k' xs
  pub ready : (k'.thread_table h).state ≡ ThreadState.ready
  pub sched : IsSched ps ts k'

-- The path that `mutex_unlock` and `sem_signal` share.
pub wake :
    {ps ts : List ℕ} {k : Kernel} (h : ℕ) (head tail : Ptr) (xs : List ℕ)
    → IsSched ps ts k
    → IsWaiting k head tail (h ∷ xs)
    → AllBlocked k (h ∷ xs)
    → let l = dequeue h tail k in IsWoken h (scheduler_unblock_thread (some h) l.kernel) l xs ps ts
unfolding scheduler_unblock_thread
wake {k} h head tail xs s w blocked =
    let l = dequeue h tail k in
    let (w', quiet, states) = dequeue-IsWaiting h k head tail xs w in
    let k' = scheduler_unblock_thread (some h) l.kernel in
    let asleep = blocked h (ground arith) in
    record {
      waiting = IsWaiting-ext l.kernel k' l.head l.tail xs (λ i. ground arith) w';
      blocked = λ i m. ground (arith, w.distinct.0, blocked i, states i);
      ready = ground (arith, asleep, states h);
      sched = IsQuiet-IsSched (IsQuiet-trans quiet (unblock_thread-IsQuiet h l.kernel)) s;
    }

-- The first of the threads that waited, if any, is READY.
abbrev pub FirstReady : Kernel → List ℕ → Type 0
FirstReady k [] = Unit
FirstReady k (x ∷ xs) = (k.thread_table x).state ≡ ThreadState.ready

-- From `k` to `k'`, the first of the threads that waited, if any, becomes READY and leaves the
-- queue, and nothing else changes: no other thread, no process and no variable of the scheduler.
abbrev pub OnlyWakes : List ℕ → Kernel → Kernel → Type 0
OnlyWakes [] k k' = k' ≡ k
OnlyWakes (x ∷ q) k k' =
    (k' ≡ record k { thread_table = k'.thread_table })
    × ((i : ℕ)
        → k'.thread_table i ≡ (
            if i == x
            then record (k.thread_table x) { state = ThreadState.ready; wait_next = none }
            else k.thread_table i))

pub dequeue-OnlyWakes :
    (x : ℕ) (q : List ℕ) (tail : Ptr) (k : Kernel)
    → (k.thread_table x).state ≡ ThreadState.blocked
    → OnlyWakes (x ∷ q) k (scheduler_unblock_thread (some x) (dequeue x tail k).kernel)
unfolding scheduler_unblock_thread dequeue
dequeue-OnlyWakes x q tail k asleep = (ground arith, λ i. ground arith)
