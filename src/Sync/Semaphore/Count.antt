-- ===== src/Sync/Semaphore/Count.antt =====
-- `sem_wait` and `sem_signal` against what a counting semaphore promises.
use seng21213_os_se.Base.{
  ◌+◌, ◌^◌, ◌<◌, true, ltb, ℕ, zero, suc, ◌≡◌, refl, Option, none, some, List, [], ◌∷◌, ◌++◌, ◌>>=◌,
  arith, pos, ◌∙◌,
}
use seng21213_os_se.Task.{Kernel, ThreadState}
use seng21213_os_se.Scheduler.{scheduler_unblock_thread}
use seng21213_os_se.Scheduler.Queue.{IsSched}
use seng21213_os_se.Sync.Wait.{dequeue}
use seng21213_os_se.Sync.Wait.Laws.{IsWaiting, AllBlocked, running-not-mem}
use seng21213_os_se.Sync.Wait.Park.{park}
use seng21213_os_se.Sync.Wait.Wake.{wake, FirstReady, OnlyWakes, dequeue-OnlyWakes}
use seng21213_os_se.Sync.Semaphore.{Semaphore, sem_wait, sem_signal, wait_on, increment}

-- The units that are left, and the waiting threads in the order of their calls.
pub record Units : Type 0 where
  pub left : ℕ
  pub queue : List ℕ

abbrev pub units : ℕ → List ℕ → Units
units n q = record { left = n; queue = q }

unfoldable pub down : ℕ → ℕ → List ℕ → Units
down c zero q = units zero (q ++ (c ∷ []))
down c (suc n) q = units n q

unfoldable pub up : ℕ → List ℕ → Units
up n [] = units (suc n) []
up n (x ∷ q) = units n q

-- The semaphore stands for the units: the count is what is left, the queue holds the waiting
-- threads, each of them is BLOCKED, and none waits while a unit is left.
pub record Stands (s : Semaphore) (k : Kernel) (u : Units) : Type 0 where
  pub value : s.value ≡ pos u.left
  pub waiting : IsWaiting k s.wait_head s.wait_tail u.queue
  pub blocked : AllBlocked k u.queue
  pub busy : (n : ℕ) → u.left ≡ suc n → u.queue ≡ []

abbrev pub Gives : List ℕ → List ℕ → Units → Option (Option Semaphore × Kernel) → Type 0
Gives ps ts u out =
    (s' : Semaphore) × (k' : Kernel) × (out ≡ some (some s', k'))
    × (Stands s' k' u × IsSched ps ts k')

module _ (k : Kernel) (s : Semaphore) (esp c : ℕ) (caller : k.current_thread ≡ some c) where
  wait_positive :
      (n : ℕ)
      → s.value ≡ pos (suc n)
      → sem_wait esp (some s) k ≡ some (some (record s { value = pos n }), k)
  unfolding sem_wait
  wait_positive n e = ground arith

  wait_zero : s.value ≡ pos zero → sem_wait esp (some s) k ≡ wait_on esp c s k
  unfolding sem_wait
  wait_zero e = ground arith

-- On well-formed queues, called by the running thread, `sem_wait` ends: it takes a unit if one is
-- left, and otherwise puts the caller at the end of the queue, BLOCKED, with the count unchanged.
pub sem_wait-down :
    {ps ts : List ℕ} {k : Kernel} (s : Semaphore) (esp c n : ℕ) (q : List ℕ)
    → IsSched ps ts k
    → k.current_thread ≡ some c
    → (k.thread_table c).state ≡ ThreadState.running
    → Stands s k (units n q)
    → Gives ps ts (down c n q) (sem_wait esp (some s) k)
unfolding down wait_on
sem_wait-down {k} s esp c (suc n) q sched caller runs st =
    let empty : q ≡ [] = st.busy n refl in
    (
      record s { value = pos n },
      k,
      wait_positive k s esp c caller n st.value,
      (
        record { value = refl; waiting = st.waiting; blocked = st.blocked; busy = λ j e. empty },
        sched,
      ),
    )
sem_wait-down {k} s esp c zero q sched caller runs st =
    let out = running-not-mem c k q st.blocked runs in
    let (l, k', e, ye, p) = park esp c s.wait_head s.wait_tail q sched st.waiting st.blocked out in
    (
      record s { wait_head = l.head; wait_tail = l.tail },
      k',
      wait_zero k s esp c caller st.value ∙ rw (e, ye, ◌>>=◌, wait_on),
      (
        record { value = st.value; waiting = p.waiting; blocked = p.blocked; busy = λ j e. cc },
        p.sched,
      ),
    )

module _ (k : Kernel) (s : Semaphore) where
  signal_empty :
      s.wait_head ≡ none
      → sem_signal (some s) k ≡ (do v ← increment s.value; some (some (record s { value = v }), k))
  unfolding sem_signal
  signal_empty e = ground arith

  signal_none :
      (n : ℕ)
      → s.wait_head ≡ none
      → s.value ≡ pos n
      → n + 1 < 2 ^ 31
      → sem_signal (some s) k ≡ some (some (record s { value = pos (suc n) }), k)
  signal_none n e value small =
      let fits : ltb (suc n) 2147483648 ≡ true = ground (arith, small) in
      signal_empty e ∙ rw (value, fits, ◌>>=◌) refl

  signal_some :
      (h : ℕ)
      → s.wait_head ≡ some h
      → sem_signal (some s) k
        ≡ some (
          some (record s {
            wait_head = (dequeue h s.wait_tail k).head;
            wait_tail = (dequeue h s.wait_tail k).tail;
          }),
          scheduler_unblock_thread (some h) (dequeue h s.wait_tail k).kernel,
        )
  unfolding sem_signal
  signal_some h e = rw (e, sem_signal)

-- On well-formed queues, with a count that has room for one more in an `int`, `sem_signal` adds a
-- unit if no thread waits, and nothing in the kernel changes; otherwise the count stays, and the
-- first waiting thread gets the unit at once, is READY and off the queue, and no other thread, no
-- process and no variable of the scheduler changes. The run queues stay well formed.
pub sem_signal-up :
    {ps ts : List ℕ} {k : Kernel} (s : Semaphore) (n : ℕ) (q : List ℕ)
    → IsSched ps ts k
    → Stands s k (units n q)
    → n + 1 < 2 ^ 31
    → (s' : Semaphore) × (k' : Kernel) × (sem_signal (some s) k ≡ some (some s', k'))
      × Stands s' k' (up n q)
      × IsSched ps ts k'
      × FirstReady k' q
      × OnlyWakes q k k'
unfolding up
sem_signal-up {k} s n [] sched st small = (
  record s { value = pos (suc n) },
  k,
  signal_none k s n st.waiting.chain st.value small,
  record { value = refl; waiting = st.waiting; blocked = st.blocked; busy = λ j e. refl },
  sched,
  tt,
  refl,
)
sem_signal-up {k} s n (x ∷ q) sched st small =
    let w = wake x s.wait_head s.wait_tail q sched st.waiting st.blocked in
    (
      record s {
        wait_head = (dequeue x s.wait_tail k).head;
        wait_tail = (dequeue x s.wait_tail k).tail;
      },
      scheduler_unblock_thread (some x) (dequeue x s.wait_tail k).kernel,
      signal_some k s x st.waiting.chain.0,
      record {
        value = st.value;
        waiting = w.waiting;
        blocked = w.blocked;
        busy = λ j e. cc (st.busy j e);
      },
      w.sched,
      w.ready,
      dequeue-OnlyWakes x q s.wait_tail k (st.blocked x (ground arith)),
    )
