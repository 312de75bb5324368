-- ===== src/Sync/Mutex.antt =====
-- kernel/mutex.c. A function takes NULL or a mutex; `esp` is the stack pointer that the yield of a
-- blocked caller saves.
pub mod Spec
pub mod Lock
pub mod Unlock
use seng21213_os_se.Base.{
  ℕ, Bool, true, false, Option, none, some, ◌>>=◌, if◌then◌else◌, not, Ptr, same_ptr,
}
use seng21213_os_se.Task.{Kernel, thread_current}
use seng21213_os_se.Scheduler.{scheduler_block_thread, scheduler_unblock_thread, scheduler_yield}
use seng21213_os_se.Sync.Wait.{Links, enqueue, dequeue}

-- `mutex_t`; the field `locked` is 0 or 1.
pub record Mutex : Type 0 where
  pub locked : Bool
  pub owner : Ptr
  pub wait_head : Ptr
  pub wait_tail : Ptr

pub mutex_init : Option Mutex → Option Mutex
mutex_init none = none
mutex_init (some m) =
    some (record { locked = false; owner = none; wait_head = none; wait_tail = none })

-- The last part of `mutex_lock`: thread `c` waits and yields.
pub block_on : ℕ → ℕ → Mutex → Kernel → Option (Option Mutex × Kernel)
block_on esp c m k = do
  l ← enqueue c m.wait_head m.wait_tail k
  k' ← scheduler_yield esp (scheduler_block_thread (some c) l.kernel)
  some (some (record m { wait_head = l.head; wait_tail = l.tail }), k')

pub mutex_lock : ℕ → Option Mutex → Kernel → Option (Option Mutex × Kernel)
unfolding thread_current
mutex_lock esp none k = some (none, k)
mutex_lock esp (some m) k = elim (thread_current k) [
  | none ↦ some (some m, k)
  | some c ↦
      if not m.locked
      then some (some (record m { locked = true; owner = some c }), k)
      else if same_ptr m.owner (some c)
      then some (some m, k)
      else block_on esp c m k
]

-- The last part of `mutex_unlock`: the first waiting thread `h` becomes the owner.
pub hand_over : ℕ → Mutex → Kernel → Mutex × Kernel
hand_over h m k =
    let l = dequeue h m.wait_tail k in
    (
      record { locked = true; owner = some h; wait_head = l.head; wait_tail = l.tail },
      scheduler_unblock_thread (some h) l.kernel,
    )

pub mutex_unlock : Option Mutex → Kernel → Option Mutex × Kernel
unfolding thread_current
mutex_unlock none k = (none, k)
mutex_unlock (some m) k =
    if not m.locked
    then (some m, k)
    else if not (same_ptr m.owner (thread_current k))
    then (some m, k)
    else elim m.wait_head [
      | none ↦ (some (record m { locked = false; owner = none }), k)
      | some h ↦ (let (m', k') = hand_over h m k in (some m', k'))
    ]
