-- ===== src/Sync/Semaphore.antt =====
-- kernel/semaphore.c. A function takes NULL or a semaphore; `esp` is the stack pointer that the
-- yield of a blocked caller saves. The count is a C `int`, from -2 ^ 31 to 2 ^ 31 - 1; an increment
-- that overflows it, which is undefined in C, is `none`.
pub mod Count
use seng21213_os_se.Base.{
  ltb, ◌^◌, ℕ, zero, suc, Bool, true, false, Option, none, some, ◌>>=◌, if◌then◌else◌, Ptr, ℤ, pos,
  negsuc,
}
use seng21213_os_se.Task.{Kernel, thread_current}
use seng21213_os_se.Scheduler.{scheduler_block_thread, scheduler_unblock_thread, scheduler_yield}
use seng21213_os_se.Sync.Wait.{Links, enqueue, dequeue}

-- `semaphore_t`
pub record Semaphore : Type 0 where
  pub value : ℤ
  pub wait_head : Ptr
  pub wait_tail : Ptr

pub sem_init : Option Semaphore → ℤ → Option Semaphore
sem_init none value = none
sem_init (some s) value = some (record { value = value; wait_head = none; wait_tail = none })

abbrev pub is_positive : ℤ → Bool
is_positive (pos zero) = false
is_positive (pos (suc n)) = true
is_positive (negsuc n) = false

abbrev pub decrement : ℤ → ℤ
decrement (pos zero) = negsuc zero
decrement (pos (suc n)) = pos n
decrement (negsuc n) = negsuc (suc n)

abbrev pub increment : ℤ → Option ℤ
increment (pos n) = if ltb (suc n) (2 ^ 31) then some (pos (suc n)) else none
increment (negsuc zero) = some (pos zero)
increment (negsuc (suc n)) = some (negsuc n)

-- The last part of `sem_wait`: thread `c` waits and yields.
pub wait_on : ℕ → ℕ → Semaphore → Kernel → Option (Option Semaphore × Kernel)
wait_on esp c s k = do
  l ← enqueue c s.wait_head s.wait_tail k
  k' ← scheduler_yield esp (scheduler_block_thread (some c) l.kernel)
  some (some (record s { wait_head = l.head; wait_tail = l.tail }), k')

pub sem_wait : ℕ → Option Semaphore → Kernel → Option (Option Semaphore × Kernel)
unfolding thread_current
sem_wait esp none k = some (none, k)
sem_wait esp (some s) k = elim (thread_current k) [
  | none ↦ some (some s, k)
  | some c ↦
      if is_positive s.value
      then some (some (record s { value = decrement s.value }), k)
      else wait_on esp c s k
]

pub sem_signal : Option Semaphore → Kernel → Option (Option Semaphore × Kernel)
sem_signal none k = some (none, k)
sem_signal (some s) k = elim s.wait_head [
  | some h ↦
      (let l = dequeue h s.wait_tail k in
        some (
          some (record s { wait_head = l.head; wait_tail = l.tail }),
          scheduler_unblock_thread (some h) l.kernel,
        ))
  | none ↦ (do v ← increment s.value; some (some (record s { value = v }), k))
]
