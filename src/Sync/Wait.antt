-- ===== src/Sync/Wait.antt =====
-- The wait queue of mutex.c and semaphore.c: a list with head and tail pointers, linked by the
-- field `wait_next` of the waiting threads. `none` is a write through a NULL tail.
pub mod Laws
pub mod Park
pub mod Wake
use seng21213_os_se.Base.{Option, none, some, ℕ, Ptr}
use seng21213_os_se.Task.{Kernel, set_thread}

pub record Links : Type 0 where
  pub head : Ptr
  pub tail : Ptr
  pub kernel : Kernel

abbrev pub wait_next : Kernel → ℕ → Ptr
wait_next k i = (k.thread_table i).wait_next

abbrev pub set_wait : Kernel → ℕ → Ptr → Kernel
set_wait k i p = set_thread k i (record (k.thread_table i) { wait_next = p })

-- The current thread `c` goes to the end of the queue.
unfoldable pub enqueue : ℕ → Ptr → Ptr → Kernel → Option Links
enqueue c none tail k = some (record { head = some c; tail = some c; kernel = set_wait k c none })
enqueue c (some h) none k = none
enqueue c (some h) (some t) k =
    some (record { head = some h; tail = some c; kernel = set_wait (set_wait k c none) t (some c) })

-- The first thread `h` leaves the queue.
unfoldable pub dequeue : ℕ → Ptr → Kernel → Links
dequeue h tail k =
    let head = wait_next k h in
    let tail' : Ptr = elim head [ none ↦ none | some _ ↦ tail ] in
    record { head = head; tail = tail'; kernel = set_wait k h none }
