-- ===== src/Sync/Tests.antt =====
-- A mutex and a semaphore on the demonstration kernel, and their theorems there.
use seng21213_os_se.Base.{arith, ◌≡◌, refl, true, none, some, [], pos}
use seng21213_os_se.Task.{Kernel}
use seng21213_os_se.Scheduler.Queue.{IsSched}
use seng21213_os_se.Sync.Wait.Wake.{FirstReady, OnlyWakes}
use seng21213_os_se.Sync.Mutex
use seng21213_os_se.Sync.Mutex.{Mutex, mutex_lock, mutex_unlock}
use seng21213_os_se.Sync.Mutex.Spec.{Lock, free, held, acquire, release}
use seng21213_os_se.Sync.Mutex.Lock.{mutex_lock-acquire}
use seng21213_os_se.Sync.Mutex.Unlock.{mutex_unlock-release, woken}
use seng21213_os_se.Sync.Semaphore
use seng21213_os_se.Sync.Semaphore.{Semaphore, sem_wait, sem_signal}
use seng21213_os_se.Sync.Semaphore.Count.{units, down, up, sem_wait-down, sem_signal-up}
use seng21213_os_se.Demo.{demo_kernel, demo-IsSched, two}

-- Thread 1 holds the mutex, and thread 0 asks for it.
abbrev taken : Mutex
taken = record { locked = true; owner = some 1; wait_head = none; wait_tail = none }

taken-Stands : Mutex.Spec.Stands taken demo_kernel (held 1 [])
taken-Stands = (refl, refl, record { chain = refl; tail_is = refl; distinct = tt }, λ i e. cc, refl)

mutex_lock-acquire_example :
    (m' : Mutex) × (k' : Kernel) × (mutex_lock 0xbeef (some taken) demo_kernel ≡ some (some m', k'))
    × Mutex.Spec.Stands m' k' (acquire 0 (held 1 []))
    × IsSched two two k'
    × Mutex.Lock.Spares 0 (held 1 []) taken demo_kernel m' k'
mutex_lock-acquire_example =
    mutex_lock-acquire taken 0xbeef 0 demo-IsSched refl refl (held 1 []) taken-Stands

abbrev mine : Mutex
mine = record taken { owner = some 0 }

mine-Stands : Mutex.Spec.Stands mine demo_kernel (held 0 [])
mine-Stands = (refl, refl, record { chain = refl; tail_is = refl; distinct = tt }, λ i e. cc, refl)

mutex_unlock-release_example :
    (m' : Mutex) × (k' : Kernel) × (mutex_unlock (some mine) demo_kernel ≡ (some m', k'))
    × Mutex.Spec.Stands m' k' (release 0 (held 0 []))
    × IsSched two two k'
    × FirstReady k' (woken 0 (held 0 []))
    × Mutex.Unlock.Spares 0 (held 0 []) mine demo_kernel m' k'
mutex_unlock-release_example = mutex_unlock-release mine 0 (held 0 []) demo-IsSched refl mine-Stands

abbrev empty_sem : Semaphore
empty_sem = record { value = pos 0; wait_head = none; wait_tail = none }

empty-Stands : Semaphore.Count.Stands empty_sem demo_kernel (units 0 [])
empty-Stands = record {
  value = refl;
  waiting = record { chain = refl; tail_is = refl; distinct = tt };
  blocked = λ i e. cc;
  busy = λ n e. refl;
}

sem_wait-down_example :
    Semaphore.Count.Gives two two (down 0 0 []) (sem_wait 0xbeef (some empty_sem) demo_kernel)
sem_wait-down_example = sem_wait-down empty_sem 0xbeef 0 0 [] demo-IsSched refl refl empty-Stands

sem_signal-up_example :
    (s' : Semaphore) × (k' : Kernel) × (sem_signal (some empty_sem) demo_kernel
      ≡ some (some s', k'))
    × Semaphore.Count.Stands s' k' (up 0 [])
    × IsSched two two k'
    × FirstReady k' []
    × OnlyWakes [] demo_kernel k'
sem_signal-up_example = sem_signal-up empty_sem 0 [] demo-IsSched empty-Stands (omega arith)
