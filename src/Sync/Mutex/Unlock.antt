-- ===== src/Sync/Mutex/Unlock.antt =====
-- `mutex_unlock` releases the lock of the specification.
use seng21213_os_se.Base.{
  ℕ, ◌≡◌, refl, true, false, none, some, List, [], ◌∷◌, arith, ◌==◌, if◌then◌else◌, Bool-cases, inl,
  inr,
}
use seng21213_os_se.Task.{Kernel}
use seng21213_os_se.Scheduler.Queue.{IsSched}
use seng21213_os_se.Sync.Wait.Wake.{wake, FirstReady, OnlyWakes, dequeue-OnlyWakes}
use seng21213_os_se.Sync.Mutex.{Mutex, mutex_unlock, hand_over}
use seng21213_os_se.Sync.Mutex.Spec.{Lock, free, held, release, Stands}

-- The threads of which a release by `c` wakes the first.
abbrev pub woken : ℕ → Lock → List ℕ
woken c free = []
woken c (held o q) = if o == c then q else []

-- What a release by `c` does not touch: nothing at all changes unless the caller owns the lock.
abbrev pub Spares : ℕ → Lock → Mutex → Kernel → Mutex → Kernel → Type 0
Spares c free m k m' k' = (m' ≡ m) × (k' ≡ k)
Spares c (held o q) m k m' k' = if o == c then OnlyWakes q k k' else ((m' ≡ m) × (k' ≡ k))

module _ (m : Mutex) (k : Kernel) where
  unlock_free : m.locked ≡ false → mutex_unlock (some m) k ≡ (some m, k)
  unfolding mutex_unlock
  unlock_free e = ground arith

  unlock_other :
      (o c : ℕ)
      → m.locked ≡ true
      → m.owner ≡ some o
      → k.current_thread ≡ some c
      → (o == c) ≡ false
      → mutex_unlock (some m) k ≡ (some m, k)
  unfolding mutex_unlock
  unlock_other o c e own caller ne = ground arith

  unlock_last :
      (o c : ℕ)
      → m.locked ≡ true
      → m.owner ≡ some o
      → k.current_thread ≡ some c
      → (o == c) ≡ true
      → m.wait_head ≡ none
      → mutex_unlock (some m) k ≡ (some (record m { locked = false; owner = none }), k)
  unfolding mutex_unlock
  unlock_last o c e own caller same empty = ground arith

  unlock_next :
      (o c h : ℕ)
      → m.locked ≡ true
      → m.owner ≡ some o
      → k.current_thread ≡ some c
      → (o == c) ≡ true
      → m.wait_head ≡ some h
      → mutex_unlock (some m) k ≡ (some (hand_over h m k).0, (hand_over h m k).1)
  unfolding mutex_unlock
  unlock_next o c h e own caller same first = ground arith

-- On well-formed queues, called by the current thread, `mutex_unlock` does what releasing the lock
-- means: unless the caller owns it, neither the mutex nor anything in the kernel changes; the lock
-- becomes free if no thread waits, and nothing in the kernel changes; and otherwise the first
-- waiting thread owns it at once, is READY and off the queue, and no other thread, no process and
-- no variable of the scheduler changes. The run queues stay well formed.
pub mutex_unlock-release :
    {ps ts : List ℕ} {k : Kernel} (m : Mutex) (c : ℕ) (lock : Lock)
    → IsSched ps ts k
    → k.current_thread ≡ some c
    → Stands m k lock
    → (m' : Mutex) × (k' : Kernel) × (mutex_unlock (some m) k ≡ (some m', k'))
      × Stands m' k' (release c lock)
      × IsSched ps ts k'
      × FirstReady k' (woken c lock)
      × Spares c lock m k m' k'
unfolding release hand_over
mutex_unlock-release {k} m c free s caller st =
    (m, k, unlock_free m k st.0, st, s, tt, (refl, refl))
mutex_unlock-release {k} m c (held o []) s caller st = elim (Bool-cases (o == c)) [
  | inr other ↦
      rw other (m, k, unlock_other m k o c st.0 st.1 caller other, st, s, tt, (refl, refl))
  | inl own ↦ rw own (
    record m { locked = false; owner = none },
    k,
    unlock_last m k o c st.0 st.1 caller own st.2.chain,
    (refl, refl, st.2),
    s,
    tt,
    refl,
  )
]
mutex_unlock-release {ps} {ts} {k} m c (held o (x ∷ q)) s caller st = elim (Bool-cases (o == c)) [
  | inr other ↦
      rw other (m, k, unlock_other m k o c st.0 st.1 caller other, st, s, tt, (refl, refl))
  | inl own ↦
      let w = wake x m.wait_head m.wait_tail q s st.2 st.3 in
      rw own (
        (hand_over x m k).0,
        (hand_over x m k).1,
        unlock_next m k o c x st.0 st.1 caller own st.2.chain.0,
        (refl, refl, w.waiting, w.blocked, st.2.distinct.0),
        w.sched,
        w.ready,
        dequeue-OnlyWakes x q m.wait_tail k (st.3 x (ground arith)),
      )
]
