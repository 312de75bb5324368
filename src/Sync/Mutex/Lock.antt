-- ===== src/Sync/Mutex/Lock.antt =====
-- `mutex_lock` acquires the lock of the specification, or queues its caller for it.
use seng21213_os_se.Base.{
  ℕ, ◌≡◌, refl, true, false, some, List, [], ◌∷◌, ◌++◌, ◌>>=◌, arith, ◌==◌, ◌∙◌, Bool-cases, inl,
  inr, if◌then◌else◌,
}
use seng21213_os_se.Task.{Kernel, ThreadState}
use seng21213_os_se.Task.Ring.Laws.{mem-append}
use seng21213_os_se.Scheduler.Queue.{IsSched}
use seng21213_os_se.Sync.Wait.Laws.{running-not-mem}
use seng21213_os_se.Sync.Wait.Park.{park}
use seng21213_os_se.Sync.Mutex.{Mutex, mutex_lock, block_on}
use seng21213_os_se.Sync.Mutex.Spec.{Lock, free, held, acquire, Stands}

-- What acquiring by `c` does not touch: the kernel if the lock is free, the mutex too if the caller
-- owns it, and otherwise the mutex but for its queue.
abbrev pub Spares : ℕ → Lock → Mutex → Kernel → Mutex → Kernel → Type 0
Spares c free m k m' k' = (k' ≡ k) × (m' ≡ record m { locked = true; owner = some c })
Spares c (held o q) m k m' k' =
    if o == c
    then (k' ≡ k) × (m' ≡ m)
    else m' ≡ record m { wait_head = m'.wait_head; wait_tail = m'.wait_tail }

module _ {ps ts : List ℕ} {k : Kernel} {m : Mutex} (esp c : ℕ) (s : IsSched ps ts k)
    (runs : (k.thread_table c).state ≡ ThreadState.running) where
  block_on-held :
      (o : ℕ) (q : List ℕ)
      → Stands m k (held o q)
      → (o == c) ≡ false
      → (m' : Mutex) × (k' : Kernel) × (block_on esp c m k ≡ some (some m', k'))
        × Stands m' k' (held o (q ++ (c ∷ [])))
        × IsSched ps ts k'
        × (m' ≡ record m { wait_head = m'.wait_head; wait_tail = m'.wait_tail })
  unfolding block_on
  block_on-held o q (locked, owner, waiting, blocked, apart) ne =
      let out = running-not-mem c k q blocked runs in
      let (l, k', e, ye, p) = park esp c m.wait_head m.wait_tail q s waiting blocked out in
      (
        record m { wait_head = l.head; wait_tail = l.tail },
        k',
        rw (e, ye, ◌>>=◌),
        (locked, owner, p.waiting, p.blocked, ground (arith, mem-append o q (c ∷ []))),
        p.sched,
        refl,
      )

module _ (k : Kernel) (m : Mutex) (esp c : ℕ) (caller : k.current_thread ≡ some c) where
  lock_free :
      m.locked ≡ false
      → mutex_lock esp (some m) k ≡ some (some (record m { locked = true; owner = some c }), k)
  unfolding mutex_lock
  lock_free e = ground arith

  lock_own : m.locked ≡ true → m.owner ≡ some c → mutex_lock esp (some m) k ≡ some (some m, k)
  unfolding mutex_lock
  lock_own e o = ground arith

  lock_other :
      (o : ℕ)
      → m.locked ≡ true
      → m.owner ≡ some o
      → (o == c) ≡ false
      → mutex_lock esp (some m) k ≡ block_on esp c m k
  unfolding mutex_lock
  lock_other o e own ne = ground arith

module _ {ps ts : List ℕ} {k : Kernel} (m : Mutex) (esp c : ℕ) (s : IsSched ps ts k)
    (caller : k.current_thread ≡ some c)
    (runs : (k.thread_table c).state ≡ ThreadState.running) where
  -- On well-formed queues, called by the running thread, `mutex_lock` ends and does what acquiring
  -- the lock means: it takes a free lock and changes nothing else in the mutex and nothing in the
  -- kernel; if the caller owns the lock, neither the mutex nor anything in the kernel changes; and
  -- otherwise it puts the caller at the end of the queue, BLOCKED, with the owner unchanged. The
  -- run queues stay well formed.
  pub mutex_lock-acquire :
      (lock : Lock)
      → Stands m k lock
      → (m' : Mutex) × (k' : Kernel) × (mutex_lock esp (some m) k ≡ some (some m', k'))
        × Stands m' k' (acquire c lock)
        × IsSched ps ts k'
        × Spares c lock m k m' k'
  unfolding acquire
  mutex_lock-acquire free (locked, owner, waiting) = (
    record m { locked = true; owner = some c },
    k,
    lock_free k m esp c caller locked,
    (refl, refl, waiting, λ i e. cc, refl),
    s,
    (refl, refl),
  )
  mutex_lock-acquire (held o q) st = elim (Bool-cases (o == c)) [
    | inl own ↦
        let mine : m.owner ≡ some c = ground (arith, st.1) in
        rw own (m, k, lock_own k m esp c caller st.0 mine, st, s, (refl, refl))
    | inr other ↦
        let (m', k', e, st', s', kept) = block_on-held esp c s runs o q st other in
        rw other (m', k', lock_other k m esp c caller o st.0 st.1 other ∙ e, st', s', kept)
  ]
