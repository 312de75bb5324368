-- ===== src/Shell/Buffer/Ends.antt =====
-- The steps that the semaphore demonstration of kernel/kernel.c has left, where no interrupt comes
-- inside a call of a semaphore.
use seng21213_os_se.Base.{
  ℕ, ◌+◌, ◌-◌, ◌*◌, ◌≤◌, ◌<◌, ◌≡◌, ◌≢◌, refl, ap, true, false, arith, ◌⊎◌, inl, inr, if◌then◌else◌,
  Bool-cases, ltb,
}
use seng21213_os_se.Task.Ring.{mem}
use seng21213_os_se.Sync.Semaphore.Count.{Units}
use seng21213_os_se.Shell.Buffer.{
  produced_each, consumed, Shared, Pc, at_top, in_first, passed, in_mutex, locked, written, loaded,
  counted, fetched, released, finished, Produces, Consumes, System, Turn, of_first, of_second,
  of_consumer, AtomicRuns,
}
use seng21213_os_se.Shell.Buffer.Inv.{
  asked, given, wants, is_written, is_done, Place, Inv, InvOf, at_first, outside,
}
use seng21213_os_se.Shell.Buffer.Safe.{AtomicRuns-Inv}

-- The steps that a thread with `n` rounds has left, at most.
abbrev pub left : ℕ → Pc → ℕ
left n (at_top i) = 10 * (n - i) + 1
left n (in_first i) = 10 * (n - i)
left n (passed i) = 10 * (n - i) - 1
left n (in_mutex i) = 10 * (n - i) - 2
left n (locked i) = 10 * (n - i) - 3
left n (written i) = 10 * (n - i) - 4
left n (loaded i m) = 10 * (n - i) - 5
left n (counted i) = 10 * (n - i) - 6
left n (fetched i item) = 10 * (n - i) - 7
left n (released i) = 10 * (n - i) - 8
left n finished = 0

Produces-less :
    {c id : ℕ} {s t : Shared} {p p' : Pc}
    → asked produced_each p ≤ produced_each
    → Produces c id s p t p'
    → left produced_each p' < left produced_each p
Produces-less le (Produces.wait_empty lt) = omega (arith, lt)
Produces-less le (Produces.got_empty out) = omega (arith, le)
Produces-less le Produces.wait_mutex = omega (arith, le)
Produces-less le (Produces.got_mutex out) = omega (arith, le)
Produces-less le Produces.write = omega (arith, le)
Produces-less le Produces.load = omega (arith, le)
Produces-less le Produces.store = omega (arith, le)
Produces-less le Produces.fetch = omega (arith, le)
Produces-less le Produces.signal_mutex = omega (arith, le)
Produces-less le Produces.signal_full = omega (arith, le)
Produces-less le (Produces.finish ge) = omega arith

Consumes-less :
    {c : ℕ} {s t : Shared} {p p' : Pc}
    → asked consumed p ≤ consumed
    → Consumes c s p t p'
    → left consumed p' < left consumed p
Consumes-less le (Consumes.wait_full lt) = omega (arith, lt)
Consumes-less le (Consumes.got_full out) = omega (arith, le)
Consumes-less le Consumes.wait_mutex = omega (arith, le)
Consumes-less le (Consumes.got_mutex out) = omega (arith, le)
Consumes-less le Consumes.load = omega (arith, le)
Consumes-less le Consumes.store = omega (arith, le)
Consumes-less le Consumes.fetch = omega (arith, le)
Consumes-less le Consumes.signal_mutex = omega (arith, le)
Consumes-less le Consumes.signal_empty = omega (arith, le)
Consumes-less le (Consumes.finish ge) = omega arith

-- A thread with no step has ended, or is queued at its first semaphore or at the mutex.
data Stuck (x : ℕ) (f u : Units) (p : Pc) : Type 0 where
  ended : p ≡ finished → Stuck x f u p
  at_slot : {i : ℕ} → p ≡ in_first i → mem x f.queue ≡ true → Stuck x f u p
  at_lock : {i : ℕ} → p ≡ in_mutex i → mem x u.queue ≡ true → Stuck x f u p

can_produce :
    (c id : ℕ) (s : Shared) (p : Pc)
    → Place c produced_each s.empty_sem s.full_sem s.buffer_mutex s.buffer_count p
    → Stuck c s.empty_sem s.buffer_mutex p ⊎ ((t : Shared) × (p' : Pc) × Produces c id s p t p')
can_produce c id s (at_top i) v = elim (Bool-cases (ltb i produced_each)) [
  | inl lt ↦ inr (_, _, Produces.wait_empty (ground (arith, lt)))
  | inr ge ↦ inr (_, _, Produces.finish (ground (arith, ge)))
]
can_produce c id s (in_first i) v = elim (Bool-cases (mem c s.empty_sem.queue)) [
  | inl m ↦ inl (at_slot refl m)
  | inr out ↦ inr (_, _, Produces.got_empty out)
]
can_produce c id s (passed i) v = inr (_, _, Produces.wait_mutex)
can_produce c id s (in_mutex i) v = elim (Bool-cases (mem c s.buffer_mutex.queue)) [
  | inl m ↦ inl (at_lock refl m)
  | inr out ↦ inr (_, _, Produces.got_mutex out)
]
can_produce c id s (locked i) v = inr (_, _, Produces.write)
can_produce c id s (written i) v = inr (_, _, Produces.load)
can_produce c id s (loaded i n) v = inr (_, _, Produces.store)
can_produce c id s (counted i) v = inr (_, _, Produces.fetch)
can_produce c id s (fetched i item) v = inr (_, _, Produces.signal_mutex)
can_produce c id s (released i) v = inr (_, _, Produces.signal_full)
can_produce c id s finished v = inl (ended refl)

can_consume :
    (c : ℕ) (s : Shared) (p : Pc)
    → is_written p ≡ false
    → Stuck c s.full_sem s.buffer_mutex p ⊎ ((t : Shared) × (p' : Pc) × Consumes c s p t p')
can_consume c s (at_top i) v = elim (Bool-cases (ltb i consumed)) [
  | inl lt ↦ inr (_, _, Consumes.wait_full (ground (arith, lt)))
  | inr ge ↦ inr (_, _, Consumes.finish (ground (arith, ge)))
]
can_consume c s (in_first i) v = elim (Bool-cases (mem c s.full_sem.queue)) [
  | inl m ↦ inl (at_slot refl m)
  | inr out ↦ inr (_, _, Consumes.got_full out)
]
can_consume c s (passed i) v = inr (_, _, Consumes.wait_mutex)
can_consume c s (in_mutex i) v = elim (Bool-cases (mem c s.buffer_mutex.queue)) [
  | inl m ↦ inl (at_lock refl m)
  | inr out ↦ inr (_, _, Consumes.got_mutex out)
]
can_consume c s (locked i) v = inr (_, _, Consumes.load)
can_consume c s (written i) v = absurd (ground (arith, v))
can_consume c s (loaded i n) v = inr (_, _, Consumes.store)
can_consume c s (counted i) v = inr (_, _, Consumes.fetch)
can_consume c s (fetched i item) v = inr (_, _, Consumes.signal_mutex)
can_consume c s (released i) v = inr (_, _, Consumes.signal_empty)
can_consume c s finished v = inl (ended refl)

-- If all are stuck, the mutex is free, so nobody waits for it.
Stuck-mutex :
    {x n m : ℕ} {f l u : Units} {p : Pc}
    → Place x n f l u m p
    → Stuck x f u p
    → wants p + (if mem x u.queue then 0 else 1) ≤ 1
Stuck-mutex v (ended at) = ground (arith, ap wants at)
Stuck-mutex v (at_slot at w) = ground (arith, ap wants at)
Stuck-mutex v (at_lock at w) = ground (arith, w, ap wants at)

-- What is known of a thread that is stuck, when nobody waits for the mutex: it waits for a slot, or
-- it has ended.
record Resting (x n : ℕ) (f : Units) (p : Pc) : Type 0 where
  owed : given n p + 1 ≡ asked n p + (if mem x f.queue then 0 else 1)
  why : (mem x f.queue ≡ true) ⊎ ((is_done p ≡ 1) × (given n p ≡ n))

Stuck-Resting :
    {x n m : ℕ} {f l u : Units} {p : Pc}
    → Place x n f l u m p
    → mem x u.queue ≡ false
    → Stuck x f u p
    → Resting x n f p
Stuck-Resting {n = n} v out (ended at) = record {
  owed = ground (arith, v.first, ap (given n) at, ap (asked n) at, ap at_first at);
  why = inr (ap is_done at, ap (given n) at);
}
Stuck-Resting {n = n} v out (at_slot at w) = record {
  owed = ground (arith, w, ap (given n) at, ap (asked n) at);
  why = inl w;
}
Stuck-Resting v out (at_lock at w) = absurd (ground (arith, w, out))

-- With the mutex free, and each thread resting, all have ended.
all_ended :
    {a b c : ℕ} {e f u : Units} {m d : ℕ} {p q r : Pc}
    → Inv a b c e f u m d p q r
    → Resting a produced_each e p
    → Resting b produced_each e q
    → Resting c consumed f r
    → d ≡ 3
all_ended {a} {b} {c} {e} {f} {p = p} {q} {r} v one two three =
    let slots : e.left + f.left ≡ 4 = ground (
      arith, v.empty_total, v.full_total, one.owed, two.owed, three.owed, v.consumer.last,
      v.first.last, v.second.last,
    ) in
    let items : f.left + given consumed r ≡ given produced_each p + given produced_each q =
      ground (arith, v.full_total, three.owed, v.first.last, v.second.last) in
    let p_ready : mem a e.queue ≡ false = outside _ (λ w. ground (
      arith,
      v.empty_good.busy a w,
      slots,
      items,
      three.why,
      v.full_good.busy c,
      one.owed,
      two.owed,
      v.first.rounds,
      v.second.rounds,
    )) in
    let q_ready : mem b e.queue ≡ false = outside _ (λ w. ground (
      arith,
      v.empty_good.busy b w,
      slots,
      items,
      three.why,
      v.full_good.busy c,
      one.owed,
      two.owed,
      v.first.rounds,
      v.second.rounds,
    )) in
    let r_ready : mem c f.queue ≡ false = outside _ (λ w. ground (
      arith,
      w,
      v.full_good.busy c w,
      slots,
      items,
      one.why,
      two.why,
      v.empty_good.busy a,
      v.empty_good.busy b,
      three.owed,
      v.consumer.rounds,
    )) in
    ground (arith, v.done, one.why, two.why, three.why, p_ready, q_ready, r_ready)

mutex_free :
    {a b c : ℕ} {e f u : Units} {m d : ℕ} {p q r : Pc}
    → Inv a b c e f u m d p q r
    → Stuck a e u p
    → Stuck b e u q
    → Stuck c f u r
    → (x : ℕ) → mem x u.queue ≡ false
mutex_free v one two three x = outside _ (λ w. ground (
  arith,
  v.mutex_good.busy x w,
  v.mutex_total,
  Stuck-mutex v.first one,
  Stuck-mutex v.second two,
  Stuck-mutex v.consumer three,
))

module _ {a b c : ℕ} {s : System} (v : InvOf a b c s.shared s.first s.second s.consumer) where
  Inv-Turn : (s.shared.sem_done ≡ 3) ⊎ ((t : System) × Turn a b c s t)
  Inv-Turn = elim (can_produce a 1 s.shared s.first v.first) [
    | inr (t, p', m) ↦ inr (_, of_first m)
    | inl one ↦ elim (can_produce b 2 s.shared s.second v.second) [
      | inr (t, p', m) ↦ inr (_, of_second m)
      | inl two ↦ elim (can_consume c s.shared s.consumer v.reader) [
        | inr (t, p', m) ↦ inr (_, of_consumer m)
        | inl three ↦ inl (
            let free = mutex_free v one two three in
            all_ended v (Stuck-Resting v.first (free a) one) (Stuck-Resting v.second (free b) two)
              (Stuck-Resting v.consumer (free c) three))
      ]
    ]
  ]

-- The steps that the three threads have left, at most.
abbrev pub left_of : System → ℕ
left_of s = left produced_each s.first + left produced_each s.second + left consumed s.consumer

-- Provided that no timer interrupt comes inside a call of `sem_wait` or `sem_signal` or inside
-- `sem_done++` (which the kernel does not prevent), the semaphore demonstration ends if a thread
-- that has a step is always run: in each state that such an interleaving of the producers and the
-- consumer, in different slots, can reach,
-- `sem_done` is 3 or one of the threads has a step, so they never wait for one another; and each
-- step leaves fewer steps to be made.
pub AtomicRuns-sem_done :
    {a b c : ℕ} {old : ℕ → ℕ} {s : System}
    → a ≢ b
    → a ≢ c
    → b ≢ c
    → AtomicRuns a b c old s
    → ((s.shared.sem_done ≡ 3) ⊎ ((t : System) × Turn a b c s t))
      × ((t : System) → Turn a b c s t → left_of t < left_of s)
AtomicRuns-sem_done {s = s} ab ac bc r =
    let v = AtomicRuns-Inv ab ac bc r in (Inv-Turn v, λ t u. turn_less v u)
  where
    turn_less :
        {a b c : ℕ} {s t : System}
        → InvOf a b c s.shared s.first s.second s.consumer
        → Turn a b c s t
        → left_of t < left_of s
    turn_less v (of_first m) = let z = Produces-less v.first.rounds m in omega (arith, z)
    turn_less v (of_second m) = let z = Produces-less v.second.rounds m in omega (arith, z)
    turn_less v (of_consumer m) = let z = Consumes-less v.consumer.rounds m in omega (arith, z)
