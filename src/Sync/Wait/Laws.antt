-- ===== src/Sync/Wait/Laws.antt =====
-- The wait queue holds a list of threads: `enqueue` appends to it, `dequeue` takes its first.
use seng21213_os_se.Base.{
  ℕ, ◌≡◌, refl, true, false, none, some, List, [], ◌∷◌, ◌++◌, arith, Ptr, update, ◌∙◌, Bool-cases,
  inl, inr,
}
use seng21213_os_se.Task.{Kernel, ThreadState, proc_next, thread_next}
use seng21213_os_se.Task.Ring.{mem, Distinct, Chain, last_of}
use seng21213_os_se.Task.Ring.Laws.{Chain-snoc, Chain-update, Chain-ext, Distinct-snoc, IsRing-ext}
use seng21213_os_se.Scheduler.Queue.{IsSched}
use seng21213_os_se.Sync.Wait.{Links, wait_next, set_wait, enqueue, dequeue}

abbrev pub tail_of : List ℕ → Ptr
tail_of [] = none
tail_of (x ∷ xs) = some (last_of x xs)

-- `xs` are the waiting threads, first come first.
pub record IsWaiting (k : Kernel) (head tail : Ptr) (xs : List ℕ) : Type 0 where
  pub chain : Chain (wait_next k) head xs none
  pub tail_is : tail ≡ tail_of xs
  pub distinct : Distinct xs

pub last_of-append : (y : ℕ) (ys : List ℕ) (c : ℕ) → last_of y (ys ++ (c ∷ [])) ≡ c
last_of-append y [] c = refl
last_of-append y (z ∷ zs) c = last_of-append z zs c

-- From `k` to `k'` only fields of threads that the run queues do not use may change, and no thread
-- becomes RUNNING.
pub record IsQuiet (k k' : Kernel) : Type 0 where
  pub rest : k' ≡ record k { thread_table = k'.thread_table }
  pub next : (i : ℕ) → thread_next k' i ≡ thread_next k i
  pub not_run :
      (i : ℕ)
      → (k'.thread_table i).state ≡ ThreadState.running
      → (k.thread_table i).state ≡ ThreadState.running

pub IsQuiet-trans : {k l m : Kernel} → IsQuiet k l → IsQuiet l m → IsQuiet k m
IsQuiet-trans a b = record {
  rest = ground (arith, a.rest, b.rest);
  next = λ i. b.next i ∙ a.next i;
  not_run = λ i e. a.not_run i (b.not_run i e);
}

pub IsQuiet-IsSched :
    {ps ts : List ℕ} {k k' : Kernel} → IsQuiet k k' → IsSched ps ts k → IsSched ps ts k'
IsQuiet-IsSched {ps} {ts} {k} {k'} q s = record {
  procs =
      IsRing-ext (proc_next k) (proc_next k') k.ready_head k'.ready_head ps
        (λ i. ground (arith, q.rest)) (ground (arith, q.rest)) s.procs;
  threads =
      IsRing-ext (thread_next k) (thread_next k') k.thread_head k'.thread_head ts q.next
        (ground (arith, q.rest)) s.threads;
  procs_le = s.procs_le;
  threads_le = s.threads_le;
  current_in = ground (arith, q.rest, s.current_in);
  current_thread_in = ground (arith, q.rest, s.current_thread_in);
  proc_alone = λ i e. ground (arith, q.rest, s.proc_alone i);
  thread_alone = λ i e. ground (arith, q.rest, q.not_run i e, s.thread_alone i);
}

set_wait-IsQuiet : (k : Kernel) (i : ℕ) (p : Ptr) → IsQuiet k (set_wait k i p)
set_wait-IsQuiet k i p = record {
  rest = refl;
  next = λ j. ground arith;
  not_run = λ j e. ground arith;
}

-- `enqueue` succeeds and puts a thread that does not wait yet at the end.
pub enqueue-IsWaiting :
    (c : ℕ) (k : Kernel) (head tail : Ptr) (xs : List ℕ)
    → IsWaiting k head tail xs
    → mem c xs ≡ false
    → (l : Links) × (enqueue c head tail k ≡ some l)
      × IsWaiting l.kernel l.head l.tail (xs ++ (c ∷ []))
      × IsQuiet k l.kernel
      × ((i : ℕ) → (l.kernel.thread_table i).state ≡ (k.thread_table i).state)
unfolding enqueue
enqueue-IsWaiting c k head tail [] w out = (
  record { head = some c; tail = some c; kernel = set_wait k c none },
  rw (w.chain, enqueue),
  record { chain = (refl, ground arith); tail_is = refl; distinct = (refl, tt) },
  set_wait-IsQuiet k c none,
  λ i. ground arith,
)
enqueue-IsWaiting c k head tail (y ∷ ys) w out =
    let last = last_of y ys in
    let k' = set_wait (set_wait k c none) last (some c) in
    let next = update (update (wait_next k) c none) last (some c) in
    let chain = Chain-snoc (wait_next k) y c ys (refl, w.chain.1) w.distinct out in
    (
      record { head = some y; tail = some c; kernel = k' },
      rw (w.chain.0, w.tail_is, enqueue),
      record {
        chain =
            Chain-ext next (wait_next k') (some y) none (y ∷ (ys ++ (c ∷ []))) (λ i. ground arith)
              chain;
        tail_is = rw (last_of-append y ys c);
        distinct = Distinct-snoc c (y ∷ ys) w.distinct out;
      },
      IsQuiet-trans (set_wait-IsQuiet k c none)
          (set_wait-IsQuiet (set_wait k c none) last (some c)),
      λ i. ground arith,
    )

front :
    (h : ℕ) (k : Kernel) (head tail : Ptr) (xs : List ℕ)
    → IsWaiting k head tail (h ∷ xs)
    → let l = dequeue h tail k in IsWaiting l.kernel l.head l.tail xs
unfolding dequeue
front h k head tail [] w = record {
  chain = ground (arith, w.chain);
  tail_is = ground (arith, w.chain);
  distinct = tt;
}
front h k head tail (x ∷ xs) w = record {
  chain =
      Chain-ext (update (wait_next k) h none) (wait_next (set_wait k h none)) (wait_next k h) none
        (x ∷ xs) (λ i. ground arith)
        (Chain-update (wait_next k) h none (wait_next k h) none (x ∷ xs) w.chain.1 w.distinct.0);
  tail_is = ground (arith, w.chain, w.tail_is);
  distinct = w.distinct.1;
}

-- `dequeue` takes the first waiting thread off.
pub dequeue-IsWaiting :
    (h : ℕ) (k : Kernel) (head tail : Ptr) (xs : List ℕ)
    → IsWaiting k head tail (h ∷ xs)
    → let l = dequeue h tail k in
      IsWaiting l.kernel l.head l.tail xs
      × IsQuiet k l.kernel
      × ((i : ℕ) → (l.kernel.thread_table i).state ≡ (k.thread_table i).state)
unfolding dequeue
dequeue-IsWaiting h k head tail xs w =
    (front h k head tail xs w, set_wait-IsQuiet k h none, λ i. ground arith)

-- A wait queue survives what leaves the `wait_next` fields alone.
pub IsWaiting-ext :
    (k k' : Kernel) (head tail : Ptr) (xs : List ℕ)
    → ((i : ℕ) → wait_next k' i ≡ wait_next k i)
    → IsWaiting k head tail xs
    → IsWaiting k' head tail xs
IsWaiting-ext k k' head tail xs same w = record {
  chain = Chain-ext (wait_next k) (wait_next k') head none xs same w.chain;
  tail_is = w.tail_is;
  distinct = w.distinct;
}

abbrev pub AllBlocked : Kernel → List ℕ → Type 0
AllBlocked k xs = (i : ℕ) → mem i xs ≡ true → (k.thread_table i).state ≡ ThreadState.blocked

-- A thread that runs does not wait.
pub running-not-mem :
    (c : ℕ) (k : Kernel) (xs : List ℕ)
    → AllBlocked k xs
    → (k.thread_table c).state ≡ ThreadState.running
    → mem c xs ≡ false
running-not-mem c k xs blocked runs = elim (Bool-cases (mem c xs)) [
  | inl m ↦ cc (blocked c m)
  | inr m ↦ m
]
