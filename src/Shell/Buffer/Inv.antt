-- ===== src/Shell/Buffer/Inv.antt =====
-- The semaphore demonstration of kernel/kernel.c keeps the buffer within its bounds.
use seng21213_os_se.Base.{ℕ, ◌+◌, ◌≤◌, ◌≡◌, ◌≢◌, refl, sym, ◌∙◌, Bool, true, false, List, arith}
use seng21213_os_se.Task.Ring.{mem}
use seng21213_os_se.Sync.Semaphore.Count.{Units, down}
use seng21213_os_se.Shell.Buffer.{
  buffer_size, produced_each, consumed, Shared, Pc, at_top, in_first, passed, in_mutex, locked,
  written, loaded, counted, fetched, released, finished,
}
use seng21213_os_se.Shell.Buffer.Counts.{Good, total, mem-down}

-- The calls of the first `sem_wait` in `n` rounds.
abbrev pub asked : ℕ → Pc → ℕ
asked n (at_top i) = i
asked n (in_first i) = i + 1
asked n (passed i) = i + 1
asked n (in_mutex i) = i + 1
asked n (locked i) = i + 1
asked n (written i) = i + 1
asked n (loaded i m) = i + 1
asked n (counted i) = i + 1
asked n (fetched i item) = i + 1
asked n (released i) = i + 1
asked n finished = n

-- The changes of `buffer_count`.
abbrev pub changed : ℕ → Pc → ℕ
changed n (at_top i) = i
changed n (in_first i) = i
changed n (passed i) = i
changed n (in_mutex i) = i
changed n (locked i) = i
changed n (written i) = i
changed n (loaded i m) = i
changed n (counted i) = i + 1
changed n (fetched i item) = i + 1
changed n (released i) = i + 1
changed n finished = n

-- The calls of the last `sem_signal`.
abbrev pub given : ℕ → Pc → ℕ
given n (at_top i) = i
given n (in_first i) = i
given n (passed i) = i
given n (in_mutex i) = i
given n (locked i) = i
given n (written i) = i
given n (loaded i m) = i
given n (counted i) = i
given n (fetched i item) = i
given n (released i) = i
given n finished = n

abbrev pub at_first : Pc → Bool
at_first (in_first i) = true
at_first p = false

abbrev pub at_mutex : Pc → Bool
at_mutex (in_mutex i) = true
at_mutex p = false

-- The thread has called `sem_wait` for the mutex and has not signalled it.
abbrev pub wants : Pc → ℕ
wants (in_mutex i) = 1
wants (locked i) = 1
wants (written i) = 1
wants (loaded i m) = 1
wants (counted i) = 1
wants (fetched i item) = 1
wants p = 0

-- Only a producer writes.
abbrev pub is_written : Pc → Bool
is_written (written i) = true
is_written p = false

abbrev pub is_done : Pc → ℕ
is_done finished = 1
is_done p = 0

-- What a thread has loaded is still the value.
abbrev pub Fresh : ℕ → Pc → Type 0
Fresh n (loaded i m) = m ≡ n
Fresh n p = n ≡ n

-- Thread `x` at `p`, with `n` rounds, the semaphores that it waits for first and signals last, the
-- mutex and the count.
pub record Place (x n : ℕ) (f l u : Units) (count : ℕ) (p : Pc) : Type 0 where
  pub first : mem x f.queue ≡ true → at_first p ≡ true
  pub last : mem x l.queue ≡ false
  pub mutex : mem x u.queue ≡ true → at_mutex p ≡ true
  pub fresh : Fresh count p
  pub rounds : asked n p ≤ n

-- The threads `a` and `b` produce, `c` consumes; they stand at `p`, `q` and `r`. The semaphores
-- count the slots, the items and the owner of the mutex.
pub record Inv (a b c : ℕ) (e f u : Units) (m d : ℕ) (p q r : Pc) : Type 0 where
  pub empty_good : Good a b c e
  pub full_good : Good a b c f
  pub mutex_good : Good a b c u
  pub empty_total :
      total a b c e + asked produced_each p + asked produced_each q
      ≡ buffer_size + 3 + given consumed r
  pub full_total :
      total a b c f + asked consumed r ≡ 3 + given produced_each p + given produced_each q
  pub mutex_total : total a b c u + wants p + wants q + wants r ≡ 4
  pub count : m + changed consumed r ≡ changed produced_each p + changed produced_each q
  pub first : Place a produced_each e f u m p
  pub second : Place b produced_each e f u m q
  pub consumer : Place c consumed f e u m r
  pub done : d ≡ is_done p + is_done q + is_done r
  pub reader : is_written r ≡ false

abbrev pub InvOf : ℕ → ℕ → ℕ → Shared → Pc → Pc → Pc → Type 0
InvOf a b c s = Inv a b c s.empty_sem s.full_sem s.buffer_mutex s.buffer_count s.sem_done

-- The two places count the same.
pub record Same (n : ℕ) (p p' : Pc) : Type 0 where
  pub asked : asked n p' ≡ asked n p
  pub changed : changed n p' ≡ changed n p
  pub given : given n p' ≡ given n p
  pub wants : wants p' ≡ wants p
  pub is_done : is_done p' ≡ is_done p

abbrev pub same_all :
    {n : ℕ} {p p' : Pc}
    → asked n p' ≡ asked n p
    → changed n p' ≡ changed n p
    → given n p' ≡ given n p
    → wants p' ≡ wants p
    → is_done p' ≡ is_done p
    → Same n p p'
same_all a b c d e = record { asked = a; changed = b; given = c; wants = d; is_done = e }

-- The steps of the other threads.
pub Place-ext :
    {x n m : ℕ} {f f' l l' u u' : Units} {p : Pc}
    → Place x n f l u m p
    → (mem x f'.queue ≡ true → mem x f.queue ≡ true)
    → (mem x l'.queue ≡ true → mem x l.queue ≡ true)
    → (mem x u'.queue ≡ true → mem x u.queue ≡ true)
    → Place x n f' l' u' m p
Place-ext v kf kl ku = record {
  first = λ e. v.first (kf e);
  last = ground (arith, kl, v.last);
  mutex = λ e. v.mutex (ku e);
  fresh = v.fresh;
  rounds = v.rounds;
}

pub still : (x y n : ℕ) (q : List ℕ) → x ≢ y → mem x (down y n q).queue ≡ true → mem x q ≡ true
still x y n q ne m = ground (arith, mem-down x y n q m)

pub outside : (b : Bool) → (b ≡ true → false ≡ true) → b ≡ false
outside b e = ground (arith, e)

pub changed-asked : (n : ℕ) (p : Pc) → changed n p ≤ asked n p
changed-asked n (at_top i) = omega arith
changed-asked n (in_first i) = omega arith
changed-asked n (passed i) = omega arith
changed-asked n (in_mutex i) = omega arith
changed-asked n (locked i) = omega arith
changed-asked n (written i) = omega arith
changed-asked n (loaded i m) = omega arith
changed-asked n (counted i) = omega arith
changed-asked n (fetched i item) = omega arith
changed-asked n (released i) = omega arith
changed-asked n finished = omega arith

at_mutex-wants : (p : Pc) → at_mutex p ≡ true → wants p ≡ 1
at_mutex-wants (at_top i) e = cc
at_mutex-wants (in_first i) e = cc
at_mutex-wants (passed i) e = cc
at_mutex-wants (in_mutex i) e = refl
at_mutex-wants (locked i) e = refl
at_mutex-wants (written i) e = refl
at_mutex-wants (loaded i m) e = refl
at_mutex-wants (counted i) e = refl
at_mutex-wants (fetched i item) e = refl
at_mutex-wants (released i) e = cc
at_mutex-wants finished e = cc

-- Two threads that have come through the `sem_wait` for the mutex.
exclusive :
    (a b c : ℕ) (u : Units) (p q r : Pc)
    → total a b c u + wants p + wants q + wants r ≡ 4
    → (wants p ≡ 1) × (mem a u.queue ≡ false)
    → (wants q ≡ 1) × (mem b u.queue ≡ false)
    → (mem c u.queue ≡ true → at_mutex r ≡ true)
    → ⊥
exclusive a b c u p q r t owns_a owns_b waits =
    ground (arith, t, owns_a, owns_b, waits, at_mutex-wants r)

-- A thread that is not inside has loaded nothing.
pub Fresh-outside : (m : ℕ) (q : Pc) → (wants q ≡ 1 → at_mutex q ≡ false → ⊥) → Fresh m q
Fresh-outside m (at_top i) out = refl
Fresh-outside m (in_first i) out = refl
Fresh-outside m (passed i) out = refl
Fresh-outside m (in_mutex i) out = refl
Fresh-outside m (locked i) out = refl
Fresh-outside m (written i) out = refl
Fresh-outside m (loaded i n) out = absurd (out refl refl)
Fresh-outside m (counted i) out = refl
Fresh-outside m (fetched i item) out = refl
Fresh-outside m (released i) out = refl
Fresh-outside m finished out = refl

-- While one thread is inside, another one may not care for the count.
pub Place-count :
    {b n m : ℕ} {f l u : Units} {q : Pc} (a c m' : ℕ) (p r : Pc)
    → Place b n f l u m q
    → total a b c u + wants p + wants q + wants r ≡ 4
    → (wants p ≡ 1) × (mem a u.queue ≡ false)
    → (mem c u.queue ≡ true → at_mutex r ≡ true)
    → Place b n f l u m' q
Place-count {b} {u = u} {q = q} a c m' p r v t owns waits = record {
  first = v.first;
  last = v.last;
  mutex = v.mutex;
  fresh =
      Fresh-outside m' q
        (λ w out. exclusive a b c u p q r t owns (w, outside _ (λ z. sym out ∙ v.mutex z)) waits);
  rounds = v.rounds;
}

pub is_done-one : (p : Pc) → is_done p ≤ 1
is_done-one (at_top i) = omega arith
is_done-one (in_first i) = omega arith
is_done-one (passed i) = omega arith
is_done-one (in_mutex i) = omega arith
is_done-one (locked i) = omega arith
is_done-one (written i) = omega arith
is_done-one (loaded i m) = omega arith
is_done-one (counted i) = omega arith
is_done-one (fetched i item) = omega arith
is_done-one (released i) = omega arith
is_done-one finished = omega arith

pub given-changed : (n : ℕ) (p : Pc) → given n p ≤ changed n p
given-changed n (at_top i) = omega arith
given-changed n (in_first i) = omega arith
given-changed n (passed i) = omega arith
given-changed n (in_mutex i) = omega arith
given-changed n (locked i) = omega arith
given-changed n (written i) = omega arith
given-changed n (loaded i m) = omega arith
given-changed n (counted i) = omega arith
given-changed n (fetched i item) = omega arith
given-changed n (released i) = omega arith
given-changed n finished = omega arith
