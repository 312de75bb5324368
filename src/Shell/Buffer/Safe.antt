-- ===== src/Shell/Buffer/Safe.antt =====
-- The buffer of the semaphore demonstration of kernel/kernel.c, where no interrupt comes inside a
-- call of a semaphore.
use seng21213_os_se.Base.{
  ℕ, ◌+◌, ◌≤◌, ◌<◌, ◌≡◌, ◌≢◌, refl, sym, ap, arith, ◌⊎◌, inl, inr, if◌then◌else◌,
}
use seng21213_os_se.Task.Ring.{mem}
use seng21213_os_se.Sync.Semaphore.Count.{Units}
use seng21213_os_se.Shell.Buffer.{
  buffer_size, produced_each, consumed, Pc, at_top, in_first, passed, in_mutex, locked, written,
  loaded, counted, fetched, released, finished, System, of_first, of_second, of_consumer,
  AtomicRuns, begin, further,
}
use seng21213_os_se.Shell.Buffer.Counts.{Good}
use seng21213_os_se.Shell.Buffer.Inv.{
  asked, changed, given, is_done, is_done-one, Place, Inv, InvOf, at_first, given-changed,
}
use seng21213_os_se.Shell.Buffer.Produce.{Produces-Inv}
use seng21213_os_se.Shell.Buffer.Consume.{Consumes-Inv}

Good-swap : {a b c : ℕ} {u : Units} → Good a b c u → Good b a c u
Good-swap {a} {b} {c} g = record {
  distinct = g.distinct;
  only = λ x m. ground (arith, g.only x m);
  busy = g.busy;
}

Inv-swap :
    {a b c : ℕ} {e f u : Units} {m d : ℕ} {p q r : Pc}
    → Inv a b c e f u m d p q r
    → Inv b a c e f u m d q p r
Inv-swap v = record {
  empty_good = Good-swap v.empty_good;
  full_good = Good-swap v.full_good;
  mutex_good = Good-swap v.mutex_good;
  empty_total = omega (arith, v.empty_total);
  full_total = omega (arith, v.full_total);
  mutex_total = omega (arith, v.mutex_total);
  count = omega (arith, v.count);
  first = v.second;
  second = v.first;
  consumer = v.consumer;
  done = omega (arith, v.done);
  reader = v.reader;
}

pub AtomicRuns-Inv :
    {a b c : ℕ} {old : ℕ → ℕ} {s : System}
    → a ≢ b
    → a ≢ c
    → b ≢ c
    → AtomicRuns a b c old s
    → InvOf a b c s.shared s.first s.second s.consumer
AtomicRuns-Inv ab ac bc begin = record {
  empty_good = record { distinct = tt; only = λ x m. cc; busy = λ x m. cc };
  full_good = record { distinct = tt; only = λ x m. cc; busy = λ x m. cc };
  mutex_good = record { distinct = tt; only = λ x m. cc; busy = λ x m. cc };
  empty_total = refl;
  full_total = refl;
  mutex_total = refl;
  count = refl;
  first = record {
    first = λ z. cc;
    last = refl;
    mutex = λ z. cc;
    fresh = refl;
    rounds = omega arith;
  };
  second = record {
    first = λ z. cc;
    last = refl;
    mutex = λ z. cc;
    fresh = refl;
    rounds = omega arith;
  };
  consumer = record {
    first = λ z. cc;
    last = refl;
    mutex = λ z. cc;
    fresh = refl;
    rounds = omega arith;
  };
  done = refl;
  reader = refl;
}
AtomicRuns-Inv ab ac bc (further r (of_first m)) =
    Produces-Inv ab ac bc (AtomicRuns-Inv ab ac bc r) m
AtomicRuns-Inv ab ac bc (further r (of_second m)) =
    Inv-swap (Produces-Inv (λ z. ab (sym z)) bc ac (Inv-swap (AtomicRuns-Inv ab ac bc r)) m)
AtomicRuns-Inv ab ac bc (further r (of_consumer m)) =
    Consumes-Inv ab ac bc (AtomicRuns-Inv ab ac bc r) m

-- A change of the count comes after the `sem_wait` that it needs has returned.
Place-changed :
    {x n m : ℕ} {f l u : Units} (p : Pc)
    → Place x n f l u m p
    → changed n p + 1 ≤ asked n p + (if mem x f.queue then 0 else 1)
Place-changed (at_top i) v = ground (arith, v.first)
Place-changed (in_first i) v = ground arith
Place-changed (passed i) v = ground (arith, v.first)
Place-changed (in_mutex i) v = ground (arith, v.first)
Place-changed (locked i) v = ground (arith, v.first)
Place-changed (written i) v = ground (arith, v.first)
Place-changed (loaded i n) v = ground (arith, v.first)
Place-changed (counted i) v = ground (arith, v.first)
Place-changed (fetched i item) v = ground (arith, v.first)
Place-changed (released i) v = ground (arith, v.first)
Place-changed finished v = ground (arith, v.first)

-- The slots that no producer has reserved.
room :
    {a b c : ℕ} {e f u : Units} {m d : ℕ} {p q r : Pc}
    → Inv a b c e f u m d p q r
    → m + changed consumed r ≤ buffer_size + given consumed r
room {p = p} {q = q} v = ground (
  arith,
  v.count,
  v.empty_total,
  v.consumer.last,
  Place-changed p v.first,
  Place-changed q v.second,
)

-- A producer that has the mutex has reserved a slot.
producer_room :
    {a b c i : ℕ} {e f u : Units} {m d : ℕ} {p q r : Pc}
    → p ≡ locked i
    → Inv a b c e f u m d p q r
    → m < buffer_size
producer_room {i = i} {q = q} {r = r} at v = ground (
  arith,
  v.count,
  v.empty_total,
  v.consumer.last,
  v.first.first,
  ap at_first at,
  ap (changed produced_each) at,
  ap (asked produced_each) at,
  given-changed consumed r,
  Place-changed q v.second,
)

-- What a producer has put into the buffer is still there while it has the mutex.
producer_item :
    {a b c i : ℕ} {e f u : Units} {m d : ℕ} {p q r : Pc}
    → p ≡ counted i
    → Inv a b c e f u m d p q r
    → 0 < m
producer_item {i = i} {q = q} {r = r} at v = ground (
  arith,
  v.count,
  v.full_total,
  v.first.last,
  v.second.last,
  ap (changed produced_each) at,
  ap (given produced_each) at,
  given-changed produced_each q,
  Place-changed r v.consumer,
)

-- Provided that no timer interrupt comes inside a call of `sem_wait` or `sem_signal` or inside
-- `sem_done++` (which the kernel does not prevent), in every interleaving of the two producers and
-- the consumer, in different slots, the buffer never holds more than its four items; a producer that is about to write an item has a slot below the
-- end, and one that is about to print an item has one in the buffer; the index of the item that the
-- consumer is about to take is within the buffer.
pub AtomicRuns-bounds :
    {a b c : ℕ} {old : ℕ → ℕ} {s : System}
    → a ≢ b
    → a ≢ c
    → b ≢ c
    → AtomicRuns a b c old s
    → (s.shared.buffer_count ≤ buffer_size)
      × ((i : ℕ)
          → (s.first ≡ locked i) ⊎ (s.second ≡ locked i)
          → s.shared.buffer_count < buffer_size)
      × ((i : ℕ) → (s.first ≡ counted i) ⊎ (s.second ≡ counted i) → 0 < s.shared.buffer_count)
      × ((i : ℕ) → s.consumer ≡ counted i → s.shared.buffer_count < buffer_size)
AtomicRuns-bounds {s = s} ab ac bc r =
    let v = AtomicRuns-Inv ab ac bc r in
    let total = room v in
    (
      omega (arith, total, given-changed consumed s.consumer),
      λ i at. elim at [ inl one ↦ producer_room one v | inr two ↦ producer_room two (Inv-swap v) ],
      λ i at. elim at [ inl one ↦ producer_item one v | inr two ↦ producer_item two (Inv-swap v) ],
      λ i at. omega (arith, total, ap (given consumed) at, ap (changed consumed) at),
    )

is_done-finished : (p : Pc) → is_done p ≡ 1 → p ≡ finished
is_done-finished finished e = refl
is_done-finished (at_top i) e = absurd (omega (arith, e))
is_done-finished (in_first i) e = absurd (omega (arith, e))
is_done-finished (passed i) e = absurd (omega (arith, e))
is_done-finished (in_mutex i) e = absurd (omega (arith, e))
is_done-finished (locked i) e = absurd (omega (arith, e))
is_done-finished (written i) e = absurd (omega (arith, e))
is_done-finished (loaded i m) e = absurd (omega (arith, e))
is_done-finished (counted i) e = absurd (omega (arith, e))
is_done-finished (fetched i item) e = absurd (omega (arith, e))
is_done-finished (released i) e = absurd (omega (arith, e))

-- Provided that no timer interrupt comes inside a call of `sem_wait` or `sem_signal` or inside
-- `sem_done++`, in every interleaving of the threads, in different slots, once `sem_done` has reached the 3 that `cmd_semdemo` waits for, the buffer is empty.
pub AtomicRuns-empty :
    {a b c : ℕ} {old : ℕ → ℕ} {s : System}
    → a ≢ b
    → a ≢ c
    → b ≢ c
    → AtomicRuns a b c old s
    → s.shared.sem_done ≡ 3
    → s.shared.buffer_count ≡ 0
AtomicRuns-empty {s = s} ab ac bc r e =
    let v = AtomicRuns-Inv ab ac bc r in
    let p_one = is_done-one s.first in
    let q_one = is_done-one s.second in
    let c_one = is_done-one s.consumer in
    let p = is_done-finished s.first (omega (arith, v.done, e, p_one, q_one, c_one)) in
    let q = is_done-finished s.second (omega (arith, v.done, e, p_one, q_one, c_one)) in
    let c = is_done-finished s.consumer (omega (arith, v.done, e, p_one, q_one, c_one)) in
    omega (
      arith,
      v.count,
      ap (changed produced_each) p,
      ap (changed produced_each) q,
      ap (changed consumed) c,
    )
