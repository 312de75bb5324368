-- ===== src/Shell/Buffer/Consume.antt =====
-- A step of the consumer keeps the invariant of the semaphore demonstration.
use seng21213_os_se.Base.{ℕ, ◌+◌, ◌≤◌, ◌<◌, ◌≡◌, ◌≢◌, refl, add32, true, false, arith, ◌==◌, ◌||◌}
use seng21213_os_se.Task.Ring.{mem}
use seng21213_os_se.Sync.Semaphore.Count.{Units, down, up}
use seng21213_os_se.Shell.Buffer.{
  produced_each, consumed, consumed, Shared, Pc, at_top, in_first, passed, in_mutex, loaded,
  counted, fetched, released, finished, Consumes,
}
use seng21213_os_se.Shell.Buffer.Counts.{mem-up, Good-down, Good-up, total-down, total-up}
use seng21213_os_se.Shell.Buffer.Inv.{
  InvOf, Same, same_all, is_written, is_done-one, Place, Place-count, changed-asked, given-changed,
  Inv, Place-ext, still, outside,
}

module _ {a b c : ℕ} (ab : a ≢ b) (ac : a ≢ c) (bc : b ≢ c) where
  module _ {e f u : Units} {m d : ℕ} {p q r : Pc} (v : Inv a b c e f u m d p q r) where
    quiet :
        {r' : Pc}
        → Same consumed r r'
        → Place c consumed f e u m r'
        → is_written r' ≡ false
        → Inv a b c e f u m d p q r'
    quiet w pl unwritten = record {
      empty_good = v.empty_good;
      full_good = v.full_good;
      mutex_good = v.mutex_good;
      empty_total = omega (arith, v.empty_total, w.given);
      full_total = omega (arith, v.full_total, w.asked);
      mutex_total = omega (arith, v.mutex_total, w.wants);
      count = omega (arith, v.count, w.changed);
      first = v.first;
      second = v.second;
      consumer = pl;
      done = omega (arith, v.done, w.is_done);
      reader = unwritten;
    }

  is_c : ((c == a) || ((c == b) || (c == c))) ≡ true
  is_c = ground arith

  module _ {e f u : Units} {m d i : ℕ} {p q : Pc} where
    ask :
        i < consumed
        → Inv a b c e f u m d p q (at_top i)
        → Inv a b c e (down c f.left f.queue) u m d p q (in_first i)
    ask lt v =
        let idle : mem c f.queue ≡ false = outside _ v.consumer.first in
        record {
          full_good = Good-down ab ac bc c f.left f.queue is_c idle v.full_good;
          empty_good = v.empty_good;
          mutex_good = v.mutex_good;
          full_total = omega (arith, v.full_total, total-down ab ac bc c f.left f.queue is_c idle);
          empty_total = v.empty_total;
          mutex_total = v.mutex_total;
          count = v.count;
          first = Place-ext v.first (λ z. z) (still a c f.left f.queue ac) (λ z. z);
          second = Place-ext v.second (λ z. z) (still b c f.left f.queue bc) (λ z. z);
          consumer = record {
            first = λ z. refl;
            last = v.consumer.last;
            mutex = v.consumer.mutex;
            fresh = refl;
            rounds = omega (arith, lt);
          };
          done = v.done;
          reader = refl;
        }

    ask_mutex :
        Inv a b c e f u m d p q (passed i)
        → Inv a b c e f (down c u.left u.queue) m d p q (in_mutex i)
    ask_mutex v =
        let idle : mem c u.queue ≡ false = outside _ v.consumer.mutex in
        record {
          empty_good = v.empty_good;
          full_good = v.full_good;
          mutex_good = Good-down ab ac bc c u.left u.queue is_c idle v.mutex_good;
          empty_total = v.empty_total;
          full_total = v.full_total;
          mutex_total =
              omega (arith, v.mutex_total, total-down ab ac bc c u.left u.queue is_c idle);
          count = v.count;
          first = Place-ext v.first (λ z. z) (λ z. z) (still a c u.left u.queue ac);
          second = Place-ext v.second (λ z. z) (λ z. z) (still b c u.left u.queue bc);
          consumer = record {
            first = v.consumer.first;
            last = v.consumer.last;
            mutex = λ z. refl;
            fresh = refl;
            rounds = v.consumer.rounds;
          };
          done = v.done;
          reader = refl;
        }

    -- What the consumer has got from `full_sem` is in the buffer.
    some_left : {n : ℕ} → Inv a b c e f u m d p q (loaded i n) → 0 < m
    some_left v = ground (
      arith,
      v.count,
      v.full_total,
      outside _ v.consumer.first,
      given-changed produced_each p,
      given-changed produced_each q,
    )

    stored :
        {n : ℕ}
        → Inv a b c e f u m d p q (loaded i n)
        → Inv a b c e f u (add32 n 0xffffffff) d p q (counted i)
    stored {n} v =
        let owns : mem c u.queue ≡ false = outside _ v.consumer.mutex in
        let n_m : n ≡ m = v.consumer.fresh in
        let m' = add32 n 0xffffffff in
        let one_less : m' + 1 ≡ m = omega (
          arith,
          n_m,
          some_left v,
          v.count,
          v.first.rounds,
          v.second.rounds,
          changed-asked produced_each p,
          changed-asked produced_each q,
        ) in
        record {
          empty_good = v.empty_good;
          full_good = v.full_good;
          mutex_good = v.mutex_good;
          empty_total = v.empty_total;
          full_total = v.full_total;
          mutex_total = v.mutex_total;
          count = omega (arith, v.count, one_less);
          first =
              Place-count c b m' (loaded i n) q v.first (omega (arith, v.mutex_total)) (refl, owns)
                v.second.mutex;
          second =
              Place-count c a m' (loaded i n) p v.second (omega (arith, v.mutex_total)) (refl, owns)
                v.first.mutex;
          consumer = record {
            first = v.consumer.first;
            last = v.consumer.last;
            mutex = v.consumer.mutex;
            fresh = refl;
            rounds = v.consumer.rounds;
          };
          done = v.done;
          reader = refl;
        }

    leave :
        {item : ℕ}
        → Inv a b c e f u m d p q (fetched i item)
        → Inv a b c e f (up u.left u.queue) m d p q (released i)
    leave v = record {
      empty_good = v.empty_good;
      full_good = v.full_good;
      mutex_good = Good-up ab ac bc u.left u.queue v.mutex_good;
      empty_total = v.empty_total;
      full_total = v.full_total;
      mutex_total = omega (arith, v.mutex_total, total-up ab ac bc u.left u.queue v.mutex_good);
      count = v.count;
      first = Place-ext v.first (λ z. z) (λ z. z) (mem-up a u.left u.queue);
      second = Place-ext v.second (λ z. z) (λ z. z) (mem-up b u.left u.queue);
      consumer = record {
        first = v.consumer.first;
        last = v.consumer.last;
        mutex = λ z. v.consumer.mutex (mem-up c u.left u.queue z);
        fresh = refl;
        rounds = v.consumer.rounds;
      };
      done = v.done;
      reader = refl;
    }

    give :
        Inv a b c e f u m d p q (released i)
        → Inv a b c (up e.left e.queue) f u m d p q (at_top (i + 1))
    give v = record {
      full_good = v.full_good;
      empty_good = Good-up ab ac bc e.left e.queue v.empty_good;
      mutex_good = v.mutex_good;
      full_total = omega (arith, v.full_total);
      empty_total = omega (arith, v.empty_total, total-up ab ac bc e.left e.queue v.empty_good);
      mutex_total = v.mutex_total;
      count = omega (arith, v.count);
      first = Place-ext v.first (mem-up a e.left e.queue) (λ z. z) (λ z. z);
      second = Place-ext v.second (mem-up b e.left e.queue) (λ z. z) (λ z. z);
      consumer = record {
        first = v.consumer.first;
        last = ground (arith, mem-up c e.left e.queue, v.consumer.last);
        mutex = v.consumer.mutex;
        fresh = refl;
        rounds = v.consumer.rounds;
      };
      done = v.done;
      reader = refl;
    }

    finished_one :
        consumed ≤ i
        → Inv a b c e f u m d p q (at_top i)
        → Inv a b c e f u m (add32 d 1) p q finished
    finished_one ge v = record {
      empty_good = v.empty_good;
      full_good = v.full_good;
      mutex_good = v.mutex_good;
      empty_total = omega (arith, v.empty_total, ge, v.consumer.rounds);
      full_total = omega (arith, v.full_total, ge, v.consumer.rounds);
      mutex_total = v.mutex_total;
      count = omega (arith, v.count, ge, v.consumer.rounds);
      first = v.first;
      second = v.second;
      consumer = record {
        first = v.consumer.first;
        last = v.consumer.last;
        mutex = v.consumer.mutex;
        fresh = refl;
        rounds = omega arith;
      };
      done = omega (arith, v.done, is_done-one p, is_done-one q);
      reader = refl;
    }

  -- A step of the consumer.
  pub Consumes-Inv :
      {s t : Shared} {p q r r' : Pc}
      → InvOf a b c s p q r
      → Consumes c s r t r'
      → InvOf a b c t p q r'
  Consumes-Inv v (Consumes.wait_full lt) = ask lt v
  Consumes-Inv v (Consumes.got_full out) =
      quiet v (same_all refl refl refl refl refl)
        (record {
          first = λ z. ground (arith, out, z);
          last = v.consumer.last;
          mutex = v.consumer.mutex;
          fresh = refl;
          rounds = v.consumer.rounds;
        })
        refl
  Consumes-Inv v Consumes.wait_mutex = ask_mutex v
  Consumes-Inv v (Consumes.got_mutex out) =
      quiet v (same_all refl refl refl refl refl)
        (record {
          first = v.consumer.first;
          last = v.consumer.last;
          mutex = λ z. ground (arith, out, z);
          fresh = refl;
          rounds = v.consumer.rounds;
        })
        refl
  Consumes-Inv v Consumes.fetch =
      quiet v (same_all refl refl refl refl refl)
        (record {
          first = v.consumer.first;
          last = v.consumer.last;
          mutex = v.consumer.mutex;
          fresh = refl;
          rounds = v.consumer.rounds;
        })
        refl
  Consumes-Inv v Consumes.load =
      quiet v (same_all refl refl refl refl refl)
        (record {
          first = v.consumer.first;
          last = v.consumer.last;
          mutex = v.consumer.mutex;
          fresh = refl;
          rounds = v.consumer.rounds;
        })
        refl
  Consumes-Inv v Consumes.store = stored v
  Consumes-Inv v Consumes.signal_mutex = leave v
  Consumes-Inv v Consumes.signal_empty = give v
  Consumes-Inv v (Consumes.finish ge) = finished_one ge v
