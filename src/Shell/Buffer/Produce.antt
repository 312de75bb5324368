-- ===== src/Shell/Buffer/Produce.antt =====
-- A step of a producer keeps the invariant of the semaphore demonstration.
use seng21213_os_se.Base.{
  ℕ, ◌+◌, ◌≤◌, ◌<◌, ◌≡◌, ◌≢◌, refl, sym, add32, true, false, arith, ◌==◌, ◌||◌,
}
use seng21213_os_se.Task.Ring.{mem}
use seng21213_os_se.Sync.Semaphore.Count.{Units, down, up}
use seng21213_os_se.Shell.Buffer.{
  produced_each, Shared, Pc, at_top, in_first, passed, in_mutex, loaded, counted, fetched, released,
  finished, Produces,
}
use seng21213_os_se.Shell.Buffer.Counts.{mem-up, Good-down, Good-up, total-down, total-up}
use seng21213_os_se.Shell.Buffer.Inv.{
  InvOf, Same, same_all, is_done-one, Place, Place-count, changed-asked, Inv, Place-ext, still,
  outside,
}

module _ {a b c : ℕ} (ab : a ≢ b) (ac : a ≢ c) (bc : b ≢ c) where
  module _ {e f u : Units} {m d : ℕ} {p q r : Pc} (v : Inv a b c e f u m d p q r) where
    quiet :
        {p' : Pc}
        → Same produced_each p p'
        → Place a produced_each e f u m p'
        → Inv a b c e f u m d p' q r
    quiet w pl = record {
      empty_good = v.empty_good;
      full_good = v.full_good;
      mutex_good = v.mutex_good;
      empty_total = omega (arith, v.empty_total, w.asked);
      full_total = omega (arith, v.full_total, w.given);
      mutex_total = omega (arith, v.mutex_total, w.wants);
      count = omega (arith, v.count, w.changed);
      first = pl;
      second = v.second;
      consumer = v.consumer;
      done = omega (arith, v.done, w.is_done);
      reader = v.reader;
    }

  is_a : ((a == a) || ((a == b) || (a == c))) ≡ true
  is_a = ground arith

  module _ {e f u : Units} {m d i : ℕ} {q r : Pc} where
    ask :
        i < produced_each
        → Inv a b c e f u m d (at_top i) q r
        → Inv a b c (down a e.left e.queue) f u m d (in_first i) q r
    ask lt v =
        let idle : mem a e.queue ≡ false = outside _ v.first.first in
        record {
          empty_good = Good-down ab ac bc a e.left e.queue is_a idle v.empty_good;
          full_good = v.full_good;
          mutex_good = v.mutex_good;
          empty_total =
              omega (arith, v.empty_total, total-down ab ac bc a e.left e.queue is_a idle);
          full_total = v.full_total;
          mutex_total = v.mutex_total;
          count = v.count;
          first = record {
            first = λ z. refl;
            last = v.first.last;
            mutex = v.first.mutex;
            fresh = refl;
            rounds = omega (arith, lt);
          };
          second =
              Place-ext v.second (still b a e.left e.queue (λ z. ab (sym z))) (λ z. z) (λ z. z);
          consumer =
              Place-ext v.consumer (λ z. z) (still c a e.left e.queue (λ z. ac (sym z))) (λ z. z);
          done = v.done;
          reader = v.reader;
        }

    ask_mutex :
        Inv a b c e f u m d (passed i) q r
        → Inv a b c e f (down a u.left u.queue) m d (in_mutex i) q r
    ask_mutex v =
        let idle : mem a u.queue ≡ false = outside _ v.first.mutex in
        record {
          empty_good = v.empty_good;
          full_good = v.full_good;
          mutex_good = Good-down ab ac bc a u.left u.queue is_a idle v.mutex_good;
          empty_total = v.empty_total;
          full_total = v.full_total;
          mutex_total =
              omega (arith, v.mutex_total, total-down ab ac bc a u.left u.queue is_a idle);
          count = v.count;
          first = record {
            first = v.first.first;
            last = v.first.last;
            mutex = λ z. refl;
            fresh = refl;
            rounds = v.first.rounds;
          };
          second =
              Place-ext v.second (λ z. z) (λ z. z) (still b a u.left u.queue (λ z. ab (sym z)));
          consumer =
              Place-ext v.consumer (λ z. z) (λ z. z) (still c a u.left u.queue (λ z. ac (sym z)));
          done = v.done;
          reader = v.reader;
        }

    stored :
        {n : ℕ}
        → Inv a b c e f u m d (loaded i n) q r
        → Inv a b c e f u (add32 n 1) d (counted i) q r
    stored {n} v =
        let owns : mem a u.queue ≡ false = outside _ v.first.mutex in
        let n_m : n ≡ m = v.first.fresh in
        record {
          empty_good = v.empty_good;
          full_good = v.full_good;
          mutex_good = v.mutex_good;
          empty_total = v.empty_total;
          full_total = v.full_total;
          mutex_total = v.mutex_total;
          count =
              omega (
                arith,
                v.count,
                n_m,
                v.first.rounds,
                v.second.rounds,
                changed-asked produced_each q,
              );
          first = record {
            first = v.first.first;
            last = v.first.last;
            mutex = v.first.mutex;
            fresh = refl;
            rounds = v.first.rounds;
          };
          second =
              Place-count a c (add32 n 1) (loaded i n) r v.second v.mutex_total (refl, owns)
                v.consumer.mutex;
          consumer =
              Place-count a b (add32 n 1) (loaded i n) q v.consumer (omega (arith, v.mutex_total))
                (refl, owns) v.second.mutex;
          done = v.done;
          reader = v.reader;
        }

    leave :
        {item : ℕ}
        → Inv a b c e f u m d (fetched i item) q r
        → Inv a b c e f (up u.left u.queue) m d (released i) q r
    leave v = record {
      empty_good = v.empty_good;
      full_good = v.full_good;
      mutex_good = Good-up ab ac bc u.left u.queue v.mutex_good;
      empty_total = v.empty_total;
      full_total = v.full_total;
      mutex_total = omega (arith, v.mutex_total, total-up ab ac bc u.left u.queue v.mutex_good);
      count = v.count;
      first = record {
        first = v.first.first;
        last = v.first.last;
        mutex = λ z. v.first.mutex (mem-up a u.left u.queue z);
        fresh = refl;
        rounds = v.first.rounds;
      };
      second = Place-ext v.second (λ z. z) (λ z. z) (mem-up b u.left u.queue);
      consumer = Place-ext v.consumer (λ z. z) (λ z. z) (mem-up c u.left u.queue);
      done = v.done;
      reader = v.reader;
    }

    give :
        Inv a b c e f u m d (released i) q r
        → Inv a b c e (up f.left f.queue) u m d (at_top (i + 1)) q r
    give v = record {
      empty_good = v.empty_good;
      full_good = Good-up ab ac bc f.left f.queue v.full_good;
      mutex_good = v.mutex_good;
      empty_total = omega (arith, v.empty_total);
      full_total = omega (arith, v.full_total, total-up ab ac bc f.left f.queue v.full_good);
      mutex_total = v.mutex_total;
      count = omega (arith, v.count);
      first = record {
        first = v.first.first;
        last = ground (arith, mem-up a f.left f.queue, v.first.last);
        mutex = v.first.mutex;
        fresh = refl;
        rounds = v.first.rounds;
      };
      second = Place-ext v.second (λ z. z) (mem-up b f.left f.queue) (λ z. z);
      consumer = Place-ext v.consumer (mem-up c f.left f.queue) (λ z. z) (λ z. z);
      done = v.done;
      reader = v.reader;
    }

    finished_one :
        produced_each ≤ i
        → Inv a b c e f u m d (at_top i) q r
        → Inv a b c e f u m (add32 d 1) finished q r
    finished_one ge v = record {
      empty_good = v.empty_good;
      full_good = v.full_good;
      mutex_good = v.mutex_good;
      empty_total = omega (arith, v.empty_total, ge, v.first.rounds);
      full_total = omega (arith, v.full_total, ge, v.first.rounds);
      mutex_total = v.mutex_total;
      count = omega (arith, v.count, ge, v.first.rounds);
      first = record {
        first = v.first.first;
        last = v.first.last;
        mutex = v.first.mutex;
        fresh = refl;
        rounds = omega arith;
      };
      second = v.second;
      consumer = v.consumer;
      done = omega (arith, v.done, is_done-one q, is_done-one r);
      reader = v.reader;
    }

  -- A step of the first producer.
  pub Produces-Inv :
      {id : ℕ} {s t : Shared} {p p' q r : Pc}
      → InvOf a b c s p q r
      → Produces a id s p t p'
      → InvOf a b c t p' q r
  Produces-Inv v (Produces.wait_empty lt) = ask lt v
  Produces-Inv v (Produces.got_empty out) = quiet v (same_all refl refl refl refl refl) (record {
    first = λ z. ground (arith, out, z);
    last = v.first.last;
    mutex = v.first.mutex;
    fresh = refl;
    rounds = v.first.rounds;
  })
  Produces-Inv v Produces.wait_mutex = ask_mutex v
  Produces-Inv v (Produces.got_mutex out) = quiet v (same_all refl refl refl refl refl) (record {
    first = v.first.first;
    last = v.first.last;
    mutex = λ z. ground (arith, out, z);
    fresh = refl;
    rounds = v.first.rounds;
  })
  Produces-Inv v Produces.write = quiet v (same_all refl refl refl refl refl) (record {
    first = v.first.first;
    last = v.first.last;
    mutex = v.first.mutex;
    fresh = refl;
    rounds = v.first.rounds;
  })
  Produces-Inv v Produces.load = quiet v (same_all refl refl refl refl refl) (record {
    first = v.first.first;
    last = v.first.last;
    mutex = v.first.mutex;
    fresh = refl;
    rounds = v.first.rounds;
  })
  Produces-Inv v Produces.fetch = quiet v (same_all refl refl refl refl refl) (record {
    first = v.first.first;
    last = v.first.last;
    mutex = v.first.mutex;
    fresh = refl;
    rounds = v.first.rounds;
  })
  Produces-Inv v Produces.store = stored v
  Produces-Inv v Produces.signal_mutex = leave v
  Produces-Inv v Produces.signal_full = give v
  Produces-Inv v (Produces.finish ge) = finished_one ge v
