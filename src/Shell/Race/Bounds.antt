-- ===== src/Shell/Race/Bounds.antt =====
-- How many of the updates the race demonstration of kernel/kernel.c can lose.
use seng21213_os_se.Base.{ℕ, ◌+◌, ◌*◌, ◌≤◌, ◌<◌, ◌%◌, ◌≡◌, refl, arith}
use seng21213_os_se.Shell.Counting.{race_iterations}
use seng21213_os_se.Shell.Race.{
  Shared, Pc, at_top, loaded, finished, Move, load, store, finish, System, of_first, of_second,
  Runs, begin, further,
}

-- The stores that a thread has made.
abbrev stores : Pc → ℕ
stores (at_top i) = i
stores (loaded i temp) = i
stores finished = race_iterations

abbrev is_done : Pc → ℕ
is_done finished = 1
is_done p = 0

-- What a thread has loaded is no more than the stores made up to now, and after its first store it
-- has loaded no 0.
abbrev Loaded : Pc → ℕ → Type 0
Loaded (loaded i temp) n = (temp ≤ n) × (0 < i → 0 < temp) × (i < race_iterations)
Loaded (at_top i) n = i ≤ race_iterations
Loaded finished n = n ≡ n

record Inv (s : Shared) (p q : Pc) : Type 0 where
  first : Loaded p (stores p + stores q)
  second : Loaded q (stores p + stores q)
  most : s.myglobal ≤ stores p + stores q
  some_made : 0 < stores p + stores q → 0 < s.myglobal
  last_two : race_iterations ≤ stores p → race_iterations ≤ stores q → 2 ≤ s.myglobal
  done : s.race_done ≡ is_done p + is_done q

Loaded-up : {n n' : ℕ} (p : Pc) → n ≤ n' → Loaded p n → Loaded p n'
Loaded-up (at_top i) le v = v
Loaded-up (loaded i temp) le v = (omega (arith, v.0, le), v.1, v.2)
Loaded-up finished le v = refl

stores-le : (n : ℕ) (p : Pc) → Loaded p n → stores p ≤ race_iterations
stores-le n (at_top i) v = v
stores-le n (loaded i temp) v = omega (arith, v.2)
stores-le n finished v = omega arith

is_done-one : (p : Pc) → is_done p ≤ 1
is_done-one (at_top i) = omega arith
is_done-one (loaded i temp) = omega arith
is_done-one finished = omega arith

Inv-swap : {s : Shared} {p q : Pc} → Inv s p q → Inv s q p
Inv-swap {p = p} {q} v = record {
  first = Loaded-up q (omega arith) v.second;
  second = Loaded-up p (omega arith) v.first;
  most = omega (arith, v.most);
  some_made = ground (arith, v.some_made);
  last_two = λ a b. v.last_two b a;
  done = omega (arith, v.done);
}

Inv-Move : {s t : Shared} {p p' q : Pc} → Inv s p q → Move s p t p' → Inv t p' q
Inv-Move {q = q} v (load {i} lt) = record {
  first = (v.most, λ pos. v.some_made (omega (arith, pos)), lt);
  second = v.second;
  most = v.most;
  some_made = v.some_made;
  last_two = v.last_two;
  done = v.done;
}
Inv-Move {q = q} v (store {i} {temp}) =
    let small = stores-le _ q v.second in
    let next : (temp + 1) % 4294967296 ≡ temp + 1 = omega (arith, v.first.0, v.first.2, small) in
    record {
      first = omega (arith, v.first.2);
      second = Loaded-up q (omega arith) v.second;
      most = omega (arith, next, v.first.0);
      some_made = λ pos. omega (arith, next);
      last_two = λ a b. ground (arith, next, v.first.1, a);
      done = v.done;
    }
Inv-Move {q = q} v (finish {i} ge) = record {
  first = refl;
  second = Loaded-up q (omega (arith, ge, v.first)) v.second;
  most = omega (arith, v.most, ge, v.first);
  some_made = λ pos. v.some_made (omega (arith, pos, ge));
  last_two = λ a b. v.last_two ge b;
  done = omega (arith, v.done, is_done-one q);
}

Runs-Inv : {s : System} → Runs s → Inv s.shared s.first s.second
Runs-Inv begin = record {
  first = omega arith;
  second = omega arith;
  most = omega arith;
  some_made = λ pos. absurd (omega (arith, pos));
  last_two = λ a b. absurd (omega (arith, a));
  done = refl;
}
Runs-Inv (further r (of_first m)) = Inv-Move (Runs-Inv r) m
Runs-Inv (further r (of_second m)) = Inv-swap (Inv-Move (Inv-swap (Runs-Inv r)) m)

is_done-stores : (p : Pc) → is_done p ≡ 1 → stores p ≡ race_iterations
is_done-stores (at_top i) e = absurd (omega (arith, e))
is_done-stores (loaded i temp) e = absurd (omega (arith, e))
is_done-stores finished e = refl

-- In every interleaving of the two threads of the race demonstration, once `race_done` has reached
-- the 2 that `cmd_race` waits for, `myglobal` is at least 2 and at most 2000.
pub Runs-lost :
    {s : System}
    → Runs s
    → s.shared.race_done ≡ 2
    → (2 ≤ s.shared.myglobal) × (s.shared.myglobal ≤ race_iterations * 2)
Runs-lost {s = s} r e =
    let v = Runs-Inv r in
    let p_one = is_done-one s.first in
    let q_one = is_done-one s.second in
    let p = is_done-stores s.first (omega (arith, v.done, e, p_one, q_one)) in
    let q = is_done-stores s.second (omega (arith, v.done, e, p_one, q_one)) in
    (v.last_two (omega (arith, p)) (omega (arith, q)), omega (arith, v.most, p, q))
