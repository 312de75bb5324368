-- ===== src/Shell/Counting/Inv.antt =====
-- The mutex demonstration of kernel/kernel.c where no interrupt comes inside a call of the mutex:
-- what holds between the steps.
use seng21213_os_se.Base.{
  ℕ, ◌+◌, ◌*◌, ◌≤◌, ◌≡◌, ◌≢◌, ◌⊎◌, inl, inr, refl, sym, ap, ◌∙◌, Bool, true, false, arith, [], ◌∷◌,
  some, ◌==◌,
}
use seng21213_os_se.Sync.Mutex.Spec.{Lock, free, held, acquire, release}
use seng21213_os_se.Shell.Counting.{
  race_iterations, Shared, Pc, at_top, in_lock, locked, loaded, stored, finished, owner, Move,
  call_lock, return_lock, load, store, unlock, finish, System, of_first, of_second, AtomicRuns,
  begin, further,
}

-- The increments that a thread has made.
abbrev pub counted : Pc → ℕ
counted (at_top i) = i
counted (in_lock i) = i
counted (locked i) = i
counted (loaded i temp) = i
counted (stored i) = i + 1
counted finished = race_iterations

-- The rounds that a thread has begun.
abbrev pub started_by : Pc → ℕ
started_by (at_top i) = i
started_by (in_lock i) = i + 1
started_by (locked i) = i + 1
started_by (loaded i temp) = i + 1
started_by (stored i) = i + 1
started_by finished = race_iterations

counted-started_by : (p : Pc) → counted p ≤ started_by p
counted-started_by (at_top i) = omega arith
counted-started_by (in_lock i) = omega arith
counted-started_by (locked i) = omega arith
counted-started_by (loaded i temp) = omega arith
counted-started_by (stored i) = omega arith
counted-started_by finished = omega arith

-- The thread owns the lock, or waits for it.
abbrev pub wants : Pc → Bool
wants (at_top i) = false
wants finished = false
wants (in_lock i) = true
wants (locked i) = true
wants (loaded i temp) = true
wants (stored i) = true

-- The thread is between the two calls.
abbrev pub inside : Pc → Bool
inside (at_top i) = false
inside finished = false
inside (in_lock i) = false
inside (locked i) = true
inside (loaded i temp) = true
inside (stored i) = true

abbrev pub is_done : Pc → ℕ
is_done finished = 1
is_done (at_top i) = 0
is_done (in_lock i) = 0
is_done (locked i) = 0
is_done (loaded i temp) = 0
is_done (stored i) = 0

is_done-one : (p : Pc) → is_done p ≤ 1
is_done-one (at_top i) = omega arith
is_done-one (in_lock i) = omega arith
is_done-one (locked i) = omega arith
is_done-one (loaded i temp) = omega arith
is_done-one (stored i) = omega arith
is_done-one finished = omega arith

-- What a thread has loaded is still the value.
abbrev Fresh : ℕ → Pc → Type 0
Fresh n (loaded i temp) = temp ≡ n
Fresh n (at_top i) = n ≡ n
Fresh n (in_lock i) = n ≡ n
Fresh n (locked i) = n ≡ n
Fresh n (stored i) = n ≡ n
Fresh n finished = n ≡ n

-- The lock, and the threads `a` at `p` and `b` at `q`.
pub data Holds (a b : ℕ) (p q : Pc) (lock : Lock) : Type 0 where
  nobody : lock ≡ free → wants p ≡ false → wants q ≡ false → Holds a b p q lock
  one : lock ≡ held a [] → wants p ≡ true → wants q ≡ false → Holds a b p q lock
  one_other :
      lock ≡ held a (b ∷ [])
      → wants p ≡ true
      → wants q ≡ true
      → inside q ≡ false
      → Holds a b p q lock
  other : lock ≡ held b [] → wants p ≡ false → wants q ≡ true → Holds a b p q lock
  other_one :
      lock ≡ held b (a ∷ [])
      → wants p ≡ true
      → wants q ≡ true
      → inside p ≡ false
      → Holds a b p q lock

pub record Inv (a b : ℕ) (s : Shared) (p q : Pc) : Type 0 where
  pub holds : Holds a b p q s.lock
  total : s.myglobal ≡ counted p + counted q
  pub first_small : started_by p ≤ race_iterations
  pub second_small : started_by q ≤ race_iterations
  first_fresh : Fresh s.myglobal p
  second_fresh : Fresh s.myglobal q
  pub done : s.mutex_done ≡ is_done p + is_done q

Holds-swap : {a b : ℕ} {p q : Pc} {l : Lock} → Holds a b p q l → Holds b a q p l
Holds-swap (nobody e w w') = nobody e w' w
Holds-swap (one e w w') = other e w' w
Holds-swap (one_other e w w' i) = other_one e w' w i
Holds-swap (other e w w') = one e w' w
Holds-swap (other_one e w w' i) = one_other e w' w i

pub Inv-swap : {a b : ℕ} {s : Shared} {p q : Pc} → Inv a b s p q → Inv b a s q p
Inv-swap v = record {
  holds = Holds-swap v.holds;
  total = omega (arith, v.total);
  first_small = v.second_small;
  second_small = v.first_small;
  first_fresh = v.second_fresh;
  second_fresh = v.first_fresh;
  done = omega (arith, v.done);
}

Holds-same :
    {a b : ℕ} {p p' q : Pc} {l : Lock}
    → wants p' ≡ wants p
    → inside p' ≡ inside p
    → Holds a b p q l
    → Holds a b p' q l
Holds-same w i (nobody e x y) = nobody e (w ∙ x) y
Holds-same w i (one e x y) = one e (w ∙ x) y
Holds-same w i (one_other e x y z) = one_other e (w ∙ x) y z
Holds-same w i (other e x y) = other e (w ∙ x) y
Holds-same w i (other_one e x y z) = other_one e (w ∙ x) y (i ∙ z)

outside : (q : Pc) → wants q ≡ false → inside q ≡ false
outside (at_top i) e = refl
outside finished e = refl
outside (in_lock i) e = refl
outside (locked i) e = e
outside (loaded i temp) e = e
outside (stored i) e = e

Fresh-outside : (n : ℕ) (q : Pc) → inside q ≡ false → Fresh n q
Fresh-outside n (at_top i) e = refl
Fresh-outside n finished e = refl
Fresh-outside n (in_lock i) e = refl
Fresh-outside n (locked i) e = refl
Fresh-outside n (loaded i temp) e = absurd (ground (arith, e))
Fresh-outside n (stored i) e = refl

-- A thread between the two calls is the owner, and the other is not between them.
alone :
    {a b : ℕ} {p q : Pc} {l : Lock}
    → Holds a b p q l
    → inside p ≡ true
    → wants p ≡ true
    → (inside q ≡ false)
      × (((l ≡ held a []) × (wants q ≡ false)) ⊎ ((l ≡ held a (b ∷ [])) × (wants q ≡ true)))
alone (nobody e x y) i w = absurd (ground (arith, x, w))
alone {q = q} (one e x y) i w = (outside q y, inl (e, y))
alone (one_other e x y z) i w = (z, inr (e, y))
alone (other e x y) i w = absurd (ground (arith, x, w))
alone (other_one e x y z) i w = absurd (ground (arith, z, i))

Holds-call :
    {a b i : ℕ} {q : Pc} {l : Lock}
    → a ≢ b
    → Holds a b (at_top i) q l
    → Holds a b (in_lock i) q (acquire a l)
unfolding acquire
Holds-call ne (nobody e x y) = rw e (one refl refl y)
Holds-call ne (one e x y) = absurd (ground (arith, x))
Holds-call ne (one_other e x y z) = absurd (ground (arith, x))
Holds-call {a} {b} ne (other e x y) =
    let differ : (b == a) ≡ false = ground (arith, ne) in
    rw (e, differ) (other_one refl refl y refl)
Holds-call ne (other_one e x y z) = absurd (ground (arith, x))

Holds-return :
    {a b i : ℕ} {q : Pc} {l : Lock}
    → a ≢ b
    → owner l ≡ some a
    → Holds a b (in_lock i) q l
    → Holds a b (locked i) q l
Holds-return ne o (nobody e x y) = absurd (ground (arith, x))
Holds-return ne o (one e x y) = one e refl y
Holds-return ne o (one_other e x y z) = one_other e refl y z
Holds-return ne o (other e x y) = absurd (ground (arith, x))
Holds-return {a} {b} ne o (other_one e x y z) =
    let mine : some b ≡ some a = sym (ap owner e) ∙ o in absurd (ground (arith, mine, ne))

Holds-unlock :
    {a b i j : ℕ} {q : Pc} {l : Lock}
    → Holds a b (stored i) q l
    → Holds a b (at_top j) q (release a l)
unfolding release
Holds-unlock {a} {b} h = elim (alone h refl refl).1 [
  | inl (e, y) ↦ let same : (a == a) ≡ true = ground arith in rw (e, same) (nobody refl refl y)
  | inr (e, y) ↦ let same : (a == a) ≡ true = ground arith in rw (e, same) (other refl refl y)
]

Inv-Move :
    {a b : ℕ} {s t : Shared} {p p' q : Pc}
    → a ≢ b
    → Inv a b s p q
    → Move a s p t p'
    → Inv a b t p' q
Inv-Move {a} {b} {s} {q = q} ne v (call_lock {i} lt) = record {
  holds = Holds-call ne v.holds;
  total = v.total;
  first_small = omega (arith, v.first_small, lt);
  second_small = v.second_small;
  first_fresh = refl;
  second_fresh = v.second_fresh;
  done = v.done;
}
Inv-Move ne v (return_lock {i} o) = record {
  holds = Holds-return ne o v.holds;
  total = v.total;
  first_small = omega (arith, v.first_small);
  second_small = v.second_small;
  first_fresh = refl;
  second_fresh = v.second_fresh;
  done = v.done;
}
Inv-Move ne v load = record {
  holds = Holds-same refl refl v.holds;
  total = v.total;
  first_small = omega (arith, v.first_small);
  second_small = v.second_small;
  first_fresh = refl;
  second_fresh = v.second_fresh;
  done = v.done;
}
Inv-Move {q = q} ne v (store {i} {temp}) =
    let only = alone v.holds refl refl in
    record {
      holds = Holds-same refl refl v.holds;
      total =
          omega
            (arith, v.total, v.first_fresh, v.first_small, v.second_small, counted-started_by q);
      first_small = v.first_small;
      second_small = v.second_small;
      first_fresh = refl;
      second_fresh = Fresh-outside _ q only.0;
      done = v.done;
    }
Inv-Move {q = q} ne v (unlock {i}) = record {
  holds = Holds-unlock v.holds;
  total = v.total;
  first_small = omega (arith, v.first_small);
  second_small = v.second_small;
  first_fresh = refl;
  second_fresh = v.second_fresh;
  done = v.done;
}
Inv-Move {q = q} ne v (finish {i} le) = record {
  holds = Holds-same refl refl v.holds;
  total = omega (arith, v.total, v.first_small);
  first_small = omega arith;
  second_small = v.second_small;
  first_fresh = refl;
  second_fresh = v.second_fresh;
  done = omega (arith, v.done, is_done-one q);
}

pub AtomicRuns-Inv :
    {a b : ℕ} {s : System} → a ≢ b → AtomicRuns a b s → Inv a b s.shared s.first s.second
AtomicRuns-Inv ne begin = record {
  holds = nobody refl refl refl;
  total = refl;
  first_small = omega arith;
  second_small = omega arith;
  first_fresh = refl;
  second_fresh = refl;
  done = refl;
}
AtomicRuns-Inv ne (further r (of_first m)) = Inv-Move ne (AtomicRuns-Inv ne r) m
AtomicRuns-Inv ne (further r (of_second m)) =
    Inv-swap (Inv-Move (λ e. ne (sym e)) (Inv-swap (AtomicRuns-Inv ne r)) m)

pub is_done-finished : (p : Pc) → is_done p ≡ 1 → p ≡ finished
is_done-finished (at_top i) e = absurd (omega (arith, e))
is_done-finished (in_lock i) e = absurd (omega (arith, e))
is_done-finished (locked i) e = absurd (omega (arith, e))
is_done-finished (loaded i temp) e = absurd (omega (arith, e))
is_done-finished (stored i) e = absurd (omega (arith, e))
is_done-finished finished e = refl

-- Provided that no timer interrupt comes inside a call of `mutex_lock` or `mutex_unlock` or inside
-- `mutex_done++` (which the kernel does not prevent), in every interleaving of the two threads of
-- the mutex demonstration, in different slots, once `mutex_done` has reached the 2 that
-- `cmd_mutexdemo` waits for, `myglobal` is 2000: no update is lost.
pub AtomicRuns-myglobal :
    {a b : ℕ} {s : System}
    → a ≢ b
    → AtomicRuns a b s
    → s.shared.mutex_done ≡ 2
    → s.shared.myglobal ≡ race_iterations * 2
AtomicRuns-myglobal {s = s} ne r e =
    let v = AtomicRuns-Inv ne r in
    let p =
      is_done-finished s.first
        (omega (arith, v.done, e, is_done-one s.first, is_done-one s.second)) in
    let q =
      is_done-finished s.second
        (omega (arith, v.done, e, is_done-one s.first, is_done-one s.second)) in
    omega (arith, v.total, ap counted p, ap counted q)
