-- ===== src/Shell/Counting/Ends.antt =====
-- The steps that the mutex demonstration of kernel/kernel.c has left, where no interrupt comes
-- inside a call of the mutex.
use seng21213_os_se.Base.{
  ℕ, ◌+◌, ◌-◌, ◌*◌, ◌≤◌, ◌<◌, ◌≡◌, ◌≢◌, ◌⊎◌, inl, inr, refl, sym, ap, ◌∙◌, true, false, arith,
  Bool-cases, none, some, ◌==◌, ltb,
}
use seng21213_os_se.Sync.Mutex.Spec.{Lock, free, held}
use seng21213_os_se.Shell.Counting.{
  race_iterations, Shared, Pc, at_top, in_lock, locked, loaded, stored, finished, owner, Move,
  call_lock, return_lock, load, store, unlock, finish, System, Turn, of_first, of_second,
  AtomicRuns,
}
use seng21213_os_se.Shell.Counting.Inv.{
  Holds, nobody, one, one_other, other, other_one, Inv, Inv-swap, wants, is_done, started_by,
  AtomicRuns-Inv,
}

-- The steps that a thread has left.
abbrev pub left : Pc → ℕ
left (at_top i) = 5 * (race_iterations - i) + 1
left (in_lock i) = 5 * (race_iterations - i)
left (locked i) = 5 * (race_iterations - i) - 1
left (loaded i temp) = 5 * (race_iterations - i) - 2
left (stored i) = 5 * (race_iterations - i) - 3
left finished = 0

Move-less :
    {c : ℕ} {s t : Shared} {p p' : Pc}
    → started_by p ≤ race_iterations
    → Move c s p t p'
    → left p' < left p
Move-less le (call_lock lt) = omega (arith, lt)
Move-less le (return_lock o) = omega (arith, le)
Move-less le load = omega (arith, le)
Move-less le store = omega (arith, le)
Move-less le unlock = omega (arith, le)
Move-less le (finish e) = omega arith

-- A thread has a step, unless it has ended or waits for a lock that it does not own.
data Can (c : ℕ) (s : Shared) (p : Pc) : Type 0 where
  ended : p ≡ finished → Can c s p
  waits : wants p ≡ true → owner s.lock ≢ some c → Can c s p
  moves : (t : Shared) (p' : Pc) → Move c s p t p' → Can c s p

can : (c : ℕ) (s : Shared) (p : Pc) → Can c s p
can c s (at_top i) = elim (Bool-cases (ltb i race_iterations)) [
  | inl lt ↦ moves _ _ (call_lock (ground (arith, lt)))
  | inr ge ↦ moves _ _ (finish (ground (arith, ge)))
]
can c s (in_lock i) = at_lock s.lock refl
  where
    at_lock : (l : Lock) → s.lock ≡ l → Can c s (in_lock i)
    at_lock free e =
        waits refl (λ o. let z : none ≡ some c = sym (ap owner e) ∙ o in ground (arith, z))
    at_lock (held o q) e = elim (Bool-cases (o == c)) [
      | inl mine ↦ moves _ _ (return_lock (ap owner e ∙ ap some (ground (arith, mine))))
      | inr not_mine ↦
          waits refl
            (λ z. let z' : some o ≡ some c = sym (ap owner e) ∙ z in ground (arith, z', not_mine))
    ]
can c s (locked i) = moves _ _ load
can c s (loaded i temp) = moves _ _ store
can c s (stored i) = moves _ _ unlock
can c s finished = ended refl

-- If a thread waits for a lock that it does not own, the other owns it.
blocked :
    {a b : ℕ} {p q : Pc} {l : Lock}
    → Holds a b p q l
    → wants p ≡ true
    → owner l ≢ some a
    → (owner l ≡ some b) × (wants q ≡ true)
blocked (nobody e x y) w ne = absurd (ground (arith, x, w))
blocked (one e x y) w ne = absurd (ne (ap owner e))
blocked (one_other e x y z) w ne = absurd (ne (ap owner e))
blocked (other e x y) w ne = absurd (ground (arith, x, w))
blocked (other_one e x y z) w ne = (ap owner e, y)

idle : {p : Pc} → p ≡ finished → wants p ≡ true → ⊥
idle e w = let z : true ≡ false = sym w ∙ ap wants e in ground (arith, z)

Inv-Turn :
    {a b : ℕ} {s : System}
    → Inv a b s.shared s.first s.second
    → (s.shared.mutex_done ≡ 2) ⊎ ((t : System) × Turn a b s t)
Inv-Turn {a} {b} {s} v = elim (can a s.shared s.first) [
  | moves t p' m ↦ inr (_, of_first m)
  | ended e ↦ elim (can b s.shared s.second) [
    | moves t q' m ↦ inr (_, of_second m)
    | ended e' ↦ inl (omega (arith, v.done, ap is_done e, ap is_done e'))
    | waits w o ↦ absurd (idle e (blocked (Inv-swap v).holds w o).1)
  ]
  | waits w o ↦
      let mine = blocked v.holds w o in
      elim (can b s.shared s.second) [
        | moves t q' m ↦ inr (_, of_second m)
        | ended e' ↦ absurd (idle e' mine.1)
        | waits w' o' ↦ absurd (o' mine.0)
      ]
]

-- Provided that no timer interrupt comes inside a call of `mutex_lock` or `mutex_unlock` or inside
-- `mutex_done++` (which the kernel does not prevent), the mutex demonstration ends if a thread that
-- has a step is always run: in each state that such an interleaving of the two threads, in
-- different slots, can reach, `mutex_done` is 2 or one of the threads has a step, and each step
-- leaves fewer steps to be made.
pub AtomicRuns-ends :
    {a b : ℕ} {s : System}
    → a ≢ b
    → AtomicRuns a b s
    → ((s.shared.mutex_done ≡ 2) ⊎ ((t : System) × Turn a b s t))
      × ((t : System) → Turn a b s t → left t.first + left t.second < left s.first + left s.second)
AtomicRuns-ends {a} {b} {s} ne r =
    let v = AtomicRuns-Inv ne r in (Inv-Turn v, λ t u. turn_less v.first_small v.second_small u)
  where
    turn_less :
        {a b : ℕ} {s t : System}
        → started_by s.first ≤ race_iterations
        → started_by s.second ≤ race_iterations
        → Turn a b s t
        → left t.first + left t.second < left s.first + left s.second
    turn_less le le' (of_first m) = let z = Move-less le m in omega (arith, z)
    turn_less le le' (of_second m) = let z = Move-less le' m in omega (arith, z)
