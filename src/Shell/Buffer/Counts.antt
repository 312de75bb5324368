-- ===== src/Shell/Buffer/Counts.antt =====
-- The units of a semaphore that three threads share.
use seng21213_os_se.Base.{
  ℕ, zero, suc, ◌+◌, ◌≡◌, ◌≢◌, refl, true, false, ◌||◌, List, [], ◌∷◌, arith, ◌==◌, ◌⊎◌, inl, inr,
  Bool-cases, if◌then◌else◌,
}
use seng21213_os_se.Task.Ring.{mem, Distinct}
use seng21213_os_se.Task.Ring.Laws.{mem-append, Distinct-snoc}
use seng21213_os_se.Sync.Semaphore.Count.{Units, units, down, up}

-- A thread waits once, no thread but the three waits, and none while a unit is left.
pub record Good (a b c : ℕ) (u : Units) : Type 0 where
  pub distinct : Distinct u.queue
  pub only : (x : ℕ) → mem x u.queue ≡ true → ((x == a) || ((x == b) || (x == c))) ≡ true
  pub busy : (x : ℕ) → mem x u.queue ≡ true → u.left ≡ 0

-- The units left, and one for each thread that does not wait.
abbrev gap : ℕ → Units → ℕ
gap x u = if mem x u.queue then 0 else 1

abbrev pub total : ℕ → ℕ → ℕ → Units → ℕ
total a b c u = u.left + gap a u + gap b u + gap c u

pub mem-down :
    (x y n : ℕ) (q : List ℕ) → mem x (down y n q).queue ≡ true → (mem x q ≡ true) ⊎ (x ≡ y)
unfolding down
mem-down x y zero q m = elim (Bool-cases (x == y)) [
  | inl e ↦ inr (ground (arith, e))
  | inr e ↦ inl (ground (arith, e, mem-append x q (y ∷ [])))
]
mem-down x y (suc n) q m = inl m

pub mem-up : (x n : ℕ) (q : List ℕ) → mem x (up n q).queue ≡ true → mem x q ≡ true
unfolding up
mem-up x n [] m = cc
mem-up x n (y ∷ q) m = ground arith

module _ {a b c : ℕ} (ab : a ≢ b) (ac : a ≢ c) (bc : b ≢ c) where
  pub Good-down :
      (x n : ℕ) (q : List ℕ)
      → ((x == a) || ((x == b) || (x == c))) ≡ true
      → mem x q ≡ false
      → Good a b c (units n q)
      → Good a b c (down x n q)
  unfolding down
  Good-down x zero q is out g = record {
    distinct = Distinct-snoc x q g.distinct out;
    only = λ y m. ground (arith, mem-down y x 0 q m, g.only y, is);
    busy = λ y m. refl;
  }
  Good-down x (suc n) q is out g = record {
    distinct = g.distinct;
    only = g.only;
    busy = λ y m. absurd (omega (arith, g.busy y m));
  }

  pub total-down :
      (x n : ℕ) (q : List ℕ)
      → ((x == a) || ((x == b) || (x == c))) ≡ true
      → mem x q ≡ false
      → total a b c (down x n q) + 1 ≡ total a b c (units n q)
  unfolding down
  total-down x zero q is out =
      ground (arith, mem-append a q (x ∷ []), mem-append b q (x ∷ []), mem-append c q (x ∷ []))
  total-down x (suc n) q is out = omega arith

  pub Good-up : (n : ℕ) (q : List ℕ) → Good a b c (units n q) → Good a b c (up n q)
  unfolding up
  Good-up n [] g = record { distinct = tt; only = λ y m. cc; busy = λ y m. cc }
  Good-up n (x ∷ q) g = record {
    distinct = g.distinct.1;
    only = λ y m. ground (arith, g.only y);
    busy = λ y m. ground (arith, g.busy y);
  }

  pub total-up :
      (n : ℕ) (q : List ℕ)
      → Good a b c (units n q)
      → total a b c (up n q) ≡ total a b c (units n q) + 1
  unfolding up
  total-up n [] g = omega arith
  total-up n (x ∷ q) g = ground (arith, g.only x, g.distinct.0)
