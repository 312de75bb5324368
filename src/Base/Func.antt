-- ===== src/Base/Func.antt =====
-- Arrays and memory as functions from an index, and unsigned 32-bit arithmetic.
use Prim.Native.Nat.{ℕ, zero, suc, ◌+◌, ◌-◌, ◌%◌, ◌^◌, ◌≤◌, ◌<◌}
use mathlib.Core.Path.{◌≡◌, refl}
use mathlib.Core.Logic.{inl, inr}
use mathlib.Core.Bool.{Bool, true, false}
use mathlib.Core.Option.{none, some}
use native.Mathlib.Omega.{arith}
use seng21213_os_se.Base.Test.{◌==◌, if◌then◌else◌, Ptr, Bool-cases}

abbrev pub update {ℓ} : {A : Type ℓ} → (ℕ → A) → ℕ → A → ℕ → A
update f i v j = if i == j then v else f j

-- `uint32_t` addition and subtraction wrap.
abbrev pub add32 : ℕ → ℕ → ℕ
add32 a b = (a + b) % 2 ^ 32

abbrev pub sub32 : ℕ → ℕ → ℕ
sub32 a b = (a + 2 ^ 32 - b) % 2 ^ 32

-- `for (i = lo; i < lo + n; i++) if (test(i)) return i;`
unfoldable pub find_first : ℕ → ℕ → (ℕ → Bool) → Ptr
find_first zero lo test = none
find_first (suc n) lo test =
    let rest = find_first n (lo + 1) test in if test lo then some lo else rest

-- The least index that passes the test, or none passes.
pub data First (lo hi : ℕ) (test : ℕ → Bool) (out : Ptr) : Type 0 where
  first :
      (i : ℕ)
      → lo ≤ i
      → i < hi
      → test i ≡ true
      → ((j : ℕ) → lo ≤ j → j < i → test j ≡ false)
      → out ≡ some i
      → First lo hi test out
  nowhere : ((j : ℕ) → lo ≤ j → j < hi → test j ≡ false) → out ≡ none → First lo hi test out

First-next :
    {lo hi : ℕ} {test : ℕ → Bool} {out : Ptr}
    → test lo ≡ false
    → First (lo + 1) hi test out
    → First lo hi test out
First-next {lo} {test} miss (first i le lt hit least o) =
    first i (omega arith) lt hit (λ j p q. before j p q) o
  where
    before : (j : ℕ) → lo ≤ j → j < i → test j ≡ false
    before j p q = ground (arith, least j)
First-next miss (nowhere all_miss o) = nowhere (λ j p q. ground (arith, all_miss j)) o

pub find_first-First :
    (n lo hi : ℕ) (test : ℕ → Bool) → lo + n ≡ hi → First lo hi test (find_first n lo test)
unfolding find_first
find_first-First zero lo hi test e = nowhere (λ j p q. absurd (omega arith)) refl
find_first-First (suc n) lo hi test e = elim (Bool-cases (test lo)) [
  | inl hit ↦ rw hit (first lo (omega arith) (omega arith) hit (λ j p q. absurd (omega arith)) refl)
  | inr miss ↦ rw miss (First-next miss (find_first-First n (lo + 1) hi test (omega arith)))
]
