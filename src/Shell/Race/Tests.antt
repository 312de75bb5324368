-- ===== src/Shell/Race/Tests.antt =====
-- The race demonstration, run so that it loses all it can: the first thread loads 0 and stores 1
-- after 999 rounds of the second, whose last round loads that 1 and stores 2 at the end.
use mathlib.Core.Path.{subst}
use seng21213_os_se.Base.{ℕ, zero, suc, ◌+◌, ◌%◌, ◌≤◌, ◌<◌, ◌≡◌, refl, arith}
use seng21213_os_se.Shell.Counting.{race_iterations}
use seng21213_os_se.Shell.Race.{
  Pc, at_top, loaded, finished, load, store, finish, System, of_first, of_second, Runs, begin,
  further,
}
use seng21213_os_se.Shell.Race.Bounds.{Runs-lost}

abbrev at : ℕ → ℕ → Pc → Pc → System
at n d p q = record { shared = record { myglobal = n; race_done = d }; first = p; second = q }

second_rounds : (n : ℕ) → n ≤ race_iterations → Runs (at n 0 (loaded 0 0) (at_top n))
second_rounds zero le = further begin (of_first (load (omega arith)))
second_rounds (suc n) le =
    let r1 = further (second_rounds n (omega arith)) (of_second (load (omega arith))) in
    let r2 = further r1 (of_second store) in
    let e : (n + 1) % 4294967296 ≡ suc n = omega arith in
    let e' : n + 1 ≡ suc n = omega arith in
    subst {A = ℕ × ℕ} (λ x. Runs (at x.0 0 (loaded 0 0) (at_top x.1))) (λ k. (e k, e' k)) r2

first_rounds : (n : ℕ) → n < race_iterations → Runs (at (1 + n) 0 (at_top (1 + n)) (loaded 999 1))
first_rounds zero lt =
    let r1 = further (second_rounds 999 (omega arith)) (of_first store) in
    further r1 (of_second (load (omega arith)))
first_rounds (suc n) lt =
    let r1 = further (first_rounds n (omega arith)) (of_first (load (omega arith))) in
    let r2 = further r1 (of_first store) in
    let e : (1 + n + 1) % 4294967296 ≡ 1 + suc n = omega arith in
    let e' : 1 + n + 1 ≡ 1 + suc n = omega arith in
    subst {A = ℕ × ℕ} (λ x. Runs (at x.0 0 (at_top x.1) (loaded 999 1))) (λ k. (e k, e' k)) r2

-- Two of 2000 updates are left.
abbrev all_lost : System
all_lost = at 2 2 finished finished

all_lost-Runs : Runs all_lost
all_lost-Runs =
    let r1 = further (first_rounds 999 (omega arith)) (of_second store) in
    let r2 = further r1 (of_first (finish (omega arith))) in
    further r2 (of_second (finish (omega arith)))

Runs-lost_example : (2 ≤ all_lost.shared.myglobal) × (all_lost.shared.myglobal ≤ 2000)
Runs-lost_example = Runs-lost all_lost-Runs refl
