-- ===== src/Shell/Args.antt =====
-- `parse_two_ints` in kernel/kernel.c on every text, told by its shape.
use seng21213_os_se.Base.{
  ℕ, zero, suc, ◌^◌, ◌<◌, ◌≡◌, refl, Bool, true, false, not, ◌||◌, ◌==◌, List, [], ◌∷◌, ◌++◌,
  Option, none, some, ◌>>=◌, arith, replicate,
}
use seng21213_os_se.Vga.Digits.{number, all_digits}
use seng21213_os_se.Shell.{is_decimal, starts_number, k_ltrim, k_atoi, skip_digits, parse_two_ints}
use seng21213_os_se.Shell.Number.{atoi_loop-number, is_digit-decimal}

-- Behind spaces: two rows of digits with spaces between them, or one, or none, and the rest.
pub data Args : Type 0 where
  two_numbers : (a b : ℕ) (ds es rest : List ℕ) → Args
  one_number : (a b : ℕ) (ds rest : List ℕ) → Args
  no_number : (a : ℕ) (rest : List ℕ) → Args

abbrev pub spaces : ℕ → List ℕ
spaces n = replicate n 32

abbrev pub text : Args → List ℕ
text (two_numbers a b ds es rest) = spaces a ++ (ds ++ (spaces (suc b) ++ (es ++ rest)))
text (one_number a b ds rest) = spaces a ++ (ds ++ (spaces b ++ rest))
text (no_number a rest) = spaces a ++ rest

abbrev pub numbers : Args → Option (ℕ × ℕ)
numbers (two_numbers a b ds es rest) = some (number 10 0 ds, number 10 0 es)
numbers (one_number a b ds rest) = none
numbers (no_number a rest) = none

-- A row of digits whose number fits an `int`.
abbrev pub IsNumber : List ℕ → Type 0
IsNumber ds = (starts_number ds ≡ true) × (all_digits 10 ds ≡ true) × (number 10 0 ds < 2 ^ 31)

-- The text neither goes on with a digit nor with a space.
abbrev pub is_other : List ℕ → Bool
is_other [] = true
is_other (c ∷ s) = not (is_decimal c || (c == 32))

-- Each row of digits is as long as it can be, and its number fits an `int`.
abbrev pub Fits : Args → Type 0
Fits (two_numbers a b ds es rest) = IsNumber ds × IsNumber es × (starts_number rest ≡ false)
Fits (one_number a b ds rest) = IsNumber ds × (is_other rest ≡ true)
Fits (no_number a rest) = is_other rest ≡ true

k_ltrim-spaces : (n : ℕ) (s : List ℕ) → k_ltrim (spaces n ++ s) ≡ k_ltrim s
unfolding k_ltrim
k_ltrim-spaces zero s = refl
k_ltrim-spaces (suc n) s = k_ltrim-spaces n s

k_ltrim-number : (s : List ℕ) → starts_number s ≡ true → k_ltrim s ≡ s
unfolding k_ltrim
k_ltrim-number [] digit = refl
k_ltrim-number (c ∷ s) digit = ground (arith, digit)

k_ltrim-other : (s : List ℕ) → is_other s ≡ true → k_ltrim s ≡ s
unfolding k_ltrim
k_ltrim-other [] other = refl
k_ltrim-other (c ∷ s) other = ground (arith, other)

starts_number-other : (s : List ℕ) → is_other s ≡ true → starts_number s ≡ false
starts_number-other [] other = refl
starts_number-other (c ∷ s) other = ground (arith, other)

starts_number-append : (ds s : List ℕ) → starts_number ds ≡ true → starts_number (ds ++ s) ≡ true
starts_number-append [] s digit = absurd (ground (arith, digit))
starts_number-append (c ∷ ds) s digit = digit

starts_number-spaces :
    (n : ℕ) (s : List ℕ) → is_other s ≡ true → starts_number (spaces n ++ s) ≡ false
starts_number-spaces zero s other = starts_number-other s other
starts_number-spaces (suc n) s other = refl

skip_digits-number :
    (ds s : List ℕ) → all_digits 10 ds ≡ true → starts_number s ≡ false → skip_digits (ds ++ s) ≡ s
unfolding skip_digits
skip_digits-number [] [] ok stop = refl
skip_digits-number [] (c ∷ s) ok stop = rw stop refl
skip_digits-number (c ∷ ds) s ok stop =
    let d = is_digit-decimal c (ground arith) in
    rw d.0 (skip_digits-number ds s (ground arith) stop)

k_atoi-number :
    (ds s : List ℕ)
    → IsNumber ds
    → starts_number s ≡ false
    → k_atoi (ds ++ s) ≡ some (number 10 0 ds)
unfolding k_atoi
k_atoi-number ds s (digit, ok, small) stop = atoi_loop-number 0 ds s ok small stop

-- Whatever the text, `parse_two_ints` reads the numbers at its beginning if there are two.
pub parse_two_ints_lem : (t : Args) → Fits t → parse_two_ints (text t) ≡ some (numbers t)
unfolding parse_two_ints
parse_two_ints_lem (two_numbers a b ds es rest) (first, second, stop) =
    let behind = spaces (suc b) ++ (es ++ rest) in
    let starts = starts_number-append ds behind first.0 in
    let starts' = starts_number-append es rest second.0 in
    rw
      (
        k_ltrim-spaces a (ds ++ behind),
        k_ltrim-number (ds ++ behind) starts,
        starts,
        skip_digits-number ds behind first.1 refl,
        k_ltrim-spaces (suc b) (es ++ rest),
        k_ltrim-number (es ++ rest) starts',
        starts',
        k_atoi-number ds behind first refl,
        k_atoi-number es rest second stop,
        ◌>>=◌,
      )
      refl
parse_two_ints_lem (one_number a b ds rest) (first, other) =
    let behind = spaces b ++ rest in
    let starts = starts_number-append ds behind first.0 in
    let stop = starts_number-spaces b rest other in
    rw
      (
        k_ltrim-spaces a (ds ++ behind),
        k_ltrim-number (ds ++ behind) starts,
        starts,
        skip_digits-number ds behind first.1 stop,
        k_ltrim-spaces b rest,
        k_ltrim-other rest other,
        starts_number-other rest other,
        k_atoi-number ds behind first stop,
        ◌>>=◌,
      )
      refl
parse_two_ints_lem (no_number a rest) other =
    rw (k_ltrim-spaces a rest, k_ltrim-other rest other, starts_number-other rest other) refl
