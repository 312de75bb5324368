-- ===== src/Shell/Number.antt =====
-- `k_atoi` in kernel/kernel.c reads what `print_uint` in kernel/vga.c prints.
use seng21213_os_se.Base.{
  ℕ, ◌+◌, ◌-◌, ◌*◌, ◌^◌, ◌≤◌, ◌<◌, ◌≡◌, refl, ◌∙◌, true, false, List, [], ◌∷◌, ◌++◌, some, arith,
  inl, ltb, ap, sym,
}
use seng21213_os_se.Vga.{Screen, put_string}
use seng21213_os_se.Vga.Print.{print_uint}
use seng21213_os_se.Vga.Digits.{digit_value, number, is_digit, all_digits, print_uint-number}
use seng21213_os_se.Shell.{is_decimal, starts_number, atoi_loop, k_atoi}

number-le : (acc : ℕ) (ds : List ℕ) → acc ≤ number 10 acc ds
number-le acc [] = omega arith
number-le acc (c ∷ ds) = omega (arith, number-le (acc * 10 + digit_value c) ds)

pub is_digit-decimal :
    (c : ℕ) → is_digit 10 c ≡ true → (is_decimal c ≡ true) × (digit_value c ≡ c - 48)
is_digit-decimal c h = (ground arith, ground arith)

pub atoi_loop-number :
    (acc : ℕ) (ds rest : List ℕ)
    → all_digits 10 ds ≡ true
    → number 10 acc ds < 2 ^ 31
    → starts_number rest ≡ false
    → atoi_loop acc (ds ++ rest) ≡ some (number 10 acc ds)
unfolding atoi_loop
atoi_loop-number acc [] [] ok small stop = refl
atoi_loop-number acc [] (c ∷ rest) ok small stop = rw stop refl
atoi_loop-number acc (c ∷ ds) rest ok small stop =
    let first : is_digit 10 c ≡ true = ground arith in
    let others : all_digits 10 ds ≡ true = ground arith in
    let d = is_digit-decimal c first in
    let bound = number-le (acc * 10 + digit_value c) ds in
    let fits : ltb (acc * 10 + digit_value c) 2147483648 ≡ true = ground (arith, bound, small) in
    let e : acc * 10 + (c - 48) ≡ acc * 10 + digit_value c = ap (λ x. acc * 10 + x) (sym d.1) in
    rw (d.0, e, fits) (atoi_loop-number (acc * 10 + digit_value c) ds rest others small stop)

-- `print_uint` in base 10 prints a number that fits an `int` as a text from which `k_atoi` reads
-- the number back without an overflow, whatever follows that does not begin with a digit.
pub k_atoi-print_uint :
    (n : ℕ)
    → n < 2 ^ 31
    → (ds : List ℕ) × ((s : Screen) → print_uint n 10 s ≡ some (put_string ds s))
      × ((rest : List ℕ) → starts_number rest ≡ false → k_atoi (ds ++ rest) ≡ some n)
unfolding k_atoi
k_atoi-print_uint n small =
    let p = print_uint-number n 10 (inl refl) (omega arith) in
    (p.0, p.1, λ rest stop. atoi_loop-number 0 p.0 rest p.3 (omega (arith, p.2)) stop ∙ ap some p.2)
