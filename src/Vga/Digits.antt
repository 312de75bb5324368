-- ===== src/Vga/Digits.antt =====
-- `print_uint` in kernel/vga.c: the digits that it prints stand for the number.
use seng21213_os_se.Base.{
  ℕ, zero, suc, ◌+◌, ◌-◌, ◌*◌, ◌/◌, ◌%◌, ◌^◌, ◌≤◌, ◌<◌, ◌≡◌, ◌⊎◌, inl, inr, refl, ap, ◌∙◌, Bool,
  true, false, ◌&&◌, ◌||◌, List, [], ◌∷◌, some, arith, ◌==◌, ltb, leb, if◌then◌else◌, update,
  length, Bool-cases,
}
use seng21213_os_se.Vga.{Screen, vga_putchar, put_string}
use seng21213_os_se.Vga.Print.{digit_char, digits_loop, print_back, print_uint}

-- The bases that `vga_printf` uses.
abbrev pub IsBase : ℕ → Type 0
IsBase base = (base ≡ 10) ⊎ (base ≡ 16)

abbrev pub digit_value : ℕ → ℕ
digit_value c = if ltb c 58 then c - 48 else c - 87

-- The number that a row of digits stands for, behind digits that stand for `acc`.
abbrev pub number : ℕ → ℕ → List ℕ → ℕ
number base acc [] = acc
number base acc (c ∷ cs) = number base (acc * base + digit_value c) cs

abbrev pub is_digit : ℕ → ℕ → Bool
is_digit base c = ((leb 48 c && ltb c 58) || (leb 97 c && ltb c 103)) && ltb (digit_value c) base

abbrev pub all_digits : ℕ → List ℕ → Bool
all_digits base [] = true
all_digits base (c ∷ cs) = is_digit base c && all_digits base cs

-- The first `i` characters of the buffer, backwards.
abbrev listing : ℕ → (ℕ → ℕ) → List ℕ
listing zero buf = []
listing (suc i) buf = buf i ∷ listing i buf

length-listing : (i : ℕ) (buf : ℕ → ℕ) → length (listing i buf) ≡ i
length-listing zero buf = refl
length-listing (suc i) buf = ap suc (length-listing i buf)

listing-update : (i j v : ℕ) (buf : ℕ → ℕ) → i ≤ j → listing i (update buf j v) ≡ listing i buf
listing-update zero j v buf le = refl
listing-update (suc i) j v buf le = ground (arith, listing-update i j v buf)

base_facts :
    (base n : ℕ)
    → IsBase base
    → (n / base * base + n % base ≡ n) × (n / base ≤ n / 2) × (n % base < base) × (base ≤ 16)
base_facts base n (inl e) = rw e (omega arith)
base_facts base n (inr e) = rw e (omega arith)

digit_of :
    (base r : ℕ)
    → r < base
    → base ≤ 16
    → (is_digit base (digit_char r) ≡ true) × (digit_value (digit_char r) ≡ r)
digit_of base r lt le = (ground arith, ground arith)

-- 2 ^ k.
abbrev doubled : ℕ → ℕ
doubled zero = 1
doubled (suc k) = 2 * doubled k

module _ (base : ℕ) (is : IsBase base) where
  digits_loop_lem :
      (k n i : ℕ) (buf : ℕ → ℕ)
      → n < doubled k
      → i + k ≤ 32
      → all_digits base (listing i buf) ≡ true
      → (r : ℕ × (ℕ → ℕ)) × (digits_loop (suc k) n base i buf ≡ some r)
        × (number base 0 (listing r.0 r.1) ≡ number base n (listing i buf))
        × (all_digits base (listing r.0 r.1) ≡ true)
        × (r.0 ≤ 32)
        × (i ≤ r.0)
  unfolding digits_loop
  digits_loop_lem zero n i buf small room ok =
      let z : n ≡ 0 = omega arith in rw z ((i, buf), refl, refl, ok, omega arith, omega arith)
  digits_loop_lem (suc k) n i buf small room ok = elim (Bool-cases (n == 0)) [
    | inl z ↦
        let e : n ≡ 0 = ground arith in rw e ((i, buf), refl, refl, ok, omega arith, omega arith)
    | inr nz ↦
        let f = base_facts base n is in
        let d = digit_of base (n % base) f.2 f.3 in
        let buf1 = update buf i (digit_char (n % base)) in
        let fits : leb 32 i ≡ false = ground arith in
        let kept = listing-update i i (digit_char (n % base)) buf (omega arith) in
        let top : buf1 i ≡ digit_char (n % base) = ground arith in
        let ok1 : all_digits base (listing (suc i) buf1) ≡ true = rw (top, kept, d.0) ok in
        let r = digits_loop_lem k (n / base) (suc i) buf1 (omega (arith, f.1)) (omega arith) ok1 in
        let value : number base (n / base) (listing (suc i) buf1) ≡ number base n (listing i buf) =
          rw (top, kept, d.1) (ap (λ m. number base m (listing i buf)) f.0) in
        let next : i + 1 ≡ suc i = omega arith in
        (r.0, rw (nz, fits, next) r.1, r.2 ∙ value, r.3, r.4, omega (arith, r.5))
  ]

-- Characters that are no NUL print as a string does.
print_back-put_string :
    (base i : ℕ) (buf : ℕ → ℕ) (s : Screen)
    → all_digits base (listing i buf) ≡ true
    → print_back i buf s ≡ put_string (listing i buf) s
unfolding print_back put_string
print_back-put_string base zero buf s ok = refl
print_back-put_string base (suc i) buf s ok =
    let nz : (buf i == 0) ≡ false = ground arith in
    rw nz (print_back-put_string base i buf (vga_putchar (buf i) s) (ground arith))

nonempty : (base : ℕ) (ds : List ℕ) → 0 < number base 0 ds → 1 ≤ length ds
nonempty base [] h = absurd (omega arith)
nonempty base (c ∷ ds) h = omega arith

one_zero : (s : Screen) → some (vga_putchar 48 s) ≡ some (put_string (48 ∷ []) s)
unfolding put_string
one_zero s = refl

-- In base 10 and in base 16, `print_uint` of a 32-bit number never overflows its buffer of 32
-- bytes, and prints a row of digits of that base, one at least, that stand for the number.
pub print_uint-number :
    (n base : ℕ)
    → IsBase base
    → n < 2 ^ 32
    → (ds : List ℕ) × ((s : Screen) → print_uint n base s ≡ some (put_string ds s))
      × (number base 0 ds ≡ n)
      × (all_digits base ds ≡ true)
      × (1 ≤ length ds)
      × (length ds ≤ 32)
unfolding print_uint
print_uint-number n base is small = elim (Bool-cases (n == 0)) [
  | inl z ↦
      let e : n ≡ 0 = ground arith in
      rw e (48 ∷ [], λ s. one_zero s, omega arith, ground arith, omega arith, omega arith)
  | inr nz ↦
      let r = digits_loop_lem base is 32 n 0 (λ _. 0) small (omega arith) refl in
      (
        listing r.0.0 r.0.1,
        λ s. rw (nz, r.1) (ap some (print_back-put_string base r.0.0 r.0.1 s r.3)),
        r.2,
        r.3,
        nonempty base (listing r.0.0 r.0.1) (ground (arith, r.2)),
        rw (length-listing r.0.0 r.0.1) r.4,
      )
]
