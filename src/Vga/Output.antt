-- ===== src/Vga/Output.antt =====
-- Sequences of the calls of kernel/vga.c by which the kernel prints, and what each keeps of the
-- screen.
use mathlib.Core.Option.{some-injective}
use seng21213_os_se.Base.{
  ℕ, ◌%◌, ◌^◌, ◌≤◌, ◌<◌, ◌≡◌, refl, ap, ◌∙◌, Bool, true, false, ◌&&◌, not, List, [], ◌∷◌, Option,
  none, some, ◌>>=◌, arith, ltb, leb, ◌-◌, ◌||◌, ◌==◌, if◌then◌else◌, Bool-cases, inl, inr,
}
use seng21213_os_se.Vga.{
  Screen, place_char, scroll_up, scroll_if_below, vga_putchar, put_string, vga_puts, vga_puts_color,
  vga_set_color,
}
use seng21213_os_se.Vga.Print.{Arg, text, word, print_uint, print_int, convert, vga_printf}
use seng21213_os_se.Vga.Digits.{print_uint-number, IsBase}
use seng21213_os_se.Vga.Cursor.{IsOnScreen, screen_size, vga_putchar-IsOnScreen}

-- A call that prints.
pub data Call : Type 0 where
  puts : List ℕ → Call
  puts_color : List ℕ → (fg bg : ℕ) → Call
  printf : List ℕ → List Arg → Call

abbrev pub call : Call → Screen → Option Screen
call (puts str) s = some (vga_puts (some str) s)
call (puts_color str fg bg) s = some (vga_puts_color (some str) fg bg s)
call (printf fmt args) s = vga_printf fmt args s

-- One call after the other; `none` is the fault of one of them.
unfoldable pub run : List Call → Screen → Option Screen
run [] s = some s
run (c ∷ cs) s = do s' ← call c s; run cs s'

-- The cursor is on the screen, the colours are as before, and so is what lies behind the screen.
pub record Kept (s s' : Screen) : Type 0 where
  pub on : IsOnScreen s'
  pub attr : s'.cur_attr ≡ s.cur_attr
  pub behind : (a : ℕ) → screen_size ≤ a → s'.cells a ≡ s.cells a

Kept-trans : {s t u : Screen} → Kept s t → Kept t u → Kept s u
Kept-trans v w = record {
  on = w.on;
  attr = w.attr ∙ v.attr;
  behind = λ a le. w.behind a le ∙ v.behind a le;
}

Kept-refl : {s : Screen} → IsOnScreen s → Kept s s
Kept-refl on = record { on = on; attr = refl; behind = λ a le. refl }

vga_putchar-attr : (c : ℕ) (s : Screen) → (vga_putchar c s).cur_attr ≡ s.cur_attr
unfolding vga_putchar place_char scroll_if_below scroll_up
vga_putchar-attr c s = ground arith

pub vga_putchar-Kept : (c : ℕ) {s : Screen} → IsOnScreen s → Kept s (vga_putchar c s)
vga_putchar-Kept c {s} on =
    let v = vga_putchar-IsOnScreen c on in
    record { on = v.0; attr = vga_putchar-attr c s; behind = v.2 }

pub put_string-Kept : (str : List ℕ) {s : Screen} → IsOnScreen s → Kept s (put_string str s)
unfolding put_string
put_string-Kept [] on = Kept-refl on
put_string-Kept (c ∷ str) {s} on = elim (Bool-cases (c == 0)) [
  | inl z ↦ rw z (Kept-refl on)
  | inr nz ↦
      rw nz (let first = vga_putchar-Kept c on in Kept-trans first (put_string-Kept str first.on))
]

pub vga_puts-Kept : (str : Option (List ℕ)) {s : Screen} → IsOnScreen s → Kept s (vga_puts str s)
unfolding vga_puts
vga_puts-Kept none on = Kept-refl on
vga_puts-Kept (some str) on = put_string-Kept str on

-- The call ends, and keeps the screen.
abbrev pub Ends : Screen → Option Screen → Type 0
Ends s o = (s' : Screen) × (o ≡ some s') × Kept s s'

print_uint-Ends :
    (n base : ℕ) {s : Screen}
    → IsBase base
    → n < 2 ^ 32
    → IsOnScreen s
    → Ends s (print_uint n base s)
print_uint-Ends n base {s} is small on =
    let d = print_uint-number n base is small in (put_string d.0 s, d.1 s, put_string-Kept d.0 on)

print_int-Ends : (v : ℕ) {s : Screen} → v < 2 ^ 32 → IsOnScreen s → Ends s (print_int v s)
unfolding print_int
print_int-Ends v {s} small on = elim (Bool-cases (leb (2 ^ 31) v)) [
  | inl neg ↦ rw neg (
      let minus = vga_putchar-Kept 45 on in
      let (s', e, k) = print_uint-Ends (2 ^ 32 - v) 10 (inl refl) (ground (arith, neg)) minus.on in
      (s', e, Kept-trans minus k))
  | inr pos ↦ rw pos (print_uint-Ends v 10 (inl refl) small on)
]

-- The conversions that take an argument: %s, %c, %d, %u and %x.
abbrev takes_word : ℕ → Bool
takes_word d = (d == 99) || ((d == 100) || ((d == 117) || (d == 120)))

-- The arguments that a conversion leaves, if the first has the kind that it asks for.
abbrev pub fits_one : ℕ → List Arg → Option (List Arg)
fits_one d [] = if (d == 115) || takes_word d then none else some []
fits_one d (text str ∷ args) =
    if d == 115 then some args else if takes_word d then none else some (text str ∷ args)
fits_one d (word v ∷ args) =
    if d == 115
    then none
    else if takes_word d
    then (if ltb v (2 ^ 32) then some args else none)
    else some (word v ∷ args)

-- The arguments are those that the format asks for, a word has 32 bits, and no `%` ends the format.
abbrev pub fits : List ℕ → List Arg → Bool
fits [] args = true
fits (c ∷ []) args = not (c == 37)
fits (c ∷ d ∷ fmt) args =
    if c == 0
    then true
    else if c == 37
    then (if d == 0 then false else elim (fits_one d args) [ none ↦ false | some r ↦ fits fmt r ])
    else fits (d ∷ fmt) args

-- The conversion ends, keeps the screen and leaves `r`.
abbrev Converts : Screen → List Arg → Option (List Arg × Screen) → Type 0
Converts s r o = (s' : Screen) × (o ≡ some (r, s')) × Kept s s'

converted :
    {s : Screen} {x r : List Arg} (s' : Screen)
    → some x ≡ some r
    → Kept s s'
    → Converts s r (some (x, s'))
converted {x = x} {r} s' e k = (s', ap (λ z. some (z, s')) (some-injective x r e), k)

with_rest :
    (s : Screen) (x r : List Arg) (o : Option Screen)
    → some x ≡ some r
    → Ends s o
    → Converts s r (do s' ← o; some (x, s'))
with_rest s x r o e (s', eo, k) = let (t, et, kt) = converted s' e k in (t, rw (eo, ◌>>=◌) et, kt)

convert-word :
    (d v : ℕ) (args r : List Arg) {s : Screen}
    → IsOnScreen s
    → fits_one d (word v ∷ args) ≡ some r
    → Converts s r (convert d (word v ∷ args) s)
unfolding convert
convert-word d v args r {s} on e = elim (Bool-cases (d == 115)) [
  | inl s_ ↦ absurd (ground (arith, e, s_))
  | inr ns ↦ rw ns (elim (Bool-cases (d == 99)) [
    | inl c ↦ rw c (converted _ (ground (arith, e, ns, c)) (vga_putchar-Kept (v % 256) on))
    | inr nc ↦ rw nc (elim (Bool-cases (d == 100)) [
      | inl i ↦ rw i (
          with_rest s args r _ (ground (arith, e, ns, i))
            (print_int-Ends v (ground (arith, e, ns, i)) on))
      | inr ni ↦ rw ni (elim (Bool-cases (d == 117)) [
        | inl u ↦ rw u (
            with_rest s args r _ (ground (arith, e, ns, u))
              (print_uint-Ends v 10 (inl refl) (ground (arith, e, ns, u)) on))
        | inr nu ↦ rw nu (elim (Bool-cases (d == 120)) [
          | inl x ↦ rw x (
              with_rest s args r _ (ground (arith, e, ns, x))
                (print_uint-Ends v 16 (inr refl) (ground (arith, e, ns, x)) on))
          | inr nx ↦
              rw nx (converted _ (ground (arith, e, ns, nc, ni, nu, nx)) (vga_putchar-Kept d on))
        ])
      ])
    ])
  ])
]

convert-none :
    (d : ℕ) (r : List Arg) {s : Screen}
    → IsOnScreen s
    → fits_one d [] ≡ some r
    → Converts s r (convert d [] s)
unfolding convert
convert-none d r {s} on e =
    let plain : ((d == 115) || takes_word d) ≡ false = ground (arith, e) in
    let n1 : (d == 115) ≡ false = ground arith in
    let n2 : (d == 99) ≡ false = ground arith in
    let n3 : (d == 100) ≡ false = ground arith in
    let n4 : (d == 117) ≡ false = ground arith in
    let n5 : (d == 120) ≡ false = ground arith in
    rw (n1, n2, n3, n4, n5)
      (converted _ (ground (arith, e, n1, n2, n3, n4, n5)) (vga_putchar-Kept d on))

convert-text :
    (d : ℕ) (str : Option (List ℕ)) (args r : List Arg) {s : Screen}
    → IsOnScreen s
    → fits_one d (text str ∷ args) ≡ some r
    → Converts s r (convert d (text str ∷ args) s)
unfolding convert
convert-text d str args r {s} on e = elim (Bool-cases (d == 115)) [
  | inl is ↦ rw is (converted _ (ground (arith, e, is)) (vga_puts-Kept str on))
  | inr n1 ↦
      let n2 : (d == 99) ≡ false = ground (arith, e) in
      let n3 : (d == 100) ≡ false = ground (arith, e) in
      let n4 : (d == 117) ≡ false = ground (arith, e) in
      let n5 : (d == 120) ≡ false = ground (arith, e) in
      rw (n1, n2, n3, n4, n5)
        (converted _ (ground (arith, e, n1, n2, n3, n4, n5)) (vga_putchar-Kept d on))
]

convert-fits :
    (d : ℕ) (args r : List Arg) {s : Screen}
    → IsOnScreen s
    → fits_one d args ≡ some r
    → Converts s r (convert d args s)
convert-fits d [] r {s} on e = convert-none d r on e
convert-fits d (text str ∷ args) r on e = convert-text d str args r on e
convert-fits d (word v ∷ args) r on e = convert-word d v args r on e

fitting :
    (d : ℕ) (fmt : List ℕ) (args : List Arg)
    → (elim (fits_one d args) as (λ x. Bool) [ none ↦ false | some r ↦ fits fmt r ]) ≡ true
    → (r : List Arg) × (fits_one d args ≡ some r) × (fits fmt r ≡ true)
fitting d fmt args f = of_option (fits_one d args) f
  where
    of_option :
        (o : Option (List Arg))
        → (elim o as (λ x. Bool) [ none ↦ false | some r ↦ fits fmt r ]) ≡ true
        → (r : List Arg) × (o ≡ some r) × (fits fmt r ≡ true)
    of_option none f = absurd (ground (arith, f))
    of_option (some r) f = (r, refl, f)

pub vga_printf-Kept :
    (fmt : List ℕ) (args : List Arg) (s : Screen)
    → IsOnScreen s
    → fits fmt args ≡ true
    → Ends s (vga_printf fmt args s)
unfolding vga_printf
vga_printf-Kept [] args s on f = (s, refl, Kept-refl on)
vga_printf-Kept (c ∷ []) args s on f = elim (Bool-cases (c == 0)) [
  | inl z ↦ rw z (s, refl, Kept-refl on)
  | inr nz ↦
      let np : (c == 37) ≡ false = ground (arith, f) in
      rw (nz, np) (vga_putchar c s, refl, vga_putchar-Kept c on)
]
vga_printf-Kept (c ∷ d ∷ fmt) args s on f = elim (Bool-cases (c == 0)) [
  | inl z ↦ rw z (s, refl, Kept-refl on)
  | inr nz ↦ rw nz (elim (Bool-cases (c == 37)) [
    | inl p ↦ rw p (
        let nd : (d == 0) ≡ false = ground (arith, f, nz, p) in
        let (r, e, g) = fitting d fmt args (ground (arith, f, nz, p, nd)) in
        let (s', ec, k) = convert-fits d args r on e in
        let (t, et, kt) = vga_printf-Kept fmt r s' k.on g in
        rw nd (t, rw (ec, ◌>>=◌) et, Kept-trans {t = s'} {u = t} k kt))
    | inr np ↦ rw np (
        let first = vga_putchar-Kept c on in
        let (t, et, kt) =
          vga_printf-Kept (d ∷ fmt) args (vga_putchar c s) first.on (ground (arith, f, nz, np)) in
        (t, et, Kept-trans first kt))
  ])
]

-- A sequence of calls is well formed.
abbrev pub all_fit : List Call → Bool
all_fit [] = true
all_fit (puts str ∷ cs) = all_fit cs
all_fit (puts_color str fg bg ∷ cs) = all_fit cs
all_fit (printf fmt args ∷ cs) = fits fmt args && all_fit cs

pub vga_puts_color-Kept :
    (str : Option (List ℕ)) (fg bg : ℕ) {s : Screen}
    → IsOnScreen s
    → Kept s (vga_puts_color str fg bg s)
unfolding vga_puts_color vga_set_color
vga_puts_color-Kept str fg bg {s} on =
    let k = vga_puts-Kept str {s = vga_set_color fg bg s} (record { row = on.row; col = on.col }) in
    record { on = record { row = k.on.row; col = k.on.col }; attr = refl; behind = k.behind }

-- A well-formed sequence of calls ends and keeps the screen.
pub run-Kept : (cs : List Call) (s : Screen) → IsOnScreen s → all_fit cs ≡ true → Ends s (run cs s)
unfolding run
run-Kept [] s on f = (s, refl, Kept-refl on)
run-Kept (puts str ∷ cs) s on f =
    let k = vga_puts-Kept (some str) on in
    let (t, e, kt) = run-Kept cs _ k.on f in (t, e, Kept-trans k kt)
run-Kept (puts_color str fg bg ∷ cs) s on f =
    let k = vga_puts_color-Kept (some str) fg bg on in
    let (t, e, kt) = run-Kept cs _ k.on f in (t, e, Kept-trans k kt)
run-Kept (printf fmt args ∷ cs) s on f =
    let (s', ep, k) = vga_printf-Kept fmt args s on (ground (arith, f)) in
    let (t, e, kt) = run-Kept cs s' k.on (ground (arith, f)) in
    (t, rw (ep, ◌>>=◌) e, Kept-trans k kt)
