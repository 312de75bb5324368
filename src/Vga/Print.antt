-- ===== src/Vga/Print.antt =====
-- kernel/vga.c: numbers, formats and boxes.
use seng21213_os_se.Base.{
  ℕ, zero, suc, ◌+◌, ◌-◌, ◌/◌, ◌%◌, ◌^◌, List, [], ◌∷◌, Option, none, some, ◌>>=◌, ◌==◌, ltb, leb,
  if◌then◌else◌, update,
}
use seng21213_os_se.Vga.{Screen, vga_putchar, vga_puts, vga_set_color, vga_write_cell}

abbrev pub digit_char : ℕ → ℕ
digit_char r = if ltb r 10 then 48 + r else 97 + r - 10

-- The first loop of `print_uint`: the characters written and the buffer. A write behind the 32
-- bytes of the buffer is a fault.
unfoldable pub digits_loop : ℕ → ℕ → ℕ → ℕ → (ℕ → ℕ) → Option (ℕ × (ℕ → ℕ))
digits_loop zero n base i buf = none
digits_loop (suc fuel) n base i buf =
    let rest = digits_loop fuel (n / base) base (i + 1) (update buf i (digit_char (n % base))) in
    if n == 0 then some (i, buf) else if leb 32 i then none else rest

-- The second loop: the buffer backwards.
unfoldable pub print_back : ℕ → (ℕ → ℕ) → Screen → Screen
print_back zero buf s = s
print_back (suc i) buf s = print_back i buf (vga_putchar (buf i) s)

unfoldable pub print_uint : ℕ → ℕ → Screen → Option Screen
print_uint n base s =
    if n == 0
    then some (vga_putchar 48 s)
    else do (i, buf) ← digits_loop 33 n base 0 (λ _. 0); some (print_back i buf s)

-- An argument of `vga_printf`: a pointer to a string, or 32 bits.
pub data Arg : Type 0 where
  text : Option (List ℕ) → Arg
  word : ℕ → Arg

-- `%d`: the sign of an `int`, and its absolute value.
unfoldable pub print_int : ℕ → Screen → Option Screen
print_int v s =
    if leb (2 ^ 31) v then print_uint (2 ^ 32 - v) 10 (vga_putchar 45 s) else print_uint v 10 s

-- The `switch` on the character behind `%`, with the arguments that are left. A missing argument,
-- or one of another kind, is undefined in C and is a fault here.
unfoldable pub convert : ℕ → List Arg → Screen → Option (List Arg × Screen)
convert c [] s =
    if (c == 115)
    then none
    else if (c == 99)
    then none
    else if (c == 100)
    then none
    else if (c == 117)
    then none
    else if (c == 120)
    then none
    else some ([], vga_putchar c s)
convert c (text str ∷ args) s =
    if (c == 115)
    then some (args, vga_puts str s)
    else if (c == 99)
    then none
    else if (c == 100)
    then none
    else if (c == 117)
    then none
    else if (c == 120)
    then none
    else some (text str ∷ args, vga_putchar c s)
convert c (word v ∷ args) s =
    if (c == 115)
    then none
    else if (c == 99)
    then some (args, vga_putchar (v % 256) s)
    else if (c == 100)
    then (do s' ← print_int v s; some (args, s'))
    else if (c == 117)
    then (do s' ← print_uint v 10 s; some (args, s'))
    else if (c == 120)
    then (do s' ← print_uint v 16 s; some (args, s'))
    else some (word v ∷ args, vga_putchar c s)

-- A `%` at the end of the format makes the loop read behind the NUL: a fault.
unfoldable pub vga_printf : List ℕ → List Arg → Screen → Option Screen
vga_printf [] args s = some s
vga_printf (c ∷ []) args s =
    if c == 0 then some s else if c == 37 then none else some (vga_putchar c s)
vga_printf (c ∷ d ∷ fmt) args s =
    let plain = vga_printf (d ∷ fmt) args (vga_putchar c s) in
    let rest : List Arg × Screen → Option Screen = λ r. vga_printf fmt r.0 r.1 in
    if c == 0
    then some s
    else if c == 37
    then (if d == 0 then none else convert d args s >>= rest)
    else plain

-- `n` rounds of the loops that draw the edges, from column `c` or row `r` on.
unfoldable pub draw_edges : ℕ → ℕ → ℕ → ℕ → Screen → Screen
draw_edges zero top bottom c s = s
draw_edges (suc n) top bottom c s =
    draw_edges n top bottom (c + 1)
      (vga_write_cell bottom c 0xCD s.cur_attr (vga_write_cell top c 0xCD s.cur_attr s))

unfoldable pub draw_sides : ℕ → ℕ → ℕ → ℕ → Screen → Screen
draw_sides zero left right r s = s
draw_sides (suc n) left right r s =
    draw_sides n left right (r + 1)
      (vga_write_cell r right 0xBA s.cur_attr (vga_write_cell r left 0xBA s.cur_attr s))

-- For a box with `0 < height` and `0 < width`, at a place that is not negative.
unfoldable pub vga_draw_box : ℕ → ℕ → ℕ → ℕ → ℕ → Screen → Screen
vga_draw_box row col height width color s =
    let bottom = row + height - 1 in
    let right = col + width - 1 in
    let s0 = vga_set_color color 0 s in
    let s1 = vga_write_cell row col 0xC9 s0.cur_attr s0 in
    let s2 = vga_write_cell row right 0xBB s0.cur_attr s1 in
    let s3 = vga_write_cell bottom col 0xC8 s0.cur_attr s2 in
    let s4 = vga_write_cell bottom right 0xBC s0.cur_attr s3 in
    let s5 = draw_edges (right - (col + 1)) row bottom (col + 1) s4 in
    record (draw_sides (bottom - (row + 1)) col right (row + 1) s5) { cur_attr = s.cur_attr }
