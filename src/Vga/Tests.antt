-- ===== src/Vga/Tests.antt =====
-- The screen near its last cell, and the printing of a number.
use seng21213_os_se.Base.{
  ℕ, ◌+◌, ◌-◌, ◌*◌, ◌^◌, ◌≤◌, ◌≡◌, refl, true, List, [], ◌∷◌, some, arith, length, inl, Option,
  ◌>>=◌,
}
use seng21213_os_se.Vga.{
  Screen, vga_putchar, put_string, place_char, scroll_if_below, update_hw_cursor, vga_write_cell,
}
use seng21213_os_se.Vga.Cursor.{
  IsOnScreen, screen_size, cursor_at, hw_cursor_at, vga_putchar-IsOnScreen,
}
use seng21213_os_se.Vga.Print.{
  print_uint, digits_loop, print_back, vga_printf, convert, print_int, word,
}
use seng21213_os_se.Vga.Digits.{number, all_digits, print_uint-number}

abbrev corner : Screen
corner = record { cursor_row = 24; cursor_col = 79; cur_attr = 7; cells = λ i. i; ports = [] }

abbrev top_left : Screen
top_left = record corner { cursor_row = 0; cursor_col = 0 }

vga_putchar-IsOnScreen_example :
    IsOnScreen (vga_putchar 65 corner)
    × (hw_cursor_at (vga_putchar 65 corner) ≡ cursor_at (vga_putchar 65 corner))
    × ((a : ℕ) → screen_size ≤ a → (vga_putchar 65 corner).cells a ≡ a)
vga_putchar-IsOnScreen_example =
    vga_putchar-IsOnScreen 65 {s = corner} (record { row = omega arith; col = omega arith })

-- "ok"
abbrev ok_text : List ℕ
ok_text = 111 ∷ 107 ∷ []

print_uint-number_example :
    (ds : List ℕ) × ((s : Screen) → print_uint 2026 10 s ≡ some (put_string ds s))
    × (number 10 0 ds ≡ 2026)
    × (all_digits 10 ds ≡ true)
    × (1 ≤ length ds)
    × (length ds ≤ 32)
print_uint-number_example = print_uint-number 2026 10 (inl refl) (omega arith)

-- vga_printf("%d", -7) draws a minus sign and the digit.
minus_seven : Option (ℕ × ℕ)
minus_seven = do
  s ← vga_printf (37 ∷ 100 ∷ []) (word (2 ^ 32 - 7) ∷ []) top_left
  some (s.cells 0, s.cells 1)

minus_seven_lem : minus_seven ≡ some (7 * 256 + 45, 7 * 256 + 55)
unfolding minus_seven vga_printf convert print_int print_uint digits_loop print_back vga_putchar
    place_char scroll_if_below update_hw_cursor vga_write_cell
minus_seven_lem = refl
