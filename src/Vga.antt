-- ===== src/Vga.antt =====
-- kernel/vga.c: the text screen. `cells` is the frame buffer from 0xB8000 on, by the index of each
-- 16-bit cell; `ports` is the log of the port writes, the newest first. A character is a byte, and
-- a string is the list of the bytes from its pointer on, with NUL behind it.
pub mod Cells
pub mod Cursor
pub mod Print
pub mod Digits
pub mod Output
pub mod Color
pub mod Text
mod Tests
use seng21213_os_se.Base.{
  ℕ, zero, suc, ◌+◌, ◌-◌, ◌*◌, ◌/◌, ◌%◌, ◌^◌, Bool, List, [], ◌∷◌, Option, none, some, ◌==◌, ltb,
  leb, if◌then◌else◌, update, ℤ, pos, negsuc,
}

abbrev pub vga_cols : ℕ
vga_cols = 80

abbrev pub vga_rows : ℕ
vga_rows = 25

pub record Screen : Type 0 where
  pub cursor_row : ℕ
  pub cursor_col : ℕ
  pub cur_attr : ℕ
  pub cells : ℕ → ℕ
  pub ports : List (ℕ × ℕ)

-- `VGA_ATTR`: the colours are 0 to 15.
abbrev pub vga_attr : ℕ → ℕ → ℕ
vga_attr fg bg = (bg * 16 + fg) % 256

-- `(uint16_t)((attr << 8) | c)`, whose halves share no bit.
abbrev pub cell_of : ℕ → ℕ → ℕ
cell_of attr c = attr * 256 + c

unfoldable pub update_hw_cursor : Screen → Screen
update_hw_cursor s =
    let at = (s.cursor_row * vga_cols + s.cursor_col) % 2 ^ 16 in
    record s {
      ports = (0x3D5, at / 256) ∷ (0x3D4, 0x0E) ∷ (0x3D5, at % 256) ∷ (0x3D4, 0x0F) ∷ s.ports;
    }

unfoldable pub vga_write_cell : ℕ → ℕ → ℕ → ℕ → Screen → Screen
vga_write_cell row col c attr s = record s {
  cells = update s.cells (row * vga_cols + col) (cell_of attr c);
}

-- `n` rounds of the inner loop of `scroll_up` in row `r`, from column `c` on.
unfoldable pub copy_row : ℕ → ℕ → ℕ → (ℕ → ℕ) → ℕ → ℕ
copy_row zero r c vga = vga
copy_row (suc n) r c vga =
    copy_row n r (c + 1) (update vga (r * vga_cols + c) (vga ((r + 1) * vga_cols + c)))

-- `n` rounds of the outer loop, from row `r` on.
unfoldable pub copy_rows : ℕ → ℕ → (ℕ → ℕ) → ℕ → ℕ
copy_rows zero r vga = vga
copy_rows (suc n) r vga = copy_rows n (r + 1) (copy_row vga_cols r 0 vga)

-- `n` rounds of a loop that stores `v` from index `i` on.
unfoldable pub fill_cells : ℕ → ℕ → ℕ → (ℕ → ℕ) → ℕ → ℕ
fill_cells zero i v vga = vga
fill_cells (suc n) i v vga = fill_cells n (i + 1) v (update vga i v)

unfoldable pub scroll_up : Screen → Screen
scroll_up s = record s {
  cells =
      fill_cells vga_cols ((vga_rows - 1) * vga_cols) (cell_of s.cur_attr 32)
        (copy_rows (vga_rows - 1) 0 s.cells);
  cursor_row = vga_rows - 1;
}

unfoldable pub vga_clear : ℕ → Screen → Screen
vga_clear bg s =
    let attr = vga_attr 7 bg in
    update_hw_cursor (record s {
      cur_attr = attr;
      cells = fill_cells (vga_rows * vga_cols) 0 (cell_of attr 32) s.cells;
      cursor_row = 0;
      cursor_col = 0;
    })

unfoldable pub vga_init : Screen → Screen
vga_init s = vga_clear 0 (record s { cur_attr = vga_attr 7 0; cursor_row = 0; cursor_col = 0 })

unfoldable pub vga_set_color : ℕ → ℕ → Screen → Screen
vga_set_color fg bg s = record s { cur_attr = vga_attr fg bg }

-- `if (cursor_col >= VGA_COLS) { cursor_col = 0; cursor_row++; }`
abbrev pub wrap_line : Screen → Screen
wrap_line s =
    if leb vga_cols s.cursor_col
    then record s { cursor_col = 0; cursor_row = s.cursor_row + 1 }
    else s

-- The branches of `vga_putchar`: newline, carriage return, tab, backspace, any other character.
unfoldable pub place_char : ℕ → Screen → Screen
unfolding vga_write_cell
place_char c s =
    if c == 10
    then record s { cursor_col = 0; cursor_row = s.cursor_row + 1 }
    else if c == 13
    then record s { cursor_col = 0 }
    else if c == 9
    then wrap_line (record s { cursor_col = (s.cursor_col + 8) / 8 * 8 })
    else if c == 8
    then (let back = if ltb 0 s.cursor_col then s.cursor_col - 1 else s.cursor_col in
        vga_write_cell s.cursor_row back 32 s.cur_attr (record s { cursor_col = back }))
    else wrap_line (record (vga_write_cell s.cursor_row s.cursor_col c s.cur_attr s) {
      cursor_col = s.cursor_col + 1;
    })

unfoldable pub scroll_if_below : Screen → Screen
scroll_if_below s = if leb vga_rows s.cursor_row then scroll_up s else s

unfoldable pub vga_putchar : ℕ → Screen → Screen
unfolding update_hw_cursor
vga_putchar c s = update_hw_cursor (scroll_if_below (place_char c s))

-- The loop of `vga_puts`, up to the NUL.
unfoldable pub put_string : List ℕ → Screen → Screen
put_string [] s = s
put_string (c ∷ str) s = let rest = put_string str (vga_putchar c s) in if c == 0 then s else rest

-- A NULL pointer is `none`.
unfoldable pub vga_puts : Option (List ℕ) → Screen → Screen
vga_puts none s = s
vga_puts (some str) s = put_string str s

unfoldable pub vga_puts_color : Option (List ℕ) → ℕ → ℕ → Screen → Screen
vga_puts_color str fg bg s = record (vga_puts str (vga_set_color fg bg s)) { cur_attr = s.cur_attr }

-- An `int`, cut to 0 and `limit - 1`.
abbrev pub clamp : ℤ → ℕ → ℕ
clamp (negsuc n) limit = 0
clamp (pos n) limit = if leb limit n then limit - 1 else n

unfoldable pub vga_set_cursor : ℤ → ℤ → Screen → Screen
unfolding update_hw_cursor
vga_set_cursor row col s =
    update_hw_cursor (record s { cursor_row = clamp row vga_rows; cursor_col = clamp col vga_cols })
