-- ===== src/Vga/Cursor.antt =====
-- kernel/vga.c: the cursor stays on the screen, and what `vga_putchar` draws.
use seng21213_os_se.Base.{
  ℕ, suc, ◌+◌, ◌-◌, ◌*◌, ◌≤◌, ◌<◌, ◌≡◌, refl, ap, ◌∙◌, Bool, true, false, List, [], ◌∷◌, ◌&&◌, ◌||◌,
  not, arith, leb, ltb, ◌==◌, if◌then◌else◌, some, length, get_or, ℤ, Bool-cases, inl, inr,
}
use seng21213_os_se.Vga.{
  Screen, vga_cols, vga_rows, cell_of, scroll_up, place_char, scroll_if_below, vga_putchar,
  put_string, vga_puts, vga_set_cursor,
}
use seng21213_os_se.Vga.Cells.{scroll_up-cells}

pub record IsOnScreen (s : Screen) : Type 0 where
  pub row : s.cursor_row < vga_rows
  pub col : s.cursor_col < vga_cols

-- The value last written to a register of the display controller: the index to port 0x3D4, then the
-- value to port 0x3D5.
abbrev pub register : ℕ → List (ℕ × ℕ) → ℕ
register r [] = 0
register r (w ∷ []) = 0
register r ((p, v) ∷ (q, i) ∷ log) =
    if (p == 0x3D5) && ((q == 0x3D4) && (i == r)) then v else register r log

-- The index of the cell at the cursor, and the one that the hardware cursor stands on.
abbrev pub cursor_at : Screen → ℕ
cursor_at s = s.cursor_row * vga_cols + s.cursor_col

abbrev pub hw_cursor_at : Screen → ℕ
hw_cursor_at s = register 0x0E s.ports * 256 + register 0x0F s.ports

abbrev pub screen_size : ℕ
screen_size = 2000

place_char_bounds :
    (c : ℕ) {s : Screen}
    → IsOnScreen s
    → ((place_char c s).cursor_row ≤ vga_rows)
      × ((place_char c s).cursor_col < vga_cols)
      × ((place_char c s).cur_attr ≡ s.cur_attr)
      × ((a : ℕ) → screen_size ≤ a → (place_char c s).cells a ≡ s.cells a)
unfolding place_char
place_char_bounds c v = (ground arith, ground arith, ground arith, λ a le. ground arith)

scroll_if_below_bounds :
    (s : Screen)
    → s.cursor_row ≤ vga_rows
    → s.cursor_col < vga_cols
    → IsOnScreen (scroll_if_below s)
unfolding scroll_if_below scroll_up
scroll_if_below_bounds s r c = record { row = ground arith; col = ground arith }

pub scroll_if_below-cells :
    (s : Screen) (a : ℕ)
    → (scroll_if_below s).cells a ≡ (
        if leb vga_rows s.cursor_row
        then (if ltb a 1920
            then s.cells (a + vga_cols)
            else if ltb a screen_size
            then cell_of s.cur_attr 32
            else s.cells a)
        else s.cells a)
unfolding scroll_if_below
scroll_if_below-cells s a = elim (Bool-cases (leb vga_rows s.cursor_row)) [
  | inl below ↦ rw below (scroll_up-cells s a)
  | inr above ↦ rw above refl
]

-- From a cursor on the screen, `vga_putchar` of any character leaves the cursor on the screen, with
-- the hardware cursor on the same cell, and writes to no cell behind the screen.
pub vga_putchar-IsOnScreen :
    (c : ℕ) {s : Screen}
    → IsOnScreen s
    → IsOnScreen (vga_putchar c s)
      × (hw_cursor_at (vga_putchar c s) ≡ cursor_at (vga_putchar c s))
      × ((a : ℕ) → screen_size ≤ a → (vga_putchar c s).cells a ≡ s.cells a)
unfolding vga_putchar
vga_putchar-IsOnScreen c {s} v =
    let b = place_char_bounds c v in
    let on = scroll_if_below_bounds (place_char c s) b.0 b.1 in
    (
      record { row = on.row; col = on.col },
      omega arith,
      λ a le. ground (arith, scroll_if_below-cells (place_char c s) a, b.3 a),
    )

-- `vga_set_cursor` puts the cursor on the screen for every pair of `int`s, with the hardware cursor
-- on the same cell.
pub vga_set_cursor-IsOnScreen :
    (row col : ℤ) (s : Screen)
    → IsOnScreen (vga_set_cursor row col s)
      × (hw_cursor_at (vga_set_cursor row col s) ≡ cursor_at (vga_set_cursor row col s))
unfolding vga_set_cursor
vga_set_cursor-IsOnScreen row col s =
    let on : IsOnScreen (vga_set_cursor row col s) = record {
      row = ground arith;
      col = ground arith;
    } in
    (on, ground (arith, on.row, on.col))

-- A character that moves the cursor by one cell.
abbrev pub is_plain : ℕ → Bool
is_plain c = not ((c == 0) || ((c == 8) || ((c == 9) || ((c == 10) || (c == 13)))))

abbrev pub all_plain : List ℕ → Bool
all_plain [] = true
all_plain (c ∷ cs) = is_plain c && all_plain cs

-- A plain character short of the last cell is drawn at the cursor, which moves on by one cell.
vga_putchar-draws :
    (c : ℕ) {s : Screen}
    → IsOnScreen s
    → is_plain c ≡ true
    → cursor_at s + 1 < screen_size
    → (cursor_at (vga_putchar c s) ≡ cursor_at s + 1)
      × ((vga_putchar c s).cur_attr ≡ s.cur_attr)
      × ((a : ℕ)
          → (vga_putchar c s).cells a
            ≡ (if cursor_at s == a then cell_of s.cur_attr c else s.cells a))
unfolding vga_putchar place_char scroll_if_below
vga_putchar-draws c {s} v plain room = (ground arith, ground arith, λ a. ground arith)

get_or-behind : (c : ℕ) (str : List ℕ) (k j : ℕ) → k ≡ suc j → get_or str j 0 ≡ get_or (c ∷ str) k 0
get_or-behind c str k j e = rw e refl

-- One character drawn at `at`, and the rest of the text behind it.
draw_more :
    (c : ℕ) (str : List ℕ) (at next a attr old mid new : ℕ)
    → next ≡ at + 1
    → mid ≡ (if at == a then cell_of attr c else old)
    → new ≡ (
        if leb next a && ltb a (next + length str)
        then cell_of attr (get_or str (a - next) 0)
        else mid)
    → new ≡ (
        if leb at a && ltb a (at + suc (length str))
        then cell_of attr (get_or (c ∷ str) (a - at) 0)
        else old)
draw_more c str at next a attr old mid new e em en =
    let tail : at < a → get_or str (a - next) 0 ≡ get_or (c ∷ str) (a - at) 0 =
      λ lt. get_or-behind c str (a - at) (a - next) (omega arith) in
    let head : at ≡ a → get_or (c ∷ str) (a - at) 0 ≡ c =
      λ e'. (let z : a - at ≡ 0 = omega (arith, e') in ap (λ k. get_or (c ∷ str) k 0) z) in
    ground (arith, tail, head)

-- On a screen where it fits in front of the last cell, `vga_puts` of a text of plain characters
-- draws each of them in the current colours, in order from the cursor on, moves the cursor behind
-- the text, and changes no other cell.
pub vga_puts-text :
    (str : List ℕ) {s : Screen}
    → IsOnScreen s
    → all_plain str ≡ true
    → cursor_at s + length str < screen_size
    → (cursor_at (vga_puts (some str) s) ≡ cursor_at s + length str)
      × ((a : ℕ)
          → (vga_puts (some str) s).cells a ≡ (
              if leb (cursor_at s) a && ltb a (cursor_at s + length str)
              then cell_of s.cur_attr (get_or str (a - cursor_at s) 0)
              else s.cells a))
unfolding vga_puts put_string
vga_puts-text [] v plain room = (omega arith, λ a. ground arith)
vga_puts-text (c ∷ str) {s} v plain room =
    let first : is_plain c ≡ true = ground arith in
    let rest : all_plain str ≡ true = ground arith in
    let fits : cursor_at s + 1 < screen_size = omega arith in
    let d = vga_putchar-draws c v first fits in
    let on = vga_putchar-IsOnScreen c v in
    let ih = vga_puts-text str {s = vga_putchar c s} on.0 rest (omega (arith, d.0)) in
    let nonzero : (c == 0) ≡ false = ground arith in
    rw nonzero (
      omega (arith, d.0, ih.0),
      λ a.
          draw_more c str (cursor_at s) (cursor_at (vga_putchar c s)) a s.cur_attr (s.cells a) _ _
            d.0 (d.2 a)
            (ih.1 a
              ∙ ap
                  (λ attr.
                    if leb (cursor_at (vga_putchar c s)) a
                      && ltb a (cursor_at (vga_putchar c s) + length str)
                    then cell_of attr (get_or str (a - cursor_at (vga_putchar c s)) 0)
                    else (vga_putchar c s).cells a)
                  d.1),
    )
