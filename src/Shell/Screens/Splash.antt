-- ===== src/Shell/Screens/Splash.antt =====
-- `print_splash` of kernel/kernel.c.
use seng21213_os_se.Base.{
  ℕ, zero, suc, ◌+◌, ◌-◌, ◌*◌, ◌≤◌, ◌<◌, ◌≡◌, refl, ◌∙◌, List, [], ◌∷◌, Option, some, ℤ, pos, arith,
}
use seng21213_os_se.Vga.{
  Screen, vga_attr, vga_clear, vga_set_cursor, vga_set_color, vga_puts_color, vga_write_cell,
  update_hw_cursor, vga_rows, vga_cols, cell_of,
}
use seng21213_os_se.Vga.Cells.{fill_cells_lem}
use seng21213_os_se.Vga.Color.{
  vga_black, vga_light_green, vga_light_cyan, vga_light_magenta, vga_light_grey, vga_dark_grey,
  vga_yellow,
}
use seng21213_os_se.Vga.Print.{vga_draw_box, draw_edges, draw_sides}
use seng21213_os_se.Vga.Output.{
  Call, puts, puts_color, run, run-Kept, vga_puts_color-Kept, vga_puts_color-Kept,
}
use seng21213_os_se.Vga.Cursor.{IsOnScreen, screen_size, vga_set_cursor-IsOnScreen}
use seng21213_os_se.Vga.Text.{bytes}

-- A line in the box.
unfoldable banner : ℕ → List ℕ → ℕ → Screen → Screen
banner row text color s =
    vga_puts_color (some text) color vga_black (vga_set_cursor (pos row) (pos 2) s)

-- What stands below the box.
unfoldable pub welcome : List Call
welcome =
    puts (bytes "  Welcome! This kernel was compiled from source and booted entirely\n")
    ∷ puts (bytes "  from bare metal. There is no Linux or Windows underneath – only\n")
    ∷ puts (bytes "  the code you and your team write.\n")
    ∷ puts (bytes "\n")
    ∷ puts (bytes "  Assignment milestones:\n")
    ∷ puts_color (bytes "    [L09] ") vga_light_green vga_black
    ∷ puts (bytes "Process Management  – DONE\n")
    ∷ puts_color (bytes "    [L10] ") vga_light_green vga_black
    ∷ puts (bytes "Threads & Sync      – DONE\n")
    ∷ puts_color (bytes "    [L11] ") vga_light_green vga_black
    ∷ puts (bytes "Memory Management   – DONE (physical page allocator)\n")
    ∷ puts_color (bytes "    [L12] ") vga_light_green vga_black
    ∷ puts (bytes "File System         – DONE (RAM disk file system)\n")
    ∷ puts (bytes "\n")
    ∷ []

-- The banner, with its five lines of text.
unfoldable pub boxed : Screen → Screen
unfolding banner
boxed s =
    let s0 = vga_draw_box 0 0 7 80 vga_light_magenta (vga_clear vga_black s) in
    let s1 =
      banner 1 (bytes "  SENG21213-OS  |  Computer Architecture & Operating Systems") vga_yellow
        s0 in
    let s2 = banner 2 (bytes "  Stage 4: RAM Disk File System") vga_light_cyan s1 in
    let s3 =
      banner 3 (bytes "  Faculty of Science - Software Engineering Teaching Unit") vga_light_grey
        s2 in
    let s4 =
      banner 4 (bytes "  Built by students, for students.  Type 'help' to begin.") vga_light_green
        s3 in
    banner 5 (bytes "  CPU: i686 (32-bit Protected Mode)  |  Display: VGA 80x25") vga_dark_grey s4

unfoldable pub print_splash : Screen → Option Screen
unfolding boxed
print_splash s =
    run welcome (vga_set_color vga_light_grey vga_black (vga_set_cursor (pos 8) (pos 0) (boxed s)))

-- What the calls of the splash need of the screen, and keep of it: the cells behind the screen.
abbrev Behind : Screen → Screen → Type 0
Behind s s' = (a : ℕ) → screen_size ≤ a → s'.cells a ≡ s.cells a

vga_clear-Behind : (bg : ℕ) (s : Screen) → Behind s (vga_clear bg s)
unfolding vga_clear update_hw_cursor
vga_clear-Behind bg s a le =
    ground (arith, fill_cells_lem (vga_rows * vga_cols) 0 (cell_of (vga_attr 7 bg) 32) s.cells a)

vga_set_cursor-Behind : (row col : ℤ) (s : Screen) → Behind s (vga_set_cursor row col s)
unfolding vga_set_cursor update_hw_cursor
vga_set_cursor-Behind row col s a le = refl

draw_edges-Behind :
    (n top bottom c : ℕ) (s : Screen)
    → top < 25
    → bottom < 25
    → c + n ≤ 80
    → Behind s (draw_edges n top bottom c s)
unfolding draw_edges vga_write_cell
draw_edges-Behind zero top bottom c s t b le a out = refl
draw_edges-Behind (suc n) top bottom c s t b le a out =
    let t0 = vga_write_cell bottom c 0xCD s.cur_attr (vga_write_cell top c 0xCD s.cur_attr s) in
    draw_edges-Behind n top bottom (c + 1) t0 t b (omega arith) a out ∙ ground arith

draw_sides-Behind :
    (n left right r : ℕ) (s : Screen)
    → left < 80
    → right < 80
    → r + n ≤ 25
    → Behind s (draw_sides n left right r s)
unfolding draw_sides vga_write_cell
draw_sides-Behind zero left right r s t b le a out = refl
draw_sides-Behind (suc n) left right r s t b le a out =
    let t0 = vga_write_cell r right 0xBA s.cur_attr (vga_write_cell r left 0xBA s.cur_attr s) in
    draw_sides-Behind n left right (r + 1) t0 t b (omega arith) a out ∙ ground arith

-- A box on the screen leaves what lies behind it.
vga_draw_box-Behind :
    (row col height width color : ℕ) (s : Screen)
    → 0 < height
    → 0 < width
    → row + height ≤ 25
    → col + width ≤ 80
    → Behind s (vga_draw_box row col height width color s)
unfolding vga_draw_box vga_write_cell vga_set_color
vga_draw_box-Behind row col height width color s h w rows cols a out =
    let bottom = row + height - 1 in
    let right = col + width - 1 in
    let s0 = vga_set_color color 0 s in
    let s1 = vga_write_cell row col 0xC9 s0.cur_attr s0 in
    let s2 = vga_write_cell row right 0xBB s0.cur_attr s1 in
    let s3 = vga_write_cell bottom col 0xC8 s0.cur_attr s2 in
    let s4 = vga_write_cell bottom right 0xBC s0.cur_attr s3 in
    let s5 = draw_edges (right - (col + 1)) row bottom (col + 1) s4 in
    let corners : s4.cells a ≡ s.cells a = ground arith in
    draw_sides-Behind (bottom - (row + 1)) col right (row + 1) s5 (omega arith) (omega arith)
      (omega arith) a out
    ∙ (draw_edges-Behind (right - (col + 1)) row bottom (col + 1) s4 (omega arith) (omega arith)
          (omega arith) a out
        ∙ corners)

-- A line of text at a place on the screen.
banner-Kept :
    (row : ℕ) (text : List ℕ) (color : ℕ) (s : Screen)
    → IsOnScreen (banner row text color s) × Behind s (banner row text color s)
unfolding banner
banner-Kept row text color s =
    let at = vga_set_cursor-IsOnScreen (pos row) (pos 2) s in
    let k = vga_puts_color-Kept (some text) color vga_black at.0 in
    (k.on, λ a le. k.behind a le ∙ vga_set_cursor-Behind (pos row) (pos 2) s a le)

boxed-Behind : (s : Screen) → Behind s (boxed s)
unfolding boxed
boxed-Behind s a le =
    (banner-Kept 5 _ vga_dark_grey _).1 a le
    ∙ ((banner-Kept 4 _ vga_light_green _).1 a le
        ∙ ((banner-Kept 3 _ vga_light_grey _).1 a le
            ∙ ((banner-Kept 2 _ vga_light_cyan _).1 a le
                ∙ ((banner-Kept 1 _ vga_yellow _).1 a le
                    ∙ (vga_draw_box-Behind 0 0 7 80 vga_light_magenta (vga_clear vga_black s)
                          (omega arith) (omega arith) (omega arith) (omega arith) a le
                        ∙ vga_clear-Behind vga_black s a le)))))

-- On every screen the splash is printed without a fault. It leaves the cursor on the screen, the
-- colours light grey on black, and what lies behind the screen as it was.
pub print_splash_lem :
    (s : Screen)
    → (s' : Screen) × (print_splash s ≡ some s')
      × IsOnScreen s'
      × (s'.cur_attr ≡ vga_attr vga_light_grey vga_black)
      × ((a : ℕ) → screen_size ≤ a → s'.cells a ≡ s.cells a)
unfolding print_splash vga_set_color welcome
print_splash_lem s =
    let at = vga_set_cursor-IsOnScreen (pos 8) (pos 0) (boxed s) in
    let grey = vga_set_color vga_light_grey vga_black (vga_set_cursor (pos 8) (pos 0) (boxed s)) in
    let (t, e, k) = run-Kept welcome grey (record { row = at.0.row; col = at.0.col }) refl in
    (
      t,
      e,
      k.on,
      k.attr,
      λ a le.
          k.behind a le
          ∙ (vga_set_cursor-Behind (pos 8) (pos 0) (boxed s) a le ∙ boxed-Behind s a le),
    )
