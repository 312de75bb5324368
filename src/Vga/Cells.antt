-- ===== src/Vga/Cells.antt =====
-- The loops over the frame buffer in kernel/vga.c, cell by cell.
use seng21213_os_se.Base.{
  ℕ, zero, suc, ◌+◌, ◌*◌, ◌≤◌, ◌≡◌, ap, ◌&&◌, arith, leb, ltb, if◌then◌else◌, update,
}
use seng21213_os_se.Vga.{vga_cols, copy_row, copy_rows, fill_cells, cell_of, scroll_up, Screen}

pub fill_cells_lem :
    (n i v : ℕ) (vga : ℕ → ℕ) (a : ℕ)
    → fill_cells n i v vga a ≡ (if leb i a && ltb a (i + n) then v else vga a)
unfolding fill_cells
fill_cells_lem zero i v vga a = ground arith
fill_cells_lem (suc n) i v vga a = ground (arith, fill_cells_lem n (i + 1) v (update vga i v) a)

copy_row_lem :
    (n r c : ℕ) (vga : ℕ → ℕ) (a : ℕ)
    → c + n ≤ vga_cols
    → copy_row n r c vga a ≡ (
        if leb (r * vga_cols + c) a && ltb a (r * vga_cols + c + n)
        then vga (a + vga_cols)
        else vga a)
unfolding copy_row
copy_row_lem zero r c vga a h = ground arith
copy_row_lem (suc n) r c vga a h =
    let here = r * vga_cols + c in
    let below : (r + 1) * vga_cols + c ≡ here + vga_cols = omega arith in
    let ih = copy_row_lem n r (c + 1) (update vga here (vga ((r + 1) * vga_cols + c))) a in
    let row : here ≡ a → vga ((r + 1) * vga_cols + c) ≡ vga (a + vga_cols) =
      λ e. ap vga (omega arith) in
    ground (arith, ih, row)

copy_rows_lem :
    (n r : ℕ) (vga : ℕ → ℕ) (a : ℕ)
    → copy_rows n r vga a
      ≡ (if leb (r * vga_cols) a && ltb a ((r + n) * vga_cols) then vga (a + vga_cols) else vga a)
unfolding copy_rows
copy_rows_lem zero r vga a = ground arith
copy_rows_lem (suc n) r vga a = ground (
  arith,
  copy_rows_lem n (r + 1) (copy_row vga_cols r 0 vga) a,
  copy_row_lem vga_cols r 0 vga a,
  copy_row_lem vga_cols r 0 vga (a + vga_cols),
)

-- Scrolling moves every row up, blanks the last one, and touches nothing behind the screen.
pub scroll_up-cells :
    (s : Screen) (a : ℕ)
    → (scroll_up s).cells a ≡ (
        if ltb a 1920
        then s.cells (a + vga_cols)
        else if ltb a 2000
        then cell_of s.cur_attr 32
        else s.cells a)
unfolding scroll_up
scroll_up-cells s a =
    let moved = copy_rows_lem 24 0 s.cells a in
    ground (arith, fill_cells_lem 80 1920 (cell_of s.cur_attr 32) (copy_rows 24 0 s.cells) a, moved)
