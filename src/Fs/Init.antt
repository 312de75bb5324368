-- ===== src/Fs/Init.antt =====
-- `fs_init` in kernel/fs.c.
use seng21213_os_se.Base.{
  ℕ, zero, suc, ◌+◌, ◌%◌, ◌<◌, ◌≡◌, inl, inr, refl, sym, false, ◌&&◌, arith, Bool-cases, leb, ltb,
  update, if◌then◌else◌, ◌==◌,
}
use seng21213_os_se.Bitmap.{bitmap_test}
use seng21213_os_se.Bitmap.Byte.{empty_byte}
use seng21213_os_se.Bitmap.Count.{clear_count_all_clear}
use seng21213_os_se.Fs.{Fs, FileDesc, data_blocks, max_inodes, max_open_files, clear_fds, fs_init}
use seng21213_os_se.Fs.Bitmaps.{IsFs}

clear_fds-valid :
    (n lo : ℕ) (fds : ℕ → FileDesc) (fd : ℕ)
    → (clear_fds n lo fds fd).valid
      ≡ (if leb lo fd && ltb fd (lo + n) then false else (fds fd).valid)
unfolding clear_fds
clear_fds-valid zero lo fds fd = ground arith
clear_fds-valid (suc n) lo fds fd =
    let ih = clear_fds-valid n (lo + 1) (update fds lo (record (fds lo) { valid = false })) fd in
    elim (Bool-cases (lo == fd)) [ inl e ↦ ground (arith, ih) | inr ne ↦ ground (arith, ih) ]

pub empty_bitmap : (i : ℕ) → bitmap_test (λ _. 0) i ≡ false
unfolding bitmap_test
empty_bitmap i = empty_byte (i % 8) (omega arith)

-- `fs_init` leaves a valid state, whatever was on the disk, with every data block and every inode
-- but the reserved one free and no descriptor open.
pub fs_init-IsFs :
    (s : Fs)
    → IsFs (fs_init s)
      × ((i : ℕ) → i < data_blocks → bitmap_test (fs_init s).block_bitmap i ≡ false)
      × ((fd : ℕ) → fd < max_open_files → ((fs_init s).open_files fd).valid ≡ false)
unfolding fs_init
fs_init-IsFs s = (
  record {
    block_bytes = λ i. omega arith;
    inode_bytes = λ i. omega arith;
    blocks_counted = sym (clear_count_all_clear data_blocks (λ _. 0) (λ i lt. empty_bitmap i));
    inodes_counted = sym (clear_count_all_clear max_inodes (λ _. 0) (λ i lt. empty_bitmap i));
    reserved = empty_bitmap 0;
    names = λ i. refl;
  },
  λ i lt. empty_bitmap i,
  λ fd lt. ground (arith, clear_fds-valid max_open_files 0 s.open_files fd),
)
