-- ===== src/Fs/Empty.antt =====
-- The disk behind `fs_init` of kernel/fs.c.
use seng21213_os_se.Base.{ℕ, ◌<◌, ◌-◌, ◌≡◌, refl, false}
use seng21213_os_se.Bitmap.{bitmap_test}
use seng21213_os_se.Fs.{Fs, data_blocks, max_inodes, max_open_files, fs_init}
use seng21213_os_se.Fs.File.{fs_list_dir, count_entries}
use seng21213_os_se.Fs.Init.{fs_init-IsFs, empty_bitmap}
use seng21213_os_se.Fs.Disk.{is_used}
use seng21213_os_se.Fs.Tree.{entry_inode}

-- There is no file: no entry of the directory names one, no inode and no data block is in use, all
-- of them are counted as free, every byte is zero, and no descriptor is open.
pub record IsEmpty (s : Fs) : Type 0 where
  pub nameless : (k : ℕ) → entry_inode s k ≡ 0
  pub listed : fs_list_dir s ≡ 0
  pub inodes_free : (i : ℕ) → is_used s i ≡ false
  pub blocks_free : (m : ℕ) → m < data_blocks → bitmap_test s.block_bitmap m ≡ false
  pub inode_count : s.superblock.free_inodes ≡ max_inodes - 1
  pub block_count : s.superblock.free_blocks ≡ data_blocks
  pub zeroed : (b i : ℕ) → s.block b i ≡ 0
  pub closed : (fd : ℕ) → fd < max_open_files → (s.open_files fd).valid ≡ false

pub fs_init-IsEmpty : (s : Fs) → IsEmpty (fs_init s)
unfolding fs_init fs_list_dir count_entries
fs_init-IsEmpty s =
    let (v, blocks, fds) = fs_init-IsFs s in
    record {
      nameless = λ k. refl;
      listed = refl;
      inodes_free = λ i. empty_bitmap i;
      blocks_free = blocks;
      inode_count = refl;
      block_count = refl;
      zeroed = λ b i. refl;
      closed = fds;
    }
