-- ===== src/Fs.antt =====
-- kernel/fs.c: the file system on the RAM disk. The disk is read by its parts (fs.h): the
-- superblock, the directory, the two bitmaps, the inodes and the data blocks by block number. Here:
-- the state, the helpers that allocate and search, and the operations on names and descriptors.
pub mod File
pub mod Bitmaps
pub mod Init
pub mod Empty
pub mod Create
pub mod Reads
pub mod Disk
pub mod Chunk
pub mod Writes
pub mod WriteLoop
pub mod WriteRead
pub mod Tree
pub mod Frees
pub mod Unlink
pub mod Keeps
pub mod Open
pub mod Run
pub mod Listing
mod Tests
use seng21213_os_se.Base.{
  ℕ, zero, suc, ◌+◌, ◌-◌, Bool, true, false, not, ◌&&◌, ◌||◌, List, Option, none, some, ◌==◌, ltb,
  leb, if◌then◌else◌, update, add32, sub32, find_first, Ptr, ℤ, pos, negsuc, minus_one, set,
  replicate,
}
use seng21213_os_se.Bitmap.{Bitmap, bitmap_test, bitmap_set, bitmap_clear}
use seng21213_os_se.Strings.{strlen, strcmp, strncpy, is_zero}

abbrev pub data_start_block : ℕ
data_start_block = 36

abbrev pub data_blocks : ℕ
data_blocks = 220

abbrev pub total_blocks : ℕ
total_blocks = 256

abbrev pub block_size : ℕ
block_size = 4096

abbrev pub max_inodes : ℕ
max_inodes = 1024

abbrev pub direct_blocks : ℕ
direct_blocks = 8

abbrev pub max_dir_entries : ℕ
max_dir_entries = 128

abbrev pub filename_len : ℕ
filename_len = 28

abbrev pub max_open_files : ℕ
max_open_files = 16

-- `superblock_t`.
pub record Superblock : Type 0 where
  pub magic : ℕ
  pub total : ℕ
  pub inode_count : ℕ
  pub data_count : ℕ
  pub free_blocks : ℕ
  pub free_inodes : ℕ

-- `inode_t`, without its padding.
pub record Inode : Type 0 where
  pub size : ℕ
  pub blocks : ℕ → ℕ

-- `dir_entry_t`.
pub record DirEntry : Type 0 where
  pub name : List ℕ
  pub inode : ℕ

-- `file_desc_t`.
pub record FileDesc : Type 0 where
  pub inode : ℕ
  pub offset : ℕ
  pub valid : Bool

pub record Fs : Type 0 where
  pub superblock : Superblock
  pub directory : ℕ → DirEntry
  pub block_bitmap : Bitmap
  pub inode_bitmap : Bitmap
  pub inodes : ℕ → Inode
  pub block : ℕ → ℕ → ℕ
  pub open_files : ℕ → FileDesc

abbrev pub empty_inode : Inode
empty_inode = record { size = 0; blocks = λ _. 0 }

-- The states in which `fs_alloc_block` and `fs_free_block` leave the disk.
abbrev pub take_block : ℕ → Fs → Fs
take_block i s = record s {
  block_bitmap = bitmap_set s.block_bitmap i;
  superblock = record (s.superblock) { free_blocks = sub32 s.superblock.free_blocks 1 };
}

abbrev pub give_block : ℕ → Fs → Fs
give_block i s = record s {
  block_bitmap = bitmap_clear s.block_bitmap i;
  superblock = record (s.superblock) { free_blocks = add32 s.superblock.free_blocks 1 };
}

abbrev pub after_block_search : Fs → Ptr → ℕ × Fs
after_block_search s none = (0, s)
after_block_search s (some i) = (data_start_block + i, take_block i s)

unfoldable pub fs_alloc_block : Fs → ℕ × Fs
fs_alloc_block s =
    after_block_search s (find_first data_blocks 0 (λ i. not (bitmap_test s.block_bitmap i)))

unfoldable pub fs_free_block : ℕ → Fs → Fs
fs_free_block block_num s =
    if ltb block_num data_start_block || leb total_blocks block_num
    then s
    else if bitmap_test s.block_bitmap (block_num - data_start_block)
    then give_block (block_num - data_start_block) s
    else s

abbrev pub take_inode : ℕ → Fs → Fs
take_inode i s = record s {
  inode_bitmap = bitmap_set s.inode_bitmap i;
  superblock = record (s.superblock) { free_inodes = sub32 s.superblock.free_inodes 1 };
  inodes = update s.inodes i empty_inode;
}

abbrev pub after_inode_search : Fs → Ptr → ℕ × Fs
after_inode_search s none = (0, s)
after_inode_search s (some i) = (i, take_inode i s)

-- Inode 0 is reserved.
unfoldable pub fs_alloc_inode : Fs → ℕ × Fs
fs_alloc_inode s =
    after_inode_search s (find_first (max_inodes - 1) 1 (λ i. not (bitmap_test s.inode_bitmap i)))

unfoldable pub fs_free_inode : ℕ → Fs → Fs
fs_free_inode inode_num s =
    if inode_num == 0 || leb max_inodes inode_num
    then s
    else if bitmap_test s.inode_bitmap inode_num
    then record s {
      inode_bitmap = bitmap_clear s.inode_bitmap inode_num;
      superblock = record (s.superblock) { free_inodes = add32 s.superblock.free_inodes 1 };
    }
    else s

-- `dir[i].inode != 0 && strcmp(dir[i].name, filename) == 0`
abbrev pub entry_matches : List ℕ → DirEntry → Bool
entry_matches filename e = not (e.inode == 0) && is_zero (strcmp e.name filename)

abbrev pub inode_at : Fs → Ptr → ℕ
inode_at s none = 0
inode_at s (some i) = (s.directory i).inode

unfoldable pub fs_find_inode : List ℕ → Fs → ℕ
fs_find_inode filename s =
    inode_at s (find_first max_dir_entries 0 (λ i. entry_matches filename (s.directory i)))

-- The index of a free entry; `none` is the -1 of the source.
unfoldable pub fs_find_free_dir_entry : Fs → Ptr
fs_find_free_dir_entry s = find_first max_dir_entries 0 (λ i. (s.directory i).inode == 0)

unfoldable pub fs_find_free_fd : Fs → Ptr
fs_find_free_fd s = find_first max_open_files 0 (λ i. not (s.open_files i).valid)

-- `for (i = lo; i < lo + n; i++) open_files[i].valid = 0;`
unfoldable pub clear_fds : ℕ → ℕ → (ℕ → FileDesc) → ℕ → FileDesc
clear_fds zero lo fds = fds
clear_fds (suc n) lo fds = clear_fds n (lo + 1) (update fds lo (record (fds lo) { valid = false }))

-- Its two messages are printed by `kernel_main`.
unfoldable pub fs_init : Fs → Fs
fs_init s = record {
  superblock = record {
    magic = 0x53454E47;
    total = total_blocks;
    inode_count = 32;
    data_count = data_blocks;
    free_blocks = data_blocks;
    free_inodes = max_inodes - 1;
  };
  directory = λ _. record { name = replicate filename_len 0; inode = 0 };
  block_bitmap = λ _. 0;
  inode_bitmap = λ _. 0;
  inodes = λ _. empty_inode;
  block = λ _ _. 0;
  open_files = clear_fds max_open_files 0 s.open_files;
}

-- The directory entry that `fs_create_file` writes over an old one.
abbrev pub new_entry : List ℕ → ℕ → DirEntry → DirEntry
new_entry filename inode_num old = record {
  name = set (strncpy old.name filename (filename_len - 1)) (filename_len - 1) 0;
  inode = inode_num;
}

abbrev pub write_entry : ℕ → List ℕ → ℕ → Fs → Fs
write_entry dir_idx filename inode_num s = record s {
  directory = update s.directory dir_idx (new_entry filename inode_num (s.directory dir_idx));
}

-- The rest of `fs_create_file` once the search for a directory entry is done.
abbrev pub create_at : Ptr → List ℕ → Fs → ℤ × Fs
create_at none filename s = (minus_one, s)
create_at (some dir_idx) filename s =
    let a = fs_alloc_inode s in
    if a.0 == 0 then (minus_one, a.1) else (pos 0, write_entry dir_idx filename a.0 a.1)

-- A NULL pointer is `none`.
unfoldable pub fs_create_file : Option (List ℕ) → Fs → ℤ × Fs
fs_create_file none s = (minus_one, s)
fs_create_file (some filename) s =
    if strlen filename == 0 || leb filename_len (strlen filename)
    then (minus_one, s)
    else if not (fs_find_inode filename s == 0)
    then (minus_one, s)
    else create_at (fs_find_free_dir_entry s) filename s

abbrev pub open_at : Ptr → ℕ → Fs → ℤ × Fs
open_at none inode_num s = (minus_one, s)
open_at (some fd) inode_num s = (
  pos fd,
  record s {
    open_files = update s.open_files fd (record { inode = inode_num; offset = 0; valid = true });
  },
)

-- From `if (inode_num == 0)` on, after the file may have been created.
abbrev pub open_found : ℕ → Fs → ℤ × Fs
open_found inode_num s =
    if inode_num == 0 then (minus_one, s) else open_at (fs_find_free_fd s) inode_num s

unfoldable pub fs_open : Option (List ℕ) → Bool → Fs → ℤ × Fs
fs_open none create s = (minus_one, s)
fs_open (some filename) create s =
    let inode_num = fs_find_inode filename s in
    let made = fs_create_file (some filename) s in
    if (inode_num == 0) && create
    then (if not (is_zero made.0)
        then (minus_one, made.1)
        else open_found (fs_find_inode filename made.1) made.1)
    else open_found inode_num s

-- The descriptor that passes `fd >= 0 && fd < FS_MAX_OPEN_FILES && open_files[fd].valid`.
abbrev pub checked_fd : ℤ → Fs → Ptr
checked_fd (negsuc n) s = none
checked_fd (pos fd) s = if ltb fd max_open_files && (s.open_files fd).valid then some fd else none

abbrev pub close_at : Ptr → Fs → ℤ × Fs
close_at none s = (minus_one, s)
close_at (some fd) s = (
  pos 0,
  record s { open_files = update s.open_files fd (record (s.open_files fd) { valid = false }) },
)

unfoldable pub fs_close : ℤ → Fs → ℤ × Fs
fs_close fd s = close_at (checked_fd fd s) s
