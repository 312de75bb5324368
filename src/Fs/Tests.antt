-- ===== src/Fs/Tests.antt =====
-- The file system after `fs_init`, and a file of three bytes with an open descriptor.
use seng21213_os_se.Base.{
  ℕ, find_first, ap, sym, ◌≢◌, minus_one, ◌∙◌, ◌+◌, ◌<◌, ◌≡◌, ◌⊎◌, refl, true, false, List, [], ◌∷◌,
  arith, some, pos, update, ◌==◌, if◌then◌else◌,
}
use seng21213_os_se.Bitmap.{bitmap_test, test_bit, bitmap_set, set_bit}
use seng21213_os_se.Strings.{strlen, strcmp, strncpy}
use seng21213_os_se.Fs.{
  Fs, fs_init, fs_create_file, fs_open, clear_fds, checked_fd, fs_find_inode, fs_find_free_fd,
  fs_find_free_dir_entry, fs_alloc_inode, empty_inode,
}
use seng21213_os_se.Fs.File.{fs_read, fs_write, fs_unlink}
use seng21213_os_se.Fs.Init.{fs_init-IsFs}
use seng21213_os_se.Fs.Bitmaps.{IsFs}
use seng21213_os_se.Fs.Create.{Created, fs_create_file_lem}
use seng21213_os_se.Fs.Disk.{is_used}
use seng21213_os_se.Fs.Writes.{Writes}
use seng21213_os_se.Fs.WriteLoop.{fs_write_lem}
use seng21213_os_se.Fs.WriteRead.{fs_read-fs_write}
use seng21213_os_se.Fs.Tree.{IsTree}
use seng21213_os_se.Fs.Unlink.{Removed, fs_unlink_lem}
use seng21213_os_se.Fs.Run.{Reach, start, later, open_file, Reach-IsTree}
use seng21213_os_se.Fs.Reads.{Reads, readable, fd_inode, fd_offset, fs_read_lem}

abbrev garbage : Fs
garbage = record {
  superblock = record {
    magic = 1;
    total = 2;
    inode_count = 3;
    data_count = 4;
    free_blocks = 5;
    free_inodes = 6;
  };
  directory = λ i. record { name = []; inode = i };
  block_bitmap = λ _. 7;
  inode_bitmap = λ _. 255;
  inodes = λ _. record { size = 9; blocks = λ i. i };
  block = λ b i. b;
  open_files = λ i. record { inode = i; offset = i; valid = true };
}

abbrev fresh : Fs
fresh = fs_init garbage

-- "a.c"
abbrev file_name : List ℕ
file_name = 97 ∷ 46 ∷ 99 ∷ 0 ∷ []

-- Descriptor 2 is open on inode 1, which has three bytes in block 40.
abbrev with_file : Fs
with_file = record garbage {
  inodes = update (λ _. empty_inode) 1 (record { size = 3; blocks = update (λ _. 0) 0 40 });
  block = λ b i. if b == 40 then 65 + i else 0;
  open_files =
      update (λ _. record { inode = 0; offset = 0; valid = false }) 2
        (record { inode = 1; offset = 1; valid = true });
}

fresh-IsFs : IsFs fresh
fresh-IsFs = (fs_init-IsFs garbage).0

fs_create_file_lem_example : Created file_name fresh (fs_create_file (some file_name) fresh)
fs_create_file_lem_example = fs_create_file_lem file_name fresh-IsFs

fs_read_lem_example :
    (r : ℕ × (ℕ → ℕ) × Fs) × (fs_read (pos 2) (some (λ _. 0)) 10 with_file
      ≡ some (pos r.0, some r.1, r.2))
    × Reads 2
        (fd_inode with_file 2)
        (readable (fd_offset with_file 2) (with_file.inodes (fd_inode with_file 2)).size 10)
        0
        (fd_offset with_file 2)
        (λ _. 0)
        with_file
        r
fs_read_lem_example = fs_read_lem (pos 2) 2 10 (λ _. 0) with_file refl (omega arith)

-- The file is created and opened as descriptor 0, and then opened again as descriptor 1.
abbrev opened : Fs
opened = (fs_open (some file_name) false (fs_open (some file_name) true fresh).1).1

opened-Reach : Reach opened
opened-Reach =
    later (later (start garbage) (open_file (some file_name) true))
      (open_file (some file_name) false)

opened-IsTree : IsTree opened
opened-IsTree = Reach-IsTree opened-Reach

-- Both descriptors stand at the start of the new file.
opened_fds :
    (checked_fd (pos 0) opened ≡ some 0)
    × (checked_fd (pos 1) opened ≡ some 1)
    × (fd_inode opened 0 ≡ 1)
    × (fd_inode opened 1 ≡ 1)
    × (fd_offset opened 0 ≡ 0)
    × (fd_offset opened 1 ≡ 0)
    × (is_used opened 1 ≡ true)
unfolding fs_open fs_init fs_create_file fs_find_inode fs_find_free_fd fs_find_free_dir_entry
    fs_alloc_inode find_first strlen bitmap_test test_bit strcmp strncpy clear_fds bitmap_set
    set_bit
opened_fds = (refl, refl, refl, refl, refl, refl, refl)

opened-used : is_used opened (fd_inode opened 0) ≡ true
opened-used = ap (is_used opened) opened_fds.2 ∙ opened_fds.6

abbrev letters : ℕ → ℕ
letters a = 65 + a

fs_write_lem_example :
    (r : ℕ × Fs) × (fs_write (pos 0) (some letters) 600 opened ≡ some (pos r.0, r.1))
    × Writes 0 (fd_inode opened 0) 600 0 (fd_offset opened 0) letters opened r
fs_write_lem_example =
    fs_write_lem (pos 0) 0 600 letters opened opened_fds.0 (omega arith) opened-IsTree.disk
      opened-used

fs_read-fs_write_example :
    (n : ℕ) × (t : Fs) × (b : ℕ → ℕ) × (u : Fs) × (fs_write (pos 0) (some letters) 600 opened
      ≡ some (pos n, t))
    × (fs_read (pos 1) (some (λ _. 0)) n t ≡ some (pos n, some b, u))
    × ((a : ℕ) → a < n → b a ≡ letters a)
fs_read-fs_write_example =
    fs_read-fs_write (pos 0) (pos 1) 0 1 600 letters (λ _. 0) opened opened_fds.0 opened_fds.1 refl
      (opened_fds.3 ∙ sym opened_fds.2) (opened_fds.5 ∙ sym opened_fds.4)
      (omega (arith, opened_fds.4)) (omega arith) opened-IsTree.disk opened-used

fs_unlink_lem_example :
    ((fs_find_inode file_name opened ≡ 0)
      × (fs_unlink (some file_name) opened ≡ (minus_one, opened)))
    ⊎ ((fs_find_inode file_name opened ≢ 0)
        × ((fs_unlink (some file_name) opened).0 ≡ pos 0)
        × Removed (fs_find_inode file_name opened) opened (fs_unlink (some file_name) opened).1)
fs_unlink_lem_example = fs_unlink_lem file_name opened-IsTree

Reach-IsTree_example : IsTree opened
Reach-IsTree_example = Reach-IsTree opened-Reach
