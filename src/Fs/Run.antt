-- ===== src/Fs/Run.antt =====
-- Runs of the file system of kernel/fs.c: any sequence of calls of its interface after `fs_init`.
use seng21213_os_se.Base.{
  ℕ, ◌≡◌, inl, inr, Bool, ◌&&◌, Bool-cases, ◌==◌, List, Option, none, some, ℤ,
}
use seng21213_os_se.Strings.{is_zero}
use seng21213_os_se.Fs.{
  Fs, fs_init, fs_find_inode, fs_find_free_fd, fs_create_file, fs_open, fs_close, checked_fd,
  open_found,
}
use seng21213_os_se.Fs.File.{fs_read, fs_write, fs_unlink}
use seng21213_os_se.Fs.Tree.{IsTree, fs_init-IsTree, fs_create_file-IsTree}
use seng21213_os_se.Fs.Unlink.{fs_unlink_lem}
use seng21213_os_se.Fs.Keeps.{write-IsTree, read-IsTree, fds-IsTree, Option-cases}

-- A call of the interface, and the state it leaves when it returns.
pub data Step (s : Fs) : Fs → Type 0 where
  create_file : (filename : Option (List ℕ)) → Step s (fs_create_file filename s).1
  open_file : (filename : Option (List ℕ)) (flag : Bool) → Step s (fs_open filename flag s).1
  close_file : (fd : ℤ) → Step s (fs_close fd s).1
  read_file :
      (fd : ℤ) (buffer : Option (ℕ → ℕ)) (count : ℕ) (r : ℤ × Option (ℕ → ℕ) × Fs)
      → fs_read fd buffer count s ≡ some r
      → Step s r.2
  write_file :
      (fd : ℤ) (buffer : Option (ℕ → ℕ)) (count : ℕ) (r : ℤ × Fs)
      → fs_write fd buffer count s ≡ some r
      → Step s r.1
  unlink_file : (filename : Option (List ℕ)) → Step s (fs_unlink filename s).1

pub data Reach : Fs → Type 0 where
  start : (s : Fs) → Reach (fs_init s)
  later : {s t : Fs} → Reach s → Step s t → Reach t

open_found-IsTree : (i : ℕ) (s : Fs) → IsTree s → IsTree (open_found i s).1
open_found-IsTree i s v = elim (Bool-cases (i == 0)) [
  | inl none_found ↦ rw none_found v
  | inr found ↦ elim (Option-cases (fs_find_free_fd s)) [
    | inl full ↦ rw (found, full) v
    | inr (fd, free) ↦ rw (found, free) (fds-IsTree _ v)
  ]
]

open-IsTree :
    (filename : Option (List ℕ)) (flag : Bool) (s : Fs)
    → IsTree s
    → IsTree (fs_open filename flag s).1
unfolding fs_open
open-IsTree none flag s v = v
open-IsTree (some filename) flag s v =
    let made = fs_create_file (some filename) s in
    let made_tree = fs_create_file-IsTree filename v in
    elim (Bool-cases ((fs_find_inode filename s == 0) && flag)) [
      | inr as_is ↦ rw as_is (open_found-IsTree (fs_find_inode filename s) s v)
      | inl wanted ↦ elim (Bool-cases (is_zero made.0)) [
        | inr refused ↦ rw (wanted, refused) made_tree
        | inl made_it ↦
            rw (wanted, made_it)
              (open_found-IsTree (fs_find_inode filename made.1) made.1 made_tree)
      ]
    ]

close-IsTree : (fd : ℤ) (s : Fs) → IsTree s → IsTree (fs_close fd s).1
unfolding fs_close
close-IsTree fd s v = elim (Option-cases (checked_fd fd s)) [
  | inl bad ↦ rw (bad, fs_close) v
  | inr (d, ok) ↦ rw (ok, fs_close) (fds-IsTree _ v)
]

create-IsTree :
    (filename : Option (List ℕ)) (s : Fs) → IsTree s → IsTree (fs_create_file filename s).1
unfolding fs_create_file
create-IsTree none s v = v
create-IsTree (some filename) s v = fs_create_file-IsTree filename v

unlink-IsTree : (filename : Option (List ℕ)) (s : Fs) → IsTree s → IsTree (fs_unlink filename s).1
unfolding fs_unlink
unlink-IsTree none s v = v
unlink-IsTree (some filename) s v = elim (fs_unlink_lem filename v) [
  | inl (absent, same) ↦ rw same v
  | inr gone ↦ gone.2.tree
]

-- After `fs_init`, whatever calls are made of the file system and in whatever order, those on
-- descriptors of files that were removed included, the state stays in order: the bitmaps count
-- right, no two files share a block, each block of a file is marked as used, each entry of the
-- directory names an inode in use and no two entries the same.
pub Reach-IsTree : {s : Fs} → Reach s → IsTree s
Reach-IsTree (start s) = fs_init-IsTree s
Reach-IsTree (later r (create_file f)) = create-IsTree f _ (Reach-IsTree r)
Reach-IsTree (later r (open_file f flag)) = open-IsTree f flag _ (Reach-IsTree r)
Reach-IsTree (later r (close_file fd)) = close-IsTree fd _ (Reach-IsTree r)
Reach-IsTree (later r (read_file fd b n x e)) = read-IsTree fd b n _ x (Reach-IsTree r) e
Reach-IsTree (later r (write_file fd b n x e)) = write-IsTree fd b n _ x (Reach-IsTree r) e
Reach-IsTree (later r (unlink_file f)) = unlink-IsTree f _ (Reach-IsTree r)
