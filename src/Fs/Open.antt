-- ===== src/Fs/Open.antt =====
-- `fs_open` in kernel/fs.c on a name that is in the directory or not.
use seng21213_os_se.Base.{
  ℕ, ◌<◌, ◌≡◌, ◌≢◌, ◌⊎◌, inl, inr, refl, sym, ap, ◌∙◌, true, false, not, ◌&&◌, arith, ◌==◌, first,
  nowhere, find_first-First, List, some, ℤ, pos, negsuc, minus_one, update,
}
use seng21213_os_se.Strings.{is_zero}
use seng21213_os_se.Fs.{
  Fs, max_open_files, fs_find_inode, fs_find_free_fd, fs_create_file, fs_open, open_found,
  checked_fd,
}
use seng21213_os_se.Fs.Disk.{is_used}
use seng21213_os_se.Fs.Create.{created, refused, fs_create_file_lem, find_inode-cases}
use seng21213_os_se.Fs.Reads.{fd_inode, fd_offset}
use seng21213_os_se.Fs.Tree.{IsTree, fs_create_file-IsTree}
use seng21213_os_se.Fs.Keeps.{fds-IsTree}

-- Descriptor `d` is now open at the start of inode `i`, and nothing else changes.
pub record Opened (d i : ℕ) (s t : Fs) : Type 0 where
  pub open_fd : checked_fd (pos d) t ≡ some d
  pub at_inode : fd_inode t d ≡ i
  pub at_start : fd_offset t d ≡ 0
  pub inodes : t.inodes ≡ s.inodes
  pub used : t.inode_bitmap ≡ s.inode_bitmap
  pub contents : t.block ≡ s.block
  pub directory : t.directory ≡ s.directory
  pub tree : IsTree s → IsTree t

open_found-Opened :
    (i : ℕ) (s : Fs)
    → i ≢ 0
    → ((open_found i s ≡ (minus_one, s))
        × ((fd : ℕ) → fd < max_open_files → (s.open_files fd).valid ≡ true))
      ⊎ ((d : ℕ) × (t : Fs) × (open_found i s ≡ (pos d, t)) × Opened d i s t)
unfolding fs_find_free_fd
open_found-Opened i s nz =
    let found : (i == 0) ≡ false = ground (arith, nz) in
    elim (find_first-First max_open_files 0 max_open_files (λ fd. not (s.open_files fd).valid)
      refl) [
        | nowhere taken o ↦
            rw (found, o) (inl (refl, λ fd lt. ground (arith, taken fd (omega arith) lt)))
        | first d le lt free least o ↦
            rw (found, o)
              (inr (
                d,
                record s {
                  open_files =
                      update s.open_files d (record { inode = i; offset = 0; valid = true });
                },
                refl,
                record {
                  open_fd = ground (arith, lt);
                  at_inode = ground arith;
                  at_start = ground arith;
                  inodes = refl;
                  used = refl;
                  contents = refl;
                  directory = refl;
                  tree = fds-IsTree _;
                },
              ))
      ]

-- A name is found by the directory alone.
pub find_inode-directory :
    (name : List ℕ) (s t : Fs)
    → t.directory ≡ s.directory
    → fs_find_inode name t ≡ fs_find_inode name s
unfolding fs_find_inode
find_inode-directory name s t e = ap (λ d. fs_find_inode name (record s { directory = d })) e

-- The inode that a name is found under is in use.
pub find_inode-used :
    {s : Fs} (name : List ℕ)
    → IsTree s
    → fs_find_inode name s ≢ 0
    → is_used s (fs_find_inode name s) ≡ true
find_inode-used {s} name v nz = elim (find_inode-cases name s) [
  | inl f ↦ rw f.3 (v.entries f.0 f.1 (λ z. nz (f.3 ∙ z)))
  | inr none_left ↦ absurd (nz none_left.1)
]

-- A name in the directory is opened if a descriptor is free.
pub fs_open-old :
    (name : List ℕ) (fd : ℕ) (s : Fs)
    → fs_find_inode name s ≢ 0
    → fd < max_open_files
    → (s.open_files fd).valid ≡ false
    → (d : ℕ) × (t : Fs) × (fs_open (some name) false s ≡ (pos d, t))
      × Opened d (fs_find_inode name s) s t
unfolding fs_open
fs_open-old name fd s nz lt free =
    let found : ((fs_find_inode name s == 0) && false) ≡ false = ground arith in
    elim (open_found-Opened (fs_find_inode name s) s nz) [
      | inl full ↦ absurd (ground (arith, full.1 fd lt, free))
      | inr o ↦ rw found o
    ]

-- The outcome of opening a name that is not in the directory, with the flag: it fails, or the file
-- is created, empty, and a descriptor is open at its start.
pub data OpenedNew (name : List ℕ) (out : ℤ × Fs) : Type 0 where
  failed : (n : ℕ) (t : Fs) → out ≡ (negsuc n, t) → OpenedNew name out
  opened :
      (d i : ℕ) (t : Fs)
      → out ≡ (pos d, t)
      → checked_fd (pos d) t ≡ some d
      → fd_inode t d ≡ i
      → fd_offset t d ≡ 0
      → i ≢ 0
      → fs_find_inode name t ≡ i
      → is_used t i ≡ true
      → (t.inodes i).size ≡ 0
      → IsTree t
      → OpenedNew name out

pub fs_open-new :
    {s : Fs} (name : List ℕ)
    → IsTree s
    → fs_find_inode name s ≡ 0
    → OpenedNew name (fs_open (some name) true s)
unfolding fs_open
fs_open-new {s} name v absent =
    let wanted : ((fs_find_inode name s == 0) && true) ≡ true = ground (arith, absent) in
    elim (fs_create_file_lem name v.disk.fs) [
      | refused e ↦ rw (wanted, e) (failed 0 _ refl)
      | created i low small free gone found empty fs e ↦
          let made = (fs_create_file (some name) s).1 in
          let ok : is_zero (fs_create_file (some name) s).0 ≡ true = rw e refl in
          let tree : IsTree made = fs_create_file-IsTree name v in
          let nz : i ≢ 0 = omega arith in
          elim (open_found-Opened i made nz) [
            | inl full ↦ rw (wanted, ok, found, full.0) (failed 0 _ refl)
            | inr o ↦
                let (d, t, is, w) = o in
                let found' : fs_find_inode name t ≡ i =
                  find_inode-directory name made t w.directory ∙ found in
                rw (wanted, ok, found, is)
                  (opened d i t refl w.open_fd w.at_inode w.at_start nz found'
                    (sym (ap (is_used t) found')
                      ∙ find_inode-used name (w.tree tree) (λ z. nz (sym found' ∙ z)))
                    (ap (λ n. (n i).size) w.inodes ∙ empty) (w.tree tree))
          ]
    ]
