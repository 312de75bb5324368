-- ===== src/Fs/Create.antt =====
-- `fs_create_file` and the search by name in kernel/fs.c.
use seng21213_os_se.Base.{
  ℕ, zero, suc, ◌+◌, ◌-◌, ◌≤◌, ◌<◌, ◌≡◌, ◌≢◌, ◌⊎◌, inl, inr, refl, ap, true, false, not, ◌||◌,
  arith, length, first, nowhere, find_first-First, Bool-cases, List, [], ◌∷◌, if◌then◌else◌, ◌==◌,
  some, ℤ, pos, minus_one, set, leb, ◌∙◌, length-set,
}
use seng21213_os_se.Strings.{strlen, strncpy, pad}
use seng21213_os_se.Strings.Laws.{chars, strcmp-chars}
use seng21213_os_se.Fs.{
  Fs, max_dir_entries, filename_len, entry_matches, fs_find_inode, fs_find_free_dir_entry,
  fs_alloc_inode, fs_create_file, create_at, write_entry, new_entry, take_inode, max_inodes,
}
use seng21213_os_se.Bitmap.{bitmap_test}
use seng21213_os_se.Fs.Bitmaps.{IsFs, take_inode-IsFs}

chars-zeroes : (n : ℕ) (dest : List ℕ) (k : ℕ) → 1 ≤ n → chars (set (pad n dest) k 0) ≡ []
unfolding pad
chars-zeroes zero dest k h = absurd (omega arith)
chars-zeroes (suc n) [] k h = refl
chars-zeroes (suc n) (d ∷ dest) zero h = refl
chars-zeroes (suc n) (d ∷ dest) (suc k) h = refl

-- A name that is shorter than the limit is stored whole, whatever the buffer held.
chars-strncpy :
    (n : ℕ) (dest src : List ℕ)
    → length dest ≡ n + 1
    → strlen src ≤ n
    → chars (set (strncpy dest src n) n 0) ≡ chars src
unfolding strncpy strlen pad
chars-strncpy zero [] src e h = absurd (omega arith)
chars-strncpy zero (d ∷ dest) [] e h = refl
chars-strncpy zero (d ∷ dest) (c ∷ src) e h = ground arith
chars-strncpy (suc n) [] src e h = absurd (omega arith)
chars-strncpy (suc n) (d ∷ dest) [] e h = refl
chars-strncpy (suc n) (d ∷ dest) (c ∷ src) e h = elim (Bool-cases (c == 0)) [
  | inl z ↦ rw z refl
  | inr nz ↦ rw nz (ground (arith, chars-strncpy n dest src))
]

-- What a search by name finds: a non-zero inode of an entry of that name, or no entry matches.
pub find_inode-cases :
    (filename : List ℕ) (s : Fs)
    → ((i : ℕ) × (i < max_dir_entries)
        × (entry_matches filename (s.directory i) ≡ true)
        × (fs_find_inode filename s ≡ (s.directory i).inode))
      ⊎ (((i : ℕ) → i < max_dir_entries → entry_matches filename (s.directory i) ≡ false)
          × (fs_find_inode filename s ≡ 0))
unfolding fs_find_inode
find_inode-cases filename s =
    elim (find_first-First max_dir_entries 0 max_dir_entries
      (λ i. entry_matches filename (s.directory i)) refl) [
        | first i le lt hit least o ↦ rw o (inl (i, lt, hit, refl))
        | nowhere miss o ↦ rw o (inr (λ i lt. miss i (omega arith) lt, refl))
      ]

-- A name that no entry has is found, once an entry of the directory has been given it, in that
-- entry.
find_inode-write_entry :
    (filename : List ℕ) (d n : ℕ) (s : Fs)
    → d < max_dir_entries
    → n ≢ 0
    → length (s.directory d).name ≡ filename_len
    → strlen filename < filename_len
    → ((i : ℕ) → i < max_dir_entries → entry_matches filename (s.directory i) ≡ false)
    → fs_find_inode filename (write_entry d filename n s) ≡ n
find_inode-write_entry filename d n s lt nz len short miss =
    let same = (strcmp-chars (new_entry filename n (s.directory d)).name filename).1 (
      chars-strncpy 27 (s.directory d).name filename (omega (arith, len)) (omega (arith, short))) in
    elim (find_inode-cases filename (write_entry d filename n s)) [
      | inl f ↦ elim (Bool-cases (d == f.0)) [
        | inl e ↦
            f.3
            ∙ ap (λ b. (if b then new_entry filename n (s.directory d) else s.directory f.0).inode)
                e
        | inr ne ↦ absurd (ground (arith, miss f.0 f.1, f.2, ne))
      ]
      | inr none_left ↦ absurd (ground (arith, none_left.0 d lt, same))
    ]

length-pad : (n : ℕ) (dest : List ℕ) → length (pad n dest) ≡ length dest
unfolding pad
length-pad zero dest = refl
length-pad (suc n) [] = refl
length-pad (suc n) (d ∷ dest) = ap suc (length-pad n dest)

length-strncpy : (n : ℕ) (dest src : List ℕ) → length (strncpy dest src n) ≡ length dest
unfolding strncpy pad
length-strncpy zero dest src = refl
length-strncpy (suc n) [] src = refl
length-strncpy (suc n) (d ∷ dest) [] = ap suc (length-pad n dest)
length-strncpy (suc n) (d ∷ dest) (c ∷ src) = elim (Bool-cases (c == 0)) [
  | inl z ↦ rw z (ap suc (length-pad n dest))
  | inr nz ↦ rw nz (ap suc (length-strncpy n dest src))
]

pub write_entry-IsFs :
    {s : Fs} (d : ℕ) (filename : List ℕ) (n : ℕ) → IsFs s → IsFs (write_entry d filename n s)
write_entry-IsFs {s} d filename n v = record {
  block_bytes = v.block_bytes;
  inode_bytes = v.inode_bytes;
  blocks_counted = v.blocks_counted;
  inodes_counted = v.inodes_counted;
  reserved = v.reserved;
  names = names;
}
  where
    names : (i : ℕ) → length ((write_entry d filename n s).directory i).name ≡ filename_len
    names i = elim (Bool-cases (d == i)) [
      | inl e ↦ rw e (
          length-set (strncpy (s.directory d).name filename 27) 27 0
          ∙ length-strncpy 27 (s.directory d).name filename
          ∙ v.names d)
      | inr ne ↦ rw ne (v.names i)
    ]

-- The outcome of `fs_create_file`: the file did not exist, is found afterwards under the inode that
-- was allocated, and the state stays valid; or it fails and changes nothing.
pub data Created (filename : List ℕ) (s : Fs) (out : ℤ × Fs) : Type 0 where
  created :
      (i : ℕ)
      → 1 ≤ i
      → i < max_inodes
      → bitmap_test s.inode_bitmap i ≡ false
      → fs_find_inode filename s ≡ 0
      → fs_find_inode filename out.1 ≡ i
      → (out.1.inodes i).size ≡ 0
      → IsFs out.1
      → out.0 ≡ pos 0
      → Created filename s out
  refused : out ≡ (minus_one, s) → Created filename s out

create_at-Created :
    {s : Fs} (filename : List ℕ) (d : ℕ)
    → IsFs s
    → d < max_dir_entries
    → strlen filename < filename_len
    → fs_find_inode filename s ≡ 0
    → ((i : ℕ) → i < max_dir_entries → entry_matches filename (s.directory i) ≡ false)
    → Created filename s (create_at (some d) filename s)
unfolding fs_alloc_inode
create_at-Created {s} filename d v lt short absent miss =
    elim (find_first-First (max_inodes - 1) 1 max_inodes (λ i. not (bitmap_test s.inode_bitmap i))
      refl) [
        | first i le below clear least o ↦
            let free : bitmap_test s.inode_bitmap i ≡ false = ground (arith, clear) in
            let nz : (i == 0) ≡ false = ground arith in
            rw (o, nz)
              (created i le below free absent
                (find_inode-write_entry filename d i (take_inode i s) lt (omega arith) (v.names d)
                  short miss)
                (ground arith) (write_entry-IsFs d filename i (take_inode-IsFs i v le below free))
                refl)
        | nowhere taken o ↦ rw o (refused refl)
      ]

-- In a valid state `fs_create_file` either creates a file that did not exist, empty, under an inode
-- that was free, after which the name is found and the state is valid, or it returns -1 and changes
-- nothing.
pub fs_create_file_lem :
    {s : Fs} (filename : List ℕ) → IsFs s → Created filename s (fs_create_file (some filename) s)
unfolding fs_create_file fs_find_free_dir_entry
fs_create_file_lem {s} filename v =
    elim (Bool-cases (strlen filename == 0 || leb filename_len (strlen filename))) [
      | inl bad ↦ rw bad (refused refl)
      | inr good ↦ elim (find_inode-cases filename s) [
        | inl f ↦
            let exists : (fs_find_inode filename s == 0) ≡ false = ground (arith, f.2, f.3) in
            rw (good, exists) (refused refl)
        | inr none_left ↦
            elim (find_first-First max_dir_entries 0 max_dir_entries
              (λ i. (s.directory i).inode == 0) refl) [
                | first d le lt clear least o ↦
                    rw (good, none_left.1, o)
                      (create_at-Created filename d v lt (ground (arith, good)) none_left.1
                        none_left.0)
                | nowhere taken o ↦ rw (good, none_left.1, o) (refused refl)
              ]
      ]
    ]
