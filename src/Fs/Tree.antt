-- ===== src/Fs/Tree.antt =====
-- The directory and the inodes of kernel/fs.c: `fs_init` and `fs_create_file`.
use seng21213_os_se.Base.{
  ℕ, ◌-◌, ◌≤◌, ◌<◌, ◌≡◌, ◌≢◌, ◌⊎◌, inl, inr, refl, sym, ap, ◌∙◌, true, false, not, ◌||◌, arith,
  Bool-cases, if◌then◌else◌, ◌==◌, first, nowhere, find_first-First, List, some, pos, minus_one,
  leb,
}
use seng21213_os_se.Bitmap.{bitmap_test}
use seng21213_os_se.Bitmap.Laws.{bitmap_test-set}
use seng21213_os_se.Strings.{strlen}
use seng21213_os_se.Fs.{
  Fs, max_dir_entries, max_inodes, filename_len, fs_init, fs_find_inode, fs_find_free_dir_entry,
  fs_alloc_inode, fs_create_file, write_entry, take_inode,
}
use seng21213_os_se.Fs.Init.{fs_init-IsFs}
use seng21213_os_se.Fs.Bitmaps.{take_inode-IsFs}
use seng21213_os_se.Fs.Create.{write_entry-IsFs}
use seng21213_os_se.Fs.Disk.{block_of, is_used, IsDisk}

abbrev pub entry_inode : Fs → ℕ → ℕ
entry_inode s k = (s.directory k).inode

-- The files do not share blocks, each entry of the directory names an inode in use, and no two of
-- them name the same.
pub record IsTree (s : Fs) : Type 0 where
  pub disk : IsDisk s
  pub entries :
      (k : ℕ) → k < max_dir_entries → entry_inode s k ≢ 0 → is_used s (entry_inode s k) ≡ true
  pub small : (k : ℕ) → k < max_dir_entries → entry_inode s k ≢ 0 → entry_inode s k < max_inodes
  pub unique :
      (k k' : ℕ)
      → k < max_dir_entries
      → k' < max_dir_entries
      → entry_inode s k ≢ 0
      → entry_inode s k ≡ entry_inode s k'
      → k ≡ k'

pub fs_init-IsTree : (s : Fs) → IsTree (fs_init s)
unfolding fs_init
fs_init-IsTree s = record {
  disk = record {
    fs = (fs_init-IsFs s).0;
    mapped = λ i j u l nz. absurd (nz refl);
    apart = λ i j i' j' u u' l l' nz e. absurd (nz refl);
  };
  entries = λ k lt nz. absurd (nz refl);
  small = λ k lt nz. absurd (nz refl);
  unique = λ k k' lt lt' nz e. absurd (nz refl);
}

-- Either `fs_create_file` changes nothing, or it takes a free inode and a free entry.
create_file-cases :
    (filename : List ℕ) (s : Fs)
    → (fs_create_file (some filename) s ≡ (minus_one, s))
      ⊎ ((i : ℕ) × (d : ℕ) × (1 ≤ i)
          × (i < max_inodes)
          × (is_used s i ≡ false)
          × (d < max_dir_entries)
          × (entry_inode s d ≡ 0)
          × (fs_create_file (some filename) s ≡ (pos 0, write_entry d filename i (take_inode i s))))
unfolding fs_create_file fs_find_free_dir_entry fs_alloc_inode
create_file-cases filename s =
    elim (Bool-cases (strlen filename == 0 || leb filename_len (strlen filename))) [
      | inl bad ↦ rw bad (inl refl)
      | inr good ↦ elim (Bool-cases (fs_find_inode filename s == 0)) [
        | inr exists ↦ rw (good, exists) (inl refl)
        | inl absent ↦
            elim (find_first-First max_dir_entries 0 max_dir_entries
              (λ i. (s.directory i).inode == 0) refl) [
                | nowhere taken o ↦ rw (good, absent, o) (inl refl)
                | first d le lt empty least o ↦
                    elim (find_first-First (max_inodes - 1) 1 max_inodes
                      (λ i. not (bitmap_test s.inode_bitmap i)) refl) [
                        | nowhere taken o' ↦ rw (good, absent, o, o') (inl refl)
                        | first i pos_i below clear least' o' ↦
                            let nz : (i == 0) ≡ false = ground arith in
                            rw (good, absent, o, o', nz)
                              (inr (
                                i,
                                d,
                                pos_i,
                                below,
                                ground (arith, clear),
                                lt,
                                ground (arith, empty),
                                refl,
                              ))
                      ]
              ]
      ]
    ]

module _ {s : Fs} (v : IsTree s) (filename : List ℕ) {i d : ℕ} (low : 1 ≤ i)
    (small : i < max_inodes) (free : is_used s i ≡ false) (lt : d < max_dir_entries)
    (empty : entry_inode s d ≡ 0) where
  abbrev made : Fs
  made = write_entry d filename i (take_inode i s)

  used-made : (k : ℕ) → is_used made k ≡ (if i == k then true else is_used s k)
  used-made k = bitmap_test-set s.inode_bitmap i k v.disk.fs.inode_bytes

  block-made : (k j : ℕ) → block_of made k j ≡ (if i == k then 0 else block_of s k j)
  block-made k j = ground arith

  entry-made : (k : ℕ) → entry_inode made k ≡ (if d == k then i else entry_inode s k)
  entry-made k = ground arith

  -- A block that an inode has afterwards is one that it had.
  old :
      (k j : ℕ)
      → block_of made k j ≢ 0
      → is_used made k ≡ true
      → (block_of made k j ≡ block_of s k j) × (is_used s k ≡ true)
  old k j nz u =
      let other : (i == k) ≡ false = ground (arith, block-made k j, nz) in
      (ground (arith, block-made k j, other), ground (arith, used-made k, u, other))

  -- No entry names the inode that was free.
  taken : (k : ℕ) → k < max_dir_entries → i ≡ entry_inode s k → ⊥
  taken k l same =
      let was = v.entries k l (λ z. ground (arith, z, same)) in
      ground (arith, ap (is_used s) same, was, free)

  made-IsTree : IsTree made
  made-IsTree = record {
    disk = record {
      fs = write_entry-IsFs d filename i (take_inode-IsFs i v.disk.fs low small free);
      mapped = λ k j u l nz.
          let o = old k j nz u in rw o.0 (v.disk.mapped k j o.1 l (λ z. nz (o.0 ∙ z)));
      apart = λ k j k' j' u u' l l' nz e.
          let o = old k j nz u in
          let o' = old k' j' (λ z. nz (e ∙ z)) u' in
          v.disk.apart k j k' j' o.1 o'.1 l l' (λ z. nz (o.0 ∙ z)) (sym o.0 ∙ e ∙ o'.0);
    };
    entries = λ k l nz. elim (Bool-cases (d == k)) [
      | inl new ↦
          let same : entry_inode made k ≡ i = ground (arith, entry-made k, new) in
          rw same (ground (arith, used-made i))
      | inr kept ↦
          let same : entry_inode made k ≡ entry_inode s k = ground (arith, entry-made k, kept) in
          let was = v.entries k l (λ z. nz (same ∙ z)) in
          rw same (ground (arith, used-made (entry_inode s k), was))
    ];
    small = λ k l nz.
        (let was : entry_inode s k ≢ 0 → entry_inode s k < max_inodes = v.small k l in
          ground (arith, entry-made k, was, small));
    unique = λ k k' l l' nz e. elim (Bool-cases (d == k)) [
      | inl new ↦ elim (Bool-cases (d == k')) [
        | inl new' ↦ ground (arith, new, new')
        | inr kept' ↦
            let same : i ≡ entry_inode s k' =
              ground (arith, entry-made k, entry-made k', new, kept', e) in
            absurd (taken k' l' same)
      ]
      | inr kept ↦ elim (Bool-cases (d == k')) [
        | inl new' ↦
            let same : i ≡ entry_inode s k =
              ground (arith, entry-made k, entry-made k', new', kept, e) in
            absurd (taken k l same)
        | inr kept' ↦
            v.unique k k' l l' (ground (arith, entry-made k, kept, nz))
              (ground (arith, entry-made k, entry-made k', kept, kept', e))
      ]
    ];
  }

-- `fs_create_file` keeps the files apart and the entries of the directory in order, whether it
-- creates the file or refuses.
pub fs_create_file-IsTree :
    {s : Fs} (filename : List ℕ) → IsTree s → IsTree (fs_create_file (some filename) s).1
fs_create_file-IsTree {s} filename v = elim (create_file-cases filename s) [
  | inl same ↦ rw same v
  | inr (i, d, low, small, free, lt, empty, made) ↦
      rw made (made-IsTree v filename low small free lt empty)
]
