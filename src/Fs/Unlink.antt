-- ===== src/Fs/Unlink.antt =====
-- `fs_unlink` in kernel/fs.c.
use seng21213_os_se.Base.{
  ℕ, ◌-◌, ◌<◌, ◌≡◌, ◌≢◌, ◌⊎◌, inl, inr, refl, sym, ap, ◌∙◌, true, false, ◌||◌, arith, Bool-cases,
  if◌then◌else◌, ◌==◌, first, nowhere, find_first-First, List, some, pos, minus_one, add32, leb,
  length-set,
}
use seng21213_os_se.Bitmap.{bitmap_test, bitmap_clear}
use seng21213_os_se.Bitmap.Laws.{bitmap_test-clear, bitmap_clear-IsBytes}
use seng21213_os_se.Bitmap.Count.{clear_count-le, clear_count-clear}
use seng21213_os_se.Fs.{
  Fs, data_start_block, direct_blocks, max_dir_entries, max_inodes, fs_find_inode, fs_free_inode,
}
use seng21213_os_se.Fs.File.{free_blocks_from, remove_entry, remove_at, fs_unlink}
use seng21213_os_se.Fs.Bitmaps.{IsFs}
use seng21213_os_se.Fs.Create.{find_inode-cases}
use seng21213_os_se.Fs.Disk.{block_of, is_used, IsDisk}
use seng21213_os_se.Fs.Frees.{Frees, free_blocks_from-Frees}
use seng21213_os_se.Fs.Tree.{IsTree, entry_inode}

-- `fs_free_inode` on an inode in use.
abbrev give_inode : ℕ → Fs → Fs
give_inode i s = record s {
  inode_bitmap = bitmap_clear s.inode_bitmap i;
  superblock = record (s.superblock) { free_inodes = add32 s.superblock.free_inodes 1 };
}

fs_free_inode-give :
    (i : ℕ) (s : Fs)
    → i ≢ 0
    → i < max_inodes
    → is_used s i ≡ true
    → fs_free_inode i s ≡ give_inode i s
unfolding fs_free_inode
fs_free_inode-give i s nz lt used =
    let ok : ((i == 0) || leb max_inodes i) ≡ false = ground arith in rw (ok, used) refl

give_inode-IsFs :
    {s : Fs} (i : ℕ) → IsFs s → i ≢ 0 → i < max_inodes → is_used s i ≡ true → IsFs (give_inode i s)
give_inode-IsFs {s} i v nz lt used =
    let more = clear_count-clear max_inodes s.inode_bitmap i v.inode_bytes lt used in
    let bound = clear_count-le max_inodes (bitmap_clear s.inode_bitmap i) in
    record {
      block_bytes = v.block_bytes;
      inode_bytes = bitmap_clear-IsBytes s.inode_bitmap i v.inode_bytes;
      blocks_counted = v.blocks_counted;
      inodes_counted = omega (arith, more, bound, v.inodes_counted);
      reserved = ground (arith, bitmap_test-clear s.inode_bitmap i 0 v.inode_bytes, v.reserved);
      names = v.names;
    }

-- The file of inode `i` is gone from `s`: its inode and its blocks are free, no entry names it, and
-- the other entries, the inodes, the contents of the blocks and the descriptors are as they were.
pub record Removed (i : ℕ) (s t : Fs) : Type 0 where
  pub tree : IsTree t
  pub inode_free : is_used t i ≡ false
  pub blocks_free :
      (j : ℕ)
      → j < direct_blocks
      → block_of s i j ≢ 0
      → bitmap_test t.block_bitmap (block_of s i j - data_start_block) ≡ false
  pub unnamed : (k : ℕ) → k < max_dir_entries → entry_inode t k ≢ i
  pub others_used : (i' : ℕ) → i ≢ i' → is_used t i' ≡ is_used s i'
  pub inodes : t.inodes ≡ s.inodes
  pub contents : t.block ≡ s.block
  pub descriptors : t.open_files ≡ s.open_files
  pub other_entries : (k : ℕ) → entry_inode s k ≢ i → t.directory k ≡ s.directory k

module _ {s t : Fs} {i k : ℕ} (v : IsTree s) (f : Frees 0 direct_blocks (s.inodes i) s t)
    (nz : i ≢ 0) (lt : k < max_dir_entries) (names_it : entry_inode s k ≡ i) where
  abbrev gone : Fs
  gone = remove_at (some k) (give_inode i t)

  in_use : is_used s i ≡ true
  in_use = ap (is_used s) (sym names_it) ∙ v.entries k lt (λ z. nz (sym names_it ∙ z))

  in_range : i < max_inodes
  in_range = omega (arith, v.small k lt (λ z. nz (sym names_it ∙ z)), names_it)

  used-gone : (i' : ℕ) → is_used gone i' ≡ (if i == i' then false else is_used s i')
  used-gone i' =
      let bytes = f.fs.inode_bytes in
      bitmap_test-clear t.inode_bitmap i i' bytes
      ∙ ap (λ b. if i == i' then false else bitmap_test b i') f.inode_bitmap

  block-gone : (i' j : ℕ) → block_of gone i' j ≡ block_of s i' j
  block-gone i' j = ap (λ n. (n i').blocks j) f.inodes

  entry-gone : (k' : ℕ) → entry_inode gone k' ≡ (if k == k' then 0 else entry_inode s k')
  entry-gone k' = elim (Bool-cases (k == k')) [
    | inl here ↦ ground (arith, here)
    | inr other ↦ ground (arith, other, ap (λ d. (d k').inode) f.directory)
  ]

  used-before : (i' : ℕ) → is_used gone i' ≡ true → (i ≢ i') × (is_used s i' ≡ true)
  used-before i' u = (λ e. ground (arith, e, used-gone i', u), ground (arith, used-gone i', u))

  entry-before :
      (k' : ℕ) → entry_inode gone k' ≢ 0 → (k ≢ k') × (entry_inode gone k' ≡ entry_inode s k')
  entry-before k' ne =
      (λ e. ground (arith, e, entry-gone k', ne), ground (arith, entry-gone k', ne))

  not_it : (k' : ℕ) → k' < max_dir_entries → entry_inode gone k' ≢ 0 → entry_inode s k' ≢ i
  not_it k' l ne e =
      (entry-before k' ne).0 (v.unique k k' lt l (λ z. nz (sym names_it ∙ z)) (names_it ∙ sym e))

  gone-IsFs : IsFs gone
  gone-IsFs =
      let g =
        give_inode-IsFs i f.fs nz in_range (ap (λ b. bitmap_test b i) f.inode_bitmap ∙ in_use) in
      record {
        block_bytes = g.block_bytes;
        inode_bytes = g.inode_bytes;
        blocks_counted = g.blocks_counted;
        inodes_counted = g.inodes_counted;
        reserved = g.reserved;
        names = λ k'. elim (Bool-cases (k == k')) [
          | inl here ↦ rw here (length-set (t.directory k).name 0 0 ∙ g.names k)
          | inr other ↦ rw other (g.names k')
        ];
      }

  gone-IsDisk : IsDisk gone
  gone-IsDisk = record {
    fs = gone-IsFs;
    mapped = λ i' j u l ne.
        let o = used-before i' u in
        let was : block_of s i' j ≢ 0 = λ z. ne (block-gone i' j ∙ z) in
        let m = v.disk.mapped i' j o.1 l was in
        let bit = f.kept (block_of s i' j - data_start_block) (omega (arith, m.0, m.1)) (λ j' a b e.
          o.0
            (v.disk.apart i j' i' j in_use o.1 b l (omega (arith, e, m.0))
              (omega (arith, e, m.0))).0) in
        rw (block-gone i' j) (m.0, m.1, bit ∙ m.2);
    apart = λ i1 j1 i2 j2 u1 u2 l1 l2 ne e.
        v.disk.apart i1 j1 i2 j2 (used-before i1 u1).1 (used-before i2 u2).1 l1 l2
          (λ z. ne (block-gone i1 j1 ∙ z)) (sym (block-gone i1 j1) ∙ e ∙ block-gone i2 j2);
  }

  gone-IsTree : IsTree gone
  gone-IsTree = record {
    disk = gone-IsDisk;
    entries = λ k' l ne.
        let o = entry-before k' ne in
        let was = v.entries k' l (λ z. ne (o.1 ∙ z)) in
        let other : (i == entry_inode s k') ≡ false = ground (arith, not_it k' l ne) in
        rw o.1 (ground (arith, used-gone (entry_inode s k'), was, other));
    small = λ k' l ne.
        let o = entry-before k' ne in omega (arith, o.1, v.small k' l (λ z. ne (o.1 ∙ z)));
    unique = λ k1 k2 l1 l2 ne e.
        let o1 = entry-before k1 ne in
        let o2 = entry-before k2 (λ z. ne (e ∙ z)) in
        v.unique k1 k2 l1 l2 (λ z. ne (o1.1 ∙ z)) (sym o1.1 ∙ e ∙ o2.1);
  }

  gone-Removed : Removed i s gone
  gone-Removed = record {
    tree = gone-IsTree;
    inode_free = ground (arith, used-gone i);
    blocks_free = λ j l ne.
        let m = v.disk.mapped i j in_use l ne in
        f.freed j (block_of s i j - data_start_block) (omega arith) l (omega (arith, m.0, m.1))
          (omega (arith, m.0));
    unnamed = λ k' l e.
        let ne : entry_inode gone k' ≢ 0 = λ z. nz (sym e ∙ z) in
        not_it k' l ne (sym (entry-before k' ne).1 ∙ e);
    others_used = λ i' ne. ground (arith, used-gone i');
    inodes = f.inodes;
    contents = f.contents;
    descriptors = f.descriptors;
    other_entries = λ k' ne. elim (Bool-cases (k == k')) [
      | inl here ↦
          let same : k' ≡ k = ground (arith, here) in
          absurd (ne (ap (entry_inode s) same ∙ names_it))
      | inr other ↦ ground (arith, other, ap (λ d. d k') f.directory)
    ];
  }

-- The last loop of `fs_unlink` finds the entry that names the inode.
remove_entry-here :
    {s : Fs} {i k : ℕ} (u : Fs)
    → IsTree s
    → i ≢ 0
    → k < max_dir_entries
    → entry_inode s k ≡ i
    → u.directory ≡ s.directory
    → remove_entry i u ≡ remove_at (some k) u
unfolding remove_entry
remove_entry-here {s} {i} {k} u v nz lt names_it same =
    elim (find_first-First max_dir_entries 0 max_dir_entries (λ m. (u.directory m).inode == i)
      refl) [
        | first m le l hit least o ↦
            let e : entry_inode s m ≡ i = sym (ap (λ d. (d m).inode) same) ∙ ground (arith, hit) in
            let one : m ≡ k = v.unique m k l lt (λ z. nz (sym e ∙ z)) (e ∙ sym names_it) in
            rw (o, one) refl
        | nowhere miss o ↦
            let e : entry_inode u k ≡ i = ap (λ d. (d k).inode) same ∙ names_it in
            absurd (ground (arith, miss k (omega arith) lt, e))
      ]

-- `fs_unlink` returns -1 and changes nothing if no entry has the name. Otherwise it returns 0, the
-- file that the name was found under is gone, its inode and each of its blocks are free, no entry
-- names it, and every other entry of the directory, which of the other inodes are in use, the sizes
-- and block lists in all inodes, the contents of all blocks and the descriptors are as they were;
-- the files are still apart and the directory in order.
pub fs_unlink_lem :
    {s : Fs} (filename : List ℕ)
    → IsTree s
    → ((fs_find_inode filename s ≡ 0) × (fs_unlink (some filename) s ≡ (minus_one, s)))
      ⊎ ((fs_find_inode filename s ≢ 0)
          × ((fs_unlink (some filename) s).0 ≡ pos 0)
          × Removed (fs_find_inode filename s) s (fs_unlink (some filename) s).1)
unfolding fs_unlink
fs_unlink_lem {s} filename v = elim (find_inode-cases filename s) [
  | inr none_left ↦ rw none_left.1 (inl (refl, refl))
  | inl f ↦
      let i = (s.directory f.0).inode in
      let nz : i ≢ 0 = ground (arith, f.2) in
      let nz' : (i == 0) ≡ false = ground (arith, nz) in
      let freed = free_blocks_from-Frees direct_blocks 0 (s.inodes i) s v.disk.fs in
      let t = free_blocks_from direct_blocks 0 (s.inodes i) s in
      let used = v.entries f.0 f.1 nz in
      let given =
        fs_free_inode-give i t nz (v.small f.0 f.1 nz)
          (ap (λ b. bitmap_test b i) freed.inode_bitmap ∙ used) in
      let removed = remove_entry-here (give_inode i t) v nz f.1 refl freed.directory in
      rw (f.3, nz', given, removed) (inr (nz, refl, gone-Removed v freed nz f.1 refl))
]
