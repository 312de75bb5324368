-- ===== src/Fs/Frees.antt =====
-- The loop of `fs_unlink` in kernel/fs.c that frees the blocks of a file.
use seng21213_os_se.Base.{
  ℕ, zero, suc, ◌+◌, ◌-◌, ◌≤◌, ◌<◌, ◌≡◌, ◌≢◌, inl, inr, refl, sym, ap, ◌∙◌, false, not, ◌||◌, arith,
  Bool-cases, if◌then◌else◌, ◌==◌, leb, ltb,
}
use seng21213_os_se.Bitmap.{bitmap_test}
use seng21213_os_se.Bitmap.Laws.{bitmap_test-clear}
use seng21213_os_se.Fs.{Fs, Inode, data_start_block, total_blocks, data_blocks, fs_free_block}
use seng21213_os_se.Fs.File.{free_blocks_from}
use seng21213_os_se.Fs.Bitmaps.{IsFs, fs_free_block-IsFs}

-- From `s` to `t` the blocks of `inode` from `lo` to `hi` have been freed, and nothing else
-- changes.
pub record Frees (lo hi : ℕ) (inode : Inode) (s t : Fs) : Type 0 where
  pub fs : IsFs t
  pub inodes : t.inodes ≡ s.inodes
  pub inode_bitmap : t.inode_bitmap ≡ s.inode_bitmap
  pub free_inodes : t.superblock.free_inodes ≡ s.superblock.free_inodes
  pub directory : t.directory ≡ s.directory
  pub contents : t.block ≡ s.block
  pub descriptors : t.open_files ≡ s.open_files
  pub kept :
      (m : ℕ)
      → m < data_blocks
      → ((j : ℕ) → lo ≤ j → j < hi → inode.blocks j ≢ data_start_block + m)
      → bitmap_test t.block_bitmap m ≡ bitmap_test s.block_bitmap m
  pub stays_free :
      (m : ℕ)
      → m < data_blocks
      → bitmap_test s.block_bitmap m ≡ false
      → bitmap_test t.block_bitmap m ≡ false
  pub freed :
      (j m : ℕ)
      → lo ≤ j
      → j < hi
      → m < data_blocks
      → inode.blocks j ≡ data_start_block + m
      → bitmap_test t.block_bitmap m ≡ false

abbrev free_at : ℕ → Inode → Fs → Fs
free_at i inode s = if not (inode.blocks i == 0) then fs_free_block (inode.blocks i) s else s

bit-fs_free_block :
    (b m : ℕ) (s : Fs)
    → IsFs s
    → m < data_blocks
    → bitmap_test (fs_free_block b s).block_bitmap m
      ≡ (if b == data_start_block + m then false else bitmap_test s.block_bitmap m)
unfolding fs_free_block
bit-fs_free_block b m s v lt =
    let one = bitmap_test-clear s.block_bitmap (b - data_start_block) m v.block_bytes in
    let same : b ≡ data_start_block + m
        → bitmap_test s.block_bitmap (b - data_start_block) ≡ bitmap_test s.block_bitmap m =
      λ e. ap (bitmap_test s.block_bitmap) (omega arith) in
    ground (arith, one, same)

-- Freeing a block changes nothing but the bitmap and its count.
fs_free_block-same :
    (b : ℕ) (s : Fs)
    → ((fs_free_block b s).inodes ≡ s.inodes)
      × ((fs_free_block b s).inode_bitmap ≡ s.inode_bitmap)
      × ((fs_free_block b s).superblock.free_inodes ≡ s.superblock.free_inodes)
      × ((fs_free_block b s).directory ≡ s.directory)
      × ((fs_free_block b s).block ≡ s.block)
      × ((fs_free_block b s).open_files ≡ s.open_files)
unfolding fs_free_block
fs_free_block-same b s = elim (Bool-cases (ltb b data_start_block || leb total_blocks b)) [
  | inl out ↦ rw out (refl, refl, refl, refl, refl, refl)
  | inr inside ↦ elim (Bool-cases (bitmap_test s.block_bitmap (b - data_start_block))) [
    | inl used ↦ rw (inside, used) (refl, refl, refl, refl, refl, refl)
    | inr clear ↦ rw (inside, clear) (refl, refl, refl, refl, refl, refl)
  ]
]

free_block-Frees :
    (i : ℕ) (inode : Inode) (s : Fs)
    → IsFs s
    → Frees i (i + 1) inode s (fs_free_block (inode.blocks i) s)
free_block-Frees i inode s v =
    let b = inode.blocks i in
    let same = fs_free_block-same b s in
    record {
      fs = fs_free_block-IsFs b v;
      inodes = same.0;
      inode_bitmap = same.1;
      free_inodes = same.2;
      directory = same.3;
      contents = same.4;
      descriptors = same.5;
      kept = λ m lt none_of. ground (arith, bit-fs_free_block b m s v lt, none_of i);
      stays_free = λ m lt clear. ground (arith, bit-fs_free_block b m s v lt, clear);
      freed = λ j m le l lt e.
          let here : inode.blocks i ≡ inode.blocks j = ap inode.blocks (omega arith) in
          ground (arith, bit-fs_free_block b m s v lt, here, e);
    }

free_at-Frees :
    (i : ℕ) (inode : Inode) (s : Fs) → IsFs s → Frees i (i + 1) inode s (free_at i inode s)
free_at-Frees i inode s v = elim (Bool-cases (inode.blocks i == 0)) [
  | inr has ↦ rw has (free_block-Frees i inode s v)
  | inl none_here ↦ rw none_here (record {
    fs = v;
    inodes = refl;
    inode_bitmap = refl;
    free_inodes = refl;
    directory = refl;
    contents = refl;
    descriptors = refl;
    kept = λ m lt none_of. refl;
    stays_free = λ m lt clear. clear;
    freed = λ j m le l lt e.
        let here : inode.blocks i ≡ inode.blocks j = ap inode.blocks (omega arith) in
        absurd (ground (arith, here, e, none_here));
  })
]

Frees-trans :
    {lo mid hi : ℕ} {inode : Inode} {s t u : Fs}
    → Frees lo mid inode s t
    → Frees mid hi inode t u
    → lo ≤ mid
    → mid ≤ hi
    → Frees lo hi inode s u
Frees-trans {lo} {mid} {hi} {inode} f g le le' = record {
  fs = g.fs;
  inodes = g.inodes ∙ f.inodes;
  inode_bitmap = g.inode_bitmap ∙ f.inode_bitmap;
  free_inodes = g.free_inodes ∙ f.free_inodes;
  directory = g.directory ∙ f.directory;
  contents = g.contents ∙ f.contents;
  descriptors = g.descriptors ∙ f.descriptors;
  kept = λ m lt none_of.
      g.kept m lt (λ j a b. none_of j (omega arith) b)
      ∙ f.kept m lt (λ j a b. none_of j a (omega arith));
  stays_free = λ m lt clear. g.stays_free m lt (f.stays_free m lt clear);
  freed = λ j m a b lt e. elim (Bool-cases (ltb j mid)) [
    | inl early ↦ g.stays_free m lt (f.freed j m a (ground (arith, early)) lt e)
    | inr late ↦ g.freed j m (ground (arith, late)) b lt e
  ];
}

pub free_blocks_from-Frees :
    (n i : ℕ) (inode : Inode) (s : Fs)
    → IsFs s
    → Frees i (i + n) inode s (free_blocks_from n i inode s)
unfolding free_blocks_from
free_blocks_from-Frees zero i inode s v = record {
  fs = v;
  inodes = refl;
  inode_bitmap = refl;
  free_inodes = refl;
  directory = refl;
  contents = refl;
  descriptors = refl;
  kept = λ m lt none_of. refl;
  stays_free = λ m lt clear. clear;
  freed = λ j m le l lt e. absurd (omega arith);
}
free_blocks_from-Frees (suc n) i inode s v =
    let one = free_at-Frees i inode s v in
    let rest = free_blocks_from-Frees n (i + 1) inode (free_at i inode s) one.fs in
    let far : i + 1 + n ≡ i + suc n = omega arith in
    rw (sym far) (Frees-trans one rest (omega arith) (omega arith))
