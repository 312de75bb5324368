-- ===== src/Fs/Bitmaps.antt =====
-- The allocation of blocks and inodes in kernel/fs.c: first fit, and the counts of the superblock.
use seng21213_os_se.Base.{
  ℕ, ◌+◌, ◌-◌, ◌≤◌, ◌<◌, ◌≡◌, ◌⊎◌, inl, inr, refl, true, false, not, arith, length, first, nowhere,
  find_first-First, Bool-cases, leb, ltb, ◌||◌,
}
use seng21213_os_se.Bitmap.{Bitmap, bitmap_test, bitmap_set, bitmap_clear}
use seng21213_os_se.Bitmap.Laws.{IsBytes, bitmap_set-IsBytes, bitmap_clear-IsBytes, bitmap_test-set}
use seng21213_os_se.Bitmap.Count.{
  clear_count, clear_count-le, clear_count-set, clear_count-clear, clear_count_all_set,
}
use seng21213_os_se.Fs.{
  Fs, data_blocks, data_start_block, total_blocks, max_inodes, filename_len, take_block, give_block,
  take_inode, fs_alloc_block, fs_free_block,
}

-- The two bitmaps hold bytes, the superblock counts their clear bits (inode 0 is clear and not
-- counted), and the directory's names have the size of their buffers.
pub record IsFs (s : Fs) : Type 0 where
  pub block_bytes : IsBytes s.block_bitmap
  pub inode_bytes : IsBytes s.inode_bitmap
  pub blocks_counted : s.superblock.free_blocks ≡ clear_count data_blocks s.block_bitmap
  pub inodes_counted : s.superblock.free_inodes + 1 ≡ clear_count max_inodes s.inode_bitmap
  pub reserved : bitmap_test s.inode_bitmap 0 ≡ false
  pub names : (i : ℕ) → length (s.directory i).name ≡ filename_len

pub take_block-IsFs :
    {s : Fs} (i : ℕ)
    → IsFs s
    → i < data_blocks
    → bitmap_test s.block_bitmap i ≡ false
    → IsFs (take_block i s)
take_block-IsFs {s} i v lt clear =
    let less = clear_count-set data_blocks s.block_bitmap i v.block_bytes lt clear in
    let bound = clear_count-le data_blocks s.block_bitmap in
    record {
      block_bytes = bitmap_set-IsBytes s.block_bitmap i v.block_bytes;
      inode_bytes = v.inode_bytes;
      blocks_counted = omega (arith, less, bound, v.blocks_counted);
      inodes_counted = v.inodes_counted;
      reserved = v.reserved;
      names = v.names;
    }

pub take_inode-IsFs :
    {s : Fs} (i : ℕ)
    → IsFs s
    → 1 ≤ i
    → i < max_inodes
    → bitmap_test s.inode_bitmap i ≡ false
    → IsFs (take_inode i s)
take_inode-IsFs {s} i v le lt clear =
    let less = clear_count-set max_inodes s.inode_bitmap i v.inode_bytes lt clear in
    let bound = clear_count-le max_inodes s.inode_bitmap in
    let zero_left = two_clear s.inode_bitmap i v.inode_bytes le lt clear v.reserved in
    record {
      block_bytes = v.block_bytes;
      inode_bytes = bitmap_set-IsBytes s.inode_bitmap i v.inode_bytes;
      blocks_counted = v.blocks_counted;
      inodes_counted = omega (arith, less, bound, v.inodes_counted, zero_left);
      reserved = ground (arith, bitmap_test-set s.inode_bitmap i 0 v.inode_bytes, v.reserved);
      names = v.names;
    }
  where
    two_clear :
        (b : Bitmap) (i : ℕ)
        → IsBytes b
        → 1 ≤ i
        → i < max_inodes
        → bitmap_test b i ≡ false
        → bitmap_test b 0 ≡ false
        → 2 ≤ clear_count max_inodes b
    two_clear b i h le lt clear zero_clear =
        let after : bitmap_test (bitmap_set b i) 0 ≡ false =
          ground (arith, bitmap_test-set b i 0 h) in
        omega (
          arith,
          clear_count-set max_inodes b i h lt clear,
          clear_count-set max_inodes (bitmap_set b i) 0 (bitmap_set-IsBytes b i h) (omega arith)
              after,
        )

-- In a valid state `fs_alloc_block` either returns the number of the least free data block, which
-- is in use afterwards, counts it and keeps the state valid, or it returns 0 and changes nothing,
-- no block being free.
pub fs_alloc_block_lem :
    {s : Fs}
    → IsFs s
    → ((i : ℕ) × ((fs_alloc_block s).0 ≡ data_start_block + i)
        × (i < data_blocks)
        × (bitmap_test s.block_bitmap i ≡ false)
        × ((j : ℕ) → j < i → bitmap_test s.block_bitmap j ≡ true)
        × (bitmap_test (fs_alloc_block s).1.block_bitmap i ≡ true)
        × ((fs_alloc_block s).1.superblock.free_blocks + 1 ≡ s.superblock.free_blocks)
        × IsFs (fs_alloc_block s).1)
      ⊎ (((fs_alloc_block s).0 ≡ 0) × ((fs_alloc_block s).1 ≡ s) × (s.superblock.free_blocks ≡ 0))
unfolding fs_alloc_block
fs_alloc_block_lem {s} v =
    elim (find_first-First data_blocks 0 data_blocks (λ i. not (bitmap_test s.block_bitmap i))
      refl) [
        | first i le lt clear least o ↦ rw o (
            inl (
              i,
              refl,
              lt,
              ground (arith, clear),
              λ j l. ground (arith, least j (omega arith) l),
              ground (arith, bitmap_test-set s.block_bitmap i i v.block_bytes),
              omega (
                arith,
                v.blocks_counted,
                clear_count-le data_blocks s.block_bitmap,
                clear_count-set data_blocks s.block_bitmap i v.block_bytes lt
                    (ground (arith, clear)),
              ),
              take_block-IsFs i v lt (ground (arith, clear)),
            ))
        | nowhere taken o ↦ rw o (
            inr (
              refl,
              refl,
              omega (
                arith,
                v.blocks_counted,
                clear_count_all_set data_blocks s.block_bitmap
                    (λ j l. ground (arith, taken j (omega arith) l)),
              ),
            ))
      ]

pub give_block-IsFs :
    {s : Fs} (i : ℕ)
    → IsFs s
    → i < data_blocks
    → bitmap_test s.block_bitmap i ≡ true
    → IsFs (give_block i s)
give_block-IsFs {s} i v lt used =
    let more = clear_count-clear data_blocks s.block_bitmap i v.block_bytes lt used in
    let bound = clear_count-le data_blocks (bitmap_clear s.block_bitmap i) in
    record {
      block_bytes = bitmap_clear-IsBytes s.block_bitmap i v.block_bytes;
      inode_bytes = v.inode_bytes;
      blocks_counted = omega (arith, more, bound, v.blocks_counted);
      inodes_counted = v.inodes_counted;
      reserved = v.reserved;
      names = v.names;
    }

-- Whatever block number it is given, `fs_free_block` keeps a valid state valid.
pub fs_free_block-IsFs : {s : Fs} (b : ℕ) → IsFs s → IsFs (fs_free_block b s)
unfolding fs_free_block
fs_free_block-IsFs {s} b v = elim (Bool-cases (ltb b data_start_block || leb total_blocks b)) [
  | inl out ↦ rw out v
  | inr inside ↦ elim (Bool-cases (bitmap_test s.block_bitmap (b - data_start_block))) [
    | inl used ↦
        rw (inside, used) (give_block-IsFs (b - data_start_block) v (ground (arith, inside)) used)
    | inr clear ↦ rw (inside, clear) v
  ]
]
