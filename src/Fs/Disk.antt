-- ===== src/Fs/Disk.antt =====
-- The files on the disk of kernel/fs.c do not share blocks, and a file gets a new block.
use seng21213_os_se.Base.{
  ℕ, ◌+◌, ◌-◌, ◌≤◌, ◌<◌, ◌≡◌, ◌≢◌, ◌⊎◌, inl, inr, refl, ap, ◌∙◌, Bool, true, false, not, ◌&&◌,
  arith, Bool-cases, if◌then◌else◌, ◌==◌, update, first, nowhere, find_first-First,
}
use seng21213_os_se.Bitmap.{bitmap_test}
use seng21213_os_se.Bitmap.Laws.{bitmap_test-set}
use seng21213_os_se.Bitmap.Count.{clear_count_all_set}
use seng21213_os_se.Fs.{
  Fs, direct_blocks, data_start_block, data_blocks, total_blocks, take_block, fs_alloc_block,
}
use seng21213_os_se.Fs.File.{ensure_block}
use seng21213_os_se.Fs.Bitmaps.{IsFs, take_block-IsFs}

abbrev pub block_of : Fs → ℕ → ℕ → ℕ
block_of s i j = (s.inodes i).blocks j

abbrev pub is_used : Fs → ℕ → Bool
is_used s i = bitmap_test s.inode_bitmap i

-- Each block of an inode in use is a data block in use, and no two inodes in use share a block, nor
-- does one hold a block twice.
pub record IsDisk (s : Fs) : Type 0 where
  pub fs : IsFs s
  pub mapped :
      (i j : ℕ)
      → is_used s i ≡ true
      → j < direct_blocks
      → block_of s i j ≢ 0
      → (data_start_block ≤ block_of s i j)
        × (block_of s i j < total_blocks)
        × (bitmap_test s.block_bitmap (block_of s i j - data_start_block) ≡ true)
  pub apart :
      (i j i' j' : ℕ)
      → is_used s i ≡ true
      → is_used s i' ≡ true
      → j < direct_blocks
      → j' < direct_blocks
      → block_of s i j ≢ 0
      → block_of s i j ≡ block_of s i' j'
      → (i ≡ i') × (j ≡ j')

-- From `s` to `t` inode `i` has got its block `j`, if it had none, and nothing else changes.
pub record Gets (i j : ℕ) (s t : Fs) : Type 0 where
  pub disk : IsDisk t
  pub there : block_of t i j ≢ 0
  pub others : (i' j' : ℕ) → ((i == i') && (j == j')) ≡ false → block_of t i' j' ≡ block_of s i' j'
  pub old : block_of s i j ≢ 0 → block_of t i j ≡ block_of s i j
  pub contents : t.block ≡ s.block
  pub used : t.inode_bitmap ≡ s.inode_bitmap
  pub fds : t.open_files ≡ s.open_files
  pub names : t.directory ≡ s.directory
  pub sizes : (i' : ℕ) → (t.inodes i').size ≡ (s.inodes i').size

-- The state in which `got_block` leaves a block that is free.
abbrev with_block : ℕ → ℕ → ℕ → Fs → Fs
with_block i j n s = record (take_block n s) {
  inodes =
      update s.inodes i
        (record (s.inodes i) { blocks = update (s.inodes i).blocks j (data_start_block + n) });
}

module _ {i j n : ℕ} {s : Fs} (d : IsDisk s) (lt : j < direct_blocks) (none : block_of s i j ≡ 0)
    (small : n < data_blocks) (free : bitmap_test s.block_bitmap n ≡ false) where
  block-with_block :
      (i' j' : ℕ)
      → block_of (with_block i j n s) i' j'
        ≡ (if (i == i') && (j == j') then data_start_block + n else block_of s i' j')
  block-with_block i' j' = ground arith

  bit-with_block :
      (m : ℕ)
      → bitmap_test (with_block i j n s).block_bitmap m
        ≡ (if n == m then true else bitmap_test s.block_bitmap m)
  bit-with_block m = bitmap_test-set s.block_bitmap n m d.fs.block_bytes

  -- Either the new block, or a block as before.
  new-or-old :
      (i' j' : ℕ)
      → ((i ≡ i') × (j ≡ j') × (block_of (with_block i j n s) i' j' ≡ data_start_block + n))
        ⊎ (block_of (with_block i j n s) i' j' ≡ block_of s i' j')
  new-or-old i' j' = elim (Bool-cases ((i == i') && (j == j'))) [
    | inl here ↦ inl (
      ground (arith, here),
      ground (arith, here),
      block-with_block i' j' ∙ ap (λ b. if b then data_start_block + n else block_of s i' j') here,
    )
    | inr other ↦ inr (
        block-with_block i' j'
        ∙ ap (λ b. if b then data_start_block + n else block_of s i' j') other)
  ]

  old-ne :
      (i' j' : ℕ)
      → is_used s i' ≡ true
      → j' < direct_blocks
      → block_of s i' j' ≢ 0
      → block_of s i' j' ≢ data_start_block + n
  old-ne i' j' u l nz e =
      let m = d.mapped i' j' u l nz in
      let e2 : block_of s i' j' - data_start_block ≡ n = omega (arith, e) in
      cc (m.2, free, ap (bitmap_test s.block_bitmap) e2)

  with_block-IsDisk : IsDisk (with_block i j n s)
  with_block-IsDisk =
      let f = take_block-IsFs n d.fs small free in
      record {
        fs = record {
          block_bytes = f.block_bytes;
          inode_bytes = f.inode_bytes;
          blocks_counted = f.blocks_counted;
          inodes_counted = f.inodes_counted;
          reserved = f.reserved;
          names = f.names;
        };
        mapped = λ i' j' u l nz. elim (new-or-old i' j') [
          | inl new ↦
              let e2 : block_of (with_block i j n s) i' j' - data_start_block ≡ n =
                omega (arith, new.2) in
              (
                omega (arith, new.2),
                omega (arith, new.2),
                ap (bitmap_test (with_block i j n s).block_bitmap) e2
                    ∙ bit-with_block n
                    ∙ ground arith,
              )
          | inr old ↦
              let m = d.mapped i' j' u l (λ z. nz (old ∙ z)) in
              let b = block_of s i' j' - data_start_block in
              (
                omega (arith, old, m.0),
                omega (arith, old, m.1),
                ap (λ k. bitmap_test (with_block i j n s).block_bitmap (k - data_start_block)) old
                    ∙ bit-with_block b
                    ∙ ground (arith, m.2),
              )
        ];
        apart = λ i1 j1 i2 j2 u1 u2 l1 l2 nz e. elim (new-or-old i1 j1) [
          | inl n1 ↦ elim (new-or-old i2 j2) [
            | inl n2 ↦ (omega (arith, n1.0, n2.0), omega (arith, n1.1, n2.1))
            | inr o2 ↦
                absurd
                  (old-ne i2 j2 u2 l2 (omega (arith, n1.2, e, o2)) (omega (arith, n1.2, e, o2)))
          ]
          | inr o1 ↦ elim (new-or-old i2 j2) [
            | inl n2 ↦ absurd (old-ne i1 j1 u1 l1 (λ z. nz (o1 ∙ z)) (omega (arith, n2.2, e, o1)))
            | inr o2 ↦ d.apart i1 j1 i2 j2 u1 u2 l1 l2 (λ z. nz (o1 ∙ z)) (omega (arith, e, o1, o2))
          ]
        ];
      }

  with_block-Gets : Gets i j s (with_block i j n s)
  with_block-Gets = record {
    disk = with_block-IsDisk;
    there = λ z. ground (arith, block-with_block i j, z);
    others = λ i' j' o. ground (arith, block-with_block i' j');
    old = λ nz. absurd (nz none);
    contents = refl;
    used = refl;
    fds = refl;
    names = refl;
    sizes = λ i'. ground arith;
  }

-- `ensure_block` gets the block, or there is no free block, and it changes nothing.
pub ensure_block-Gets :
    {i j : ℕ} {s : Fs}
    → IsDisk s
    → j < direct_blocks
    → (((ensure_block i j s).0 ≡ true) × Gets i j s (ensure_block i j s).1)
      ⊎ ((ensure_block i j s ≡ (false, s)) × (block_of s i j ≡ 0) × (s.superblock.free_blocks ≡ 0))
unfolding ensure_block fs_alloc_block
ensure_block-Gets {i} {j} {s} d lt = elim (Bool-cases (block_of s i j == 0)) [
  | inr has ↦ rw has (
      inl (
        refl,
        record {
          disk = d;
          there = ground (arith, has);
          others = λ i' j' o. refl;
          old = λ nz. refl;
          contents = refl;
          used = refl;
          fds = refl;
          names = refl;
          sizes = λ i'. refl;
        },
      ))
  | inl none ↦
      elim (find_first-First data_blocks 0 data_blocks (λ n. not (bitmap_test s.block_bitmap n))
        refl) [
          | first n le small clear least o ↦
              let nz : (data_start_block + n == 0) ≡ false = ground arith in
              rw (none, o, nz)
                (inl
                  (refl, with_block-Gets d lt (ground (arith, none)) small (ground (arith, clear))))
          | nowhere taken o ↦
              rw (none, o)
                (inr (
                  refl,
                  ground (arith, none),
                  omega (
                    arith,
                    d.fs.blocks_counted,
                    clear_count_all_set data_blocks s.block_bitmap
                        (λ n l. ground (arith, taken n (omega arith) l)),
                  ),
                ))
        ]
]
