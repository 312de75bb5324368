-- ===== src/Fs/Chunk.antt =====
-- What one round of `fs_write` in kernel/fs.c writes.
use seng21213_os_se.Base.{
  ℕ, ◌+◌, ◌-◌, ◌/◌, ◌%◌, ◌^◌, ◌≤◌, ◌<◌, ◌≡◌, ◌≢◌, inl, inr, refl, sym, ap, ◌∙◌, true, false, ◌&&◌,
  arith, Bool-cases, if◌then◌else◌, ◌==◌, update, leb, ltb,
}
use seng21213_os_se.Strings.{memcpy}
use seng21213_os_se.Strings.Laws.{memcpy_lem}
use seng21213_os_se.Fs.{Fs, block_size}
use seng21213_os_se.Fs.File.{put_chunk}
use seng21213_os_se.Fs.Reads.{file_byte}
use seng21213_os_se.Fs.Disk.{block_of, is_used, IsDisk}

abbrev pub max_file_size : ℕ
max_file_size = 32768

abbrev pub grown : ℕ → ℕ → ℕ
grown size offset = if ltb size offset then offset else size

-- From `s` to `t` the `n` bytes of the buffer from `done` on have been put into file `i` from `off`
-- on, and descriptor `fd` stands behind them.
pub record Puts (fd i done n off : ℕ) (buf : ℕ → ℕ) (s t : Fs) : Type 0 where
  pub disk : IsDisk t
  pub blocks : (i' j' : ℕ) → block_of t i' j' ≡ block_of s i' j'
  pub used : t.inode_bitmap ≡ s.inode_bitmap
  pub names : t.directory ≡ s.directory
  pub fd_inode : (t.open_files fd).inode ≡ i
  pub fd_offset : (t.open_files fd).offset ≡ off + n
  pub fd_others : (fd' : ℕ) → (fd == fd') ≡ false → t.open_files fd' ≡ s.open_files fd'
  pub fd_valid : (t.open_files fd).valid ≡ (s.open_files fd).valid
  pub size :
      (i' : ℕ)
      → (t.inodes i').size
        ≡ (if i == i' then grown (s.inodes i).size (off + n) else (s.inodes i').size)
  pub bytes :
      (i' p : ℕ)
      → is_used s i' ≡ true
      → p < max_file_size
      → block_of s i' (p / block_size) ≢ 0
      → file_byte t i' p ≡ (
          if (i == i') && (leb off p && ltb p (off + n))
          then buf (done + (p - off))
          else file_byte s i' p)

-- `put_chunk`, with its inode, its offset and its sum written out.
abbrev put : ℕ → ℕ → ℕ → ℕ → ℕ → (ℕ → ℕ) → Fs → Fs
put fd i done n off buf s =
    let b = block_of s i (off / block_size) in
    record s {
      block = update s.block b (memcpy (s.block b) (off % block_size) buf done n);
      open_files =
          update s.open_files fd
            (record { inode = i; offset = off + n; valid = (s.open_files fd).valid });
      inodes = update s.inodes i (record (s.inodes i) { size = grown (s.inodes i).size (off + n) });
    }

put_chunk-put :
    (fd i done n off : ℕ) (buf : ℕ → ℕ) (s : Fs)
    → (s.open_files fd).inode ≡ i
    → (s.open_files fd).offset ≡ off
    → off + n < 2 ^ 32
    → put_chunk fd buf done n s ≡ put fd i done n off buf s
unfolding put_chunk
put_chunk-put fd i done n off buf s ei eo small =
    let e : (off + n) % 4294967296 ≡ off + n = omega arith in rw (ei, eo, e) refl

module _ (fd i done n off : ℕ) (buf : ℕ → ℕ) {s : Fs} (d : IsDisk s) (used : is_used s i ≡ true)
    (inside : off < max_file_size) (there : block_of s i (off / block_size) ≢ 0)
    (room : off % block_size + n ≤ block_size) where
  abbrev after : Fs
  after = put fd i done n off buf s

  block-after : (i' j' : ℕ) → block_of after i' j' ≡ block_of s i' j'
  block-after i' j' = ground arith

  after-IsDisk : IsDisk after
  after-IsDisk = record {
    fs = record {
      block_bytes = d.fs.block_bytes;
      inode_bytes = d.fs.inode_bytes;
      blocks_counted = d.fs.blocks_counted;
      inodes_counted = d.fs.inodes_counted;
      reserved = d.fs.reserved;
      names = d.fs.names;
    };
    mapped = λ i' j' u l nz.
        rw (block-after i' j') (d.mapped i' j' u l (λ z. nz (block-after i' j' ∙ z)));
    apart = λ i1 j1 i2 j2 u1 u2 l1 l2 nz e.
        d.apart i1 j1 i2 j2 u1 u2 l1 l2 (λ z. nz (block-after i1 j1 ∙ z))
          (omega (arith, e, block-after i1 j1, block-after i2 j2));
  }

  -- The same block in use is the same block of the same file.
  same_block :
      (i' p : ℕ)
      → is_used s i' ≡ true
      → p < max_file_size
      → (block_of s i (off / block_size) == block_of s i' (p / block_size))
        ≡ ((i == i') && (off / block_size == p / block_size))
  same_block i' p u lt =
      let j = off / block_size in
      let j' = p / block_size in
      let a = d.apart i j i' j' used u (omega arith) (omega arith) there in
      let b : i ≡ i' → j ≡ j' → block_of s i j ≡ block_of s i' j' = λ e e'. rw (e, e') refl in
      ground (arith, a, b)

  after-bytes :
      (i' p : ℕ)
      → is_used s i' ≡ true
      → p < max_file_size
      → file_byte after i' p ≡ (
          if (i == i') && (leb off p && ltb p (off + n))
          then buf (done + (p - off))
          else file_byte s i' p)
  after-bytes i' p u lt =
      let b = block_of s i (off / block_size) in
      let b' = block_of s i' (p / block_size) in
      let moved = ap (λ k. after.block k (p % block_size)) (block-after i' (p / block_size)) in
      let copied = memcpy_lem (s.block b) (off % block_size) buf done n (p % block_size) in
      let source : off / block_size ≡ p / block_size
          → off ≤ p
          → buf (done + (p % block_size - off % block_size)) ≡ buf (done + (p - off)) =
        λ e le. ap buf (omega arith) in
      moved ∙ elim (Bool-cases (b == b')) [
        | inl hit ↦
            let e : b ≡ b' = ground (arith, hit) in
            let content : s.block b (p % block_size) ≡ file_byte s i' p =
              ap (λ k. s.block k (p % block_size)) e in
            ap
              (λ q.
                (if q then memcpy (s.block b) (off % block_size) buf done n else s.block b')
                  (p % block_size))
              hit
            ∙ ground (arith, sym (same_block i' p u lt) ∙ hit, copied, source, content)
        | inr miss ↦
            ap
              (λ q.
                (if q then memcpy (s.block b) (off % block_size) buf done n else s.block b')
                  (p % block_size))
              miss
            ∙ ground (arith, sym (same_block i' p u lt) ∙ miss)
      ]

  after-Puts : Puts fd i done n off buf s after
  after-Puts = record {
    disk = after-IsDisk;
    blocks = block-after;
    used = refl;
    names = refl;
    fd_inode = ground arith;
    fd_offset = ground arith;
    fd_others = λ fd' ne. ground arith;
    fd_valid = ground arith;
    size = λ i'. ground arith;
    bytes = λ i' p u lt nz. after-bytes i' p u lt;
  }

-- One round of `fs_write` puts its bytes where they belong, and changes no other byte of any file.
pub put_chunk-Puts :
    (fd i done n off : ℕ) (buf : ℕ → ℕ) {s : Fs}
    → IsDisk s
    → (s.open_files fd).inode ≡ i
    → (s.open_files fd).offset ≡ off
    → is_used s i ≡ true
    → off < max_file_size
    → block_of s i (off / block_size) ≢ 0
    → off % block_size + n ≤ block_size
    → Puts fd i done n off buf s (put_chunk fd buf done n s)
put_chunk-Puts fd i done n off buf {s} d ei eo used inside there room =
    rw (put_chunk-put fd i done n off buf s ei eo (omega arith))
      (after-Puts fd i done n off buf d used inside there room)
