-- ===== src/Fs/Writes.antt =====
-- `fs_write` in kernel/fs.c: what its loop writes, and where it stops.
use seng21213_os_se.Base.{
  ℕ, ◌+◌, ◌-◌, ◌/◌, ◌%◌, ◌≤◌, ◌<◌, ◌≡◌, ◌≢◌, ◌⊎◌, inl, inr, refl, sym, ap, ◌∙◌, true, false, ◌&&◌,
  arith, Bool-cases, if◌then◌else◌, ◌==◌, leb, ltb,
}
use seng21213_os_se.Bitmap.{bitmap_test}
use seng21213_os_se.Fs.{Fs, block_size}
use seng21213_os_se.Fs.Reads.{file_byte}
use seng21213_os_se.Fs.Disk.{block_of, is_used, IsDisk, Gets}
use seng21213_os_se.Fs.Chunk.{max_file_size, grown, Puts}

-- From `s` to `r.1` the bytes of the buffer from `done` to `r.0` have been written to file `i` from
-- `off` on, and nothing else that a file held has changed.
pub record Writes (fd i count done off : ℕ) (buf : ℕ → ℕ) (s : Fs) (r : ℕ × Fs) : Type 0 where
  pub disk : IsDisk r.1
  pub at_least : done ≤ r.0
  pub at_most : r.0 ≤ count
  pub used : r.1.inode_bitmap ≡ s.inode_bitmap
  pub names : r.1.directory ≡ s.directory
  pub fd_inode : (r.1.open_files fd).inode ≡ i
  pub fd_offset : (r.1.open_files fd).offset ≡ off + (r.0 - done)
  pub fd_valid : (r.1.open_files fd).valid ≡ (s.open_files fd).valid
  pub fd_others : (fd' : ℕ) → (fd == fd') ≡ false → r.1.open_files fd' ≡ s.open_files fd'
  pub reach :
      (p : ℕ)
      → off ≤ p
      → p < off + (r.0 - done)
      → (p < max_file_size) × (block_of r.1 i (p / block_size) ≢ 0)
  pub written :
      (p : ℕ) → off ≤ p → p < off + (r.0 - done) → file_byte r.1 i p ≡ buf (done + (p - off))
  pub kept_blocks : (i' j : ℕ) → block_of s i' j ≢ 0 → block_of r.1 i' j ≡ block_of s i' j
  pub kept :
      (i' p : ℕ)
      → is_used s i' ≡ true
      → p < max_file_size
      → block_of s i' (p / block_size) ≢ 0
      → ((i == i') && (leb off p && ltb p (off + (r.0 - done)))) ≡ false
      → file_byte r.1 i' p ≡ file_byte s i' p
  pub size :
      (i' : ℕ)
      → (r.1.inodes i').size ≡ (
          if (i == i') && ltb done r.0
          then grown (s.inodes i).size (off + (r.0 - done))
          else (s.inodes i').size)
  pub complete :
      (r.0 ≡ count) ⊎ (max_file_size ≤ off + (r.0 - done)) ⊎ (r.1.superblock.free_blocks ≡ 0)

pub stops :
    (fd i count done off : ℕ) (buf : ℕ → ℕ) (s : Fs)
    → IsDisk s
    → done ≤ count
    → (s.open_files fd).inode ≡ i
    → (s.open_files fd).offset ≡ off
    → (done ≡ count) ⊎ (max_file_size ≤ off) ⊎ (s.superblock.free_blocks ≡ 0)
    → Writes fd i count done off buf s (done, s)
stops fd i count done off buf s d le ei eo why =
    let same : off + (done - done) ≡ off = omega arith in
    record {
      disk = d;
      at_least = omega arith;
      at_most = le;
      used = refl;
      names = refl;
      fd_inode = ei;
      fd_offset = omega (arith, eo);
      fd_valid = refl;
      fd_others = λ fd' ne. refl;
      reach = λ p lo hi. absurd (omega arith);
      written = λ p lo hi. absurd (omega arith);
      kept_blocks = λ i' j nz. refl;
      kept = λ i' p u lt nz o. refl;
      size = λ i'. ground arith;
      complete = rw same why;
    }

-- One round and the rounds behind it.
module _ {fd i count done off n : ℕ} {buf : ℕ → ℕ} {s t u : Fs} {r : ℕ × Fs}
    (g : Gets i (off / block_size) s t) (q : Puts fd i done n off buf t u)
    (w : Writes fd i count (done + n) (off + n) buf u r) (used : is_used s i ≡ true)
    (inside : off < max_file_size) (room : off % block_size + n ≤ block_size)
    (some_bytes : 0 < n) where
  end_eq : off + n + (r.0 - (done + n)) ≡ off + (r.0 - done)
  end_eq = omega (arith, w.at_least)

  used_later : (i' : ℕ) → is_used s i' ≡ true → is_used u i' ≡ true
  used_later i' e = ap (λ b. bitmap_test b i') (q.used ∙ g.used) ∙ e

  used_in_t : (i' : ℕ) → is_used s i' ≡ true → is_used t i' ≡ true
  used_in_t i' e = ap (λ b. bitmap_test b i') g.used ∙ e

  gets_kept : (i' j : ℕ) → block_of s i' j ≢ 0 → block_of t i' j ≡ block_of s i' j
  gets_kept i' j nz = elim (Bool-cases ((i == i') && (off / block_size == j))) [
    | inr other ↦ g.others i' j other
    | inl here ↦
        let e : i ≡ i' = ground (arith, here) in
        let e' : off / block_size ≡ j = ground (arith, here) in
        let moved : block_of t i' j ≡ block_of t i (off / block_size) =
          λ k. block_of t (sym e k) (sym e' k) in
        let back : block_of s i (off / block_size) ≡ block_of s i' j =
          λ k. block_of s (e k) (e' k) in
        moved ∙ g.old (λ z. nz (sym back ∙ z)) ∙ back
  ]

  -- The block that this round writes to.
  here_block : (p : ℕ) → off ≤ p → p < off + n → block_of t i (p / block_size) ≢ 0
  here_block p lo hi =
      let e : off / block_size ≡ p / block_size = omega arith in
      λ z. g.there (ap (block_of t i) e ∙ z)

  later_block : (p : ℕ) → off ≤ p → p < off + n → block_of u i (p / block_size) ≢ 0
  later_block p lo hi = λ z. here_block p lo hi (sym (q.blocks i (p / block_size)) ∙ z)

  -- The bytes of this round, in the end.
  first_bytes : (p : ℕ) → off ≤ p → p < off + n → file_byte r.1 i p ≡ buf (done + (p - off))
  first_bytes p lo hi =
      let a = w.kept i p (used_later i used) (omega arith) (later_block p lo hi) (ground arith) in
      let b = q.bytes i p (used_in_t i used) (omega arith) (here_block p lo hi) in
      a ∙ b ∙ ground arith

  round_written :
      (p : ℕ) → off ≤ p → p < off + (r.0 - done) → file_byte r.1 i p ≡ buf (done + (p - off))
  round_written p lo hi = elim (Bool-cases (ltb p (off + n))) [
    | inl this ↦ first_bytes p lo (ground (arith, this))
    | inr behind ↦
        let a = w.written p (ground (arith, behind)) (omega (arith, end_eq)) in
        let e : done + n + (p - (off + n)) ≡ done + (p - off) = ground (arith, behind) in
        a ∙ ap buf e
  ]

  round_reach :
      (p : ℕ)
      → off ≤ p
      → p < off + (r.0 - done)
      → (p < max_file_size) × (block_of r.1 i (p / block_size) ≢ 0)
  round_reach p lo hi = elim (Bool-cases (ltb p (off + n))) [
    | inl this ↦
        let l : p < off + n = ground (arith, this) in
        (
          omega arith,
          λ z. later_block p lo l (sym (w.kept_blocks i (p / block_size) (later_block p lo l)) ∙ z),
        )
    | inr behind ↦ w.reach p (ground (arith, behind)) (omega (arith, end_eq))
  ]

  -- The bytes that this round and those behind it leave.
  round_kept :
      (i' p : ℕ)
      → is_used s i' ≡ true
      → p < max_file_size
      → block_of s i' (p / block_size) ≢ 0
      → ((i == i') && (leb off p && ltb p (off + (r.0 - done)))) ≡ false
      → file_byte r.1 i' p ≡ file_byte s i' p
  round_kept i' p us lt nz out =
      let same = gets_kept i' (p / block_size) nz in
      let in_t : block_of t i' (p / block_size) ≢ 0 = λ z. nz (sym same ∙ z) in
      let in_u : block_of u i' (p / block_size) ≢ 0 =
        λ z. in_t (sym (q.blocks i' (p / block_size)) ∙ z) in
      let a = w.kept i' p (used_later i' us) lt in_u (ground (arith, out, end_eq, w.at_least)) in
      let b = q.bytes i' p (used_in_t i' us) lt in_t in
      let c : file_byte t i' p ≡ file_byte s i' p = λ k. g.contents k (same k) (p % block_size) in
      a ∙ b ∙ ground (arith, out, w.at_least, c)

  pub round-Writes : Writes fd i count done off buf s r
  round-Writes = record {
    disk = w.disk;
    at_least = omega (arith, w.at_least);
    at_most = w.at_most;
    used = w.used ∙ q.used ∙ g.used;
    names = w.names ∙ q.names ∙ g.names;
    fd_inode = w.fd_inode;
    fd_offset = w.fd_offset ∙ end_eq;
    fd_valid = w.fd_valid ∙ q.fd_valid ∙ ap (λ f. (f fd).valid) g.fds;
    fd_others = λ fd' ne. w.fd_others fd' ne ∙ q.fd_others fd' ne ∙ ap (λ f. f fd') g.fds;
    reach = round_reach;
    written = round_written;
    kept_blocks = λ i' j nz.
        let same = gets_kept i' j nz in
        let in_u : block_of u i' j ≢ 0 = λ z. nz (sym (q.blocks i' j ∙ same) ∙ z) in
        w.kept_blocks i' j in_u ∙ q.blocks i' j ∙ same;
    kept = round_kept;
    size = λ i'.
        ground (arith, w.size i', q.size i', q.size i, g.sizes i, g.sizes i', w.at_least, end_eq);
    complete = rw (sym end_eq) w.complete;
  }
