-- ===== src/Fs/WriteRead.antt =====
-- `fs_write` and then `fs_read` in kernel/fs.c.
use seng21213_os_se.Base.{
  ℕ, ◌+◌, ◌-◌, ◌/◌, ◌^◌, ◌≤◌, ◌<◌, ◌≡◌, ◌≢◌, inl, inr, sym, ap, ◌∙◌, true, false, ◌&&◌, arith,
  Bool-cases, ◌==◌, ltb, some, ℤ, pos, negsuc,
}
use mathlib.Core.Path.{subst}
use seng21213_os_se.Fs.{Fs, block_size, checked_fd, max_open_files}
use seng21213_os_se.Fs.File.{fs_write, fs_read}
use seng21213_os_se.Fs.Reads.{file_byte, fd_inode, fd_offset, Reads, readable, fs_read_lem}
use seng21213_os_se.Fs.Disk.{block_of, is_used, IsDisk}
use seng21213_os_se.Fs.Chunk.{max_file_size}
use seng21213_os_se.Fs.Writes.{Writes}
use seng21213_os_se.Fs.WriteLoop.{fs_write_lem}

-- A descriptor is still open if its flag is.
pub checked_later :
    (fd : ℤ) (d : ℕ) (s t : Fs)
    → checked_fd fd s ≡ some d
    → (t.open_files d).valid ≡ (s.open_files d).valid
    → checked_fd fd t ≡ some d
checked_later (negsuc n) d s t ok same = ok
checked_later (pos fd) d s t ok same =
    elim (Bool-cases (ltb fd max_open_files && (s.open_files fd).valid)) [
      | inr bad ↦ absurd (ground (arith, bad, ok))
      | inl good ↦
          let e : fd ≡ d = ground (arith, good, ok) in
          let v : (t.open_files fd).valid ≡ (s.open_files fd).valid =
            ap (λ k. (t.open_files k).valid) e ∙ same ∙ sym (ap (λ k. (s.open_files k).valid) e) in
          ground (arith, v, good, e)
    ]

-- Behind a write of `n` bytes there are `n` bytes to be read.
read_back :
    (d i d' count off : ℕ) (buf buf' : ℕ → ℕ) (s : Fs) (w : ℕ × Fs) (r : ℕ × (ℕ → ℕ) × Fs)
    → Writes d i count 0 off buf s w
    → Reads d' i (readable off (w.1.inodes i).size w.0) 0 off buf' w.1 r
    → (r.0 ≡ w.0) × ((a : ℕ) → a < w.0 → r.1 a ≡ buf a)
read_back d i d' count off buf buf' s w r v q =
    let enough : readable off (w.1.inodes i).size w.0 ≡ w.0 = ground (arith, v.size i) in
    let stop : off + (r.0 - 0) < off + w.0
        → (off + (r.0 - 0) < max_file_size)
          × (block_of w.1 i ((off + (r.0 - 0)) / block_size) ≢ 0) =
      λ l. v.reach (off + (r.0 - 0)) (omega arith) (omega arith) in
    let all : r.0 ≡ w.0 = elim (Bool-cases (ltb r.0 w.0)) [
      | inr enough_read ↦ ground (arith, enough_read, q.at_most, enough)
      | inl less ↦ elim q.complete [
        | inl e ↦ e ∙ enough
        | inr (inl out) ↦ absurd (omega (arith, out, (stop (ground (arith, less))).0))
        | inr (inr hole) ↦ absurd ((stop (ground (arith, less))).1 hole)
      ]
    ] in
    (
      all,
      λ a lt.
          let e : off + (a - 0) ≡ off + a = omega arith in
          let e2 : 0 + (off + (a - 0) - off) ≡ a = omega arith in
          let there = v.written (off + (a - 0)) (omega arith) (omega arith) in
          let here : r.1 a ≡ file_byte w.1 i (off + (a - 0)) = ground (arith, q.bytes a, all) in
          here ∙ there ∙ ap buf e2,
    )

-- What `fs_write` has written is what `fs_read` returns. On a disk whose files do not share blocks,
-- let two different open descriptors stand at one offset, of 32 bits, of one file whose inode is in
-- use. Then writing a count of 32 bits through the first returns some number `n`, reading `n` bytes
-- through the second returns `n`, and the bytes read are the first `n` of the writer's buffer.
pub fs_read-fs_write :
    (fd fd' : ℤ) (d d' count : ℕ) (buf buf' : ℕ → ℕ) (s : Fs)
    → checked_fd fd s ≡ some d
    → checked_fd fd' s ≡ some d'
    → (d == d') ≡ false
    → fd_inode s d' ≡ fd_inode s d
    → fd_offset s d' ≡ fd_offset s d
    → fd_offset s d < 2 ^ 32
    → count < 2 ^ 32
    → IsDisk s
    → is_used s (fd_inode s d) ≡ true
    → (n : ℕ) × (t : Fs) × (b : ℕ → ℕ) × (u : Fs) × (fs_write fd (some buf) count s
        ≡ some (pos n, t))
      × (fs_read fd' (some buf') n t ≡ some (pos n, some b, u))
      × ((a : ℕ) → a < n → b a ≡ buf a)
fs_read-fs_write fd fd' d d' count buf buf' s ok ok' ne ei eo word small disk used =
    let w = fs_write_lem fd d count buf s ok small disk used in
    let n = w.0.0 in
    let t = w.0.1 in
    let v = w.2 in
    let same_fd : t.open_files d' ≡ s.open_files d' = v.fd_others d' ne in
    let ei' : fd_inode t d' ≡ fd_inode s d = ap (λ f. f.inode) same_fd ∙ ei in
    let eo' : fd_offset t d' ≡ fd_offset s d = ap (λ f. f.offset) same_fd ∙ eo in
    let low : 0 < n → fd_offset s d + n ≤ max_file_size = λ some_bytes.
      (let last = v.reach (fd_offset s d + (n - 1)) (omega arith) (omega arith) in
        omega (arith, last.0)) in
    let r =
      fs_read_lem fd' d' n buf' t (checked_later fd' d' s t ok' (ap (λ f. f.valid) same_fd))
        (ground (arith, eo', low)) in
    let back = read_back d (fd_inode s d) d' count (fd_offset s d) buf buf' s w.0 r.0 v (
      subst {A = ℕ × ℕ} (λ x. Reads d' x.0 (readable x.1 (t.inodes x.0).size n) 0 x.1 buf' t r.0)
        (λ k. (ei' k, eo' k)) r.2) in
    (n, t, r.0.1, r.0.2, w.1, r.1 ∙ ap (λ k. some (pos k, some r.0.1, r.0.2)) back.0, back.1)
